-- ===== src/Tcp/Done.antt =====
-- src/tcp.c: the start and the end of a connection's state: tcp_alloc_sock, tcp_done with tcp_free,
-- and tcp_reset of src/tcp_input.c.
use level_ip.Prelude.{
  ℕ, ◌*◌, Bool, true, false, List, [], ◌∷◌, none, ℤ, pos, neg, epipe, econnreset, econnrefused,
  replicate,
}
use level_ip.Skbuff.{SkBuff, skb_queue_free}
use level_ip.Tcp.Sock.{
  State, syn_sent, close, close_wait, closing, TcpSock, PollEvents, Effect, freed, wake_sleep,
  socket_deleted, socket_connected, emit, tcp_set_state,
}
use level_ip.Tcp.Rto.{tcp_clear_timers}

abbrev pub no_poll : PollEvents
no_poll = record {
  pollin = false;
  pollpri = false;
  pollout = false;
  pollerr = false;
  pollhup = false;
  pollrdnorm = false;
  pollrdband = false;
  pollwrnorm = false;
  pollwrband = false;
}

abbrev initial_smss : ℕ
initial_smss = 536

unfoldable pub tcp_alloc_sock : Bool → TcpSock
tcp_alloc_sock ipv6 = record {
  state = close;
  err = pos 0;
  ipv6 = ipv6;
  nonblock = false;
  poll = no_poll;
  sport = 0;
  dport = 0;
  saddr = 0;
  daddr = 0;
  flag_fin = false;
  flag_psh = false;
  delacks = 0;
  tcb = record {
    snd_una = 0;
    snd_nxt = 0;
    snd_wnd = 0;
    snd_up = 0;
    snd_wl1 = 0;
    snd_wl2 = 0;
    iss = 0;
    rcv_nxt = 0;
    rcv_wnd = 0;
    real_rcv_wnd = 0;
    irs = 0;
  };
  cong = record {
    smss = initial_smss;
    cwnd = 4 * initial_smss;
    ssthresh = 0xffff_ffff;
    inflight = 0;
    bytes_acked = 0;
    dupacks = 0;
    in_recovery = false;
    last_ack_win = 0;
  };
  timers = record {
    backoff = 0;
    srtt = 0;
    rttvar = 0;
    rto = 0;
    rto_epoch = 0;
    retransmit = none;
    delack = none;
    keepalive = none;
    linger = none;
    next_id = 0;
  };
  options = record {
    rmss = 1460;
    sackok = true;
    sacks_allowed = 0;
    sacklen = 0;
    sacks = replicate 4 (record { left = 0; right = 0 });
    sack_max_right = 0;
    snd_scale = 0;
    wso_allowed = false;
    rcv_scale = 0;
    tsopt = 0;
  };
  receive_queue = [];
  write_queue = [];
  ofo_queue = [];
  log = [];
}

abbrev log_freed : List SkBuff → List Effect → List Effect
log_freed [] log = log
log_freed (skb ∷ q) log = log_freed q (freed skb ∷ log)

unfoldable pub tcp_clear_queues : TcpSock → TcpSock
unfolding skb_queue_free
tcp_clear_queues s = record s { ofo_queue = []; log = log_freed (skb_queue_free s.ofo_queue) s.log }

unfoldable pub tcp_free : TcpSock → TcpSock
unfolding tcp_clear_timers tcp_clear_queues
tcp_free s = emit wake_sleep (tcp_clear_queues (tcp_clear_timers s))

unfoldable pub tcp_done : TcpSock → TcpSock
unfolding tcp_free
tcp_done s = emit socket_deleted (tcp_free (tcp_set_state closing s))

-- The error that tcp_reset reports.
unfoldable pub reset_err : State → ℤ
reset_err syn_sent = neg econnrefused
reset_err close_wait = neg epipe
reset_err _ = neg econnreset

abbrev is_close : State → Bool
is_close close = true
is_close _ = false

abbrev reset_poll : PollEvents
reset_poll = record no_poll { pollout = true; pollwrnorm = true; pollerr = true; pollhup = true }

unfoldable pub tcp_reset : TcpSock → TcpSock
unfolding reset_err tcp_done
tcp_reset s =
    let t = record s { poll = reset_poll } in
    elim (is_close s.state) [ true ↦ t | false ↦ tcp_done (record t { err = reset_err s.state }) ]

-- sock_connected of src/sock.c.
unfoldable pub sock_connected : TcpSock → TcpSock
sock_connected s = emit wake_sleep (
    emit socket_connected (record s {
      err = pos 0;
      poll = record no_poll { pollout = true; pollwrnorm = true; pollwrband = true };
    }))

-- ===== src/Tests.antt =====
-- Concrete inputs on which the theorems are applied: a socket in ESTABLISHED with data both ways.
pub mod Receive
pub mod Transmit
pub mod Network
pub mod Timers
pub mod Datagrams
pub mod Hosts
pub mod Pings
pub mod Sockets
use level_ip.Prelude.{ℕ, ◌+◌, List, [], ◌∷◌, true, false, none, some, length, pos}
use level_ip.Skbuff.{SkBuff, Tcphdr, zero_th, alloc_skb}
use level_ip.Tcp.Sock.{TcpSock, Env, established}
use level_ip.Tcp.Done.{no_poll}

-- A segment with these bytes, its numbers set as tcp_init_segment sets them.
abbrev pub segment : ℕ → List ℕ → SkBuff
segment seq body = record (alloc_skb 1600) {
  refcnt = 1;
  len = length body;
  dlen = length body;
  seq = seq;
  end_seq = seq + length body;
  body = body;
}

-- The header of an acknowledgement, and of a SYN.
abbrev pub ack_header : ℕ → ℕ → Tcphdr
ack_header seq n = record zero_th { seq = seq; ack_seq = n; hl = 5; ack = true; win = 8000 }

abbrev pub syn_header : Tcphdr
syn_header = record zero_th {
  sport = 40000;
  seq = 500;
  hl = 6;
  syn = true;
  win = 64000;
  opts = 2 ∷ 4 ∷ 5 ∷ 180 ∷ [];
}

-- Bytes 100 to 102 wait for the reader, 103 is missing; 5 bytes from 1000 on are in flight.
abbrev pub sock : TcpSock
sock = record {
  state = established;
  err = pos 0;
  ipv6 = false;
  nonblock = false;
  poll = no_poll;
  sport = 80;
  dport = 40000;
  saddr = 1;
  daddr = 2;
  flag_fin = false;
  flag_psh = false;
  delacks = 0;
  tcb = record {
    snd_una = 1000;
    snd_nxt = 1005;
    snd_wnd = 8000;
    snd_up = 0;
    snd_wl1 = 0;
    snd_wl2 = 0;
    iss = 999;
    rcv_nxt = 103;
    rcv_wnd = 4000;
    real_rcv_wnd = 4000;
    irs = 99;
  };
  cong = record {
    smss = 4;
    cwnd = 16;
    ssthresh = 12;
    inflight = 5;
    bytes_acked = 3;
    dupacks = 0;
    in_recovery = false;
    last_ack_win = 8000;
  };
  timers = record {
    backoff = 0;
    srtt = 40;
    rttvar = 10;
    rto = 240;
    rto_epoch = 7;
    retransmit = some (record { id = 3; expires = 5000 });
    delack = none;
    keepalive = none;
    linger = none;
    next_id = 4;
  };
  options = record {
    rmss = 1460;
    sackok = true;
    sacks_allowed = 4;
    sacklen = 0;
    sacks =
        record { left = 0; right = 0 }
        ∷ record { left = 0; right = 0 }
        ∷ record { left = 0; right = 0 }
        ∷ record { left = 0; right = 0 }
        ∷ [];
    sack_max_right = 0;
    snd_scale = 0;
    wso_allowed = false;
    rcv_scale = 0;
    tsopt = 0;
  };
  receive_queue = segment 100 (1 ∷ 2 ∷ 3 ∷ []) ∷ [];
  write_queue = segment 1000 (7 ∷ 8 ∷ 9 ∷ []) ∷ segment 1003 (10 ∷ 11 ∷ []) ∷ [];
  ofo_queue = segment 104 (5 ∷ 6 ∷ []) ∷ [];
  log = [];
}

abbrev pub env : Env
env = record { tick = 5200; fresh_iss = 70000 }

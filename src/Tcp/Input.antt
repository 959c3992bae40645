-- ===== src/Tcp/Input.antt =====
-- src/tcp_input.c: the states CLOSED, LISTEN and SYN-SENT, and tcp_input_state itself.
pub mod Handshake
pub mod Established
use level_ip.Prelude.{
  ℕ, ◌+◌, Bool, true, ◌&&◌, ◌||◌, List, Option, none, some, u32, ltb, leb, if◌then◌else◌,
}
use level_ip.Skbuff.{SkBuff, Tcphdr}
use level_ip.Tcp.Sock.{
  State, listen, syn_sent, syn_received, established, close, TcpSock, Env, Flow, stop, asleep,
  free_skb, tcp_set_state,
}
use level_ip.Tcp.Rto.{tcp_rearm_user_timeout}
use level_ip.Tcp.Output.{tcp_send_ack, tcp_send_reset}
use level_ip.Tcp.Send.{Queued, tcp_send_synack, initial_window}
use level_ip.Tcp.Congestion.{tcp_clean_rto_queue, update_snd_win}
use level_ip.Tcp.ParseOpts.{tcp_parse_opts}
use level_ip.Tcp.Done.{tcp_alloc_sock, tcp_reset, sock_connected}
use level_ip.Tcp.Segment.{otherwise}

unfoldable pub tcp_closed : Tcphdr → SkBuff → TcpSock → TcpSock
tcp_closed th skb s = free_skb skb (if th.rst then s else tcp_send_reset s)

-- fork_socket: the new socket, with the address pair of the listener and the segment.
unfoldable pub fork_socket : Env → Tcphdr → ℕ → TcpSock → TcpSock
fork_socket env th saddr parent =
    let s = tcp_parse_opts th (tcp_set_state syn_received (tcp_alloc_sock parent.ipv6)) in
    let scaled = ltb 0 s.options.snd_scale in
    record s {
      options = record (s.options) {
        wso_allowed = if scaled then true else s.options.wso_allowed;
        rcv_scale = if scaled then s.options.snd_scale else s.options.rcv_scale;
      };
      tcb = record (s.tcb) {
        iss = env.fresh_iss;
        rcv_nxt = u32 (th.seq + 1);
        rcv_wnd = initial_window;
        real_rcv_wnd = initial_window;
        irs = th.seq;
        snd_una = env.fresh_iss;
        snd_nxt = env.fresh_iss;
        snd_wnd = th.win;
        snd_wl1 = 0;
        snd_wl2 = 0;
      };
      saddr = parent.saddr;
      daddr = saddr;
      sport = parent.sport;
      dport = th.sport;
    }

-- `fork_tsk->tcb.snd_nxt++` after tcp_send_synack.
abbrev child_of : Queued → Option TcpSock
child_of none = none
child_of (some (s, ws)) =
    some (record s { tcb = record (s.tcb) { snd_nxt = u32 (s.tcb.snd_nxt + 1) } })

-- tcp_listen: the listening socket, and the socket of the new connection.
unfoldable pub tcp_listen :
    Env → List TcpSock → Tcphdr → SkBuff → ℕ → TcpSock → TcpSock × Option TcpSock
tcp_listen env wakes th skb saddr s = (
  free_skb skb s,
  if th.syn then child_of (tcp_send_synack env.tick wakes (fork_socket env th saddr s)) else none,
)

-- The two tests of the ACK bit in SYN-SENT.
unfoldable pub bad_synsent_ack : Tcphdr → TcpSock → Bool
bad_synsent_ack th s =
    th.ack
    && ((leb th.ack_seq s.tcb.iss || ltb s.tcb.snd_nxt th.ack_seq)
        || (ltb th.ack_seq s.tcb.snd_una || ltb s.tcb.snd_nxt th.ack_seq))

-- The SYN is taken: sequence numbers, and the retransmission queue where an ACK came with it.
unfoldable pub synsent_syn : Tcphdr → TcpSock → TcpSock
synsent_syn th s =
    let t = record s { tcb = record (s.tcb) { rcv_nxt = u32 (th.seq + 1); irs = th.seq } } in
    if th.ack
    then tcp_clean_rto_queue th.ack_seq (record t { tcb = record (t.tcb) { snd_una = th.ack_seq } })
    else t

-- Our SYN was acknowledged: the connection is established.
unfoldable pub synsent_established : ℕ → Tcphdr → TcpSock → TcpSock
synsent_established tick th s =
    let t = record s {
      state = established;
      tcb = record (s.tcb) {
        snd_una = s.tcb.snd_nxt;
        snd_wnd = th.win;
        snd_wl1 = th.seq;
        snd_wl2 = th.ack_seq;
      };
      timers = record (s.timers) { backoff = 0; rto = 1000 };
    } in
    let u = tcp_parse_opts th (tcp_rearm_user_timeout tick (tcp_send_ack t)) in
    sock_connected (update_snd_win th.win u)

abbrev answered : SkBuff → Queued → Flow
answered skb none = asleep
answered skb (some (s, ws)) = stop (free_skb skb s)

unfoldable pub tcp_synsent : ℕ → List TcpSock → Tcphdr → SkBuff → TcpSock → Flow
tcp_synsent tick wakes th skb s =
    let t = synsent_syn th s in
    let crossed = record t { state = syn_received; tcb = record (t.tcb) { snd_una = t.tcb.iss } } in
    if bad_synsent_ack th s
    then stop (free_skb skb s)
    else if th.rst
    then stop (free_skb skb (tcp_reset s))
    else if th.syn
    then if ltb t.tcb.iss t.tcb.snd_una
      then stop (free_skb skb (synsent_established tick th t))
      else answered skb (tcp_send_synack tick wakes crossed)
    else stop (free_skb skb s)

-- The flow of the handler, and the socket that a SYN to a listener creates.
unfoldable pub dispatch :
    State → Env → List TcpSock → Tcphdr → SkBuff → ℕ → TcpSock → Flow × Option TcpSock
dispatch close env wakes th skb saddr s = (stop (tcp_closed th skb s), none)
dispatch listen env wakes th skb saddr s =
    let r = tcp_listen env wakes th skb saddr s in (stop r.0, r.1)
dispatch syn_sent env wakes th skb saddr s = (tcp_synsent env.tick wakes th skb s, none)
dispatch _ env wakes th skb saddr s = (otherwise env.tick th skb s, none)

unfoldable pub tcp_input_state :
    Env → List TcpSock → Tcphdr → SkBuff → ℕ → TcpSock → Flow × Option TcpSock
unfolding dispatch
tcp_input_state env wakes th skb saddr s = dispatch s.state env wakes th skb saddr s

-- ===== src/Tcp/Segment.antt =====
-- src/tcp_input.c: the parts of tcp_input_state, in the order of the source. Each takes the socket
-- as the part before left it; `stop` is a return from the handler. The macros return_tcp_drop and
-- tcp_drop come down to free_skb.
pub mod Acceptable
pub mod Ack
pub mod Graph
pub mod Finish
pub mod Diagram
pub mod Refused
use level_ip.Prelude.{
  ℕ, ◌+◌, Bool, true, false, not, ◌&&◌, ◌||◌, some, u8, u32, ltb, leb, ◌==◌, if◌then◌else◌,
}
use level_ip.Skbuff.{SkBuff, Tcphdr, skb_queue_len, skb_queue_empty}
use level_ip.Tcp.Sock.{
  State, listen, syn_sent, syn_received, established, fin_wait_1, fin_wait_2, close, close_wait,
  closing, last_ack, time_wait, TcpSock, PollEvents, Flow, stop, go, ◌>>=◌, wake_recv, wake_accept,
  conn_queued, send_delack, emit, free_skb, tcp_set_state,
}
use level_ip.Tcp.Rto.{
  tcp_rtt, tcp_enter_time_wait, tcp_stop_delack_timer, tcp_rearm_rto_timer, timer_add, new_timer,
}
use level_ip.Tcp.Output.{tcp_send_ack}
use level_ip.Tcp.Send.{tcp_send_next}
use level_ip.Tcp.Congestion.{
  tcp_clean_rto_queue, tcp_is_dupack, tcp_handle_dupack, tcp_exit_fast_recovery, update_snd_win,
}
use level_ip.Tcp.Data.{tcp_data_queue}
use level_ip.Tcp.Done.{tcp_done}

unfoldable pub tcp_verify_segment : Tcphdr → SkBuff → TcpSock → Bool
tcp_verify_segment th skb s =
    if ltb 0 skb.dlen && (s.tcb.rcv_wnd == 0)
    then false
    else if ltb th.seq s.tcb.rcv_nxt || ltb (u32 (s.tcb.rcv_nxt + s.tcb.rcv_wnd)) th.seq
    then false
    else true

unfoldable pub check_sequence : Tcphdr → SkBuff → TcpSock → Flow
check_sequence th skb s =
    if tcp_verify_segment th skb s
    then go s
    else stop (free_skb skb (if th.rst then s else tcp_send_ack s))

unfoldable pub check_rst : ℕ → Tcphdr → SkBuff → TcpSock → Flow
check_rst tick th skb s =
    if th.rst then stop (emit wake_recv (tcp_enter_time_wait tick (free_skb skb s))) else go s

-- tcp_send_challenge_ack does nothing yet.
unfoldable pub check_syn : Tcphdr → SkBuff → TcpSock → Flow
check_syn th skb s = if th.syn then stop (free_skb skb s) else go s

unfoldable pub check_ack : Tcphdr → SkBuff → TcpSock → Flow
check_ack th skb s = if th.ack then go s else stop (free_skb skb s)

-- snd_una < ack_seq <= snd_nxt
unfoldable pub is_new_ack : Tcphdr → TcpSock → Bool
is_new_ack th s = ltb s.tcb.snd_una th.ack_seq && leb th.ack_seq s.tcb.snd_nxt

unfoldable pub add_tsk_to_parent : TcpSock → TcpSock
add_tsk_to_parent s = emit wake_accept (emit conn_queued s)

abbrev is_syn_received : State → Bool
is_syn_received syn_received = true
is_syn_received _ = false

-- The case TCP_SYN_RECEIVED, which falls through to the others.
unfoldable pub accept_syn_received : Tcphdr → SkBuff → TcpSock → Flow
accept_syn_received th skb s = elim (is_syn_received s.state) [
  | true ↦
      if is_new_ack th s
      then go (add_tsk_to_parent (tcp_set_state established s))
      else stop (free_skb skb s)
  | false ↦ go s
]

unfoldable pub leave_recovery : TcpSock → TcpSock
leave_recovery s = if s.cong.in_recovery then tcp_exit_fast_recovery s else s

unfoldable pub advance_una : ℕ → Tcphdr → TcpSock → TcpSock
advance_una tick th s =
    let t = record s { tcb = record (s.tcb) { snd_una = th.ack_seq } } in
    leave_recovery (tcp_clean_rto_queue th.ack_seq (tcp_rtt tick t))

abbrev set_last_ack_win : ℕ → TcpSock → TcpSock
set_last_ack_win win s = record s { cong = record (s.cong) { last_ack_win = win } }

-- The acknowledgement of ESTABLISHED and the later states, after the test for a duplicate.
unfoldable pub process_ack : ℕ → Tcphdr → SkBuff → TcpSock → Flow
process_ack tick th skb s =
    let t = if is_new_ack th s then advance_una tick th s else s in
    if ltb th.ack_seq t.tcb.snd_una || ltb t.tcb.snd_nxt th.ack_seq
    then stop (free_skb skb t)
    else go (set_last_ack_win th.win (if is_new_ack th t then update_snd_win th.win t else t))

-- The states that the `switch` on the ACK bit lists.
abbrev takes_ack : State → Bool
takes_ack syn_received = true
takes_ack established = true
takes_ack fin_wait_1 = true
takes_ack fin_wait_2 = true
takes_ack close_wait = true
takes_ack closing = true
takes_ack last_ack = true
takes_ack _ = false

unfoldable pub ack_switch : ℕ → Tcphdr → SkBuff → TcpSock → Flow
ack_switch tick th skb s = elim (takes_ack s.state) [
  | true ↦
      if tcp_is_dupack th skb s
      then stop (free_skb skb (set_last_ack_win th.win (tcp_handle_dupack tick s)))
      else process_ack tick th skb s
  | false ↦ go s
]

-- "If the write queue is empty, it means our FIN was acked".
fin_acked : State → Tcphdr → SkBuff → TcpSock → Flow
fin_acked fin_wait_1 th skb s = go (tcp_set_state fin_wait_2 s)
fin_acked closing th skb s = go (tcp_set_state time_wait s)
fin_acked last_ack th skb s = stop (tcp_done (free_skb skb s))
fin_acked time_wait th skb s =
    if s.tcb.rcv_nxt == th.seq then go (tcp_send_ack (record s { flag_fin = true })) else go s
fin_acked _ th skb s = go s

unfoldable pub check_write_queue : Tcphdr → SkBuff → TcpSock → Flow
unfolding fin_acked
check_write_queue th skb s =
    if skb_queue_empty s.write_queue then fin_acked s.state th skb s else go s

abbrev pub receives : State → Bool
receives established = true
receives fin_wait_1 = true
receives fin_wait_2 = true
receives _ = false

-- The segment text: the segment as its pointer shows it afterwards, and the socket.
unfoldable pub process_text : Tcphdr → SkBuff → TcpSock → SkBuff × TcpSock
process_text th skb s =
    if receives s.state && (th.psh || ltb 0 skb.dlen) then tcp_data_queue skb s else (skb, s)

-- The state changes at an in-sequence FIN.
fin_state : State → ℕ → TcpSock → TcpSock
fin_state syn_received tick s = tcp_set_state close_wait s
fin_state established tick s = tcp_set_state close_wait s
fin_state fin_wait_1 tick s =
    if skb_queue_empty s.write_queue then tcp_enter_time_wait tick s else tcp_set_state closing s
fin_state fin_wait_2 tick s = tcp_enter_time_wait tick s
fin_state _ tick s = s

abbrev not_synchronized : State → Bool
not_synchronized close = true
not_synchronized listen = true
not_synchronized syn_sent = true
not_synchronized _ = false

abbrev poll_fin : PollEvents → PollEvents
poll_fin p = record p { pollin = true; pollpri = true; pollrdnorm = true; pollrdband = true }

-- Everything before the last `switch` of the FIN: the sequence number, the events, the ACK.
unfoldable pub receive_fin : TcpSock → TcpSock
receive_fin s = emit wake_recv (
    tcp_send_ack (record s {
      tcb = record (s.tcb) { rcv_nxt = u32 (s.tcb.rcv_nxt + 1) };
      flag_fin = true;
      poll = poll_fin s.poll;
    }))

unfoldable pub check_fin : ℕ → Tcphdr → Bool → SkBuff → TcpSock → Flow
unfolding fin_state
check_fin tick th expected skb s =
    if not (th.fin && expected)
    then go s
    else if not_synchronized s.state
    then stop (free_skb skb s)
    else go (fin_state s.state tick (receive_fin s))

-- Delayed acknowledgement. The counter moves in the test `dlen > 1000 && ++delacks > 1`.
unfoldable pub delay_ack : ℕ → Tcphdr → SkBuff → TcpSock → TcpSock
delay_ack tick th skb s =
    let full = not th.psh && ltb 1000 skb.dlen in
    let t = if full then record s { delacks = u8 (s.delacks + 1) } else s in
    if th.psh || (full && ltb 1 t.delacks)
    then tcp_send_ack (record t { delacks = 0 })
    else if ltb 0 skb.dlen
    then (let u = timer_add tick 200 send_delack t in
        record u { timers = record (u.timers) { delack = some (new_timer tick 200 t) } })
    else t

unfoldable pub congestion_and_delack : ℕ → Tcphdr → Bool → SkBuff → TcpSock → TcpSock
congestion_and_delack tick th expected skb s =
    if receives s.state && expected
    then (let t = tcp_stop_delack_timer s in
        let pending = skb_queue_len t.write_queue in
        if ltb 0 pending
        then tcp_rearm_rto_timer tick (tcp_send_next pending 0 t)
        else delay_ack tick th skb t)
    else s

-- From the URG bit (which is ignored) to the end of the handler.
unfoldable pub process_segment : ℕ → Tcphdr → SkBuff → TcpSock → Flow
process_segment tick th skb s =
    let expected = skb.seq == s.tcb.rcv_nxt in
    let (skb', t) = process_text th skb s in
    do
      u ← check_fin tick th expected skb' t
      stop (free_skb skb' (congestion_and_delack tick th expected skb' u))

-- The "Otherwise" section: a segment for a socket that is neither CLOSED, LISTEN nor SYN-SENT.
unfoldable pub otherwise : ℕ → Tcphdr → SkBuff → TcpSock → Flow
otherwise tick th skb s = do
  a ← check_sequence th skb s
  b ← check_rst tick th skb a
  c ← check_syn th skb b
  d ← check_ack th skb c
  e ← accept_syn_received th skb d
  f ← ack_switch tick th skb e
  g ← check_write_queue th skb f
  process_segment tick th skb g

-- ===== src/Tcp/Timeout.antt =====
-- The timer callbacks of src/tcp_output.c and src/tcp.c. Each runs with the socket's lock held, and
-- `epoch` is what its struct rto_timer_arg carries.
pub mod Epoch
pub mod Loss
use level_ip.Prelude.{
  ℕ, ◌+◌, ◌*◌, ◌/◌, true, false, [], ◌∷◌, none, some, u8, u32, ltb, ◌==◌, if◌then◌else◌, neg,
  etimedout,
}
use level_ip.Skbuff.{SkBuff, SkbQueue, skb_peek, skb_reset_header}
use level_ip.Tcp.Sock.{
  State, syn_sent, established, fin_wait_1, close_wait, last_ack, TcpSock, PollEvents, wake_sleep,
  emit, tcp_set_state,
}
use level_ip.Tcp.Rto.{
  timer_cancel, tcp_release_rto_timer, tcp_release_delack_timer, tcp_rearm_rto_timer,
}
use level_ip.Tcp.Output.{max, tcp_transmit_skb, tcp_send_ack, tcp_send_reset}
use level_ip.Tcp.Done.{tcp_done}

abbrev poll_error : PollEvents → PollEvents
poll_error p = record p { pollout = true; pollerr = true; pollhup = true }

abbrev pub time_out : TcpSock → TcpSock
time_out s = record s { err = neg etimedout; poll = poll_error s.poll }

abbrev pub tcp_conn_retries : ℕ
tcp_conn_retries = 3

-- The part of tcp_connect_rto in SYN-SENT.
unfoldable pub retry_connect : ℕ → TcpSock → TcpSock
retry_connect tick s =
    if ltb tcp_conn_retries s.timers.backoff
    then tcp_done (time_out s)
    else elim (skb_peek s.write_queue) [
      | none ↦ s
      | some skb ↦
          let t = tcp_transmit_skb (skb_reset_header skb) s.tcb.snd_una s in
          tcp_rearm_rto_timer tick
            (record t { timers = record (t.timers) { backoff = u8 (t.timers.backoff + 1) } })
    ]

connecting : State → ℕ → TcpSock → TcpSock
connecting syn_sent tick s = retry_connect tick s
connecting _ tick s = s

unfoldable pub tcp_connect_rto : ℕ → ℕ → TcpSock → TcpSock
unfolding connecting
tcp_connect_rto tick epoch s =
    if epoch == s.timers.rto_epoch
    then (let t = tcp_release_rto_timer s in connecting t.state tick t)
    else s

unfoldable pub unmark : SkbQueue → SkbQueue
unmark [] = []
unmark (skb ∷ q) = record skb { sacked = false } ∷ unmark q

unfoldable pub tcp_sack_clear : TcpSock → TcpSock
unfolding unmark
tcp_sack_clear s = record s {
  write_queue = unmark s.write_queue;
  options = record (s.options) { sack_max_right = 0 };
}

-- tcp_notify_user.
unfoldable pub tcp_notify_user : State → TcpSock → TcpSock
tcp_notify_user close_wait s = emit wake_sleep s
tcp_notify_user _ s = s

fin_state : State → TcpSock → TcpSock
fin_state close_wait s = tcp_set_state last_ack s
fin_state established s = tcp_set_state fin_wait_1 s
fin_state _ s = s

unfoldable pub tcp_handle_fin_state : TcpSock → TcpSock
unfolding fin_state
tcp_handle_fin_state s = fin_state s.state s

-- The loss response of RFC 5681, before the segment goes out again.
unfoldable pub enter_loss : TcpSock → TcpSock
enter_loss s = tcp_sack_clear (record s {
  cong = record (s.cong) {
    ssthresh = max (s.cong.inflight / 2) (2 * s.cong.smss);
    cwnd = s.cong.smss;
    bytes_acked = 0;
  };
})

-- RTO doubling, or giving up above 60 seconds.
unfoldable pub back_off : ℕ → SkBuff → TcpSock → TcpSock
back_off tick skb s =
    let t = record s {
      timers = record (s.timers) {
        rto = u32 (s.timers.rto * 2);
        backoff = u8 (s.timers.backoff + 1);
      };
    } in
    let u = tcp_rearm_rto_timer tick t in
    if ltb 60000 s.timers.rto
    then time_out (tcp_done s)
    else if skb.th.fin
    then tcp_handle_fin_state u
    else u

unfoldable pub retransmit_head : ℕ → TcpSock → TcpSock
retransmit_head tick s = elim (skb_peek s.write_queue) [
  | none ↦
      let t = record s { timers = record (s.timers) { backoff = 0 } } in tcp_notify_user t.state t
  | some skb ↦
      let t = enter_loss s in
      back_off tick skb (tcp_transmit_skb (skb_reset_header skb) t.tcb.snd_una t)
]

unfoldable pub tcp_retransmission_timeout : ℕ → ℕ → TcpSock → TcpSock
tcp_retransmission_timeout tick epoch s =
    if epoch == s.timers.rto_epoch then retransmit_head tick (tcp_release_rto_timer s) else s

unfoldable pub tcp_send_delack : TcpSock → TcpSock
tcp_send_delack s = tcp_send_ack (tcp_release_delack_timer (record s { delacks = 0 }))

abbrev drop_linger : TcpSock → TcpSock
drop_linger s =
    let t = timer_cancel s.timers.linger s in
    record t { timers = record (t.timers) { linger = none } }

unfoldable pub tcp_abort : TcpSock → TcpSock
tcp_abort s = tcp_done (tcp_send_reset s)

unfoldable pub tcp_linger : TcpSock → TcpSock
tcp_linger s = tcp_done (drop_linger s)

unfoldable pub tcp_user_timeout : TcpSock → TcpSock
tcp_user_timeout s = tcp_abort (drop_linger s)

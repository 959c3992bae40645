-- ===== src/Tcp/Kept.antt =====
-- The connection state under the operations of TCP that do not decide on it.
use level_ip.Prelude.{
  if◌then◌else◌, ◌+◌, ◌*◌, ◌/◌, u8, u32, true, ℕ, zero, suc, ◌≡◌, refl, arith, [], ◌∷◌,
}
use level_ip.Skbuff.{SkBuff, SkbQueue, skb_reset_header, skb_queue_len, skb_queue_empty}
use level_ip.Tcp.Sock.{TcpSock, closing, time_wait}
use level_ip.Tcp.Rto.{tcp_rearm_rto_timer, tcp_stop_delack_timer, tcp_enter_time_wait}
use level_ip.Tcp.Output.{max}
use level_ip.Tcp.Send.{send_one, send_next_loop, tcp_send_next, tcp_fast_retransmit}
use level_ip.Tcp.Frame.{
  tcp_send_ack-Untouched, tcp_transmit_skb-Untouched, tcp_fast_retransmit-Untouched,
}
use level_ip.Tcp.Congestion.{count_dupack, tcp_handle_dupack, tcp_enter_fast_recovery}
use level_ip.Tcp.Data.{
  tcp_data_queue, queue_expected, queue_early, tcp_calculate_sacks, tcp_data_insert_ordered,
}
use level_ip.Tcp.Data.Stream.{queue_early-Early}
use level_ip.Tcp.Done.{tcp_done}

send_one-state : (skb : SkBuff) (s : TcpSock) → (send_one skb s).1.state ≡ s.state
unfolding send_one
send_one-state skb s =
    ground (arith, tcp_transmit_skb-Untouched (skb_reset_header skb) s.tcb.snd_nxt s)

send_next_loop-state :
    (n wnd : ℕ) (q : SkbQueue) (s : TcpSock) → (send_next_loop n wnd q s).1.state ≡ s.state
unfolding send_next_loop
send_next_loop-state n wnd [] s = refl
send_next_loop-state zero wnd (x ∷ q) s = refl
send_next_loop-state (suc n) wnd (x ∷ q) s =
    ground (arith, send_next_loop-state n wnd q (send_one x s).1, send_one-state x s)

pub tcp_send_next-state : (n extra : ℕ) (s : TcpSock) → (tcp_send_next n extra s).state ≡ s.state
unfolding tcp_send_next
tcp_send_next-state n extra s = send_next_loop-state n _ s.write_queue s

pub stop_delack-state : (s : TcpSock) → (tcp_stop_delack_timer s).state ≡ s.state
unfolding tcp_stop_delack_timer
stop_delack-state s = ground arith

pub rearm-state : (tick : ℕ) (s : TcpSock) → (tcp_rearm_rto_timer tick s).state ≡ s.state
unfolding tcp_rearm_rto_timer
rearm-state tick s = ground arith

pub enter_recovery-state :
    (tick : ℕ) (s : TcpSock) → (tcp_enter_fast_recovery tick s).state ≡ s.state
unfolding tcp_enter_fast_recovery
enter_recovery-state tick s =
    let half = record s {
      cong = record (s.cong) { ssthresh = max (s.cong.inflight / 2) (2 * s.cong.smss) };
    } in
    let t = tcp_fast_retransmit half in
    let u = record t {
      cong = record (t.cong) {
        cwnd = u32 (t.cong.ssthresh + 3 * t.cong.smss);
        bytes_acked = 0;
        in_recovery = true;
      };
    } in
    ground (arith, tcp_fast_retransmit-Untouched half, rearm-state tick u)

count_dupack-state : (tick : ℕ) (s : TcpSock) → (count_dupack tick s).0.state ≡ s.state
unfolding count_dupack
count_dupack-state tick s = ground (
  arith,
  enter_recovery-state tick
      (record s { cong = record (s.cong) { dupacks = u8 (s.cong.dupacks + 1) } }),
)

pub tcp_handle_dupack-state : (tick : ℕ) (s : TcpSock) → (tcp_handle_dupack tick s).state ≡ s.state
unfolding tcp_handle_dupack
tcp_handle_dupack-state tick s =
    let (t, extra) = count_dupack tick s in
    ground
      (arith, count_dupack-state tick s, tcp_send_next-state (skb_queue_len t.write_queue) extra t)

queue_expected-state : (skb : SkBuff) (s : TcpSock) → (queue_expected skb s).state ≡ s.state
unfolding queue_expected
queue_expected-state skb s = refl

pub tcp_data_queue-state : (skb : SkBuff) (s : TcpSock) → (tcp_data_queue skb s).1.state ≡ s.state
unfolding tcp_data_queue
tcp_data_queue-state skb s = ground (arith, queue_expected-state skb s, queue_early-Early skb s)

pub enter_time_wait-state :
    (tick : ℕ) (s : TcpSock) → (tcp_enter_time_wait tick s).state ≡ time_wait
unfolding tcp_enter_time_wait
enter_time_wait-state tick s = ground arith

pub tcp_done-state : (s : TcpSock) → (tcp_done s).state ≡ closing
unfolding tcp_done
tcp_done-state s = ground arith

-- Whether anything waits in the write queue, under the operations that do not add to it.
send_next_loop-empty :
    (n wnd : ℕ) (q : SkbQueue) (s : TcpSock)
    → skb_queue_empty (send_next_loop n wnd q s).0 ≡ skb_queue_empty q
unfolding send_next_loop
send_next_loop-empty n wnd [] s = refl
send_next_loop-empty zero wnd (x ∷ q) s = refl
send_next_loop-empty (suc n) wnd (x ∷ q) s = ground arith

pub tcp_send_next-empty :
    (n extra : ℕ) (s : TcpSock)
    → skb_queue_empty (tcp_send_next n extra s).write_queue ≡ skb_queue_empty s.write_queue
unfolding tcp_send_next
tcp_send_next-empty n extra s = send_next_loop-empty n _ s.write_queue s

pub stop_delack-queue : (s : TcpSock) → (tcp_stop_delack_timer s).write_queue ≡ s.write_queue
unfolding tcp_stop_delack_timer
stop_delack-queue s = ground arith

pub enter_time_wait-queue :
    (tick : ℕ) (s : TcpSock) → (tcp_enter_time_wait tick s).write_queue ≡ s.write_queue
unfolding tcp_enter_time_wait
enter_time_wait-queue tick s = ground arith

pub tcp_done-queue : (s : TcpSock) → (tcp_done s).write_queue ≡ s.write_queue
unfolding tcp_done
tcp_done-queue s = ground arith

sacks-queue :
    (seq end_seq : ℕ) (s : TcpSock)
    → (tcp_calculate_sacks seq end_seq s).write_queue ≡ s.write_queue
unfolding tcp_calculate_sacks
sacks-queue seq end_seq s = ground arith

queue_early-queue : (skb : SkBuff) (s : TcpSock) → (queue_early skb s).write_queue ≡ s.write_queue
unfolding queue_early
queue_early-queue skb s =
    let t = record s { ofo_queue = (tcp_data_insert_ordered skb s.ofo_queue).0 } in
    let u = if t.options.sackok then tcp_calculate_sacks skb.seq skb.end_seq t else t in
    ground (arith, tcp_send_ack-Untouched u, sacks-queue skb.seq skb.end_seq t)

queue_expected-queue :
    (skb : SkBuff) (s : TcpSock) → (queue_expected skb s).write_queue ≡ s.write_queue
unfolding queue_expected
queue_expected-queue skb s = refl

pub tcp_data_queue-queue :
    (skb : SkBuff) (s : TcpSock) → (tcp_data_queue skb s).1.write_queue ≡ s.write_queue
unfolding tcp_data_queue
tcp_data_queue-queue skb s = ground (arith, queue_expected-queue skb s, queue_early-queue skb s)

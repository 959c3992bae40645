-- ===== src/Tcp/Send/Queued.antt =====
-- src/tcp_output.c: a segment that tcp_queue_transmit_skb does not have to wait for.
use level_ip.Prelude.{if◌then◌else◌, ℕ, ◌+◌, ◌≡◌, false, List, [], ◌∷◌, ◌++◌, some, arith, u32}
use level_ip.Skbuff.{SkBuff, skb_queue_empty}
use level_ip.Tcp.Sock.{TcpSock}
use level_ip.Tcp.Rto.{tcp_rearm_rto_timer}
use level_ip.Tcp.Output.{
  tcp_queue_transmit_skb, tcp_wait_snd_wnd, send_window_shut, enqueue_skb, queue_and_send,
}
use level_ip.Tcp.Frame.{tcp_transmit_skb-Untouched}
use level_ip.Tcp.Send.{fin_skb}

pub rearm-kept :
    (tick : ℕ) (s : TcpSock)
    → let t = tcp_rearm_rto_timer tick s in
      (t.tcb ≡ s.tcb) × (t.cong ≡ s.cong) × (t.write_queue ≡ s.write_queue) × (t.state ≡ s.state)
unfolding tcp_rearm_rto_timer
rearm-kept tick s = ground arith

-- A segment without FIN is at the end of the queue, with the next sequence numbers.
pub record Sends (skb : SkBuff) (s t : TcpSock) : Type 0 where
  pub queue_new :
      t.write_queue
      ≡ s.write_queue
        ++ record skb { seq = s.tcb.snd_nxt; end_seq = u32 (s.tcb.snd_nxt + skb.dlen) } ∷ []
  pub nxt_new : t.tcb.snd_nxt ≡ u32 (s.tcb.snd_nxt + skb.dlen)
  pub una_kept : t.tcb.snd_una ≡ s.tcb.snd_una
  pub rcv_kept : t.tcb.rcv_nxt ≡ s.tcb.rcv_nxt
  pub wnd_kept : t.tcb.snd_wnd ≡ s.tcb.snd_wnd
  pub cong_new : t.cong ≡ record (s.cong) { inflight = u32 (s.cong.inflight + skb.dlen) }
  pub state_kept : t.state ≡ s.state

pub queue_and_send-Sends :
    (tick : ℕ) (skb : SkBuff) (s : TcpSock)
    → skb.th.fin ≡ false
    → Sends skb s (queue_and_send tick skb s)
unfolding queue_and_send enqueue_skb
queue_and_send-Sends tick skb s f =
    let t = enqueue_skb skb s in
    let u = if skb_queue_empty s.write_queue then tcp_rearm_rto_timer tick t else t in
    ground (arith, rearm-kept tick t, tcp_transmit_skb-Untouched skb s.tcb.snd_nxt u)

wait_open :
    (bytes : ℕ) (wakes : List TcpSock) (s : TcpSock)
    → send_window_shut bytes s ≡ false
    → tcp_wait_snd_wnd bytes wakes s ≡ some (s, wakes)
unfolding tcp_wait_snd_wnd
wait_open bytes [] s e = rw e
wait_open bytes (w ∷ ws) s e = rw e

-- With an open window the sender does not sleep.
pub queue_transmit_open :
    (tick : ℕ) (wakes : List TcpSock) (skb : SkBuff) (s : TcpSock)
    → send_window_shut skb.dlen s ≡ false
    → tcp_queue_transmit_skb tick wakes skb s ≡ some (queue_and_send tick skb s, wakes)
unfolding tcp_queue_transmit_skb
queue_transmit_open tick wakes skb s e = rw (wait_open skb.dlen wakes s e, tcp_queue_transmit_skb)

rearm-receive :
    (tick : ℕ) (s : TcpSock) → (tcp_rearm_rto_timer tick s).receive_queue ≡ s.receive_queue
unfolding tcp_rearm_rto_timer
rearm-receive tick s = ground arith

-- A FIN takes the number after the data and is the last of the queue.
pub record SendsFin (s t : TcpSock) : Type 0 where
  pub queue_new :
      t.write_queue
      ≡ s.write_queue
        ++ record (fin_skb s) { seq = s.tcb.snd_nxt; end_seq = u32 s.tcb.snd_nxt } ∷ []
  pub nxt_new : t.tcb.snd_nxt ≡ u32 (u32 s.tcb.snd_nxt + 1)
  pub una_kept : t.tcb.snd_una ≡ s.tcb.snd_una
  pub rcv_kept : t.tcb.rcv_nxt ≡ s.tcb.rcv_nxt
  pub state_kept : t.state ≡ s.state
  pub receive_kept : t.receive_queue ≡ s.receive_queue

pub queue_and_send-SendsFin :
    (tick : ℕ) (s : TcpSock) → SendsFin s (queue_and_send tick (fin_skb s) s)
unfolding queue_and_send enqueue_skb
queue_and_send-SendsFin tick s =
    let t = enqueue_skb (fin_skb s) s in
    let u = if skb_queue_empty s.write_queue then tcp_rearm_rto_timer tick t else t in
    ground (
      arith,
      rearm-kept tick t,
      rearm-receive tick t,
      tcp_transmit_skb-Untouched (fin_skb s) s.tcb.snd_nxt u,
    )

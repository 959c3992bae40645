-- ===== src/Tcp/Frame.antt =====
-- What the transmission of a segment leaves alone: it writes to the log and may use up the pending
-- SACK blocks.
use level_ip.Prelude.{ℕ, ◌≡◌, arith}
use level_ip.Skbuff.{SkBuff}
use level_ip.Tcp.Sock.{TcpSock, free_skb}
use level_ip.Tcp.Output.{tcp_transmit_skb, tcp_send_ack}
use level_ip.Tcp.Send.{tcp_fast_retransmit}

pub record Untouched (s t : TcpSock) : Type 0 where
  pub state_kept : t.state ≡ s.state
  pub err_kept : t.err ≡ s.err
  pub tcb_kept : t.tcb ≡ s.tcb
  pub cong_kept : t.cong ≡ s.cong
  pub timers_kept : t.timers ≡ s.timers
  pub receive_kept : t.receive_queue ≡ s.receive_queue
  pub write_kept : t.write_queue ≡ s.write_queue
  pub ofo_kept : t.ofo_queue ≡ s.ofo_queue
  pub poll_kept : t.poll ≡ s.poll
  pub fin_kept : t.flag_fin ≡ s.flag_fin

pub free_skb-Untouched : (skb : SkBuff) (s : TcpSock) → Untouched s (free_skb skb s)
unfolding free_skb
free_skb-Untouched skb s = ground arith

pub tcp_transmit_skb-Untouched :
    (skb : SkBuff) (seq : ℕ) (s : TcpSock) → Untouched s (tcp_transmit_skb skb seq s)
unfolding tcp_transmit_skb
tcp_transmit_skb-Untouched skb seq s = ground arith

pub tcp_send_ack-Untouched : (s : TcpSock) → Untouched s (tcp_send_ack s)
unfolding tcp_send_ack
tcp_send_ack-Untouched s = ground arith

pub tcp_fast_retransmit-Untouched : (s : TcpSock) → Untouched s (tcp_fast_retransmit s)
unfolding tcp_fast_retransmit tcp_transmit_skb
tcp_fast_retransmit-Untouched s = ground arith

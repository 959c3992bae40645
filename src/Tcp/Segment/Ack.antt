-- ===== src/Tcp/Segment/Ack.antt =====
-- src/tcp_input.c: the sequence variables under an acknowledgement.
use level_ip.Prelude.{◌⊎◌, ℕ, ◌≡◌, ◌≤◌, ◌<◌, arith}
use level_ip.Skbuff.{SkBuff, Tcphdr}
use level_ip.Tcp.Sock.{TcpSock, Always}
use level_ip.Tcp.Rto.{tcp_rtt}
use level_ip.Tcp.Congestion.{tcp_exit_fast_recovery, tcp_clean_rto_queue}
use level_ip.Tcp.Congestion.Acked.{clean-kept}
use level_ip.Tcp.Frame.{free_skb-Untouched}
use level_ip.Tcp.Segment.{process_ack, advance_una, is_new_ack, leave_recovery}

pub tcp_rtt-kept :
    (tick : ℕ) (s : TcpSock)
    → let t = tcp_rtt tick s in
      (t.state ≡ s.state) × (t.tcb ≡ s.tcb) × (t.cong ≡ s.cong) × (t.write_queue ≡ s.write_queue)
unfolding tcp_rtt
tcp_rtt-kept tick s = ground arith

pub leave_recovery-kept :
    (s : TcpSock)
    → let t = leave_recovery s in
      (t.state ≡ s.state) × (t.tcb ≡ s.tcb) × (t.write_queue ≡ s.write_queue)
unfolding leave_recovery tcp_exit_fast_recovery
leave_recovery-kept s = ground arith

-- The acknowledgement number becomes snd_una; nothing else in the sequence variables moves.
pub record Advances (th : Tcphdr) (s t : TcpSock) : Type 0 where
  pub state_kept : t.state ≡ s.state
  pub una_new : t.tcb.snd_una ≡ th.ack_seq
  pub nxt_kept : t.tcb.snd_nxt ≡ s.tcb.snd_nxt
  pub wnd_kept : t.tcb.snd_wnd ≡ s.tcb.snd_wnd

pub advance_una-Advances :
    (tick : ℕ) (th : Tcphdr) (s : TcpSock) → Advances th s (advance_una tick th s)
unfolding advance_una
advance_una-Advances tick th s =
    let a = record s { tcb = record (s.tcb) { snd_una = th.ack_seq } } in
    let b = tcp_rtt tick a in
    let c = tcp_clean_rto_queue th.ack_seq b in
    ground (arith, tcp_rtt-kept tick a, clean-kept th.ack_seq b, leave_recovery-kept c)

-- An acknowledgement of new data, past snd_una and not past snd_nxt, moves snd_una to its number;
-- any other leaves it. Either way the handler does not sleep, snd_una does not go back and does not
-- pass snd_nxt, and snd_nxt and the send window stay: the code that should take over the window of a
-- new acknowledgement is never reached. At the start snd_una is not past snd_nxt.
pub process_ack-una :
    (tick : ℕ) (th : Tcphdr) (skb : SkBuff) (s : TcpSock)
    → s.tcb.snd_una ≤ s.tcb.snd_nxt
    → Always
        (λ t.
          (s.tcb.snd_una ≤ t.tcb.snd_una)
          × (t.tcb.snd_una ≤ t.tcb.snd_nxt)
          × (t.tcb.snd_nxt ≡ s.tcb.snd_nxt)
          × (t.tcb.snd_wnd ≡ s.tcb.snd_wnd)
          × (((s.tcb.snd_una < th.ack_seq)
                × (th.ack_seq ≤ s.tcb.snd_nxt)
                × (t.tcb.snd_una ≡ th.ack_seq))
              ⊎ (((th.ack_seq ≤ s.tcb.snd_una) ⊎ (s.tcb.snd_nxt < th.ack_seq))
                  × (t.tcb.snd_una ≡ s.tcb.snd_una))))
        (process_ack tick th skb s)
unfolding process_ack is_new_ack
process_ack-una tick th skb s h =
    let a = advance_una tick th s in
    ground
      (arith, advance_una-Advances tick th s, free_skb-Untouched skb a, free_skb-Untouched skb s)

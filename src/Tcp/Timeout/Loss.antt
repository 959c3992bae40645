-- ===== src/Tcp/Timeout/Loss.antt =====
-- src/tcp_output.c: what a retransmission timeout does to the connection.
use level_ip.Prelude.{
  ℕ, ◌+◌, ◌*◌, ◌/◌, ◌≡◌, ◌≢◌, ◌≤◌, [], ◌∷◌, false, refl, arith, u32, u8, All, some,
}
use level_ip.Skbuff.{SkBuff, SkbQueue, skb_reset_header}
use level_ip.Tcp.Sock.{TcpSock, syn_sent}
use level_ip.Tcp.Output.{max, tcp_transmit_skb}
use level_ip.Tcp.Rto.{tcp_rearm_rto_timer, tcp_release_rto_timer}
use level_ip.Tcp.Frame.{tcp_transmit_skb-Untouched}
use level_ip.Tcp.Timeout.{
  tcp_retransmission_timeout, retransmit_head, enter_loss, tcp_sack_clear, unmark, back_off,
  tcp_handle_fin_state,
}

abbrev pub IsUnmarked : SkBuff → Type 0
IsUnmarked skb = skb.sacked ≡ false

unmark-IsUnmarked : (q : SkbQueue) → All IsUnmarked (unmark q)
unfolding unmark
unmark-IsUnmarked [] = tt
unmark-IsUnmarked (skb ∷ q) = (refl, unmark-IsUnmarked q)

record Loss (s t : TcpSock) : Type 0 where
  cwnd_one : t.cong.cwnd ≡ s.cong.smss
  ssthresh_half : t.cong.ssthresh ≡ max (s.cong.inflight / 2) (2 * s.cong.smss)
  unmarked : All IsUnmarked t.write_queue
  right_cleared : t.options.sack_max_right ≡ 0
  timers_kept : t.timers ≡ s.timers
  state_kept : t.state ≡ s.state

enter_loss-Loss : (s : TcpSock) → Loss s (enter_loss s)
unfolding enter_loss tcp_sack_clear
enter_loss-Loss s = record {
  cwnd_one = refl;
  ssthresh_half = refl;
  unmarked = unmark-IsUnmarked s.write_queue;
  right_cleared = refl;
  timers_kept = refl;
  state_kept = refl;
}

release-kept :
    (s : TcpSock)
    → let t = tcp_release_rto_timer s in
      (t.state ≡ s.state)
      × (t.cong ≡ s.cong)
      × (t.write_queue ≡ s.write_queue)
      × (t.timers.rto ≡ s.timers.rto)
      × (t.timers.backoff ≡ s.timers.backoff)
      × (t.timers.next_id ≡ s.timers.next_id)
unfolding tcp_release_rto_timer
release-kept s = ground arith

-- The timer after the doubling: the next timeout lies twice as far away.
record BacksOff (tick : ℕ) (s t : TcpSock) : Type 0 where
  rto_doubled : t.timers.rto ≡ 2 * s.timers.rto
  backoff_new : t.timers.backoff ≡ u8 (s.timers.backoff + 1)
  cong_kept : t.cong ≡ s.cong
  queue_kept : t.write_queue ≡ s.write_queue
  armed :
      s.state ≢ syn_sent
      → t.timers.retransmit
        ≡ some (record { id = s.timers.next_id; expires = u32 (tick + 2 * s.timers.rto) })

record Rearms (tick : ℕ) (s t : TcpSock) : Type 0 where
  rto_kept : t.timers.rto ≡ s.timers.rto
  backoff_kept : t.timers.backoff ≡ s.timers.backoff
  cong_kept : t.cong ≡ s.cong
  queue_kept : t.write_queue ≡ s.write_queue
  right_kept : t.options ≡ s.options
  armed :
      s.state ≢ syn_sent
      → t.timers.retransmit
        ≡ some (record { id = s.timers.next_id; expires = u32 (tick + s.timers.rto) })

rearm-Rearms : (tick : ℕ) (s : TcpSock) → Rearms tick s (tcp_rearm_rto_timer tick s)
unfolding tcp_rearm_rto_timer
rearm-Rearms tick s = ground arith

handle_fin-kept :
    (s : TcpSock)
    → let t = tcp_handle_fin_state s in
      (t.timers ≡ s.timers)
      × (t.cong ≡ s.cong)
      × (t.write_queue ≡ s.write_queue)
      × (t.options ≡ s.options)
unfolding tcp_handle_fin_state
handle_fin-kept s = ground arith

back_off-BacksOff :
    (tick : ℕ) (skb : SkBuff) (s : TcpSock)
    → s.timers.rto ≤ 60000
    → BacksOff tick s (back_off tick skb s)
unfolding back_off
back_off-BacksOff tick skb s h =
    let t = record s {
      timers = record (s.timers) {
        rto = u32 (s.timers.rto * 2);
        backoff = u8 (s.timers.backoff + 1);
      };
    } in
    let u = tcp_rearm_rto_timer tick t in ground (arith, rearm-Rearms tick t, handle_fin-kept u)

head-timeout :
    (tick : ℕ) (skb : SkBuff) (q : SkbQueue) (s : TcpSock)
    → s.write_queue ≡ skb ∷ q
    → let l = enter_loss (tcp_release_rto_timer s) in
      tcp_retransmission_timeout tick s.timers.rto_epoch s
      ≡ back_off tick skb (tcp_transmit_skb (skb_reset_header skb) l.tcb.snd_una l)
unfolding tcp_retransmission_timeout retransmit_head
head-timeout tick skb q s e = ground (arith, release-kept s)

-- A timeout of the current epoch outside SYN-SENT, with data outstanding and an RTO of at most 60
-- seconds: the congestion window falls to one segment, ssthresh to half the flight (two segments at
-- least), all SACK marks are forgotten, the RTO doubles, and the timer runs for the new time.
pub tcp_retransmission_timeout_lem :
    (tick : ℕ) (skb : SkBuff) (q : SkbQueue) (s : TcpSock)
    → s.write_queue ≡ skb ∷ q
    → s.timers.rto ≤ 60000
    → s.state ≢ syn_sent
    → let t = tcp_retransmission_timeout tick s.timers.rto_epoch s in
      (t.cong.cwnd ≡ s.cong.smss)
      × (t.cong.ssthresh ≡ max (s.cong.inflight / 2) (2 * s.cong.smss))
      × All IsUnmarked t.write_queue
      × (t.timers.rto ≡ 2 * s.timers.rto)
      × (t.timers.retransmit
          ≡ some (record { id = s.timers.next_id; expires = u32 (tick + 2 * s.timers.rto) }))
tcp_retransmission_timeout_lem tick skb q s e h n =
    let r = tcp_release_rto_timer s in
    let l = enter_loss r in
    let x = tcp_transmit_skb (skb_reset_header skb) l.tcb.snd_una l in
    let rel = release-kept s in
    let k = enter_loss-Loss r in
    let f = tcp_transmit_skb-Untouched (skb_reset_header skb) l.tcb.snd_una l in
    let b = back_off-BacksOff tick skb x (ground (arith, rel, k, f)) in
    rw (head-timeout tick skb q s e) (
      ground (arith, rel, k, f, b),
      ground (arith, rel, k, f, b),
      rw (b.queue_kept, f.write_kept) k.unmarked,
      ground (arith, rel, k, f, b),
      ground (arith, rel, k, f, b),
    )

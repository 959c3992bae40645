-- ===== src/Tcp/Congestion/Acked.antt =====
-- src/tcp_input.c: tcp_clean_rto_queue takes the acknowledged segments off the write queue.
use level_ip.Prelude.{
  Option, ◌∙◌, ℕ, ◌-◌, ◌≡◌, ◌<◌, ◌≤◌, ◌⊎◌, inl, inr, refl, ap, true, false, [], ◌∷◌, ◌++◌, none,
  arith, All, Bool-cases,
}
use level_ip.Skbuff.{SkBuff, SkbQueue, unhold}
use level_ip.Tcp.Sock.{TimerHandle, TcpSock, Cong, free_skb, emit, wake_write}
use level_ip.Tcp.Frame.{free_skb-Untouched}
use level_ip.Tcp.Rto.{tcp_stop_rto_timer}
use level_ip.Tcp.Congestion.{
  stop_when_acked, is_acked, ack_segment, leave_flight, tcp_cong_avoid, clean_loop,
  tcp_clean_rto_queue,
}
use level_ip.Tcp.Data.Read.{queued}

-- FlightSize counts the bytes that wait in the write queue.
abbrev pub IsFlight : TcpSock → Type 0
IsFlight s = (s.cong.inflight ≡ queued s.write_queue) × (s.cong.inflight < 4294967296)

-- The first segment, if there is one, is not acknowledged.
abbrev pub IsUnacked : ℕ → SkbQueue → Type 0
IsUnacked una [] = Unit
IsUnacked una (skb ∷ q) = is_acked una skb ≡ false

tcp_cong_avoid-inflight : (n : ℕ) (c : Cong) → (tcp_cong_avoid n c).inflight ≡ c.inflight
unfolding tcp_cong_avoid
tcp_cong_avoid-inflight n c = ground arith

-- What the acknowledgement of a segment leaves alone, and the flight after it.
pub record Acks (skb : SkBuff) (s t : TcpSock) : Type 0 where
  pub state_kept : t.state ≡ s.state
  pub tcb_kept : t.tcb ≡ s.tcb
  pub flight : s.cong.inflight < 4294967296 → t.cong.inflight ≡ s.cong.inflight - skb.dlen
  pub below : s.cong.inflight < 4294967296 → t.cong.inflight < 4294967296

pub ack_segment-Acks : (skb : SkBuff) (s : TcpSock) → Acks skb s (ack_segment skb s)
unfolding ack_segment leave_flight
ack_segment-Acks skb s = ground (
  arith,
  free_skb-Untouched (unhold skb) (emit wake_write s),
  tcp_cong_avoid-inflight skb.dlen
      (leave_flight skb.dlen (free_skb (unhold skb) (emit wake_write s)).cong),
)

pub record Cleans (una : ℕ) (q : SkbQueue) (s : TcpSock) (r : SkbQueue × TcpSock) : Type 0 where
  pub state_kept : r.1.state ≡ s.state
  pub tcb_kept : r.1.tcb ≡ s.tcb
  pub acked : SkbQueue
  pub split : q ≡ acked ++ r.0
  pub all_acked : All (λ skb. is_acked una skb ≡ true) acked
  pub rest_unacked : IsUnacked una r.0
  pub flight :
      s.cong.inflight < 4294967296
      → s.cong.inflight ≡ queued q
      → (r.1.cong.inflight ≡ queued r.0) × (r.1.cong.inflight < 4294967296)

clean_loop-Cleans : (una : ℕ) (q : SkbQueue) (s : TcpSock) → Cleans una q s (clean_loop una q s)
unfolding clean_loop
clean_loop-Cleans una [] s = record {
  state_kept = refl;
  tcb_kept = refl;
  acked = [];
  split = refl;
  all_acked = tt;
  rest_unacked = tt;
  flight = λ h e. (e, h);
}
clean_loop-Cleans una (skb ∷ q) s = elim (Bool-cases (is_acked una skb)) [
  | inl a ↦
      let k = ack_segment-Acks skb s in
      let ih = clean_loop-Cleans una q (ack_segment skb s) in
      rw a (record {
        state_kept = ih.state_kept ∙ k.state_kept;
        tcb_kept = ih.tcb_kept ∙ k.tcb_kept;
        acked = skb ∷ ih.acked;
        split = ap (◌∷◌ skb) ih.split;
        all_acked = (a, ih.all_acked);
        rest_unacked = ih.rest_unacked;
        flight = λ h e. ih.flight (k.below h) (omega (arith, k.flight h));
      })
  | inr u ↦ rw u (record {
    state_kept = refl;
    tcb_kept = refl;
    acked = [];
    split = refl;
    all_acked = tt;
    rest_unacked = u;
    flight = λ h e. (e, h);
  })
]

-- With an empty queue, no retransmission timer.
abbrev pub IsStopped : SkbQueue → Option TimerHandle → Type 0
IsStopped [] timer = timer ≡ none
IsStopped (skb ∷ q) timer = Unit

pub record Stops (s t : TcpSock) : Type 0 where
  pub state_kept : t.state ≡ s.state
  pub tcb_kept : t.tcb ≡ s.tcb
  pub cong_kept : t.cong ≡ s.cong
  pub queue_kept : t.write_queue ≡ s.write_queue
  pub timer_off : IsStopped s.write_queue t.timers.retransmit

stop_when_acked-IsStopped :
    (q : SkbQueue) (s : TcpSock)
    → s.write_queue ≡ q
    → IsStopped q (stop_when_acked s).timers.retransmit
unfolding stop_when_acked tcp_stop_rto_timer
stop_when_acked-IsStopped [] s e = simp e
stop_when_acked-IsStopped (skb ∷ q) s e = tt

pub stop_when_acked-Stops : (s : TcpSock) → Stops s (stop_when_acked s)
unfolding stop_when_acked tcp_stop_rto_timer
stop_when_acked-Stops s = record {
  state_kept = ground arith;
  tcb_kept = ground arith;
  cong_kept = ground arith;
  queue_kept = ground arith;
  timer_off = stop_when_acked-IsStopped s.write_queue s refl;
}

-- In the numbers of the segment: it was sent, and ends at `una` or before.
abbrev pub IsCovered : ℕ → SkBuff → Type 0
IsCovered una skb = (0 < skb.seq) × (skb.end_seq ≤ una)

-- The first segment, if there is one, was not sent or ends later.
abbrev pub IsUncovered : ℕ → SkbQueue → Type 0
IsUncovered una [] = Unit
IsUncovered una (skb ∷ q) = (skb.seq ≡ 0) ⊎ (una < skb.end_seq)

pub acked-IsCovered :
    (una : ℕ) (q : SkbQueue) → All (λ skb. is_acked una skb ≡ true) q → All (IsCovered una) q
unfolding is_acked
acked-IsCovered una [] h = tt
acked-IsCovered una (skb ∷ q) (h, hs) = (ground arith, acked-IsCovered una q hs)

pub rest-IsUncovered : (una : ℕ) (q : SkbQueue) → IsUnacked una q → IsUncovered una q
unfolding is_acked
rest-IsUncovered una [] h = tt
rest-IsUncovered una (skb ∷ q) h = ground arith

-- An acknowledgement up to `una` takes the segments at the front off the write queue that were sent
-- (seq is not 0) and end at `una` or before, up to the first that was not sent or ends later; the
-- flight size goes on counting the bytes that are left, the state and the sequence variables stay,
-- and with nothing left the retransmission timer is off.
pub tcp_clean_rto_queue-split :
    (una : ℕ) (s : TcpSock)
    → IsFlight s
    → let t = tcp_clean_rto_queue una s in
      (acked : SkbQueue) × (s.write_queue ≡ acked ++ t.write_queue)
      × All (IsCovered una) acked
      × IsUncovered una t.write_queue
      × IsFlight t
      × (t.state ≡ s.state)
      × (t.tcb ≡ s.tcb)
      × IsStopped t.write_queue t.timers.retransmit
unfolding tcp_clean_rto_queue
tcp_clean_rto_queue-split una s f =
    let r = clean_loop una s.write_queue s in
    let c = clean_loop-Cleans una s.write_queue s in
    let e = stop_when_acked-Stops (record (r.1) { write_queue = r.0 }) in
    let (flight, below) = c.flight f.1 f.0 in
    rw (e.queue_kept, e.cong_kept, e.state_kept, e.tcb_kept)
      (
        c.acked,
        c.split,
        acked-IsCovered una c.acked c.all_acked,
        rest-IsUncovered una r.0 c.rest_unacked,
        (flight, below),
        c.state_kept,
        c.tcb_kept,
        e.timer_off,
      )

-- The same, without the account of the flight.
pub clean-kept :
    (una : ℕ) (s : TcpSock)
    → let t = tcp_clean_rto_queue una s in (t.state ≡ s.state) × (t.tcb ≡ s.tcb)
unfolding tcp_clean_rto_queue
clean-kept una s =
    let r = clean_loop una s.write_queue s in
    let c = clean_loop-Cleans una s.write_queue s in
    let e = stop_when_acked-Stops (record (r.1) { write_queue = r.0 }) in
    (e.state_kept ∙ c.state_kept, e.tcb_kept ∙ c.tcb_kept)

-- ===== src/Tcp/Data/Account.antt =====
-- src/tcp_data.c: the advertised window against the bytes that are queued.
use level_ip.Prelude.{
  ℕ, ◌+◌, ◌≡◌, ◌≢◌, ◌≤◌, ◌<◌, refl, ap, ◌∙◌, inl, inr, append_assoc, [], ◌∷◌, ◌++◌, arith, u32,
  ◌==◌, Bool-cases,
}
use level_ip.Skbuff.{SkBuff, SkbQueue, hold}
use level_ip.Tcp.Sock.{TcpSock}
use level_ip.Tcp.Data.{consume_loop, queue_expected}
use level_ip.Tcp.Data.Read.{queued}

queued-append : (q r : SkbQueue) → queued (q ++ r) ≡ queued q + queued r
queued-append [] r = omega arith
queued-append (x ∷ q) r = omega (arith, queued-append q r)

append-tail : (q r : SkbQueue) (x : SkBuff) → (q ++ x ∷ []) ++ r ≡ q ++ x ∷ r
append-tail q r x = append_assoc q (x ∷ []) r

-- Nothing is lost or reordered on the way from the out-of-order queue to the receive queue.
consume_loop-append :
    (nxt : ℕ) (q ready : SkbQueue)
    → let r = consume_loop nxt q ready in r.ready ++ r.ofo ≡ ready ++ q
unfolding consume_loop
consume_loop-append nxt [] ready = refl
consume_loop-append nxt (skb ∷ q) ready = elim (Bool-cases (nxt == skb.seq)) [
  | inl e ↦
      rw e
        (consume_loop-append (u32 (nxt + skb.dlen)) q (ready ++ skb ∷ []) ∙ append-tail ready q skb)
  | inr e ↦ rw e
]

-- What tcp_consume_ofo_queue leaves does not begin with the expected segment.
abbrev pub IsStuck : ℕ → SkbQueue → Type 0
IsStuck nxt [] = Unit
IsStuck nxt (skb ∷ q) = nxt ≢ skb.seq

consume_loop-IsStuck :
    (nxt : ℕ) (q ready : SkbQueue) → let r = consume_loop nxt q ready in IsStuck r.rcv_nxt r.ofo
unfolding consume_loop
consume_loop-IsStuck nxt [] ready = tt
consume_loop-IsStuck nxt (skb ∷ q) ready = elim (Bool-cases (nxt == skb.seq)) [
  | inl e ↦ rw e (consume_loop-IsStuck (u32 (nxt + skb.dlen)) q (ready ++ skb ∷ []))
  | inr e ↦ rw e (ground arith)
]

-- An in-order segment goes behind the receive queue and brings the early segments that follow it:
-- both queues together hold what they held, with the segment between them, and no segment that is
-- due stays in the out-of-order queue.
pub queue_expected-append :
    (skb : SkBuff) (s : TcpSock)
    → let t = queue_expected skb s in
      (t.receive_queue ++ t.ofo_queue ≡ s.receive_queue ++ hold skb ∷ s.ofo_queue)
      × IsStuck t.tcb.rcv_nxt t.ofo_queue
unfolding queue_expected
queue_expected-append skb s = (
  consume_loop-append (u32 (s.tcb.rcv_nxt + skb.dlen)) s.ofo_queue
        (s.receive_queue ++ hold skb ∷ [])
      ∙ append-tail s.receive_queue s.ofo_queue (hold skb),
  consume_loop-IsStuck (u32 (s.tcb.rcv_nxt + skb.dlen)) s.ofo_queue
      (s.receive_queue ++ hold skb ∷ []),
)

-- The advertised window pays for the in-order segment alone, whatever comes over from the
-- out-of-order queue with it: the window falls by the bytes of the segment, and both queues
-- together gain them. The segment has no more bytes than the window.
pub queue_expected-window :
    (skb : SkBuff) (s : TcpSock)
    → s.tcb.real_rcv_wnd < 4294967296
    → skb.dlen ≤ s.tcb.real_rcv_wnd
    → let t = queue_expected skb s in
      (t.tcb.real_rcv_wnd + skb.dlen ≡ s.tcb.real_rcv_wnd)
      × (queued t.receive_queue + queued t.ofo_queue
          ≡ queued s.receive_queue + skb.dlen + queued s.ofo_queue)
unfolding queue_expected
queue_expected-window skb s w d =
    let r =
      consume_loop (u32 (s.tcb.rcv_nxt + skb.dlen)) s.ofo_queue
        (s.receive_queue ++ hold skb ∷ []) in
    (
      omega arith,
      omega (
        arith,
        ap queued (
            consume_loop-append (u32 (s.tcb.rcv_nxt + skb.dlen)) s.ofo_queue
              (s.receive_queue ++ hold skb ∷ [])),
        queued-append r.ready r.ofo,
        queued-append (s.receive_queue ++ hold skb ∷ []) s.ofo_queue,
        queued-append s.receive_queue (hold skb ∷ []),
      ),
    )

-- ===== src/Tcp/Data/Order.antt =====
-- src/tcp_data.c: the order of the out-of-order queue.
use level_ip.Prelude.{
  ℕ, ◌≡◌, ◌≤◌, ◌<◌, ◌⊎◌, inl, inr, refl, ap, Bool-cases, [], ◌∷◌, arith, ltb, ◌==◌, All, true,
  false,
}
use mathlib.Core.List.{Perm}
use mathlib.Core.List.Perm
use level_ip.Skbuff.{SkBuff, SkbQueue, hold}
use level_ip.Tcp.Data.{tcp_data_insert_ordered}

-- Sequence numbers rise, and no segment reaches into the next.
abbrev pub Rises : ℕ → SkbQueue → Type 0
Rises n [] = Unit
Rises n (skb ∷ q) = (n ≤ skb.seq) × (skb.seq < skb.end_seq) × Rises skb.end_seq q

-- The segment does not overlap the given one, unless it begins where that one does.
abbrev pub Apart : SkBuff → SkBuff → Type 0
Apart skb x = (skb.end_seq ≤ x.seq) ⊎ (x.end_seq ≤ skb.seq) ⊎ (skb.seq ≡ x.seq)

-- A segment that is not empty and does not wrap over 2^32, and that overlaps no queued one or begins
-- where a queued one does, leaves the queue in order and without overlaps.
pub tcp_data_insert_ordered-Rises :
    (n : ℕ) (skb : SkBuff) (q : SkbQueue)
    → n ≤ skb.seq
    → skb.seq < skb.end_seq
    → All (Apart skb) q
    → Rises n q
    → Rises n (tcp_data_insert_ordered skb q).0
unfolding tcp_data_insert_ordered
tcp_data_insert_ordered-Rises n skb [] h k a r = omega arith
tcp_data_insert_ordered-Rises n skb (x ∷ q) h k a r =
    ground (arith, tcp_data_insert_ordered-Rises x.end_seq skb q)

insert_later :
    (x skb : SkBuff) (q : SkbQueue)
    → let r = tcp_data_insert_ordered skb q in
      ((r.1 ≡ true) × Perm r.0 (hold skb ∷ q)) ⊎ ((r.1 ≡ false) × (r.0 ≡ q))
      → ((r.1 ≡ true) × Perm (x ∷ r.0) (hold skb ∷ x ∷ q)) ⊎ ((r.1 ≡ false) × (x ∷ r.0 ≡ x ∷ q))
insert_later x skb q (inl (e, p)) = inl (e, Perm.trans (Perm.cons x p) (Perm.swap (hold skb) x q))
insert_later x skb q (inr (e, p)) = inr (e, ap (◌∷◌ x) p)

-- The queue gains the segment, held, and nothing else; or it stays as it was where a segment
-- with that sequence number is met.
pub tcp_data_insert_ordered-perm :
    (skb : SkBuff) (q : SkbQueue)
    → let r = tcp_data_insert_ordered skb q in
      ((r.1 ≡ true) × Perm r.0 (hold skb ∷ q)) ⊎ ((r.1 ≡ false) × (r.0 ≡ q))
unfolding tcp_data_insert_ordered
tcp_data_insert_ordered-perm skb [] = inl (refl, Perm.rfl)
tcp_data_insert_ordered-perm skb (x ∷ q) =
    let later = insert_later x skb q (tcp_data_insert_ordered-perm skb q) in
    elim (Bool-cases (ltb skb.seq x.seq)) [
      | inl lt ↦ elim (Bool-cases (ltb x.seq skb.end_seq)) [
        | inl over ↦ rw (lt, over) later
        | inr clear ↦ rw (lt, clear) (inl (refl, Perm.rfl))
      ]
      | inr ge ↦ elim (Bool-cases (skb.seq == x.seq)) [
        | inl eq ↦ rw (ge, eq) (inr (refl, refl))
        | inr ne ↦ rw (ge, ne) later
      ]
    ]

insert_late :
    (n : ℕ) (skb : SkBuff) (q : SkbQueue)
    → skb.seq < n
    → Rises n q
    → ¬ Rises n (tcp_data_insert_ordered skb q).0
unfolding tcp_data_insert_ordered
insert_late n skb [] h r = λ k. absurd (omega arith)
insert_late n skb (x ∷ q) h r = λ k. ground (arith, insert_late x.end_seq skb q)

-- A segment that begins before a queued one and reaches into it is put behind it ("Could not join
-- skbs" goes on with the loop), so the queue is out of order from then on.
pub tcp_data_insert_ordered-overlap :
    (n : ℕ) (skb x : SkBuff) (q : SkbQueue)
    → Rises n (x ∷ q)
    → skb.seq < x.seq
    → x.seq < skb.end_seq
    → ¬ Rises n (tcp_data_insert_ordered skb (x ∷ q)).0
unfolding tcp_data_insert_ordered
tcp_data_insert_ordered-overlap n skb x q r h k = λ a. ground (arith, insert_late x.end_seq skb q)

-- ===== src/Checksum/Verify.antt =====
-- src/utils.c: a checksum that was filled in verifies.
use level_ip.Prelude.{
  ◌-◌, ap, ◌∙◌, ◌==◌, Bool-cases, length, u32, ℕ, zero, suc, ◌+◌, ◌*◌, ◌/◌, ◌%◌, ◌<◌, ◌≡◌, inl, inr,
  List, [], ◌∷◌, ◌++◌, arith,
}
use level_ip.Checksum.{sum_every_16bits, sum_loop, checksum, fold}

-- A round of folding takes a multiple of 65535 away and keeps a sum above 0 above 0.
record Folds (s t : ℕ) : Type 0 where
  taken : ℕ
  less : s ≡ t + 65535 * taken
  above : 0 < s → 0 < t

fold-Folds : (n s : ℕ) → s < 4294967296 → Folds s (fold n s)
unfolding fold
fold-Folds zero s h = record { taken = 0; less = omega arith; above = λ p. p }
fold-Folds (suc n) s h = elim (Bool-cases (s / 65536 == 0)) [
  | inl e ↦ rw e (record { taken = 0; less = omega arith; above = λ p. p })
  | inr e ↦
      let t = u32 (s % 65536 + s / 65536) in
      let k = fold-Folds n t (omega arith) in
      rw e (record {
        taken = k.taken + s / 65536;
        less = omega (arith, k.less);
        above = λ p. k.above (ground arith);
      })
]

fold_bound : (s : ℕ) → s < 4294967296 → fold 2 s < 65536
unfolding fold
fold_bound s h = ground arith

-- The bytes as 16-bit numbers, added without a bound.
abbrev pub total : List ℕ → ℕ
total [] = 0
total (b ∷ []) = b
total (b ∷ c ∷ bytes) = b + 256 * c + total bytes

pub sum_loop-total :
    (s : ℕ) (bytes : List ℕ) → s + total bytes < 4294967296 → sum_loop s bytes ≡ s + total bytes
unfolding sum_loop
sum_loop-total s [] h = omega arith
sum_loop-total s (b ∷ []) h = omega arith
sum_loop-total s (b ∷ c ∷ bytes) h =
    omega (arith, sum_loop-total (u32 (s + (b + 256 * c))) bytes (omega arith))

total-split :
    (before after : List ℕ) (x y : ℕ)
    → length before % 2 ≡ 0
    → total (before ++ x ∷ y ∷ after) ≡ total (before ++ 0 ∷ 0 ∷ after) + (x + 256 * y)
total-split [] after x y even = omega arith
total-split (b ∷ []) after x y even = absurd (omega arith)
total-split (b ∷ c ∷ before) after x y even =
    omega (arith, total-split before after x y (omega arith))

checksum-fold :
    (bytes : List ℕ) (start : ℕ)
    → start + total bytes < 4294967296
    → checksum bytes start ≡ 65535 - fold 2 (start + total bytes)
unfolding checksum sum_every_16bits
checksum-fold bytes start h =
    let e : u32 (start + sum_loop 0 bytes) ≡ start + total bytes =
      omega (arith, sum_loop-total 0 bytes (omega arith)) in
    rw e (omega (arith, fold_bound (start + total bytes) h))

-- A sum and the complement of what it folds to.
complement : (s : ℕ) → 0 < s → s + 65535 < 4294967296 → fold 2 (s + (65535 - fold 2 s)) ≡ 65535
complement s p h =
    let f = fold-Folds 2 s (omega arith) in
    let b = fold_bound s (omega arith) in
    let t = s + (65535 - fold 2 s) in
    let g = fold-Folds 2 t (omega arith) in
    omega (arith, f.less, b, g.less, g.above (omega arith), fold_bound t (omega arith))

-- Putting the checksum of a packet into it, in a field of two bytes at an even place that was zero,
-- makes the checksum of the whole 0, for a sum above 0 that stays below 2^32.
pub checksum-checksum :
    (before after : List ℕ) (start : ℕ)
    → length before % 2 ≡ 0
    → 0 < start + total (before ++ 0 ∷ 0 ∷ after)
    → start + total (before ++ 0 ∷ 0 ∷ after) + 65535 < 4294967296
    → let c = checksum (before ++ 0 ∷ 0 ∷ after) start in
      checksum (before ++ c % 256 ∷ c / 256 ∷ after) start ≡ 0
checksum-checksum before after start even p h =
    let s = start + total (before ++ 0 ∷ 0 ∷ after) in
    let c = checksum (before ++ 0 ∷ 0 ∷ after) start in
    let bytes = before ++ c % 256 ∷ c / 256 ∷ after in
    let c_is = checksum-fold (before ++ 0 ∷ 0 ∷ after) start (omega arith) in
    let e : start + total bytes ≡ s + (65535 - fold 2 s) =
      omega (arith, total-split before after (c % 256) (c / 256) even, c_is) in
    checksum-fold bytes start (omega (arith, e)) ∙ omega (arith, ap (fold 2) e, complement s p h)

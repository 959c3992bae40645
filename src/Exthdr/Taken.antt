-- ===== src/Exthdr/Taken.antt =====
-- src/ipv6_exthdr.c: what is taken is a chain of headers within the payload.
use level_ip.Prelude.{
  Bool-cases, ap, subst, ◌∙◌, false, ℕ, zero, suc, ◌+◌, ◌≤◌, ◌<◌, ◌≡◌, refl, ◌⊎◌, inl, inr, Option,
  none, some, List, arith,
}
use level_ip.Exthdr.Chain.{HeaderChain}
use level_ip.Exthdr.{
  and_then, true, is_upper, is_option, byte, optlen, pass_header, walk_loop, ipv6_parse_exthdrs,
  Walk,
}

-- Nothing is taken, or what `n` rounds take is a chain of fewer than `n` headers.
abbrev pub IsTaken : List ℕ → ℕ → ℕ → ℕ → ℕ → Option Walk → Type 0
IsTaken bytes plen n h a none = Unit
IsTaken bytes plen n h a (some w) =
    (i : ℕ) × (i < n)
    × HeaderChain bytes plen i h a w.nexthdr w.consumed
    × (is_upper w.nexthdr ≡ true)
    × (w.consumed ≤ plen)

-- The three ways of one round.
abbrev Passes : List ℕ → ℕ → Walk → Option Walk → Type 0
Passes bytes plen w none = Unit
Passes bytes plen w (some v) =
    (v.nexthdr ≡ byte bytes w.ptr)
    × (v.ptr ≡ v.consumed)
    × (v.consumed ≤ plen)
    × (((is_option w.nexthdr ≡ true) × (v.consumed ≡ w.consumed + optlen bytes w.ptr))
        ⊎ ((w.nexthdr ≡ 44) × (v.consumed ≡ w.consumed + 8)))

pass_header-Passes :
    (bytes : List ℕ) (plen : ℕ) (w : Walk)
    → plen < 65536
    → w.ptr ≡ w.consumed
    → Passes bytes plen w (pass_header bytes plen w)
unfolding pass_header
pass_header-Passes bytes plen w p q = ground arith

moved :
    (bytes : List ℕ) (plen i : ℕ) (w v u : Walk) (a : ℕ)
    → w.ptr ≡ w.consumed
    → v.nexthdr ≡ byte bytes w.ptr
    → v.consumed ≡ a
    → HeaderChain bytes plen i v.nexthdr v.consumed u.nexthdr u.consumed
    → HeaderChain bytes plen i (byte bytes w.consumed) a u.nexthdr u.consumed
moved bytes plen i w v u a q h d c =
    subst (λ x. HeaderChain bytes plen i x a u.nexthdr u.consumed) (h ∙ ap (λ x. byte bytes x) q)
      (subst (λ x. HeaderChain bytes plen i v.nexthdr x u.nexthdr u.consumed) d c)

lengthen :
    (bytes : List ℕ) (plen n : ℕ) (w v : Walk) (r : Option Walk)
    → w.ptr ≡ w.consumed
    → Passes bytes plen w (some v)
    → IsTaken bytes plen n v.nexthdr v.consumed r
    → IsTaken bytes plen (suc n) w.nexthdr w.consumed r
lengthen bytes plen n w v none q s t = tt
lengthen bytes plen n w v (some u) q (h, e, b, inl (o, d)) (i, l, c, up, k) =
    let there : v.consumed ≡ w.consumed + optlen bytes w.consumed =
      d ∙ ap (λ x. w.consumed + optlen bytes x) q in
    (
      suc i,
      omega arith,
      HeaderChain.passes_option o (omega (arith, there))
          (moved bytes plen i w v u (w.consumed + optlen bytes w.consumed) q h there c),
      up,
      k,
    )
lengthen bytes plen n w v (some u) q (h, e, b, inr (o, d)) (i, l, c, up, k) = (
  suc i,
  omega arith,
  HeaderChain.passes_fragment o (omega arith) (moved bytes plen i w v u (w.consumed + 8) q h d c),
  up,
  k,
)

resume-IsTaken :
    (bytes : List ℕ) (plen n : ℕ) (w : Walk) (f : Walk → Option Walk) (r : Option Walk)
    → w.ptr ≡ w.consumed
    → Passes bytes plen w r
    → ((v : Walk)
        → v.ptr ≡ v.consumed
        → v.consumed ≤ plen
        → IsTaken bytes plen n v.nexthdr v.consumed (f v))
    → IsTaken bytes plen (suc n) w.nexthdr w.consumed (and_then f r)
resume-IsTaken bytes plen n w f none q s g = tt
resume-IsTaken bytes plen n w f (some v) q s g = lengthen bytes plen n w v (f v) q s (g v s.1 s.2)

walk_loop-IsTaken :
    (n : ℕ) (bytes : List ℕ) (plen : ℕ) (w : Walk)
    → plen < 65536
    → w.ptr ≡ w.consumed
    → w.consumed ≤ plen
    → IsTaken bytes plen n w.nexthdr w.consumed (walk_loop n bytes plen w)
unfolding walk_loop
walk_loop-IsTaken zero bytes plen w p q k = tt
walk_loop-IsTaken (suc n) bytes plen w p q k = elim (Bool-cases (is_upper w.nexthdr)) [
  | inl y ↦ rw y (zero, omega arith, HeaderChain.ends, y, k)
  | inr n0 ↦ rw n0 (
      resume-IsTaken bytes plen n w (λ v. walk_loop n bytes plen v) (pass_header bytes plen w) q
        (pass_header-Passes bytes plen w p q) (λ v e b. walk_loop-IsTaken n bytes plen v p e b))
]

-- Whatever the bytes are, the walk answers within eight rounds, and what it takes is a chain of seven
-- headers at most, each within the payload, that ends at an upper-layer protocol.
pub ipv6_parse_exthdrs-IsTaken :
    (h : ℕ) (bytes : List ℕ) (plen : ℕ)
    → plen < 65536
    → IsTaken bytes plen 8 h 0 (ipv6_parse_exthdrs h bytes plen)
unfolding ipv6_parse_exthdrs
ipv6_parse_exthdrs-IsTaken h bytes plen p =
    walk_loop-IsTaken 8 bytes plen
      (record { nexthdr = h; ptr = 0; consumed = 0; has_frag = false; frag_off = 0; frag_id = 0 }) p
      refl (omega arith)

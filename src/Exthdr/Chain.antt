-- ===== src/Exthdr/Chain.antt =====
-- src/ipv6_exthdr.c: the chains of extension headers that are taken.
use level_ip.Prelude.{
  sym, ap, subst, ◌∙◌, false, ℕ, zero, suc, ◌+◌, ◌≤◌, ◌<◌, ◌≡◌, refl, true, Option, some, List,
  arith,
}
use level_ip.Exthdr.{
  after_fragment, optlen, is_upper, is_option, byte, pass_header, walk_loop, ipv6_parse_exthdrs,
  Walk,
}

-- A chain of `n` headers from the header `h` at `a` to the header `k` at `b` (RFC 8200, section 4), all
-- within `plen` bytes.
pub data HeaderChain (bytes : List ℕ) (plen : ℕ) : ℕ → ℕ → ℕ → ℕ → ℕ → Type 0 where
  ends : {h a : ℕ} → HeaderChain bytes plen 0 h a h a
  passes_option :
      {n h a k b : ℕ}
      → is_option h ≡ true
      → a + optlen bytes a ≤ plen
      → HeaderChain bytes plen n (byte bytes a) (a + optlen bytes a) k b
      → HeaderChain bytes plen (suc n) h a k b
  passes_fragment :
      {n h a k b : ℕ}
      → h ≡ 44
      → a + 8 ≤ plen
      → HeaderChain bytes plen n (byte bytes a) (a + 8) k b
      → HeaderChain bytes plen (suc n) h a k b

-- The end of the walk by the end of the chain.
pub record Reaches (k b : ℕ) (r : Option Walk) : Type 0 where
  pub walk : Walk
  pub found : r ≡ some walk
  pub final : walk.nexthdr ≡ k
  pub consumed : walk.consumed ≡ b

loop_stops :
    (m : ℕ) (bytes : List ℕ) (plen : ℕ) (w : Walk)
    → is_upper w.nexthdr ≡ true
    → walk_loop (suc m) bytes plen w ≡ some w
unfolding walk_loop
loop_stops m bytes plen w u = simp u

loop_passes :
    (m : ℕ) (bytes : List ℕ) (plen : ℕ) (w v : Walk)
    → is_upper w.nexthdr ≡ false
    → pass_header bytes plen w ≡ some v
    → walk_loop (suc m) bytes plen w ≡ walk_loop m bytes plen v
unfolding walk_loop
loop_passes m bytes plen w v u e = simp (u, e)

option_not_upper : (h : ℕ) → is_option h ≡ true → is_upper h ≡ false
option_not_upper h o = ground arith

fragment_not_upper : (h : ℕ) → h ≡ 44 → is_upper h ≡ false
fragment_not_upper h o = ground arith

pub pass_option :
    (bytes : List ℕ) (plen : ℕ) (w : Walk)
    → plen < 65536
    → is_option w.nexthdr ≡ true
    → w.consumed + optlen bytes w.ptr ≤ plen
    → pass_header bytes plen w
      ≡ some (record w {
        nexthdr = byte bytes w.ptr;
        ptr = w.ptr + optlen bytes w.ptr;
        consumed = w.consumed + optlen bytes w.ptr;
      })
unfolding pass_header
pass_option bytes plen w p o r = ground arith

pub pass_fragment :
    (bytes : List ℕ) (plen : ℕ) (w : Walk)
    → plen < 65536
    → w.nexthdr ≡ 44
    → w.consumed + 8 ≤ plen
    → pass_header bytes plen w
      ≡ some (record (after_fragment bytes w) { consumed = w.consumed + 8 })
unfolding pass_header
pass_fragment bytes plen w p o r = ground arith

walk_loop-Reaches :
    (bytes : List ℕ) (plen m n h a k b : ℕ) (w : Walk)
    → plen < 65536
    → n < m
    → is_upper k ≡ true
    → w.nexthdr ≡ h
    → w.ptr ≡ a
    → w.consumed ≡ a
    → HeaderChain bytes plen n h a k b
    → Reaches k b (walk_loop m bytes plen w)
walk_loop-Reaches bytes plen zero n h a k b w p l u e f g c = absurd (omega arith)
walk_loop-Reaches bytes plen (suc m) _ h a _ _ w p l u e f g ends = record {
  walk = w;
  found = loop_stops m bytes plen w (subst (λ x. is_upper x ≡ true) (sym e) u);
  final = e;
  consumed = g;
}
walk_loop-Reaches bytes plen (suc m) _ h a k b w p l u e f g (passes_option o r c) =
    let v = record w {
      nexthdr = byte bytes w.ptr;
      ptr = w.ptr + optlen bytes w.ptr;
      consumed = w.consumed + optlen bytes w.ptr;
    } in
    let same : optlen bytes w.ptr ≡ optlen bytes a = ap (λ x. optlen bytes x) f in
    let is : is_option w.nexthdr ≡ true = subst (λ x. is_option x ≡ true) (sym e) o in
    subst (Reaches k b)
      (sym (
        loop_passes m bytes plen w v (option_not_upper w.nexthdr is)
          (pass_option bytes plen w p is (omega (arith, same)))))
      (walk_loop-Reaches bytes plen m _ _ _ k b v p (omega arith) u (ap (λ x. byte bytes x) f)
        (omega (arith, same)) (omega (arith, same)) c)
walk_loop-Reaches bytes plen (suc m) _ h a k b w p l u e f g (passes_fragment o r c) =
    let v = record (after_fragment bytes w) { consumed = w.consumed + 8 } in
    subst (Reaches k b)
      (sym (
        loop_passes m bytes plen w v (fragment_not_upper w.nexthdr (e ∙ o))
          (pass_fragment bytes plen w p (e ∙ o) (omega arith))))
      (walk_loop-Reaches bytes plen m _ _ _ k b v p (omega arith) u (ap (λ x. byte bytes x) f)
        (omega arith) (omega arith) c)

-- A chain of seven headers at most that lies within the payload and ends at an upper-layer protocol is
-- taken: the result names that protocol and the bytes before it.
pub ipv6_parse_exthdrs-Reaches :
    (bytes : List ℕ) (plen n h k b : ℕ)
    → plen < 65536
    → n ≤ 7
    → is_upper k ≡ true
    → HeaderChain bytes plen n h 0 k b
    → Reaches k b (ipv6_parse_exthdrs h bytes plen)
unfolding ipv6_parse_exthdrs
ipv6_parse_exthdrs-Reaches bytes plen n h k b p l u c =
    walk_loop-Reaches bytes plen 8 n h 0 k b _ p (omega arith) u refl refl refl c

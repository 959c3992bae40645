-- ===== src/Route/Longest.antt =====
-- src/route.c: IPv6 takes the longest matching prefix, and the path MTU goes to that entry.
use level_ip.Prelude.{
  sym, subst, ltb, if◌then◌else◌, ap, ◌∙◌, ◌==◌, ℤ, Bool-cases, pos, negsuc, ◌+◌, ◌-◌, All, ℕ, ◌≤◌,
  ◌≡◌, refl, ◌⊎◌, inl, inr, true, false, ◌&&◌, Option, none, some, List, [], ◌∷◌, arith,
}
use mathlib.Core.List.{Memᴰ}
use level_ip.Route.{
  set_pmtu, each, route6_update_pmtu, matches6, is_better, lookup6_loop, route6_lookup, Rtentry,
}

-- A bound on the entries that match, and on an entry found before.
abbrev pub IsLongest : List ℕ → List Rtentry → Rtentry → Type 0
IsLongest daddr rs x = All (λ r. matches6 daddr r ≡ true → r.prefix_len ≤ x.prefix_len) rs

abbrev IsAbove : Rtentry → Option Rtentry → Type 0
IsAbove x none = Unit
IsAbove x (some b) = b.prefix_len ≤ x.prefix_len

-- Nothing matches, or the entry is one of the table that matches, of greatest prefix length.
abbrev pub IsBest : List ℕ → List Rtentry → Option Rtentry → Type 0
IsBest daddr rs none = All (λ r. matches6 daddr r ≡ false) rs
IsBest daddr rs (some x) = Memᴰ x rs × (matches6 daddr x ≡ true) × IsLongest daddr rs x

-- The loop from an entry found before.
abbrev Improves : List ℕ → List Rtentry → Option Rtentry → Option Rtentry → Type 0
Improves daddr rs best none = (best ≡ none) × All (λ r. matches6 daddr r ≡ false) rs
Improves daddr rs best (some x) =
    ((best ≡ some x) ⊎ (Memᴰ x rs × (matches6 daddr x ≡ true)))
    × IsAbove x best
    × IsLongest daddr rs x

Improves-taken :
    (daddr : List ℕ) (rt : Rtentry) (rs : List Rtentry) (best r : Option Rtentry)
    → matches6 daddr rt ≡ true
    → is_better rt best ≡ true
    → Improves daddr rs (some rt) r
    → Improves daddr (rt ∷ rs) best r
unfolding is_better
Improves-taken daddr rt rs best none m b h = absurd cc
Improves-taken daddr rt rs none (some x) m b (inl e, above, longest) =
    (inr (Memᴰ.head cc, cc), tt, ((λ q. above), longest))
Improves-taken daddr rt rs none (some x) m b (inr k, above, longest) =
    (inr (Memᴰ.tail k.0, k.1), tt, ((λ q. above), longest))
Improves-taken daddr rt rs (some c) (some x) m b (inl e, above, longest) =
    (inr (Memᴰ.head cc, cc), ground arith, ((λ q. above), longest))
Improves-taken daddr rt rs (some c) (some x) m b (inr k, above, longest) =
    (inr (Memᴰ.tail k.0, k.1), ground arith, ((λ q. above), longest))

Improves-passed :
    (daddr : List ℕ) (rt : Rtentry) (rs : List Rtentry) (best r : Option Rtentry)
    → (matches6 daddr rt && is_better rt best) ≡ false
    → Improves daddr rs best r
    → Improves daddr (rt ∷ rs) best r
unfolding is_better
Improves-passed daddr rt rs none none m (e, h) = (e, (ground arith, h))
Improves-passed daddr rt rs (some c) none m (e, h) = absurd cc
Improves-passed daddr rt rs none (some x) m (inl e, above, longest) = absurd cc
Improves-passed daddr rt rs none (some x) m (inr k, above, longest) =
    (inr (Memᴰ.tail k.0, k.1), tt, (ground arith, longest))
Improves-passed daddr rt rs (some c) (some x) m (inl e, above, longest) =
    (inl e, above, (ground arith, longest))
Improves-passed daddr rt rs (some c) (some x) m (inr k, above, longest) =
    (inr (Memᴰ.tail k.0, k.1), above, (ground arith, longest))

loop-Improves :
    (daddr : List ℕ) (rs : List Rtentry) (best : Option Rtentry)
    → Improves daddr rs best (lookup6_loop daddr rs best)
unfolding lookup6_loop
loop-Improves daddr [] none = (refl, tt)
loop-Improves daddr [] (some b) = (inl refl, omega arith, tt)
loop-Improves daddr (rt ∷ rs) best = elim (Bool-cases (matches6 daddr rt && is_better rt best)) [
  | inl y ↦ rw y (
      Improves-taken daddr rt rs best (lookup6_loop daddr rs (some rt)) (ground arith)
        (ground arith) (loop-Improves daddr rs (some rt)))
  | inr n ↦ rw n (
      Improves-passed daddr rt rs best (lookup6_loop daddr rs best) n (loop-Improves daddr rs best))
]

IsBest-of :
    (daddr : List ℕ) (rs : List Rtentry) (r : Option Rtentry)
    → Improves daddr rs none r
    → IsBest daddr rs r
IsBest-of daddr rs none h = h.1
IsBest-of daddr rs (some x) (inl e, above, longest) = absurd cc
IsBest-of daddr rs (some x) (inr k, above, longest) = (k.0, k.1, longest)

-- The result is an entry of the table that matches, with the longest prefix of all that do; and there
-- is none only if no entry matches.
pub route6_lookup-IsBest :
    (daddr : List ℕ) (routes : List Rtentry) → IsBest daddr routes (route6_lookup daddr routes)
unfolding route6_lookup
route6_lookup-IsBest daddr routes =
    IsBest-of daddr routes (lookup6_loop daddr routes none) (loop-Improves daddr routes none)

abbrev on_found : (Rtentry → Rtentry) → Option Rtentry → Option Rtentry
on_found f none = none
on_found f (some rt) = some (f rt)

set_pmtu-matches6 :
    (daddr : List ℕ) (id mtu : ℕ) (rt : Rtentry)
    → matches6 daddr (set_pmtu id mtu rt) ≡ matches6 daddr rt
unfolding set_pmtu matches6
set_pmtu-matches6 daddr id mtu rt = elim (Bool-cases (rt.id == id)) [ inl y ↦ rw y | inr n ↦ rw n ]

set_pmtu-is_better :
    (id mtu : ℕ) (rt : Rtentry) (best : Option Rtentry)
    → is_better (set_pmtu id mtu rt) (on_found (set_pmtu id mtu) best) ≡ is_better rt best
unfolding set_pmtu is_better
set_pmtu-is_better id mtu rt none = refl
set_pmtu-is_better id mtu rt (some b) = ground arith

set_pmtu-chosen :
    (daddr : List ℕ) (id mtu : ℕ) (rt : Rtentry) (best : Option Rtentry)
    → (matches6 daddr (set_pmtu id mtu rt)
        && is_better (set_pmtu id mtu rt) (on_found (set_pmtu id mtu) best))
      ≡ (matches6 daddr rt && is_better rt best)
set_pmtu-chosen daddr id mtu rt best =
    rw (set_pmtu-matches6 daddr id mtu rt, set_pmtu-is_better id mtu rt best)

-- A change of the path MTU does not change which entry is found.
loop-each :
    (daddr : List ℕ) (id mtu : ℕ) (rs : List Rtentry) (best : Option Rtentry)
    → lookup6_loop daddr (each (set_pmtu id mtu) rs) (on_found (set_pmtu id mtu) best)
      ≡ on_found (set_pmtu id mtu) (lookup6_loop daddr rs best)
unfolding lookup6_loop each
loop-each daddr id mtu [] best = refl
loop-each daddr id mtu (rt ∷ rs) best =
    let f = set_pmtu id mtu in
    let found = matches6 daddr rt && is_better rt best in
    subst
      (λ b.
        lookup6_loop daddr (each f rs) (if b then some (f rt) else on_found f best)
        ≡ on_found f (lookup6_loop daddr rs (if found then some rt else best)))
      (sym (set_pmtu-chosen daddr id mtu rt best))
      (elim (Bool-cases found) [
        | inl y ↦ rw y (loop-each daddr id mtu rs (some rt))
        | inr n ↦ rw n (loop-each daddr id mtu rs best)
      ])

-- What an update answers and leaves, by the entry that was found.
abbrev pub IsUpdated : List ℕ → ℕ → List Rtentry → Option Rtentry → ℤ × List Rtentry → Type 0
IsUpdated daddr mtu routes none r = r ≡ (negsuc 0, routes)
IsUpdated daddr mtu routes (some rt) r =
    (r.0 ≡ pos 0) × (route6_lookup daddr r.1 ≡ some (record rt { pmtu = mtu + (1280 - mtu) }))

clamp : (mtu : ℕ) → (if ltb mtu 1280 then 1280 else mtu) ≡ mtu + (1280 - mtu)
clamp mtu = ground arith

set_pmtu_self : (mtu : ℕ) (rt : Rtentry) → set_pmtu rt.id mtu rt ≡ record rt { pmtu = mtu }
unfolding set_pmtu
set_pmtu_self mtu rt = ground arith

found_again :
    (daddr : List ℕ) (mtu : ℕ) (routes : List Rtentry) (rt : Rtentry)
    → route6_lookup daddr routes ≡ some rt
    → route6_lookup daddr (each (set_pmtu rt.id mtu) routes) ≡ some (record rt { pmtu = mtu })
unfolding route6_lookup
found_again daddr mtu routes rt e =
    loop-each daddr rt.id mtu routes none
    ∙ ap (on_found (set_pmtu rt.id mtu)) e
    ∙ ap some (set_pmtu_self mtu rt)

updated :
    (daddr : List ℕ) (mtu : ℕ) (routes : List Rtentry) (r : Option Rtentry)
    → route6_lookup daddr routes ≡ r
    → IsUpdated daddr mtu routes r (route6_update_pmtu daddr mtu routes)
unfolding route6_update_pmtu
updated daddr mtu routes none e = rw (route6_update_pmtu, e)
updated daddr mtu routes (some rt) e =
    rw (route6_update_pmtu, e, clamp mtu) (refl, found_again daddr (mtu + (1280 - mtu)) routes rt e)

-- A Packet Too Big message sets the path MTU of the entry that a lookup of that address finds, to the
-- reported MTU and to 1280 at least: the next lookup finds that entry with the new value. With no
-- route it answers -1, and the table stays.
pub route6_update_pmtu-IsUpdated :
    (daddr : List ℕ) (mtu : ℕ) (routes : List Rtentry)
    → IsUpdated daddr mtu routes (route6_lookup daddr routes) (route6_update_pmtu daddr mtu routes)
route6_update_pmtu-IsUpdated daddr mtu routes =
    updated daddr mtu routes (route6_lookup daddr routes) refl

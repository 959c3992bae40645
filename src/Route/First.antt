-- ===== src/Route/First.antt =====
-- src/route.c: IPv4 takes the first entry that matches, else the last entry.
use level_ip.Prelude.{All, ℕ, ◌≡◌, true, false, Option, none, some, List, [], ◌∷◌, ◌++◌, arith}
use level_ip.Route.{matches4, lookup_loop, route_lookup, Rtentry}

loop_skips :
    (daddr : ℕ) (before rest : List Rtentry) (x : Option Rtentry) (rt : Rtentry)
    → All (λ r. matches4 daddr r ≡ false) before
    → ((y : Option Rtentry) → lookup_loop daddr rest y ≡ some rt)
    → lookup_loop daddr (before ++ rest) x ≡ some rt
unfolding lookup_loop
loop_skips daddr [] rest x rt h k = k x
loop_skips daddr (r ∷ rs) rest x rt h k = rw h.0 (loop_skips daddr rs rest (some r) rt h.1 k)

loop_takes :
    (daddr : ℕ) (after : List Rtentry) (rt : Rtentry) (x : Option Rtentry)
    → matches4 daddr rt ≡ true
    → lookup_loop daddr (rt ∷ after) x ≡ some rt
unfolding lookup_loop
loop_takes daddr after rt x m = simp m

loop_ends :
    (daddr : ℕ) (rt : Rtentry) (x : Option Rtentry) → lookup_loop daddr (rt ∷ []) x ≡ some rt
unfolding lookup_loop
loop_ends daddr rt x = ground arith

-- The first IPv4 entry that matches is the result, whatever stands behind it.
pub route_lookup_first :
    (daddr : ℕ) (before after : List Rtentry) (rt : Rtentry)
    → All (λ r. matches4 daddr r ≡ false) before
    → matches4 daddr rt ≡ true
    → route_lookup daddr (before ++ rt ∷ after) ≡ some rt
unfolding route_lookup
route_lookup_first daddr before after rt h m =
    loop_skips daddr before (rt ∷ after) none rt h (λ y. loop_takes daddr after rt y m)

-- With no match among the entries before it the last entry is the result, whether it matches or not
-- and also where it is an IPv6 route: the variable is set before the family is compared.
pub route_lookup_last :
    (daddr : ℕ) (before : List Rtentry) (rt : Rtentry)
    → All (λ r. matches4 daddr r ≡ false) before
    → route_lookup daddr (before ++ rt ∷ []) ≡ some rt
unfolding route_lookup
route_lookup_last daddr before rt h =
    loop_skips daddr before (rt ∷ []) none rt h (λ y. loop_ends daddr rt y)

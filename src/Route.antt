-- ===== src/Route.antt =====
-- src/route.c: the routing table. An IPv4 address is a number, an IPv6 address the list of its 16
-- bytes; `id` is the address of the entry, which the callers keep as a pointer.
pub mod First
pub mod Longest
use Prim.Native.Nat.{bit_and}
use level_ip.Prelude.{
  ltb, ◌==◌, if◌then◌else◌, get_or, replicate, ℤ, pos, negsuc, u8, zero, suc, ◌-◌, ◌*◌, ◌/◌, ◌%◌,
  ◌^◌, Bool, true, false, not, ◌&&◌, ◌||◌, Option, none, some, List, [], ◌∷◌, ◌++◌, ℕ,
}

-- struct rtentry. `v6` is family == AF_INET6; one of the two destinations and gateways is in use.
pub record Rtentry : Type 0 where
  pub id : ℕ
  pub v6 : Bool
  pub dst4 : ℕ
  pub dst6 : List ℕ
  pub gateway4 : ℕ
  pub gateway6 : List ℕ
  pub netmask : ℕ
  pub prefix_len : ℕ
  pub flags : ℕ
  pub metric : ℕ
  pub pmtu : ℕ
  pub dev : ℕ

abbrev pub zero6 : List ℕ
zero6 = replicate 16 0

-- route_alloc and route_add; `id` is what malloc returns.
unfoldable pub route_add : ℕ → ℕ → ℕ → ℕ → ℕ → ℕ → ℕ → List Rtentry → List Rtentry
route_add id dst gateway netmask flags metric dev routes =
    routes
    ++ record {
      id = id;
      v6 = false;
      dst4 = dst;
      dst6 = zero6;
      gateway4 = gateway;
      gateway6 = zero6;
      netmask = netmask;
      prefix_len = 0;
      flags = flags;
      metric = metric;
      pmtu = 0;
      dev = dev;
    }
      ∷ []

-- route6_alloc and route6_add, for addresses that are given.
unfoldable pub route6_add : ℕ → List ℕ → List ℕ → ℕ → ℕ → ℕ → ℕ → List Rtentry → List Rtentry
route6_add id dst gateway prefix_len flags metric dev routes =
    routes
    ++ record {
      id = id;
      v6 = true;
      dst4 = 0;
      dst6 = dst;
      gateway4 = 0;
      gateway6 = gateway;
      netmask = 0;
      prefix_len = prefix_len;
      flags = flags;
      metric = metric;
      pmtu = 0;
      dev = dev;
    }
      ∷ []

unfoldable pub route6_add_default : ℕ → List ℕ → ℕ → ℕ → ℕ → List Rtentry → List Rtentry
unfolding route6_add
route6_add_default id gateway flags metric dev routes =
    route6_add id zero6 gateway 0 flags metric dev routes

-- The test of route_lookup on one entry.
unfoldable pub matches4 : ℕ → Rtentry → Bool
matches4 daddr rt = not rt.v6 && (bit_and daddr rt.netmask == bit_and rt.dst4 rt.netmask)

-- The loop of route_lookup. The variable `rt` is set before the family is looked at.
unfoldable pub lookup_loop : ℕ → List Rtentry → Option Rtentry → Option Rtentry
lookup_loop daddr [] rt = rt
lookup_loop daddr (r ∷ rs) rt =
    let rest = lookup_loop daddr rs (some r) in if matches4 daddr r then some r else rest

unfoldable pub route_lookup : ℕ → List Rtentry → Option Rtentry
unfolding lookup_loop
route_lookup daddr routes = lookup_loop daddr routes none

-- The comparison of the first `n` bytes.
unfoldable pub same_bytes : ℕ → List ℕ → List ℕ → Bool
same_bytes zero a b = true
same_bytes (suc n) a b = same_bytes n a b && (get_or a n 0 == get_or b n 0)

-- The comparison of prefix_len bits; mask = (uint8_t)(0xFF << (8 - bits)).
unfoldable pub matches6 : List ℕ → Rtentry → Bool
unfolding same_bytes
matches6 daddr rt =
    let bytes = rt.prefix_len / 8 in
    let bits = rt.prefix_len % 8 in
    let mask = u8 (255 * 2 ^ (8 - bits)) in
    let part = bit_and (get_or daddr bytes 0) mask == bit_and (get_or rt.dst6 bytes 0) mask in
    rt.v6 && same_bytes bytes daddr rt.dst6 && (not (ltb 0 bits && ltb bytes 16) || part)

-- `best == NULL || rt->prefix_len > best_len`, where best_len is the length of `best`.
unfoldable pub is_better : Rtentry → Option Rtentry → Bool
is_better rt none = true
is_better rt (some best) = ltb best.prefix_len rt.prefix_len

unfoldable pub lookup6_loop : List ℕ → List Rtentry → Option Rtentry → Option Rtentry
lookup6_loop daddr [] best = best
lookup6_loop daddr (rt ∷ rs) best =
    lookup6_loop daddr rs (if matches6 daddr rt && is_better rt best then some rt else best)

unfoldable pub route6_lookup : List ℕ → List Rtentry → Option Rtentry
unfolding lookup6_loop
route6_lookup daddr routes = lookup6_loop daddr routes none

-- The write `rt->pmtu = mtu` through the pointer.
unfoldable pub set_pmtu : ℕ → ℕ → Rtentry → Rtentry
set_pmtu id mtu rt = if rt.id == id then record rt { pmtu = mtu } else rt

unfoldable pub each : (Rtentry → Rtentry) → List Rtentry → List Rtentry
each f [] = []
each f (rt ∷ rs) = f rt ∷ each f rs

-- The result, and the table.
unfoldable pub route6_update_pmtu : List ℕ → ℕ → List Rtentry → ℤ × List Rtentry
unfolding each set_pmtu
route6_update_pmtu daddr mtu routes =
    let clamped : ℕ = if ltb mtu 1280 then 1280 else mtu in
    elim (route6_lookup daddr routes) [
      | none ↦ (negsuc 0, routes)
      | some rt ↦ (pos 0, each (set_pmtu rt.id clamped) routes)
    ]

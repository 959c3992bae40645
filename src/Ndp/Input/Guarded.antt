-- ===== src/Ndp/Input/Guarded.antt =====
-- src/ndp.c: hop limit 255 guards what is learnt from the link.
use level_ip.Ipv6.Input.Preserved.{rcv-IfSome}
use level_ip.Route.{Rtentry}
use level_ip.Icmp6.{output_state, icmpv6_incoming, icmpv6_echo_reply}
use level_ip.Ipv6.Output.{ipv6_output, ipv6_output_ex}
use level_ip.Route.{route6_lookup}
use level_ip.Ipv6.Input.{dispatch6}
use level_ip.Prelude.{
  none, ◌⊎◌, drop, ◌==◌, Bool-cases, Option-cases, ℕ, ◌≡◌, refl, ◌≢◌, inl, inr, some, List, [], ◌∷◌,
  ◌++◌, arith,
}
use level_ip.Ndp.Input.{ndp_incoming}
use level_ip.Ndp.Bound.{IfSome, IfSome-some}
use level_ip.Ndp.{
  queued, new_entry, ndp_entry_alloc, ndp_lookup, write_entry, ndp_get_hwaddr, ndp_queue_skb,
  ndp_send_ns,
}
use level_ip.Ipv6.Output.{next_hop, queue_behind, dst6_neigh_output}
use level_ip.Ipv6.Input.{ipv6_rcv}
use level_ip.Exthdr.{Walk, ipv6_parse_exthdrs}
use level_ip.Ipv6.{Ipv6Hdr, Packet, EthFrame, NdpEntry, Host, emit, netdev_transmit}

-- The device with its addresses and their states, the DAD and the link-layer addresses in use.
pub record Guards (h s : Host) : Type 0 where
  pub dev : s.netdev ≡ h.netdev
  pub dad : s.dad ≡ h.dad
  pub known : (ip6 : List ℕ) → ndp_get_hwaddr ip6 s.ndp_cache ≡ ndp_get_hwaddr ip6 h.ndp_cache

get_hwaddr-queued :
    (a ip6 : List ℕ) (skb : Packet) (cache : List NdpEntry)
    → ndp_get_hwaddr a (write_entry ip6 (queued skb) cache) ≡ ndp_get_hwaddr a cache
unfolding ndp_get_hwaddr write_entry
get_hwaddr-queued a ip6 skb [] = refl
get_hwaddr-queued a ip6 skb (e ∷ cache) = ground (arith, get_hwaddr-queued a ip6 skb cache)

get_hwaddr-append :
    (a ip6 : List ℕ) (tick : ℕ) (cache : List NdpEntry)
    → ndp_get_hwaddr a (cache ++ new_entry ip6 tick ∷ []) ≡ ndp_get_hwaddr a cache
unfolding ndp_get_hwaddr new_entry
get_hwaddr-append a ip6 tick [] = ground arith
get_hwaddr-append a ip6 tick (e ∷ cache) = ground (arith, get_hwaddr-append a ip6 tick cache)

module _ (h₀ : Host) where
  queue_skb-Guards :
      (hop : List ℕ) (skb : Packet) (h : Host) → Guards h₀ h → Guards h₀ (ndp_queue_skb hop skb h).1
  unfolding ndp_queue_skb
  queue_skb-Guards hop skb h g = record {
    dev = ground (arith, g.dev);
    dad = ground (arith, g.dad);
    known = λ a. ground (arith, g.known a, get_hwaddr-queued a hop skb h.ndp_cache);
  }

  alloc-Guards : (hop : List ℕ) (h : Host) → Guards h₀ h → Guards h₀ (ndp_entry_alloc hop h).1
  unfolding ndp_entry_alloc
  alloc-Guards hop h g = record {
    dev = ground (arith, g.dev);
    dad = ground (arith, g.dad);
    known = λ a. ground (arith, g.known a, get_hwaddr-append a hop h.tick h.ndp_cache);
  }

  queue_behind-Guards :
      (hop : List ℕ) (skb : Packet) (h : Host) → Guards h₀ h → Guards h₀ (queue_behind hop skb h)
  unfolding queue_behind
  queue_behind-Guards hop skb h g =
      let c = alloc-Guards hop h g in
      elim (Option-cases (ndp_lookup hop h.ndp_cache)) [
        | inl e ↦ elim (Bool-cases (ndp_entry_alloc hop h).0) [
          | inl y ↦ rw (e, y, queue_behind) (queue_skb-Guards hop skb _ c)
          | inr n ↦ rw (e, n, queue_behind) c
        ]
        | inr (d, e) ↦ rw (e, queue_behind) (queue_skb-Guards hop skb h g)
      ]

  pub neigh_output-Guards :
      (rt : Rtentry) (skb : Packet) (h : Host)
      → Guards h₀ h
      → Guards h₀ (dst6_neigh_output rt skb h).1
  unfolding dst6_neigh_output ndp_send_ns netdev_transmit emit
  neigh_output-Guards rt skb h g =
      let hop = next_hop rt skb in
      elim (Option-cases (ndp_get_hwaddr hop h.ndp_cache)) [
        | inl e ↦
            rw (e, dst6_neigh_output)
              (queue_behind-Guards hop skb _ (record { dev = g.dev; dad = g.dad; known = g.known }))
        | inr (dmac, e) ↦
            rw (e, dst6_neigh_output) (record { dev = g.dev; dad = g.dad; known = g.known })
      ]

  unguarded :
      (id : ℕ) (skb : EthFrame) (msg : List ℕ) (h : Host)
      → skb.packet.hdr.hop_limit ≢ 255
      → Guards h₀ h
      → IfSome (Guards h₀) (ndp_incoming id skb msg h)
  unfolding ndp_incoming
  unguarded id skb msg h n g = elim (Bool-cases (skb.packet.hdr.hop_limit == 255)) [
    | inl y ↦ absurd (ground arith)
    | inr m ↦ rw (m, ndp_incoming) g
  ]

-- An echo reply is put into a buffer with room for its header.
output_returns :
    (tcpcsum nexthdr : ℕ) (body saddr daddr : List ℕ) (h : Host)
    → output_state (ipv6_output 54 tcpcsum body nexthdr saddr daddr h) ≢ none
unfolding ipv6_output ipv6_output_ex
output_returns tcpcsum nexthdr body saddr daddr h e =
    elim (Option-cases (route6_lookup daddr h.routes)) [
      | inl n ↦ let k = rw (n, ipv6_output, ipv6_output_ex) at e in absurd cc
      | inr (rt, n) ↦ let k = rw (n, ipv6_output, ipv6_output_ex) at e in absurd cc
    ]

echo_returns : (ip6h : Ipv6Hdr) (msg : List ℕ) (h : Host) → icmpv6_echo_reply ip6h msg h ≢ none
unfolding icmpv6_echo_reply
echo_returns ip6h msg h e = output_returns 0 58 _ _ _ h e

ndp_quiet :
    (id : ℕ) (skb : EthFrame) (msg : List ℕ) (h : Host)
    → skb.packet.hdr.hop_limit ≢ 255
    → ndp_incoming id skb msg h ≡ some h
unfolding ndp_incoming
ndp_quiet id skb msg h n = ground arith

icmpv6_returns :
    (id len consumed : ℕ) (skb : EthFrame) (h : Host)
    → skb.packet.hdr.hop_limit ≢ 255
    → icmpv6_incoming id len skb consumed h ≢ none
unfolding icmpv6_incoming
icmpv6_returns id len consumed skb h n e =
    let msg = drop consumed skb.packet.body in
    ground (arith, echo_returns skb.packet.hdr msg h, ndp_quiet id skb msg h n)

dispatch_returns :
    (id len : ℕ) (skb : EthFrame) (w : Walk) (h : Host)
    → skb.packet.hdr.hop_limit ≢ 255
    → dispatch6 id len skb w h ≢ none
unfolding dispatch6
dispatch_returns id len skb w h n e = ground (arith, icmpv6_returns id len w.consumed skb h n)

rcv_returns :
    (id len : ℕ) (skb : EthFrame) (h : Host)
    → skb.packet.hdr.hop_limit ≢ 255
    → skb.packet.hdr.hop_limit ≢ 0
    → ipv6_rcv id len skb h ≢ none
unfolding ipv6_rcv
rcv_returns id len skb h n z e =
    let ip6h = skb.packet.hdr in
    elim (Option-cases (ipv6_parse_exthdrs ip6h.nexthdr skb.packet.body ip6h.payload_len)) [
      | inl k ↦ ground (arith, k)
      | inr (w, k) ↦ ground (arith, k, dispatch_returns id len skb w h n)
    ]

guarded :
    (id len : ℕ) (skb : EthFrame) (h : Host) {s : Host}
    → skb.packet.hdr.hop_limit ≢ 255
    → ipv6_rcv id len skb h ≡ some s
    → Guards h s
unfolding emit
guarded id len skb h {s} n e =
    IfSome-some (Guards h) (ipv6_rcv id len skb h)
      (rcv-IfSome (Guards h) (λ rt p g k. neigh_output-Guards h rt p g k)
        (λ a g i k. record { dev = k.dev; dad = k.dad; known = k.known })
        (λ routes g k. record { dev = k.dev; dad = k.dad; known = k.known }) id skb
        (λ msg g k. unguarded h id skb msg g n k) len h
        (record { dev = refl; dad = refl; known = λ a. refl }))
      e

-- A frame whose hop limit is not 255 changes neither the device, its addresses and their states, nor
-- a running DAD, nor any link-layer address in use, whatever it holds; unless the hop limit is 0 and
-- the host faults over it.
pub ipv6_rcv-Guards :
    (id len : ℕ) (skb : EthFrame) (h : Host)
    → skb.packet.hdr.hop_limit ≢ 255
    → ((s : Host) × (ipv6_rcv id len skb h ≡ some s) × Guards h s)
      ⊎ ((skb.packet.hdr.hop_limit ≡ 0) × (ipv6_rcv id len skb h ≡ none))
ipv6_rcv-Guards id len skb h n = elim (Option-cases (ipv6_rcv id len skb h)) [
  | inl e ↦ elim (Bool-cases (skb.packet.hdr.hop_limit == 0)) [
    | inl z ↦ inr (ground arith, e)
    | inr z ↦ absurd (rcv_returns id len skb h n (ground arith) e)
  ]
  | inr (s, e) ↦ inl (s, e, guarded id len skb h n e)
]

-- ===== src/Ndp/Bound.antt =====
-- src/ndp.c and src/dst.c: every operation keeps the neighbour cache well-formed.
use level_ip.Route.{Rtentry}
use level_ip.Ipv6.Output.{next_hop, queue_behind, dst6_neigh_output}
use level_ip.Prelude.{
  length-append, leb, Option-cases, get_or, drop, ◌-◌, ◌/◌, sym, ◌∙◌, false, [], ◌∷◌, Option, none,
  Bool-cases, length, ℕ, ◌≤◌, ◌≡◌, refl, inl, inr, some, List, arith,
}
use level_ip.Ndp.Kept.{
  send_ns-SameNdp, ra_process-SameNdp, ns_process-SameNdp, SameNdp, send_all-SameNdp,
}
use level_ip.Ndp.Input.{
  na_options, ndp_incoming, na_resolves, na_updates, is_incomplete, na_entry, ndp_na_process,
}
use level_ip.Ndp.Cache.{entry_alloc-IsNdpCache, write_entry-IsNdpCache, IsNdpCache}
use level_ip.Ndp.{
  send_all, queued, ndp_entry_alloc, ndp_get_hwaddr, max_queue, ndp_lookup, write_entry, no_queue,
  ndp_flush_queue, ndp_queue_skb,
}
use level_ip.Ipv6.{
  ipv6_addr_is_unspecified, read, invalid, EthFrame, Ipv6Hdr, Packet, Addr6State, NdpEntry, Host,
}
use level_ip.Addrconf.{ipv6_addrconf_dad_failed, dad_ends}

abbrev pub IsBound : Host → Type 0
IsBound h = IsNdpCache h.ndp_entry_count h.ndp_cache

pub SameNdp-IsBound : {h s : Host} → SameNdp h s → IsBound h → IsBound s
SameNdp-IsBound k b = ground arith

module _ (ip6 : List ℕ) (f : NdpEntry → NdpEntry) where
  written-IsBound :
      (h : Host)
      → ((e : NdpEntry) → (f e).ip6 ≡ e.ip6)
      → ((e : NdpEntry)
          → length e.queue ≤ max_queue
          → ndp_lookup ip6 h.ndp_cache ≡ some e
          → length (f e).queue ≤ max_queue)
      → IsBound h
      → IsBound (record h { ndp_cache = write_entry ip6 f h.ndp_cache })
  written-IsBound h k q b = write_entry-IsNdpCache ip6 f h.ndp_cache k q b

flush_queue-IsBound :
    (ip6 : List ℕ) (e : NdpEntry) (h : Host) → IsBound h → IsBound (ndp_flush_queue ip6 e h)
unfolding ndp_flush_queue
flush_queue-IsBound ip6 e h b =
    SameNdp-IsBound (send_all-SameNdp e.queue e.hwaddr _)
      (written-IsBound ip6 no_queue h (λ e. refl) (λ e p l. omega arith) b)

na_entry-IsBound :
    (flags : ℕ) (tlla target : List ℕ) (e : NdpEntry) (h : Host)
    → IsBound h
    → IsBound (na_entry flags tlla target e h)
unfolding na_entry na_resolves na_updates
na_entry-IsBound flags tlla target e h b = elim (Bool-cases (is_incomplete e.state)) [
  | inl y ↦ rw y (
      flush_queue-IsBound target _ _
        (written-IsBound target (na_resolves h.tick tlla) h (λ e. refl) (λ e p l. p) b))
  | inr n ↦
      rw n (written-IsBound target (na_updates h.tick flags tlla) h (λ e. refl) (λ e p l. p) b)
]

-- What holds of the state where there is one.
abbrev pub IfSome : (Host → Type 0) → Option Host → Type 0
IfSome P none = Unit
IfSome P (some s) = P s

pub IfSome-some : (P : Host → Type 0) (r : Option Host) {s : Host} → IfSome P r → r ≡ some s → P s
IfSome-some P r p e = rw e at p

pub dad_ends-IsBound : (x : Addr6State) (h : Host) → IsBound h → IfSome IsBound (dad_ends x h)
unfolding dad_ends
dad_ends-IsBound x h b = elim (Bool-cases h.dad.dad_done) [
  | inl y ↦ rw y b
  | inr n ↦ elim (Option-cases h.dad.state_ptr) [
    | inl e ↦ rw (n, e) tt
    | inr (slot, e) ↦
        rw (n, e)
          (record {
            counted = b.counted;
            bounded = b.bounded;
            distinct = b.distinct;
            queues = b.queues;
          })
  ]
]

na_found-IsBound :
    (flags : ℕ) (tlla target : List ℕ) (found : Option NdpEntry) (h : Host)
    → IsBound h
    → IsBound (elim found [ none ↦ h | some e ↦ na_entry flags tlla target e h ])
na_found-IsBound flags tlla target none h b = b
na_found-IsBound flags tlla target (some e) h b = na_entry-IsBound flags tlla target e h b

na_process-IsBound :
    (ip6h : Ipv6Hdr) (msg : List ℕ) (h : Host)
    → IsBound h
    → IfSome IsBound (ndp_na_process ip6h msg h)
unfolding ndp_na_process ipv6_addrconf_dad_failed
na_process-IsBound ip6h msg h b =
    let optlen = ip6h.payload_len - 24 in
    let target = read 16 (drop 8 msg) in
    let found = ndp_lookup target h.ndp_cache in
    elim (Option-cases (na_options (optlen / 8) optlen (drop 24 msg) none)) [
      | inl e ↦ rw (e, ndp_na_process) b
      | inr (tlla, e) ↦
          let c = na_found-IsBound (get_or msg 4 0) tlla target found h b in
          elim (Bool-cases (ipv6_addr_is_unspecified ip6h.saddr)) [
            | inl y ↦ rw (e, y, ndp_na_process) (dad_ends-IsBound invalid _ c)
            | inr n ↦ rw (e, n, ndp_na_process) c
          ]
    ]

pub incoming-IsBound :
    (id : ℕ) (skb : EthFrame) (msg : List ℕ) (h : Host)
    → IsBound h
    → IfSome IsBound (ndp_incoming id skb msg h)
unfolding ndp_incoming
incoming-IsBound id skb msg h b = ground (
  arith,
  SameNdp-IsBound (ra_process-SameNdp id skb.packet.hdr msg h) b,
  SameNdp-IsBound (ns_process-SameNdp skb.smac skb.packet.hdr msg h) b,
  na_process-IsBound skb.packet.hdr msg h b,
)

-- The entry that the lookup found has room for one packet more.
room :
    (d c : NdpEntry) (skb : Packet)
    → leb max_queue (length d.queue) ≡ false
    → some d ≡ some c
    → length (queued skb c).queue ≤ max_queue
room d c skb n e = ground (arith, length-append c.queue (skb ∷ []))

queue_skb-IsBound :
    (ip6 : List ℕ) (skb : Packet) (h : Host) → IsBound h → IsBound (ndp_queue_skb ip6 skb h).1
unfolding ndp_queue_skb
queue_skb-IsBound ip6 skb h b = elim (Option-cases (ndp_lookup ip6 h.ndp_cache)) [
  | inl e ↦ rw (e, ndp_queue_skb) b
  | inr (d, e) ↦ elim (Bool-cases (leb max_queue (length d.queue))) [
    | inl y ↦ rw (e, y, ndp_queue_skb) b
    | inr n ↦
        rw (e, n, ndp_queue_skb)
          (written-IsBound ip6 (queued skb) h (λ c. refl) (λ c p l. room d c skb n (sym e ∙ l)) b)
  ]
]

queue_behind-IsBound :
    (hop : List ℕ) (skb : Packet) (h : Host) → IsBound h → IsBound (queue_behind hop skb h)
unfolding queue_behind
queue_behind-IsBound hop skb h b = elim (Option-cases (ndp_lookup hop h.ndp_cache)) [
  | inl e ↦
      let (made, s) = ndp_entry_alloc hop h in
      let c = entry_alloc-IsNdpCache hop h e b in
      elim (Bool-cases (ndp_entry_alloc hop h).0) [
        | inl y ↦ rw (e, y, queue_behind) (queue_skb-IsBound hop skb _ c)
        | inr n ↦ rw (e, n, queue_behind) c
      ]
  | inr (d, e) ↦ rw (e, queue_behind) (queue_skb-IsBound hop skb h b)
]

pub neigh_output-IsBound :
    (rt : Rtentry) (skb : Packet) (h : Host) → IsBound h → IsBound (dst6_neigh_output rt skb h).1
unfolding dst6_neigh_output send_all
neigh_output-IsBound rt skb h b =
    let hop = next_hop rt skb in
    elim (Option-cases (ndp_get_hwaddr hop h.ndp_cache)) [
      | inl e ↦
          rw (e, dst6_neigh_output)
            (queue_behind-IsBound hop skb _
              (SameNdp-IsBound (send_ns-SameNdp hop skb.hdr.saddr h) b))
      | inr (dmac, e) ↦
          rw (e, dst6_neigh_output) (SameNdp-IsBound (send_all-SameNdp (skb ∷ []) dmac h) b)
    ]

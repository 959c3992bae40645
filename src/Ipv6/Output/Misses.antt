-- ===== src/Ipv6/Output/Misses.antt =====
-- src/dst.c: what becomes of a packet for the next hop.
use level_ip.Route.{Rtentry}
use level_ip.Prelude.{
  Option-cases, ◌+◌, sym, ap, ◌∙◌, leb, Bool-cases, length, ℕ, ◌≤◌, ◌≡◌, refl, ◌⊎◌, inl, inr, true,
  false, none, some, List, [], ◌∷◌, ◌++◌, arith,
}
use level_ip.Ndp.{
  queued, ndp_max_neighbors, max_queue, new_entry, ndp_entry_alloc, ndp_lookup, write_entry,
  ndp_get_hwaddr, ndp_queue_skb, ndp_send_ns,
}
use level_ip.Ipv6.Output.{next_hop, queue_behind, dst6_neigh_output}
use level_ip.Ipv6.Address.{addr_equal_self}
use level_ip.Ipv6.{emit, Packet, NdpEntry, Host, netdev_transmit}

-- The packets that wait for the link-layer address.
abbrev pub waiting : List ℕ → List NdpEntry → List Packet
waiting hop cache = elim (ndp_lookup hop cache) [ none ↦ [] | some e ↦ e.queue ]

lookup-written :
    (hop : List ℕ) (f : NdpEntry → NdpEntry) (e : NdpEntry) (cache : List NdpEntry)
    → ((d : NdpEntry) → (f d).ip6 ≡ d.ip6)
    → ndp_lookup hop cache ≡ some e
    → ndp_lookup hop (write_entry hop f cache) ≡ some (f e)
unfolding ndp_lookup write_entry
lookup-written hop f e [] k l = absurd (cc)
lookup-written hop f e (d ∷ cache) k l = ground (arith, k d, lookup-written hop f e cache k)

lookup-new :
    (hop : List ℕ) (tick : ℕ) (cache : List NdpEntry)
    → ndp_lookup hop cache ≡ none
    → ndp_lookup hop (cache ++ new_entry hop tick ∷ []) ≡ some (new_entry hop tick)
unfolding ndp_lookup new_entry
lookup-new hop tick [] l = rw (addr_equal_self hop) refl
lookup-new hop tick (d ∷ cache) l = ground (arith, lookup-new hop tick cache)

-- The packet is the last to wait, or it is dropped since there is no room.
abbrev pub IsQueued : List ℕ → Packet → Host → Host → Type 0
IsQueued hop skb h s =
    (waiting hop s.ndp_cache ≡ waiting hop h.ndp_cache ++ skb ∷ [])
    ⊎ ((s.ndp_cache ≡ h.ndp_cache)
        × ((ndp_max_neighbors ≤ h.ndp_entry_count)
            ⊎ (max_queue ≤ length (waiting hop h.ndp_cache))))

waiting_found :
    (hop : List ℕ) (e : NdpEntry) (cache : List NdpEntry)
    → ndp_lookup hop cache ≡ some e
    → waiting hop cache ≡ e.queue
waiting_found hop e cache l = rw (l, waiting) refl

waiting_missed :
    (hop : List ℕ) (cache : List NdpEntry) → ndp_lookup hop cache ≡ none → waiting hop cache ≡ []
waiting_missed hop cache l = rw (l, waiting) refl

new_queue : (hop : List ℕ) (tick : ℕ) → leb max_queue (length (new_entry hop tick).queue) ≡ false
unfolding new_entry
new_queue hop tick = refl

new_waits : (hop : List ℕ) (tick : ℕ) → (new_entry hop tick).queue ≡ []
unfolding new_entry
new_waits hop tick = refl

-- In a queue that is full nothing changes.
queue_skb_full :
    (hop : List ℕ) (skb : Packet) (e : NdpEntry) (h : Host)
    → ndp_lookup hop h.ndp_cache ≡ some e
    → leb max_queue (length e.queue) ≡ true
    → (ndp_queue_skb hop skb h).1 ≡ h
unfolding ndp_queue_skb
queue_skb_full hop skb e h l y = rw (l, ndp_queue_skb, y) refl

queue_skb_room :
    (hop : List ℕ) (skb : Packet) (e : NdpEntry) (h : Host)
    → ndp_lookup hop h.ndp_cache ≡ some e
    → leb max_queue (length e.queue) ≡ false
    → waiting hop (ndp_queue_skb hop skb h).1.ndp_cache ≡ e.queue ++ skb ∷ []
unfolding ndp_queue_skb
queue_skb_room hop skb e h l n =
    rw (l, ndp_queue_skb, n)
      (waiting_found hop _ _ (lookup-written hop (queued skb) e h.ndp_cache (λ d. refl) l))

queue_skb-IsQueued :
    (hop : List ℕ) (skb : Packet) (e : NdpEntry) (h : Host)
    → ndp_lookup hop h.ndp_cache ≡ some e
    → IsQueued hop skb h (ndp_queue_skb hop skb h).1
queue_skb-IsQueued hop skb e h l =
    let w = waiting_found hop e h.ndp_cache l in
    elim (Bool-cases (leb max_queue (length e.queue))) [
      | inl y ↦
          inr (ap (λ (s : Host). s.ndp_cache) (queue_skb_full hop skb e h l y), inr (ground arith))
      | inr n ↦ inl (queue_skb_room hop skb e h l n ∙ ap (λ q. q ++ skb ∷ []) (sym w))
    ]

alloc-IsQueued :
    (hop : List ℕ) (skb : Packet) (h : Host)
    → ndp_lookup hop h.ndp_cache ≡ none
    → IsQueued hop skb h (queue_behind hop skb h)
unfolding queue_behind ndp_entry_alloc
alloc-IsQueued hop skb h l =
    let n = new_entry hop h.tick in
    let s = record h {
      ndp_cache = h.ndp_cache ++ n ∷ [];
      ndp_entry_count = h.ndp_entry_count + 1;
    } in
    elim (Bool-cases (leb ndp_max_neighbors h.ndp_entry_count)) [
      | inl y ↦ rw (l, queue_behind, ndp_entry_alloc, y) (inr (refl, inl (ground arith)))
      | inr m ↦
          rw (l, queue_behind, ndp_entry_alloc, m)
            (inl (
              queue_skb_room hop skb n s (lookup-new hop h.tick h.ndp_cache l)
                (new_queue hop h.tick)
              ∙ ap (λ q. q ++ skb ∷ [])
                  (new_waits hop h.tick ∙ sym (waiting_missed hop h.ndp_cache l))))
    ]

queue_behind-IsQueued :
    (hop : List ℕ) (skb : Packet) (h : Host) → IsQueued hop skb h (queue_behind hop skb h)
unfolding queue_behind
queue_behind-IsQueued hop skb h = elim (Option-cases (ndp_lookup hop h.ndp_cache)) [
  | inl l ↦ alloc-IsQueued hop skb h l
  | inr (e, l) ↦ rw (l, queue_behind) (queue_skb-IsQueued hop skb e h l)
]

pub queue_behind-out :
    (hop : List ℕ) (skb : Packet) (h : Host) → (queue_behind hop skb h).out ≡ h.out
unfolding queue_behind ndp_entry_alloc ndp_queue_skb
queue_behind-out hop skb h = ground arith

-- The solicitation that goes first leaves the cache alone.
asked_first :
    (hop : List ℕ) (skb : Packet) (h : Host)
    → IsQueued hop skb h (queue_behind hop skb (ndp_send_ns hop skb.hdr.saddr h))
unfolding ndp_send_ns netdev_transmit emit
asked_first hop skb h = queue_behind-IsQueued hop skb (ndp_send_ns hop skb.hdr.saddr h)

-- A packet for a next hop whose link-layer address is known goes out to that address at once. Else a
-- solicitation goes out, and the packet waits as the last for the next hop, unless the cache is full
-- or 100 packets wait for it already.
pub neigh_output_cases :
    (rt : Rtentry) (skb : Packet) (h : Host)
    → let hop = next_hop rt skb in
      let (done, s) = dst6_neigh_output rt skb h in
      ((dmac : List ℕ) × (ndp_get_hwaddr hop h.ndp_cache ≡ some dmac)
        × (done ≡ true)
        × (s ≡ netdev_transmit skb dmac h))
      ⊎ ((ndp_get_hwaddr hop h.ndp_cache ≡ none)
          × (done ≡ false)
          × (s.out ≡ (ndp_send_ns hop skb.hdr.saddr h).out)
          × IsQueued hop skb h s)
unfolding dst6_neigh_output
neigh_output_cases rt skb h =
    let hop = next_hop rt skb in
    let s = ndp_send_ns hop skb.hdr.saddr h in
    elim (Option-cases (ndp_get_hwaddr hop h.ndp_cache)) [
      | inl e ↦ inr (
          rw (e, dst6_neigh_output) (refl, refl, queue_behind-out hop skb s, asked_first hop skb h))
      | inr (dmac, e) ↦ inl (rw (e, dst6_neigh_output) (dmac, refl, refl, refl))
    ]

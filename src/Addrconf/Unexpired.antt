-- ===== src/Addrconf/Unexpired.antt =====
-- src/ipv6_addrconf.c: an address that is in use and not deprecated, under each operation.
use level_ip.Ndp.Input.{
  na_options, na_resolves, set_prefix_len, take_prefix, ra_options, ndp_ra_process, is_incomplete,
  na_entry, ndp_na_process, is_ours, ndp_ns_process,
}
use level_ip.Route.{zero6, Rtentry}
use level_ip.Prelude.{
  ltb, ◌==◌, if◌then◌else◌, Bool-cases, length, get_or, drop, u32, zero, suc, ◌-◌, ◌*◌, ◌/◌, refl,
  Bool, false, not, ◌&&◌, Option, none, some, ◌++◌, Option-cases, All, All-append, ℕ, ◌≡◌, sym, ap,
  ◌∙◌, ◌≢◌, inl, inr, true, List, [], ◌∷◌, arith,
}
use level_ip.Ndp.Bound.{IfSome}
use level_ip.Ndp.{
  ndp_lookup, write_entry, no_queue, ndp_flush_queue, ndp_entry_alloc, ndp_get_hwaddr, send_all,
  ndp_queue_skb, ndp_send_ns,
}
use level_ip.Ipv6.Output.Misses.{queue_behind-out}
use level_ip.Ipv6.Output.{next_hop, queue_behind, dst6_neigh_output}
use level_ip.Ipv6.{
  ipv6_addr_is_unspecified, invalid, Ipv6Hdr, NdpEntry, Slot, read, ll, global, preferred_expired,
  valid_expired, Packet, Addr6State, Netdev6, Expiry, Act, Host, emit, netdev_transmit, deprecated,
  device,
}
use level_ip.Addrconf.{
  dad_timeout_ms, is_tentative, ipv6_addrconf_dad_failed, dad_opens, ipv6_dad_start, timer_of,
  with_timer, cancel_old, set_global, store_lifetimes, copy, decide, dad_ends, schedule,
  ipv6_addrconf_update_lifetime,
}

-- A lifetime timer works on a copy of the device.
abbrev pub OnCopy : Act → Type 0
OnCopy (Act.transmit f) = Unit
OnCopy (Act.oneshot_dad ms) = Unit
OnCopy (Act.add_timer t ms x device) = ⊥
OnCopy (Act.add_timer t ms x (copy i)) = Unit
OnCopy (Act.cancel_timer t) = Unit
OnCopy (Act.tcp_in_v6 p consumed) = Unit
OnCopy (Act.adjust_pmtu6 daddr mtu) = Unit

-- The global address is in use and not deprecated, and every lifetime timer has a copy.
pub record Unexpired (h : Host) : Type 0 where
  pub copied : All OnCopy h.out
  pub valid : h.netdev.addr6_global_valid ≡ true
  pub alive : h.netdev.addr6_global_state ≢ deprecated

pub emit-Unexpired : (a : Act) (h : Host) → OnCopy a → Unexpired h → Unexpired (emit a h)
unfolding emit
emit-Unexpired a h o u = record {
  copied = All-append OnCopy h.out (a ∷ []) u.copied (o, tt);
  valid = u.valid;
  alive = u.alive;
}

transmit-Unexpired :
    (p : Packet) (dmac : List ℕ) (h : Host) → Unexpired h → Unexpired (netdev_transmit p dmac h)
unfolding netdev_transmit
transmit-Unexpired p dmac h u = emit-Unexpired _ h tt u

send_all-Unexpired :
    (queue : List Packet) (dmac : List ℕ) (h : Host)
    → Unexpired h
    → Unexpired (send_all queue dmac h)
unfolding send_all
send_all-Unexpired [] dmac h u = u
send_all-Unexpired (p ∷ queue) dmac h u =
    send_all-Unexpired queue dmac (netdev_transmit p dmac h) (transmit-Unexpired p dmac h u)

-- A change of the cache, the routes and the tick only.
cached-Unexpired : {h s : Host} → s.netdev ≡ h.netdev → s.out ≡ h.out → Unexpired h → Unexpired s
cached-Unexpired {h} {s} n o u = record {
  copied = rw o u.copied;
  valid = ap (λ (d : Netdev6). d.addr6_global_valid) n ∙ u.valid;
  alive = λ q. u.alive (sym (ap (λ (d : Netdev6). d.addr6_global_state) n) ∙ q);
}

queue_behind-netdev :
    (hop : List ℕ) (skb : Packet) (h : Host) → (queue_behind hop skb h).netdev ≡ h.netdev
unfolding queue_behind ndp_entry_alloc ndp_queue_skb
queue_behind-netdev hop skb h = ground arith

pub neigh_output-Unexpired :
    (rt : Rtentry) (skb : Packet) (h : Host)
    → Unexpired h
    → Unexpired (dst6_neigh_output rt skb h).1
unfolding dst6_neigh_output ndp_send_ns
neigh_output-Unexpired rt skb h u =
    let hop = next_hop rt skb in
    let s = ndp_send_ns hop skb.hdr.saddr h in
    elim (Option-cases (ndp_get_hwaddr hop h.ndp_cache)) [
      | inl e ↦
          rw (e, dst6_neigh_output)
            (cached-Unexpired (queue_behind-netdev hop skb s) (queue_behind-out hop skb s)
              (transmit-Unexpired _ _ h u))
      | inr (dmac, e) ↦ rw (e, dst6_neigh_output) (transmit-Unexpired skb dmac h u)
    ]

-- A change of other fields of the device.
pub device-Unexpired :
    {h s : Host}
    → s.out ≡ h.out
    → s.netdev.addr6_global_valid ≡ h.netdev.addr6_global_valid
    → s.netdev.addr6_global_state ≡ h.netdev.addr6_global_state
    → Unexpired h
    → Unexpired s
device-Unexpired {h} {s} o v g u = record {
  copied = rw o u.copied;
  valid = v ∙ u.valid;
  alive = λ q. u.alive (sym g ∙ q);
}

decide-alive :
    (slot : Slot) (x : Addr6State) (dev : Netdev6)
    → x ≢ deprecated
    → dev.addr6_global_state ≢ deprecated
    → ((decide slot x dev).addr6_global_state ≢ deprecated)
      × ((decide slot x dev).addr6_global_valid ≡ dev.addr6_global_valid)
unfolding decide
decide-alive ll x dev d a = (a, refl)
decide-alive global x dev d a = elim (Bool-cases (is_tentative dev.addr6_global_state)) [
  | inl y ↦ (rw y d, refl)
  | inr n ↦ (rw n a, refl)
]

pub dad_ends-Unexpired :
    (x : Addr6State) (h : Host) → x ≢ deprecated → Unexpired h → IfSome Unexpired (dad_ends x h)
unfolding dad_ends
dad_ends-Unexpired x h d u = elim (Bool-cases h.dad.dad_done) [
  | inl y ↦ rw y (device-Unexpired refl refl refl u)
  | inr n ↦ elim (Option-cases h.dad.state_ptr) [
    | inl e ↦ rw (n, e) tt
    | inr (slot, e) ↦
        let (alive, valid) = decide-alive slot x h.netdev d u.alive in
        rw (n, e) (record { copied = u.copied; valid = valid ∙ u.valid; alive = alive })
  ]
]

cancel_old-Unexpired : (t : Option ℕ) (h : Host) → Unexpired h → Unexpired (cancel_old t h)
cancel_old-Unexpired none h u = u
cancel_old-Unexpired (some t) h u = emit-Unexpired (Act.cancel_timer t) h tt u

with_timer-alive :
    (x : Expiry) (t : ℕ) (dev : Netdev6)
    → ((with_timer x t dev).addr6_global_valid ≡ dev.addr6_global_valid)
      × ((with_timer x t dev).addr6_global_state ≡ dev.addr6_global_state)
with_timer-alive preferred_expired t dev = (refl, refl)
with_timer-alive valid_expired t dev = (refl, refl)

schedule-Unexpired :
    (x : Expiry) (lifetime : ℕ) (h : Host) → Unexpired h → Unexpired (schedule x lifetime h)
unfolding schedule emit
schedule-Unexpired x lifetime h u =
    let c = cancel_old (timer_of x h.netdev) h in
    let copied = record c { copies = c.copies ++ c.netdev ∷ [] } in
    let a = Act.add_timer c.next_timer (u32 (lifetime * 1000)) x (copy (length c.copies)) in
    let added =
      emit-Unexpired a copied tt
        (device-Unexpired refl refl refl (cancel_old-Unexpired (timer_of x h.netdev) h u)) in
    let (valid, state) = with_timer-alive x c.next_timer c.netdev in
    elim (Bool-cases (ltb 0 lifetime && not (lifetime == 0xffff_ffff))) [
      | inl y ↦ rw y (device-Unexpired refl valid state added)
      | inr n ↦ rw n u
    ]

-- The address is set, its DAD started, the lifetimes stored.
set-Unexpired : (address : List ℕ) (h : Host) → Unexpired h → Unexpired (set_global address h)
unfolding set_global
set-Unexpired address h u = record { copied = u.copied; valid = refl; alive = λ q. cc }

dad_start-Unexpired :
    (address : List ℕ) (h : Host) → Unexpired h → Unexpired (ipv6_dad_start address h)
unfolding ipv6_dad_start ndp_send_ns dad_opens
dad_start-Unexpired address h u =
    emit-Unexpired (Act.oneshot_dad dad_timeout_ms)
      (ndp_send_ns address zero6 (dad_opens address h)) tt
      (transmit-Unexpired _ _ (dad_opens address h) (device-Unexpired refl refl refl u))

store-Unexpired :
    (valid_lt preferred_lt : ℕ) (h : Host)
    → Unexpired h
    → Unexpired (store_lifetimes valid_lt preferred_lt h)
unfolding store_lifetimes
store-Unexpired valid_lt preferred_lt h u = device-Unexpired refl refl refl u

update_lifetime-Unexpired :
    (prefix : List ℕ) (prefix_len valid_lt preferred_lt : ℕ) (h : Host)
    → Unexpired h
    → Unexpired (ipv6_addrconf_update_lifetime prefix prefix_len valid_lt preferred_lt h)
unfolding ipv6_addrconf_update_lifetime
update_lifetime-Unexpired prefix prefix_len valid_lt preferred_lt h u =
    elim (Bool-cases (prefix_len == 64)) [
      | inl y ↦ rw y (
          schedule-Unexpired valid_expired valid_lt _ (
            schedule-Unexpired preferred_expired preferred_lt _ (
              store-Unexpired valid_lt preferred_lt _
                (dad_start-Unexpired _ _ (set-Unexpired _ h u)))))
      | inr n ↦ rw n u
    ]

take_prefix-Unexpired :
    (b : Bool) (opt : List ℕ) (h : Host)
    → Unexpired h
    → Unexpired (if b then take_prefix opt h else h)
unfolding take_prefix set_prefix_len
take_prefix-Unexpired true opt h u =
    update_lifetime-Unexpired _ _ _ _ _ (device-Unexpired refl refl refl u)
take_prefix-Unexpired false opt h u = u

ra_options-Unexpired :
    (n optlen : ℕ) (opt : List ℕ) (h : Host) → Unexpired h → Unexpired (ra_options n optlen opt h)
unfolding ra_options
ra_options-Unexpired zero optlen opt h u = u
ra_options-Unexpired (suc n) optlen opt h u =
    let is_prefix = get_or opt 0 0 == 3 && (get_or opt 1 0 == 4) in
    ground (
      arith,
      ra_options-Unexpired n (optlen - get_or opt 1 0 * 8) (drop (get_or opt 1 0 * 8) opt) _
          (take_prefix-Unexpired is_prefix opt h u),
    )

pub ra_process-Unexpired :
    (id : ℕ) (ip6h : Ipv6Hdr) (msg : List ℕ) (h : Host)
    → Unexpired h
    → Unexpired (ndp_ra_process id ip6h msg h)
unfolding ndp_ra_process
ra_process-Unexpired id ip6h msg h u =
    let optlen = ip6h.payload_len - 16 in
    device-Unexpired refl refl refl (ra_options-Unexpired (optlen / 8) optlen (drop 16 msg) h u)

flush_queue-Unexpired :
    (ip6 : List ℕ) (e : NdpEntry) (h : Host) → Unexpired h → Unexpired (ndp_flush_queue ip6 e h)
unfolding ndp_flush_queue
flush_queue-Unexpired ip6 e h u =
    let s = record h { ndp_cache = write_entry ip6 no_queue h.ndp_cache } in
    send_all-Unexpired e.queue e.hwaddr s (device-Unexpired refl refl refl u)

na_entry-Unexpired :
    (flags : ℕ) (tlla target : List ℕ) (e : NdpEntry) (h : Host)
    → Unexpired h
    → Unexpired (na_entry flags tlla target e h)
unfolding na_entry
na_entry-Unexpired flags tlla target e h u =
    let s = record h { ndp_cache = write_entry target (na_resolves h.tick tlla) h.ndp_cache } in
    elim (Bool-cases (is_incomplete e.state)) [
      | inl y ↦ rw y (
          flush_queue-Unexpired target (na_resolves h.tick tlla e) s
            (device-Unexpired refl refl refl u))
      | inr n ↦ rw n (device-Unexpired refl refl refl u)
    ]

na_found-Unexpired :
    (flags : ℕ) (tlla target : List ℕ) (found : Option NdpEntry) (h : Host)
    → Unexpired h
    → Unexpired (elim found [ none ↦ h | some e ↦ na_entry flags tlla target e h ])
na_found-Unexpired flags tlla target none h u = u
na_found-Unexpired flags tlla target (some e) h u = na_entry-Unexpired flags tlla target e h u

pub na_process-Unexpired :
    (ip6h : Ipv6Hdr) (msg : List ℕ) (h : Host)
    → Unexpired h
    → IfSome Unexpired (ndp_na_process ip6h msg h)
unfolding ndp_na_process ipv6_addrconf_dad_failed
na_process-Unexpired ip6h msg h u =
    let optlen = ip6h.payload_len - 24 in
    let target = read 16 (drop 8 msg) in
    let found = ndp_lookup target h.ndp_cache in
    elim (Option-cases (na_options (optlen / 8) optlen (drop 24 msg) none)) [
      | inl e ↦ rw (e, ndp_na_process) u
      | inr (tlla, e) ↦
          let c = na_found-Unexpired (get_or msg 4 0) tlla target found h u in
          elim (Bool-cases (ipv6_addr_is_unspecified ip6h.saddr)) [
            | inl y ↦ rw (e, y, ndp_na_process) (dad_ends-Unexpired invalid _ (λ q. cc) c)
            | inr n ↦ rw (e, n, ndp_na_process) c
          ]
    ]

pub ns_process-Unexpired :
    (smac : List ℕ) (ip6h : Ipv6Hdr) (msg : List ℕ) (h : Host)
    → Unexpired h
    → Unexpired (ndp_ns_process smac ip6h msg h)
unfolding ndp_ns_process
ns_process-Unexpired smac ip6h msg h u =
    elim (Bool-cases (is_ours (read 16 (drop 8 msg)) h.netdev)) [
      | inl y ↦ rw y (transmit-Unexpired _ _ h u)
      | inr n ↦ rw n u
    ]

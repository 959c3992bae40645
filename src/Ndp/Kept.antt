-- ===== src/Ndp/Kept.antt =====
-- src/ndp.c and src/ipv6_addrconf.c: what the operations that only send and configure leave alone.
use level_ip.Prelude.{
  drop, ◌*◌, ◌/◌, ◌&&◌, ◌-◌, ◌==◌, if◌then◌else◌, Bool-cases, Bool, true, false, Option, none, some,
  List, [], ◌∷◌, ℕ, ◌≡◌, refl, arith, zero, suc, inl, inr,
}
use level_ip.Route.{zero6}
use level_ip.Ipv6.{
  valid_expired, preferred_expired, Packet, Host, Expiry, netdev_transmit, emit, Ipv6Hdr,
}
use level_ip.Ndp.{get_or, send_all, ndp_send_ns}
use level_ip.Addrconf.{
  set_global, dad_opens, store_lifetimes, ipv6_dad_start, schedule, cancel_old, timer_of,
  ipv6_addrconf_update_lifetime,
}
use level_ip.Ndp.Input.{set_prefix_len, take_prefix, ra_options, ndp_ra_process, ndp_ns_process}

-- The neighbour cache and its count stay.
pub record SameNdp (h s : Host) : Type 0 where
  pub cache : s.ndp_cache ≡ h.ndp_cache
  pub count : s.ndp_entry_count ≡ h.ndp_entry_count

pub SameNdp-trans : {h s t : Host} → SameNdp h s → SameNdp s t → SameNdp h t
SameNdp-trans a b = ground arith

pub send_all-SameNdp :
    (queue : List Packet) (dmac : List ℕ) (h : Host) → SameNdp h (send_all queue dmac h)
unfolding send_all netdev_transmit
send_all-SameNdp [] dmac h = ground arith
send_all-SameNdp (p ∷ queue) dmac h =
    SameNdp-trans (ground arith) (send_all-SameNdp queue dmac (netdev_transmit p dmac h))

pub send_ns-SameNdp : (target src : List ℕ) (h : Host) → SameNdp h (ndp_send_ns target src h)
unfolding ndp_send_ns netdev_transmit
send_ns-SameNdp target src h = ground arith

dad_start-SameNdp : (addr : List ℕ) (h : Host) → SameNdp h (ipv6_dad_start addr h)
unfolding ipv6_dad_start dad_opens emit
dad_start-SameNdp addr h = ground (arith, send_ns-SameNdp addr zero6 (dad_opens addr h))

cancel_old-SameNdp : (t : Option ℕ) (h : Host) → SameNdp h (cancel_old t h)
unfolding emit
cancel_old-SameNdp none h = ground arith
cancel_old-SameNdp (some t) h = ground arith

schedule-SameNdp : (x : Expiry) (lifetime : ℕ) (h : Host) → SameNdp h (schedule x lifetime h)
unfolding schedule emit
schedule-SameNdp x lifetime h = ground (arith, cancel_old-SameNdp (timer_of x h.netdev) h)

address_set-SameNdp :
    (address : List ℕ) (valid_lt preferred_lt : ℕ) (h : Host)
    → SameNdp h
        (store_lifetimes valid_lt preferred_lt (ipv6_dad_start address (set_global address h)))
unfolding store_lifetimes set_global
address_set-SameNdp address valid_lt preferred_lt h =
    ground (arith, dad_start-SameNdp address (set_global address h))

pub update_lifetime-SameNdp :
    (prefix : List ℕ) (prefix_len valid_lt preferred_lt : ℕ) (h : Host)
    → SameNdp h (ipv6_addrconf_update_lifetime prefix prefix_len valid_lt preferred_lt h)
unfolding ipv6_addrconf_update_lifetime
update_lifetime-SameNdp prefix prefix_len valid_lt preferred_lt h =
    elim (Bool-cases (prefix_len == 64)) [
      | inl y ↦ rw y (
          SameNdp-trans (address_set-SameNdp _ valid_lt preferred_lt h) (
            SameNdp-trans (schedule-SameNdp preferred_expired preferred_lt _)
              (schedule-SameNdp valid_expired valid_lt _)))
      | inr n ↦ rw n (record { cache = refl; count = refl })
    ]

take_prefix-SameNdp :
    (b : Bool) (opt : List ℕ) (h : Host) → SameNdp h (if b then take_prefix opt h else h)
unfolding take_prefix set_prefix_len
take_prefix-SameNdp true opt h =
    SameNdp-trans (record { cache = refl; count = refl })
      (update_lifetime-SameNdp _ _ _ _ (set_prefix_len (get_or opt 2 0) h))
take_prefix-SameNdp false opt h = record { cache = refl; count = refl }

ra_options-SameNdp :
    (n optlen : ℕ) (opt : List ℕ) (h : Host) → SameNdp h (ra_options n optlen opt h)
unfolding ra_options
ra_options-SameNdp zero optlen opt h = record { cache = refl; count = refl }
ra_options-SameNdp (suc n) optlen opt h =
    let is_prefix = get_or opt 0 0 == 3 && (get_or opt 1 0 == 4) in
    let s = if is_prefix then take_prefix opt h else h in
    ground (
      arith,
      take_prefix-SameNdp is_prefix opt h,
      ra_options-SameNdp n (optlen - get_or opt 1 0 * 8) (drop (get_or opt 1 0 * 8) opt) s,
    )

pub ra_process-SameNdp :
    (id : ℕ) (ip6h : Ipv6Hdr) (msg : List ℕ) (h : Host) → SameNdp h (ndp_ra_process id ip6h msg h)
unfolding ndp_ra_process
ra_process-SameNdp id ip6h msg h =
    let optlen = ip6h.payload_len - 16 in
    let s = ra_options-SameNdp (optlen / 8) optlen (drop 16 msg) h in
    record { cache = s.cache; count = s.count }

pub ns_process-SameNdp :
    (smac : List ℕ) (ip6h : Ipv6Hdr) (msg : List ℕ) (h : Host)
    → SameNdp h (ndp_ns_process smac ip6h msg h)
unfolding ndp_ns_process netdev_transmit
ns_process-SameNdp smac ip6h msg h = ground arith

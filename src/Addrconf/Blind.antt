-- ===== src/Addrconf/Blind.antt =====
-- src/ipv6_addrconf.c and src/ndp.c: what duplicate address detection does not see.
use level_ip.Ndp.Resolve.Exchange.{rest_IsBytes, solnode_IsAddress, ns_incoming, na_incoming}
use level_ip.Ndp.Resolve.{IsMac, message_fields, rcv_ndp, solicitation}
use level_ip.Ipv6.Verified.{IsAddress}
use level_ip.Ipv6.Input.{ipv6_rcv}
use level_ip.Ipv6.Address.{addr_equal_self}
use level_ip.Addrconf.Detect.{dad_outcome}
use level_ip.Route.{zero6}
use level_ip.Prelude.{
  ltb, ◌==◌, ap, not, ◌&&◌, Option, ◌++◌, arith, Bool-cases, Option-cases, get_or, drop, ◌-◌, ◌/◌,
  refl, ◌∙◌, inl, inr, none, [], ◌∷◌, length, ℕ, ◌≡◌, true, false, some, List,
}
use level_ip.Ndp.Input.{
  na_options, is_incomplete, na_entry, ndp_na_process, is_ours, na_message, all_nodes,
  ndp_ns_process,
}
use level_ip.Ndp.{
  ipv6_solnode_addr, ndp_hdr, ndp_lookup, send_all, ndp_send_ns, ndp_flush_queue,
  ipv6_multicast_mac, with_csum, ns_message,
}
use level_ip.Ipv6.{
  ipv6_hdr_set_vtc_flow, EthFrame, Netdev6, Dad, Act, preferred_expired, valid_expired, Packet,
  Expiry, read, emit, global, ipv6_addr_equal, ipv6_addr_is_unspecified, ipv6_addr_is_multicast,
  Ipv6Hdr, NdpEntry, Host, netdev_transmit, tentative, preferred,
}
use level_ip.Addrconf.{
  timer_of, with_timer, cancel_old, dad_opens, ipv6_dad_start, schedule, set_global,
  store_lifetimes, dad_timeout, global_address, ipv6_addrconf_update_lifetime,
}

send_all-quiet :
    (queue : List Packet) (dmac : List ℕ) (h : Host)
    → let s = send_all queue dmac h in (s.netdev ≡ h.netdev) × (s.dad ≡ h.dad)
unfolding send_all netdev_transmit emit
send_all-quiet [] dmac h = (refl, refl)
send_all-quiet (p ∷ queue) dmac h = send_all-quiet queue dmac (netdev_transmit p dmac h)

-- An advertisement that does not come from :: leaves the addresses and the DAD as they are.
na_entry-quiet :
    (flags : ℕ) (tlla target : List ℕ) (e : NdpEntry) (h : Host)
    → let s = na_entry flags tlla target e h in (s.netdev ≡ h.netdev) × (s.dad ≡ h.dad)
unfolding na_entry ndp_flush_queue
na_entry-quiet flags tlla target e h = elim (Bool-cases (is_incomplete e.state)) [
  | inl y ↦ rw y (send_all-quiet e.queue _ _)
  | inr n ↦ rw n (refl, refl)
]

na_quiet :
    (ip6h : Ipv6Hdr) (msg : List ℕ) (h : Host)
    → ipv6_addr_is_unspecified ip6h.saddr ≡ false
    → (s : Host) × (ndp_na_process ip6h msg h ≡ some s) × (s.netdev ≡ h.netdev) × (s.dad ≡ h.dad)
unfolding ndp_na_process
na_quiet ip6h msg h u =
    let optlen = ip6h.payload_len - 24 in
    let target = read 16 (drop 8 msg) in
    elim (Option-cases (na_options (optlen / 8) optlen (drop 24 msg) none)) [
      | inl e ↦ (h, rw (e, ndp_na_process) refl, refl, refl)
      | inr (tlla, e) ↦ elim (Option-cases (ndp_lookup target h.ndp_cache)) [
        | inl f ↦ (h, rw (e, ndp_na_process, u, f) refl, refl, refl)
        | inr (d, f) ↦
            let s = na_entry (get_or msg 4 0) tlla target d h in
            let (n, q) = na_entry-quiet (get_or msg 4 0) tlla target d h in
            (s, rw (e, ndp_na_process, u, f) refl, n, q)
      ]
    ]

-- The owner of an address answers a DAD solicitation for it to ff02::1, from the address.
ns_claimed :
    (smac target hwaddr : List ℕ) (ip6h : Ipv6Hdr) (c d : ℕ) (h : Host)
    → length target ≡ 16
    → is_ours target h.netdev ≡ true
    → ip6h.saddr ≡ zero6
    → ndp_ns_process smac ip6h (ns_message target hwaddr c d) h
      ≡ netdev_transmit
          (with_csum target all_nodes 32 (na_message target h.netdev.hwaddr))
          (ipv6_multicast_mac all_nodes)
          h
unfolding ndp_ns_process ns_message ipv6_addr_is_unspecified ipv6_addr_is_multicast
ns_claimed smac target hwaddr ip6h c d h t o e =
    let (field, _) = message_fields 135 0 c d 0 0 0 0 target (1 ∷ 1 ∷ hwaddr) t in
    rw (field, o, e, addr_equal_self zero6) refl

-- What the rest of a prefix option leaves alone once the address is set and its DAD runs.
record SameState (h s : Host) : Type 0 where
  dad : s.dad ≡ h.dad
  on_ll : s.netdev.addr6_ll_state ≡ h.netdev.addr6_ll_state
  on_global : s.netdev.addr6_global_state ≡ h.netdev.addr6_global_state

cancel_old-SameState : (t : Option ℕ) (h : Host) → (cancel_old t h).netdev ≡ h.netdev
unfolding emit
cancel_old-SameState none h = refl
cancel_old-SameState (some t) h = refl

cancel_old-dad : (t : Option ℕ) (h : Host) → (cancel_old t h).dad ≡ h.dad
unfolding emit
cancel_old-dad none h = refl
cancel_old-dad (some t) h = refl

with_timer-states :
    (x : Expiry) (t : ℕ) (dev : Netdev6)
    → ((with_timer x t dev).addr6_ll_state ≡ dev.addr6_ll_state)
      × ((with_timer x t dev).addr6_global_state ≡ dev.addr6_global_state)
with_timer-states preferred_expired t dev = (refl, refl)
with_timer-states valid_expired t dev = (refl, refl)

schedule-SameState : (x : Expiry) (lifetime : ℕ) (h : Host) → SameState h (schedule x lifetime h)
unfolding schedule emit
schedule-SameState x lifetime h =
    let c = cancel_old (timer_of x h.netdev) h in
    let kept = cancel_old-SameState (timer_of x h.netdev) h in
    let (ll_kept, global_kept) = with_timer-states x c.next_timer c.netdev in
    elim (Bool-cases (ltb 0 lifetime && not (lifetime == 0xffff_ffff))) [
      | inl y ↦ rw y (record {
        dad = cancel_old-dad (timer_of x h.netdev) h;
        on_ll = ll_kept ∙ ap (λ (d : Netdev6). d.addr6_ll_state) kept;
        on_global = global_kept ∙ ap (λ (d : Netdev6). d.addr6_global_state) kept;
      })
      | inr n ↦ rw n (record { dad = refl; on_ll = refl; on_global = refl })
    ]

prefix_starts :
    (prefix : List ℕ) (valid_lt preferred_lt : ℕ) (h : Host)
    → ipv6_addr_equal (global_address prefix h.netdev.hwaddr) h.netdev.addr6_ll ≡ false
    → let s = ipv6_addrconf_update_lifetime prefix 64 valid_lt preferred_lt h in
      (s.dad.dad_done ≡ false)
      × (s.dad.state_ptr ≡ some global)
      × (s.netdev.addr6_global_state ≡ tentative)
      × (s.netdev.addr6_ll_state ≡ h.netdev.addr6_ll_state)
unfolding ipv6_addrconf_update_lifetime store_lifetimes ipv6_dad_start dad_opens set_global
    ndp_send_ns netdev_transmit emit
prefix_starts prefix valid_lt preferred_lt h n =
    let address = global_address prefix h.netdev.hwaddr in
    let stored =
      store_lifetimes valid_lt preferred_lt (ipv6_dad_start address (set_global address h)) in
    let one = schedule preferred_expired preferred_lt stored in
    let a = schedule-SameState preferred_expired preferred_lt stored in
    let b = schedule-SameState valid_expired valid_lt one in
    (
      ap (λ (d : Dad). d.dad_done) (b.dad ∙ a.dad),
      ap (λ (d : Dad). d.state_ptr) (b.dad ∙ a.dad) ∙ rw n refl,
      b.on_global ∙ a.on_global,
      b.on_ll ∙ a.on_ll,
    )

-- The prefix of a router advertisement takes the DAD over from the link-local address: after both
-- timeouts the link-local address is still tentative, and the global one was PREFERRED at the first.
pub overtaken :
    (prefix : List ℕ) (valid_lt preferred_lt : ℕ) (h : Host)
    → h.netdev.addr6_ll_state ≡ tentative
    → ipv6_addr_equal (global_address prefix h.netdev.hwaddr) h.netdev.addr6_ll ≡ false
    → (s : Host) × (dad_timeout (ipv6_addrconf_update_lifetime prefix 64 valid_lt preferred_lt h)
        ≡ some s)
      × (s.netdev.addr6_global_state ≡ preferred)
      × (s.netdev.addr6_ll_state ≡ tentative)
      × (dad_timeout s ≡ some s)
overtaken prefix valid_lt preferred_lt h t n =
    let u = ipv6_addrconf_update_lifetime prefix 64 valid_lt preferred_lt h in
    let (r, p, g, l) = prefix_starts prefix valid_lt preferred_lt h n in
    let (s, e, d) = (dad_outcome global [] u r p g).0 in
    (s, e, d.decided, d.elsewhere ∙ l ∙ t, d.timeout_later)

-- The answer of `b` to a DAD solicitation of anyone.
abbrev pub claim : List ℕ → Host → EthFrame
claim target b = record {
  dmac = ipv6_multicast_mac all_nodes;
  smac = b.netdev.hwaddr;
  packet = with_csum target all_nodes 32 (na_message target b.netdev.hwaddr);
}

-- Two hosts of this stack do not see that they share an address: the owner answers a DAD
-- solicitation, and the answer leaves the addresses, their states and the DAD of the host that asked
-- as they are, so that the timeout will make the address PREFERRED.
pub dad_unseen :
    (id : ℕ) (target : List ℕ) (a b : Host)
    → IsAddress target
    → ipv6_addr_is_unspecified target ≡ false
    → is_ours target b.netdev ≡ true
    → IsMac a.netdev.hwaddr
    → IsMac b.netdev.hwaddr
    → (ipv6_rcv id 86 (solicitation target zero6 a) b
        ≡ some (emit (Act.transmit (claim target b)) b))
      × ((s : Host) × (ipv6_rcv id 86 (claim target b) a ≡ some s)
          × (s.netdev ≡ a.netdev)
          × (s.dad ≡ a.dad))
unfolding with_csum ns_message na_message ndp_hdr ipv6_hdr_set_vtc_flow netdev_transmit
dad_unseen id target a b t u o m k =
    let mc = ipv6_solnode_addr target in
    let hw = a.netdev.hwaddr in
    let hw' = b.netdev.hwaddr in
    let p = with_csum zero6 mc 32 (ns_message target hw) in
    let r = with_csum target all_nodes 32 (na_message target hw') in
    let (bytes, long) = rest_IsBytes 0 1 target hw (omega arith) (omega arith) t m in
    let (bytes', long') = rest_IsBytes 0x60 2 target hw' (omega arith) (omega arith) t k in
    let (s, e, q, d) = na_quiet r.hdr r.body a u in
    (
      rcv_ndp id 135 0 (0 ∷ 0 ∷ 0 ∷ 0 ∷ (target ++ 1 ∷ 1 ∷ hw)) (ipv6_multicast_mac mc) hw zero6 mc
            b (omega arith) (solnode_IsAddress target t) (omega arith) (omega arith) (omega arith)
            bytes long
          ∙ ns_incoming id target zero6 hw mc (ipv6_multicast_mac mc) hw b
          ∙ ap some (ns_claimed hw target hw p.hdr _ _ b t.0 o refl),
      (
        s,
        rcv_ndp id 136 0 (0x60 ∷ 0 ∷ 0 ∷ 0 ∷ (target ++ 2 ∷ 1 ∷ hw')) (ipv6_multicast_mac all_nodes)
              hw' target all_nodes a t (omega arith) (omega arith) (omega arith) (omega arith)
              bytes' long'
            ∙ na_incoming id target all_nodes hw' (ipv6_multicast_mac all_nodes) hw' a
            ∙ e,
        q,
        d,
      ),
    )

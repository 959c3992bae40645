-- ===== src/Ipv6/Input/Preserved.antt =====
-- src/ipv6_input.c, src/icmpv6.c and src/ipv6_output.c: what the neighbour output, the records of
-- calls, the path MTU and the NDP messages of a frame preserve, the frame preserves.
use level_ip.Exthdr.{Walk, ipv6_parse_exthdrs}
use level_ip.Route.{Rtentry, route6_lookup}
use level_ip.Prelude.{
  ◌==◌, not, ◌&&◌, Option, none, some, if◌then◌else◌, drop, ◌+◌, ◌-◌, arith, ltb, Bool-cases,
  Option-cases, ℕ, inl, inr, List,
}
use level_ip.Ndp.Input.{ndp_incoming}
use level_ip.Ndp.Bound.{IfSome}
use level_ip.Ipv6.Output.{dst6_neigh_output, ipv6_output_ex, ipv6_output}
use level_ip.Ipv6.Input.{dispatch6, ipv6_rcv}
use level_ip.Ipv6.{Ipv6Hdr, Packet, EthFrame, Act, Host, emit}
use level_ip.Icmp6.{
  icmpv6_send_time_exceeded, output_state, icmpv6_send_error, icmpv6_pmtu_update, icmpv6_echo_reply,
  icmpv6_incoming,
}

-- A call of the TCP half.
abbrev pub IsCall : Act → Type 0
IsCall (Act.transmit f) = ⊥
IsCall (Act.oneshot_dad ms) = ⊥
IsCall (Act.add_timer t ms x dev) = ⊥
IsCall (Act.cancel_timer t) = ⊥
IsCall (Act.tcp_in_v6 p consumed) = Unit
IsCall (Act.adjust_pmtu6 daddr mtu) = Unit

module _ (P : Host → Type 0)
    (neigh : (rt : Rtentry) (p : Packet) (h : Host) → P h → P (dst6_neigh_output rt p h).1) where
  output-state :
      (room tcpcsum : ℕ) (body : List ℕ) (nexthdr : ℕ) (saddr daddr : List ℕ) (h : Host)
      → P h
      → IfSome P (output_state (ipv6_output room tcpcsum body nexthdr saddr daddr h))
  unfolding ipv6_output ipv6_output_ex
  output-state room tcpcsum body nexthdr saddr daddr h p =
      elim (Option-cases (route6_lookup daddr h.routes)) [
        | inl e ↦ rw (e, ipv6_output, ipv6_output_ex) p
        | inr (rt, e) ↦ elim (Bool-cases (ltb room 40)) [
          | inl y ↦ rw (e, y, ipv6_output, ipv6_output_ex) tt
          | inr n ↦ rw (e, n, ipv6_output, ipv6_output_ex) (neigh rt _ h p)
        ]
      ]

  send_error-IfSome :
      (len : ℕ) (p : Packet) (type code body : ℕ) (h : Host)
      → P h
      → IfSome P (icmpv6_send_error len p type code body h)
  unfolding icmpv6_send_error
  send_error-IfSome len p type code body h k =
      let whole = len - 14 in
      let copy_len = if ltb 1272 whole then 1272 else whole in
      elim (Bool-cases (ltb 54 (8 + copy_len))) [
        | inl y ↦ rw y tt
        | inr n ↦ rw n (output-state (54 - (8 + copy_len)) 0 _ 58 p.hdr.daddr p.hdr.saddr h k)
      ]

  echo_reply-IfSome :
      (ip6h : Ipv6Hdr) (msg : List ℕ) (h : Host) → P h → IfSome P (icmpv6_echo_reply ip6h msg h)
  unfolding icmpv6_echo_reply
  echo_reply-IfSome ip6h msg h k = output-state 54 0 _ 58 ip6h.daddr ip6h.saddr h k

  module _ (emitted : (a : Act) (h : Host) → IsCall a → P h → P (emit a h))
      (routed : (routes : List Rtentry) (h : Host) → P h → P (record h { routes = routes }))
      (id : ℕ) (skb : EthFrame)
      (incoming : (msg : List ℕ) (h : Host) → P h → IfSome P (ndp_incoming id skb msg h)) where
    pmtu_update-IfSome :
        (len : ℕ) (msg : List ℕ) (h : Host) → P h → P (icmpv6_pmtu_update len msg h)
    unfolding icmpv6_pmtu_update
    pmtu_update-IfSome len msg h p = elim (Bool-cases (ltb len 102)) [
      | inl y ↦ rw y p
      | inr n ↦ rw n (emitted _ _ tt (routed _ h p))
    ]

    icmpv6_incoming-IfSome :
        (len consumed : ℕ) (h : Host) → P h → IfSome P (icmpv6_incoming id len skb consumed h)
    unfolding icmpv6_incoming
    icmpv6_incoming-IfSome len consumed h p =
        let msg = drop consumed skb.packet.body in
        ground (
          arith,
          echo_reply-IfSome skb.packet.hdr msg h p,
          pmtu_update-IfSome len msg h p,
          incoming msg h p,
        )

    dispatch-IfSome : (len : ℕ) (w : Walk) (h : Host) → P h → IfSome P (dispatch6 id len skb w h)
    unfolding dispatch6
    dispatch-IfSome len w h p = ground (
      arith,
      icmpv6_incoming-IfSome len w.consumed h p,
      emitted (Act.tcp_in_v6 skb.packet w.consumed) h tt p,
    )

    walked-IfSome :
        (len : ℕ) (walk : Option Walk) (h : Host)
        → P h
        → IfSome P (elim walk [
          | none ↦ some h
          | some w ↦
              if w.has_frag && not (w.frag_off == 0) then some h else dispatch6 id len skb w h
        ])
    walked-IfSome len none h p = p
    walked-IfSome len (some w) h p = elim (Bool-cases (w.has_frag && not (w.frag_off == 0))) [
      | inl y ↦ rw y p
      | inr n ↦ rw n (dispatch-IfSome len w h p)
    ]

    pub rcv-IfSome : (len : ℕ) (h : Host) → P h → IfSome P (ipv6_rcv id len skb h)
    unfolding ipv6_rcv icmpv6_send_time_exceeded
    rcv-IfSome len h p =
        let ip6h = skb.packet.hdr in
        let walk = ipv6_parse_exthdrs ip6h.nexthdr skb.packet.body ip6h.payload_len in
        ground (arith, send_error-IfSome len skb.packet 3 0 0 h p, walked-IfSome len walk h p)

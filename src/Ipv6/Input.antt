-- ===== src/Ipv6/Input.antt =====
-- src/ipv6_input.c: a packet arrives. `len` is skb->len, the length of the frame; `id` is what malloc
-- returns for a route.
pub mod Refused
pub mod Bound
pub mod Preserved
use level_ip.Prelude.{
  ltb, ◌==◌, if◌then◌else◌, ◌+◌, Bool, true, false, not, ◌&&◌, Option, none, some, List, ℕ,
}
use level_ip.Exthdr.{Walk, ipv6_parse_exthdrs}
use level_ip.Ipv6.{ipv6_hdr_version, EthFrame, Act, Host, emit}
use level_ip.Icmp6.{icmpv6_incoming, icmpv6_send_time_exceeded}

-- The switch on the upper-layer protocol. A datagram of UDP is dropped.
unfoldable pub dispatch6 : ℕ → ℕ → EthFrame → Walk → Host → Option Host
dispatch6 id len skb w h =
    if w.nexthdr == 58
    then icmpv6_incoming id len skb w.consumed h
    else if w.nexthdr == 6
    then some (emit (Act.tcp_in_v6 skb.packet w.consumed) h)
    else some h

unfoldable pub ipv6_rcv : ℕ → ℕ → EthFrame → Host → Option Host
unfolding dispatch6
ipv6_rcv id len skb h =
    let ip6h = skb.packet.hdr in
    if not (ipv6_hdr_version ip6h == 6)
    then some h
    else if ltb len (ip6h.payload_len + 40)
    then some h
    else if ip6h.hop_limit == 0
    then icmpv6_send_time_exceeded len skb.packet h
    else elim (ipv6_parse_exthdrs ip6h.nexthdr skb.packet.body ip6h.payload_len) [
      | none ↦ some h
      | some w ↦ if w.has_frag && not (w.frag_off == 0) then some h else dispatch6 id len skb w h
    ]

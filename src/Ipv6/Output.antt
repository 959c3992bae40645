-- ===== src/Ipv6/Output.antt =====
-- src/ipv6_output.c and src/dst.c: a packet leaves. Every route goes by the one device. `room` is
-- the space between the head of the buffer and its data. Answers: `true` where the packet went to the
-- device, `false` for the return of -1.
pub mod Misses
use Prim.Native.Nat.{bit_and}
use level_ip.Prelude.{
  ltb, ◌==◌, if◌then◌else◌, length, set, u16, ◌+◌, ◌%◌, ◌/◌, Bool, true, false, not, ◌&&◌, Option,
  none, some, List, [], ◌∷◌, ◌++◌, ℕ,
}
use level_ip.Checksum.{checksum}
use level_ip.Route.{Rtentry, route6_lookup}
use level_ip.Ipv6.{
  ipv6_addr_is_unspecified, Ipv6Hdr, ipv6_hdr_set_vtc_flow, Packet, Netdev6, Host, netdev_transmit,
}
use level_ip.Ndp.{ndp_get_hwaddr, ndp_send_ns, ndp_lookup, ndp_entry_alloc, ndp_queue_skb}

-- RT_GATEWAY is 0x2.
unfoldable pub next_hop : Rtentry → Packet → List ℕ
next_hop rt skb = if bit_and rt.flags 2 == 0 then skb.hdr.daddr else rt.gateway6

-- The entry is there, or there was room for it, before the packet is queued. One step here; in the
-- source other threads may come between the lookup, the new entry and the queueing.
unfoldable pub queue_behind : List ℕ → Packet → Host → Host
queue_behind hop skb h = elim (ndp_lookup hop h.ndp_cache) [
  | none ↦ let (made, s) = ndp_entry_alloc hop h in if made then (ndp_queue_skb hop skb s).1 else s
  | some e ↦ (ndp_queue_skb hop skb h).1
]

unfoldable pub dst6_neigh_output : Rtentry → Packet → Host → Bool × Host
unfolding next_hop queue_behind
dst6_neigh_output rt skb h =
    let hop = next_hop rt skb in
    elim (ndp_get_hwaddr hop h.ndp_cache) [
      | some dmac ↦ (true, netdev_transmit skb dmac h)
      | none ↦ (false, queue_behind hop skb (ndp_send_ns hop skb.hdr.saddr h))
    ]

-- The address that the caller gave, or else one of the device.
unfoldable pub source_address : List ℕ → Netdev6 → List ℕ
source_address saddr dev =
    if not (ipv6_addr_is_unspecified saddr)
    then saddr
    else if dev.addr6_global_valid
    then dev.addr6_global
    else dev.addr6_ll

unfoldable pub tcp_v6_ip_partion_checksum : List ℕ → List ℕ → ℕ → ℕ
tcp_v6_ip_partion_checksum saddr daddr csum = checksum (saddr ++ daddr) csum

-- The field csum of struct tcphdr, the low byte first.
unfoldable pub put_tcp_csum : ℕ → List ℕ → List ℕ
put_tcp_csum csum body = set (set body 16 (csum % 256)) 17 (csum / 256)

-- `saddr` is not NULL; the address chosen is written back to it. `tcpcsum` is the field of the
-- buffer. `none` is a push of the header that leaves the buffer.
unfoldable pub ipv6_output_ex :
    ℕ → ℕ → List ℕ → ℕ → List ℕ → List ℕ → Bool → Host → Option (Bool × List ℕ × Host)
unfolding tcp_v6_ip_partion_checksum put_tcp_csum ipv6_hdr_set_vtc_flow
ipv6_output_ex room tcpcsum body nexthdr saddr daddr headroom_reserved h =
    let source = source_address saddr h.netdev in
    let csum = tcp_v6_ip_partion_checksum source daddr tcpcsum in
    let hdr =
      ipv6_hdr_set_vtc_flow
        (record {
          vtc_flow = 0;
          payload_len = u16 (length body);
          nexthdr = nexthdr;
          hop_limit = 64;
          saddr = source;
          daddr = daddr;
        })
        6 0 0 in
    let skb : Packet = record {
      hdr = hdr;
      body = if nexthdr == 6 then put_tcp_csum csum body else body;
    } in
    elim (route6_lookup daddr h.routes) [
      | none ↦ some (false, saddr, h)
      | some rt ↦
          let (done, s) = dst6_neigh_output rt skb h in
          if not headroom_reserved && ltb room 40 then none else some (done, source, s)
    ]

unfoldable pub ipv6_output :
    ℕ → ℕ → List ℕ → ℕ → List ℕ → List ℕ → Host → Option (Bool × List ℕ × Host)
unfolding ipv6_output_ex
ipv6_output room tcpcsum body nexthdr saddr daddr h =
    ipv6_output_ex room tcpcsum body nexthdr saddr daddr false h

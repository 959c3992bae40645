-- ===== src/Icmp6.antt =====
-- src/icmpv6.c. `msg` is the memory from the ICMPv6 header on; what is read behind its end is 0.
-- `none` is a write or a read outside of an object. Allocations succeed.
pub mod Echo
pub mod Errors
use level_ip.Prelude.{
  ltb, ◌==◌, if◌then◌else◌, get_or, length, drop, u8, u16, ◌+◌, ◌-◌, ◌*◌, ◌/◌, ◌%◌, Bool, true,
  false, not, ◌&&◌, ◌||◌, Option, none, some, List, [], ◌∷◌, ◌++◌, ℕ,
}
use level_ip.Route.{route6_update_pmtu}
use level_ip.Ipv6.{read, Ipv6Hdr, Packet, EthFrame, Act, Host, emit}
use level_ip.Ipv6.Pseudo.{icmpv6_checksum}
use level_ip.Ipv6.Output.{ipv6_output}
use level_ip.Ndp.Input.{be32, ndp_incoming}

-- struct ipv6hdr in memory, in network order.
unfoldable pub hdr_bytes : Ipv6Hdr → List ℕ
hdr_bytes h =
    u8 (h.vtc_flow / 0x100_0000)
    ∷ u8 (h.vtc_flow / 0x1_0000)
    ∷ u8 (h.vtc_flow / 256)
    ∷ u8 h.vtc_flow
    ∷ u8 (h.payload_len / 256)
    ∷ u8 h.payload_len
    ∷ h.nexthdr
    ∷ h.hop_limit
    ∷ (h.saddr ++ h.daddr)

-- The message body that follows type, code and checksum is in network order.
unfoldable pub error_message : ℕ → ℕ → ℕ → List ℕ → ℕ → ℕ → List ℕ
error_message type code body original c d =
    type
    ∷ code
    ∷ c
    ∷ d
    ∷ u8 (body / 0x100_0000)
    ∷ u8 (body / 0x1_0000)
    ∷ u8 (body / 256)
    ∷ u8 body
    ∷ original

abbrev pub output_state : Option (Bool × List ℕ × Host) → Option Host
output_state none = none
output_state (some (done, saddr, h)) = some h

-- `len` is the length of the frame with its Ethernet header. The buffer has 54 bytes in front of
-- the data when the message is pushed: no room for one of more than 54 bytes.
unfoldable pub icmpv6_send_error : ℕ → Packet → ℕ → ℕ → ℕ → Host → Option Host
unfolding hdr_bytes error_message
icmpv6_send_error len skb type code body h =
    let whole = len - 14 in
    let copy_len = if ltb 1272 whole then 1272 else whole in
    let icmpv6_len = 8 + copy_len in
    let original = read copy_len (hdr_bytes skb.hdr ++ skb.body) in
    let message = error_message type code body original in
    let csum = icmpv6_checksum skb.hdr.daddr skb.hdr.saddr (message 0 0) (u16 icmpv6_len) in
    let sent =
      ipv6_output (54 - icmpv6_len) 0 (message (csum % 256) (csum / 256)) 58 skb.hdr.daddr
        skb.hdr.saddr h in
    if ltb 54 icmpv6_len then none else output_state sent

unfoldable pub icmpv6_send_dst_unreach : ℕ → Packet → ℕ → Host → Option Host
unfolding icmpv6_send_error
icmpv6_send_dst_unreach len skb code h = icmpv6_send_error len skb 1 code 0 h

unfoldable pub icmpv6_send_pkt_toobig : ℕ → Packet → ℕ → Host → Option Host
unfolding icmpv6_send_error
icmpv6_send_pkt_toobig len skb mtu h = icmpv6_send_error len skb 2 0 mtu h

unfoldable pub icmpv6_send_time_exceeded : ℕ → Packet → Host → Option Host
unfolding icmpv6_send_error
icmpv6_send_time_exceeded len skb h = icmpv6_send_error len skb 3 0 0 h

-- The (uint16_t) casts of the MTU, the destination in the embedded header, and both calls.
unfoldable pub icmpv6_pmtu_update : ℕ → List ℕ → Host → Host
icmpv6_pmtu_update len msg h =
    let mtu = u16 (be32 msg 4) in
    let orig_daddr = read 16 (drop 32 msg) in
    let routes = (route6_update_pmtu orig_daddr mtu h.routes).1 in
    if ltb len 102 then h else emit (Act.adjust_pmtu6 orig_daddr mtu) (record h { routes = routes })

unfoldable pub echo_message : List ℕ → ℕ → ℕ → List ℕ
echo_message request c d = 129 ∷ get_or request 1 0 ∷ c ∷ d ∷ drop 4 request

-- The whole payload length is copied from the ICMPv6 header on, and is the length of the reply.
unfoldable pub icmpv6_echo_reply : Ipv6Hdr → List ℕ → Host → Option Host
unfolding echo_message
icmpv6_echo_reply ip6h msg h =
    let icmpv6_len = ip6h.payload_len in
    let message = echo_message (read icmpv6_len msg) in
    let csum = icmpv6_checksum ip6h.daddr ip6h.saddr (message 0 0) icmpv6_len in
    let reply = read icmpv6_len (message (csum % 256) (csum / 256)) in
    output_state (ipv6_output 54 0 reply 58 ip6h.daddr ip6h.saddr h)

-- `consumed` is the length of the extension headers.
unfoldable pub icmpv6_incoming : ℕ → ℕ → EthFrame → ℕ → Host → Option Host
icmpv6_incoming id len skb consumed h =
    let ip6h = skb.packet.hdr in
    let msg = drop consumed skb.packet.body in
    let icmpv6_len = u16 (ip6h.payload_len + 65536 - consumed) in
    let csum = icmpv6_checksum ip6h.saddr ip6h.daddr msg icmpv6_len in
    let type = get_or msg 0 0 in
    if not (csum == 0)
    then some h
    else if type == 128
    then icmpv6_echo_reply ip6h msg h
    else if type == 2
    then some (icmpv6_pmtu_update len msg h)
    else if ltb 132 type && ltb type 138
    then ndp_incoming id skb msg h
    else some h

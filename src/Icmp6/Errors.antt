-- ===== src/Icmp6/Errors.antt =====
-- src/icmpv6.c: the error messages do not fit in front of the data of their buffer.
use level_ip.Prelude.{ltb, if◌then◌else◌, ℕ, ◌+◌, ◌-◌, ◌≤◌, ◌≡◌, refl, true, none, arith}
use level_ip.Ipv6.Input.{ipv6_rcv}
use level_ip.Ipv6.{ipv6_hdr_version, Packet, EthFrame, Host}
use level_ip.Icmp6.{icmpv6_send_error, icmpv6_send_time_exceeded}

send_error_faults :
    (len : ℕ) (skb : Packet) (type code body : ℕ) (h : Host)
    → 61 ≤ len
    → icmpv6_send_error len skb type code body h ≡ none
unfolding icmpv6_send_error
send_error_faults len skb type code body h l =
    let whole = len - 14 in
    let copy_len = if ltb 1272 whole then 1272 else whole in
    let big : ltb 54 (8 + copy_len) ≡ true = ground arith in rw big refl

-- A packet of version 6 with hop limit 0, in a frame of 61 bytes or more that holds its payload, makes
-- the host write an error message in front of a buffer.
pub hop_limit_faults :
    (id len : ℕ) (skb : EthFrame) (h : Host)
    → ipv6_hdr_version skb.packet.hdr ≡ 6
    → skb.packet.hdr.payload_len + 40 ≤ len
    → skb.packet.hdr.hop_limit ≡ 0
    → 61 ≤ len
    → ipv6_rcv id len skb h ≡ none
unfolding ipv6_rcv icmpv6_send_time_exceeded
hop_limit_faults id len skb h v p z l = ground (arith, send_error_faults len skb.packet 3 0 0 h l)

-- ===== src/Ipv4/Reply.antt =====
-- src/icmpv4.c: the answer to an echo request.
use level_ip.Prelude.{
  none, true, ltb, ◌||◌, ◌&&◌, if◌then◌else◌, ◌⊎◌, inl, inr, Bool-cases, get_or, drop, u16, ◌+◌,
  ◌-◌, ◌*◌, ◌/◌, ◌%◌, ◌≤◌, ◌<◌, ◌≡◌, ap, ◌∙◌, some, List, ◌∷◌, ℕ, arith,
}
use level_ip.Checksum.{checksum}
use level_ip.Route.{Rtentry, route_lookup}
use level_ip.Arp.{arp_get_hwaddr}
use level_ip.Ipv6.{read}
use level_ip.Ipv4.{
  buflen, Host4, emit4, ip_hdr, ip_header, ip_send_check, ip_packet, ip_output, next_hop4,
  dst_neigh_output, dispatch4, ip_rcv, upper_csum, icmpv4_incoming, icmpv4_reply, echo_reply4,
}
use level_ip.Ipv4.Act4.{ip_frame}
use level_ip.Ipv4.Sent.{sent_hdr, packet_begins, ip_hdr-header}

-- An echo request without options in `pkt`, with a header that passes the checks.
pub record IsEchoRequest (pkt : List ℕ) : Type 0 where
  pub version : (ip_hdr pkt).version ≡ 4
  pub ihl : (ip_hdr pkt).ihl ≡ 5
  pub alive : 0 < (ip_hdr pkt).ttl
  pub proto : (ip_hdr pkt).proto ≡ 1
  pub checks : checksum (read 20 pkt) 0 ≡ 0
  pub type : get_or pkt 20 0 ≡ 8
  pub len : 28 ≤ (ip_hdr pkt).len

-- The message of a reply, with two bytes for its checksum: type 0, the rest as in the request.
abbrev pub reply_message : List ℕ → ℕ → ℕ → List ℕ
reply_message msg c d = 0 ∷ get_or msg 1 0 ∷ c ∷ d ∷ drop 4 msg

abbrev pub answer : List ℕ → List ℕ
answer pkt =
    let msg = drop 20 pkt in
    let csum = checksum (read ((ip_hdr pkt).len - 20) (reply_message msg 0 0)) 0 in
    reply_message msg (csum % 256) (csum / 256)

rcv-request :
    (flen : ℕ) (pkt : List ℕ) (h : Host4)
    → IsEchoRequest pkt
    → ip_rcv flen pkt h ≡ icmpv4_reply flen pkt h
unfolding ip_rcv dispatch4 icmpv4_incoming
rcv-request flen pkt h r =
    let k : (ip_hdr pkt).ihl * 4 ≡ 20 = omega (arith, r.ihl) in
    let c : checksum (read ((ip_hdr pkt).ihl * 4) pkt) 0 ≡ 0 =
      ap (λ n. checksum (read n pkt) 0) k ∙ r.checks in
    ground (arith, r.version, r.ihl, r.alive, r.proto, r.type, c)

reply-ip_output :
    (flen : ℕ) (pkt : List ℕ) (h : Host4)
    → IsEchoRequest pkt
    → (ip_hdr pkt).len < 65536
    → let ih = ip_hdr pkt in
      let (sent, s) = ip_output ih.saddr (flen + (ih.len - 20)) ih.id 1 0 (answer pkt) h in
      icmpv4_reply flen pkt h ≡ (
        if ltb buflen (34 + (ih.len - 20)) || (sent && ltb buflen (34 + (flen + (ih.len - 20))))
        then none
        else some s)
unfolding icmpv4_reply echo_reply4
reply-ip_output flen pkt h r b =
    let ih = ip_hdr pkt in
    let msg = drop 20 pkt in
    let w : u16 (ih.len + 65536 - ih.ihl * 4) ≡ ih.len - 20 = omega (arith, r.ihl, r.len, b) in
    ap
      (λ m.
        let csum = checksum (read m (echo_reply4 msg 0 0)) 0 in
        let out =
          ip_output ih.saddr (flen + m) ih.id 1 0 (echo_reply4 msg (csum % 256) (csum / 256)) h in
        if ltb buflen (34 + m) || (out.0 && ltb buflen (34 + (flen + m))) then none else some out.1)
      w

-- What ip_output does with the answer.
reply_sent :
    (pkt : List ℕ) (h : Host4) (rt : Rtentry) (dmac : ℕ)
    → IsEchoRequest pkt
    → route_lookup (ip_hdr pkt).saddr h.routes ≡ some rt
    → arp_get_hwaddr (next_hop4 rt (ip_hdr pkt).saddr) h.cache ≡ some dmac
    → let ih = ip_hdr pkt in
      let p = ip_packet (2 * ih.len + 14) ih.id 1 0 h.netdev.addr ih.saddr (answer pkt) in
      ip_output ih.saddr (ih.len + 14 + (ih.len - 20)) ih.id 1 0 (answer pkt) h
      ≡ (true, emit4 (ip_frame dmac p) h)
unfolding ip_output dst_neigh_output
reply_sent pkt h rt dmac r t m =
    let ih = ip_hdr pkt in
    let n : ih.len + 14 + (ih.len - 20) + 20 ≡ 2 * ih.len + 14 = omega (arith, r.len) in
    rw (t, ip_output, m, dst_neigh_output)
      (ap
        (λ k. (
          true,
          emit4 (ip_frame dmac (ip_packet k ih.id 1 0 h.netdev.addr ih.saddr (answer pkt))) h,
        ))
        n)

-- An echo request in a frame that it fills is answered by one packet to its source, with its
-- identifier, number and data, but the packet's length is twice that of the request and 14 more.
-- Where that, with the header of the frame, is more than the 1600 bytes of the buffer, the host
-- reads past the end of the buffer. The request has no options, the device's address and the fields
-- are in range, and the hardware address of the next hop is known.
pub icmpv4_echo_answered :
    (pkt : List ℕ) (h : Host4) (rt : Rtentry) (dmac : ℕ)
    → IsEchoRequest pkt
    → (ip_hdr pkt).len < 65536
    → (ip_hdr pkt).id < 65536
    → (ip_hdr pkt).saddr < 4294967296
    → h.netdev.addr < 4294967296
    → route_lookup (ip_hdr pkt).saddr h.routes ≡ some rt
    → arp_get_hwaddr (next_hop4 rt (ip_hdr pkt).saddr) h.cache ≡ some dmac
    → let ih = ip_hdr pkt in
      let len = 2 * ih.len + 14 in
      let p = ip_packet len ih.id 1 0 h.netdev.addr ih.saddr (answer pkt) in
      ((len + 14 ≤ 1600)
        × (ip_rcv (ih.len + 14) pkt h ≡ some (emit4 (ip_frame dmac p) h))
        × (ip_hdr p ≡ sent_hdr len ih.id 1 h.netdev.addr ih.saddr)
        × (drop 20 p ≡ read (len - 20) (answer pkt)))
      ⊎ ((1600 < len + 14) × (ip_rcv (ih.len + 14) pkt h ≡ none))
unfolding ip_send_check ip_header upper_csum
icmpv4_echo_answered pkt h rt dmac r b i s a t m =
    let ih = ip_hdr pkt in
    let len = 2 * ih.len + 14 in
    let flen = ih.len + 14 in
    let q = rcv-request flen pkt h r ∙ reply-ip_output flen pkt h r b in
    let o = reply_sent pkt h rt dmac r t m in
    let begun = ip_header len ih.id 1 h.netdev.addr ih.saddr in
    elim (Bool-cases (ltb 1600 (len + 14))) [
      | inl y ↦ inr (ground arith, q ∙ rw o (ground (arith, r.len)))
      | inr n ↦
          let small : len + 14 ≤ 1600 = ground arith in
          let e =
            packet_begins len ih.id 1 0 h.netdev.addr ih.saddr (answer pkt) (omega (arith, r.len))
              (omega (arith, small)) in
          inl (
            small,
            q ∙ rw o (ground (arith, r.len)),
            ap ip_hdr e
                ∙ ip_hdr-header len ih.id 1 h.netdev.addr ih.saddr (checksum (begun 0 0) 0 % 256)
                    (checksum (begun 0 0) 0 / 256)
                    (read (len - 20) (upper_csum 1 0 h.netdev.addr ih.saddr (answer pkt)))
                    (omega (arith, small)) i a s,
            ap (drop 20) e,
          )
    ]

-- ===== src/Icmp6/Echo.antt =====
-- src/icmpv6.c: an echo request and its reply.
use level_ip.Icmp6.{output_state, echo_message, icmpv6_echo_reply, icmpv6_incoming}
use level_ip.Exthdr.{Walk, walk_loop, ipv6_parse_exthdrs}
use level_ip.Route.{Rtentry, route6_lookup}
use level_ip.Prelude.{
  ◌-◌, ltb, ◌==◌, not, refl, ◌∙◌, arith, length, u16, ℕ, ◌+◌, ◌/◌, ◌%◌, ◌≤◌, ◌<◌, ◌≡◌, false, some,
  List, ◌∷◌,
}
use level_ip.Ipv6.Verified.{read_all, icmpv6_checksum_verifies, IsBytes, IsAddress}
use level_ip.Ipv6.Pseudo.{icmpv6_checksum}
use level_ip.Ipv6.Output.{source_address, ipv6_output_ex, ipv6_output, dst6_neigh_output}
use level_ip.Ipv6.Input.{dispatch6, ipv6_rcv}
use level_ip.Ipv6.{ipv6_addr_is_unspecified, Ipv6Hdr, ipv6_hdr_version, Packet, EthFrame, Host}

-- The reply to a request: its addresses are swapped, its data are the request's.
abbrev pub reply_to : Ipv6Hdr → ℕ → List ℕ → Packet
reply_to ip6h code rest =
    let len = length rest + 4 in
    let csum = icmpv6_checksum ip6h.daddr ip6h.saddr (129 ∷ code ∷ 0 ∷ 0 ∷ rest) len in
    record {
      hdr = record {
        vtc_flow = 0x6000_0000;
        payload_len = u16 len;
        nexthdr = 58;
        hop_limit = 64;
        saddr = ip6h.daddr;
        daddr = ip6h.saddr;
      };
      body = 129 ∷ code ∷ csum % 256 ∷ csum / 256 ∷ rest;
    }

-- An echo request as it arrives, without extension headers.
pub record IsRequest (skb : EthFrame) (code c d : ℕ) (rest : List ℕ) : Type 0 where
  pub version : ipv6_hdr_version skb.packet.hdr ≡ 6
  pub hops : 0 < skb.packet.hdr.hop_limit
  pub icmp : skb.packet.hdr.nexthdr ≡ 58
  pub payload : skb.packet.hdr.payload_len ≡ length rest + 4
  pub small : length rest + 4 < 10000
  pub body : skb.packet.body ≡ 128 ∷ code ∷ c ∷ d ∷ rest
  pub bytes : (code < 256) × IsBytes rest
  pub source : IsAddress skb.packet.hdr.saddr
  pub here : IsAddress skb.packet.hdr.daddr
  pub given : ipv6_addr_is_unspecified skb.packet.hdr.daddr ≡ false
  pub sound :
      icmpv6_checksum skb.packet.hdr.saddr skb.packet.hdr.daddr skb.packet.body (length rest + 4)
      ≡ 0

output_routed :
    (body saddr daddr : List ℕ) (rt : Rtentry) (h : Host)
    → ipv6_addr_is_unspecified saddr ≡ false
    → route6_lookup daddr h.routes ≡ some rt
    → output_state (ipv6_output 54 0 body 58 saddr daddr h)
      ≡ some
          (dst6_neigh_output rt
            (record {
              hdr = record {
                vtc_flow = 0x6000_0000;
                payload_len = u16 (length body);
                nexthdr = 58;
                hop_limit = 64;
                saddr = saddr;
                daddr = daddr;
              };
              body = body;
            })
            h).1
unfolding ipv6_output ipv6_output_ex source_address
output_routed body saddr daddr rt h u r = rw (r, ipv6_output, ipv6_output_ex, u) refl

-- The reply, for a payload length that is the length of the request.
replied :
    (ip6h : Ipv6Hdr) (code c d : ℕ) (rest : List ℕ) (rt : Rtentry) (h : Host)
    → ip6h.payload_len ≡ length rest + 4
    → ipv6_addr_is_unspecified ip6h.daddr ≡ false
    → route6_lookup ip6h.saddr h.routes ≡ some rt
    → icmpv6_echo_reply ip6h (128 ∷ code ∷ c ∷ d ∷ rest) h
      ≡ some (dst6_neigh_output rt (reply_to ip6h code rest) h).1
unfolding icmpv6_echo_reply echo_message
replied ip6h code c d rest rt h p u r =
    let len = length rest + 4 in
    let request = read_all len (128 ∷ code ∷ c ∷ d ∷ rest) (omega arith) in
    let csum = icmpv6_checksum ip6h.daddr ip6h.saddr (129 ∷ code ∷ 0 ∷ 0 ∷ rest) len in
    let body = 129 ∷ code ∷ csum % 256 ∷ csum / 256 ∷ rest in
    let whole = read_all len body (omega arith) in
    let long : length body ≡ len = omega arith in
    rw (p, request, whole) (output_routed body ip6h.daddr ip6h.saddr rt h u r ∙ rw long refl)

abbrev no_headers : Walk
no_headers = record {
  nexthdr = 58;
  ptr = 0;
  consumed = 0;
  has_frag = false;
  frag_off = 0;
  frag_id = 0;
}

walk_ends :
    (nexthdr plen : ℕ) (bytes : List ℕ)
    → nexthdr ≡ 58
    → ipv6_parse_exthdrs nexthdr bytes plen ≡ some no_headers
unfolding ipv6_parse_exthdrs walk_loop
walk_ends nexthdr plen bytes n = rw n refl

incoming_echo :
    (id len : ℕ) (skb : EthFrame) (code c d : ℕ) (rest : List ℕ) (h : Host)
    → IsRequest skb code c d rest
    → icmpv6_incoming id len skb 0 h
      ≡ icmpv6_echo_reply skb.packet.hdr (128 ∷ code ∷ c ∷ d ∷ rest) h
unfolding icmpv6_incoming
incoming_echo id len skb code c d rest h q =
    let ip6h = skb.packet.hdr in
    let request = 128 ∷ code ∷ c ∷ d ∷ rest in
    let long : u16 (ip6h.payload_len + 65536 - 0) ≡ length rest + 4 =
      omega (arith, q.payload, q.small) in
    let sound : icmpv6_checksum ip6h.saddr ip6h.daddr request (length rest + 4) ≡ 0 =
      rw q.body at q.sound in
    rw (q.body, long, sound) refl

-- A request comes in at icmpv6_echo_reply.
request_taken :
    (id len : ℕ) (skb : EthFrame) (code c d : ℕ) (rest : List ℕ) (h : Host)
    → IsRequest skb code c d rest
    → length rest + 44 ≤ len
    → ipv6_rcv id len skb h ≡ icmpv6_echo_reply skb.packet.hdr (128 ∷ code ∷ c ∷ d ∷ rest) h
unfolding ipv6_rcv dispatch6
request_taken id len skb code c d rest h q l =
    let ip6h = skb.packet.hdr in
    let version : not (ipv6_hdr_version ip6h == 6) ≡ false = ground (arith, q.version) in
    let fits : ltb len (ip6h.payload_len + 40) ≡ false = ground (arith, q.payload) in
    let hops : (ip6h.hop_limit == 0) ≡ false = ground (arith, q.hops) in
    let walk = walk_ends ip6h.nexthdr ip6h.payload_len skb.packet.body q.icmp in
    rw (version, fits, hops, walk) (incoming_echo id len skb code c d rest h q)

-- An echo request with a good checksum and no extension headers, for which there is a route back, is
-- answered by one packet on that route: from the address that it came to, to the one it came from,
-- with the identifier, the number and the data of the request, and a checksum that verifies.
pub echo_answered :
    (id len : ℕ) (skb : EthFrame) (code c d : ℕ) (rest : List ℕ) (rt : Rtentry) (h : Host)
    → IsRequest skb code c d rest
    → length rest + 44 ≤ len
    → route6_lookup skb.packet.hdr.saddr h.routes ≡ some rt
    → (ipv6_rcv id len skb h ≡ some (dst6_neigh_output rt (reply_to skb.packet.hdr code rest) h).1)
      × (let reply = reply_to skb.packet.hdr code rest in
          icmpv6_checksum reply.hdr.saddr reply.hdr.daddr reply.body (length rest + 4) ≡ 0)
echo_answered id len skb code c d rest rt h q l r = (
  request_taken id len skb code c d rest h q l
      ∙ replied skb.packet.hdr code c d rest rt h q.payload q.given r,
  icmpv6_checksum_verifies skb.packet.hdr.daddr skb.packet.hdr.saddr 129 code rest (length rest + 4)
      q.here q.source (omega arith) (omega arith) q.bytes.0 q.bytes.1 refl q.small,
)

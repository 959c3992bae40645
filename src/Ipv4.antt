-- ===== src/Ipv4.antt =====
-- src/ip_input.c, src/ip_output.c, src/icmpv4.c, the IPv4 half of src/dst.c and the checksum of
-- src/udp.c. A packet is the list of its bytes from the IPv4 header on; behind its end the buffer,
-- which alloc_skb has cleared, is 0. Every route goes by the one device.
pub mod Sent
pub mod Reply
use Prim.Native.Nat.{bit_and}
use level_ip.Prelude.{
  ltb, ◌==◌, if◌then◌else◌, get_or, set, drop, length, u8, u16, zero, suc, ◌+◌, ◌-◌, ◌*◌, ◌/◌, ◌%◌,
  Bool, true, false, not, ◌&&◌, ◌||◌, Option, none, some, List, [], ◌∷◌, ◌++◌, ℕ,
}
use level_ip.Checksum.{checksum}
use level_ip.Route.{Rtentry, route_lookup}
use level_ip.Arp.{ArpEntry, Netdev, Frame, arp_get_hwaddr, arp_request}
use level_ip.Ipv6.{read}

-- What leaves: an IPv4 packet to a hardware address, a frame of ARP, a call of TCP or UDP.
pub data Act4 : Type 0 where
  ip_frame : ℕ → List ℕ → Act4
  arp_frame : Frame → Act4
  tcp_in udp_in : List ℕ → Act4

pub record Host4 : Type 0 where
  pub netdev : Netdev
  pub cache : List ArpEntry
  pub routes : List Rtentry
  pub log : List Act4

unfoldable pub emit4 : Act4 → Host4 → Host4
emit4 a h = record h { log = h.log ++ a ∷ [] }

-- struct iphdr, with the fields that ip_init_pkt turns in host order.
pub record Iphdr : Type 0 where
  pub version : ℕ
  pub ihl : ℕ
  pub len : ℕ
  pub id : ℕ
  pub ttl : ℕ
  pub proto : ℕ
  pub saddr : ℕ
  pub daddr : ℕ

unfoldable pub ntohs : List ℕ → ℕ → ℕ
ntohs bytes i = get_or bytes i 0 * 256 + get_or bytes (i + 1) 0

unfoldable pub ntohl : List ℕ → ℕ → ℕ
ntohl bytes i =
    get_or bytes i 0 * 16777216
    + get_or bytes (i + 1) 0 * 65536
    + get_or bytes (i + 2) 0 * 256
    + get_or bytes (i + 3) 0

-- The bit fields of the first byte: ihl is the low half on a little-endian machine.
unfoldable pub ip_hdr : List ℕ → Iphdr
unfolding ntohs ntohl
ip_hdr pkt = record {
  version = get_or pkt 0 0 / 16;
  ihl = get_or pkt 0 0 % 16;
  len = ntohs pkt 2;
  id = ntohs pkt 4;
  ttl = get_or pkt 8 0;
  proto = get_or pkt 9 0;
  saddr = ntohl pkt 12;
  daddr = ntohl pkt 16;
}

abbrev pub bytes4 : ℕ → List ℕ → List ℕ
bytes4 a rest = u8 (a / 16777216) ∷ u8 (a / 65536) ∷ u8 (a / 256) ∷ u8 a ∷ rest

-- The header that ip_output writes, in network order, with two bytes for the checksum.
unfoldable pub ip_header : ℕ → ℕ → ℕ → ℕ → ℕ → ℕ → ℕ → List ℕ
ip_header len id proto saddr daddr c d =
    0x45
    ∷ 0
    ∷ u8 (len / 256)
    ∷ u8 len
    ∷ u8 (id / 256)
    ∷ u8 id
    ∷ 0x40
    ∷ 0
    ∷ 64
    ∷ proto
    ∷ c
    ∷ d
    ∷ bytes4 saddr (bytes4 daddr [])

-- ip_send_check.
unfoldable pub ip_send_check : (ℕ → ℕ → List ℕ) → List ℕ
ip_send_check header = let csum = checksum (header 0 0) 0 in header (csum % 256) (csum / 256)

-- The pseudo header and the datagram with the field csum cleared; `sizeof` is 12, the limit 1512.
unfoldable pub calcuate_udp_checksum : ℕ → ℕ → List ℕ → ℕ
unfolding ntohs
calcuate_udp_checksum saddr daddr uhdr =
    let len = ntohs uhdr 4 in
    let pseudo = bytes4 saddr (bytes4 daddr (0 ∷ 17 ∷ get_or uhdr 4 0 ∷ get_or uhdr 5 0 ∷ [])) in
    if ltb 1512 (12 + len) then 0 else checksum (pseudo ++ read len (set (set uhdr 6 0) 7 0)) 0

unfoldable pub tcp_v4_ip_partion_checksum : ℕ → ℕ → ℕ → ℕ
tcp_v4_ip_partion_checksum saddr daddr csum = checksum (bytes4 saddr (bytes4 daddr [])) csum

-- The checksum of the upper layer goes to its header: UDP at 6, TCP at 16, the low byte first.
unfoldable pub upper_csum : ℕ → ℕ → ℕ → ℕ → List ℕ → List ℕ
unfolding calcuate_udp_checksum tcp_v4_ip_partion_checksum
upper_csum proto tcpcsum saddr daddr body =
    let udp = calcuate_udp_checksum saddr daddr body in
    let tcp = tcp_v4_ip_partion_checksum saddr daddr tcpcsum in
    if proto == 17
    then set (set body 6 (udp % 256)) 7 (udp / 256)
    else if proto == 6
    then set (set body 16 (tcp % 256)) 17 (tcp / 256)
    else body

-- RT_GATEWAY is 0x2.
unfoldable pub next_hop4 : Rtentry → ℕ → ℕ
next_hop4 rt daddr = if bit_and rt.flags 2 == 0 then daddr else rt.gateway4

unfoldable pub dst_neigh_output : Rtentry → ℕ → ℕ → List ℕ → Host4 → Bool × Host4
unfolding next_hop4 emit4
dst_neigh_output rt saddr daddr pkt h =
    let hop = next_hop4 rt daddr in
    elim (arp_get_hwaddr hop h.cache) [
      | some dmac ↦ (true, emit4 (ip_frame dmac pkt) h)
      | none ↦ (false, emit4 (arp_frame (arp_request saddr hop h.netdev)) h)
    ]

-- The packet: skb->len bytes from the header on. TCP and UDP allocate buffers of just that length;
-- the callers with another buffer answer for its end.
unfoldable pub ip_packet : ℕ → ℕ → ℕ → ℕ → ℕ → ℕ → List ℕ → List ℕ
unfolding ip_send_check ip_header upper_csum
ip_packet len id proto tcpcsum saddr daddr body = read len (
    ip_send_check (ip_header (u16 len) id proto saddr daddr)
    ++ upper_csum proto tcpcsum saddr daddr body)

-- `len` is skb->len before the header is pushed, `id` what the header field holds.
unfoldable pub ip_output : ℕ → ℕ → ℕ → ℕ → ℕ → List ℕ → Host4 → Bool × Host4
unfolding ip_packet dst_neigh_output
ip_output daddr len id proto tcpcsum body h = elim (route_lookup daddr h.routes) [
  | none ↦ (false, h)
  | some rt ↦
      let saddr = h.netdev.addr in
      dst_neigh_output rt saddr daddr (ip_packet (len + 20) id proto tcpcsum saddr daddr body) h
]

unfoldable pub echo_reply4 : List ℕ → ℕ → ℕ → List ℕ
echo_reply4 msg c d = 0 ∷ get_or msg 1 0 ∷ c ∷ d ∷ drop 4 msg

-- BUFLEN of src/netdev.c, the size of the buffer that holds the frame.
abbrev pub buflen : ℕ
buflen = 1600

-- `len` is skb->len, the length of the frame that arrived. The buffer is used again, so the reply
-- stands behind the first 20 bytes of the packet and its length is added to `len`. `none` is a read
-- past the end of the buffer: by the checksum, or by the device to which the frame of 14 bytes more
-- than the packet is written.
unfoldable pub icmpv4_reply : ℕ → List ℕ → Host4 → Option Host4
unfolding ip_hdr echo_reply4 ip_output
icmpv4_reply len pkt h =
    let iphdr = ip_hdr pkt in
    let icmp_len = u16 (iphdr.len + 65536 - iphdr.ihl * 4) in
    let msg = drop 20 pkt in
    let csum = checksum (read icmp_len (echo_reply4 msg 0 0)) 0 in
    let reply = echo_reply4 msg (csum % 256) (csum / 256) in
    let (sent, s) = ip_output iphdr.saddr (len + icmp_len) iphdr.id 1 0 reply h in
    if ltb buflen (34 + icmp_len) || (sent && ltb buflen (34 + (len + icmp_len)))
    then none
    else some s

unfoldable pub icmpv4_incoming : ℕ → List ℕ → Host4 → Option Host4
unfolding icmpv4_reply
icmpv4_incoming len pkt h = if get_or pkt 20 0 == 8 then icmpv4_reply len pkt h else some h

-- The switch on the protocol.
unfoldable pub dispatch4 : ℕ → List ℕ → Host4 → Option Host4
unfolding ip_hdr icmpv4_incoming emit4
dispatch4 len pkt h =
    let proto = (ip_hdr pkt).proto in
    if proto == 1
    then icmpv4_incoming len pkt h
    else if proto == 6
    then some (emit4 (tcp_in pkt) h)
    else if proto == 17
    then some (emit4 (udp_in pkt) h)
    else some h

unfoldable pub ip_rcv : ℕ → List ℕ → Host4 → Option Host4
unfolding ip_hdr dispatch4
ip_rcv len pkt h =
    let ih = ip_hdr pkt in
    if not (ih.version == 4)
    then some h
    else if ltb ih.ihl 5
    then some h
    else if ih.ttl == 0
    then some h
    else if not (checksum (read (ih.ihl * 4) pkt) 0 == 0)
    then some h
    else dispatch4 len pkt h

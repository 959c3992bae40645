-- ===== src/Ipv4/Sent.antt =====
-- src/ip_output.c, src/ip_input.c: what one host sends another takes.
use level_ip.Prelude.{
  length, u8, u16, zero, suc, ◌+◌, ◌-◌, ◌*◌, ◌/◌, ◌%◌, ◌≤◌, ◌<◌, ◌≡◌, refl, ap, sym, ◌∙◌, subst,
  true, some, List, [], ◌∷◌, ◌++◌, ℕ, arith,
}
use level_ip.Checksum.{checksum}
use level_ip.Checksum.Verify.{checksum-checksum}
use level_ip.Route.{Rtentry, route_lookup}
use level_ip.Arp.{arp_get_hwaddr}
use level_ip.Ipv6.{read}
use level_ip.Ipv4.{
  Host4, emit4, Iphdr, ip_hdr, ntohs, ntohl, bytes4, ip_header, ip_send_check, ip_packet, ip_output,
  next_hop4, dst_neigh_output, dispatch4, ip_rcv, upper_csum,
}
use level_ip.Ipv4.Act4.{ip_frame}

pub read-prefix :
    (n : ℕ) (xs rest : List ℕ)
    → length xs ≤ n
    → read n (xs ++ rest) ≡ xs ++ read (n - length xs) rest
unfolding read
read-prefix n [] rest h = ap (λ k. read k rest) (omega arith)
read-prefix zero (x ∷ xs) rest h = absurd (omega arith)
read-prefix (suc n) (x ∷ xs) rest h =
    ap (◌∷◌ x) (read-prefix n xs rest (omega arith) ∙ ap (λ k. xs ++ read k rest) (omega arith))

pub header_checks :
    (len id proto saddr daddr : ℕ)
    → proto < 256
    → checksum (ip_send_check (ip_header len id proto saddr daddr)) 0 ≡ 0
unfolding ip_send_check ip_header
header_checks len id proto saddr daddr h =
    checksum-checksum
      (0x45 ∷ 0 ∷ u8 (len / 256) ∷ u8 len ∷ u8 (id / 256) ∷ u8 id ∷ 0x40 ∷ 0 ∷ 64 ∷ proto ∷ [])
      (bytes4 saddr (bytes4 daddr [])) 0 refl (omega arith) (omega arith)

abbrev pub sent_hdr : ℕ → ℕ → ℕ → ℕ → ℕ → Iphdr
sent_hdr len id proto saddr daddr = record {
  version = 4;
  ihl = 5;
  len = len;
  id = id;
  ttl = 64;
  proto = proto;
  saddr = saddr;
  daddr = daddr;
}

hdr_fields :
    (l k i j p s t d e : ℕ)
    → l ≡ k
    → i ≡ j
    → s ≡ t
    → d ≡ e
    → sent_hdr l i p s d ≡ sent_hdr k j p t e
hdr_fields l k i j p s t d e a b c f = cc

two_bytes : (n : ℕ) → n < 65536 → u8 (n / 256) * 256 + u8 n ≡ n
two_bytes n h = omega arith

four_bytes :
    (n : ℕ)
    → n < 4294967296
    → u8 (n / 16777216) * 16777216 + u8 (n / 65536) * 65536 + u8 (n / 256) * 256 + u8 n ≡ n
four_bytes n h = omega arith

-- What the receiver reads in a packet that begins with the header.
pub ip_hdr-header :
    (len id proto saddr daddr c d : ℕ) (rest : List ℕ)
    → len < 65536
    → id < 65536
    → saddr < 4294967296
    → daddr < 4294967296
    → ip_hdr (ip_header len id proto saddr daddr c d ++ rest) ≡ sent_hdr len id proto saddr daddr
unfolding ip_hdr ip_header ntohs ntohl
ip_hdr-header len id proto saddr daddr c d rest a b s t =
    hdr_fields _ len _ id proto _ saddr _ daddr (two_bytes len a) (two_bytes id b)
      (four_bytes saddr s) (four_bytes daddr t)

-- The whole header is in the packet.
pub packet_begins :
    (len id proto tcpcsum saddr daddr : ℕ) (body : List ℕ)
    → 20 ≤ len
    → len < 65536
    → ip_packet len id proto tcpcsum saddr daddr body
      ≡ ip_send_check (ip_header len id proto saddr daddr)
        ++ read (len - 20) (upper_csum proto tcpcsum saddr daddr body)
unfolding ip_packet ip_send_check ip_header
packet_begins len id proto tcpcsum saddr daddr body a b =
    let wrap : u16 len ≡ len = omega arith in
    ap
      (λ n. read len (
        ip_send_check (ip_header n id proto saddr daddr)
        ++ upper_csum proto tcpcsum saddr daddr body))
      wrap
    ∙ read-prefix len (ip_send_check (ip_header len id proto saddr daddr))
        (upper_csum proto tcpcsum saddr daddr body) a

rcv-header :
    (len id proto saddr daddr flen : ℕ) (rest : List ℕ) (g : Host4)
    → proto < 256
    → len < 65536
    → id < 65536
    → saddr < 4294967296
    → daddr < 4294967296
    → let p = ip_send_check (ip_header len id proto saddr daddr) ++ rest in
      ip_rcv flen p g ≡ dispatch4 flen p g
unfolding ip_rcv ip_hdr ip_send_check ip_header read
rcv-header len id proto saddr daddr flen rest g q a b s t =
    let p = ip_send_check (ip_header len id proto saddr daddr) in
    let f : checksum (read 20 (p ++ rest)) 0 ≡ 0 =
      ap (λ x. checksum x 0) (read-prefix 20 p rest (omega arith))
      ∙ header_checks len id proto saddr daddr q in
    ground (arith, f)

-- A packet that ip_output hands to a neighbour that it knows is taken by the host that gets it, and
-- read as it was written.
pub ip_rcv-ip_output :
    (len id proto tcpcsum daddr flen dmac : ℕ) (body : List ℕ) (rt : Rtentry) (h g : Host4)
    → len + 20 < 65536
    → id < 65536
    → proto < 256
    → h.netdev.addr < 4294967296
    → daddr < 4294967296
    → route_lookup daddr h.routes ≡ some rt
    → arp_get_hwaddr (next_hop4 rt daddr) h.cache ≡ some dmac
    → let p = ip_packet (len + 20) id proto tcpcsum h.netdev.addr daddr body in
      (ip_output daddr len id proto tcpcsum body h ≡ (true, emit4 (ip_frame dmac p) h))
      × (ip_rcv flen p g ≡ dispatch4 flen p g)
      × (ip_hdr p ≡ sent_hdr (len + 20) id proto h.netdev.addr daddr)
unfolding ip_output dst_neigh_output
ip_rcv-ip_output len id proto tcpcsum daddr flen dmac body rt h g a b q s t r m =
    let n = len + 20 in
    let saddr = h.netdev.addr in
    let e = packet_begins n id proto tcpcsum saddr daddr body (omega arith) a in
    let rest = read (n - 20) (upper_csum proto tcpcsum saddr daddr body) in
    let begun = ip_header n id proto saddr daddr in
    (
      rw (r, ip_output, m, dst_neigh_output) refl,
      subst (λ p. ip_rcv flen p g ≡ dispatch4 flen p g) (sym e)
          (rcv-header n id proto saddr daddr flen rest g q a b s t),
      ap ip_hdr e
          ∙ ip_hdr-header n id proto saddr daddr (checksum (begun 0 0) 0 % 256)
              (checksum (begun 0 0) 0 / 256) rest a b s t,
    )

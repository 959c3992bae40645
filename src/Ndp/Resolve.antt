-- ===== src/Ndp/Resolve.antt =====
-- src/ndp.c between two hosts: a solicitation, the answer to it, and what the answer does.
pub mod Exchange
use level_ip.Icmp6.{icmpv6_incoming}
use level_ip.Exthdr.{walk_loop, ipv6_parse_exthdrs}
use level_ip.Prelude.{
  sym, ap, [], append_assoc, append-nil, get_or, ◌∙◌, none, ltb, ◌==◌, arith, length, drop, ℕ, ◌<◌,
  ◌≡◌, refl, true, false, some, List, ◌∷◌, ◌++◌,
}
use level_ip.Ndp.Input.{
  na_options, na_resolves, is_incomplete, na_entry, ndp_na_process, is_ours, na_message,
  ndp_ns_process, ndp_incoming,
}
use level_ip.Ndp.{
  ndp_get_hwaddr, send_all, no_queue, ipv6_solnode_addr, ipv6_multicast_mac, ndp_hdr, ndp_lookup,
  write_entry, ndp_flush_queue, with_csum, ns_message,
}
use level_ip.Ipv6.Verified.{
  read_all, icmpv6_checksum_verifies, IsBytes, IsAddress, read-append, drop-append,
}
use level_ip.Ipv6.Input.{dispatch6, ipv6_rcv}
use level_ip.Ipv6.{
  Packet, Act, emit, incomplete, transmit, ipv6_hdr_version, ipv6_hdr_set_vtc_flow,
  ipv6_addr_is_unspecified, ipv6_addr_is_multicast, Ipv6Hdr, EthFrame, NdpEntry, Host, read,
  netdev_transmit,
}

-- Six bytes, and an address that a solicitation may come from or ask for.
abbrev pub IsMac : List ℕ → Type 0
IsMac m = (length m ≡ 6) × IsBytes m

pub message_fields :
    (a b c d e f g k : ℕ) (target rest : List ℕ)
    → length target ≡ 16
    → let msg = a ∷ b ∷ c ∷ d ∷ e ∷ f ∷ g ∷ k ∷ (target ++ rest) in
      (read 16 (drop 8 msg) ≡ target) × (drop 24 msg ≡ rest)
message_fields a b c d e f g k target rest h =
    (read-append 16 target rest h, drop-append 16 target rest h)

-- A message of 32 bytes that with_csum made comes in at ndp_incoming.
pub rcv_ndp :
    (id type code : ℕ) (rest dmac smac saddr daddr : List ℕ) (h : Host)
    → IsAddress saddr
    → IsAddress daddr
    → 132 < type
    → type < 138
    → code < 256
    → IsBytes rest
    → length rest ≡ 28
    → let p = with_csum saddr daddr 32 (λ c d. type ∷ code ∷ c ∷ d ∷ rest) in
      let f : EthFrame = record { dmac = dmac; smac = smac; packet = p } in
      ipv6_rcv id 86 f h ≡ ndp_incoming id f p.body h
unfolding ipv6_rcv ipv6_hdr_version with_csum ndp_hdr ipv6_hdr_set_vtc_flow ipv6_parse_exthdrs
    walk_loop dispatch6 icmpv6_incoming
rcv_ndp id type code rest dmac smac saddr daddr h s d lo hi c r l =
    let ok =
      icmpv6_checksum_verifies saddr daddr type code rest 32 s d (omega arith) (omega arith) c r
        (omega arith) (omega arith) in
    let echo : (type == 128) ≡ false = ground arith in
    let big : (type == 2) ≡ false = ground arith in
    let low : ltb 132 type ≡ true = ground arith in
    let high : ltb type 138 ≡ true = ground arith in rw (ok, echo, big, low, high) refl

-- A solicitation for an address of the host is answered to its sender.
pub ns_answered :
    (smac target saddr hwaddr : List ℕ) (ip6h : Ipv6Hdr) (c d : ℕ) (h : Host)
    → length target ≡ 16
    → is_ours target h.netdev ≡ true
    → ip6h.saddr ≡ saddr
    → ipv6_addr_is_unspecified saddr ≡ false
    → ipv6_addr_is_multicast saddr ≡ false
    → ndp_ns_process smac ip6h (ns_message target hwaddr c d) h
      ≡ netdev_transmit (with_csum target saddr 32 (na_message target h.netdev.hwaddr)) smac h
unfolding ndp_ns_process ns_message
ns_answered smac target saddr hwaddr ip6h c d h t o e u m =
    let (field, _) = message_fields 135 0 c d 0 0 0 0 target (1 ∷ 1 ∷ hwaddr) t in
    rw (field, o, e, u, m) refl

tlla_found :
    (target hwaddr : List ℕ) (c d : ℕ)
    → length target ≡ 16
    → length hwaddr ≡ 6
    → na_options 1 8 (drop 24 (na_message target hwaddr c d)) none ≡ some hwaddr
unfolding na_options na_message
tlla_found target hwaddr c d t m =
    let (_, options) = message_fields 136 0 c d 0x60 0 0 0 target (2 ∷ 1 ∷ hwaddr) t in
    rw (options, na_options, read_all 6 hwaddr m) refl

target_found :
    (target hwaddr : List ℕ) (c d : ℕ)
    → length target ≡ 16
    → read 16 (drop 8 (na_message target hwaddr c d)) ≡ target
unfolding na_message
target_found target hwaddr c d t = (message_fields 136 0 c d 0x60 0 0 0 target (2 ∷ 1 ∷ hwaddr) t).0

-- Where the target link-layer address and the entry are found.
na_processed :
    (ip6h : Ipv6Hdr) (msg target tlla : List ℕ) (e : NdpEntry) (h : Host)
    → ip6h.payload_len ≡ 32
    → ipv6_addr_is_unspecified ip6h.saddr ≡ false
    → na_options 1 8 (drop 24 msg) none ≡ some tlla
    → read 16 (drop 8 msg) ≡ target
    → ndp_lookup target h.ndp_cache ≡ some e
    → ndp_na_process ip6h msg h ≡ some (na_entry (get_or msg 4 0) tlla target e h)
unfolding ndp_na_process
na_processed ip6h msg target tlla e h l u o t f =
    let f' : ndp_lookup (read 16 (drop 8 msg)) h.ndp_cache ≡ some e =
      ap (λ z. ndp_lookup z h.ndp_cache) t ∙ f in
    rw (l, o, ndp_na_process, u, f') (ap (λ z. some (na_entry (get_or msg 4 0) tlla z e h)) t)

-- The answer to a solicitation resolves the entry, which was INCOMPLETE.
pub na_resolved :
    (target hwaddr : List ℕ) (ip6h : Ipv6Hdr) (c d : ℕ) (e : NdpEntry) (h : Host)
    → length target ≡ 16
    → length hwaddr ≡ 6
    → ip6h.payload_len ≡ 32
    → ipv6_addr_is_unspecified ip6h.saddr ≡ false
    → ndp_lookup target h.ndp_cache ≡ some e
    → is_incomplete e.state ≡ true
    → ndp_na_process ip6h (na_message target hwaddr c d) h
      ≡ some (
          ndp_flush_queue target
            (na_resolves h.tick hwaddr e)
            (record h { ndp_cache = write_entry target (na_resolves h.tick hwaddr) h.ndp_cache }))
unfolding na_entry
na_resolved target hwaddr ip6h c d e h t m l u f i =
    let msg = na_message target hwaddr c d in
    na_processed ip6h msg target hwaddr e h l u (tlla_found target hwaddr c d t m)
      (target_found target hwaddr c d t) f
    ∙ rw i refl

-- The write through the pointer of the lookup decides what the later lookups find.
hwaddr_written :
    (target tlla : List ℕ) (tick : ℕ) (e : NdpEntry) (cache : List NdpEntry)
    → ndp_lookup target cache ≡ some e
    → ndp_get_hwaddr target
        (write_entry target no_queue (write_entry target (na_resolves tick tlla) cache))
      ≡ some tlla
unfolding ndp_lookup ndp_get_hwaddr write_entry na_resolves
hwaddr_written target tlla tick e [] f = absurd (cc)
hwaddr_written target tlla tick e (d ∷ cache) f =
    ground (arith, hwaddr_written target tlla tick e cache)

-- The frames that the queue becomes.
abbrev pub frames : List ℕ → List ℕ → List Packet → List Act
frames dmac smac [] = []
frames dmac smac (p ∷ queue) =
    Act.transmit (record { dmac = dmac; smac = smac; packet = p }) ∷ frames dmac smac queue

send_all-frames :
    (queue : List Packet) (dmac : List ℕ) (h : Host)
    → (send_all queue dmac h).out ≡ h.out ++ frames dmac h.netdev.hwaddr queue
unfolding send_all netdev_transmit emit
send_all-frames [] dmac h = sym (append-nil h.out)
send_all-frames (p ∷ queue) dmac h =
    let sent = Act.transmit (record { dmac = dmac; smac = h.netdev.hwaddr; packet = p }) in
    send_all-frames queue dmac (netdev_transmit p dmac h)
    ∙ append_assoc h.out (sent ∷ []) (frames dmac h.netdev.hwaddr queue)

-- `a` waits for the link-layer address of `target`, with packets in the queue; `b` has the address.
pub record IsWaiting (target src : List ℕ) (e : NdpEntry) (a b : Host) : Type 0 where
  pub asked : IsAddress target
  pub asks : IsAddress src
  pub unicast : ipv6_addr_is_multicast src ≡ false
  pub given : ipv6_addr_is_unspecified src ≡ false
  pub known : ipv6_addr_is_unspecified target ≡ false
  pub owned : is_ours target b.netdev ≡ true
  pub mac_a : IsMac a.netdev.hwaddr
  pub mac_b : IsMac b.netdev.hwaddr
  pub entry : ndp_lookup target a.ndp_cache ≡ some e
  pub pending : e.state ≡ incomplete

-- The solicitation of `a`, as it arrives at `b`, and the answer of `b`, as it arrives at `a`.
abbrev pub solicitation : List ℕ → List ℕ → Host → EthFrame
solicitation target src a = record {
  dmac = ipv6_multicast_mac (ipv6_solnode_addr target);
  smac = a.netdev.hwaddr;
  packet = with_csum src (ipv6_solnode_addr target) 32 (ns_message target a.netdev.hwaddr);
}

abbrev pub advertisement : List ℕ → List ℕ → Host → Host → EthFrame
advertisement target src a b = record {
  dmac = a.netdev.hwaddr;
  smac = b.netdev.hwaddr;
  packet = with_csum target src 32 (na_message target b.netdev.hwaddr);
}

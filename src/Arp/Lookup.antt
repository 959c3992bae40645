-- ===== src/Arp/Lookup.antt =====
-- src/arp.c: what arp_get_hwaddr finds after a packet, and the reply to a request.
use level_ip.Skbuff.{SkBuff}
use level_ip.Prelude.{
  if◌then◌else◌, Bool-cases, inl, inr, ℕ, ◌+◌, ◌<◌, ◌≡◌, refl, true, some, List, [], ◌∷◌, ◌++◌,
  arith,
}
use level_ip.Arp.Cache.{update_missed, IsFresh, IsCache}
use level_ip.Arp.{
  arp_ethernet, arp_ipv4, ArpHdr, ArpData, Netdev, netdev_get, arp_entry_alloc,
  insert_arp_translation_table, is_entry_of, update_arp_translation_table, arp_get_hwaddr,
  arp_reply, arp_rcv, ArpEntry,
}

get-append :
    (a : ℕ) (cache : List ArpEntry) (n : ArpEntry)
    → IsFresh a cache
    → n.sip ≡ a
    → n.resolved ≡ true
    → arp_get_hwaddr a (cache ++ n ∷ []) ≡ some n.smac
unfolding arp_get_hwaddr
get-append a [] n f s y = ground arith
get-append a (e ∷ cache) n f s y = ground (arith, get-append a cache n f.1)

get-update :
    (hdr : ArpHdr) (arpdata : ArpData) (cache : List ArpEntry)
    → hdr.hwtype ≡ arp_ethernet
    → IsCache cache
    → (update_arp_translation_table hdr arpdata cache).0 ≡ true
    → arp_get_hwaddr arpdata.sip (update_arp_translation_table hdr arpdata cache).1
      ≡ some arpdata.smac
unfolding update_arp_translation_table arp_get_hwaddr is_entry_of
get-update hdr arpdata [] h c m = absurd cc
get-update hdr arpdata (e ∷ cache) h (w, r, f, c) m =
    ground (arith, get-update hdr arpdata cache h c)

-- The cache after the merge, and after the insertion where nothing was merged.
abbrev merge_or_insert : ArpHdr → ArpData → List ArpEntry → List ArpEntry
merge_or_insert hdr arpdata cache =
    let (merge, merged) = update_arp_translation_table hdr arpdata cache in
    if merge then merged else insert_arp_translation_table hdr arpdata merged

get-merge :
    (hdr : ArpHdr) (arpdata : ArpData) (cache : List ArpEntry)
    → hdr.hwtype ≡ arp_ethernet
    → IsCache cache
    → arp_get_hwaddr arpdata.sip (merge_or_insert hdr arpdata cache) ≡ some arpdata.smac
unfolding insert_arp_translation_table arp_entry_alloc
get-merge hdr arpdata cache h c =
    elim (Bool-cases (update_arp_translation_table hdr arpdata cache).0) [
      | inl y ↦ rw y (get-update hdr arpdata cache h c y)
      | inr n ↦
          let (f, e) = update_missed hdr arpdata cache h c n in
          rw (n, e) (get-append arpdata.sip cache _ f refl refl)
    ]

-- After an Ethernet and IPv4 packet to the address of the device, a lookup of the sender finds the
-- hardware address that the packet names, whether the sender was known or not.
pub arp_rcv_learns :
    (netdev : Netdev) (skb : SkBuff) (hdr : ArpHdr) (arpdata : ArpData) (cache : List ArpEntry)
    → IsCache cache
    → hdr.hwtype ≡ arp_ethernet
    → hdr.protype ≡ arp_ipv4
    → arpdata.dip ≡ netdev.addr
    → arp_get_hwaddr arpdata.sip (arp_rcv netdev skb hdr arpdata cache).0 ≡ some arpdata.smac
unfolding arp_rcv netdev_get
arp_rcv_learns netdev skb hdr arpdata cache c h p t =
    ground (arith, get-merge hdr arpdata cache h c)

-- A request for the address of the device is answered to its sender, with both addresses of the
-- device as the source and the sender's as the target. The frame is 42 bytes longer than the request:
-- the pushes add the headers to the length that was received.
pub arp_rcv_reply :
    (netdev : Netdev) (skb : SkBuff) (hdr : ArpHdr) (arpdata : ArpData) (cache : List ArpEntry)
    → hdr.hwtype ≡ arp_ethernet
    → hdr.protype ≡ arp_ipv4
    → hdr.opcode ≡ 1
    → arpdata.dip ≡ netdev.addr
    → skb.len + 42 < 4294967296
    → (arp_rcv netdev skb hdr arpdata cache).1
      ≡ some (record {
        to = arpdata.smac;
        hdr = record hdr { opcode = 2 };
        arpdata = record {
          smac = netdev.hwaddr;
          sip = netdev.addr;
          dmac = arpdata.smac;
          dip = arpdata.sip;
        };
        len = skb.len + 42;
      })
unfolding arp_rcv netdev_get arp_reply
arp_rcv_reply netdev skb hdr arpdata cache h p o t l = ground arith

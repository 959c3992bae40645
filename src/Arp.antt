-- ===== src/Arp.antt =====
-- src/arp.c: the ARP cache, and the handling of a packet. An Ethernet address is a 48-bit number;
-- `netdev` is the one device that netdev_get (src/netdev.c) looks at.
pub mod Cache
pub mod Lookup
use level_ip.Prelude.{
  ◌==◌, if◌then◌else◌, Bool, true, false, not, ◌&&◌, Option, none, some, List, [], ◌∷◌, ◌++◌, ℕ,
}
use level_ip.Skbuff.{alloc_skb, skb_reserve, skb_push, SkBuff}

abbrev pub arp_ethernet : ℕ
arp_ethernet = 1

abbrev pub arp_ipv4 : ℕ
arp_ipv4 = 0x0800

-- struct arp_hdr and struct arp_ipv4, in host order.
pub record ArpHdr : Type 0 where
  pub hwtype : ℕ
  pub protype : ℕ
  pub hwsize : ℕ
  pub prosize : ℕ
  pub opcode : ℕ

pub record ArpData : Type 0 where
  pub smac : ℕ
  pub sip : ℕ
  pub dmac : ℕ
  pub dip : ℕ

-- struct arp_cache_entry. `resolved` is state == ARP_RESOLVED.
pub record ArpEntry : Type 0 where
  pub hwtype : ℕ
  pub sip : ℕ
  pub smac : ℕ
  pub resolved : Bool

pub record Netdev : Type 0 where
  pub addr : ℕ
  pub hwaddr : ℕ

-- The frame that goes to the device: its destination, its contents, its length.
pub record Frame : Type 0 where
  pub to : ℕ
  pub hdr : ArpHdr
  pub arpdata : ArpData
  pub len : ℕ

unfoldable pub netdev_get : ℕ → Netdev → Option Netdev
netdev_get sip netdev = if netdev.addr == sip then some netdev else none

unfoldable pub arp_entry_alloc : ArpHdr → ArpData → ArpEntry
arp_entry_alloc hdr arpdata = record {
  hwtype = hdr.hwtype;
  sip = arpdata.sip;
  smac = arpdata.smac;
  resolved = true;
}

unfoldable pub insert_arp_translation_table : ArpHdr → ArpData → List ArpEntry → List ArpEntry
unfolding arp_entry_alloc
insert_arp_translation_table hdr arpdata cache = cache ++ arp_entry_alloc hdr arpdata ∷ []

unfoldable pub is_entry_of : ArpHdr → ArpData → ArpEntry → Bool
is_entry_of hdr arpdata e = e.hwtype == hdr.hwtype && (e.sip == arpdata.sip)

-- Whether an entry was updated, and the cache.
unfoldable pub update_arp_translation_table :
    ArpHdr → ArpData → List ArpEntry → Bool × List ArpEntry
update_arp_translation_table hdr arpdata [] = (false, [])
update_arp_translation_table hdr arpdata (e ∷ cache) =
    let rest = update_arp_translation_table hdr arpdata cache in
    if is_entry_of hdr arpdata e
    then (true, record e { smac = arpdata.smac } ∷ cache)
    else (rest.0, e ∷ rest.1)

unfoldable pub arp_get_hwaddr : ℕ → List ArpEntry → Option ℕ
arp_get_hwaddr sip [] = none
arp_get_hwaddr sip (e ∷ cache) =
    let rest = arp_get_hwaddr sip cache in
    if e.resolved && (e.sip == sip) then some e.smac else rest

-- arp_reply: the buffer is turned round in place. The 42 bytes are the Ethernet header and both
-- parts of the packet, which the two pushes add to `len`.
unfoldable pub arp_reply : SkBuff → ArpHdr → ArpData → Netdev → Frame
arp_reply skb hdr arpdata netdev =
    let pushed = skb_push (skb_push (skb_reserve skb 42) 28) 14 in
    record {
      to = arpdata.smac;
      hdr = record hdr { opcode = 2 };
      arpdata = record {
        smac = netdev.hwaddr;
        sip = netdev.addr;
        dmac = arpdata.smac;
        dip = arpdata.sip;
      };
      len = pushed.len;
    }

-- The cache after the packet, and the reply.
unfoldable pub arp_rcv :
    Netdev → SkBuff → ArpHdr → ArpData → List ArpEntry → List ArpEntry × Option Frame
arp_rcv netdev skb hdr arpdata cache =
    let (merge, merged) = update_arp_translation_table hdr arpdata cache in
    let inserted = if merge then merged else insert_arp_translation_table hdr arpdata merged in
    if not (hdr.hwtype == arp_ethernet)
    then (cache, none)
    else if not (hdr.protype == arp_ipv4)
    then (cache, none)
    else elim (netdev_get arpdata.dip netdev) [
      | none ↦ (merged, none)
      | some dev ↦
          (inserted, if hdr.opcode == 1 then some (arp_reply skb hdr arpdata dev) else none)
    ]

-- arp_request, from a buffer of 42 bytes.
unfoldable pub arp_request : ℕ → ℕ → Netdev → Frame
arp_request sip dip netdev = record {
  to = 0xffff_ffff_ffff;
  hdr = record { hwtype = arp_ethernet; protype = arp_ipv4; hwsize = 6; prosize = 4; opcode = 1 };
  arpdata = record { smac = netdev.hwaddr; sip = sip; dmac = 0xffff_ffff_ffff; dip = dip };
  len = (skb_push (skb_push (skb_push (skb_reserve (alloc_skb 42) 42) 20) 8) 14).len;
}

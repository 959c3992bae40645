-- ===== src/Ndp.antt =====
-- src/ndp.c: the neighbour cache and the solicitations. A message is the list of its bytes.
-- Allocations succeed.
pub mod Input
pub mod Bound
pub mod Cache
pub mod Kept
pub mod Options
pub mod Resolve
use level_ip.Prelude.{
  ltb, leb, ◌==◌, if◌then◌else◌, get_or, length, u16, u32, ◌+◌, ◌*◌, ◌/◌, ◌%◌, ℤ, pos, negsuc, Bool,
  true, false, not, ◌&&◌, ◌||◌, Option, none, some, List, [], ◌∷◌, ◌++◌, ℕ, replicate,
}
use level_ip.Ipv6.{
  ipv6_addr_equal, Ipv6Hdr, ipv6_hdr_set_vtc_flow, Packet, NdpEntry, NdpState, Host,
  netdev_transmit,
}
use level_ip.Ipv6.NdpState.{incomplete, reachable, stale}
use level_ip.Ipv6.Pseudo.{icmpv6_checksum}

abbrev pub ndp_max_neighbors : ℕ
ndp_max_neighbors = 64

-- MAX_QUEUE, the max_q of every queue.
abbrev pub max_queue : ℕ
max_queue = 100

unfoldable pub new_entry : List ℕ → ℕ → NdpEntry
new_entry ip6 tick = record {
  ip6 = ip6;
  hwaddr = replicate 6 0;
  state = incomplete;
  state_timestamp = tick;
  solicit_count = 0;
  queue = [];
}

-- Whether there is an entry now, and the state. The test of the count and the insertion are one step
-- here; in the source the lock is taken between them.
unfoldable pub ndp_entry_alloc : List ℕ → Host → Bool × Host
ndp_entry_alloc ip6 h = if leb ndp_max_neighbors h.ndp_entry_count then (false, h) else (
  true,
  record h {
    ndp_cache = h.ndp_cache ++ new_entry ip6 h.tick ∷ [];
    ndp_entry_count = h.ndp_entry_count + 1;
  },
)

unfoldable pub ndp_lookup : List ℕ → List NdpEntry → Option NdpEntry
ndp_lookup ip6 [] = none
ndp_lookup ip6 (e ∷ cache) =
    let rest = ndp_lookup ip6 cache in if ipv6_addr_equal e.ip6 ip6 then some e else rest

-- A write through the pointer that ndp_lookup returned.
unfoldable pub write_entry : List ℕ → (NdpEntry → NdpEntry) → List NdpEntry → List NdpEntry
write_entry ip6 f [] = []
write_entry ip6 f (e ∷ cache) =
    let rest = write_entry ip6 f cache in
    if ipv6_addr_equal e.ip6 ip6 then f e ∷ cache else e ∷ rest

abbrev pub is_reachable : NdpState → Bool
is_reachable incomplete = false
is_reachable reachable = true
is_reachable stale = false

unfoldable pub ndp_get_hwaddr : List ℕ → List NdpEntry → Option (List ℕ)
ndp_get_hwaddr ip6 [] = none
ndp_get_hwaddr ip6 (e ∷ cache) =
    let rest = ndp_get_hwaddr ip6 cache in
    if ipv6_addr_equal e.ip6 ip6 && is_reachable e.state then some e.hwaddr else rest

-- The loop of ndp_flush_queue: every packet of the queue goes to the address.
unfoldable pub send_all : List Packet → List ℕ → Host → Host
send_all [] dmac h = h
send_all (p ∷ queue) dmac h = send_all queue dmac (netdev_transmit p dmac h)

abbrev pub no_queue : NdpEntry → NdpEntry
no_queue e = record e { queue = [] }

-- For the entry that the lookup of `ip6` finds.
unfoldable pub ndp_flush_queue : List ℕ → NdpEntry → Host → Host
unfolding send_all
ndp_flush_queue ip6 entry h =
    send_all entry.queue entry.hwaddr
      (record h { ndp_cache = write_entry ip6 no_queue h.ndp_cache })

abbrev pub queued : Packet → NdpEntry → NdpEntry
queued p e = record e { queue = e.queue ++ p ∷ [] }

unfoldable pub ndp_queue_skb : List ℕ → Packet → Host → ℤ × Host
ndp_queue_skb ip6 skb h = elim (ndp_lookup ip6 h.ndp_cache) [
  | none ↦ (negsuc 0, h)
  | some entry ↦
      if leb max_queue (length entry.queue)
      then (negsuc 0, h)
      else (pos 0, record h { ndp_cache = write_entry ip6 (queued skb) h.ndp_cache })
]

unfoldable pub ipv6_solnode_addr : List ℕ → List ℕ
ipv6_solnode_addr target =
    0xff
    ∷ 0x02
    ∷ 0
    ∷ 0
    ∷ 0
    ∷ 0
    ∷ 0
    ∷ 0
    ∷ 0
    ∷ 0
    ∷ 0
    ∷ 0x01
    ∷ 0xff
    ∷ get_or target 13 0
    ∷ get_or target 14 0
    ∷ get_or target 15 0
    ∷ []

unfoldable pub ipv6_multicast_mac : List ℕ → List ℕ
ipv6_multicast_mac mc6 =
    0x33 ∷ 0x33 ∷ get_or mc6 12 0 ∷ get_or mc6 13 0 ∷ get_or mc6 14 0 ∷ get_or mc6 15 0 ∷ []

-- The fixed header of every message of this file: version 6, ICMPv6, hop limit 255.
unfoldable pub ndp_hdr : ℕ → List ℕ → List ℕ → Ipv6Hdr
unfolding ipv6_hdr_set_vtc_flow
ndp_hdr pktlen saddr daddr =
    ipv6_hdr_set_vtc_flow
      (record {
        vtc_flow = 0;
        payload_len = u16 pktlen;
        nexthdr = 58;
        hop_limit = 255;
        saddr = saddr;
        daddr = daddr;
      })
      6 0 0

-- The checksum is written over two zero bytes, the low byte first.
unfoldable pub with_csum : List ℕ → List ℕ → ℕ → (ℕ → ℕ → List ℕ) → Packet
unfolding ndp_hdr icmpv6_checksum
with_csum saddr daddr pktlen message =
    let csum = icmpv6_checksum saddr daddr (message 0 0) pktlen in
    record { hdr = ndp_hdr pktlen saddr daddr; body = message (csum % 256) (csum / 256) }

-- struct ndp_ns with the source link-layer address option.
unfoldable pub ns_message : List ℕ → List ℕ → ℕ → ℕ → List ℕ
ns_message target hwaddr c d = 135 ∷ 0 ∷ c ∷ d ∷ 0 ∷ 0 ∷ 0 ∷ 0 ∷ (target ++ 1 ∷ 1 ∷ hwaddr)

unfoldable pub ndp_send_ns : List ℕ → List ℕ → Host → Host
unfolding with_csum ns_message
ndp_send_ns target src h =
    let dst_mc = ipv6_solnode_addr target in
    let skb = with_csum src dst_mc 32 (ns_message target h.netdev.hwaddr) in
    netdev_transmit skb (ipv6_multicast_mac dst_mc) h

-- struct ndp_rs with the source link-layer address option.
unfoldable pub rs_message : List ℕ → ℕ → ℕ → List ℕ
rs_message hwaddr c d = 133 ∷ 0 ∷ c ∷ d ∷ 0 ∷ 0 ∷ 0 ∷ 0 ∷ 1 ∷ 1 ∷ hwaddr

-- The all-routers address ff02::2.
abbrev pub all_routers : List ℕ
all_routers = 0xff ∷ 0x02 ∷ 0 ∷ 0 ∷ 0 ∷ 0 ∷ 0 ∷ 0 ∷ 0 ∷ 0 ∷ 0 ∷ 0 ∷ 0 ∷ 0 ∷ 0 ∷ 0x02 ∷ []

unfoldable pub ndp_send_rs : List ℕ → Host → Host
unfolding with_csum rs_message
ndp_send_rs src h =
    let skb = with_csum src all_routers 16 (rs_message h.netdev.hwaddr) in
    netdev_transmit skb (ipv6_multicast_mac all_routers) h

-- ===== src/Ipv6.antt =====
-- include/ipv6.h, struct netdev and the state that the IPv6 half of the stack shares. An address is
-- the list of its 16 bytes; a packet is its fixed header and the bytes behind it.
pub mod Address
pub mod Pseudo
pub mod Verified
pub mod Output
pub mod Input
use Prim.Native.Nat.{bit_and}
use level_ip.Prelude.{
  ltb, ◌==◌, if◌then◌else◌, get_or, zero, suc, u8, u32, ◌+◌, ◌-◌, ◌*◌, ◌/◌, ◌%◌, Bool, true, false,
  not, ◌&&◌, ◌||◌, Option, none, some, List, [], ◌∷◌, ◌++◌, ℕ,
}
use level_ip.Route.{Rtentry, zero6}

-- memcmp(a, b, n) == 0, for arrays of n bytes.
unfoldable pub same : List ℕ → List ℕ → Bool
same [] [] = true
same [] (y ∷ b) = false
same (x ∷ a) [] = false
same (x ∷ a) (y ∷ b) = x == y && same a b

unfoldable pub ipv6_addr_equal : List ℕ → List ℕ → Bool
ipv6_addr_equal a b = same a b

unfoldable pub ipv6_addr_is_unspecified : List ℕ → Bool
ipv6_addr_is_unspecified a = ipv6_addr_equal a zero6

unfoldable pub ipv6_addr_is_multicast : List ℕ → Bool
ipv6_addr_is_multicast a = get_or a 0 0 == 0xff

unfoldable pub ipv6_addr_is_linklocal : List ℕ → Bool
ipv6_addr_is_linklocal a = get_or a 0 0 == 0xfe && (bit_and (get_or a 1 0) 0xc0 == 0x80)

-- struct ipv6hdr in host order.
pub record Ipv6Hdr : Type 0 where
  pub vtc_flow : ℕ
  pub payload_len : ℕ
  pub nexthdr : ℕ
  pub hop_limit : ℕ
  pub saddr : List ℕ
  pub daddr : List ℕ

unfoldable pub ipv6_hdr_version : Ipv6Hdr → ℕ
ipv6_hdr_version h = u8 (h.vtc_flow / 0x1000_0000)

unfoldable pub ipv6_hdr_tclass : Ipv6Hdr → ℕ
ipv6_hdr_tclass h = u8 (h.vtc_flow / 0x10_0000 % 256)

unfoldable pub ipv6_hdr_flowlabel : Ipv6Hdr → ℕ
ipv6_hdr_flowlabel h = h.vtc_flow % 0x10_0000

-- The three parts of a uint8_t, a uint8_t and 20 bits share no bit, so `|` is `+`.
unfoldable pub ipv6_hdr_set_vtc_flow : Ipv6Hdr → ℕ → ℕ → ℕ → Ipv6Hdr
ipv6_hdr_set_vtc_flow h version tclass flow_label = record h {
  vtc_flow = u32 (version * 0x1000_0000) + tclass * 0x10_0000 + flow_label % 0x10_0000;
}

-- A sk_buff that starts at its IPv6 header.
pub record Packet : Type 0 where
  pub hdr : Ipv6Hdr
  pub body : List ℕ

-- An Ethernet frame of type ETH_P_IPV6.
pub record EthFrame : Type 0 where
  pub dmac : List ℕ
  pub smac : List ℕ
  pub packet : Packet

-- The states of an address: ADDR6_TENTATIVE and so on.
pub data Addr6State : Type 0 where
  tentative preferred deprecated invalid : Addr6State

-- struct netdev, the fields of IPv6. A timer is the number of its allocation.
pub record Netdev6 : Type 0 where
  pub hwaddr : List ℕ
  pub addr6_ll : List ℕ
  pub addr6_global : List ℕ
  pub prefix_len : ℕ
  pub addr6_global_valid : Bool
  pub addr6_ll_state : Addr6State
  pub addr6_global_state : Addr6State
  pub addr6_valid_lifetime : ℕ
  pub addr6_preferred_lifetime : ℕ
  pub addr6_pref_timer : Option ℕ
  pub addr6_valid_timer : Option ℕ

-- The states of a neighbour that are entered: NDP_INCOMPLETE, NDP_REACHABLE, NDP_STALE.
pub data NdpState : Type 0 where
  incomplete reachable stale : NdpState

-- struct ndp_entry.
pub record NdpEntry : Type 0 where
  pub ip6 : List ℕ
  pub hwaddr : List ℕ
  pub state : NdpState
  pub state_timestamp : ℕ
  pub solicit_count : ℕ
  pub queue : List Packet

-- Where state_ptr of struct dad_ctx points to; `none` is NULL, its value before the first DAD.
pub data Slot : Type 0 where
  ll global : Slot

-- struct dad_ctx with dad_done. Its `dev` is the one device.
pub record Dad : Type 0 where
  pub target : List ℕ
  pub state_ptr : Option Slot
  pub dad_done : Bool

-- A pointer to a struct netdev: the device, or a copy by its number.
pub data DevPtr : Type 0 where
  device : DevPtr
  copy : ℕ → DevPtr

-- The callbacks of the lifetime timers.
pub data Expiry : Type 0 where
  preferred_expired valid_expired : Expiry

-- What leaves the modelled part: a frame to the device, calls of the timer list with their handler
-- and argument, and calls of the TCP half: a packet with the length of its extension headers, a path
-- MTU for the sockets.
pub data Act : Type 0 where
  transmit : EthFrame → Act
  oneshot_dad : ℕ → Act
  add_timer : ℕ → ℕ → Expiry → DevPtr → Act
  cancel_timer : ℕ → Act
  tcp_in_v6 : Packet → ℕ → Act
  adjust_pmtu6 : List ℕ → ℕ → Act

-- The globals: the device and its copies on the heap, the routing table, the neighbour cache and its
-- count, the DAD context, the tick, the number of the next timer, and all that was done, in order.
pub record Host : Type 0 where
  pub netdev : Netdev6
  pub copies : List Netdev6
  pub routes : List Rtentry
  pub ndp_cache : List NdpEntry
  pub ndp_entry_count : ℕ
  pub dad : Dad
  pub tick : ℕ
  pub next_timer : ℕ
  pub out : List Act

-- memcpy of `n` bytes; what is read behind the end is 0.
unfoldable pub read : ℕ → List ℕ → List ℕ
read zero bytes = []
read (suc n) [] = 0 ∷ read n []
read (suc n) (x ∷ bytes) = x ∷ read n bytes

unfoldable pub emit : Act → Host → Host
emit a h = record h { out = h.out ++ a ∷ [] }

-- netdev_transmit from the one device, to tun_write.
unfoldable pub netdev_transmit : Packet → List ℕ → Host → Host
unfolding emit
netdev_transmit p dst_hw h =
    emit (Act.transmit (record { dmac = dst_hw; smac = h.netdev.hwaddr; packet = p })) h

-- ===== src/Ndp/Input.antt =====
-- src/ndp.c: the messages that arrive. `msg` is the memory from the ICMPv6 header on; what is read
-- behind its end is 0. An int that falls below 0 is 0 here: the loops stop below 8 either way.
pub mod Guarded
use level_ip.Prelude.{
  ltb, ◌==◌, if◌then◌else◌, get_or, drop, zero, suc, ◌+◌, ◌-◌, ◌*◌, ◌/◌, ◌%◌, Bool, true, false,
  not, ◌&&◌, ◌||◌, Option, none, some, List, [], ◌∷◌, ◌++◌, ℕ,
}
use level_ip.Route.{route6_add_default}
use level_ip.Ipv6.{
  same, read, ipv6_addr_equal, ipv6_addr_is_unspecified, ipv6_addr_is_multicast, Ipv6Hdr, NdpEntry,
  NdpState, Netdev6, EthFrame, Host, netdev_transmit,
}
use level_ip.Ipv6.NdpState.{incomplete, reachable, stale}
use level_ip.Ndp.{
  ndp_lookup, write_entry, ndp_flush_queue, ipv6_multicast_mac, with_csum, is_reachable,
}
use level_ip.Addrconf.{ipv6_addrconf_update_lifetime, ipv6_addrconf_dad_failed}

-- ntohl of the four bytes at `i`.
unfoldable pub be32 : List ℕ → ℕ → ℕ
be32 bytes i =
    get_or bytes i 0 * 16777216
    + get_or bytes (i + 1) 0 * 65536
    + get_or bytes (i + 2) 0 * 256
    + get_or bytes (i + 3) 0

-- struct ndp_opt_prefix at `opt`: its length goes to the device, all to the address configuration.
unfoldable pub set_prefix_len : ℕ → Host → Host
set_prefix_len prefix_len h = record h { netdev = record h.netdev { prefix_len = prefix_len } }

unfoldable pub take_prefix : List ℕ → Host → Host
unfolding be32 set_prefix_len
take_prefix opt h =
    ipv6_addrconf_update_lifetime (read 16 (drop 16 opt)) (get_or opt 2 0) (be32 opt 4) (be32 opt 8)
      (set_prefix_len (get_or opt 2 0) h)

-- The loop of ndp_ra_process, for a number of rounds.
unfoldable pub ra_options : ℕ → ℕ → List ℕ → Host → Host
unfolding take_prefix
ra_options zero optlen opt h = h
ra_options (suc n) optlen opt h =
    let skip = get_or opt 1 0 * 8 in
    let is_prefix = get_or opt 0 0 == 3 && (get_or opt 1 0 == 4) in
    let rest =
      ra_options n (optlen - skip) (drop skip opt) (if is_prefix then take_prefix opt h else h) in
    if ltb optlen 8 then h else if skip == 0 || ltb optlen skip then h else rest

-- `id` is what malloc returns for the route; RT_GATEWAY is 0x2. A round takes 8 bytes at least.
unfoldable pub ndp_ra_process : ℕ → Ipv6Hdr → List ℕ → Host → Host
unfolding ra_options
ndp_ra_process id ip6h msg h =
    let optlen = ip6h.payload_len - 16 in
    let s = ra_options (optlen / 8) optlen (drop 16 msg) h in
    record s { routes = route6_add_default id ip6h.saddr 0x2 0 0 s.routes }

-- The loop of ndp_na_process: the last target link-layer address option.
unfoldable pub na_options : ℕ → ℕ → List ℕ → Option (List ℕ) → Option (List ℕ)
na_options zero optlen opt tlla = tlla
na_options (suc n) optlen opt tlla =
    let skip = get_or opt 1 0 * 8 in
    let is_tlla = get_or opt 0 0 == 2 && (get_or opt 1 0 == 1) in
    let found = if is_tlla then some (read 6 (drop 2 opt)) else tlla in
    let rest = na_options n (optlen - skip) (drop skip opt) found in
    if ltb optlen 8 then tlla else if skip == 0 then found else rest

abbrev pub get_na_s : ℕ → Bool
get_na_s flags = flags / 64 % 2 == 1

abbrev pub get_na_o : ℕ → Bool
get_na_o flags = flags / 32 % 2 == 1

-- The first answer to a solicitation.
unfoldable pub na_resolves : ℕ → List ℕ → NdpEntry → NdpEntry
na_resolves tick tlla e = record e {
  hwaddr = tlla;
  state = reachable;
  state_timestamp = tick;
  solicit_count = 0;
}

-- The O and S flags on an entry that was resolved. The second comparison sees the address that the
-- first one may have written.
unfoldable pub na_updates : ℕ → ℕ → List ℕ → NdpEntry → NdpEntry
na_updates tick flags tlla e =
    let hwaddr = if get_na_o flags || not (same e.hwaddr tlla) then tlla else e.hwaddr in
    let state =
      if get_na_s flags
      then reachable
      else if get_na_o flags || not (same hwaddr tlla)
      then stale
      else e.state in
    record e { hwaddr = hwaddr; state = state; state_timestamp = tick }

abbrev pub is_incomplete : NdpState → Bool
is_incomplete incomplete = true
is_incomplete reachable = false
is_incomplete stale = false

-- What the advertisement does to the entry of its target.
unfoldable pub na_entry : ℕ → List ℕ → List ℕ → NdpEntry → Host → Host
unfolding na_resolves na_updates
na_entry flags tlla target e h =
    if is_incomplete e.state
    then ndp_flush_queue target (na_resolves h.tick tlla e)
        (record h { ndp_cache = write_entry target (na_resolves h.tick tlla) h.ndp_cache })
    else record h { ndp_cache = write_entry target (na_updates h.tick flags tlla) h.ndp_cache }

-- `none` is the fault of ipv6_addrconf_dad_failed.
unfoldable pub ndp_na_process : Ipv6Hdr → List ℕ → Host → Option Host
unfolding na_entry na_options
ndp_na_process ip6h msg h =
    let target = read 16 (drop 8 msg) in
    let optlen = ip6h.payload_len - 24 in
    elim (na_options (optlen / 8) optlen (drop 24 msg) none) [
      | none ↦ some h
      | some tlla ↦
          let s : Host = elim (ndp_lookup target h.ndp_cache) [
            | none ↦ h
            | some e ↦ na_entry (get_or msg 4 0) tlla target e h
          ] in
          if ipv6_addr_is_unspecified ip6h.saddr then ipv6_addrconf_dad_failed target s else some s
    ]

unfoldable pub is_ours : List ℕ → Netdev6 → Bool
is_ours target dev =
    ipv6_addr_equal target dev.addr6_ll
    || (dev.addr6_global_valid && ipv6_addr_equal target dev.addr6_global)

-- struct ndp_na with the target link-layer address option; the flags S and O are set.
unfoldable pub na_message : List ℕ → List ℕ → ℕ → ℕ → List ℕ
na_message target hwaddr c d = 136 ∷ 0 ∷ c ∷ d ∷ 0x60 ∷ 0 ∷ 0 ∷ 0 ∷ (target ++ 2 ∷ 1 ∷ hwaddr)

-- The all-nodes address ff02::1.
abbrev pub all_nodes : List ℕ
all_nodes = 0xff ∷ 0x02 ∷ 0 ∷ 0 ∷ 0 ∷ 0 ∷ 0 ∷ 0 ∷ 0 ∷ 0 ∷ 0 ∷ 0 ∷ 0 ∷ 0 ∷ 0 ∷ 0x01 ∷ []

-- `smac` is the source of the Ethernet frame.
unfoldable pub ndp_ns_process : List ℕ → Ipv6Hdr → List ℕ → Host → Host
unfolding with_csum na_message is_ours
ndp_ns_process smac ip6h msg h =
    let target = read 16 (drop 8 msg) in
    let reply_daddr = if ipv6_addr_is_unspecified ip6h.saddr then all_nodes else ip6h.saddr in
    let reply = with_csum target reply_daddr 32 (na_message target h.netdev.hwaddr) in
    let dst_mac =
      if ipv6_addr_is_multicast reply_daddr then ipv6_multicast_mac reply_daddr else smac in
    if is_ours target h.netdev then netdev_transmit reply dst_mac h else h

unfoldable pub ndp_incoming : ℕ → EthFrame → List ℕ → Host → Option Host
ndp_incoming id skb msg h =
    let ip6h = skb.packet.hdr in
    let type = get_or msg 0 0 in
    if not (ip6h.hop_limit == 255)
    then some h
    else if type == 134
    then some (ndp_ra_process id ip6h msg h)
    else if type == 135
    then some (ndp_ns_process skb.smac ip6h msg h)
    else if type == 136
    then ndp_na_process ip6h msg h
    else some h

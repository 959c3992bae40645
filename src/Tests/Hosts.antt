-- ===== src/Tests/Hosts.antt =====
-- The theorems on the IPv6 half of the stack, at concrete inputs.
use level_ip.Route.{Rtentry, zero6, matches6, is_better, lookup6_loop, route6_lookup}
use level_ip.Prelude.{
  ◌⊎◌, none, length, replicate, ℕ, ◌≡◌, refl, ◌⊎◌, inl, true, false, none, some, List, [], ◌∷◌,
  ◌++◌, arith,
}
use level_ip.Ndp.Resolve.Exchange.{Resolves, resolution}
use level_ip.Ndp.Resolve.{IsWaiting, solicitation, advertisement}
use level_ip.Ndp.Options.{NdpOption, option_bytes, last_tlla, na_options_read}
use level_ip.Ndp.Input.Guarded.{Guards, ipv6_rcv-Guards}
use level_ip.Ndp.Input.{na_options, is_ours}
use level_ip.Ndp.Bound.{IsBound}
use level_ip.Ndp.{ndp_lookup, ndp_get_hwaddr, ndp_send_ns}
use level_ip.Ipv6.Pseudo.{pseudo6, icmpv6_checksum}
use level_ip.Ipv6.Output.Misses.{IsQueued, neigh_output_cases}
use level_ip.Ipv6.Output.{next_hop, dst6_neigh_output}
use level_ip.Ipv6.Input.Bound.{HostRun, run-IsBound, leaves, fires, ticks}
use level_ip.Ipv6.Input.{ipv6_rcv}
use level_ip.Ipv6.{
  copy, same, ipv6_addr_equal, ipv6_addr_is_unspecified, ipv6_addr_is_multicast, ipv6_hdr_version,
  Packet, EthFrame, Netdev6, NdpEntry, Act, Host, read, emit, netdev_transmit, tentative, preferred,
  invalid, incomplete, ll, preferred_expired,
}
use level_ip.Icmp6.Errors.{hop_limit_faults}
use level_ip.Icmp6.Echo.{reply_to, IsRequest, echo_answered}
use level_ip.Checksum.{sum_loop, sum_every_16bits, fold, checksum}
use level_ip.Addrconf.Unexpired.{Unexpired}
use level_ip.Addrconf.Expired.{run-Unexpired}
use level_ip.Addrconf.Detect.{Decides, dad_outcome}
use level_ip.Addrconf.Blind.{overtaken, claim, dad_unseen}
use level_ip.Addrconf.{
  ipv6_generate_linklocal, ipv6_addrconf_dad_failed, dad_timeout, run_handler, global_address,
  ipv6_addrconf_update_lifetime,
}

abbrev mac_a : List ℕ
mac_a = 2 ∷ 0 ∷ 0 ∷ 0 ∷ 0 ∷ 1 ∷ []

abbrev mac_b : List ℕ
mac_b = 2 ∷ 0 ∷ 0 ∷ 0 ∷ 0 ∷ 2 ∷ []

-- fe80::n
abbrev link_local : ℕ → List ℕ
link_local n = 0xfe ∷ 0x80 ∷ (replicate 13 0 ++ n ∷ [])

abbrev device6 : List ℕ → List ℕ → Netdev6
device6 hwaddr addr = record {
  hwaddr = hwaddr;
  addr6_ll = addr;
  addr6_global = zero6;
  prefix_len = 64;
  addr6_global_valid = true;
  addr6_ll_state = tentative;
  addr6_global_state = preferred;
  addr6_valid_lifetime = 0;
  addr6_preferred_lifetime = 0;
  addr6_pref_timer = none;
  addr6_valid_timer = none;
}

abbrev default_route : Rtentry
default_route = record {
  id = 1;
  v6 = true;
  dst4 = 0;
  dst6 = zero6;
  gateway4 = 0;
  gateway6 = link_local 2;
  netmask = 0;
  prefix_len = 0;
  flags = 2;
  metric = 0;
  pmtu = 0;
  dev = 0;
}

abbrev datagram : Packet
datagram = record {
  hdr = record {
    vtc_flow = 0x6000_0000;
    payload_len = 4;
    nexthdr = 6;
    hop_limit = 64;
    saddr = link_local 1;
    daddr = link_local 2;
  };
  body = 1 ∷ 2 ∷ 3 ∷ 4 ∷ [];
}

-- The entry that waits for fe80::2, with two packets.
abbrev waits : NdpEntry
waits = record {
  ip6 = link_local 2;
  hwaddr = replicate 6 0;
  state = incomplete;
  state_timestamp = 0;
  solicit_count = 0;
  queue = datagram ∷ datagram ∷ [];
}

abbrev host : List ℕ → List ℕ → List NdpEntry → Host
host hwaddr addr cache = record {
  netdev = device6 hwaddr addr;
  copies = [];
  routes = default_route ∷ [];
  ndp_cache = cache;
  ndp_entry_count = length cache;
  dad = record { target = addr; state_ptr = some ll; dad_done = false };
  tick = 7;
  next_timer = 0;
  out = [];
}

abbrev host_a : Host
host_a = host mac_a (link_local 1) (waits ∷ [])

abbrev host_b : Host
host_b = host mac_b (link_local 2) []

bound : IsBound host_a
bound = record { counted = refl; bounded = omega arith; distinct = (tt, tt); queues = omega arith }

run-IsBound_example :
    IsBound (record (dst6_neigh_output default_route datagram host_a).1 { tick = 9 })
run-IsBound_example =
    run-IsBound
      (HostRun.goes (HostRun.goes HostRun.stays (leaves default_route datagram)) (ticks 9)) bound

-- An advertisement with hop limit 64 in place of 255.
abbrev forged : EthFrame
forged =
    let f = advertisement (link_local 2) (link_local 1) host_a host_b in
    record f { packet = record f.packet { hdr = record f.packet.hdr { hop_limit = 64 } } }

ipv6_rcv-Guards_example :
    ((s : Host) × (ipv6_rcv 5 86 forged host_a ≡ some s) × Guards host_a s)
    ⊎ ((forged.packet.hdr.hop_limit ≡ 0) × (ipv6_rcv 5 86 forged host_a ≡ none))
ipv6_rcv-Guards_example = ipv6_rcv-Guards 5 86 forged host_a (omega arith)

is_waiting : IsWaiting (link_local 2) (link_local 1) waits host_a host_b
unfolding ipv6_addr_is_multicast ipv6_addr_is_unspecified ipv6_addr_equal same is_ours ndp_lookup
is_waiting = record {
  asked = omega arith;
  asks = omega arith;
  unicast = refl;
  given = refl;
  known = refl;
  owned = refl;
  mac_a = omega arith;
  mac_b = omega arith;
  entry = refl;
  pending = refl;
}

resolution_example : Resolves 5 (link_local 2) (link_local 1) waits host_a host_b
resolution_example = resolution 5 (link_local 2) (link_local 1) waits host_a host_b is_waiting

-- An MTU option and a target link-layer address option.
abbrev two_options : List NdpOption
two_options =
    record { type = 5; units = 1; content = 0 ∷ 0 ∷ 0 ∷ 0 ∷ 5 ∷ 220 ∷ [] }
    ∷ record { type = 2; units = 1; content = mac_b }
    ∷ []

na_options_read_example :
    na_options 2 16 (option_bytes two_options ++ 9 ∷ []) none ≡ last_tlla none two_options
na_options_read_example = na_options_read two_options (9 ∷ []) (omega arith)

neigh_output_cases_example :
    let hop = next_hop default_route datagram in
    let (done, s) = dst6_neigh_output default_route datagram host_a in
    ((dmac : List ℕ) × (ndp_get_hwaddr hop host_a.ndp_cache ≡ some dmac)
      × (done ≡ true)
      × (s ≡ netdev_transmit datagram dmac host_a))
    ⊎ ((ndp_get_hwaddr hop host_a.ndp_cache ≡ none)
        × (done ≡ false)
        × (s.out ≡ (ndp_send_ns hop datagram.hdr.saddr host_a).out)
        × IsQueued hop datagram host_a s)
neigh_output_cases_example = neigh_output_cases default_route datagram host_a

dad_outcome_example :
    ((s : Host) × (dad_timeout host_a ≡ some s) × Decides ll preferred host_a s)
    × ((s : Host) × (ipv6_addrconf_dad_failed [] host_a ≡ some s) × Decides ll invalid host_a s)
dad_outcome_example = dad_outcome ll [] host_a refl refl refl

dad_unseen_example :
    (ipv6_rcv 5 86 (solicitation (link_local 2) zero6 host_a) host_b
      ≡ some (emit (Act.transmit (claim (link_local 2) host_b)) host_b))
    × ((s : Host) × (ipv6_rcv 5 86 (claim (link_local 2) host_b) host_a ≡ some s)
        × (s.netdev ≡ host_a.netdev)
        × (s.dad ≡ host_a.dad))
unfolding ipv6_addr_is_unspecified ipv6_addr_equal same is_ours
dad_unseen_example =
    dad_unseen 5 (link_local 2) host_a host_b (omega arith) refl refl (omega arith) (omega arith)

-- 2001:db8::/64
abbrev prefix : List ℕ
prefix = 0x20 ∷ 0x01 ∷ 0x0d ∷ 0xb8 ∷ replicate 12 0

overtaken_example :
    (s : Host) × (dad_timeout (ipv6_addrconf_update_lifetime prefix 64 100 50 host_a) ≡ some s)
    × (s.netdev.addr6_global_state ≡ preferred)
    × (s.netdev.addr6_ll_state ≡ tentative)
    × (dad_timeout s ≡ some s)
unfolding ipv6_addr_equal same global_address ipv6_generate_linklocal
overtaken_example = overtaken prefix 100 50 host_a refl refl

-- Both timers of a prefix fire.
abbrev configured : Host
configured = record (host mac_a (link_local 1) []) {
  copies = device6 mac_a (link_local 1) ∷ [];
  out = Act.add_timer 0 50000 preferred_expired (copy 0) ∷ [];
}

run-Unexpired_example : Unexpired (run_handler preferred_expired (copy 0) configured)
run-Unexpired_example =
    run-Unexpired (HostRun.goes HostRun.stays (fires preferred_expired (copy 0) (inl (refl, refl))))
      (record { copied = (tt, tt); valid = refl; alive = λ q. cc })

-- A packet with hop limit 0 and a payload of 20 bytes.
abbrev spent : EthFrame
spent = record {
  dmac = mac_a;
  smac = mac_b;
  packet = record {
    hdr = record datagram.hdr { payload_len = 20; hop_limit = 0 };
    body = replicate 20 0;
  };
}

hop_limit_faults_example : ipv6_rcv 5 74 spent host_a ≡ none
unfolding ipv6_hdr_version
hop_limit_faults_example = hop_limit_faults 5 74 spent host_a refl (omega arith) refl (omega arith)

abbrev ping : EthFrame
ping = record {
  dmac = mac_a;
  smac = mac_b;
  packet = record {
    hdr = record datagram.hdr {
      payload_len = 10;
      nexthdr = 58;
      saddr = link_local 2;
      daddr = link_local 1;
    };
    body = 128 ∷ 0 ∷ 0x7b ∷ 0xac ∷ 0 ∷ 1 ∷ 0 ∷ 1 ∷ 7 ∷ 8 ∷ [];
  };
}

is_request : IsRequest ping 0 0x7b 0xac (0 ∷ 1 ∷ 0 ∷ 1 ∷ 7 ∷ 8 ∷ [])
unfolding ipv6_hdr_version ipv6_addr_is_unspecified ipv6_addr_equal same icmpv6_checksum checksum
    sum_every_16bits sum_loop fold pseudo6 read
is_request = record {
  version = refl;
  hops = omega arith;
  icmp = refl;
  payload = refl;
  small = omega arith;
  body = refl;
  bytes = omega arith;
  source = omega arith;
  here = omega arith;
  given = refl;
  sound = refl;
}

echo_answered_example :
    (ipv6_rcv 5 64 ping host_a
      ≡ some
          (dst6_neigh_output default_route
            (reply_to ping.packet.hdr 0 (0 ∷ 1 ∷ 0 ∷ 1 ∷ 7 ∷ 8 ∷ []))
            host_a).1)
    × (let reply = reply_to ping.packet.hdr 0 (0 ∷ 1 ∷ 0 ∷ 1 ∷ 7 ∷ 8 ∷ []) in
        icmpv6_checksum reply.hdr.saddr reply.hdr.daddr reply.body 10 ≡ 0)
unfolding route6_lookup lookup6_loop matches6 is_better
echo_answered_example =
    echo_answered 5 64 ping 0 0x7b 0xac (0 ∷ 1 ∷ 0 ∷ 1 ∷ 7 ∷ 8 ∷ []) default_route host_a is_request
      (omega arith) refl

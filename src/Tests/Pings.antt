-- ===== src/Tests/Pings.antt =====
-- The theorems on the input and output of IPv4, at concrete inputs.
use level_ip.Prelude.{
  none, some, ◌⊎◌, ◌≤◌, ◌<◌, ℕ, ◌+◌, ◌-◌, ◌*◌, ◌≡◌, refl, true, false, List, [], ◌∷◌, drop, arith,
}
use level_ip.Route.{Rtentry, zero6, route_lookup, matches4}
use level_ip.Arp.{arp_get_hwaddr}
use level_ip.Checksum.{checksum}
use level_ip.Ipv6.{read}
use level_ip.Ipv4.{Host4, emit4, ip_hdr, ip_packet, ip_output, ip_rcv, dispatch4, next_hop4}
use level_ip.Ipv4.Act4.{ip_frame}
use level_ip.Ipv4.Sent.{sent_hdr, ip_rcv-ip_output}
use level_ip.Ipv4.Reply.{IsEchoRequest, answer, icmpv4_echo_answered}

-- 10.0.0.4 on 10.0.0.0/24, which knows the hardware address of 10.0.0.5.
abbrev local_route : Rtentry
local_route = record {
  id = 1;
  v6 = false;
  dst4 = 167772160;
  dst6 = zero6;
  gateway4 = 0;
  gateway6 = zero6;
  netmask = 4294967040;
  prefix_len = 0;
  flags = 0;
  metric = 0;
  pmtu = 0;
  dev = 1;
}

abbrev pinged : Host4
pinged = record {
  netdev = record { addr = 167772164; hwaddr = 52235554853 };
  cache = record { hwtype = 1; sip = 167772165; smac = 66; resolved = true } ∷ [];
  routes = local_route ∷ [];
  log = [];
}

-- An echo request of 28 bytes from 10.0.0.5.
abbrev ping : List ℕ
ping =
    69 ∷ 0 ∷ 0 ∷ 28 ∷ 0 ∷ 7 ∷ 64 ∷ 0 ∷ 64 ∷ 1 ∷ 38 ∷ 210 ∷ 10 ∷ 0 ∷ 0 ∷ 5 ∷ 10 ∷ 0 ∷ 0 ∷ 4 ∷ 8 ∷ 0
    ∷ 247 ∷ 252 ∷ 0 ∷ 1 ∷ 0 ∷ 2 ∷ []

ping-IsEchoRequest : IsEchoRequest ping
unfolding ip_hdr checksum read
ping-IsEchoRequest = record {
  version = refl;
  ihl = refl;
  alive = omega arith;
  proto = refl;
  checks = refl;
  type = refl;
  len = omega arith;
}

icmpv4_echo_answered_example :
    let ih = ip_hdr ping in
    let len = 2 * ih.len + 14 in
    let p = ip_packet len ih.id 1 0 pinged.netdev.addr ih.saddr (answer ping) in
    ((len + 14 ≤ 1600)
      × (ip_rcv (ih.len + 14) ping pinged ≡ some (emit4 (ip_frame 66 p) pinged))
      × (ip_hdr p ≡ sent_hdr len ih.id 1 pinged.netdev.addr ih.saddr)
      × (drop 20 p ≡ read (len - 20) (answer ping)))
    ⊎ ((1600 < len + 14) × (ip_rcv (ih.len + 14) ping pinged ≡ none))
unfolding ip_hdr route_lookup matches4 arp_get_hwaddr next_hop4
icmpv4_echo_answered_example =
    icmpv4_echo_answered ping pinged local_route 66 ping-IsEchoRequest (omega arith) (omega arith)
      (omega arith) (omega arith) refl refl

ip_rcv-ip_output_example :
    let p = ip_packet (28 + 20) 7 6 5000 167772164 167772165 (1 ∷ 2 ∷ []) in
    (ip_output 167772165 28 7 6 5000 (1 ∷ 2 ∷ []) pinged ≡ (true, emit4 (ip_frame 66 p) pinged))
    × (ip_rcv 62 p pinged ≡ dispatch4 62 p pinged)
    × (ip_hdr p ≡ sent_hdr (28 + 20) 7 6 167772164 167772165)
unfolding route_lookup matches4 arp_get_hwaddr next_hop4
ip_rcv-ip_output_example =
    ip_rcv-ip_output 28 7 6 5000 167772165 62 66 (1 ∷ 2 ∷ []) local_route pinged pinged
      (omega arith) (omega arith) (omega arith) (omega arith) (omega arith) refl refl

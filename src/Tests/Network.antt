-- ===== src/Tests/Network.antt =====
-- The theorems on the cache of ARP, the routing table, the checksum and the extension headers, at concrete inputs.
use level_ip.Route.Longest.{IsBest, route6_lookup-IsBest}
use level_ip.Route.{Rtentry, zero6, route6_lookup}
use level_ip.Exthdr.{ipv6_parse_exthdrs}
use level_ip.Exthdr.Chain.{HeaderChain, Reaches, ipv6_parse_exthdrs-Reaches}
use level_ip.Exthdr.Taken.{IsTaken, ipv6_parse_exthdrs-IsTaken}
use level_ip.Prelude.{replicate, ℕ, ◌≡◌, refl, Bool, true, some, List, [], ◌∷◌, arith}
use level_ip.Arp.Lookup.{arp_rcv_learns}
use level_ip.Arp.Cache.{IsCache}
use level_ip.Arp.{ArpHdr, ArpData, ArpEntry, Netdev, arp_get_hwaddr, arp_rcv}
use level_ip.Tests.{segment}

abbrev device : Netdev
device = record { addr = 167772164; hwaddr = 52235554853 }

abbrev packet : ArpHdr
packet = record { hwtype = 1; protype = 2048; hwsize = 6; prosize = 4; opcode = 1 }

abbrev request : ArpData
request = record { smac = 77; sip = 167772165; dmac = 0; dip = 167772164 }

abbrev known : List ArpEntry
known =
    record { hwtype = 1; sip = 167772161; smac = 11; resolved = true }
    ∷ record { hwtype = 1; sip = 167772165; smac = 66; resolved = true }
    ∷ []

known-IsCache : IsCache known
known-IsCache = (refl, refl, ((omega arith), tt), (refl, refl, tt, tt))

arp_rcv_learns_example :
    arp_get_hwaddr 167772165 (arp_rcv device (segment 0 (1 ∷ [])) packet request known).0 ≡ some 77
arp_rcv_learns_example =
    arp_rcv_learns device (segment 0 (1 ∷ [])) packet request known known-IsCache refl refl refl

abbrev route : Bool → ℕ → ℕ → ℕ → Rtentry
route v6 id netmask prefix_len = record {
  id = id;
  v6 = v6;
  dst4 = 167772160;
  dst6 = 32 ∷ 1 ∷ replicate 14 0;
  gateway4 = 0;
  gateway6 = zero6;
  netmask = netmask;
  prefix_len = prefix_len;
  flags = 0;
  metric = 0;
  pmtu = 0;
  dev = 1;
}

abbrev host6 : List ℕ
host6 = 32 ∷ 1 ∷ replicate 14 5

abbrev routes : List Rtentry
routes = route true 1 0 0 ∷ route true 2 0 16 ∷ route true 3 0 64 ∷ []

route6_lookup-IsBest_example : IsBest host6 routes (route6_lookup host6 routes)
route6_lookup-IsBest_example = route6_lookup-IsBest host6 routes

-- A hop-by-hop header of 8 bytes before TCP.
abbrev headers : List ℕ
headers = 6 ∷ replicate 23 0

ipv6_parse_exthdrs-Reaches_example : Reaches 6 8 (ipv6_parse_exthdrs 0 headers 24)
ipv6_parse_exthdrs-Reaches_example =
    ipv6_parse_exthdrs-Reaches headers 24 1 0 6 8 (omega arith) (omega arith) refl
      (HeaderChain.passes_option refl (omega arith) HeaderChain.ends)

ipv6_parse_exthdrs-IsTaken_example : IsTaken headers 24 8 0 0 (ipv6_parse_exthdrs 0 headers 24)
ipv6_parse_exthdrs-IsTaken_example = ipv6_parse_exthdrs-IsTaken 0 headers 24 (omega arith)

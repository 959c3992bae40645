-- ===== src/Ipv6/Input/Refused.antt =====
-- src/ipv6_input.c: the packets that are dropped.
use level_ip.Prelude.{
  ◌==◌, if◌then◌else◌, inl, inr, not, ◌&&◌, arith, ℕ, ◌+◌, ◌<◌, ◌≡◌, ◌≢◌, ◌⊎◌, true, none, some,
}
use level_ip.Ipv6.Input.{dispatch6, ipv6_rcv}
use level_ip.Ipv6.{ipv6_hdr_version, EthFrame, Host}
use level_ip.Exthdr.{Walk, ipv6_parse_exthdrs}

-- What the walk over the extension headers may end in.
walk_refused :
    (id len : ℕ) (skb : EthFrame) (w : Walk) (h : Host)
    → ((w.has_frag ≡ true) × (0 < w.frag_off)) ⊎ (w.nexthdr ≡ 17) ⊎ (w.nexthdr ≡ 59)
    → (if w.has_frag && not (w.frag_off == 0) then some h else dispatch6 id len skb w h) ≡ some h
unfolding dispatch6
walk_refused id len skb w h r = ground arith

-- A packet changes nothing and sends nothing if its version is not 6, if its payload is longer than
-- the frame less 40 bytes, or if it has a hop limit above 0 and its extension headers are malformed,
-- it is a fragment other than the first, or its upper-layer protocol is UDP or none.
pub rcv_refused :
    (id len : ℕ) (skb : EthFrame) (h : Host)
    → let ip6h = skb.packet.hdr in
      let walk = ipv6_parse_exthdrs ip6h.nexthdr skb.packet.body ip6h.payload_len in
      (ipv6_hdr_version ip6h ≢ 6)
        ⊎ (len < ip6h.payload_len + 40)
        ⊎ ((0 < ip6h.hop_limit)
            × ((walk ≡ none)
                ⊎ ((w : Walk) × (walk ≡ some w)
                    × (((w.has_frag ≡ true) × (0 < w.frag_off))
                        ⊎ (w.nexthdr ≡ 17)
                        ⊎ (w.nexthdr ≡ 59)))))
      → ipv6_rcv id len skb h ≡ some h
unfolding ipv6_rcv
rcv_refused id len skb h (inl v) = ground arith
rcv_refused id len skb h (inr (inl l)) = ground arith
rcv_refused id len skb h (inr (inr (p, inl e))) = ground arith
rcv_refused id len skb h (inr (inr (p, inr (w, e, r)))) =
    ground (arith, walk_refused id len skb w h r)

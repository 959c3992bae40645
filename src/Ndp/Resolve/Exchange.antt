-- ===== src/Ndp/Resolve/Exchange.antt =====
-- src/ndp.c between two hosts: address resolution from the solicitation to the queue.
use level_ip.Ndp.Kept.{send_all-SameNdp}
use level_ip.Ndp.Input.{na_resolves, ndp_na_process, na_message, ndp_ns_process, ndp_incoming}
use level_ip.Prelude.{
  get_or, zero, suc, refl, ap, ◌∙◌, [], length, length-append, All-append, ℕ, ◌<◌, ◌≡◌, some, List,
  ◌∷◌, ◌++◌, arith,
}
use level_ip.Ndp.Resolve.{
  hwaddr_written, send_all-frames, rcv_ndp, ns_answered, na_resolved, IsMac, frames, IsWaiting,
  solicitation, advertisement,
}
use level_ip.Ndp.{
  ndp_send_ns, write_entry, send_all, no_queue, ndp_flush_queue, ipv6_multicast_mac, ndp_hdr,
  with_csum, ns_message, ndp_get_hwaddr, ipv6_solnode_addr,
}
use level_ip.Ipv6.Verified.{IsBytes, IsAddress}
use level_ip.Ipv6.Input.{ipv6_rcv}
use level_ip.Ipv6.{ipv6_hdr_set_vtc_flow, EthFrame, netdev_transmit, NdpEntry, Act, Host, emit}

pub rest_IsBytes :
    (flags kind : ℕ) (target hwaddr : List ℕ)
    → flags < 256
    → kind < 256
    → IsAddress target
    → IsMac hwaddr
    → let rest = flags ∷ 0 ∷ 0 ∷ 0 ∷ (target ++ kind ∷ 1 ∷ hwaddr) in
      IsBytes rest × (length rest ≡ 28)
rest_IsBytes flags kind target hwaddr f k t m =
    let tail = All-append (λ x. x < 256) target (kind ∷ 1 ∷ hwaddr) t.1 (k, (omega arith, m.1)) in
    (
      (f, (omega arith, (omega arith, (omega arith, tail)))),
      omega (arith, length-append {0} target (kind ∷ 1 ∷ hwaddr), t.0, m.0),
    )

get_or-IsBytes : (i : ℕ) (bytes : List ℕ) → IsBytes bytes → get_or bytes i 0 < 256
get_or-IsBytes i [] h = omega arith
get_or-IsBytes zero (x ∷ bytes) h = h.0
get_or-IsBytes (suc i) (x ∷ bytes) h = get_or-IsBytes i bytes h.1

pub solnode_IsAddress : (target : List ℕ) → IsAddress target → IsAddress (ipv6_solnode_addr target)
unfolding ipv6_solnode_addr
solnode_IsAddress target t = omega (
  arith,
  get_or-IsBytes 13 target t.1,
  get_or-IsBytes 14 target t.1,
  get_or-IsBytes 15 target t.1,
)

-- What ndp_incoming does with the two messages.
pub ns_incoming :
    (id : ℕ) (target src hwaddr dst_mc dmac smac : List ℕ) (h : Host)
    → let p = with_csum src dst_mc 32 (ns_message target hwaddr) in
      let f : EthFrame = record { dmac = dmac; smac = smac; packet = p } in
      ndp_incoming id f p.body h ≡ some (ndp_ns_process smac p.hdr p.body h)
unfolding ndp_incoming with_csum ns_message ndp_hdr ipv6_hdr_set_vtc_flow
ns_incoming id target src hwaddr dst_mc dmac smac h = refl

pub na_incoming :
    (id : ℕ) (target src hwaddr dmac smac : List ℕ) (h : Host)
    → let p = with_csum target src 32 (na_message target hwaddr) in
      let f : EthFrame = record { dmac = dmac; smac = smac; packet = p } in
      ndp_incoming id f p.body h ≡ ndp_na_process p.hdr p.body h
unfolding ndp_incoming with_csum na_message ndp_hdr ipv6_hdr_set_vtc_flow
na_incoming id target src hwaddr dmac smac h = refl

module _ (id : ℕ) (target src : List ℕ) (e : NdpEntry) (a b : Host)
    (w : IsWaiting target src e a b) where
  solicitation_answered :
      ipv6_rcv id 86 (solicitation target src a) b
      ≡ some (emit (Act.transmit (advertisement target src a b)) b)
  unfolding with_csum ns_message ndp_hdr ipv6_hdr_set_vtc_flow netdev_transmit
  solicitation_answered =
      let mc = ipv6_solnode_addr target in
      let hw = a.netdev.hwaddr in
      let (bytes, long) = rest_IsBytes 0 1 target hw (omega arith) (omega arith) w.asked w.mac_a in
      let dmac = ipv6_multicast_mac mc in
      let p = with_csum src mc 32 (ns_message target hw) in
      rcv_ndp id 135 0 (0 ∷ 0 ∷ 0 ∷ 0 ∷ (target ++ 1 ∷ 1 ∷ hw)) dmac hw src mc b w.asks
        (solnode_IsAddress target w.asked) (omega arith) (omega arith) (omega arith) bytes long
      ∙ ns_incoming id target src hw mc dmac hw b
      ∙ ap some (ns_answered hw target src hw p.hdr _ _ b w.asked.0 w.owned refl w.given w.unicast)

  advertisement_taken :
      (a' : Host) × (ipv6_rcv id 86 (advertisement target src a b) a ≡ some a')
      × (ndp_get_hwaddr target a'.ndp_cache ≡ some b.netdev.hwaddr)
      × (a'.out ≡ a.out ++ frames b.netdev.hwaddr a.netdev.hwaddr e.queue)
  unfolding with_csum na_message ndp_hdr ipv6_hdr_set_vtc_flow ndp_flush_queue na_resolves
  advertisement_taken =
      let hw = b.netdev.hwaddr in
      let (bytes, long) =
        rest_IsBytes 0x60 2 target hw (omega arith) (omega arith) w.asked w.mac_b in
      let p = with_csum target src 32 (na_message target hw) in
      let entry = na_resolves a.tick hw e in
      let written = write_entry target (na_resolves a.tick hw) a.ndp_cache in
      let s = record a { ndp_cache = write_entry target no_queue written } in
      let taken =
        na_resolved target hw p.hdr _ _ e a w.asked.0 w.mac_b.0 refl w.known w.entry
          (rw w.pending refl) in
      (
        send_all e.queue hw s,
        rcv_ndp id 136 0 (0x60 ∷ 0 ∷ 0 ∷ 0 ∷ (target ++ 2 ∷ 1 ∷ hw)) a.netdev.hwaddr hw target src a
              w.asked w.asks (omega arith) (omega arith) (omega arith) bytes long
            ∙ na_incoming id target src hw a.netdev.hwaddr hw a
            ∙ taken,
        rw ((send_all-SameNdp e.queue hw s).cache)
            (hwaddr_written target hw a.tick e a.ndp_cache w.entry),
        send_all-frames e.queue hw s,
      )

-- The whole exchange: the frame that asks, the answer to it, and the state after the answer.
pub record Resolves (id : ℕ) (target src : List ℕ) (e : NdpEntry) (a b : Host) : Type 0 where
  pub asking :
      (ndp_send_ns target src a).out ≡ a.out ++ Act.transmit (solicitation target src a) ∷ []
  pub answer :
      ipv6_rcv id 86 (solicitation target src a) b
      ≡ some (emit (Act.transmit (advertisement target src a b)) b)
  pub after : Host
  pub taken : ipv6_rcv id 86 (advertisement target src a b) (ndp_send_ns target src a) ≡ some after
  pub known : ndp_get_hwaddr target after.ndp_cache ≡ some b.netdev.hwaddr
  pub sent :
      after.out ≡ (ndp_send_ns target src a).out ++ frames b.netdev.hwaddr a.netdev.hwaddr e.queue

-- A host with packets queued for an address sends a solicitation; the owner of the address takes the
-- frame, its checksum and hop limit included, and answers with one advertisement to the host; the
-- host takes that, knows the owner's link-layer address from then on, and sends the packets to it in
-- the order in which they were queued.
pub resolution :
    (id : ℕ) (target src : List ℕ) (e : NdpEntry) (a b : Host)
    → IsWaiting target src e a b
    → Resolves id target src e a b
unfolding ndp_send_ns netdev_transmit emit
resolution id target src e a b w =
    let s = ndp_send_ns target src a in
    let v : IsWaiting target src e s b = record {
      asked = w.asked;
      asks = w.asks;
      unicast = w.unicast;
      given = w.given;
      known = w.known;
      owned = w.owned;
      mac_a = w.mac_a;
      mac_b = w.mac_b;
      entry = w.entry;
      pending = w.pending;
    } in
    let (t, e₁, e₂, e₃) = advertisement_taken id target src e s b v in
    record {
      asking = refl;
      answer = solicitation_answered id target src e a b w;
      after = t;
      taken = e₁;
      known = e₂;
      sent = e₃;
    }

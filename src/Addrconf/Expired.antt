-- ===== src/Addrconf/Expired.antt =====
-- src/ipv6_addrconf.c: the lifetimes of the global address over all that can happen.
use level_ip.Addrconf.Unexpired.{
  OnCopy, Unexpired, emit-Unexpired, neigh_output-Unexpired, device-Unexpired, dad_ends-Unexpired,
  ra_process-Unexpired, na_process-Unexpired, ns_process-Unexpired,
}
use level_ip.Ipv6.Input.Preserved.{rcv-IfSome, IsCall}
use level_ip.Ipv6.Input.Bound.{
  IsAdded, HostStep, HostRun, arrives, leaves, dad_over, fires, ticks, stays, goes,
}
use level_ip.Ipv6.Input.{ipv6_rcv}
use level_ip.Ndp.Input.{ndp_incoming}
use level_ip.Prelude.{refl, some, All, ℕ, ◌≡◌, inl, inr, List, [], ◌∷◌, arith}
use level_ip.Ndp.Bound.{IfSome-some, IfSome}
use level_ip.Ipv6.{EthFrame, DevPtr, preferred, Expiry, Act, Host, device}
use level_ip.Addrconf.{dad_timeout, run_handler, copy}

incoming-Unexpired :
    (id : ℕ) (skb : EthFrame) (msg : List ℕ) (h : Host)
    → Unexpired h
    → IfSome Unexpired (ndp_incoming id skb msg h)
unfolding ndp_incoming
incoming-Unexpired id skb msg h u = ground (
  arith,
  ra_process-Unexpired id skb.packet.hdr msg h u,
  ns_process-Unexpired skb.smac skb.packet.hdr msg h u,
  na_process-Unexpired skb.packet.hdr msg h u,
)

IsCall-OnCopy : (a : Act) → IsCall a → OnCopy a
IsCall-OnCopy (Act.transmit f) i = tt
IsCall-OnCopy (Act.oneshot_dad ms) i = tt
IsCall-OnCopy (Act.add_timer t ms x device) i = i
IsCall-OnCopy (Act.add_timer t ms x (copy n)) i = tt
IsCall-OnCopy (Act.cancel_timer t) i = tt
IsCall-OnCopy (Act.tcp_in_v6 p consumed) i = tt
IsCall-OnCopy (Act.adjust_pmtu6 daddr mtu) i = tt

rcv-Unexpired :
    (id len : ℕ) (skb : EthFrame) (h : Host) {s : Host}
    → ipv6_rcv id len skb h ≡ some s
    → Unexpired h
    → Unexpired s
rcv-Unexpired id len skb h e u =
    IfSome-some Unexpired (ipv6_rcv id len skb h)
      (rcv-IfSome Unexpired (λ rt p g c. neigh_output-Unexpired rt p g c)
        (λ a g i c. emit-Unexpired a g (IsCall-OnCopy a i) c)
        (λ routes g c. device-Unexpired refl refl refl c) id skb
        (λ msg g c. incoming-Unexpired id skb msg g c) len h u)
      e

-- The timer that fires has a copy, as all have.
not_device : (x : Expiry) (out : List Act) → All OnCopy out → IsAdded x device out → ⊥
not_device x [] o a = a
not_device x (Act.transmit f ∷ out) o a = not_device x out o.1 a
not_device x (Act.oneshot_dad ms ∷ out) o a = not_device x out o.1 a
not_device x (Act.add_timer t ms y device ∷ out) o a = o.0
not_device x (Act.add_timer t ms y (copy i) ∷ out) o (inl p) = cc
not_device x (Act.add_timer t ms y (copy i) ∷ out) o (inr a) = not_device x out o.1 a
not_device x (Act.cancel_timer t ∷ out) o a = not_device x out o.1 a
not_device x (Act.tcp_in_v6 p consumed ∷ out) o a = not_device x out o.1 a
not_device x (Act.adjust_pmtu6 daddr mtu ∷ out) o a = not_device x out o.1 a

fires-Unexpired :
    (x : Expiry) (dev : DevPtr) (h : Host)
    → IsAdded x dev h.out
    → Unexpired h
    → Unexpired (run_handler x dev h)
unfolding run_handler
fires-Unexpired x device h a u = absurd (not_device x h.out u.copied a)
fires-Unexpired x (copy i) h a u = device-Unexpired refl refl refl u

step-Unexpired : {h s : Host} → HostStep h s → Unexpired h → Unexpired s
unfolding dad_timeout
step-Unexpired (arrives id len skb e) u = rcv-Unexpired id len skb _ e u
step-Unexpired (leaves rt skb) u = neigh_output-Unexpired rt skb _ u
step-Unexpired (dad_over e) u =
    IfSome-some Unexpired _ (dad_ends-Unexpired preferred _ (λ q. cc) u) e
step-Unexpired (fires x dev added) u = fires-Unexpired x dev _ added u
step-Unexpired (ticks now) u = device-Unexpired refl refl refl u

-- The lifetimes never take effect: once the global address is in use, and whatever arrives, leaves or
-- expires after that, the address stays in use and is never deprecated, since each lifetime timer
-- changes a copy of the device.
pub run-Unexpired : {h s : Host} → HostRun h s → Unexpired h → Unexpired s
run-Unexpired stays u = u
run-Unexpired (goes r st) u = step-Unexpired st (run-Unexpired r u)

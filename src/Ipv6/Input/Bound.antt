-- ===== src/Ipv6/Input/Bound.antt =====
-- The neighbour cache of src/ndp.c over all that can happen to the IPv6 half of the stack.
use level_ip.Ipv6.Input.Preserved.{rcv-IfSome}
use level_ip.Route.{Rtentry}
use level_ip.Prelude.{◌⊎◌, List, [], ◌∷◌, ℕ, ◌≡◌, some}
use level_ip.Ndp.Bound.{
  IsBound, IfSome-some, dad_ends-IsBound, incoming-IsBound, neigh_output-IsBound,
}
use level_ip.Ipv6.Output.{dst6_neigh_output}
use level_ip.Ipv6.Input.{ipv6_rcv}
use level_ip.Ipv6.{Act, Packet, EthFrame, DevPtr, Expiry, Host, emit, preferred, device, copy}
use level_ip.Addrconf.{dad_timeout, run_handler}

-- A lifetime timer with the handler and its argument was added.
abbrev pub IsAdded : Expiry → DevPtr → List Act → Type 0
IsAdded x dev [] = ⊥
IsAdded x dev (Act.transmit f ∷ out) = IsAdded x dev out
IsAdded x dev (Act.oneshot_dad ms ∷ out) = IsAdded x dev out
IsAdded x dev (Act.add_timer t ms y d ∷ out) = ((y ≡ x) × (d ≡ dev)) ⊎ IsAdded x dev out
IsAdded x dev (Act.cancel_timer t ∷ out) = IsAdded x dev out
IsAdded x dev (Act.tcp_in_v6 p consumed ∷ out) = IsAdded x dev out
IsAdded x dev (Act.adjust_pmtu6 daddr mtu ∷ out) = IsAdded x dev out

-- A frame arrives, a packet leaves by a route, the DAD timer fires, a lifetime timer fires, time
-- passes. A step is taken as a whole, as by one thread at a time; one that would fault is no step.
pub data HostStep : Host → Host → Type 0 where
  arrives :
      {h s : Host} (id len : ℕ) (skb : EthFrame) → ipv6_rcv id len skb h ≡ some s → HostStep h s
  leaves : {h : Host} (rt : Rtentry) (skb : Packet) → HostStep h (dst6_neigh_output rt skb h).1
  dad_over : {h s : Host} → dad_timeout h ≡ some s → HostStep h s
  fires :
      {h : Host} (x : Expiry) (dev : DevPtr)
      → IsAdded x dev h.out
      → HostStep h (run_handler x dev h)
  ticks : {h : Host} (now : ℕ) → HostStep h (record h { tick = now })

-- A sequence of steps.
pub data HostRun (h : Host) : Host → Type 0 where
  stays : HostRun h h
  goes : {s t : Host} → HostRun h s → HostStep s t → HostRun h t

pub ipv6_rcv-IsBound :
    (id len : ℕ) (skb : EthFrame) (h : Host) {s : Host}
    → ipv6_rcv id len skb h ≡ some s
    → IsBound h
    → IsBound s
unfolding emit
ipv6_rcv-IsBound id len skb h e b =
    IfSome-some IsBound (ipv6_rcv id len skb h)
      (rcv-IfSome IsBound (λ rt p g c. neigh_output-IsBound rt p g c) (λ a g i c. c)
        (λ routes g c. c) id skb (λ msg g c. incoming-IsBound id skb msg g c) len h b)
      e

handler-IsBound : (x : Expiry) (dev : DevPtr) (h : Host) → IsBound h → IsBound (run_handler x dev h)
unfolding run_handler
handler-IsBound x device h b = b
handler-IsBound x (copy i) h b = b

step-IsBound : {h s : Host} → HostStep h s → IsBound h → IsBound s
unfolding dad_timeout
step-IsBound (arrives id len skb e) b = ipv6_rcv-IsBound id len skb _ e b
step-IsBound (leaves rt skb) b = neigh_output-IsBound rt skb _ b
step-IsBound (dad_over e) b = IfSome-some IsBound _ (dad_ends-IsBound preferred _ b) e
step-IsBound (fires x dev added) b = handler-IsBound x dev _ b
step-IsBound (ticks now) b = b

-- Whatever arrives, leaves or expires, in any order, each as a whole before the next: the neighbour
-- cache has 64 entries at most, its count is right, no two entries are for the same address, and no
-- queue has more than 100 packets. It says nothing of threads that are inside dst6_neigh_output at
-- once, since no lock is held there between the lookup and the new entry; and a run ends at a fault.
pub run-IsBound : {h s : Host} → HostRun h s → IsBound h → IsBound s
run-IsBound stays b = b
run-IsBound (goes r st) b = step-IsBound st (run-IsBound r b)

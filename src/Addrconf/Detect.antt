-- ===== src/Addrconf/Detect.antt =====
-- src/ipv6_addrconf.c: duplicate address detection.
use level_ip.Prelude.{ℕ, ◌≡◌, refl, true, false, none, some, List}
use level_ip.Ipv6.{Addr6State, Netdev6, Slot, Host, tentative, preferred, invalid, ll, global}
use level_ip.Addrconf.{decide, dad_ends, ipv6_addrconf_dad_failed, dad_timeout}

-- The state of the address that a slot names.
abbrev pub state_of : Slot → Netdev6 → Addr6State
state_of ll dev = dev.addr6_ll_state
state_of global dev = dev.addr6_global_state

abbrev pub other : Slot → Slot
other ll = global
other global = ll

decide_cases :
    (slot : Slot) (x : Addr6State) (dev : Netdev6)
    → state_of slot dev ≡ tentative
    → (state_of slot (decide slot x dev) ≡ x)
      × (state_of (other slot) (decide slot x dev) ≡ state_of (other slot) dev)
unfolding decide
decide_cases ll x dev t = (rw t refl, refl)
decide_cases global x dev t = (rw t refl, refl)

-- The outcome `x` of a running DAD on an address that is tentative.
pub record Decides (slot : Slot) (x : Addr6State) (h s : Host) : Type 0 where
  pub decided : state_of slot s.netdev ≡ x
  pub elsewhere : state_of (other slot) s.netdev ≡ state_of (other slot) h.netdev
  pub over : s.dad.dad_done ≡ true
  pub failed_later : (target : List ℕ) → ipv6_addrconf_dad_failed target s ≡ some s
  pub timeout_later : dad_timeout s ≡ some s

over_later : (x : Addr6State) (h : Host) → h.dad.dad_done ≡ true → dad_ends x h ≡ some h
unfolding dad_ends
over_later x h d = rw d refl

dad_ends-Decides :
    (slot : Slot) (x : Addr6State) (h : Host)
    → h.dad.dad_done ≡ false
    → h.dad.state_ptr ≡ some slot
    → state_of slot h.netdev ≡ tentative
    → (s : Host) × (dad_ends x h ≡ some s) × Decides slot x h s
unfolding dad_ends ipv6_addrconf_dad_failed dad_timeout
dad_ends-Decides slot x h r p t =
    let s = record h { dad = record h.dad { dad_done = true }; netdev = decide slot x h.netdev } in
    let (e, o) = decide_cases slot x h.netdev t in
    (
      s,
      simp (r, p),
      record {
        decided = e;
        elsewhere = o;
        over = refl;
        failed_later = λ target. over_later invalid s refl;
        timeout_later = over_later preferred s refl;
      },
    )

-- A running DAD ends once: the timeout makes the tentative address PREFERRED, a failure makes it
-- INVALID, whichever comes first; the other address stays as it is, and no later timeout or failure
-- changes anything.
pub dad_outcome :
    (slot : Slot) (target : List ℕ) (h : Host)
    → h.dad.dad_done ≡ false
    → h.dad.state_ptr ≡ some slot
    → state_of slot h.netdev ≡ tentative
    → ((s : Host) × (dad_timeout h ≡ some s) × Decides slot preferred h s)
      × ((s : Host) × (ipv6_addrconf_dad_failed target h ≡ some s) × Decides slot invalid h s)
unfolding dad_timeout ipv6_addrconf_dad_failed
dad_outcome slot target h r p t =
    (dad_ends-Decides slot preferred h r p t, dad_ends-Decides slot invalid h r p t)

-- Before the first DAD a failure reads through a null pointer.
dad_failed_early :
    (target : List ℕ) (h : Host)
    → h.dad.dad_done ≡ false
    → h.dad.state_ptr ≡ none
    → ipv6_addrconf_dad_failed target h ≡ none
unfolding ipv6_addrconf_dad_failed dad_ends
dad_failed_early target h r p = rw (dad_ends, r, p) refl

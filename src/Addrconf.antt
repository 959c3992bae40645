-- ===== src/Addrconf.antt =====
-- src/ipv6_addrconf.c: the addresses of the device, duplicate address detection (DAD) and lifetimes.
-- The locks make each function here one step. Allocations succeed. A timer is due when the timer
-- thread says so: its handler is a step of its own.
pub mod Detect
pub mod Blind
pub mod Unexpired
pub mod Expired
use Prim.Native.Nat.{bit_xor}
use level_ip.Prelude.{
  ltb, ◌==◌, if◌then◌else◌, get_or, length, take, drop, u32, zero, suc, ◌+◌, ◌*◌, Bool, true, false,
  not, ◌&&◌, ◌||◌, Option, none, some, List, [], ◌∷◌, ◌++◌, ℕ, replicate,
}
use level_ip.Route.{route6_add, zero6}
use level_ip.Ipv6.{ipv6_addr_equal, Netdev6, Host, Dad, Slot, DevPtr, Expiry, Act, Addr6State, emit}
use level_ip.Ipv6.Addr6State.{tentative, preferred, deprecated, invalid}
use level_ip.Ipv6.Expiry.{preferred_expired, valid_expired}
use level_ip.Ipv6.DevPtr.{device, copy}
use level_ip.Ipv6.Slot.{ll, global}
use level_ip.Ndp.{ndp_send_ns, ndp_send_rs}

-- For pointers that are not NULL.
unfoldable pub ipv6_generate_linklocal : List ℕ → List ℕ
ipv6_generate_linklocal hw_addr =
    0xfe
    ∷ 0x80
    ∷ 0
    ∷ 0
    ∷ 0
    ∷ 0
    ∷ 0
    ∷ 0
    ∷ bit_xor (get_or hw_addr 0 0) 0x02
    ∷ get_or hw_addr 1 0
    ∷ get_or hw_addr 2 0
    ∷ 0xff
    ∷ 0xfe
    ∷ get_or hw_addr 3 0
    ∷ get_or hw_addr 4 0
    ∷ get_or hw_addr 5 0
    ∷ []

abbrev pub is_tentative : Addr6State → Bool
is_tentative tentative = true
is_tentative preferred = false
is_tentative deprecated = false
is_tentative invalid = false

-- The write of `s` through state_ptr where it points to a tentative address.
unfoldable pub decide : Slot → Addr6State → Netdev6 → Netdev6
decide ll s dev = record dev {
  addr6_ll_state = if is_tentative dev.addr6_ll_state then s else dev.addr6_ll_state;
}
decide global s dev = record dev {
  addr6_global_state = if is_tentative dev.addr6_global_state then s else dev.addr6_global_state;
}

-- Both ends of DAD: the common body of ipv6_addrconf_dad_failed and dad_timeout. `none` is the read
-- through a state_ptr that is NULL.
unfoldable pub dad_ends : Addr6State → Host → Option Host
dad_ends s h =
    let dad = h.dad in
    if dad.dad_done then some h else elim dad.state_ptr [
      | none ↦ none
      | some slot ↦
          some (record h { dad = record dad { dad_done = true }; netdev = decide slot s h.netdev })
    ]

-- The target is only printed.
unfoldable pub ipv6_addrconf_dad_failed : List ℕ → Host → Option Host
ipv6_addrconf_dad_failed target h = dad_ends invalid h

unfoldable pub dad_timeout : Host → Option Host
dad_timeout h = dad_ends preferred h

unfoldable pub dad_timeout_ms : ℕ
dad_timeout_ms = 1000

-- The part of ipv6_dad_start under the lock. `dev` is the device.
unfoldable pub dad_opens : List ℕ → Host → Host
dad_opens addr h =
    let slot : Slot = if ipv6_addr_equal addr h.netdev.addr6_ll then ll else global in
    record h { dad = record { target = addr; state_ptr = some slot; dad_done = false } }

-- ndp_send_ns returns 0.
unfoldable pub ipv6_dad_start : List ℕ → Host → Host
unfolding dad_opens dad_timeout_ms
ipv6_dad_start addr h =
    emit (Act.oneshot_dad dad_timeout_ms) (ndp_send_ns addr zero6 (dad_opens addr h))

abbrev pub is_preferred : Addr6State → Bool
is_preferred tentative = false
is_preferred preferred = true
is_preferred deprecated = false
is_preferred invalid = false

unfoldable pub addr6_preferred_expired : Netdev6 → Netdev6
addr6_preferred_expired dev =
    if is_preferred dev.addr6_global_state
    then record dev { addr6_global_state = deprecated; addr6_pref_timer = none }
    else dev

unfoldable pub addr6_valid_expired : Netdev6 → Netdev6
addr6_valid_expired dev = record dev {
  addr6_global_state = invalid;
  addr6_global_valid = false;
  addr6_valid_timer = none;
}

unfoldable pub expired : Expiry → Netdev6 → Netdev6
unfolding addr6_preferred_expired addr6_valid_expired
expired preferred_expired dev = addr6_preferred_expired dev
expired valid_expired dev = addr6_valid_expired dev

abbrev pub change_copy : ℕ → (Netdev6 → Netdev6) → List Netdev6 → List Netdev6
change_copy i f [] = []
change_copy zero f (dev ∷ copies) = f dev ∷ copies
change_copy (suc i) f (dev ∷ copies) = dev ∷ change_copy i f copies

-- A handler of the timer thread, called with its argument.
unfoldable pub run_handler : Expiry → DevPtr → Host → Host
unfolding expired
run_handler x device h = record h { netdev = expired x h.netdev }
run_handler x (copy i) h = record h { copies = change_copy i (expired x) h.copies }

-- addr6_pref_timer or addr6_valid_timer.
abbrev pub timer_of : Expiry → Netdev6 → Option ℕ
timer_of preferred_expired dev = dev.addr6_pref_timer
timer_of valid_expired dev = dev.addr6_valid_timer

abbrev pub with_timer : Expiry → ℕ → Netdev6 → Netdev6
with_timer preferred_expired t dev = record dev { addr6_pref_timer = some t }
with_timer valid_expired t dev = record dev { addr6_valid_timer = some t }

abbrev pub cancel_old : Option ℕ → Host → Host
cancel_old none h = h
cancel_old (some t) h = emit (Act.cancel_timer t) h

-- The two blocks at the end of ipv6_addrconf_update_lifetime. The handler gets a copy of the device.
unfoldable pub schedule : Expiry → ℕ → Host → Host
schedule x lifetime h =
    let c = cancel_old (timer_of x h.netdev) h in
    let added =
      emit (Act.add_timer c.next_timer (u32 (lifetime * 1000)) x (copy (length c.copies)))
        (record c { copies = c.copies ++ c.netdev ∷ [] }) in
    if ltb 0 lifetime && not (lifetime == 0xffff_ffff)
    then record added {
      netdev = with_timer x added.next_timer added.netdev;
      next_timer = added.next_timer + 1;
    }
    else h

-- The first 64 bits are the prefix, the others the interface identifier.
unfoldable pub global_address : List ℕ → List ℕ → List ℕ
global_address prefix hwaddr = take 8 prefix ++ drop 8 (ipv6_generate_linklocal hwaddr)

unfoldable pub set_global : List ℕ → Host → Host
set_global address h = record h {
  netdev = record h.netdev {
    addr6_global = address;
    addr6_global_state = tentative;
    addr6_global_valid = true;
  };
}

unfoldable pub store_lifetimes : ℕ → ℕ → Host → Host
store_lifetimes valid_lt preferred_lt h = record h {
  netdev = record h.netdev {
    addr6_valid_lifetime = valid_lt;
    addr6_preferred_lifetime = preferred_lt;
  };
}

unfoldable pub ipv6_addrconf_update_lifetime : List ℕ → ℕ → ℕ → ℕ → Host → Host
unfolding global_address set_global ipv6_dad_start store_lifetimes schedule
ipv6_addrconf_update_lifetime prefix prefix_len valid_lt preferred_lt h =
    let address = global_address prefix h.netdev.hwaddr in
    let started = ipv6_dad_start address (set_global address h) in
    let stored = store_lifetimes valid_lt preferred_lt started in
    if not (prefix_len == 64)
    then h
    else schedule valid_expired valid_lt (schedule preferred_expired preferred_lt stored)

-- The link-local address, tentative. fe80::/10 is an RT_HOST route, flag 0x4, of metric 0 and device
-- 0; `id` is what malloc returns.
unfoldable pub set_linklocal : ℕ → Host → Host
set_linklocal id h = record h {
  netdev = record h.netdev {
    addr6_ll = ipv6_generate_linklocal h.netdev.hwaddr;
    addr6_ll_state = tentative;
  };
  routes = route6_add id (0xfe ∷ 0x80 ∷ replicate 14 0) zero6 10 0x4 0 0 h.routes;
}

unfoldable pub ipv6_addrconf_init : ℕ → Host → Host
unfolding set_linklocal ipv6_dad_start
ipv6_addrconf_init id h =
    let s = set_linklocal id h in ndp_send_rs s.netdev.addr6_ll (ipv6_dad_start s.netdev.addr6_ll s)

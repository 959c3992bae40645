-- ===== src/Exthdr.antt =====
-- src/ipv6_exthdr.c: the walk over the extension headers of an IPv6 packet. `bytes` is the memory
-- from `start` on, `plen` the payload length.
pub mod Chain
pub mod Taken
use Prim.Native.Nat.{bit_and}
use level_ip.Prelude.{
  ltb, ◌==◌, if◌then◌else◌, get_or, u16, zero, suc, ◌+◌, ◌*◌, ◌/◌, Bool, true, false, ◌||◌, Option,
  none, some, List, ℕ,
}

-- The loop variables, with the fields of struct ipv6_exthdr_result that a fragment header fills.
pub record Walk : Type 0 where
  pub nexthdr : ℕ
  pub ptr : ℕ  -- ptr - start
  pub consumed : ℕ
  pub has_frag : Bool
  pub frag_off : ℕ
  pub frag_id : ℕ

-- TCP, UDP, ICMPv6 and "no next header".
abbrev pub is_upper : ℕ → Bool
is_upper nexthdr = nexthdr == 6 || nexthdr == 17 || nexthdr == 58 || nexthdr == 59

-- Hop-by-hop, routing and destination options.
abbrev pub is_option : ℕ → Bool
is_option nexthdr = nexthdr == 0 || nexthdr == 43 || nexthdr == 60

abbrev pub byte : List ℕ → ℕ → ℕ
byte bytes i = get_or bytes i 0

abbrev pub optlen : List ℕ → ℕ → ℕ
optlen bytes ptr = (byte bytes (ptr + 1) + 1) * 8

abbrev pub after_fragment : List ℕ → Walk → Walk
after_fragment bytes w = record {
  nexthdr = byte bytes w.ptr;
  ptr = w.ptr + 8;
  consumed = u16 (w.consumed + 8);
  has_frag = true;
  frag_off = bit_and (byte bytes (w.ptr + 2) * 256 + byte bytes (w.ptr + 3)) 0xfff8 / 8;
  frag_id =
      byte bytes (w.ptr + 4) * 16777216
      + byte bytes (w.ptr + 5) * 65536
      + byte bytes (w.ptr + 6) * 256
      + byte bytes (w.ptr + 7);
}

-- One round past an extension header; `none` is the return of -1.
unfoldable pub pass_header : List ℕ → ℕ → Walk → Option Walk
pass_header bytes plen w =
    if is_option w.nexthdr
    then if ltb plen (w.consumed + 2)
      then none
      else if ltb plen (w.consumed + optlen bytes w.ptr)
      then none
      else some (record w {
        nexthdr = byte bytes w.ptr;
        ptr = w.ptr + optlen bytes w.ptr;
        consumed = u16 (w.consumed + optlen bytes w.ptr);
      })
    else if w.nexthdr == 44
    then if ltb plen (w.consumed + 8) then none else some (after_fragment bytes w)
    else none

abbrev pub and_then : (Walk → Option Walk) → Option Walk → Option Walk
and_then f none = none
and_then f (some w) = f w

-- The loop, for the given number of rounds.
unfoldable pub walk_loop : ℕ → List ℕ → ℕ → Walk → Option Walk
walk_loop zero bytes plen w = none
walk_loop (suc n) bytes plen w =
    let rest = and_then (λ v. walk_loop n bytes plen v) (pass_header bytes plen w) in
    if is_upper w.nexthdr then some w else rest

-- The result is the walk at its end: final_nexthdr is `nexthdr`.
unfoldable pub ipv6_parse_exthdrs : ℕ → List ℕ → ℕ → Option Walk
unfolding walk_loop
ipv6_parse_exthdrs nexthdr bytes plen = walk_loop 8 bytes plen (record {
  nexthdr = nexthdr;
  ptr = 0;
  consumed = 0;
  has_frag = false;
  frag_off = 0;
  frag_id = 0;
})

-- ===== src/Ndp/Options.antt =====
-- src/ndp.c: the options of a neighbour advertisement.
use level_ip.Ipv6.Verified.{read_all, read-append, drop-append}
use level_ip.Prelude.{
  none, ◌/◌, ltb, ◌-◌, ◌∙◌, false, Bool-cases, zero, suc, refl, inl, inr, append_assoc, arith, ◌==◌,
  if◌then◌else◌, length, drop, All, ℕ, ◌+◌, ◌*◌, ◌≤◌, ◌<◌, ◌≡◌, ◌&&◌, Option, some, List, [], ◌∷◌,
  ◌++◌,
}
use level_ip.Ndp.Input.{na_options}
use level_ip.Ipv6.{read}

-- An option: its type, its length in units of 8 bytes, and the bytes behind these two.
pub record NdpOption : Type 0 where
  pub type : ℕ
  pub units : ℕ
  pub content : List ℕ

-- One unit at least, and as long as it says.
pub record IsOption (o : NdpOption) : Type 0 where
  pub unit : 0 < o.units
  pub long : length o.content + 2 ≡ o.units * 8

abbrev pub option_bytes : List NdpOption → List ℕ
option_bytes [] = []
option_bytes (o ∷ os) = o.type ∷ o.units ∷ (o.content ++ option_bytes os)

abbrev pub option_length : List NdpOption → ℕ
option_length [] = 0
option_length (o ∷ os) = o.units * 8 + option_length os

-- The address of the last target link-layer address option of one unit, or else the one so far.
abbrev pub last_tlla : Option (List ℕ) → List NdpOption → Option (List ℕ)
last_tlla tlla [] = tlla
last_tlla tlla (o ∷ os) =
    last_tlla (if o.type == 2 && (o.units == 1) then some (read 6 o.content) else tlla) os

module _ (o : NdpOption) (rest : List ℕ) (w : IsOption o) where
  drop_option : drop (o.units * 8) (o.type ∷ o.units ∷ (o.content ++ rest)) ≡ rest
  drop_option =
      drop-append (o.units * 8) (o.type ∷ o.units ∷ o.content) rest (omega (arith, w.long))

  -- The six bytes that are read belong to the option.
  read_content :
      (tlla : Option (List ℕ))
      → (if o.type == 2 && (o.units == 1) then some (read 6 (o.content ++ rest)) else tlla)
        ≡ (if o.type == 2 && (o.units == 1) then some (read 6 o.content) else tlla)
  read_content tlla = elim (Bool-cases (o.units == 1)) [
    | inl y ↦
        let long : length o.content ≡ 6 = ground (arith, w.long) in
        rw (read-append 6 o.content rest long, read_all 6 o.content long) refl
    | inr n ↦ ground arith
  ]

  -- A round takes one option.
  na_round :
      (n len : ℕ) (tlla : Option (List ℕ))
      → na_options (suc n) (o.units * 8 + len) (o.type ∷ o.units ∷ (o.content ++ rest)) tlla
        ≡ na_options n len rest
            (if o.type == 2 && (o.units == 1) then some (read 6 o.content) else tlla)
  unfolding na_options
  na_round n len tlla =
      let enough : ltb (o.units * 8 + len) 8 ≡ false = ground (arith, w.unit) in
      let moves : (o.units * 8 == 0) ≡ false = ground (arith, w.unit) in
      let less : o.units * 8 + len - o.units * 8 ≡ len = omega arith in
      rw (enough, moves, less, drop_option, read_content tlla) refl

na_ends : (n : ℕ) (rest : List ℕ) (tlla : Option (List ℕ)) → na_options n 0 rest tlla ≡ tlla
unfolding na_options
na_ends zero rest tlla = refl
na_ends (suc n) rest tlla = refl

-- As many rounds as there are units reach the end, whatever stands behind the options.
pub na_options-last :
    (n : ℕ) (os : List NdpOption) (rest : List ℕ) (tlla : Option (List ℕ))
    → All IsOption os
    → option_length os ≤ n * 8
    → na_options n (option_length os) (option_bytes os ++ rest) tlla ≡ last_tlla tlla os
na_options-last zero [] rest tlla w h = na_ends 0 rest tlla
na_options-last zero (o ∷ os) rest tlla w h = absurd (omega (arith, w.0.unit))
na_options-last (suc n) [] rest tlla w h = na_ends (suc n) rest tlla
na_options-last (suc n) (o ∷ os) rest tlla w h =
    let behind = option_bytes os ++ rest in
    let found = if o.type == 2 && (o.units == 1) then some (read 6 o.content) else tlla in
    rw (append_assoc o.content (option_bytes os) rest) (
      na_round o behind w.0 n (option_length os) tlla
      ∙ na_options-last n os rest found w.1 (omega (arith, w.0.unit)))

whole_units : (os : List NdpOption) → option_length os / 8 * 8 ≡ option_length os
whole_units [] = refl
whole_units (o ∷ os) = omega (arith, whole_units os)

-- The walk over well-formed options finds the address of the last target link-layer address option,
-- whatever stands behind the payload: enough rounds are given, and nothing behind it is read.
pub na_options_read :
    (os : List NdpOption) (rest : List ℕ)
    → All IsOption os
    → let optlen = option_length os in
      na_options (optlen / 8) optlen (option_bytes os ++ rest) none ≡ last_tlla none os
na_options_read os rest w =
    na_options-last (option_length os / 8) os rest none w (omega (arith, whole_units os))

-- ===== src/Ipv6/Verified.antt =====
-- src/icmpv6.c: a message with its checksum filled in verifies.
use level_ip.Prelude.{
  length-append, All-append, u8, length, drop, All, ℕ, zero, suc, ◌+◌, ◌*◌, ◌/◌, ◌%◌, ◌≤◌, ◌<◌, ◌≡◌,
  refl, ap, List, [], ◌∷◌, ◌++◌, arith,
}
use level_ip.Ipv6.Pseudo.{pseudo6, icmpv6_checksum}
use level_ip.Ipv6.{read}
use level_ip.Checksum.Verify.{total, sum_loop-total, checksum-checksum}
use level_ip.Checksum.{sum_loop, sum_every_16bits}

abbrev pub IsBytes : List ℕ → Type 0
IsBytes bytes = All (λ x. x < 256) bytes

-- An IPv6 address: 16 bytes.
abbrev pub IsAddress : List ℕ → Type 0
IsAddress a = (length a ≡ 16) × IsBytes a

pub read_all : (n : ℕ) (bytes : List ℕ) → length bytes ≡ n → read n bytes ≡ bytes
unfolding read
read_all zero [] h = refl
read_all zero (x ∷ bytes) h = absurd (omega arith)
read_all (suc n) [] h = absurd (omega arith)
read_all (suc n) (x ∷ bytes) h = ap (◌∷◌ x) (read_all n bytes (omega arith))

pub read-append : (n : ℕ) (bytes rest : List ℕ) → length bytes ≡ n → read n (bytes ++ rest) ≡ bytes
unfolding read
read-append zero [] rest h = refl
read-append zero (x ∷ bytes) rest h = absurd (omega arith)
read-append (suc n) [] rest h = absurd (omega arith)
read-append (suc n) (x ∷ bytes) rest h = ap (◌∷◌ x) (read-append n bytes rest (omega arith))

pub drop-append : (n : ℕ) (bytes rest : List ℕ) → length bytes ≡ n → drop n (bytes ++ rest) ≡ rest
drop-append zero [] rest h = refl
drop-append zero (x ∷ bytes) rest h = absurd (omega arith)
drop-append (suc n) [] rest h = absurd (omega arith)
drop-append (suc n) (x ∷ bytes) rest h = drop-append n bytes rest (omega arith)

total_bound : (bytes : List ℕ) → IsBytes bytes → total bytes ≤ 65535 * length bytes
total_bound [] h = omega arith
total_bound (b ∷ []) h = omega arith
total_bound (b ∷ c ∷ bytes) h = omega (arith, total_bound bytes h.1.1)

pseudo6-IsBytes :
    (saddr daddr : List ℕ) (len : ℕ)
    → IsAddress saddr
    → IsAddress daddr
    → IsBytes (pseudo6 saddr daddr len) × (length (pseudo6 saddr daddr len) ≡ 40)
unfolding pseudo6
pseudo6-IsBytes saddr daddr len s d =
    let tail = 0 ∷ 0 ∷ u8 (len / 256) ∷ u8 len ∷ 0 ∷ 0 ∷ 0 ∷ 58 ∷ [] in
    let small : IsBytes tail = omega arith in
    (
      All-append (λ x. x < 256) (saddr ++ daddr) tail
          (All-append (λ x. x < 256) saddr daddr s.1 d.1) small,
      omega (arith, length-append {0} (saddr ++ daddr) tail, length-append {0} saddr daddr),
    )

-- The checksum of a message, written low byte first over its zero field, makes it verify.
pub icmpv6_checksum_verifies :
    (saddr daddr : List ℕ) (type code : ℕ) (rest : List ℕ) (len : ℕ)
    → IsAddress saddr
    → IsAddress daddr
    → 0 < type
    → type < 256
    → code < 256
    → IsBytes rest
    → length rest + 4 ≡ len
    → len < 10000
    → let c = icmpv6_checksum saddr daddr (type ∷ code ∷ 0 ∷ 0 ∷ rest) len in
      icmpv6_checksum saddr daddr (type ∷ code ∷ c % 256 ∷ c / 256 ∷ rest) len ≡ 0
unfolding icmpv6_checksum sum_every_16bits
icmpv6_checksum_verifies saddr daddr type code rest len s d p t c r l m =
    let pseudo = pseudo6 saddr daddr len in
    let (b, k) = pseudo6-IsBytes saddr daddr len s d in
    let start = sum_loop 0 pseudo in
    let small = total_bound pseudo b in
    let e = sum_loop-total 0 pseudo (omega arith) in
    let few = total_bound rest r in
    let whole = λ (x y : ℕ). read_all len (type ∷ code ∷ x ∷ y ∷ rest) (omega arith) in
    let done = checksum-checksum (type ∷ code ∷ []) rest start refl (omega arith) (omega arith) in
    simp whole done

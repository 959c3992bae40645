-- ===== src/Checksum.antt =====
-- src/utils.c: the Internet checksum (RFC 1071), over bytes in memory on a little-endian machine.
pub mod Verify
use level_ip.Prelude.{
  ◌==◌, if◌then◌else◌, u32, zero, suc, ◌+◌, ◌-◌, ◌*◌, ◌/◌, ◌%◌, List, [], ◌∷◌, ℕ,
}

-- The loop of sum_every_16bits from the sum so far, with the left-over byte at the end.
unfoldable pub sum_loop : ℕ → List ℕ → ℕ
sum_loop sum [] = sum
sum_loop sum (b ∷ []) = u32 (sum + b)
sum_loop sum (b ∷ c ∷ bytes) = sum_loop (u32 (sum + (b + 256 * c))) bytes

unfoldable pub sum_every_16bits : List ℕ → ℕ
unfolding sum_loop
sum_every_16bits bytes = sum_loop 0 bytes

-- `while (sum >> 16) sum = (sum & 0xffff) + (sum >> 16)`, for a number of rounds.
unfoldable pub fold : ℕ → ℕ → ℕ
fold zero sum = sum
fold (suc n) sum =
    let rest = fold n (u32 (sum % 65536 + sum / 65536)) in if sum / 65536 == 0 then sum else rest

-- A 32-bit sum is folded after two rounds. The result is ~sum as a uint16_t.
unfoldable pub checksum : List ℕ → ℕ → ℕ
unfolding sum_every_16bits fold
checksum bytes start_sum = 65535 - fold 2 (u32 (start_sum + sum_every_16bits bytes)) % 65536

-- ===== src/Ipv6/Pseudo.antt =====
-- src/icmpv6.c: the checksum over the pseudo-header of IPv6 and a message.
use level_ip.Prelude.{u8, ◌/◌, List, [], ◌∷◌, ◌++◌, ℕ}
use level_ip.Ipv6.{read}
use level_ip.Checksum.{checksum, sum_every_16bits}

-- The 40 bytes of `pseudo`. `len` is a uint16_t, so its upper two bytes are 0.
unfoldable pub pseudo6 : List ℕ → List ℕ → ℕ → List ℕ
pseudo6 saddr daddr len = saddr ++ daddr ++ 0 ∷ 0 ∷ u8 (len / 256) ∷ u8 len ∷ 0 ∷ 0 ∷ 0 ∷ 58 ∷ []

-- `bytes` is the memory from `data` on.
unfoldable pub icmpv6_checksum : List ℕ → List ℕ → List ℕ → ℕ → ℕ
unfolding pseudo6
icmpv6_checksum saddr daddr bytes len =
    checksum (read len bytes) (sum_every_16bits (pseudo6 saddr daddr len))

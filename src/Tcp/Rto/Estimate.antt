-- ===== src/Tcp/Rto/Estimate.antt =====
-- src/tcp.c: the round-trip estimate of tcp_rtt (RFC 6298).
use level_ip.Prelude.{ℕ, ◌+◌, ◌*◌, ◌≤◌, ◌<◌, ◌≡◌, ◌≢◌, ◌⊎◌}
use level_ip.Tcp.Sock.{Timers}

-- The greatest number whose `n`-fold is not above `x`.
abbrev pub IsShare : ℕ → ℕ → ℕ → Type 0
IsShare n x y = (n * y ≤ x) × (x < n * y + n)

-- `d` is the distance of two times.
abbrev pub IsDistance : ℕ → ℕ → ℕ → Type 0
IsDistance a b d = (a + d ≡ b) ⊎ (b + d ≡ a)

-- The estimate after a sample `r`, as RFC 6298 has it (section 2), with a clock of 200 ms and without
-- the minimum of one second: the first sample, then one that weighs 1/8 in the time and 1/4 in the
-- variance, which is taken against the old time. Fractions are cut off.
pub record IsEstimate (r : ℕ) (t u : Timers) : Type 0 where
  pub first : (t.srtt ≢ 0) ⊎ ((u.srtt ≡ r) × IsShare 2 r u.rttvar)
  pub time : (t.srtt ≡ 0) ⊎ IsShare 8 (7 * t.srtt + r) u.srtt
  pub variance :
      (t.srtt ≡ 0) ⊎ ((d : ℕ) × IsDistance t.srtt r d × IsShare 4 (3 * t.rttvar + d) u.rttvar)
  pub timeout :
      ((4 * u.rttvar < 200) × (u.rto ≡ u.srtt + 200))
      ⊎ ((200 ≤ 4 * u.rttvar) × (u.rto ≡ u.srtt + 4 * u.rttvar))

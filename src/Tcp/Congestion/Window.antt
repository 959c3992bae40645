-- ===== src/Tcp/Congestion/Window.antt =====
-- src/tcp_input.c: the congestion window (RFC 5681).
use level_ip.Prelude.{◌⊎◌, ℕ, ◌+◌, ◌*◌, ◌≡◌, ◌≤◌, true, false, [], ◌∷◌, ◌++◌, length, All}
use level_ip.Skbuff.{SkbQueue}
use level_ip.Tcp.Sock.{Cong, TcpSock}
use level_ip.Tcp.Output.{min}
use level_ip.Tcp.Congestion.{is_acked}
use level_ip.Tcp.Congestion.Acked.{IsUnacked}

-- Slow start over these segments: each adds its bytes, up to one segment.
abbrev pub slow_start : ℕ → SkbQueue → ℕ
slow_start smss [] = 0
slow_start smss (skb ∷ q) = min skb.dlen smss + slow_start smss q

-- What the acknowledgement of these segments does to the window.
pub record Grows (acked : SkbQueue) (c d : Cong) : Type 0 where
  pub not_less : c.cwnd ≤ d.cwnd
  pub not_more : d.cwnd ≤ c.cwnd + length acked * c.smss
  pub slow :
      (c.ssthresh ≤ d.cwnd) ⊎ (c.in_recovery ≡ true) ⊎ (d.cwnd ≡ c.cwnd + slow_start c.smss acked)
  pub recovering : (c.in_recovery ≡ false) ⊎ (d.cwnd ≡ c.cwnd)
  pub ssthresh_kept : d.ssthresh ≡ c.ssthresh
  pub recovery_kept : d.in_recovery ≡ c.in_recovery

-- One segment, in what the others need.
record GrowsOnce (dlen : ℕ) (c d : Cong) : Type 0 where
  not_less : c.cwnd ≤ d.cwnd
  not_more : d.cwnd ≤ c.cwnd + c.smss
  slow : (c.ssthresh ≤ c.cwnd) ⊎ (c.in_recovery ≡ true) ⊎ (d.cwnd ≡ c.cwnd + min dlen c.smss)
  recovering : (c.in_recovery ≡ false) ⊎ (d.cwnd ≡ c.cwnd)
  credit : d.bytes_acked ≤ c.bytes_acked + dlen
  ssthresh_kept : d.ssthresh ≡ c.ssthresh
  smss_kept : d.smss ≡ c.smss
  recovery_kept : d.in_recovery ≡ c.in_recovery

record CleansFor (una : ℕ) (q : SkbQueue) (c : Cong) (r : SkbQueue × TcpSock) : Type 0 where
  acked : SkbQueue
  split : q ≡ acked ++ r.0
  all_acked : All (λ skb. is_acked una skb ≡ true) acked
  rest_unacked : IsUnacked una r.0
  grows : Grows acked c r.1.cong

-- ===== src/Tests/Transmit.antt =====
-- The theorems on the send path, congestion control and the timers, at the socket of Tests.
use level_ip.Tcp.Api.Close.{Closes, tcp_close-Closes}
use level_ip.Tcp.Api.{tcp_close, returns}
use level_ip.Tcp.Timeout.Loss.{IsUnmarked, tcp_retransmission_timeout_lem}
use level_ip.Tcp.Timeout.Epoch.{IsStale, tcp_rearm_rto_timer-IsStale}
use level_ip.Tcp.Timeout.{tcp_retransmission_timeout}
use level_ip.Tcp.Sock.{fin_wait_1, established}
use level_ip.Tcp.Send.Split.{IsSplit, tcp_send-IsSplit}
use level_ip.Tcp.Send.{tcp_send}
use level_ip.Tcp.Rto.{tcp_stop_rto_timer, tcp_rearm_rto_timer}
use level_ip.Tcp.Output.{send_window_shut, max}
use level_ip.Tcp.Congestion.Acked.{
  IsStopped, IsFlight, IsCovered, IsUncovered, tcp_clean_rto_queue-split,
}
use level_ip.Tcp.Congestion.{tcp_clean_rto_queue}
use level_ip.Skbuff.{SkbQueue}
use level_ip.Prelude.{pos, All, u32, ◌+◌, ◌*◌, ◌/◌, ◌≡◌, refl, some, [], ◌∷◌, ◌++◌, arith}
use level_ip.Tests.{TcpSock, segment, sock}

tcp_send-IsSplit_example :
    (t : TcpSock) × (segs : SkbQueue) × (tcp_send 5200 [] (1 ∷ 2 ∷ 3 ∷ 4 ∷ 5 ∷ 6 ∷ []) sock
      ≡ some (t, []))
    × IsSplit (1 ∷ 2 ∷ 3 ∷ 4 ∷ 5 ∷ 6 ∷ []) sock t segs
tcp_send-IsSplit_example = tcp_send-IsSplit 5200 [] (1 ∷ 2 ∷ 3 ∷ 4 ∷ 5 ∷ 6 ∷ []) sock (record {
  some_mss = omega arith;
  in_window = ground arith;
  flight_fits = omega arith;
  nxt_fits = omega arith;
})

tcp_clean_rto_queue-split_example :
    let t = tcp_clean_rto_queue 1003 sock in
    (acked : SkbQueue) × (sock.write_queue ≡ acked ++ t.write_queue)
    × All (IsCovered 1003) acked
    × IsUncovered 1003 t.write_queue
    × IsFlight t
    × (t.state ≡ established)
    × (t.tcb ≡ sock.tcb)
    × IsStopped t.write_queue t.timers.retransmit
tcp_clean_rto_queue-split_example = tcp_clean_rto_queue-split 1003 sock (refl, omega arith)

abbrev late_timeout : TcpSock
late_timeout = tcp_retransmission_timeout 5200 7 sock

tcp_retransmission_timeout_lem_example :
    (late_timeout.cong.cwnd ≡ 4)
    × (late_timeout.cong.ssthresh ≡ max (5 / 2) (2 * 4))
    × All IsUnmarked late_timeout.write_queue
    × (late_timeout.timers.rto ≡ 2 * 240)
    × (late_timeout.timers.retransmit ≡ some (record { id = 4; expires = u32 (5200 + 2 * 240) }))
tcp_retransmission_timeout_lem_example =
    tcp_retransmission_timeout_lem 5200 (segment 1000 (7 ∷ 8 ∷ 9 ∷ []))
      (segment 1003 (10 ∷ 11 ∷ []) ∷ []) sock refl (omega arith) (λ e. absurd cc)

tcp_rearm_rto_timer-IsStale_example :
    IsStale 5300 7 (tcp_rearm_rto_timer 5200 sock) × IsStale 5300 7 (tcp_stop_rto_timer sock)
tcp_rearm_rto_timer-IsStale_example = tcp_rearm_rto_timer-IsStale 5200 5300 sock (omega arith)

abbrev third : TcpSock
third = record sock { cong = record (sock.cong) { dupacks = 2 } }

tcp_close-Closes_example :
    (t : TcpSock) × (tcp_close 5200 [] sock ≡ returns (pos 0) t) × Closes fin_wait_1 sock t
unfolding send_window_shut
tcp_close-Closes_example = tcp_close-Closes fin_wait_1 5200 [] sock refl refl

abbrev idle : TcpSock
idle = record sock { write_queue = []; cong = record (sock.cong) { inflight = 0 } }

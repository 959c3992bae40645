-- ===== src/Tcp/Timeout/Epoch.antt =====
-- src/tcp.c and src/tcp_output.c: a retransmission timer that was replaced or stopped does nothing,
-- also if its callback is already waiting for the lock.
use level_ip.Prelude.{ℕ, ◌+◌, ◌≡◌, ◌<◌, false, arith, u64, ◌==◌}
use level_ip.Tcp.Sock.{TcpSock}
use level_ip.Tcp.Rto.{tcp_rearm_rto_timer, tcp_stop_rto_timer}
use level_ip.Tcp.Timeout.{tcp_retransmission_timeout, tcp_connect_rto}

-- Both callbacks at one epoch.
abbrev pub IsStale : ℕ → ℕ → TcpSock → Type 0
IsStale tick epoch t =
    (tcp_retransmission_timeout tick epoch t ≡ t) × (tcp_connect_rto tick epoch t ≡ t)

IsStale-of :
    (tick epoch : ℕ) (t : TcpSock) → (epoch == t.timers.rto_epoch) ≡ false → IsStale tick epoch t
unfolding tcp_retransmission_timeout tcp_connect_rto
IsStale-of tick epoch t e = (rw e, rw e)

rearm-epoch :
    (tick : ℕ) (s : TcpSock)
    → (tcp_rearm_rto_timer tick s).timers.rto_epoch ≡ u64 (s.timers.rto_epoch + 1)
unfolding tcp_rearm_rto_timer
rearm-epoch tick s = ground arith

stop-epoch : (s : TcpSock) → (tcp_stop_rto_timer s).timers.rto_epoch ≡ u64 (s.timers.rto_epoch + 1)
unfolding tcp_stop_rto_timer
stop-epoch s = ground arith

-- Arming a timer anew, and stopping it, makes every callback that carries the epoch before a no-op,
-- the one for connecting and the one for data.
pub tcp_rearm_rto_timer-IsStale :
    (tick later : ℕ) (s : TcpSock)
    → s.timers.rto_epoch < 18446744073709551616
    → IsStale later s.timers.rto_epoch (tcp_rearm_rto_timer tick s)
      × IsStale later s.timers.rto_epoch (tcp_stop_rto_timer s)
tcp_rearm_rto_timer-IsStale tick later s h = (
  IsStale-of later s.timers.rto_epoch (tcp_rearm_rto_timer tick s)
      (ground (arith, rearm-epoch tick s)),
  IsStale-of later s.timers.rto_epoch (tcp_stop_rto_timer s) (ground (arith, stop-epoch s)),
)

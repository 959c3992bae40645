-- ===== src/Tcp/Congestion/Recovery.antt =====
-- src/tcp_input.c: fast retransmit and fast recovery (RFC 5681, section 3.2).
use level_ip.Prelude.{ℕ, ◌+◌, ◌*◌, ◌/◌, ◌≡◌, true, false, arith, u32}
use level_ip.Tcp.Sock.{TcpSock, Cong}
use level_ip.Tcp.Output.{max}
use level_ip.Tcp.Rto.{tcp_rearm_rto_timer}
use level_ip.Tcp.Send.{tcp_fast_retransmit}
use level_ip.Tcp.Frame.{tcp_fast_retransmit-Untouched}
use level_ip.Tcp.Congestion.{tcp_enter_fast_recovery, tcp_exit_fast_recovery}

rearm-cong : (tick : ℕ) (s : TcpSock) → (tcp_rearm_rto_timer tick s).cong ≡ s.cong
unfolding tcp_rearm_rto_timer
rearm-cong tick s = ground arith

record Entered (c d : Cong) : Type 0 where
  ssthresh_half : d.ssthresh ≡ max (c.inflight / 2) (2 * c.smss)
  cwnd_inflated : d.cwnd ≡ u32 (d.ssthresh + 3 * c.smss)
  recovering : d.in_recovery ≡ true
  credit_cleared : d.bytes_acked ≡ 0
  flight_kept : d.inflight ≡ c.inflight
  mss_kept : d.smss ≡ c.smss
  dupacks_kept : d.dupacks ≡ c.dupacks

enter-Entered : (tick : ℕ) (s : TcpSock) → Entered s.cong (tcp_enter_fast_recovery tick s).cong
unfolding tcp_enter_fast_recovery
enter-Entered tick s =
    let half = record s {
      cong = record (s.cong) { ssthresh = max (s.cong.inflight / 2) (2 * s.cong.smss) };
    } in
    let t = tcp_fast_retransmit half in
    let u = record t {
      cong = record (t.cong) {
        cwnd = u32 (t.cong.ssthresh + 3 * t.cong.smss);
        bytes_acked = 0;
        in_recovery = true;
      };
    } in
    ground (arith, tcp_fast_retransmit-Untouched half, rearm-cong tick u)

-- Leaving recovery deflates the window to ssthresh, so a loss that was repaired costs half the
-- flight (two segments at least) and not more.
pub exit-enter_recovery :
    (tick : ℕ) (s : TcpSock)
    → let c = (tcp_exit_fast_recovery (tcp_enter_fast_recovery tick s)).cong in
      (c.cwnd ≡ max (s.cong.inflight / 2) (2 * s.cong.smss))
      × (c.ssthresh ≡ c.cwnd)
      × (c.in_recovery ≡ false)
      × (c.dupacks ≡ 0)
unfolding tcp_exit_fast_recovery
exit-enter_recovery tick s = ground (arith, enter-Entered tick s)

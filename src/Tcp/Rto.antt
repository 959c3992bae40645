-- ===== src/Tcp/Rto.antt =====
-- The timer calls of src/tcp.c and src/tcp_output.c: arming, releasing and cancelling the
-- retransmission, delayed-ACK, linger and user timers, and the round-trip estimate.
pub mod Estimate
use level_ip.Prelude.{
  ℕ, ◌+◌, ◌-◌, ◌*◌, ◌/◌, ◌^◌, Bool, true, false, ◌||◌, ◌∷◌, Option, none, some, u32, u64, sub32,
  ltb, leb, ◌==◌, if◌then◌else◌,
}
use level_ip.Tcp.Sock.{
  State, syn_sent, time_wait, Handler, connect_rto, retransmission_timeout, linger_timeout,
  user_timeout, TimerHandle, timer_added, timer_cancelled, timer_released, TcpSock, Timers, emit,
  tcp_set_state,
}

abbrev pub tcp_syn_backoff : ℕ
tcp_syn_backoff = 500

abbrev pub tcp_2msl : ℕ
tcp_2msl = 60000

abbrev pub tcp_user_timeout : ℕ
tcp_user_timeout = 180000

-- timer_cancel(t) and timer_release(t), which do nothing at NULL.
abbrev pub timer_cancel : Option TimerHandle → TcpSock → TcpSock
timer_cancel none s = s
timer_cancel (some t) s = emit (timer_cancelled t.id) s

abbrev pub timer_release : Option TimerHandle → TcpSock → TcpSock
timer_release none s = s
timer_release (some t) s = emit (timer_released t.id) s

-- timer_add at the given tick: the handle of a new timer, and the state that remembers the call.
abbrev pub new_timer : ℕ → ℕ → TcpSock → TimerHandle
new_timer tick expire s = record { id = s.timers.next_id; expires = u32 (tick + expire) }

abbrev pub timer_add : ℕ → ℕ → Handler → TcpSock → TcpSock
timer_add tick expire h s = record s {
  timers = record (s.timers) { next_id = s.timers.next_id + 1 };
  log = timer_added (new_timer tick expire s) h ∷ s.log;
}

unfoldable pub tcp_release_rto_timer : TcpSock → TcpSock
tcp_release_rto_timer s =
    let t = timer_release s.timers.retransmit s in
    record t { timers = record (t.timers) { retransmit = none } }

unfoldable pub tcp_stop_rto_timer : TcpSock → TcpSock
tcp_stop_rto_timer s =
    let t = timer_cancel s.timers.retransmit s in
    record t {
      timers = record (t.timers) {
        retransmit = none;
        backoff = 0;
        rto_epoch = u64 (t.timers.rto_epoch + 1);
      };
    }

unfoldable pub tcp_stop_delack_timer : TcpSock → TcpSock
tcp_stop_delack_timer s =
    let t = timer_cancel s.timers.delack s in
    record t { timers = record (t.timers) { delack = none } }

unfoldable pub tcp_release_delack_timer : TcpSock → TcpSock
tcp_release_delack_timer s =
    let t = timer_release s.timers.delack s in
    record t { timers = record (t.timers) { delack = none } }

abbrev is_syn_sent : State → Bool
is_syn_sent syn_sent = true
is_syn_sent _ = false

-- The delay and the callback of a new retransmission timer. The shift of `int` by `backoff` bits is
-- read as the 32-bit argument that timer_add takes.
unfoldable pub rto_delay : TcpSock → ℕ
rto_delay s =
    if is_syn_sent s.state then u32 (tcp_syn_backoff * 2 ^ s.timers.backoff) else s.timers.rto

unfoldable pub rto_handler : TcpSock → Handler
rto_handler s =
    if is_syn_sent s.state
    then connect_rto s.timers.rto_epoch
    else retransmission_timeout s.timers.rto_epoch

unfoldable pub tcp_rearm_rto_timer : ℕ → TcpSock → TcpSock
unfolding tcp_release_rto_timer rto_delay rto_handler
tcp_rearm_rto_timer tick s =
    let t = tcp_release_rto_timer s in
    let u = record t { timers = record (t.timers) { rto_epoch = u64 (t.timers.rto_epoch + 1) } } in
    let v = timer_add tick (rto_delay u) (rto_handler u) u in
    record v { timers = record (v.timers) { retransmit = some (new_timer tick (rto_delay u) u) } }

unfoldable pub tcp_clear_timers : TcpSock → TcpSock
unfolding tcp_stop_rto_timer tcp_stop_delack_timer
tcp_clear_timers s =
    let t = tcp_stop_delack_timer (tcp_stop_rto_timer s) in
    let u = timer_cancel t.timers.keepalive t in
    let v = record u { timers = record (u.timers) { keepalive = none } } in
    let w = timer_cancel v.timers.linger v in
    record w { timers = record (w.timers) { linger = none } }

unfoldable pub tcp_enter_time_wait : ℕ → TcpSock → TcpSock
unfolding tcp_clear_timers
tcp_enter_time_wait tick s =
    let t = tcp_clear_timers (tcp_set_state time_wait s) in
    let u = timer_add tick tcp_2msl linger_timeout t in
    record u { timers = record (u.timers) { linger = some (new_timer tick tcp_2msl t) } }

abbrev is_time_wait : State → Bool
is_time_wait time_wait = true
is_time_wait _ = false

unfoldable pub tcp_rearm_user_timeout : ℕ → TcpSock → TcpSock
tcp_rearm_user_timeout tick s =
    let t = timer_cancel s.timers.linger s in
    let u = timer_add tick tcp_user_timeout user_timeout t in
    if is_time_wait s.state then s else record u {
      timers = record (u.timers) { linger = some (new_timer tick tcp_user_timeout t) };
    }

-- The estimate of tcp_rtt from one sample `r`. The doubles 0.75, 0.25, 0.875 and 0.125 are exact
-- on these values, and the conversion to int32_t cuts the fraction off.
abbrev pub rtt_diff : ℕ → ℕ → ℕ
rtt_diff a b = (a - b) + (b - a)

unfoldable pub rtt_update : ℕ → Timers → Timers
rtt_update r t =
    let first = t.srtt == 0 in
    let rttvar : ℕ = if first then r / 2 else (3 * t.rttvar + rtt_diff t.srtt r) / 4 in
    let srtt : ℕ = if first then r else (7 * t.srtt + r) / 8 in
    let k : ℕ = if ltb (4 * rttvar) 200 then 200 else 4 * rttvar in
    record t { srtt = srtt; rttvar = rttvar; rto = u32 (srtt + k) }

-- The sample: `int r = timer_get_tick() - (expires - rto)`, in unsigned arithmetic.
unfoldable pub rtt_sample : ℕ → TimerHandle → Timers → ℕ
rtt_sample tick h t = sub32 tick (sub32 h.expires t.rto)

unfoldable pub tcp_rtt : ℕ → TcpSock → TcpSock
unfolding rtt_update rtt_sample
tcp_rtt tick s = elim s.timers.retransmit [
  | none ↦ s
  | some h ↦
      if ltb 0 s.timers.backoff || leb 2147483648 (rtt_sample tick h s.timers)
      then s
      else record s { timers = rtt_update (rtt_sample tick h s.timers) s.timers }
]

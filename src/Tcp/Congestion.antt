-- ===== src/Tcp/Congestion.antt =====
-- src/tcp_input.c: congestion control (RFC 5681) and the acknowledgement of queued segments.
pub mod Window
pub mod Recovery
pub mod Acked
use level_ip.Prelude.{
  ℕ, ◌+◌, ◌*◌, ◌/◌, ◌^◌, Bool, true, false, not, ◌&&◌, ◌||◌, [], ◌∷◌, u8, u32, sub32, ltb, leb,
  ◌==◌, if◌then◌else◌,
}
use level_ip.Skbuff.{SkBuff, SkbQueue, Tcphdr, unhold, skb_queue_len, skb_queue_empty}
use level_ip.Tcp.Sock.{TcpSock, Cong, wake_write, emit, free_skb}
use level_ip.Tcp.Rto.{tcp_stop_rto_timer, tcp_rearm_rto_timer}
use level_ip.Tcp.Output.{min, max}
use level_ip.Tcp.Send.{tcp_fast_retransmit, tcp_send_next}

unfoldable pub tcp_cong_avoid : ℕ → Cong → Cong
tcp_cong_avoid acked c =
    let total = u32 (c.bytes_acked + acked) in
    if acked == 0
    then c
    else if c.in_recovery
    then c
    else if ltb c.cwnd c.ssthresh
    then record c { cwnd = u32 (c.cwnd + min acked c.smss) }
    else if leb c.cwnd total
    then record c { bytes_acked = sub32 total c.cwnd; cwnd = u32 (c.cwnd + c.smss) }
    else record c { bytes_acked = total }

-- The flight after `acked` bytes have left it: the subtraction stops at 0.
unfoldable pub leave_flight : ℕ → Cong → Cong
leave_flight acked c = record c {
  inflight = if leb acked c.inflight then sub32 c.inflight acked else 0;
}

unfoldable pub is_acked : ℕ → SkBuff → Bool
is_acked una skb = ltb 0 skb.seq && leb skb.end_seq una

-- One round of the loop of tcp_clean_rto_queue, for a segment that is acknowledged.
unfoldable pub ack_segment : SkBuff → TcpSock → TcpSock
ack_segment skb s =
    let t = free_skb (unhold skb) (emit wake_write s) in
    record t { cong = tcp_cong_avoid skb.dlen (leave_flight skb.dlen t.cong) }

-- The loop: what is left of the queue, and the state.
unfoldable pub clean_loop : ℕ → SkbQueue → TcpSock → SkbQueue × TcpSock
clean_loop una [] s = ([], s)
clean_loop una (skb ∷ q) s =
    let rest = clean_loop una q (ack_segment skb s) in
    if is_acked una skb then rest else (skb ∷ q, s)

-- "No unacknowledged skbs, stop rto timer".
unfoldable pub stop_when_acked : TcpSock → TcpSock
stop_when_acked s =
    if skb_queue_empty s.write_queue || s.cong.inflight == 0 then tcp_stop_rto_timer s else s

unfoldable pub tcp_clean_rto_queue : ℕ → TcpSock → TcpSock
tcp_clean_rto_queue una s =
    let r = clean_loop una s.write_queue s in stop_when_acked (record (r.1) { write_queue = r.0 })

unfoldable pub tcp_is_dupack : Tcphdr → SkBuff → TcpSock → Bool
tcp_is_dupack th skb s =
    if not (th.ack_seq == s.tcb.snd_una)
    then false
    else if not (skb.dlen == 0)
    then false
    else if th.syn || th.fin
    then false
    else if not (th.win == s.cong.last_ack_win)
    then false
    else if s.cong.inflight == 0
    then false
    else true

unfoldable pub tcp_enter_fast_recovery : ℕ → TcpSock → TcpSock
tcp_enter_fast_recovery tick s =
    let half = record s {
      cong = record (s.cong) { ssthresh = max (s.cong.inflight / 2) (2 * s.cong.smss) };
    } in
    let t = tcp_fast_retransmit half in
    let u = record t {
      cong = record (t.cong) {
        cwnd = u32 (t.cong.ssthresh + 3 * t.cong.smss);
        bytes_acked = 0;
        in_recovery = true;
      };
    } in
    tcp_rearm_rto_timer tick u

unfoldable pub tcp_exit_fast_recovery : TcpSock → TcpSock
tcp_exit_fast_recovery s = record s {
  cong = record (s.cong) {
    cwnd = s.cong.ssthresh;
    in_recovery = false;
    dupacks = 0;
    bytes_acked = 0;
  };
}

-- The three branches of tcp_handle_dupack, with the extra bytes that each allows.
unfoldable pub count_dupack : ℕ → TcpSock → TcpSock × ℕ
count_dupack tick s =
    let n = u8 (s.cong.dupacks + 1) in
    let t = record s { cong = record (s.cong) { dupacks = n } } in
    if ltb n 3
    then (t, u32 (n * s.cong.smss))
    else if n == 3
    then (tcp_enter_fast_recovery tick t, 0)
    else (record t { cong = record (t.cong) { cwnd = u32 (t.cong.cwnd + t.cong.smss) } }, 0)

unfoldable pub tcp_handle_dupack : ℕ → TcpSock → TcpSock
tcp_handle_dupack tick s =
    let (t, extra) = count_dupack tick s in
    let pending = skb_queue_len t.write_queue in
    if ltb 0 pending then tcp_send_next pending extra t else t

unfoldable pub update_snd_win : ℕ → TcpSock → TcpSock
update_snd_win win s = record s {
  tcb = record (s.tcb) { snd_wnd = u32 (win * 2 ^ s.options.snd_scale) };
}

-- ===== src/Tcp/Send.antt =====
-- src/tcp_output.c: the senders built on the queue: SYN, SYN-ACK, FIN, data, the retransmission of
-- the first hole, and tcp_connect.
pub mod Queued
pub mod Split
use level_ip.Prelude.{
  ℕ, zero, suc, ◌+◌, ◌/◌, Bool, true, false, not, ◌&&◌, List, [], ◌∷◌, ◌++◌, Option, none, some,
  u32, ltb, leb, ◌==◌, if◌then◌else◌, length, take, drop,
}
use level_ip.Skbuff.{skb_push, SkBuff, SkbQueue, skb_peek, skb_reset_header, Tcphdr}
use level_ip.Tcp.Sock.{State, syn_sent, syn_received, close, listen, TcpSock, Env, tcp_set_state}
use level_ip.Tcp.Rto.{tcp_rearm_user_timeout}
use level_ip.Tcp.Output.{
  min, overwrite, be16, tcp_alloc_skb, tcp_transmit_skb, tcp_queue_transmit_skb,
}

abbrev pub Queued : Type 0
Queued = Option (TcpSock × List TcpSock)

-- `tcb->snd_nxt++` after the queueing call has returned.
abbrev bump_snd_nxt : Queued → Queued
bump_snd_nxt none = none
bump_snd_nxt (some (s, ws)) =
    some (record s { tcb = record (s.tcb) { snd_nxt = u32 (s.tcb.snd_nxt + 1) } }, ws)

abbrev may_synack : State → Bool
may_synack syn_sent = true
may_synack syn_received = true
may_synack _ = false

abbrev pub synack_skb : TcpSock → SkBuff
synack_skb s =
    let skb = tcp_alloc_skb s.ipv6 4 0 in
    record skb { th = record (skb.th) { syn = true; ack = true; hl = 6 } }

unfoldable pub tcp_send_synack : ℕ → List TcpSock → TcpSock → Queued
tcp_send_synack tick wakes s =
    if may_synack s.state
    then bump_snd_nxt (tcp_queue_transmit_skb tick wakes (synack_skb s) s)
    else some (s, wakes)

-- tcp_syn_options and tcp_write_syn_options: MSS, and SACK-permitted behind two NOOPs.
unfoldable pub tcp_syn_options : TcpSock → ℕ
tcp_syn_options s = if s.options.sackok then 8 else 4

unfoldable pub tcp_write_syn_options : TcpSock → Tcphdr → Tcphdr
unfolding tcp_syn_options
tcp_write_syn_options s th =
    let mss = 2 ∷ 4 ∷ be16 s.options.rmss in
    record th {
      opts = overwrite (if s.options.sackok then mss ++ (1 ∷ 1 ∷ 4 ∷ 2 ∷ []) else mss) th.opts;
      hl = 5 + tcp_syn_options s / 4;
    }

abbrev may_syn : State → Bool
may_syn syn_sent = true
may_syn close = true
may_syn listen = true
may_syn _ = false

abbrev pub syn_skb : TcpSock → SkBuff
syn_skb s =
    let skb = tcp_alloc_skb s.ipv6 (tcp_syn_options s) 0 in
    record skb { th = record (tcp_write_syn_options s skb.th) { syn = true } }

unfoldable pub tcp_send_syn : ℕ → List TcpSock → TcpSock → Queued
unfolding tcp_write_syn_options
tcp_send_syn tick wakes s =
    if may_syn s.state
    then tcp_queue_transmit_skb tick wakes (syn_skb s) (tcp_set_state syn_sent s)
    else some (s, wakes)

abbrev pub fin_skb : TcpSock → SkBuff
fin_skb s =
    let skb = tcp_alloc_skb s.ipv6 0 0 in
    record skb { th = record (skb.th) { fin = true; ack = true } }

-- tcp_queue_fin.
unfoldable pub tcp_queue_fin : ℕ → List TcpSock → TcpSock → Queued
tcp_queue_fin tick wakes s = tcp_queue_transmit_skb tick wakes (fin_skb s) s

-- tcp_select_initial_window.
abbrev pub initial_window : ℕ
initial_window = 44477

-- tcp_connect up to the SYN: the sequence variables, and the window.
unfoldable pub init_connect : ℕ → TcpSock → TcpSock
init_connect iss s = record s {
  tcb = record (s.tcb) {
    iss = iss;
    snd_wnd = 0;
    snd_wl1 = 0;
    snd_una = iss;
    snd_up = iss;
    snd_nxt = iss;
    rcv_nxt = 0;
    rcv_wnd = initial_window;
    real_rcv_wnd = initial_window;
  };
}

unfoldable pub tcp_connect : Env → List TcpSock → TcpSock → Queued
unfolding init_connect tcp_send_syn
tcp_connect env wakes s = bump_snd_nxt (tcp_send_syn env.tick wakes (init_connect env.fresh_iss s))

-- One round of the loop of tcp_send: the next segment, PSH on the last.
abbrev pub data_skb : Bool → List ℕ → Bool → SkBuff
data_skb ipv6 bytes last =
    let skb = skb_push (tcp_alloc_skb ipv6 0 (length bytes)) (length bytes) in
    record skb { th = record (skb.th) { ack = true; psh = last }; body = bytes }

abbrev pub is_nil {ℓ} : {A : Type ℓ} → List A → Bool
is_nil [] = true
is_nil (x ∷ xs) = false

-- The segment sizes: `dlen = slen > mss ? mss : slen` is the length of `take mss buf`. The fuel is
-- the number of bytes left; with mss = 0 the source loops for ever, and the model runs out.
unfoldable pub send_loop : ℕ → ℕ → ℕ → List TcpSock → List ℕ → TcpSock → Queued
send_loop fuel tick mss wakes [] s = some (s, wakes)
send_loop zero tick mss wakes (b ∷ bs) s = none
send_loop (suc fuel) tick mss wakes (b ∷ bs) s =
    let seg = take mss (b ∷ bs) in
    let left = drop mss (b ∷ bs) in
    elim (tcp_queue_transmit_skb tick wakes (data_skb s.ipv6 seg (is_nil left)) s) [
      | none ↦ none
      | some (t, ws) ↦ send_loop fuel tick mss ws left t
    ]

-- `mss` is read once, before the loop.
unfoldable pub tcp_send : ℕ → List TcpSock → List ℕ → TcpSock → Queued
tcp_send tick wakes buf s = elim (send_loop (length buf) tick s.cong.smss wakes buf s) [
  | none ↦ none
  | some (t, ws) ↦ some (tcp_rearm_user_timeout tick t, ws)
]

-- The body of the loop of tcp_send_next, for a segment that fits or was sent before.
unfoldable pub send_one : SkBuff → TcpSock → SkBuff × TcpSock
unfolding tcp_transmit_skb
send_one next s =
    let t = tcp_transmit_skb (skb_reset_header next) s.tcb.snd_nxt s in
    let after = u32 (t.tcb.snd_nxt + next.dlen) in
    if not (next.seq == 0) then (next, s) else (
      record (skb_reset_header next) { seq = t.tcb.snd_nxt; end_seq = after },
      record t {
        tcb = record (t.tcb) { snd_nxt = if next.th.fin then u32 (after + 1) else after };
        cong = record (t.cong) { inflight = u32 (t.cong.inflight + next.dlen) };
      },
    )

unfoldable pub send_next_loop : ℕ → ℕ → SkbQueue → TcpSock → SkbQueue × TcpSock
send_next_loop amount wnd [] s = ([], s)
send_next_loop zero wnd (next ∷ q) s = (next ∷ q, s)
send_next_loop (suc amount) wnd (next ∷ q) s =
    let (next', t) = send_one next s in
    let rest = send_next_loop amount wnd q t in
    if (next.seq == 0) && ltb wnd (u32 (s.cong.inflight + next.dlen))
    then (next ∷ q, s)
    else (next' ∷ rest.0, rest.1)

unfoldable pub tcp_send_next : ℕ → ℕ → TcpSock → TcpSock
tcp_send_next amount extra s =
    let wnd = min (u32 (s.cong.cwnd + extra)) s.tcb.snd_wnd in
    let r = send_next_loop amount wnd s.write_queue s in record (r.1) { write_queue = r.0 }

unfoldable pub first_hole : ℕ → SkbQueue → Option SkBuff
first_hole right [] = none
first_hole right (skb ∷ q) =
    let rest = first_hole right q in
    if not skb.sacked && leb skb.end_seq right then some skb else rest

abbrev or_else {ℓ} : {A : Type ℓ} → Option A → Option A → Option A
or_else none b = b
or_else (some a) b = some a

unfoldable pub tcp_retransmit_candidate : TcpSock → Option SkBuff
unfolding first_hole
tcp_retransmit_candidate s =
    if ltb 0 s.options.sack_max_right
    then or_else (first_hole s.options.sack_max_right s.write_queue) (skb_peek s.write_queue)
    else skb_peek s.write_queue

unfoldable pub tcp_fast_retransmit : TcpSock → TcpSock
tcp_fast_retransmit s = elim (tcp_retransmit_candidate s) [
  | none ↦ s
  | some skb ↦ tcp_transmit_skb (skb_reset_header skb) skb.seq s
]

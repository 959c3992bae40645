-- ===== src/Tcp/Segment/Finish.antt =====
-- src/tcp_input.c: the end of tcp_input_state, from the segment text on, against the diagram of the
-- states.
use level_ip.Tcp.Segment.Graph.{
  here, one, Moves, Always-bind, reach, peer_fin, early_fin, both_fins, fin_and_ack, second_fin,
}
use level_ip.Prelude.{
  u8, u32, ◌+◌, ℕ, ◌≡◌, ◌∙◌, refl, sym, subst, Bool, true, arith, inl, inr, Bool-cases, ◌==◌, ◌&&◌,
  not,
}
use level_ip.Skbuff.{SkBuff, Tcphdr, skb_queue_empty, skb_queue_len}
use level_ip.Tcp.Sock.{
  State, syn_received, established, fin_wait_1, fin_wait_2, TcpSock, stop, Always, free_skb,
}
use level_ip.Tcp.Send.Queued.{rearm-kept}
use level_ip.Tcp.Frame.{free_skb-Untouched, tcp_send_ack-Untouched}
use level_ip.Tcp.Rto.{tcp_stop_delack_timer}
use level_ip.Tcp.Kept.{
  tcp_send_next-empty, stop_delack-queue, enter_time_wait-queue, tcp_data_queue-queue,
  stop_delack-state, tcp_data_queue-state, enter_time_wait-state, tcp_send_next-state,
}
use level_ip.Tcp.Segment.{
  tcp_send_next, process_text, check_fin, receive_fin, fin_state, delay_ack, poll_fin,
  not_synchronized, congestion_and_delack, process_segment,
}

-- From the text of the segment on: changes by the write queue, which is empty or not as before.
abbrev pub Goes : Bool → TcpSock → TcpSock → Type 0
Goes fin s t =
    Moves fin (skb_queue_empty s.write_queue) s.state t.state
    × (skb_queue_empty t.write_queue ≡ skb_queue_empty s.write_queue)

-- Behind or before a step that leaves the state and the write queue's emptiness alone.
abbrev Stays : TcpSock → TcpSock → Type 0
Stays s t = (t.state ≡ s.state) × (skb_queue_empty t.write_queue ≡ skb_queue_empty s.write_queue)

Stays-Goes : {fin : Bool} (s t u : TcpSock) → Stays s t → Goes fin t u → Goes fin s u
Stays-Goes {fin} s t u (e, q) (p, k) = (
  subst (λ x. Moves fin x s.state u.state) q
      (subst (λ x. Moves fin (skb_queue_empty t.write_queue) x u.state) e p),
  k ∙ q,
)

Goes-Stays : {fin : Bool} (s t u : TcpSock) → Goes fin s t → Stays t u → Goes fin s u
Goes-Stays s t u (p, k) (e, q) = (reach e p, q ∙ k)

process_text-Stays : (th : Tcphdr) (skb : SkBuff) (s : TcpSock) → Stays s (process_text th skb s).1
unfolding process_text
process_text-Stays th skb s = ground (arith, tcp_data_queue-state skb s, tcp_data_queue-queue skb s)

receive_fin-Stays : (s : TcpSock) → Stays s (receive_fin s)
unfolding receive_fin
receive_fin-Stays s =
    let t = record s {
      tcb = record (s.tcb) { rcv_nxt = u32 (s.tcb.rcv_nxt + 1) };
      flag_fin = true;
      poll = poll_fin s.poll;
    } in
    ground (arith, tcp_send_ack-Untouched t)

free_skb-Stays : (skb : SkBuff) (s : TcpSock) → Stays s (free_skb skb s)
free_skb-Stays skb s = ground (arith, free_skb-Untouched skb s)

fin_state-Moves :
    (fin : Bool) (st : State) (tick : ℕ) (s : TcpSock)
    → fin ≡ true
    → s.state ≡ st
    → Moves fin (skb_queue_empty s.write_queue) st (fin_state st tick s).state
unfolding fin_state
fin_state-Moves fin syn_received tick s f e = one (early_fin f)
fin_state-Moves fin established tick s f e = one (peer_fin f)
fin_state-Moves fin fin_wait_1 tick s f e = elim (Bool-cases (skb_queue_empty s.write_queue)) [
  | inl q ↦ rw q (reach (enter_time_wait-state tick s) (one (fin_and_ack f refl)))
  | inr q ↦ rw q (one (both_fins f refl))
]
fin_state-Moves fin fin_wait_2 tick s f e =
    reach (enter_time_wait-state tick s) (one (second_fin f))
fin_state-Moves fin _ tick s f e = reach e here

fin_state-empty :
    (st : State) (tick : ℕ) (s : TcpSock)
    → skb_queue_empty (fin_state st tick s).write_queue ≡ skb_queue_empty s.write_queue
unfolding fin_state
fin_state-empty fin_wait_1 tick s = ground (arith, enter_time_wait-queue tick s)
fin_state-empty fin_wait_2 tick s = ground (arith, enter_time_wait-queue tick s)
fin_state-empty _ tick s = refl

check_fin-Goes :
    (tick : ℕ) (th : Tcphdr) (expected : Bool) (skb : SkBuff) (s : TcpSock)
    → Always (Goes th.fin s) (check_fin tick th expected skb s)
unfolding check_fin
check_fin-Goes tick th expected skb s = elim (Bool-cases (not (th.fin && expected))) [
  | inl n ↦ rw n (here, refl)
  | inr f ↦ elim (Bool-cases (not_synchronized s.state)) [
    | inl n ↦ rw (f, n) (Goes-Stays s s (free_skb skb s) (here, refl) (free_skb-Stays skb s))
    | inr y ↦
        let t = receive_fin s in
        let is_fin : th.fin ≡ true = ground arith in
        rw (f, y)
          (Stays-Goes s t (fin_state s.state tick t) (receive_fin-Stays s) (
            subst
                (λ x.
                  Moves th.fin (skb_queue_empty t.write_queue) x (fin_state s.state tick t).state)
                (sym (receive_fin-Stays s).0)
                (fin_state-Moves th.fin s.state tick t is_fin (receive_fin-Stays s).0),
            fin_state-empty s.state tick t,
          ))
  ]
]

delay_ack-Stays :
    (tick : ℕ) (th : Tcphdr) (skb : SkBuff) (s : TcpSock) → Stays s (delay_ack tick th skb s)
unfolding delay_ack
delay_ack-Stays tick th skb s =
    let more = record s { delacks = u8 (s.delacks + 1) } in
    ground (
      arith,
      tcp_send_ack-Untouched (record s { delacks = 0 }),
      tcp_send_ack-Untouched (record more { delacks = 0 }),
    )

congestion-Stays :
    (tick : ℕ) (th : Tcphdr) (expected : Bool) (skb : SkBuff) (s : TcpSock)
    → Stays s (congestion_and_delack tick th expected skb s)
unfolding congestion_and_delack
congestion-Stays tick th expected skb s =
    let t = tcp_stop_delack_timer s in
    let n = skb_queue_len t.write_queue in
    ground (
      arith,
      stop_delack-state s,
      stop_delack-queue s,
      tcp_send_next-state n 0 t,
      tcp_send_next-empty n 0 t,
      rearm-kept tick (tcp_send_next n 0 t),
      delay_ack-Stays tick th skb t,
    )

pub process_segment-Goes :
    (tick : ℕ) (th : Tcphdr) (skb : SkBuff) (s : TcpSock)
    → Always (Goes th.fin s) (process_segment tick th skb s)
unfolding process_segment
process_segment-Goes tick th skb s =
    let expected = skb.seq == s.tcb.rcv_nxt in
    let (skb', t) = process_text th skb s in
    Always-bind (Goes th.fin t) (Goes th.fin s) (check_fin tick th expected skb' t)
      (λ u. stop (free_skb skb' (congestion_and_delack tick th expected skb' u)))
      (check_fin-Goes tick th expected skb' t) (λ u. Stays-Goes s t u (process_text-Stays th skb s))
      (λ u p.
        let v = congestion_and_delack tick th expected skb' u in
        Stays-Goes s t (free_skb skb' v) (process_text-Stays th skb s) (
          Goes-Stays t v (free_skb skb' v)
            (Goes-Stays t u v p (congestion-Stays tick th expected skb' u))
            (free_skb-Stays skb' v)))

-- ===== src/Tcp/Segment/Diagram.antt =====
-- src/tcp_input.c: the "Otherwise" section of tcp_input_state against the diagram of the states.
use level_ip.Tcp.Segment.Graph.{
  here, then, one, Moves, Early, Late, Moves-trans, Always-bind, reach, handshake, fin_acknowledged,
  closing_acked, last_acked,
}
use level_ip.Tcp.Segment.Finish.{Goes, process_segment-Goes}
use level_ip.Prelude.{
  ℕ, ◌≡◌, ◌∙◌, refl, sym, subst, Bool, true, false, arith, inl, inr, Bool-cases, ◌==◌,
}
use level_ip.Skbuff.{SkBuff, Tcphdr, skb_queue_empty}
use level_ip.Tcp.Sock.{
  State, syn_received, fin_wait_1, closing, last_ack, time_wait, TcpSock, Flow, stop, go, Always,
  free_skb,
}
use level_ip.Tcp.Frame.{free_skb-Untouched, tcp_send_ack-Untouched}
use level_ip.Tcp.Congestion.{tcp_handle_dupack, update_snd_win}
use level_ip.Tcp.Kept.{
  tcp_done-queue, tcp_handle_dupack-state, tcp_data_queue-state, tcp_done-state,
}
use level_ip.Tcp.Segment.{
  tcp_send_ack, check_sequence, check_rst, check_syn, check_ack, accept_syn_received, ack_switch,
  process_ack, check_write_queue, process_text, otherwise, advance_una, fin_acked,
  add_tsk_to_parent, is_syn_received, is_new_ack,
}
use level_ip.Tcp.Segment.Ack.{advance_una-Advances}

-- A step that leaves the state alone.
abbrev Same : TcpSock → Flow → Type 0
Same s = Always (λ t. t.state ≡ s.state)

Same-Early :
    (fin : Bool) (st : State) (s : TcpSock) (m : Flow)
    → Early fin st s
    → Same s m
    → Always (Early fin st) m
Same-Early fin st s (stop t) p e = λ acked. reach e (p acked)
Same-Early fin st s (go t) p e = λ acked. reach e (p acked)
Same-Early fin st s Flow.asleep p e = e

module _ (th : Tcphdr) (skb : SkBuff) (s : TcpSock) where
  sequence-Same : Same s (check_sequence th skb s)
  unfolding check_sequence
  sequence-Same = ground (
    arith,
    tcp_send_ack-Untouched s,
    free_skb-Untouched skb s,
    free_skb-Untouched skb (tcp_send_ack s),
  )

  syn-Same : Same s (check_syn th skb s)
  unfolding check_syn
  syn-Same = ground (arith, free_skb-Untouched skb s)

  ack-Same : Same s (check_ack th skb s)
  unfolding check_ack
  ack-Same = ground (arith, free_skb-Untouched skb s)

  process_ack-Same : (tick : ℕ) → Same s (process_ack tick th skb s)
  unfolding process_ack update_snd_win
  process_ack-Same tick =
      let a = advance_una tick th s in
      ground
        (arith, advance_una-Advances tick th s, free_skb-Untouched skb a, free_skb-Untouched skb s)

  ack_switch-Same : (tick : ℕ) → Same s (ack_switch tick th skb s)
  unfolding ack_switch
  ack_switch-Same tick =
      let d = tcp_handle_dupack tick s in
      ground (
        arith,
        process_ack-Same tick,
        tcp_handle_dupack-state tick s,
        free_skb-Untouched skb (record d { cong = record (d.cong) { last_ack_win = th.win } }),
      )

  process_text-state : (process_text th skb s).1.state ≡ s.state
  unfolding process_text
  process_text-state = ground (arith, tcp_data_queue-state skb s)

was_syn_received : (st : State) → is_syn_received st ≡ true → st ≡ syn_received
was_syn_received st h = ground arith

accept-Early :
    (th : Tcphdr) (skb : SkBuff) (st : State) (s : TcpSock)
    → Early th.fin st s
    → Always (Early th.fin st) (accept_syn_received th skb s)
unfolding accept_syn_received add_tsk_to_parent
accept-Early th skb st s p = elim (Bool-cases (is_syn_received s.state)) [
  | inr n ↦ rw (n, accept_syn_received) p
  | inl y ↦ elim (Bool-cases (is_new_ack th s)) [
    | inl a ↦
        rw (y, accept_syn_received, a)
          (λ acked. then (reach (sym (was_syn_received s.state y)) (p acked)) handshake)
    | inr a ↦
        rw (y, accept_syn_received, a)
          (λ acked. reach ((free_skb-Untouched skb s).state_kept) (p acked))
  ]
]

-- Behind changes that do not depend on the write queue.
Late-trans :
    (fin : Bool) (st : State) (s : TcpSock) (m : Flow)
    → Early fin st s
    → Always (Late fin s.state) m
    → Always (Late fin st) m
Late-trans fin st s (stop t) p q = Moves-trans (p (skb_queue_empty t.write_queue)) q
Late-trans fin st s (go t) p q = Moves-trans (p (skb_queue_empty t.write_queue)) q
Late-trans fin st s Flow.asleep p q = q

-- By cases on the state that the `switch` sees.
fin_acked-Late :
    (fin : Bool) (st : State) (th : Tcphdr) (skb : SkBuff) (s : TcpSock)
    → s.state ≡ st
    → skb_queue_empty s.write_queue ≡ true
    → Always (Late fin st) (fin_acked st th skb s)
unfolding fin_acked
fin_acked-Late fin fin_wait_1 th skb s e q = one (fin_acknowledged q)
fin_acked-Late fin closing th skb s e q = one (closing_acked q)
fin_acked-Late fin last_ack th skb s e q =
    let t = free_skb skb s in
    let kept = tcp_done-queue t ∙ (free_skb-Untouched skb s).write_kept in
    reach (tcp_done-state t) (one (last_acked (subst (λ x. skb_queue_empty x ≡ true) (sym kept) q)))
fin_acked-Late fin time_wait th skb s e q =
    let t = record s { flag_fin = true } in
    elim (Bool-cases (s.tcb.rcv_nxt == th.seq)) [
      | inl y ↦ rw y (reach ((tcp_send_ack-Untouched t).state_kept ∙ e) here)
      | inr n ↦ rw n (reach e here)
    ]
fin_acked-Late fin _ th skb s e q = reach e here

check_write_queue-Late :
    (th : Tcphdr) (skb : SkBuff) (st : State) (s : TcpSock)
    → Early th.fin st s
    → Always (Late th.fin st) (check_write_queue th skb s)
unfolding check_write_queue
check_write_queue-Late th skb st s p = elim (Bool-cases (skb_queue_empty s.write_queue)) [
  | inl e ↦ rw e (
      Late-trans th.fin st s (fin_acked s.state th skb s) p
        (fin_acked-Late th.fin s.state th skb s refl e))
  | inr e ↦ rw e (p (skb_queue_empty s.write_queue))
]

-- The last part of the handler behind the others.
after :
    (fin : Bool) (st : State) (s : TcpSock) (m : Flow)
    → Late fin st s
    → Always (Goes fin s) m
    → Always (Late fin st) m
after fin st s (stop t) p (q, k) = subst (λ x. Moves fin x st t.state) (sym k) (Moves-trans p q)
after fin st s (go t) p (q, k) = subst (λ x. Moves fin x st t.state) (sym k) (Moves-trans p q)
after fin st s Flow.asleep p q = q

rst-off :
    (tick : ℕ) (th : Tcphdr) (skb : SkBuff) (s : TcpSock)
    → th.rst ≡ false
    → check_rst tick th skb s ≡ go s
unfolding check_rst
rst-off tick th skb s e = rw e

-- A segment without RST that reaches a socket past SYN-SENT is handled without sleeping, and
-- changes the state by these changes, in any number and in no other way. With a FIN in the segment:
-- SYN-RECEIVED or ESTABLISHED to CLOSE-WAIT, FIN-WAIT-2 to TIME-WAIT, and FIN-WAIT-1 to TIME-WAIT
-- when the write queue is empty behind the segment, else to CLOSING. With the write queue empty:
-- FIN-WAIT-1 to FIN-WAIT-2, CLOSING to TIME-WAIT, and LAST-ACK to CLOSING, where the comment in the
-- source has CLOSED. And SYN-RECEIVED to ESTABLISHED.
pub otherwise-Moves :
    (tick : ℕ) (th : Tcphdr) (skb : SkBuff) (s : TcpSock)
    → th.rst ≡ false
    → Always
        (λ t. Moves th.fin (skb_queue_empty t.write_queue) s.state t.state)
        (otherwise tick th skb s)
unfolding otherwise
otherwise-Moves tick th skb s r =
    let E = Early th.fin s.state in
    let L = Late th.fin s.state in
    let now : (t : TcpSock) → E t → L t = λ t p. p (skb_queue_empty t.write_queue) in
    Always-bind E L (check_sequence th skb s) _
      (Same-Early _ _ s _ (λ acked. here) (sequence-Same th skb s)) now
      λ a pa.
        Always-bind E L (check_rst tick th skb a) _ (rw (rst-off tick th skb a r) pa) now λ b pb.
          Always-bind E L (check_syn th skb b) _ (Same-Early _ _ b _ pb (syn-Same th skb b)) now
            λ c pc.
              Always-bind E L (check_ack th skb c) _ (Same-Early _ _ c _ pc (ack-Same th skb c)) now
                λ d pd.
                  Always-bind E L (accept_syn_received th skb d) _
                    (accept-Early th skb s.state d pd) now
                    λ e pe.
                      Always-bind E L (ack_switch tick th skb e) _
                        (Same-Early _ _ e _ pe (ack_switch-Same th skb e tick)) now
                        λ f pf.
                          Always-bind L L (check_write_queue th skb f) _
                            (check_write_queue-Late th skb s.state f pf) (λ t p. p)
                            λ g pg. after _ _ g _ pg (process_segment-Goes tick th skb g)

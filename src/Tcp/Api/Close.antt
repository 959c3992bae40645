-- ===== src/Tcp/Api/Close.antt =====
-- src/tcp.c: tcp_close, by the state of the connection.
use level_ip.Tcp.Rto.{tcp_stop_rto_timer}
use level_ip.Tcp.Congestion.{is_acked, clean_loop, stop_when_acked, tcp_clean_rto_queue}
use level_ip.Skbuff.{SkBuff}
use level_ip.Tcp.Send.Queued.{queue_transmit_open, queue_and_send-SendsFin}
use level_ip.Tcp.Send.{tcp_queue_fin, fin_skb}
use level_ip.Tcp.Output.{queue_and_send, send_window_shut}
use level_ip.Tcp.Api.{close_in, tcp_close, returns}
use level_ip.Prelude.{
  ◌<◌, refl, sym, ap, subst, true, arith, ◌∙◌, pos, u32, ℕ, ◌+◌, ◌≡◌, false, Option, none, some,
  List, [], ◌∷◌, ◌++◌,
}
use level_ip.Tcp.Sock.{tcp_set_state, State, established, fin_wait_1, close_wait, last_ack, TcpSock}

-- The states in which a close sends a FIN, and those that it leads to.
abbrev pub active_close : State → Option State
active_close established = some fin_wait_1
active_close close_wait = some last_ack
active_close _ = none

-- What an answered close has done: the FIN, numbered snd_nxt, is the last of the write queue.
pub record Closes (st : State) (s t : TcpSock) : Type 0 where
  pub state_new : t.state ≡ st
  pub queue_new :
      t.write_queue
      ≡ s.write_queue
        ++ record (fin_skb s) { seq = s.tcb.snd_nxt; end_seq = u32 s.tcb.snd_nxt } ∷ []
  pub nxt_new : t.tcb.snd_nxt ≡ u32 (u32 s.tcb.snd_nxt + 1)
  pub una_kept : t.tcb.snd_una ≡ s.tcb.snd_una
  pub receive_kept : t.receive_queue ≡ s.receive_queue

queue_fin_open :
    (tick : ℕ) (wakes : List TcpSock) (s : TcpSock)
    → send_window_shut 0 s ≡ false
    → tcp_queue_fin tick wakes s ≡ some (queue_and_send tick (fin_skb s) s, wakes)
unfolding tcp_queue_fin
queue_fin_open tick wakes s w = queue_transmit_open tick wakes (fin_skb s) s w

shut-set_state :
    (st : State) (s : TcpSock)
    → send_window_shut 0 s ≡ false
    → send_window_shut 0 (tcp_set_state st s) ≡ false
unfolding send_window_shut
shut-set_state st s w = w

close_in-Closes :
    (from st : State) (tick : ℕ) (wakes : List TcpSock) (s : TcpSock)
    → active_close from ≡ some st
    → send_window_shut 0 s ≡ false
    → (t : TcpSock) × (close_in from tick wakes s ≡ returns (pos 0) t) × Closes st s t
unfolding close_in
close_in-Closes established st tick wakes s e w =
    let r = tcp_set_state fin_wait_1 s in
    let q = queue_and_send-SendsFin tick r in
    (
      queue_and_send tick (fin_skb r) r,
      rw (queue_fin_open tick wakes r (shut-set_state fin_wait_1 s w), close_in),
      record {
        state_new = q.state_kept ∙ cc;
        queue_new = q.queue_new;
        nxt_new = q.nxt_new;
        una_kept = q.una_kept;
        receive_kept = q.receive_kept;
      },
    )
close_in-Closes close_wait st tick wakes s e w =
    let q = queue_and_send-SendsFin tick s in
    (
      tcp_set_state last_ack (queue_and_send tick (fin_skb s) s),
      rw (queue_fin_open tick wakes s w, close_in),
      record {
        state_new = cc;
        queue_new = q.queue_new;
        nxt_new = q.nxt_new;
        una_kept = q.una_kept;
        receive_kept = q.receive_kept;
      },
    )
close_in-Closes _ st tick wakes s e w = absurd cc

-- Closing an established connection, and one that the peer has closed, with the send window open:
-- the call answers 0 without sleeping, enters FIN-WAIT-1 or LAST-ACK, and a FIN with the next
-- number stands behind all data of the write queue, to which snd_nxt adds one; the receive queue
-- stays as it was.
pub tcp_close-Closes :
    (st : State) (tick : ℕ) (wakes : List TcpSock) (s : TcpSock)
    → active_close s.state ≡ some st
    → send_window_shut 0 s ≡ false
    → (t : TcpSock) × (tcp_close tick wakes s ≡ returns (pos 0) t) × Closes st s t
unfolding tcp_close
tcp_close-Closes st tick wakes s e w = close_in-Closes s.state st tick wakes s e w

stop-queue : (s : TcpSock) → (stop_when_acked s).write_queue ≡ s.write_queue
unfolding stop_when_acked tcp_stop_rto_timer
stop-queue s = ground arith

clean_last :
    (una : ℕ) (skb : SkBuff) (s : TcpSock)
    → s.write_queue ≡ skb ∷ []
    → is_acked una skb ≡ true
    → (tcp_clean_rto_queue una s).write_queue ≡ []
unfolding tcp_clean_rto_queue clean_loop
clean_last una skb s e a =
    stop-queue (record ((clean_loop una s.write_queue s).1) {
      write_queue = (clean_loop una s.write_queue s).0;
    })
    ∙ subst (λ q. (clean_loop una q s).0 ≡ []) (sym e) (rw a refl)

fin_covered :
    (s : TcpSock)
    → 0 < s.tcb.snd_nxt
    → s.tcb.snd_nxt + 1 < 4294967296
    → is_acked s.tcb.snd_nxt
        (record (fin_skb s) { seq = s.tcb.snd_nxt; end_seq = u32 s.tcb.snd_nxt })
      ≡ true
unfolding is_acked
fin_covered s p n = ground arith

-- After a close with nothing else in the write queue, an acknowledgement of snd_nxt as it was before
-- the close already empties the queue, though it does not cover the FIN, whose number that is: a
-- FIN has end_seq = seq.
pub tcp_close_early :
    (tick : ℕ) (wakes : List TcpSock) (s : TcpSock)
    → s.state ≡ established
    → s.write_queue ≡ []
    → 0 < s.tcb.snd_nxt
    → s.tcb.snd_nxt + 1 < 4294967296
    → send_window_shut 0 s ≡ false
    → (t : TcpSock) × (tcp_close tick wakes s ≡ returns (pos 0) t)
      × ((tcp_clean_rto_queue s.tcb.snd_nxt t).write_queue ≡ [])
      × (t.tcb.snd_nxt ≡ s.tcb.snd_nxt + 1)
tcp_close_early tick wakes s e q p n w =
    let (t, c, k) = tcp_close-Closes fin_wait_1 tick wakes s (rw e refl) w in
    let fin = record (fin_skb s) { seq = s.tcb.snd_nxt; end_seq = u32 s.tcb.snd_nxt } in
    (
      t,
      c,
      clean_last s.tcb.snd_nxt fin t (k.queue_new ∙ ap (λ x. x ++ fin ∷ []) q) (fin_covered s p n),
      omega (arith, k.nxt_new),
    )

-- ===== src/Tcp/Segment/Refused.antt =====
-- src/tcp_input.c: the segments that tcp_input_state turns away before it looks at the acknowledgement.
use level_ip.Tcp.Rto.{tcp_enter_time_wait}
use level_ip.Tcp.Segment.{tcp_verify_segment, check_sequence, check_rst, otherwise}
use level_ip.Tcp.Frame.{free_skb-Untouched}
use level_ip.Skbuff.{Tcphdr, SkBuff}
use level_ip.Prelude.{arith, u32, ℕ, ◌+◌, ◌≡◌, true, none, some}
use level_ip.Tcp.Sock.{free_skb, Always, time_wait, TcpSock}

record Closed (tick : ℕ) (s t : TcpSock) : Type 0 where
  state_new : t.state ≡ time_wait
  err_kept : t.err ≡ s.err
  receive_kept : t.receive_queue ≡ s.receive_queue
  write_kept : t.write_queue ≡ s.write_queue
  retransmit_off : t.timers.retransmit ≡ none
  delack_off : t.timers.delack ≡ none
  linger_on :
      t.timers.linger ≡ some (record { id = s.timers.next_id; expires = u32 (tick + 60000) })

enter_time_wait-Closed : (tick : ℕ) (s : TcpSock) → Closed tick s (tcp_enter_time_wait tick s)
unfolding tcp_enter_time_wait
enter_time_wait-Closed tick s = ground arith

-- An acceptable segment with RST puts every connection into TIME-WAIT, for 2 MSL, with its timers
-- off: it reports no error, and the receive and write queues stay.
pub otherwise_reset :
    (tick : ℕ) (th : Tcphdr) (skb : SkBuff) (s : TcpSock)
    → tcp_verify_segment th skb s ≡ true
    → th.rst ≡ true
    → Always
        (λ t.
          (t.state ≡ time_wait)
          × (t.err ≡ s.err)
          × (t.receive_queue ≡ s.receive_queue)
          × (t.write_queue ≡ s.write_queue)
          × (t.timers.retransmit ≡ none)
          × (t.timers.delack ≡ none)
          × (t.timers.linger
              ≡ some (record { id = s.timers.next_id; expires = u32 (tick + 60000) })))
        (otherwise tick th skb s)
unfolding otherwise check_sequence check_rst
otherwise_reset tick th skb s v r =
    rw (v, r)
      (ground (arith, enter_time_wait-Closed tick (free_skb skb s), free_skb-Untouched skb s))

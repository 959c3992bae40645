-- ===== src/Tcp/Api.antt =====
-- src/tcp.c and src/tcp_input.c: what the socket layer calls: listen, close, read and write.
pub mod Close
use level_ip.Prelude.{
  ℕ, ◌+◌, ◌-◌, Bool, true, false, not, ◌&&◌, ◌||◌, List, [], ◌∷◌, ◌++◌, none, some, ltb, ◌==◌,
  if◌then◌else◌, ℤ, pos, negsuc, neg, ebadf, eagain, eopnotsupp, length,
}
use level_ip.Skbuff.{skb_queue_empty}
use level_ip.Tcp.Sock.{
  State, listen, syn_sent, syn_received, established, fin_wait_1, close, close_wait, closing,
  last_ack, time_wait, TcpSock, tcp_set_state,
}
use level_ip.Tcp.Rto.{tcp_rearm_user_timeout}
use level_ip.Tcp.Send.{Queued, tcp_send, tcp_queue_fin}
use level_ip.Tcp.Data.{tcp_data_dequeue}
use level_ip.Tcp.Done.{tcp_done}

-- What a call returns to its caller; `asleep` is a call that has not returned yet.
pub data Answer : Type 0 where
  returns : ℤ → TcpSock → Answer
  asleep : Answer

abbrev is_close : State → Bool
is_close close = true
is_close _ = false

-- tcp_v4_listen; the queue of established connections starts empty.
unfoldable pub tcp_listen : TcpSock → Answer
tcp_listen s =
    if is_close s.state
    then returns (pos 0) (tcp_set_state listen s)
    else returns (pos eopnotsupp) s

-- The answer of tcp_close once the FIN is queued; LAST-ACK is entered after the queueing.
abbrev closed_by : State → Queued → Answer
closed_by st none = asleep
closed_by st (some (s, ws)) = returns (pos 0) (tcp_set_state st s)

unfoldable pub close_in : State → ℕ → List TcpSock → TcpSock → Answer
close_in listen tick wakes s = returns (pos 0) (tcp_done s)
close_in syn_sent tick wakes s = returns (pos 0) (tcp_done s)
close_in syn_received tick wakes s = returns (pos 0) (tcp_done s)
close_in established tick wakes s = elim (tcp_queue_fin tick wakes (tcp_set_state fin_wait_1 s)) [
  | none ↦ asleep
  | some (t, ws) ↦ returns (pos 0) t
]
close_in close_wait tick wakes s = closed_by last_ack (tcp_queue_fin tick wakes s)
close_in _ tick wakes s = returns (negsuc 0) (record s { err = neg ebadf })

unfoldable pub tcp_close : ℕ → List TcpSock → TcpSock → Answer
unfolding close_in
tcp_close tick wakes s = close_in s.state tick wakes s

abbrev may_write : State → Bool
may_write established = true
may_write close_wait = true
may_write _ = false

abbrev is_zero : ℤ → Bool
is_zero (pos n) = n == 0
is_zero (negsuc n) = false

unfoldable pub tcp_write : ℕ → List TcpSock → List ℕ → TcpSock → Answer
tcp_write tick wakes buf s =
    if not (is_zero s.err)
    then returns s.err s
    else if not (may_write s.state)
    then returns (neg ebadf) s
    else elim (tcp_send tick wakes buf s) [
      | none ↦ asleep
      | some (t, ws) ↦ returns (pos (length buf)) t
    ]

-- What a read has returned: the number, the bytes in the caller's buffer, the socket.
pub data ReadAnswer : Type 0 where
  got : ℤ → List ℕ → TcpSock → ReadAnswer
  sleeping : ReadAnswer

abbrev rearmed : ℕ → ReadAnswer → ReadAnswer
rearmed tick (got (pos n) out s) = got (pos n) out (tcp_rearm_user_timeout tick s)
rearmed tick a = a

-- The loop of tcp_receive. Each element of `wakes` is the socket as the reader finds it after one
-- wake-up; `rlen` bytes, `out`, are in the buffer already.
unfoldable pub receive_loop : ℕ → List TcpSock → ℕ → List ℕ → TcpSock → ReadAnswer
receive_loop len [] rlen out s =
    let d = tcp_data_dequeue (len - rlen) s in
    let n = rlen + d.rlen in
    let bytes = out ++ d.out in
    if not (ltb rlen len)
    then got (pos rlen) out s
    else if d.sock.flag_psh
    then got (pos n) bytes (record (d.sock) { flag_psh = false })
    else if d.sock.flag_fin || (n == len)
    then got (pos n) bytes d.sock
    else if d.sock.nonblock
    then if n == 0 then got (neg eagain) bytes d.sock else got (pos n) bytes d.sock
    else sleeping
receive_loop len (w ∷ ws) rlen out s =
    let d = tcp_data_dequeue (len - rlen) s in
    let n = rlen + d.rlen in
    let bytes = out ++ d.out in
    let rest = receive_loop len ws n bytes w in
    if not (ltb rlen len)
    then got (pos rlen) out s
    else if d.sock.flag_psh
    then got (pos n) bytes (record (d.sock) { flag_psh = false })
    else if d.sock.flag_fin || (n == len)
    then got (pos n) bytes d.sock
    else if d.sock.nonblock
    then if n == 0 then got (neg eagain) bytes d.sock else got (pos n) bytes d.sock
    else rest

unfoldable pub tcp_receive : ℕ → List TcpSock → ℕ → TcpSock → ReadAnswer
tcp_receive tick wakes len s = rearmed tick (receive_loop len wakes 0 [] s)

-- The `switch` of tcp_read.
unfoldable pub read_in : State → ℕ → List TcpSock → ℕ → TcpSock → ReadAnswer
read_in close tick wakes len s = got (neg ebadf) [] s
read_in close_wait tick wakes len s =
    if skb_queue_empty s.receive_queue && s.flag_fin
    then got (pos 0) [] (record s { flag_fin = false })
    else tcp_receive tick wakes len s
read_in closing tick wakes len s = got s.err [] s
read_in last_ack tick wakes len s = got s.err [] s
read_in time_wait tick wakes len s = got s.err [] s
read_in _ tick wakes len s = tcp_receive tick wakes len s

unfoldable pub tcp_read : ℕ → List TcpSock → ℕ → TcpSock → ReadAnswer
unfolding read_in
tcp_read tick wakes len s = read_in s.state tick wakes len s

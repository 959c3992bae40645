-- ===== src/Tcp/Segment/Graph.antt =====
-- include/tcp.h: the connection states, and the changes of state that a segment can bring about.
use level_ip.Prelude.{Bool, true, false, ◌≡◌, sym, subst}
use level_ip.Skbuff.{skb_queue_empty}
use level_ip.Tcp.Sock.{
  TcpSock, Flow, ◌>>=◌, Always, syn_received, established, fin_wait_1, fin_wait_2, close_wait,
  closing, last_ack, time_wait, stop, go, State,
}

-- The changes of RFC 793, each with what it takes: `fin`, that the segment has a FIN, and `acked`,
-- that nothing that was sent waits for an acknowledgement any more. The acknowledgement of the last
-- FIN leads to CLOSING in place of CLOSED.
pub data Move (fin acked : Bool) : State → State → Type 0 where
  handshake : Move fin acked syn_received established
  fin_acknowledged : acked ≡ true → Move fin acked fin_wait_1 fin_wait_2
  closing_acked : acked ≡ true → Move fin acked closing time_wait
  last_acked : acked ≡ true → Move fin acked last_ack closing
  peer_fin : fin ≡ true → Move fin acked established close_wait
  early_fin : fin ≡ true → Move fin acked syn_received close_wait
  both_fins : fin ≡ true → acked ≡ false → Move fin acked fin_wait_1 closing
  fin_and_ack : fin ≡ true → acked ≡ true → Move fin acked fin_wait_1 time_wait
  second_fin : fin ≡ true → Move fin acked fin_wait_2 time_wait

-- Some changes, one after the other.
pub data Moves (fin acked : Bool) (s : State) : State → Type 0 where
  here : Moves fin acked s s
  then : {t u : State} → Moves fin acked s t → Move fin acked t u → Moves fin acked s u

pub Moves-trans :
    {fin acked : Bool} {s t u : State}
    → Moves fin acked s t
    → Moves fin acked t u
    → Moves fin acked s u
Moves-trans p here = p
Moves-trans p (then q e) = then (Moves-trans p q) e

pub reach :
    {fin acked : Bool} {st a b : State} → b ≡ a → Moves fin acked st a → Moves fin acked st b
reach {fin} {acked} {st} e p = subst (λ x. Moves fin acked st x) (sym e) p

pub one : {fin acked : Bool} {s t : State} → Move fin acked s t → Moves fin acked s t
one e = then here e

-- Before the write queue is looked at: changes that do not depend on it.
abbrev pub Early : Bool → State → TcpSock → Type 0
Early fin st t = (acked : Bool) → Moves fin acked st t.state

-- Changes by the write queue as it is now.
abbrev pub Late : Bool → State → TcpSock → Type 0
Late fin st t = Moves fin (skb_queue_empty t.write_queue) st t.state

pub Always-bind :
    (P Q : TcpSock → Type 0) (m : Flow) (f : TcpSock → Flow)
    → Always P m
    → ((t : TcpSock) → P t → Q t)
    → ((t : TcpSock) → P t → Always Q (f t))
    → Always Q (m >>= f)
Always-bind P Q (stop s) f h i k = i s h
Always-bind P Q (go s) f h i k = k s h
Always-bind P Q Flow.asleep f h i k = h

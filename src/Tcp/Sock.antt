-- ===== src/Tcp/Sock.antt =====
-- include/tcp.h, include/sock.h: the state of one TCP socket (struct tcp_sock with the struct sock
-- and struct tcb inside it), and the calls that leave the TCP code, as a log of effects.
use level_ip.Prelude.{ℕ, Bool, true, false, List, ◌∷◌, Option, ℤ}
use level_ip.Skbuff.{SkBuff, SkbQueue, Tcphdr, is_freed}

pub data State : Type 0 where
  listen syn_sent syn_received established fin_wait_1 fin_wait_2 close close_wait closing last_ack
        time_wait :
      State

-- The callbacks that TCP hands to the timer thread; `epoch` is that of struct rto_timer_arg.
pub data Handler : Type 0 where
  connect_rto : ℕ → Handler
  retransmission_timeout : ℕ → Handler
  send_delack linger_timeout user_timeout : Handler

-- A pointer to a struct timer: which one, and the one field that TCP reads.
pub record TimerHandle : Type 0 where
  pub id : ℕ
  pub expires : ℕ

-- Calls into the other parts of the stack.
pub data Effect : Type 0 where
  transmit : Tcphdr → ℕ → List ℕ → Effect
  freed : SkBuff → Effect
  timer_added : TimerHandle → Handler → Effect
  timer_cancelled timer_released : ℕ → Effect
  wake_recv wake_write wake_sleep wake_accept : Effect
  conn_queued : Effect
  socket_connected socket_deleted : Effect

pub record SackBlock : Type 0 where
  pub left : ℕ
  pub right : ℕ

-- The bits of sk->poll_events.
pub record PollEvents : Type 0 where
  pub pollin : Bool
  pub pollpri : Bool
  pub pollout : Bool
  pub pollerr : Bool
  pub pollhup : Bool
  pub pollrdnorm : Bool
  pub pollrdband : Bool
  pub pollwrnorm : Bool
  pub pollwrband : Bool

pub record Tcb : Type 0 where
  pub snd_una : ℕ
  pub snd_nxt : ℕ
  pub snd_wnd : ℕ
  pub snd_up : ℕ
  pub snd_wl1 : ℕ
  pub snd_wl2 : ℕ
  pub iss : ℕ
  pub rcv_nxt : ℕ
  pub rcv_wnd : ℕ
  pub real_rcv_wnd : ℕ
  pub irs : ℕ

-- RFC 5681 variables, in bytes.
pub record Cong : Type 0 where
  pub smss : ℕ
  pub cwnd : ℕ
  pub ssthresh : ℕ
  pub inflight : ℕ
  pub bytes_acked : ℕ
  pub dupacks : ℕ
  pub in_recovery : Bool
  pub last_ack_win : ℕ

pub record Timers : Type 0 where
  pub backoff : ℕ
  pub srtt : ℕ
  pub rttvar : ℕ
  pub rto : ℕ
  pub rto_epoch : ℕ
  pub retransmit : Option TimerHandle
  pub delack : Option TimerHandle
  pub keepalive : Option TimerHandle
  pub linger : Option TimerHandle
  pub next_id : ℕ

pub record Options : Type 0 where
  pub rmss : ℕ
  pub sackok : Bool
  pub sacks_allowed : ℕ
  pub sacklen : ℕ
  pub sacks : List SackBlock
  pub sack_max_right : ℕ
  pub snd_scale : ℕ
  pub wso_allowed : Bool
  pub rcv_scale : ℕ
  pub tsopt : ℕ

pub record TcpSock : Type 0 where
  pub state : State
  pub err : ℤ
  pub ipv6 : Bool  -- addr_family == AF_INET6
  pub nonblock : Bool  -- sk->sock->flags & O_NONBLOCK
  pub poll : PollEvents
  pub sport : ℕ
  pub dport : ℕ
  pub saddr : ℕ
  pub daddr : ℕ
  pub flag_fin : Bool
  pub flag_psh : Bool
  pub delacks : ℕ
  pub tcb : Tcb
  pub cong : Cong
  pub timers : Timers
  pub options : Options
  pub receive_queue : SkbQueue
  pub write_queue : SkbQueue
  pub ofo_queue : SkbQueue
  pub log : List Effect  -- newest first

-- What the TCP code reads from outside: the tick counter, a fresh initial sequence number.
pub record Env : Type 0 where
  pub tick : ℕ
  pub fresh_iss : ℕ

abbrev pub emit : Effect → TcpSock → TcpSock
emit e s = record s { log = e ∷ s.log }

abbrev pub tcp_set_state : State → TcpSock → TcpSock
tcp_set_state st s = record s { state = st }

unfoldable pub free_skb : SkBuff → TcpSock → TcpSock
free_skb skb s = elim (is_freed skb) [ true ↦ emit (freed skb) s | false ↦ s ]

-- A computation step of the receive path: the handler returns, or goes on to its next part.
-- `asleep` is a thread that waits for the send window to open.
pub data Flow : Type 0 where
  stop : TcpSock → Flow
  go : TcpSock → Flow
  asleep : Flow

infixl 5 ◌>>=◌
abbrev pub ◌>>=◌ : Flow → (TcpSock → Flow) → Flow
stop s >>= f = stop s
go s >>= f = f s
asleep >>= f = asleep

-- A computation step does not sleep, and leaves the socket with this property, whichever way it ends.
abbrev pub Always : (TcpSock → Type 0) → Flow → Type 0
Always P (stop s) = P s
Always P (go s) = P s
Always P asleep = ⊥

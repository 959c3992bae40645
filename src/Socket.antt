-- ===== src/Socket.antt =====
-- src/socket.c and the creation of sockets in src/inet.c and src/inet6.c: the table of sockets. A
-- socket is known by its address in memory, `id`; allocations succeed, and a descriptor does not
-- overflow. The operations behind sock->ops are functions of the socket.
pub mod Lookup
pub mod Api
pub mod Named
use Prim.Native.Nat.{bit_and}
use level_ip.Prelude.{
  ltb, ◌==◌, if◌then◌else◌, ℤ, pos, negsuc, neg, ebadf, etimedout, econnrefused, u16, zero, suc,
  ◌+◌, ◌-◌, ◌%◌, Bool, true, false, not, ◌&&◌, ◌||◌, Option, none, some, List, [], ◌∷◌, ◌++◌, ℕ,
}
use level_ip.Route.{zero6}
use level_ip.Ipv6.{same, ipv6_addr_equal, ipv6_addr_is_unspecified}
use level_ip.Tcp.Sock.{State}
use level_ip.Tcp.Sock.State.{listen, syn_sent, close}

-- sk->addr_family: AF_INET (2) or AF_INET6 (10).
pub data Family : Type 0 where
  af_inet af_inet6 : Family

unfoldable pub same_family : Family → Family → Bool
same_family af_inet af_inet = true
same_family af_inet af_inet6 = false
same_family af_inet6 af_inet = false
same_family af_inet6 af_inet6 = true

-- The part of struct sock and struct tcp_sock that the table reads. Of each union of addresses the
-- member of the family is in use.
pub record Sk : Type 0 where
  pub addr_family : Family
  pub protocol : ℕ
  pub state : State
  pub sport : ℕ
  pub dport : ℕ
  pub saddr4 : ℕ
  pub daddr4 : ℕ
  pub saddr6 : List ℕ
  pub daddr6 : List ℕ
  pub smss : ℕ
  pub rmss : ℕ
  pub err : ℤ

pub data SocketState : Type 0 where
  ss_unconnected ss_connecting ss_connected ss_disconnecting : SocketState

-- `collectors` counts the running timers of socket_garbage_collect that point to the socket.
pub record Socket : Type 0 where
  pub id : ℕ
  pub fd : ℕ
  pub pid : ℕ
  pub refcnt : ℕ
  pub state : SocketState
  pub type : ℕ
  pub flags : ℕ
  pub sk : Option Sk
  pub collectors : ℕ

-- The file's variables: the list, sock_amount, and the next descriptor.
pub record Sockets : Type 0 where
  pub sockets : List Socket
  pub sock_amount : ℤ
  pub next_fd : ℕ

unfoldable pub increment : ℤ → ℤ
increment (pos n) = pos (n + 1)
increment (negsuc zero) = pos 0
increment (negsuc (suc n)) = negsuc n

unfoldable pub decrement : ℤ → ℤ
decrement (pos zero) = negsuc 0
decrement (pos (suc n)) = pos n
decrement (negsuc n) = negsuc (suc n)

-- O_RDWR is 2. Before the family sets it the pointer `sk` is what malloc left; it is read as NULL.
unfoldable pub alloc_socket : ℕ → ℕ → Sockets → Socket × Sockets
alloc_socket id pid s = (
  record {
    id = id;
    fd = s.next_fd;
    pid = pid;
    refcnt = 1;
    state = ss_unconnected;
    type = 0;
    flags = 2;
    sk = none;
    collectors = 0;
  },
  record s { next_fd = s.next_fd + 1 },
)

unfoldable pub socket_wr_acquire : Socket → Socket
socket_wr_acquire sock = record sock { refcnt = sock.refcnt + 1 }

-- Whether the memory was freed. A count that falls below 0 is not met: each caller holds one.
unfoldable pub socket_release : Socket → Bool × Socket
socket_release sock = (sock.refcnt - 1 == 0, record sock { refcnt = sock.refcnt - 1 })

unfoldable pub list_del : ℕ → List Socket → List Socket
list_del id [] = []
list_del id (sock ∷ rest) =
    let left = list_del id rest in if sock.id == id then rest else sock ∷ left

-- Writes through a pointer into the list.
unfoldable pub write_socket : Socket → List Socket → List Socket
write_socket t [] = []
write_socket t (sock ∷ rest) =
    let left = write_socket t rest in if sock.id == t.id then t ∷ rest else sock ∷ left

-- The socket is out of the list, and the answer tells whether its memory was freed.
unfoldable pub socket_free : Socket → Sockets → Bool × Sockets
unfolding list_del decrement socket_release socket_wr_acquire
socket_free sock s = (
  (socket_release (socket_wr_acquire sock)).0,
  record s { sockets = list_del sock.id s.sockets; sock_amount = decrement s.sock_amount },
)

unfoldable pub socket_find : ℕ → List Socket → Option Socket
socket_find id [] = none
socket_find id (sock ∷ rest) =
    let found = socket_find id rest in if sock.id == id then some sock else found

unfoldable pub socket_garbage_collect : ℕ → Sockets → Sockets
unfolding socket_find socket_free
socket_garbage_collect id s = elim (socket_find id s.sockets) [
  | none ↦ s
  | some sock ↦ (socket_free sock s).1
]

abbrev pub is_disconnecting : SocketState → Bool
is_disconnecting ss_unconnected = false
is_disconnecting ss_connecting = false
is_disconnecting ss_connected = false
is_disconnecting ss_disconnecting = true

-- The timer of 10000 ms is one more collector.
unfoldable pub socket_delete : Socket → Socket
socket_delete sock =
    if is_disconnecting sock.state
    then sock
    else record sock { state = ss_disconnecting; collectors = sock.collectors + 1 }

unfoldable pub get_socket : ℕ → ℕ → List Socket → Option Socket
get_socket pid fd [] = none
get_socket pid fd (sock ∷ rest) =
    let found = get_socket pid fd rest in
    if sock.pid == pid && (sock.fd == fd) then some sock else found

-- The loop body of socket_adjust_pmtu6. IP_TCP is 6.
unfoldable pub adjust_mss : List ℕ → ℕ → Sk → Sk
adjust_mss daddr new_mss sk =
    if same_family sk.addr_family af_inet6
      && (sk.protocol == 6)
      && ipv6_addr_equal sk.daddr6 daddr
      && ltb new_mss sk.smss
    then record sk { smss = new_mss; rmss = new_mss }
    else sk

unfoldable pub adjust_socket : List ℕ → ℕ → Socket → Socket
unfolding adjust_mss
adjust_socket daddr new_mss sock = elim sock.sk [
  | none ↦ sock
  | some sk ↦ record sock { sk = some (adjust_mss daddr new_mss sk) }
]

unfoldable pub adjust_loop : List ℕ → ℕ → List Socket → List Socket
adjust_loop daddr new_mss [] = []
adjust_loop daddr new_mss (sock ∷ rest) =
    adjust_socket daddr new_mss sock ∷ adjust_loop daddr new_mss rest

-- pmtu - 60 in a uint16_t.
unfoldable pub socket_adjust_pmtu6 : List ℕ → ℕ → Sockets → Sockets
unfolding adjust_loop
socket_adjust_pmtu6 daddr pmtu s = record s {
  sockets = adjust_loop daddr (u16 (pmtu + 65536 - 60)) s.sockets;
}

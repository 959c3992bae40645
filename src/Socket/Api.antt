-- ===== src/Socket/Api.antt =====
-- src/socket.c, src/inet.c and src/inet6.c: the calls of the application, made for it by its process
-- `pid`. A write lock is held from socket_wr_acquire to socket_release, so a call is one step.
use Prim.Native.Nat.{bit_and}
use level_ip.Prelude.{
  ltb, ◌==◌, if◌then◌else◌, ℤ, pos, negsuc, neg, ebadf, etimedout, econnrefused, ◌+◌, Bool, false,
  not, ◌||◌, Option, none, some, [], ◌∷◌, ◌++◌, ℕ,
}
use level_ip.Route.{zero6}
use level_ip.Tcp.Sock.State.{syn_sent, close}
use level_ip.Socket.{
  Family, Sk, Socket, Sockets, increment, alloc_socket, socket_wr_acquire, socket_release,
  write_socket, socket_free, get_socket,
}
use level_ip.Socket.Family.{af_inet, af_inet6}
use level_ip.Socket.SocketState.{ss_connected}

-- The memory of a new struct sock is cleared.
unfoldable pub cleared_sk : Family → Sk
cleared_sk family = record {
  addr_family = family;
  protocol = 0;
  state = close;
  sport = 0;
  dport = 0;
  saddr4 = 0;
  daddr4 = 0;
  saddr6 = zero6;
  daddr6 = zero6;
  smss = 0;
  rmss = 0;
  err = pos 0;
}

-- tcp_alloc_sock.
unfoldable pub tcp_sk : Family → Sk
unfolding cleared_sk
tcp_sk family = record (cleared_sk family) { protocol = 6; smss = 536; rmss = 1460 }

-- udp_alloc_sock. Its state is SS_UNCONNECTED, 1, which is TCP_SYN_SENT to the TCP code.
unfoldable pub udp_sk : Family → Sk
unfolding cleared_sk
udp_sk family = record (cleared_sk family) { protocol = 17; state = syn_sent }

-- inet_create and inet6_create: SOCK_STREAM is 1, SOCK_DGRAM is 2. The protocol asked for is not
-- used.
unfoldable pub inet_create : Family → Socket → Option Socket
unfolding tcp_sk udp_sk
inet_create family sock =
    if not (bit_and 1 sock.type == 0)
    then some (record sock { sk = some (tcp_sk family) })
    else if not (bit_and 2 sock.type == 0)
    then some (record sock { sk = some (udp_sk family) })
    else none

-- The array families, for a domain below 128: AF_INET is 2, AF_INET6 is 10.
unfoldable pub families : ℕ → Option Family
families domain = if domain == 2 then some af_inet else if domain == 10 then some af_inet6 else none

unfoldable pub create : Option Family → Socket → Option Socket
unfolding inet_create
create none sock = none
create (some family) sock = inet_create family sock

-- `id` is what malloc returns. The socket that could not be made is given to socket_free, which
-- takes it from a list that it is not in.
unfoldable pub open_socket : ℕ → ℕ → ℕ → ℕ → Sockets → ℤ × Sockets
unfolding alloc_socket families create increment socket_free
open_socket id pid domain type s =
    let (sock, t) = alloc_socket id pid s in
    elim (create (families domain) (record sock { type = type })) [
      | none ↦ (negsuc 0, (socket_free (record sock { type = type }) t).1)
      | some made ↦ (
        pos made.fd,
        record t { sockets = t.sockets ++ made ∷ []; sock_amount = increment t.sock_amount },
      )
    ]

-- _bind, _listen, _accept, _sendto, _write, _read, _recvfrom and _close have one form: `op` is the
-- member of sock->ops that they call.
unfoldable pub call_socket : (Socket → ℤ × Socket) → ℕ → ℕ → Sockets → ℤ × Sockets
unfolding socket_wr_acquire socket_release
call_socket op pid sockfd s = elim (get_socket pid sockfd s.sockets) [
  | none ↦ (neg ebadf, s)
  | some sock ↦
      let (rc, t) = op (socket_wr_acquire sock) in
      (rc, record s { sockets = write_socket (socket_release t).1 s.sockets })
]

abbrev pub einval : ℕ
einval = 22

abbrev pub eafnosupport : ℕ
eafnosupport = 97

-- The cases of the switch of _connect.
unfoldable pub is_fatal : ℤ → Bool
is_fatal (pos n) = false
is_fatal (negsuc n) =
    n + 1 == einval || (n + 1 == eafnosupport) || (n + 1 == econnrefused) || (n + 1 == etimedout)

unfoldable pub connect_socket : (Socket → ℤ × Socket) → ℕ → ℕ → Sockets → ℤ × Sockets
unfolding socket_wr_acquire socket_release is_fatal socket_free
connect_socket op pid sockfd s = elim (get_socket pid sockfd s.sockets) [
  | none ↦ (neg ebadf, s)
  | some sock ↦
      let (rc, t) = op (socket_wr_acquire sock) in
      let u = (socket_release t).1 in
      let r = record s { sockets = write_socket u s.sockets } in
      (rc, if is_fatal rc then (socket_free u r).1 else r)
]

-- _fcntl: F_GETFL is 3, F_SETFL is 4.
unfoldable pub fcntl_flags : ℕ → ℕ → Socket → ℤ × Socket
fcntl_flags cmd arg sock =
    if cmd == 3
    then (pos sock.flags, sock)
    else if cmd == 4
    then (pos 0, record sock { flags = arg })
    else (negsuc 0, sock)

unfoldable pub fcntl : ℕ → ℕ → ℕ → ℕ → Sockets → ℤ × Sockets
unfolding fcntl_flags
fcntl cmd arg pid fildes s = call_socket (fcntl_flags cmd arg) pid fildes s

-- inet_dgram_connect, from the fields of a struct sockaddr_in; `sk` is set in every socket of the
-- table.
unfoldable pub inet_dgram_connect : ℕ → ℕ → ℕ → ℕ → Socket → ℤ × Socket
inet_dgram_connect addr port family addr_len sock = elim sock.sk [
  | none ↦ (pos 0, sock)
  | some sk ↦ if ltb addr_len 16 || not (family == 2) then (neg einval, sock) else (
    pos 0,
    record sock { sk = some (record sk { daddr4 = addr; dport = port }); state = ss_connected },
  )
]

-- ===== src/Socket/Lookup.antt =====
-- src/socket.c: which socket a segment or a datagram is for.
pub mod Found
use level_ip.Prelude.{
  ◌==◌, if◌then◌else◌, Bool, true, false, not, ◌&&◌, ◌||◌, Option, none, some, List, [], ◌∷◌, ℕ,
}
use level_ip.Ipv6.{same, ipv6_addr_is_unspecified}
use level_ip.Tcp.Sock.{State}
use level_ip.Tcp.Sock.State.{
  listen, syn_sent, syn_received, established, fin_wait_1, fin_wait_2, close, close_wait, closing,
  last_ack, time_wait,
}
use level_ip.Socket.{Family, same_family, Sk, Socket}
use level_ip.Socket.Family.{af_inet, af_inet6}

-- The arguments of socket_lookup. The IPv6 pointers are not NULL where the family is AF_INET6.
pub record Tuple : Type 0 where
  pub family : Family
  pub remotesaddr : ℕ
  pub localsaddr : ℕ
  pub remote6 : List ℕ
  pub local6 : List ℕ
  pub remoteport : ℕ
  pub localport : ℕ

unfoldable pub is_listen : State → Bool
is_listen listen = true
is_listen syn_sent = false
is_listen syn_received = false
is_listen established = false
is_listen fin_wait_1 = false
is_listen fin_wait_2 = false
is_listen close = false
is_listen close_wait = false
is_listen closing = false
is_listen last_ack = false
is_listen time_wait = false

-- Both ends of a connection, in the addresses of the family.
unfoldable pub match_ends : Family → Tuple → Sk → Bool
match_ends af_inet q sk = sk.daddr4 == q.remotesaddr && (sk.saddr4 == q.localsaddr)
match_ends af_inet6 q sk = same sk.daddr6 q.remote6 && same sk.saddr6 q.local6

unfoldable pub tcp_sock_match_established : Tuple → Sk → Bool
unfolding is_listen match_ends
tcp_sock_match_established q sk =
    if not (sk.protocol == 6) || is_listen sk.state
    then false
    else if not (sk.sport == q.localport) || not (sk.dport == q.remoteport)
    then false
    else match_ends q.family q sk

unfoldable pub match_local : Family → Tuple → Sk → Bool
match_local af_inet q sk = sk.saddr4 == q.localsaddr
match_local af_inet6 q sk = ipv6_addr_is_unspecified q.local6 || same sk.saddr6 q.local6

unfoldable pub tcp_sock_match_listener : Tuple → Sk → Bool
unfolding is_listen match_local
tcp_sock_match_listener q sk =
    if not (sk.protocol == 6) || not (is_listen sk.state)
    then false
    else if not (sk.sport == q.localport)
    then false
    else match_local q.family q sk

-- The tests of a round of the two loops.
unfoldable pub is_established_for : Tuple → Socket → Bool
unfolding tcp_sock_match_established
is_established_for q sock = elim sock.sk [
  | none ↦ false
  | some sk ↦ same_family sk.addr_family q.family && tcp_sock_match_established q sk
]

unfoldable pub is_listener_for : Tuple → Socket → Bool
unfolding tcp_sock_match_listener
is_listener_for q sock = elim sock.sk [
  | none ↦ false
  | some sk ↦ same_family sk.addr_family q.family && tcp_sock_match_listener q sk
]

unfoldable pub tcp_lookup_established : Tuple → List Socket → Option Socket
tcp_lookup_established q [] = none
tcp_lookup_established q (sock ∷ rest) =
    let found = tcp_lookup_established q rest in
    if is_established_for q sock then some sock else found

unfoldable pub tcp_lookup_listener : Tuple → List Socket → Option Socket
tcp_lookup_listener q [] = none
tcp_lookup_listener q (sock ∷ rest) =
    let found = tcp_lookup_listener q rest in if is_listener_for q sock then some sock else found

unfoldable pub socket_lookup : Tuple → List Socket → Option Socket
unfolding tcp_lookup_established tcp_lookup_listener
socket_lookup q sockets = elim (tcp_lookup_established q sockets) [
  | some sock ↦ some sock
  | none ↦ tcp_lookup_listener q sockets
]

-- IPPROTO_UDP is 17.
unfoldable pub is_udp_for : Family → ℕ → Socket → Bool
is_udp_for family localport sock = elim sock.sk [
  | none ↦ false
  | some sk ↦ same_family sk.addr_family family && (sk.protocol == 17) && (sk.sport == localport)
]

unfoldable pub socket_lookup_udp : Family → ℕ → List Socket → Option Socket
unfolding is_udp_for
socket_lookup_udp family localport [] = none
socket_lookup_udp family localport (sock ∷ rest) =
    let found = socket_lookup_udp family localport rest in
    if is_udp_for family localport sock then some sock else found

-- socker_find_protocol_port: any family.
unfoldable pub socker_find_protocol_port : ℕ → ℕ → List Socket → Option Socket
socker_find_protocol_port port protocol [] = none
socker_find_protocol_port port protocol (sock ∷ rest) =
    let found = socker_find_protocol_port port protocol rest in
    elim sock.sk [
      | none ↦ found
      | some sk ↦ if sk.protocol == protocol && (sk.sport == port) then some sock else found
    ]

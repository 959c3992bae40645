-- ===== src/Tests/Sockets.antt =====
-- The theorems on the table of sockets, at concrete inputs.
use mathlib.Core.List.{Memᴰ}
use level_ip.Prelude.{ℕ, ◌<◌, ◌≡◌, refl, some, List, [], ◌∷◌, arith}
use level_ip.Route.{zero6}
use level_ip.Tcp.Sock.State.{listen, established}
use level_ip.Socket.{Sk, Socket, Sockets, get_socket, socket_find, write_socket}
use level_ip.Socket.Family.{af_inet}
use level_ip.Socket.SocketState.{ss_connected}
use level_ip.Socket.Api.{cleared_sk, tcp_sk, udp_sk, open_socket, call_socket, inet_dgram_connect}
use level_ip.Socket.Lookup.{Tuple, socket_lookup}
use level_ip.Socket.Lookup.Found.{Answers, socket_lookup-Answers}
use level_ip.Socket.Named.TableRun.{here, then_step}
use level_ip.Socket.Named.Step.{opens, calls}
use level_ip.Socket.Named.Runs.{Unrepeated, start, dgram_connect-Keeps, run-IsFound}

-- A socket that listens on port 80 of the host, and one that is connected there.
abbrev listening : Sk
unfolding tcp_sk cleared_sk
listening = record (tcp_sk af_inet) { state = listen; sport = 80; saddr4 = 167772164 }

abbrev connected : Sk
unfolding tcp_sk cleared_sk
connected = record (tcp_sk af_inet) {
  state = established;
  sport = 80;
  dport = 40000;
  saddr4 = 167772164;
  daddr4 = 167772165;
}

abbrev in_table : ℕ → Sk → Socket
in_table n sk = record {
  id = n;
  fd = n;
  pid = 1;
  refcnt = 1;
  state = ss_connected;
  type = 1;
  flags = 2;
  sk = some sk;
  collectors = 0;
}

abbrev table : List Socket
table = in_table 4097 listening ∷ in_table 4098 connected ∷ []

abbrev arriving : Tuple
arriving = record {
  family = af_inet;
  remotesaddr = 167772165;
  localsaddr = 167772164;
  remote6 = zero6;
  local6 = zero6;
  remoteport = 40000;
  localport = 80;
}

socket_lookup-Answers_example : Answers arriving table (socket_lookup arriving table)
socket_lookup-Answers_example = socket_lookup-Answers arriving table

-- Process 1 makes a stream socket and a datagram socket, and connects the second.
abbrev two_sockets : Sockets
two_sockets =
    (call_socket (inet_dgram_connect 167772165 53 2 16) 1 4098
      (open_socket 200 1 2 2 (open_socket 100 1 2 1 start).1).1).1

abbrev asking : Socket
unfolding udp_sk cleared_sk
asking = record {
  id = 200;
  fd = 4098;
  pid = 1;
  refcnt = 1;
  state = ss_connected;
  type = 2;
  flags = 2;
  sk = some (record (udp_sk af_inet) { daddr4 = 167772165; dport = 53 });
  collectors = 0;
}

run-IsFound_example :
    (get_socket 1 4098 two_sockets.sockets ≡ some asking)
    × (socket_find 200 two_sockets.sockets ≡ some asking)
    × (4098 < two_sockets.next_fd)
    × Unrepeated (4098 ∷ 4097 ∷ [])
unfolding call_socket open_socket inet_dgram_connect get_socket write_socket
run-IsFound_example =
    run-IsFound (4098 ∷ 4097 ∷ []) two_sockets asking
      (then_step
        (then_step (then_step here (opens 100 1 2 1 start tt))
          (opens 200 1 2 2 (open_socket 100 1 2 1 start).1 ((λ e. omega (arith, e)), tt)))
        (calls (inet_dgram_connect 167772165 53 2 16) 1 4098
          (open_socket 200 1 2 2 (open_socket 100 1 2 1 start).1).1
          (dgram_connect-Keeps 167772165 53 2 16)))
      (Memᴰ.tail (Memᴰ.head refl))

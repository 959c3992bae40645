-- ===== src/Tests/Receive.antt =====
-- The theorems on the receive path, at the socket of Tests.
use level_ip.Tcp.ParseOpts.Loop.{tcp_parse_opts_ends}
use level_ip.Tcp.ParseOpts.{more_opts, parse_loop, start_scan, tcp_parse_opts}
use level_ip.Tcp.Data.Pipe.{run-PipeRun, Reader, pipe, PipeRun, queues, dequeues, begins, and_step}
use level_ip.Tcp.Segment.Graph.{Moves}
use level_ip.Tcp.Input.Established.{IsConnected, Tells, tcp_synsent-IsConnected}
use level_ip.Tcp.Sock.{syn_sent, stop, Always, syn_received, established}
use level_ip.Tcp.Segment.Diagram.{otherwise-Moves}
use level_ip.Tcp.Segment.Ack.{process_ack-una}
use level_ip.Tcp.Segment.{process_ack, otherwise}
use level_ip.Tcp.Input.Handshake.{Answers, tcp_listen_child}
use level_ip.Tcp.Input.{tcp_synsent, tcp_listen}
use level_ip.Tcp.Data.Stream.{IsStream, tcp_data_queue-IsStream}
use level_ip.Tcp.Data.Read.{contents, queued, Reads, tcp_data_dequeue-Reads}
use level_ip.Tcp.Data.Order.{Rises, tcp_data_insert_ordered-Rises}
use level_ip.Tcp.Data.Account.{queue_expected-window}
use level_ip.Tcp.Data.{tcp_data_insert_ordered, tcp_data_dequeue, queue_expected, tcp_data_queue}
use level_ip.Skbuff.{Tcphdr, skb_queue_empty}
use level_ip.Prelude.{
  take, ℕ, List, ◌++◌, length, ◌+◌, ◌≤◌, ◌<◌, ◌≡◌, refl, ◌⊎◌, inl, inr, true, false, some, [], ◌∷◌,
  arith,
}
use level_ip.Tests.{TcpSock, segment, ack_header, syn_header, sock, env}

tcp_data_queue-IsStream_example : IsStream 100 (tcp_data_queue (segment 103 (4 ∷ [])) sock).1
tcp_data_queue-IsStream_example =
    tcp_data_queue-IsStream 100 (segment 103 (4 ∷ [])) sock refl
      (record { chain = (refl, refl); framed = (refl, tt) })

tcp_data_dequeue-Reads_example :
    Reads 2 0 sock.receive_queue sock (tcp_data_dequeue 2 sock)
    × ((tcp_data_dequeue 2 sock).sock.receive_queue ≡ (tcp_data_dequeue 2 sock).queue)
tcp_data_dequeue-Reads_example = tcp_data_dequeue-Reads 2 sock (refl, tt)

queue_expected-window_example :
    let t = queue_expected (segment 103 (4 ∷ [])) sock in
    (t.tcb.real_rcv_wnd + 1 ≡ sock.tcb.real_rcv_wnd)
    × (queued t.receive_queue + queued t.ofo_queue
        ≡ queued sock.receive_queue + 1 + queued sock.ofo_queue)
queue_expected-window_example =
    queue_expected-window (segment 103 (4 ∷ [])) sock (omega arith) (omega arith)

tcp_data_insert_ordered-Rises_example :
    Rises 103 (tcp_data_insert_ordered (segment 106 (7 ∷ [])) sock.ofo_queue).0
tcp_data_insert_ordered-Rises_example =
    tcp_data_insert_ordered-Rises 103 (segment 106 (7 ∷ [])) sock.ofo_queue (omega arith)
      (omega arith) (inr (inl (omega arith)), tt) (omega arith, omega arith, tt)

abbrev wrapped : TcpSock
wrapped = record sock { tcb = record (sock.tcb) { rcv_nxt = 4294967290 } }

process_ack-una_example :
    Always
      (λ t.
        (1000 ≤ t.tcb.snd_una)
        × (t.tcb.snd_una ≤ t.tcb.snd_nxt)
        × (t.tcb.snd_nxt ≡ 1005)
        × (t.tcb.snd_wnd ≡ 8000)
        × (((1000 < 1003) × (1003 ≤ 1005) × (t.tcb.snd_una ≡ 1003))
            ⊎ (((1003 ≤ 1000) ⊎ (1005 < 1003)) × (t.tcb.snd_una ≡ 1000))))
      (process_ack 5200 (ack_header 103 1003) (segment 103 []) sock)
process_ack-una_example =
    process_ack-una 5200 (ack_header 103 1003) (segment 103 []) sock (omega arith)

otherwise-Moves_example :
    Always
      (λ t. Moves false (skb_queue_empty t.write_queue) established t.state)
      (otherwise 5200 (ack_header 103 1003) (segment 103 (4 ∷ [])) sock)
otherwise-Moves_example =
    otherwise-Moves 5200 (ack_header 103 1003) (segment 103 (4 ∷ [])) sock refl

tcp_listen_child_example :
    (t : TcpSock) × ((tcp_listen env [] syn_header (segment 500 []) 9 sock).1 ≡ some t)
    × (t.state ≡ syn_received)
    × (t.tcb.snd_una ≡ 70000)
    × (t.tcb.snd_nxt ≡ 70002)
    × (t.tcb.rcv_nxt ≡ 501)
    × Answers 70000 501 t.write_queue t.log
tcp_listen_child_example =
    tcp_listen_child env [] syn_header (segment 500 []) 9 sock refl (omega arith)

abbrev rst_header : Tcphdr
rst_header = record (ack_header 103 1003) { rst = true }

abbrev synack : Tcphdr
synack = record (ack_header 500 1001) { syn = true }

abbrev calling : TcpSock
calling = record sock {
  state = syn_sent;
  tcb = record (sock.tcb) { iss = 1000; snd_una = 1000; snd_nxt = 1001; rcv_nxt = 0 };
}

tcp_synsent-IsConnected_example :
    (t : TcpSock) × (tcp_synsent 5200 [] synack (segment 500 []) calling ≡ stop t)
    × IsConnected synack calling t
    × Tells (segment 500 []) t.log
tcp_synsent-IsConnected_example =
    tcp_synsent-IsConnected 5200 [] synack (segment 500 []) calling refl refl refl (omega arith)
      (omega arith) (omega arith)

-- The peer sends seven bytes from 100 on: three wait, two more came early, 103 and 104 are missing.
abbrev sent : List ℕ
sent = 1 ∷ 2 ∷ 3 ∷ 4 ∷ 5 ∷ 6 ∷ 7 ∷ []

abbrev waits_early : TcpSock
waits_early = record sock { ofo_queue = segment 105 (6 ∷ 7 ∷ []) ∷ [] }

-- The missing bytes arrive, and six bytes are read.
abbrev filled : TcpSock
filled = (tcp_data_queue (segment 103 (4 ∷ 5 ∷ [])) waits_early).1

run-PipeRun_example :
    let r : Reader = record { sock = waits_early; out = [] } in
    let t : Reader = record {
      sock = (tcp_data_dequeue 6 filled).sock;
      out = [] ++ (tcp_data_dequeue 6 filled).out;
    } in
    PipeRun sent (pipe r) (pipe t)
    × ((k : ℕ) × (k ≤ length sent) × (t.out ++ contents t.sock.receive_queue ≡ take k sent))
run-PipeRun_example =
    run-PipeRun 100 sent (omega arith)
      (and_step
        (and_step begins (
          queues (segment 103 (4 ∷ 5 ∷ [])) waits_early [] (record {
            place = 3;
            numbered = refl;
            within = omega arith;
            piece = refl;
            sized = refl;
          })))
        (dequeues 6 filled []))
      (record {
        count = 3;
        delivers = record {
          reached = omega arith;
          next = refl;
          bytes = refl;
          bodies = (refl, tt);
          early = (
            record { place = 5; numbered = refl; within = omega arith; piece = refl; sized = refl },
            tt,
          );
        };
      })

tcp_parse_opts_ends_example :
    (more_opts (parse_loop 40 synack.opts (start_scan synack sock)) ≡ false)
    × ((tcp_parse_opts synack sock).options.snd_scale ≤ 14)
tcp_parse_opts_ends_example = tcp_parse_opts_ends synack sock (omega arith)

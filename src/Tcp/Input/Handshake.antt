-- ===== src/Tcp/Input/Handshake.antt =====
-- src/tcp_input.c: the opening handshake, passive (tcp_listen) and active (tcp_synsent).
use level_ip.Prelude.{
  ℕ, ◌+◌, ◌≡◌, ◌<◌, ◌∙◌, refl, true, false, List, [], ◌∷◌, ◌++◌, some, arith, u32, ap, subst,
  if◌then◌else◌,
}
use level_ip.Skbuff.{SkBuff, SkbQueue, Tcphdr, skb_queue_empty}
use level_ip.Tcp.Sock.{syn_received, TcpSock, Env, tcp_set_state, Effect, transmit}
use level_ip.Tcp.Output.{
  send_window_shut, queue_and_send, enqueue_skb, filled_header, tcp_write_options, tcp_transmit_skb,
}
use level_ip.Tcp.Rto.{tcp_rearm_rto_timer}
use level_ip.Tcp.Send.{tcp_send_synack, synack_skb}
use level_ip.Tcp.Send.Queued.{queue_and_send-Sends, queue_transmit_open, rearm-kept}
use level_ip.Tcp.Done.{tcp_alloc_sock}
use level_ip.Tcp.ParseOpts.{tcp_parse_opts, tcp_sack_mark_write_queue, mark_queue}
use level_ip.Tcp.Input.{fork_socket, tcp_listen}

pub parse_opts-kept :
    (th : Tcphdr) (s : TcpSock)
    → let t = tcp_parse_opts th s in (t.state ≡ s.state) × (t.tcb ≡ s.tcb) × (t.cong ≡ s.cong)
unfolding tcp_parse_opts tcp_sack_mark_write_queue
parse_opts-kept th s = ground arith

-- What the forked socket starts with.
record Forked (env : Env) (th : Tcphdr) (t : TcpSock) : Type 0 where
  state_new : t.state ≡ syn_received
  una_iss : t.tcb.snd_una ≡ env.fresh_iss
  nxt_iss : t.tcb.snd_nxt ≡ env.fresh_iss
  rcv_new : t.tcb.rcv_nxt ≡ u32 (th.seq + 1)
  no_flight : t.cong.inflight ≡ 0
  no_queue : t.write_queue ≡ []

parse_opts-queue :
    (th : Tcphdr) (s : TcpSock) → s.write_queue ≡ [] → (tcp_parse_opts th s).write_queue ≡ []
unfolding tcp_parse_opts tcp_sack_mark_write_queue mark_queue
parse_opts-queue th s e = ground (arith, e)

fork-Forked :
    (env : Env) (th : Tcphdr) (saddr : ℕ) (s : TcpSock) → Forked env th (fork_socket env th saddr s)
unfolding fork_socket tcp_alloc_sock
fork-Forked env th saddr s =
    let a = tcp_set_state syn_received (tcp_alloc_sock s.ipv6) in
    ground (arith, parse_opts-kept th a, parse_opts-queue th a refl)

-- An empty flight never waits for the window.
empty_flight : (s : TcpSock) → s.cong.inflight ≡ 0 → send_window_shut 0 s ≡ false
unfolding send_window_shut
empty_flight s f = ground arith

-- The socket after tcp_send_synack.
abbrev answered : ℕ → TcpSock → TcpSock
answered tick s =
    let u = queue_and_send tick (synack_skb s) s in
    record u { tcb = record (u.tcb) { snd_nxt = u32 (u.tcb.snd_nxt + 1) } }

synack_answer :
    (tick : ℕ) (wakes : List TcpSock) (s : TcpSock)
    → s.state ≡ syn_received
    → s.cong.inflight ≡ 0
    → tcp_send_synack tick wakes s ≡ some (answered tick s, wakes)
unfolding tcp_send_synack
synack_answer tick wakes s e f =
    simp (e, queue_transmit_open tick wakes (synack_skb s) s (empty_flight s f))

-- One SYN-ACK waits for its acknowledgement, and its transmission is the newest effect.
pub record Answers (iss ack : ℕ) (queue : SkbQueue) (log : List Effect) : Type 0 where
  pub waiting : SkBuff
  pub alone : queue ≡ waiting ∷ []
  pub is_synack : (waiting.th.syn ≡ true) × (waiting.th.ack ≡ true) × (waiting.seq ≡ iss)
  pub header : Tcphdr
  pub before : List Effect
  pub sent : log ≡ transmit header waiting.dlen waiting.body ∷ before
  pub says : (header.syn ≡ true) × (header.ack ≡ true) × (header.seq ≡ iss) × (header.ack_seq ≡ ack)

synack-Answers :
    (tick : ℕ) (s : TcpSock)
    → s.write_queue ≡ []
    → let t = queue_and_send tick (synack_skb s) s in
      Answers s.tcb.snd_nxt s.tcb.rcv_nxt t.write_queue t.log
unfolding queue_and_send enqueue_skb tcp_transmit_skb filled_header
synack-Answers tick s e =
    let skb = synack_skb s in
    let t = enqueue_skb skb s in
    let u = if skb_queue_empty s.write_queue then tcp_rearm_rto_timer tick t else t in
    let w = record skb { seq = s.tcb.snd_nxt; end_seq = u32 (s.tcb.snd_nxt + skb.dlen) } in
    record {
      waiting = w;
      alone = (queue_and_send-Sends tick skb s refl).queue_new ∙ ap (λ q. q ++ w ∷ []) e;
      is_synack = (refl, refl, refl);
      header = (tcp_write_options (filled_header skb s.tcb.snd_nxt u) u).0;
      before = (tcp_write_options (filled_header skb s.tcb.snd_nxt u) u).1.log;
      sent = refl;
      says = (refl, refl, refl, ground (arith, rearm-kept tick t));
    }

-- A SYN to a listening socket creates a socket in SYN-RECEIVED that expects the number after the
-- SYN, and answers without sleeping: the last that the socket did is to send a SYN-ACK with its
-- initial sequence number, which acknowledges the SYN, and the SYN-ACK is alone in the write queue.
-- Its snd_nxt is two past the initial sequence number, though the SYN-ACK takes up only one: both
-- tcp_send_synack and tcp_listen count it.
pub tcp_listen_child :
    (env : Env) (wakes : List TcpSock) (th : Tcphdr) (skb : SkBuff) (saddr : ℕ) (s : TcpSock)
    → th.syn ≡ true
    → env.fresh_iss + 2 < 4294967296
    → (t : TcpSock) × ((tcp_listen env wakes th skb saddr s).1 ≡ some t)
      × (t.state ≡ syn_received)
      × (t.tcb.snd_una ≡ env.fresh_iss)
      × (t.tcb.snd_nxt ≡ env.fresh_iss + 2)
      × (t.tcb.rcv_nxt ≡ u32 (th.seq + 1))
      × Answers env.fresh_iss (u32 (th.seq + 1)) t.write_queue t.log
unfolding tcp_listen
tcp_listen_child env wakes th skb saddr s y h =
    let f = fork_socket env th saddr s in
    let k = fork-Forked env th saddr s in
    let q = queue_and_send-Sends env.tick (synack_skb f) f refl in
    let a = answered env.tick f in
    (
      record a { tcb = record (a.tcb) { snd_nxt = u32 (a.tcb.snd_nxt + 1) } },
      simp (y, synack_answer env.tick wakes f k.state_new k.no_flight),
      q.state_kept ∙ k.state_new,
      q.una_kept ∙ k.una_iss,
      omega (arith, q.nxt_new, k.nxt_iss),
      q.rcv_kept ∙ k.rcv_new,
      subst (λ r. Answers env.fresh_iss r a.write_queue a.log) k.rcv_new
          (subst (λ i. Answers i f.tcb.rcv_nxt a.write_queue a.log) k.nxt_iss
            (synack-Answers env.tick f k.no_queue)),
    )

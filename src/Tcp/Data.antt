-- ===== src/Tcp/Data.antt =====
-- src/tcp_data.c, and tcp_calculate_sacks of src/tcp.c: the receive queue, the out-of-order queue,
-- the advertised window, and the SACK blocks that describe what arrived early.
pub mod Stream
pub mod Read
pub mod Account
pub mod Order
pub mod Sacks
pub mod Carried
pub mod Pipe
use level_ip.Prelude.{
  ℕ, ◌+◌, ◌-◌, Bool, true, false, not, ◌&&◌, List, [], ◌∷◌, ◌++◌, u8, u32, sub32, ltb, leb, ◌==◌,
  if◌then◌else◌, get_or, set, take, drop, replicate,
}
use level_ip.Skbuff.{SkBuff, SkbQueue, hold, unhold, skb_queue_tail, skb_queue_empty}
use level_ip.Tcp.Sock.{TcpSock, SackBlock, PollEvents, wake_recv, emit, free_skb}
use level_ip.Tcp.Output.{tcp_send_ack}

-- tcp_data_insert_ordered: the new queue, and whether the segment was put into it (and held).
unfoldable pub tcp_data_insert_ordered : SkBuff → SkbQueue → SkbQueue × Bool
tcp_data_insert_ordered skb [] = (hold skb ∷ [], true)
tcp_data_insert_ordered skb (next ∷ q) =
    let rest = tcp_data_insert_ordered skb q in
    if ltb skb.seq next.seq
    then if ltb next.seq skb.end_seq then (next ∷ rest.0, rest.1) else (hold skb ∷ next ∷ q, true)
    else if skb.seq == next.seq
    then (next ∷ q, false)
    else (next ∷ rest.0, rest.1)

-- The queues and the sequence number that the loop of tcp_consume_ofo_queue works on.
pub record Reassembly : Type 0 where
  pub rcv_nxt : ℕ
  pub ofo : SkbQueue
  pub ready : SkbQueue

unfoldable pub consume_loop : ℕ → SkbQueue → SkbQueue → Reassembly
consume_loop nxt [] ready = record { rcv_nxt = nxt; ofo = []; ready = ready }
consume_loop nxt (skb ∷ q) ready =
    let rest = consume_loop (u32 (nxt + skb.dlen)) q (skb_queue_tail ready skb) in
    if nxt == skb.seq then rest else record { rcv_nxt = nxt; ofo = skb ∷ q; ready = ready }

unfoldable pub tcp_consume_ofo_queue : TcpSock → TcpSock
unfolding consume_loop
tcp_consume_ofo_queue s =
    let r = consume_loop s.tcb.rcv_nxt s.ofo_queue s.receive_queue in
    record s {
      tcb = record (s.tcb) { rcv_nxt = r.rcv_nxt };
      receive_queue = r.ready;
      ofo_queue = r.ofo;
    }

unfoldable pub increase_recv_win : ℕ → TcpSock → TcpSock
increase_recv_win n s = record s {
  tcb = record (s.tcb) { real_rcv_wnd = u32 (s.tcb.real_rcv_wnd + n) };
}

unfoldable pub decrease_recv_win : ℕ → TcpSock → TcpSock
decrease_recv_win n s = record s {
  tcb = record (s.tcb) { real_rcv_wnd = sub32 s.tcb.real_rcv_wnd n };
}

-- What one call of tcp_data_dequeue has done: the queue left, the bytes that it copied out.
pub record Dequeued : Type 0 where
  pub queue : SkbQueue
  pub rlen : ℕ
  pub out : List ℕ
  pub sock : TcpSock

-- A segment that is eaten up hands its PSH flag on and is freed.
unfoldable pub eat_skb : SkBuff → TcpSock → TcpSock
unfolding free_skb
eat_skb skb s = free_skb (unhold skb) (if skb.th.psh then record s { flag_psh = true } else s)

-- "Guard datalen to not overflow userbuf".
unfoldable pub copy_len : ℕ → ℕ → SkBuff → ℕ
copy_len userlen rlen skb = if ltb userlen (rlen + skb.dlen) then userlen - rlen else skb.dlen

-- The segment without the bytes that were copied.
unfoldable pub advance : ℕ → SkBuff → SkBuff
advance n skb = record skb { dlen = skb.dlen - n; body = drop n skb.body }

-- The loop of tcp_data_dequeue. A segment that is not eaten up has filled the buffer, so the next
-- test of the loop fails.
unfoldable pub dequeue_loop : ℕ → SkbQueue → ℕ → TcpSock → Dequeued
dequeue_loop userlen [] rlen s = record { queue = []; rlen = rlen; out = []; sock = s }
dequeue_loop userlen (skb ∷ q) rlen s =
    let n = copy_len userlen rlen skb in
    let t = increase_recv_win n s in
    let rest = dequeue_loop userlen q (rlen + n) (eat_skb (advance n skb) t) in
    if not (ltb rlen userlen)
    then record { queue = skb ∷ q; rlen = rlen; out = []; sock = s }
    else if (advance n skb).dlen == 0
    then record {
      queue = rest.queue;
      rlen = rest.rlen;
      out = take n skb.body ++ rest.out;
      sock = rest.sock;
    }
    else record { queue = advance n skb ∷ q; rlen = rlen + n; out = take n skb.body; sock = t }

-- poll_events &= ~POLLIN, once there is nothing to read and no FIN to report.
unfoldable pub tcp_data_dequeue : ℕ → TcpSock → Dequeued
tcp_data_dequeue userlen s =
    let r = dequeue_loop userlen s.receive_queue 0 s in
    let t = record (r.sock) { receive_queue = r.queue } in
    record r {
      sock =
          if skb_queue_empty r.queue && not t.flag_fin
          then record t { poll = record (t.poll) { pollin = false } }
          else t;
    }

-- tcp_calculate_sacks. `index` is where the pointer `sb` stands in `sacks`.
pub record SackScan : Type 0 where
  pub blocks : List SackBlock
  pub count : ℕ
  pub index : ℕ

empty_block : SackBlock
empty_block = record { left = 0; right = 0 }

abbrev sb : SackScan → SackBlock
unfolding empty_block
sb c = get_or c.blocks c.index empty_block

-- The three ways to enter one early segment. The last tests the room a second time.
unfoldable pub sack_enter : ℕ → SkBuff → SackScan → SackScan
unfolding empty_block
sack_enter allowed next c =
    let whole : SackBlock = record { left = next.seq; right = next.end_seq } in
    let longer : SackBlock = record { left = (sb c).left; right = next.end_seq } in
    if (sb c).left == 0
    then record c { blocks = set c.blocks c.index whole; count = u8 (c.count + 1) }
    else if (sb c).right == next.seq
    then record c { blocks = set c.blocks c.index longer }
    else if leb allowed c.count
    then c
    else record { blocks = set c.blocks c.count whole; count = u8 (c.count + 1); index = c.count }

unfoldable pub sack_loop : ℕ → ℕ → ℕ → SkbQueue → SackScan → SackScan
sack_loop allowed left right [] c = c
sack_loop allowed left right (next ∷ q) c =
    let skip = leb left next.seq && leb next.end_seq right in
    let rest = sack_loop allowed left right q (if skip then c else sack_enter allowed next c) in
    if not skip && leb allowed c.count then c else rest

unfoldable pub sack_start : ℕ → ℕ → SackScan
unfolding empty_block
sack_start left right = record {
  blocks = record { left = left; right = right } ∷ replicate 3 empty_block;
  count = 1;
  index = 1;
}

unfoldable pub tcp_calculate_sacks : ℕ → ℕ → TcpSock → TcpSock
unfolding sack_loop sack_start
tcp_calculate_sacks left right s =
    let c = sack_loop s.options.sacks_allowed left right s.ofo_queue (sack_start left right) in
    record s { options = record (s.options) { sacks = c.blocks; sacklen = c.count } }

abbrev poll_readable : PollEvents → PollEvents
poll_readable p = record p { pollin = true; pollpri = true; pollrdnorm = true; pollrdband = true }

-- The new data of tcp_data_queue, in order and out of order.
unfoldable pub queue_expected : SkBuff → TcpSock → TcpSock
unfolding decrease_recv_win tcp_consume_ofo_queue
queue_expected skb s =
    let t = decrease_recv_win skb.dlen s in
    let u = tcp_consume_ofo_queue (record t {
      tcb = record (t.tcb) { rcv_nxt = u32 (t.tcb.rcv_nxt + skb.dlen) };
      receive_queue = skb_queue_tail t.receive_queue (hold skb);
    }) in
    emit wake_recv (record u { poll = poll_readable u.poll })

unfoldable pub queue_early : SkBuff → TcpSock → TcpSock
unfolding tcp_data_insert_ordered tcp_calculate_sacks
queue_early skb s =
    let t = record s { ofo_queue = (tcp_data_insert_ordered skb s.ofo_queue).0 } in
    tcp_send_ack (if t.options.sackok then tcp_calculate_sacks skb.seq skb.end_seq t else t)

-- tcp_data_queue: the segment as its pointer now shows it (held or not), and the socket.
unfoldable pub tcp_data_queue : SkBuff → TcpSock → SkBuff × TcpSock
tcp_data_queue skb s =
    if s.tcb.rcv_wnd == 0
    then (skb, s)
    else if skb.seq == s.tcb.rcv_nxt
    then (hold skb, queue_expected skb s)
    else (if (tcp_data_insert_ordered skb s.ofo_queue).1 then hold skb else skb, queue_early skb s)

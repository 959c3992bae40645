-- ===== src/Tcp/Output.antt =====
-- src/tcp_output.c: building, queueing and transmitting segments. Header fields are kept in host
-- order; the checksum and the network layer (ip_output, ipv6_output) lie behind the effect `transmit`,
-- whose result code the callers pass on or ignore.
use level_ip.Prelude.{
  ℕ, zero, suc, ◌+◌, ◌*◌, ◌/◌, ◌%◌, ◌^◌, Bool, true, false, not, ◌&&◌, List, [], ◌∷◌, ◌++◌, Option,
  none, some, u8, u16, u32, ltb, ◌==◌, if◌then◌else◌, length, get_or, drop, replicate,
}
use level_ip.Skbuff.{
  SkBuff, Tcphdr, alloc_skb, zero_th, skb_reserve, skb_queue_tail, skb_queue_empty,
}
use level_ip.Tcp.Sock.{State, close, transmit, SackBlock, TcpSock, emit, free_skb}
use level_ip.Tcp.Rto.{tcp_rearm_rto_timer}

-- min and max of src/utils.c.
abbrev pub min : ℕ → ℕ → ℕ
min x y = if ltb y x then y else x

abbrev pub max : ℕ → ℕ → ℕ
max x y = if ltb y x then x else y

-- The bytes of htons and htonl.
abbrev pub be16 : ℕ → List ℕ
be16 n = (n / 256 % 256) ∷ (n % 256) ∷ []

abbrev pub be32 : ℕ → List ℕ
be32 n = (n / 16777216 % 256) ∷ (n / 65536 % 256) ∷ (n / 256 % 256) ∷ (n % 256) ∷ []

abbrev pub tcp_alloc_skb : Bool → ℕ → ℕ → SkBuff
tcp_alloc_skb ipv6 optlen size =
    let reserved = 14 + (if ipv6 then 40 else 20) + 20 + optlen + size in
    record (skb_reserve (alloc_skb reserved) reserved) {
      dlen = size;
      th = record zero_th { opts = replicate optlen 0 };
    }

-- `ptr` walks over the option bytes and overwrites them from the start.
abbrev pub overwrite : List ℕ → List ℕ → List ℕ
overwrite written old = written ++ drop (length written) old

no_block : SackBlock
no_block = record { left = 0; right = 0 }

-- The loop over sacks[0 .. n-1].
unfoldable pub sack_bytes : ℕ → List SackBlock → List ℕ
sack_bytes zero bs = []
sack_bytes (suc n) [] = []
sack_bytes (suc n) (b ∷ bs) = be32 b.left ++ (be32 b.right ++ sack_bytes n bs)

-- Whether selective acknowledgements go out: sacks[0].left is 0 where no block is there.
unfoldable pub has_sacks : TcpSock → Bool
unfolding no_block
has_sacks s =
    s.options.sackok
    && ltb 0 s.options.sacklen
    && not ((get_or s.options.sacks 0 no_block).left == 0)

cleared_sacks : List SackBlock
unfolding no_block
cleared_sacks = replicate 4 no_block

unfoldable pub written_options : TcpSock → List ℕ
unfolding has_sacks sack_bytes
written_options s =
    (if s.options.wso_allowed then 1 ∷ 3 ∷ 3 ∷ s.options.rcv_scale ∷ [] else [])
    ++ (if has_sacks s
        then 1
          ∷ 1
          ∷ 5
          ∷ u8 (2 + s.options.sacklen * 8)
          ∷ sack_bytes s.options.sacklen s.options.sacks
        else [])

unfoldable pub tcp_write_options : Tcphdr → TcpSock → Tcphdr × TcpSock
unfolding written_options cleared_sacks
tcp_write_options th s = (
  record th { opts = overwrite (written_options s) th.opts },
  if has_sacks s
      then record s { options = record (s.options) { sacks = cleared_sacks; sacklen = 0 } }
      else s,
)

-- The header fields that tcp_transmit_skb fills in.
unfoldable pub filled_header : SkBuff → ℕ → TcpSock → Tcphdr
filled_header skb seq s =
    let win = u16 s.tcb.real_rcv_wnd in
    record (skb.th) {
      hl = if skb.th.hl == 0 then 5 else skb.th.hl;
      sport = s.sport;
      dport = s.dport;
      seq = seq;
      ack_seq = s.tcb.rcv_nxt;
      win = if skb.th.syn then win else win / 2 ^ s.options.rcv_scale;
    }

unfoldable pub tcp_transmit_skb : SkBuff → ℕ → TcpSock → TcpSock
unfolding tcp_write_options filled_header
tcp_transmit_skb skb seq s =
    let th = filled_header skb seq s in
    let (th', s') = tcp_write_options th s in
    if ltb 5 th.hl
    then emit (transmit th' skb.dlen skb.body) s'
    else emit (transmit th skb.dlen skb.body) s

unfoldable pub send_window_shut : ℕ → TcpSock → Bool
send_window_shut bytes s = ltb (min s.cong.cwnd s.tcb.snd_wnd) (u32 (s.cong.inflight + bytes))

-- The sleep of tcp_wait_snd_wnd. Each element of the list is the state in which the thread finds the
-- socket when it has the lock again, after one wake-up; `none` is a thread that is still asleep.
unfoldable pub tcp_wait_snd_wnd : ℕ → List TcpSock → TcpSock → Option (TcpSock × List TcpSock)
tcp_wait_snd_wnd bytes [] s = if send_window_shut bytes s then none else some (s, [])
tcp_wait_snd_wnd bytes (w ∷ ws) s =
    let rest = tcp_wait_snd_wnd bytes ws w in
    if send_window_shut bytes s then rest else some (s, w ∷ ws)

-- What follows the wait: the segment takes its place in the sequence space and in the queue.
unfoldable pub enqueue_skb : SkBuff → TcpSock → TcpSock
enqueue_skb skb s =
    let after = u32 (s.tcb.snd_nxt + skb.dlen) in
    record s {
      tcb = record (s.tcb) { snd_nxt = if skb.th.fin then u32 (after + 1) else after };
      cong = record (s.cong) { inflight = u32 (s.cong.inflight + skb.dlen) };
      write_queue =
          skb_queue_tail s.write_queue (record skb { seq = s.tcb.snd_nxt; end_seq = after });
    }

unfoldable pub queue_and_send : ℕ → SkBuff → TcpSock → TcpSock
queue_and_send tick skb s =
    let t = enqueue_skb skb s in
    let u = if skb_queue_empty s.write_queue then tcp_rearm_rto_timer tick t else t in
    tcp_transmit_skb skb s.tcb.snd_nxt u

unfoldable pub tcp_queue_transmit_skb :
    ℕ → List TcpSock → SkBuff → TcpSock → Option (TcpSock × List TcpSock)
tcp_queue_transmit_skb tick wakes skb s = elim (tcp_wait_snd_wnd skb.dlen wakes s) [
  | none ↦ none
  | some (t, ws) ↦ some (queue_and_send tick skb t, ws)
]

-- The padding loop of tcp_options_len; a remainder mod 4 needs three rounds at most.
unfoldable pub pad_to_word : ℕ → ℕ → ℕ
pad_to_word zero optlen = optlen
pad_to_word (suc fuel) optlen =
    let rest = pad_to_word fuel (u8 (optlen + 1)) in if ltb 0 (optlen % 4) then rest else optlen

unfoldable pub tcp_options_len : TcpSock → ℕ
unfolding pad_to_word has_sacks
tcp_options_len s =
    let wso : ℕ = if s.options.wso_allowed then 4 else 0 in
    pad_to_word 4 (u8 (if has_sacks s then wso + 4 + s.options.sacklen * 8 else wso))

abbrev is_close : State → Bool
is_close close = true
is_close _ = false

abbrev pub ack_skb : TcpSock → SkBuff
ack_skb s =
    let optlen = tcp_options_len s in
    let skb = tcp_alloc_skb s.ipv6 optlen 0 in
    record skb { th = record (skb.th) { ack = true; hl = 5 + optlen / 4 } }

unfoldable pub tcp_send_ack : TcpSock → TcpSock
unfolding tcp_transmit_skb tcp_options_len free_skb
tcp_send_ack s =
    if is_close s.state
    then s
    else free_skb (ack_skb s) (tcp_transmit_skb (ack_skb s) s.tcb.snd_nxt s)

unfoldable pub tcp_send_reset : TcpSock → TcpSock
unfolding tcp_transmit_skb free_skb
tcp_send_reset s =
    let skb = tcp_alloc_skb s.ipv6 0 0 in
    let rst = record skb { th = record (skb.th) { rst = true } } in
    let t = record s { tcb = record (s.tcb) { snd_una = s.tcb.snd_nxt } } in
    free_skb rst (tcp_transmit_skb rst s.tcb.snd_nxt t)

-- ===== src/Tcp/ParseOpts.antt =====
-- src/tcp_input.c: tcp_parse_opts and tcp_sack_mark_write_queue.
pub mod Loop
use level_ip.Prelude.{
  ℕ, zero, suc, ◌+◌, ◌-◌, ◌*◌, ◌/◌, Bool, true, false, ◌&&◌, ◌||◌, List, [], ◌∷◌, sub8, ltb, leb,
  ◌==◌, if◌then◌else◌, get_or,
}
use level_ip.Skbuff.{SkBuff, SkbQueue, Tcphdr}
use level_ip.Tcp.Sock.{TcpSock, SackBlock}

-- The inner loop over the blocks, and its test.
unfoldable pub in_block : SkBuff → List SackBlock → Bool
in_block skb [] = false
in_block skb (b ∷ bs) = (leb b.left skb.seq && leb skb.end_seq b.right) || in_block skb bs

unfoldable pub mark_queue : List SackBlock → SkbQueue → SkbQueue
unfolding in_block
mark_queue bs [] = []
mark_queue bs (skb ∷ q) =
    (if in_block skb bs then record skb { sacked = true } else skb) ∷ mark_queue bs q

unfoldable pub block_max : ℕ → List SackBlock → ℕ
block_max m [] = m
block_max m (b ∷ bs) = block_max (if ltb m b.right then b.right else m) bs

unfoldable pub tcp_sack_mark_write_queue : List SackBlock → TcpSock → TcpSock
unfolding mark_queue block_max
tcp_sack_mark_write_queue bs s =
    let t = record s { write_queue = mark_queue bs s.write_queue } in
    if ltb t.options.sack_max_right (block_max 0 bs)
    then record t { options = record (t.options) { sack_max_right = block_max 0 bs } }
    else t

-- The variables of the option loop. `blocks` is sack_blocks[0 .. nblocks-1].
pub record OptScan : Type 0 where
  pub ptr : ℕ
  pub optlen : ℕ
  pub scale : ℕ
  pub sack_seen : Bool
  pub blocks : List SackBlock

abbrev read32 : List ℕ → ℕ → ℕ
read32 bs i =
    get_or bs i 0 * 16777216
    + get_or bs (i + 1) 0 * 65536
    + get_or bs (i + 2) 0 * 256
    + get_or bs (i + 3) 0

unfoldable pub read_blocks : List ℕ → ℕ → ℕ → List SackBlock
read_blocks bs ptr zero = []
read_blocks bs ptr (suc n) =
    record { left = read32 bs ptr; right = read32 bs (ptr + 4) } ∷ read_blocks bs (ptr + 8) n

-- nblocks = (sack_datalen - 2) / 8, at most 4.
unfoldable pub block_count : ℕ → ℕ
block_count datalen = let n = (datalen - 2) / 8 in if ltb 4 n then 4 else n

-- One round: the `switch` on the kind of the option. The default case moves `optlen` alone.
unfoldable pub parse_opt : List ℕ → OptScan → OptScan
unfolding read_blocks block_count
parse_opt bs o =
    let kind = get_or bs o.ptr 0 in
    let n = block_count (get_or bs (o.ptr + 1) 0) in
    let wso = get_or bs (o.ptr + 2) 0 in
    let skip = λ (step : ℕ). record o { ptr = o.ptr + step; optlen = sub8 o.optlen step } in
    if kind == 2
    then skip 4
    else if kind == 1
    then skip 1
    else if kind == 4
    then skip 2
    else if kind == 5
    then record o {
      ptr = o.ptr + 2 + 8 * n;
      optlen = sub8 (sub8 o.optlen 2) (8 * n);
      sack_seen = true;
      blocks = read_blocks bs (o.ptr + 2) n;
    }
    else if kind == 8
    then skip 10
    else if kind == 3
    then record o {
      ptr = o.ptr + 3;
      optlen = sub8 o.optlen 3;
      scale = if leb wso 14 then wso else 14;
    }
    else record o { optlen = sub8 o.optlen 1 }

abbrev pub more_opts : OptScan → Bool
more_opts o = ltb 0 o.optlen && ltb o.optlen 40

unfoldable pub parse_loop : ℕ → List ℕ → OptScan → OptScan
parse_loop zero bs o = o
parse_loop (suc fuel) bs o =
    let rest = parse_loop fuel bs (parse_opt bs o) in if more_opts o then rest else o

unfoldable pub start_scan : Tcphdr → TcpSock → OptScan
start_scan th s = record {
  ptr = 0;
  optlen = sub8 (th.hl * 4) 20;
  scale = s.options.snd_scale;
  sack_seen = false;
  blocks = [];
}

-- The loop runs while 0 < optlen < 40, so its fuel is 40.
unfoldable pub tcp_parse_opts : Tcphdr → TcpSock → TcpSock
tcp_parse_opts th s =
    let o = parse_loop 40 th.opts (start_scan th s) in
    let t = record s { options = record (s.options) { snd_scale = o.scale; tsopt = 0 } } in
    if o.sack_seen && t.options.sackok then tcp_sack_mark_write_queue o.blocks t else t

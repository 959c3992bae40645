-- ===== src/Tcp/ParseOpts/Loop.antt =====
-- src/tcp_input.c: the loop of tcp_parse_opts ends, whatever the bytes are.
use level_ip.Prelude.{
  ℕ, zero, suc, ◌+◌, ◌≡◌, ◌≤◌, ◌<◌, ◌⊎◌, inl, inr, List, false, arith, Bool-cases, get_or,
}
use level_ip.Skbuff.{Tcphdr}
use level_ip.Tcp.Sock.{TcpSock}
use level_ip.Tcp.ParseOpts.{
  SackBlock, OptScan, parse_opt, parse_loop, more_opts, start_scan, tcp_parse_opts,
  tcp_sack_mark_write_queue, block_count,
}

block_count-le : (n : ℕ) → block_count n ≤ 4
unfolding block_count
block_count-le n = ground arith

-- A round shortens what is left, or wraps it round to a length that ends the loop.
parse_opt-shorter :
    (bs : List ℕ) (o : OptScan)
    → 0 < o.optlen
    → o.optlen < 40
    → let n = (parse_opt bs o).optlen in (n < o.optlen) ⊎ (40 ≤ n)
unfolding parse_opt
parse_opt-shorter bs o p h = ground (arith, block_count-le (get_or bs (o.ptr + 1) 0))

-- Once the loop has ended, more fuel changes nothing; `fuel` rounds are enough for `optlen` bytes.
parse_loop-ends :
    (fuel : ℕ) (bs : List ℕ) (o : OptScan)
    → (o.optlen ≤ fuel) ⊎ (40 ≤ o.optlen)
    → more_opts (parse_loop fuel bs o) ≡ false
unfolding parse_loop
parse_loop-ends zero bs o h = ground arith
parse_loop-ends (suc fuel) bs o h = elim (Bool-cases (more_opts o)) [
  | inr e ↦ rw e e
  | inl m ↦ rw m (parse_loop-ends fuel bs (parse_opt bs o) (ground (arith, parse_opt-shorter bs o)))
]

parse_opt-scale : (bs : List ℕ) (o : OptScan) → o.scale ≤ 14 → (parse_opt bs o).scale ≤ 14
unfolding parse_opt
parse_opt-scale bs o h = ground arith

parse_loop-scale :
    (fuel : ℕ) (bs : List ℕ) (o : OptScan) → o.scale ≤ 14 → (parse_loop fuel bs o).scale ≤ 14
unfolding parse_loop
parse_loop-scale zero bs o h = h
parse_loop-scale (suc fuel) bs o h =
    ground (arith, parse_loop-scale fuel bs (parse_opt bs o) (parse_opt-scale bs o h))

sack_mark-scale :
    (bs : List SackBlock) (s : TcpSock)
    → (tcp_sack_mark_write_queue bs s).options.snd_scale ≡ s.options.snd_scale
unfolding tcp_sack_mark_write_queue
sack_mark-scale bs s = ground arith

-- The option loop ends for every header and every content of the options, within forty rounds, and
-- leaves a window scale of at most 14 (RFC 7323) if it was so before.
pub tcp_parse_opts_ends :
    (th : Tcphdr) (s : TcpSock)
    → s.options.snd_scale ≤ 14
    → (more_opts (parse_loop 40 th.opts (start_scan th s)) ≡ false)
      × ((tcp_parse_opts th s).options.snd_scale ≤ 14)
unfolding tcp_parse_opts start_scan
tcp_parse_opts_ends th s h =
    let o = parse_loop 40 th.opts (start_scan th s) in
    let t = record s { options = record (s.options) { snd_scale = o.scale; tsopt = 0 } } in
    (
      parse_loop-ends 40 th.opts (start_scan th s) (ground arith),
      ground (arith, sack_mark-scale o.blocks t, parse_loop-scale 40 th.opts (start_scan th s) h),
    )

-- ===== src/Tcp/Data/Sacks.antt =====
-- src/tcp.c: the SACK blocks that tcp_calculate_sacks writes.
use level_ip.Prelude.{
  ℕ, zero, suc, ◌≡◌, ◌≤◌, ◌<◌, ◌⊎◌, inl, inr, refl, List, [], ◌∷◌, arith, leb, ◌&&◌, get_or, set,
  length, length-set, Bool-cases,
}
use level_ip.Skbuff.{SkBuff, SkbQueue}
use level_ip.Tcp.Sock.{TcpSock, SackBlock}
use level_ip.Tcp.Data.{SackScan, sack_enter, sack_loop, sack_start, tcp_calculate_sacks}

get_or-set_pos {ℓ} :
    {A : Type ℓ} (xs : List A) (i : ℕ) (v d : A) → 0 < i → get_or (set xs i v) 0 d ≡ get_or xs 0 d
get_or-set_pos [] i v d h = refl
get_or-set_pos (x ∷ xs) zero v d h = elim h [ ]
get_or-set_pos (x ∷ xs) (suc i) v d h = refl

record IsScan (allowed : ℕ) (first : SackBlock) (c : SackScan) : Type 0 where
  sized : length c.blocks ≡ 4
  inside : c.index < 4
  past_first : 0 < c.index
  counted : 0 < c.count
  capped : (c.count ≤ allowed) ⊎ (c.count ≡ 1)
  kept : get_or c.blocks 0 first ≡ first

sack_enter-IsScan :
    (allowed : ℕ) (first : SackBlock) (next : SkBuff) (c : SackScan)
    → allowed ≤ 4
    → c.count < allowed
    → IsScan allowed first c
    → IsScan allowed first (sack_enter allowed next c)
unfolding sack_enter
sack_enter-IsScan allowed first next c a room h = grind (arith, length-set, get_or-set_pos)

sack_loop-IsScan :
    (allowed left right : ℕ) (first : SackBlock) (q : SkbQueue) (c : SackScan)
    → allowed ≤ 4
    → IsScan allowed first c
    → IsScan allowed first (sack_loop allowed left right q c)
unfolding sack_loop
sack_loop-IsScan allowed left right first [] c a h = h
sack_loop-IsScan allowed left right first (next ∷ q) c a h =
    elim (Bool-cases (leb left next.seq && leb next.end_seq right)) [
      | inl skip ↦ rw skip (sack_loop-IsScan allowed left right first q c a h)
      | inr new ↦ elim (Bool-cases (leb allowed c.count)) [
        | inl full ↦ rw (new, full) h
        | inr room ↦
            rw (new, room)
              (sack_loop-IsScan allowed left right first q (sack_enter allowed next c) a
                (sack_enter-IsScan allowed first next c a (ground arith) h))
      ]
    ]

-- With at most four blocks allowed no write leaves the array sacks[4], the number of blocks is at
-- least one and, beyond the first, at most what is allowed, and the first block is the segment
-- that has just arrived (RFC 2018, section 4).
pub tcp_calculate_sacks_bounds :
    (left right : ℕ) (s : TcpSock)
    → s.options.sacks_allowed ≤ 4
    → let o = (tcp_calculate_sacks left right s).options in
      (length o.sacks ≡ 4)
      × (0 < o.sacklen)
      × ((o.sacklen ≤ s.options.sacks_allowed) ⊎ (o.sacklen ≡ 1))
      × (get_or o.sacks 0 (record { left = left; right = right })
          ≡ record { left = left; right = right })
unfolding tcp_calculate_sacks
tcp_calculate_sacks_bounds left right s a =
    let h =
      sack_loop-IsScan s.options.sacks_allowed left right (record { left = left; right = right })
        s.ofo_queue (sack_start left right) a
        (record {
          sized = refl;
          inside = omega arith;
          past_first = omega arith;
          counted = omega arith;
          capped = inr refl;
          kept = refl;
        }) in
    (h.sized, h.counted, h.capped, h.kept)

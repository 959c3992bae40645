-- ===== src/Skbuff.antt =====
-- src/skbuff.c and include/skbuff.h: packet buffers and their queues. Pointers into a buffer are
-- offsets from `head`. The record also holds what the TCP code reads through the buffer: the header
-- that `tcp_hdr_for_sk` (include/tcp.h) finds, and the bytes from `payload` on.
use level_ip.Prelude.{
  ℕ, ◌+◌, Bool, true, false, ◌||◌, List, [], ◌∷◌, ◌++◌, Option, none, some, u32, sub32, leb, ◌==◌,
  length,
}

-- struct tcphdr. `opts` holds the bytes from `data` to the end of the buffer.
pub record Tcphdr : Type 0 where
  pub sport : ℕ
  pub dport : ℕ
  pub seq : ℕ
  pub ack_seq : ℕ
  pub hl : ℕ
  pub fin : Bool
  pub syn : Bool
  pub rst : Bool
  pub psh : Bool
  pub ack : Bool
  pub urg : Bool
  pub win : ℕ
  pub opts : List ℕ

pub record SkBuff : Type 0 where
  pub refcnt : ℕ  -- int, as its bit pattern
  pub len : ℕ
  pub dlen : ℕ
  pub seq : ℕ
  pub end_seq : ℕ
  pub size : ℕ  -- end - head
  pub offset : ℕ  -- data - head
  pub sacked : Bool
  pub th : Tcphdr
  pub body : List ℕ

-- The all-zero header of a fresh buffer.
abbrev pub zero_th : Tcphdr
zero_th = record {
  sport = 0;
  dport = 0;
  seq = 0;
  ack_seq = 0;
  hl = 0;
  fin = false;
  syn = false;
  rst = false;
  psh = false;
  ack = false;
  urg = false;
  win = 0;
  opts = [];
}

abbrev pub alloc_skb : ℕ → SkBuff
alloc_skb n = record {
  refcnt = 0;
  len = 0;
  dlen = 0;
  seq = 0;
  end_seq = 0;
  size = n;
  offset = 0;
  sacked = false;
  th = zero_th;
  body = [];
}

abbrev pub skb_reserve : SkBuff → ℕ → SkBuff
skb_reserve skb n = record skb { offset = skb.offset + n }

-- A push past the head would leave the buffer; here it wraps as a 32-bit number does.
abbrev pub skb_push : SkBuff → ℕ → SkBuff
skb_push skb n = record skb { offset = sub32 skb.offset n; len = u32 (skb.len + n) }

abbrev pub skb_reset_header : SkBuff → SkBuff
skb_reset_header skb = record skb { offset = sub32 skb.size skb.dlen; len = skb.dlen }

abbrev pub skb_copy : SkBuff → SkBuff
skb_copy skb = record skb { refcnt = 0 }

-- refcnt++ and refcnt-- on an int.
abbrev pub hold : SkBuff → SkBuff
hold skb = record skb { refcnt = u32 (skb.refcnt + 1) }

abbrev pub unhold : SkBuff → SkBuff
unhold skb = record skb { refcnt = sub32 skb.refcnt 1 }

-- The test of `free_skb`, refcnt < 1 as a signed number.
abbrev pub is_freed : SkBuff → Bool
is_freed skb = skb.refcnt == 0 || leb 2147483648 skb.refcnt

-- struct sk_buff_head: the list, oldest first. `qlen` is its length, since every operation of
-- skbuff.h changes both together.
abbrev pub SkbQueue : Type 0
SkbQueue = List SkBuff

abbrev pub skb_queue_len : SkbQueue → ℕ
skb_queue_len q = length q

abbrev pub skb_queue_tail : SkbQueue → SkBuff → SkbQueue
skb_queue_tail q skb = q ++ skb ∷ []

abbrev pub skb_queue_empty : SkbQueue → Bool
skb_queue_empty [] = true
skb_queue_empty (skb ∷ q) = false

abbrev pub skb_peek : SkbQueue → Option SkBuff
skb_peek [] = none
skb_peek (skb ∷ q) = some skb

-- The buffers that `skb_queue_free` gives back to the allocator.
unfoldable pub skb_queue_free : SkbQueue → List SkBuff
skb_queue_free [] = []
skb_queue_free (skb ∷ q) =
    let rest = skb_queue_free q in
    elim (is_freed (unhold skb)) [ true ↦ unhold skb ∷ rest | false ↦ rest ]

-- ===== src/Tcp/Data/Carried.antt =====
-- src/tcp_data.c: segments that carry pieces of the bytes that the peer sends.
use level_ip.Tcp.Data.Stream.{queue_early-Early}
use level_ip.Tcp.Sock.{TcpSock}
use level_ip.Tcp.Data.Read.{contents, HasBody}
use level_ip.Tcp.Data.{
  queue_expected, queue_early, tcp_data_queue, tcp_data_insert_ordered, consume_loop,
}
use level_ip.Skbuff.{hold, SkBuff, SkbQueue}
use level_ip.Prelude.{
  ltb, ◌==◌, Bool-cases, length, take, drop, All, All-append, u32, ℕ, zero, suc, ◌+◌, ◌≤◌, ◌<◌, ◌≡◌,
  refl, sym, ap, ◌∙◌, inl, inr, List, [], ◌∷◌, ◌++◌, append_assoc, append-nil, arith,
}

take_none : (n : ℕ) → take {A = ℕ} n [] ≡ []
take_none zero = refl
take_none (suc n) = refl

pub take-take : (k n : ℕ) (f : List ℕ) → take k f ++ take n (drop k f) ≡ take (k + n) f
take-take zero n f = let e : n ≡ 0 + n = omega arith in ap (λ j. take j f) e
take-take (suc k) n [] = take_none n ∙ sym (take_none (suc k + n))
take-take (suc k) n (x ∷ f) =
    let e : suc (k + n) ≡ suc k + n = omega arith in
    ap (◌∷◌ x) (take-take k n f) ∙ ap (λ j. take j (x ∷ f)) e

-- The segment is the piece of `f` at some place, numbered from `a` on.
pub record Carries (a : ℕ) (f : List ℕ) (skb : SkBuff) : Type 0 where
  pub place : ℕ
  pub numbered : skb.seq ≡ u32 (a + place)
  pub within : place + skb.dlen ≤ length f
  pub piece : skb.body ≡ take skb.dlen (drop place f)
  pub sized : length skb.body ≡ skb.dlen

hold-Carries : (a : ℕ) (f : List ℕ) (skb : SkBuff) → Carries a f skb → Carries a f (hold skb)
hold-Carries a f skb c = record {
  place = c.place;
  numbered = c.numbered;
  within = c.within;
  piece = c.piece;
  sized = c.sized;
}

-- What was read and what waits are the first `k` bytes of `f`, and rcv_nxt is the number after them.
pub record Delivers (a : ℕ) (f out : List ℕ) (k : ℕ) (s : TcpSock) : Type 0 where
  pub reached : k ≤ length f
  pub next : s.tcb.rcv_nxt ≡ u32 (a + k)
  pub bytes : out ++ contents s.receive_queue ≡ take k f
  pub bodies : All HasBody s.receive_queue
  pub early : All (Carries a f) s.ofo_queue

-- A segment numbered rcv_nxt is the next piece, since fewer than 2^32 bytes are sent.
same_place :
    (a k : ℕ) (f : List ℕ) (skb : SkBuff) (c : Carries a f skb)
    → length f < 4294967296
    → k ≤ length f
    → skb.seq ≡ u32 (a + k)
    → c.place ≡ k
same_place a k f skb c m h e = omega (arith, c.numbered, c.within)

contents-append : (q : SkbQueue) (skb : SkBuff) → contents (q ++ skb ∷ []) ≡ contents q ++ skb.body
contents-append [] skb = append-nil skb.body
contents-append (x ∷ q) skb =
    ap (λ l. x.body ++ l) (contents-append q skb) ∙ sym (append_assoc x.body (contents q) skb.body)

-- The next piece behind the others.
next_piece :
    (a k : ℕ) (f out : List ℕ) (q : SkbQueue) (skb : SkBuff) (c : Carries a f skb)
    → length f < 4294967296
    → k ≤ length f
    → skb.seq ≡ u32 (a + k)
    → out ++ contents q ≡ take k f
    → (out ++ contents (q ++ skb ∷ []) ≡ take (k + skb.dlen) f) × (k + skb.dlen ≤ length f)
next_piece a k f out q skb c m h e b =
    let p = same_place a k f skb c m h e in
    (
      ap (λ l. out ++ l) (contents-append q skb)
          ∙ sym (append_assoc out (contents q) skb.body)
          ∙ ap (λ l. l ++ skb.body) b
          ∙ ap (λ l. take k f ++ l) (c.piece ∙ ap (λ n. take skb.dlen (drop n f)) p)
          ∙ take-take k skb.dlen f,
      omega (arith, c.within, p),
    )

module _ (a : ℕ) (f : List ℕ) (m : length f < 4294967296) where
  consume_loop-Delivers :
      (out : List ℕ) (k nxt : ℕ) (q ready : SkbQueue)
      → k ≤ length f
      → nxt ≡ u32 (a + k)
      → out ++ contents ready ≡ take k f
      → All HasBody ready
      → All (Carries a f) q
      → let r = consume_loop nxt q ready in
        (n : ℕ) × (k ≤ n)
        × (n ≤ length f)
        × (r.rcv_nxt ≡ u32 (a + n))
        × (out ++ contents r.ready ≡ take n f)
        × All HasBody r.ready
        × All (Carries a f) r.ofo
  unfolding consume_loop
  consume_loop-Delivers out k nxt [] ready h e b w c = (k, omega arith, h, e, b, w, tt)
  consume_loop-Delivers out k nxt (skb ∷ q) ready h e b w (d, c) =
      elim (Bool-cases (nxt == skb.seq)) [
        | inl y ↦
            let (b', h') = next_piece a k f out ready skb d m h (ground arith) b in
            let (n, l, h₂, e₂, b₂, w₂, c₂) =
              consume_loop-Delivers out (k + skb.dlen) (u32 (nxt + skb.dlen)) q (ready ++ skb ∷ [])
                h' (omega arith) b' (All-append HasBody ready (skb ∷ []) w (d.sized, tt)) c in
            rw y (n, omega (arith, l), h₂, e₂, b₂, w₂, c₂)
        | inr n ↦ rw n (k, omega arith, h, e, b, w, (d, c))
      ]

  insert-Carries :
      (skb : SkBuff) (q : SkbQueue)
      → Carries a f skb
      → All (Carries a f) q
      → All (Carries a f) (tcp_data_insert_ordered skb q).0
  unfolding tcp_data_insert_ordered
  insert-Carries skb [] c d = (hold-Carries a f skb c, tt)
  insert-Carries skb (next ∷ q) c (e, d) = elim (Bool-cases (ltb skb.seq next.seq)) [
    | inl y ↦ elim (Bool-cases (ltb next.seq skb.end_seq)) [
      | inl z ↦ rw (y, z) (e, insert-Carries skb q c d)
      | inr n ↦ rw (y, n) (hold-Carries a f skb c, (e, d))
    ]
    | inr n ↦ elim (Bool-cases (skb.seq == next.seq)) [
      | inl z ↦ rw (n, z) (e, d)
      | inr z ↦ rw (n, z) (e, insert-Carries skb q c d)
    ]
  ]

  -- A segment in order, with the early ones that it makes due.
  expected-Delivers :
      (out : List ℕ) (k : ℕ) (skb : SkBuff) (s : TcpSock)
      → Carries a f skb
      → skb.seq ≡ s.tcb.rcv_nxt
      → Delivers a f out k s
      → (n : ℕ) × (k ≤ n) × Delivers a f out n (queue_expected skb s)
  unfolding queue_expected
  expected-Delivers out k skb s c e d =
      let (b, h) =
        next_piece a k f out s.receive_queue (hold skb) (hold-Carries a f skb c) m d.reached
          (e ∙ d.next) d.bytes in
      let (n, l, h', e', b', w', c') =
        consume_loop-Delivers out (k + skb.dlen) (u32 (s.tcb.rcv_nxt + skb.dlen)) s.ofo_queue
          (s.receive_queue ++ hold skb ∷ []) h (omega (arith, d.next)) b
          (All-append HasBody s.receive_queue (hold skb ∷ []) d.bodies (c.sized, tt)) d.early in
      (n, omega (arith, l), record { reached = h'; next = e'; bytes = b'; bodies = w'; early = c' })

  early-Delivers :
      (out : List ℕ) (k : ℕ) (skb : SkBuff) (s : TcpSock)
      → Carries a f skb
      → Delivers a f out k s
      → Delivers a f out k (queue_early skb s)
  early-Delivers out k skb s c d =
      let e = queue_early-Early skb s in
      record {
        reached = d.reached;
        next = rw e.tcb_kept d.next;
        bytes = rw e.receive_kept d.bytes;
        bodies = rw e.receive_kept d.bodies;
        early = rw e.ofo_new (insert-Carries skb s.ofo_queue c d.early);
      }

  pub data_queue-Delivers :
      (out : List ℕ) (k : ℕ) (skb : SkBuff) (s : TcpSock)
      → Carries a f skb
      → Delivers a f out k s
      → (n : ℕ) × (k ≤ n) × Delivers a f out n (tcp_data_queue skb s).1
  unfolding tcp_data_queue
  data_queue-Delivers out k skb s c d = elim (Bool-cases (s.tcb.rcv_wnd == 0)) [
    | inl z ↦ rw z (k, omega arith, d)
    | inr z ↦ elim (Bool-cases (skb.seq == s.tcb.rcv_nxt)) [
      | inl e ↦ rw (z, e) (expected-Delivers out k skb s c (ground arith) d)
      | inr e ↦ rw (z, e) (k, omega arith, early-Delivers out k skb s c d)
    ]
  ]

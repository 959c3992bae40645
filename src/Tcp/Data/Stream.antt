-- ===== src/Tcp/Data/Stream.antt =====
-- src/tcp_data.c: the receive queue is one gapless stretch of the sequence space that ends at
-- rcv_nxt.
use level_ip.Prelude.{
  subst, ℕ, ◌+◌, ◌≡◌, refl, sym, ◌∙◌, inl, inr, [], ◌∷◌, ◌++◌, arith, u32, ◌==◌, if◌then◌else◌,
  Bool-cases, All,
}
use level_ip.Skbuff.{SkBuff, SkbQueue, hold}
use level_ip.Tcp.Sock.{TcpSock}
use level_ip.Tcp.Data.{
  tcp_data_insert_ordered, consume_loop, tcp_data_queue, queue_expected, queue_early,
  tcp_calculate_sacks,
}
use level_ip.Tcp.Frame.{tcp_send_ack-Untouched}

-- Each segment begins where the one before it ends, from `a` up to `b`.
abbrev pub Chain : ℕ → SkbQueue → ℕ → Type 0
Chain a [] b = a ≡ b
Chain a (skb ∷ q) b = (skb.seq ≡ a) × Chain skb.end_seq q b

-- tcp_init_segment sets end_seq so.
abbrev pub IsFramed : SkBuff → Type 0
IsFramed skb = skb.end_seq ≡ u32 (skb.seq + skb.dlen)

pub record IsStream (a : ℕ) (s : TcpSock) : Type 0 where
  pub chain : Chain a s.receive_queue s.tcb.rcv_nxt
  pub framed : All IsFramed s.ofo_queue

Chain-append :
    (a : ℕ) (q : SkbQueue) (skb : SkBuff) (b : ℕ)
    → Chain a q b
    → skb.seq ≡ b
    → Chain a (q ++ skb ∷ []) skb.end_seq
Chain-append a [] skb b h e = (e ∙ sym h, refl)
Chain-append a (x ∷ q) skb b h e = (h.0, Chain-append x.end_seq q skb b h.1 e)

consume_loop-Chain :
    (a nxt : ℕ) (q ready : SkbQueue)
    → All IsFramed q
    → Chain a ready nxt
    → let r = consume_loop nxt q ready in Chain a r.ready r.rcv_nxt × All IsFramed r.ofo
unfolding consume_loop
consume_loop-Chain a nxt [] ready f h = (h, tt)
consume_loop-Chain a nxt (skb ∷ q) ready f h = elim (Bool-cases (nxt == skb.seq)) [
  | inl e ↦ rw e (
      consume_loop-Chain a (u32 (nxt + skb.dlen)) q (ready ++ skb ∷ []) f.1 (
        subst (Chain a (ready ++ skb ∷ [])) (ground arith)
          (Chain-append a ready skb nxt h (ground arith))))
  | inr e ↦ rw e (h, f)
]

insert-IsFramed :
    (skb : SkBuff) (q : SkbQueue)
    → IsFramed skb
    → All IsFramed q
    → All IsFramed (tcp_data_insert_ordered skb q).0
unfolding tcp_data_insert_ordered
insert-IsFramed skb [] f h = (f, tt)
insert-IsFramed skb (next ∷ q) f h = ground (arith, insert-IsFramed skb q f h.1)

queue_expected-IsStream :
    (a : ℕ) (skb : SkBuff) (s : TcpSock)
    → IsFramed skb
    → skb.seq ≡ s.tcb.rcv_nxt
    → IsStream a s
    → IsStream a (queue_expected skb s)
unfolding queue_expected
queue_expected-IsStream a skb s f e h =
    let r =
      consume_loop-Chain a (u32 (s.tcb.rcv_nxt + skb.dlen)) s.ofo_queue
        (s.receive_queue ++ hold skb ∷ []) h.framed
        (subst (Chain a (s.receive_queue ++ hold skb ∷ [])) (ground arith)
          (Chain-append a s.receive_queue (hold skb) s.tcb.rcv_nxt h.chain e)) in
    record { chain = r.0; framed = r.1 }

-- An early segment moves neither rcv_nxt nor the receive queue.
pub record Early (skb : SkBuff) (s t : TcpSock) : Type 0 where
  pub state_kept : t.state ≡ s.state
  pub tcb_kept : t.tcb ≡ s.tcb
  pub receive_kept : t.receive_queue ≡ s.receive_queue
  pub ofo_new : t.ofo_queue ≡ (tcp_data_insert_ordered skb s.ofo_queue).0

pub queue_early-Early : (skb : SkBuff) (s : TcpSock) → Early skb s (queue_early skb s)
unfolding queue_early
queue_early-Early skb s =
    let t = record s { ofo_queue = (tcp_data_insert_ordered skb s.ofo_queue).0 } in
    let u = if t.options.sackok then tcp_calculate_sacks skb.seq skb.end_seq t else t in
    ground (arith, tcp_send_ack-Untouched u)

queue_early-IsStream :
    (a : ℕ) (skb : SkBuff) (s : TcpSock)
    → IsFramed skb
    → IsStream a s
    → IsStream a (queue_early skb s)
queue_early-IsStream a skb s f h =
    let e = queue_early-Early skb s in
    record {
      chain = rw (e.receive_kept, e.tcb_kept) h.chain;
      framed = rw e.ofo_new (insert-IsFramed skb s.ofo_queue f h.framed);
    }

-- Whatever arrives, the receive queue stays one stretch without a gap from its first byte to
-- rcv_nxt, given that the segments carry the end numbers that tcp_init_segment computes.
pub tcp_data_queue-IsStream :
    (a : ℕ) (skb : SkBuff) (s : TcpSock)
    → IsFramed skb
    → IsStream a s
    → IsStream a (tcp_data_queue skb s).1
unfolding tcp_data_queue
tcp_data_queue-IsStream a skb s f h = elim (Bool-cases (s.tcb.rcv_wnd == 0)) [
  | inl z ↦ rw z h
  | inr z ↦ elim (Bool-cases (skb.seq == s.tcb.rcv_nxt)) [
    | inl e ↦ rw (z, e) (queue_expected-IsStream a skb s f (ground arith) h)
    | inr e ↦ rw (z, e) (queue_early-IsStream a skb s f h)
  ]
]

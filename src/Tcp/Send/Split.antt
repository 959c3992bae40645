-- ===== src/Tcp/Send/Split.antt =====
-- src/tcp_output.c: tcp_send cuts a buffer into segments and queues them.
use level_ip.Tcp.Send.Queued.{queue_and_send-Sends, queue_transmit_open}
use level_ip.Prelude.{
  subst, ℕ, zero, suc, ◌+◌, ◌≡◌, ◌≤◌, ◌<◌, refl, sym, ap, ◌∙◌, false, List, [], ◌∷◌, ◌++◌, some,
  arith, u32, All, append_assoc, append-nil, length, take, drop, take-append-drop, length-append,
}
use level_ip.Skbuff.{SkBuff, SkbQueue}
use level_ip.Tcp.Sock.{TcpSock}
use level_ip.Tcp.Rto.{tcp_rearm_user_timeout}
use level_ip.Tcp.Output.{min, send_window_shut, queue_and_send}
use level_ip.Tcp.Send.{send_loop, tcp_send, data_skb, is_nil}
use level_ip.Tcp.Data.Stream.{Chain}
use level_ip.Tcp.Data.Read.{contents}

-- Room for `n` more bytes, in the window and below 2^32.
pub record HasRoom (n : ℕ) (s : TcpSock) : Type 0 where
  pub some_mss : 0 < s.cong.smss
  pub in_window : s.cong.inflight + n ≤ min s.cong.cwnd s.tcb.snd_wnd
  pub flight_fits : s.cong.inflight + n < 4294967296
  pub nxt_fits : s.tcb.snd_nxt + n < 4294967296

-- The segments of one call.
pub record IsSplit (buf : List ℕ) (s t : TcpSock) (segs : SkbQueue) : Type 0 where
  pub appended : t.write_queue ≡ s.write_queue ++ segs
  pub whole : contents segs ≡ buf
  pub sized :
      All (λ skb. (skb.dlen ≤ s.cong.smss) × (0 < skb.dlen) × (length skb.body ≡ skb.dlen)) segs
  pub numbered : Chain s.tcb.snd_nxt segs t.tcb.snd_nxt
  pub nxt : t.tcb.snd_nxt ≡ s.tcb.snd_nxt + length buf
  pub flight : t.cong.inflight ≡ s.cong.inflight + length buf

open_window : (n m : ℕ) (s : TcpSock) → n ≤ m → HasRoom m s → send_window_shut n s ≡ false
unfolding send_window_shut
open_window n m s h r = ground arith

take-le : (m : ℕ) (xs : List ℕ) → length (take m xs) ≤ m
take-le zero xs = omega arith
take-le (suc m) [] = omega arith
take-le (suc m) (x ∷ xs) = omega (arith, take-le m xs)

take-drop : (m : ℕ) (xs : List ℕ) → length (take m xs) + length (drop m xs) ≡ length xs
take-drop m xs = sym (length-append (take m xs) (drop m xs)) ∙ ap length (take-append-drop m xs)

take_size :
    (mss b : ℕ) (bs : List ℕ)
    → 0 < mss
    → let n = length (take mss (b ∷ bs)) in
      (0 < n) × (n ≤ mss) × (n + length (drop mss (b ∷ bs)) ≡ length (b ∷ bs))
take_size zero b bs h = elim h [ ]
take_size (suc m) b bs h = (omega arith, omega (arith, take-le m bs), omega (arith, take-drop m bs))

abbrev first_skb : TcpSock → ℕ → List ℕ → SkBuff
first_skb s b bs =
    let skb = data_skb s.ipv6 (take s.cong.smss (b ∷ bs)) (is_nil (drop s.cong.smss (b ∷ bs))) in
    record skb { seq = s.tcb.snd_nxt; end_seq = u32 (s.tcb.snd_nxt + skb.dlen) }

-- The socket after the first segment, with room for what is left.
record First (n : ℕ) (x : SkBuff) (s t : TcpSock) : Type 0 where
  queue_new : t.write_queue ≡ s.write_queue ++ x ∷ []
  nxt_new : t.tcb.snd_nxt ≡ s.tcb.snd_nxt + n
  nxt_word : t.tcb.snd_nxt ≡ u32 (s.tcb.snd_nxt + n)
  flight_new : t.cong.inflight ≡ s.cong.inflight + n
  mss_kept : t.cong.smss ≡ s.cong.smss

queue_and_send-First :
    (tick : ℕ) (s : TcpSock) (b : ℕ) (bs : List ℕ)
    → HasRoom (length (b ∷ bs)) s
    → let n = length (take s.cong.smss (b ∷ bs)) in
      let left = drop s.cong.smss (b ∷ bs) in
      let t = queue_and_send tick (data_skb s.ipv6 (take s.cong.smss (b ∷ bs)) (is_nil left)) s in
      First n (first_skb s b bs) s t × HasRoom (length left) t
queue_and_send-First tick s b bs r =
    let left = drop s.cong.smss (b ∷ bs) in
    let skb = data_skb s.ipv6 (take s.cong.smss (b ∷ bs)) (is_nil left) in
    let q = queue_and_send-Sends tick skb s refl in
    let p = take_size s.cong.smss b bs r.some_mss in
    let flight = ap (λ c. c.inflight) q.cong_new in
    let mss = ap (λ c. c.smss) q.cong_new in
    let cwnd = ap (λ c. c.cwnd) q.cong_new in
    (
      record {
        queue_new = q.queue_new;
        nxt_new = omega (arith, q.nxt_new, p);
        nxt_word = q.nxt_new;
        flight_new = omega (arith, flight, p);
        mss_kept = mss;
      },
      record {
        some_mss = omega (arith, mss);
        in_window = ground (arith, q.wnd_kept, flight, cwnd, p, r);
        flight_fits = omega (arith, flight, p);
        nxt_fits = omega (arith, q.nxt_new, p);
      },
    )

IsSplit-cons :
    (s t u : TcpSock) (b : ℕ) (bs : List ℕ) (segs : SkbQueue)
    → let n = length (take s.cong.smss (b ∷ bs)) in
      let left = drop s.cong.smss (b ∷ bs) in
      First n (first_skb s b bs) s t
      → (0 < n) × (n ≤ s.cong.smss) × (n + length left ≡ length (b ∷ bs))
      → IsSplit left t u segs
      → IsSplit (b ∷ bs) s u (first_skb s b bs ∷ segs)
IsSplit-cons s t u b bs segs f p k = record {
  appended =
      k.appended
      ∙ ap (λ q. q ++ segs) f.queue_new
      ∙ append_assoc s.write_queue (first_skb s b bs ∷ []) segs;
  whole = ap (λ l. take s.cong.smss (b ∷ bs) ++ l) k.whole ∙ take-append-drop s.cong.smss (b ∷ bs);
  sized = (
    (p.1, p.0, refl),
    subst (λ m. All (λ skb. (skb.dlen ≤ m) × (0 < skb.dlen) × (length skb.body ≡ skb.dlen)) segs)
        f.mss_kept k.sized,
  );
  numbered = (refl, subst (λ m. Chain m segs u.tcb.snd_nxt) f.nxt_word k.numbered);
  nxt = omega (arith, k.nxt, f.nxt_new, p);
  flight = omega (arith, k.flight, f.flight_new, p);
}

send_step :
    (fuel tick : ℕ) (wakes : List TcpSock) (b : ℕ) (bs : List ℕ) (s : TcpSock)
    → send_window_shut (length (take s.cong.smss (b ∷ bs))) s ≡ false
    → let left = drop s.cong.smss (b ∷ bs) in
      send_loop (suc fuel) tick s.cong.smss wakes (b ∷ bs) s
      ≡ send_loop fuel tick s.cong.smss wakes left
          (queue_and_send tick (data_skb s.ipv6 (take s.cong.smss (b ∷ bs)) (is_nil left)) s)
unfolding send_loop
send_step fuel tick wakes b bs s e =
    let left = drop s.cong.smss (b ∷ bs) in
    let skb = data_skb s.ipv6 (take s.cong.smss (b ∷ bs)) (is_nil left) in
    rw (queue_transmit_open tick wakes skb s e, send_loop)

send_loop-IsSplit :
    (fuel tick : ℕ) (wakes : List TcpSock) (buf : List ℕ) (s : TcpSock)
    → length buf ≤ fuel
    → HasRoom (length buf) s
    → (t : TcpSock) × (segs : SkbQueue) × (send_loop fuel tick s.cong.smss wakes buf s
        ≡ some (t, wakes))
      × IsSplit buf s t segs
unfolding send_loop
send_loop-IsSplit fuel tick wakes [] s h r = (
  s,
  [],
  refl,
  record {
    appended = sym (append-nil s.write_queue);
    whole = refl;
    sized = tt;
    numbered = refl;
    nxt = omega arith;
    flight = omega arith;
  },
)
send_loop-IsSplit zero tick wakes (b ∷ bs) s h r = absurd (omega arith)
send_loop-IsSplit (suc fuel) tick wakes (b ∷ bs) s h r =
    let n = length (take s.cong.smss (b ∷ bs)) in
    let left = drop s.cong.smss (b ∷ bs) in
    let skb = data_skb s.ipv6 (take s.cong.smss (b ∷ bs)) (is_nil left) in
    let t = queue_and_send tick skb s in
    let p = take_size s.cong.smss b bs r.some_mss in
    let q = queue_and_send-First tick s b bs r in
    let (u, segs, e, k) = send_loop-IsSplit fuel tick wakes left t (omega (arith, p)) q.1 in
    (
      u,
      first_skb s b bs ∷ segs,
      send_step fuel tick wakes b bs s (open_window n (length (b ∷ bs)) s (omega (arith, p)) r)
          ∙ subst (λ m. send_loop fuel tick m wakes left t ≡ some (u, wakes)) q.0.mss_kept e,
      IsSplit-cons s t u b bs segs q.0 p k,
    )

pub user_timeout-kept :
    (tick : ℕ) (s : TcpSock)
    → let t = tcp_rearm_user_timeout tick s in
      (t.tcb ≡ s.tcb) × (t.cong ≡ s.cong) × (t.write_queue ≡ s.write_queue)
unfolding tcp_rearm_user_timeout
user_timeout-kept tick s = ground arith

-- With room for the whole buffer in the send window, tcp_send returns without sleeping and has queued
-- exactly the bytes of the buffer, in non-empty segments of at most one MSS, numbered one after the
-- other from snd_nxt; snd_nxt and the flight grow by the number of bytes.
pub tcp_send-IsSplit :
    (tick : ℕ) (wakes : List TcpSock) (buf : List ℕ) (s : TcpSock)
    → HasRoom (length buf) s
    → (t : TcpSock) × (segs : SkbQueue) × (tcp_send tick wakes buf s ≡ some (t, wakes))
      × IsSplit buf s t segs
unfolding tcp_send
tcp_send-IsSplit tick wakes buf s r =
    let (u, segs, e, k) = send_loop-IsSplit (length buf) tick wakes buf s (omega arith) r in
    let (tcb, cong, queue) = user_timeout-kept tick u in
    (
      tcp_rearm_user_timeout tick u,
      segs,
      rw (e, tcp_send),
      record {
        appended = queue ∙ k.appended;
        whole = k.whole;
        sized = k.sized;
        numbered = subst (λ c. Chain s.tcb.snd_nxt segs c.snd_nxt) (sym tcb) k.numbered;
        nxt = ap (λ c. c.snd_nxt) tcb ∙ k.nxt;
        flight = ap (λ c. c.inflight) cong ∙ k.flight;
      },
    )

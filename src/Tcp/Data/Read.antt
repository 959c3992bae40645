-- ===== src/Tcp/Data/Read.antt =====
-- src/tcp_data.c: what tcp_data_dequeue copies out, and what it gives back to the window.
use level_ip.Prelude.{
  ℕ, zero, suc, ◌+◌, ◌-◌, ◌≡◌, ◌≤◌, ◌<◌, refl, sym, ap, subst, ◌∙◌, inl, inr, List, [], ◌∷◌, ◌++◌,
  arith, u32, ltb, ◌==◌, Bool-cases, All, append_assoc, length, take, drop, take-append-drop,
  take_all, length-append,
}
use level_ip.Skbuff.{SkBuff, SkbQueue}
use level_ip.Tcp.Sock.{TcpSock}
use level_ip.Tcp.Output.{min}
use level_ip.Tcp.Data.{
  dequeue_loop, tcp_data_dequeue, Dequeued, eat_skb, increase_recv_win, copy_len, advance,
}

-- The bytes that wait in a queue, and their number by the dlen fields.
abbrev pub contents : SkbQueue → List ℕ
contents [] = []
contents (skb ∷ q) = skb.body ++ contents q

abbrev pub queued : SkbQueue → ℕ
queued [] = 0
queued (skb ∷ q) = skb.dlen + queued q

abbrev pub HasBody : SkBuff → Type 0
HasBody skb = length skb.body ≡ skb.dlen

length-drop : (n : ℕ) (xs : List ℕ) → length (drop n xs) ≡ length xs - n
length-drop zero xs = omega arith
length-drop (suc n) [] = omega arith
length-drop (suc n) (x ∷ xs) = omega (arith, length-drop n xs)

length-take : (n : ℕ) (xs : List ℕ) → n ≤ length xs → length (take n xs) ≡ n
length-take zero xs h = refl
length-take (suc n) [] h = elim h [ ]
length-take (suc n) (x ∷ xs) h = omega (arith, length-take n xs (omega arith))

-- One call of the loop, from `rlen` bytes on.
pub record Reads (userlen rlen : ℕ) (q : SkbQueue) (s : TcpSock) (r : Dequeued) : Type 0 where
  pub split : r.out ++ contents r.queue ≡ contents q
  pub counted : r.rlen ≡ rlen + length r.out
  pub filled : r.rlen ≡ min userlen (rlen + queued q)
  pub bodies : All HasBody r.queue
  pub window : u32 (r.sock.tcb.real_rcv_wnd + queued r.queue) ≡ u32 (s.tcb.real_rcv_wnd + queued q)

eat_skb-tcb : (skb : SkBuff) (s : TcpSock) → (eat_skb skb s).tcb ≡ s.tcb
unfolding eat_skb
eat_skb-tcb skb s = ground arith

increase_recv_win-wnd :
    (n : ℕ) (s : TcpSock) → (increase_recv_win n s).tcb.real_rcv_wnd ≡ u32 (s.tcb.real_rcv_wnd + n)
unfolding increase_recv_win
increase_recv_win-wnd n s = refl

copy_len_bounds :
    (userlen rlen : ℕ) (skb : SkBuff)
    → rlen ≤ userlen
    → let n = copy_len userlen rlen skb in
      (n ≤ skb.dlen) × (rlen + n ≤ userlen) × (n < skb.dlen → rlen + n ≡ userlen)
unfolding copy_len
copy_len_bounds userlen rlen skb h = ground arith

take_whole : (n : ℕ) (xs : List ℕ) → length xs ≡ n → take n xs ≡ xs
take_whole n xs e = subst (λ k. take k xs ≡ xs) e (take_all xs)

module _ (userlen rlen n : ℕ) (skb : SkBuff) (q : SkbQueue) (s : TcpSock) where
  Reads-whole :
      (u : TcpSock) (r : Dequeued)
      → n ≡ skb.dlen
      → HasBody skb
      → u.tcb.real_rcv_wnd ≡ u32 (s.tcb.real_rcv_wnd + n)
      → Reads userlen (rlen + n) q u r
      → Reads userlen rlen
          (skb ∷ q)
          s
          (record { queue = r.queue; rlen = r.rlen; out = take n skb.body ++ r.out; sock = r.sock })
  Reads-whole u r e b w h =
      let whole : take n skb.body ≡ skb.body = take_whole n skb.body (b ∙ sym e) in
      record {
        split =
            rw whole
              (append_assoc skb.body r.out (contents r.queue) ∙ ap (λ l. skb.body ++ l) h.split);
        counted = omega (arith, h.counted, length-append (take n skb.body) r.out, ap length whole);
        filled = ground (arith, h.filled);
        bodies = h.bodies;
        window = omega (arith, h.window);
      }

  Reads-part :
      (t : TcpSock)
      → n < skb.dlen
      → rlen + n ≡ userlen
      → HasBody skb
      → All HasBody q
      → t.tcb.real_rcv_wnd ≡ u32 (s.tcb.real_rcv_wnd + n)
      → Reads userlen rlen
          (skb ∷ q)
          s
          (record { queue = advance n skb ∷ q; rlen = rlen + n; out = take n skb.body; sock = t })
  unfolding advance
  Reads-part t lt e b bs w = record {
    split =
        sym (append_assoc (take n skb.body) (drop n skb.body) (contents q))
        ∙ ap (λ l. l ++ contents q) (take-append-drop n skb.body);
    counted = omega (arith, length-take n skb.body);
    filled = ground arith;
    bodies = (omega (arith, length-drop n skb.body), bs);
    window = omega arith;
  }

dlen-advance : (n : ℕ) (skb : SkBuff) → (advance n skb).dlen ≡ skb.dlen - n
unfolding advance
dlen-advance n skb = refl

dequeue_loop-Reads :
    (userlen rlen : ℕ) (q : SkbQueue) (s : TcpSock)
    → rlen ≤ userlen
    → All HasBody q
    → Reads userlen rlen q s (dequeue_loop userlen q rlen s)
unfolding dequeue_loop
dequeue_loop-Reads userlen rlen [] s h b = ground arith
dequeue_loop-Reads userlen rlen (skb ∷ q) s h b =
    let n = copy_len userlen rlen skb in
    let t = increase_recv_win n s in
    let u = eat_skb (advance n skb) t in
    let (fits, room, rest) = copy_len_bounds userlen rlen skb h in
    let ih = dequeue_loop-Reads userlen (rlen + n) q u room b.1 in
    let wnd = increase_recv_win-wnd n s in
    elim (Bool-cases (ltb rlen userlen)) [
      | inr full ↦ rw full (ground arith)
      | inl more ↦ elim (Bool-cases ((advance n skb).dlen == 0)) [
        | inl whole ↦
            rw (more, whole)
              (Reads-whole userlen rlen n skb q s u _ (ground (arith, dlen-advance n skb)) b.0
                (ap (λ c. c.real_rcv_wnd) (eat_skb-tcb (advance n skb) t) ∙ wnd) ih)
        | inr part ↦
            let lt : n < skb.dlen = ground (arith, dlen-advance n skb) in
            rw (more, part) (Reads-part userlen rlen n skb q s t lt (rest lt) b.0 b.1 wnd)
      ]
    ]

-- Reading copies the next bytes of the stream in order, as many as asked for or as there are: what
-- was copied and what is left make up the old queue, and every byte read comes back to the window,
-- modulo 2^32. This holds for segments whose bodies have dlen bytes.
pub tcp_data_dequeue-Reads :
    (userlen : ℕ) (s : TcpSock)
    → All HasBody s.receive_queue
    → Reads userlen 0 s.receive_queue s (tcp_data_dequeue userlen s)
      × ((tcp_data_dequeue userlen s).sock.receive_queue ≡ (tcp_data_dequeue userlen s).queue)
unfolding tcp_data_dequeue
tcp_data_dequeue-Reads userlen s b =
    let h = dequeue_loop-Reads userlen 0 s.receive_queue s (omega arith) b in ground arith

-- ===== src/Tcp/Data/Pipe.antt =====
-- src/tcp_data.c as a pipe: the received stream, specified without segments and sequence numbers.
use level_ip.Tcp.Sock.{TcpSock}
use level_ip.Tcp.Data.Read.{queued, tcp_data_dequeue-Reads, HasBody, contents}
use level_ip.Tcp.Data.Carried.{data_queue-Delivers, take-take, Carries, Delivers}
use level_ip.Tcp.Data.{
  copy_len, advance, increase_recv_win, eat_skb, dequeue_loop, tcp_data_dequeue, tcp_data_queue,
}
use level_ip.Skbuff.{SkbQueue, SkBuff}
use level_ip.Prelude.{
  leb, Bool-cases, ◌<◌, ◌⊎◌, inl, inr, length-append, drop, take, length, All, sym, ◌∙◌,
  append_assoc, ℕ, zero, suc, ◌+◌, ◌-◌, ◌≤◌, ◌≡◌, refl, ap, List, [], ◌∷◌, ◌++◌, arith,
}

-- What the application has, and what it may read next.
pub record Pipe : Type 0 where
  pub taken : List ℕ
  pub ready : List ℕ

-- The next bytes of `f` may arrive, and the application may take bytes in front.
pub data PipeStep (f : List ℕ) : Pipe → Pipe → Type 0 where
  arrives :
      (taken ready : List ℕ) (n : ℕ)
      → PipeStep f
          (record { taken = taken; ready = ready })
          (record { taken = taken; ready = ready ++ take n (drop (length taken + length ready) f) })
  reads :
      (taken ready : List ℕ) (n : ℕ)
      → PipeStep f
          (record { taken = taken; ready = ready })
          (record { taken = taken ++ take n ready; ready = drop n ready })

-- The socket, and the bytes that its reader was given.
pub record Reader : Type 0 where
  pub sock : TcpSock
  pub out : List ℕ

abbrev pub pipe : Reader → Pipe
pipe r = record { taken = r.out; ready = contents r.sock.receive_queue }

-- A segment is queued, the application reads at most `n` bytes.
pub data ReaderStep (a : ℕ) (f : List ℕ) : Reader → Reader → Type 0 where
  queues :
      (skb : SkBuff) (s : TcpSock) (out : List ℕ)
      → Carries a f skb
      → ReaderStep a f
          (record { sock = s; out = out })
          (record { sock = (tcp_data_queue skb s).1; out = out })
  dequeues :
      (n : ℕ) (s : TcpSock) (out : List ℕ)
      → ReaderStep a f
          (record { sock = s; out = out })
          (record { sock = (tcp_data_dequeue n s).sock; out = out ++ (tcp_data_dequeue n s).out })

pub record IsReader (a : ℕ) (f : List ℕ) (r : Reader) : Type 0 where
  pub count : ℕ
  pub delivers : Delivers a f r.out count r.sock

take-length : (xs ys : List ℕ) → take (length xs) (xs ++ ys) ≡ xs
take-length [] ys = refl
take-length (x ∷ xs) ys = ap (◌∷◌ x) (take-length xs ys)

drop-length : (xs ys : List ℕ) → drop (length xs) (xs ++ ys) ≡ ys
drop-length [] ys = refl
drop-length (x ∷ xs) ys = drop-length xs ys

length-take_le : (k : ℕ) (f : List ℕ) → k ≤ length f → length (take k f) ≡ k
length-take_le zero f h = refl
length-take_le (suc k) [] h = absurd (omega arith)
length-take_le (suc k) (x ∷ f) h = omega (arith, length-take_le k f (omega arith))

append-cancel : (xs ys zs : List ℕ) → xs ++ ys ≡ xs ++ zs → ys ≡ zs
append-cancel [] ys zs e = e
append-cancel (x ∷ xs) ys zs e = append-cancel xs ys zs (cc)

-- Of two prefixes with a common part in front the longer one goes on with the bytes of `f`.
grown :
    (f out ready more : List ℕ) (k n : ℕ)
    → k ≤ length f
    → k ≤ n
    → out ++ ready ≡ take k f
    → out ++ more ≡ take n f
    → more ≡ ready ++ take (n - k) (drop (length out + length ready) f)
grown f out ready more k n h m b c =
    let len : length out + length ready ≡ k =
      omega (arith, length-append {0} out ready, ap (length {A = ℕ}) b, length-take_le k f h) in
    let e : k + (n - k) ≡ n = omega arith in
    let piece : take k f ++ take (n - k) (drop k f) ≡ take n f =
      take-take k (n - k) f ∙ ap (λ j. take j f) e in
    append-cancel out more _ (
      c
      ∙ sym piece
      ∙ ap (λ l. l ++ take (n - k) (drop k f)) (sym b)
      ∙ append_assoc out ready (take (n - k) (drop k f))
      ∙ ap (λ j. out ++ (ready ++ take (n - k) (drop j f))) (sym len))

eat_skb-kept :
    (skb : SkBuff) (s : TcpSock)
    → ((eat_skb skb s).tcb ≡ s.tcb) × ((eat_skb skb s).ofo_queue ≡ s.ofo_queue)
unfolding eat_skb
eat_skb-kept skb s = ground arith

-- What a read leaves alone.
dequeue_loop-kept :
    (userlen : ℕ) (q : SkbQueue) (rlen : ℕ) (s : TcpSock)
    → let t = (dequeue_loop userlen q rlen s).sock in
      (t.tcb.rcv_nxt ≡ s.tcb.rcv_nxt) × (t.ofo_queue ≡ s.ofo_queue)
unfolding dequeue_loop increase_recv_win
dequeue_loop-kept userlen [] rlen s = (refl, refl)
dequeue_loop-kept userlen (skb ∷ q) rlen s =
    let n = copy_len userlen rlen skb in
    let t = increase_recv_win n s in
    let u = eat_skb (advance n skb) t in
    ground (arith, eat_skb-kept (advance n skb) t, dequeue_loop-kept userlen q (rlen + n) u)

dequeue-kept :
    (n : ℕ) (s : TcpSock)
    → let t = (tcp_data_dequeue n s).sock in
      (t.tcb.rcv_nxt ≡ s.tcb.rcv_nxt) × (t.ofo_queue ≡ s.ofo_queue)
unfolding tcp_data_dequeue
dequeue-kept n s = ground (arith, dequeue_loop-kept n s.receive_queue 0 s)

length-contents : (q : SkbQueue) → All HasBody q → length (contents q) ≡ queued q
length-contents [] w = refl
length-contents (skb ∷ q) w =
    omega (arith, length-append {0} skb.body (contents q), length-contents q w.1, w.0)

take-more : (n : ℕ) (xs : List ℕ) → length xs ≤ n → (take n xs ≡ xs) × (drop n xs ≡ [])
take-more zero [] h = (refl, refl)
take-more zero (x ∷ xs) h = absurd (omega arith)
take-more (suc n) [] h = (refl, refl)
take-more (suc n) (x ∷ xs) h = let (t, d) = take-more n xs (omega arith) in (ap (◌∷◌ x) t, d)

le_cases : (n m : ℕ) → (n ≤ m) ⊎ (m < n)
le_cases n m = elim (Bool-cases (leb n m)) [
  | inl y ↦ inl (ground arith)
  | inr k ↦ inr (ground arith)
]

-- A read hands over the bytes in front, as many as were asked for or as there are.
dequeued :
    (n : ℕ) (s : TcpSock)
    → All HasBody s.receive_queue
    → let r = tcp_data_dequeue n s in
      (r.out ≡ take n (contents s.receive_queue))
      × (contents r.sock.receive_queue ≡ drop n (contents s.receive_queue))
dequeued n s w =
    let r = tcp_data_dequeue n s in
    let (done, queue) = tcp_data_dequeue-Reads n s w in
    let ready = contents s.receive_queue in
    let left = contents r.queue in
    let rest : contents r.sock.receive_queue ≡ left = ap contents queue in
    let count = length-contents s.receive_queue w in
    elim (le_cases n (length ready)) [
      | inl short ↦
          let long : length r.out ≡ n = ground (arith, done.counted, done.filled, count) in
          (
            sym (take-length r.out left)
                ∙ ap (take (length r.out)) done.split
                ∙ ap (λ j. take j ready) long,
            rest
                ∙ sym (drop-length r.out left)
                ∙ ap (drop (length r.out)) done.split
                ∙ ap (λ j. drop j ready) long,
          )
      | inr more ↦
          let long : length r.out ≡ length ready =
            ground (arith, done.counted, done.filled, count) in
          let (t, d) = take-more n ready (omega arith) in
          let (t', d') = take-more (length ready) ready (omega arith) in
          (
            sym (take-length r.out left)
                ∙ ap (take (length r.out)) done.split
                ∙ ap (λ j. take j ready) long
                ∙ t'
                ∙ sym t,
            rest
                ∙ sym (drop-length r.out left)
                ∙ ap (drop (length r.out)) done.split
                ∙ ap (λ j. drop j ready) long
                ∙ d'
                ∙ sym d,
          )
    ]

-- Zero steps or more.
pub data PipeRun (f : List ℕ) (p : Pipe) : Pipe → Type 0 where
  starts : PipeRun f p p
  then_step : {q r : Pipe} → PipeRun f p q → PipeStep f q r → PipeRun f p r

pub data ReaderRun (a : ℕ) (f : List ℕ) (r : Reader) : Reader → Type 0 where
  begins : ReaderRun a f r r
  and_step : {s t : Reader} → ReaderRun a f r s → ReaderStep a f s t → ReaderRun a f r t

-- The state of the socket after a read.
dequeue-Delivers :
    (a : ℕ) (f out : List ℕ) (k n : ℕ) (s : TcpSock)
    → Delivers a f out k s
    → let r = tcp_data_dequeue n s in Delivers a f (out ++ r.out) k r.sock
dequeue-Delivers a f out k n s d =
    let r = tcp_data_dequeue n s in
    let (done, queue) = tcp_data_dequeue-Reads n s d.bodies in
    let (nxt, ofo) = dequeue-kept n s in
    record {
      reached = d.reached;
      next = nxt ∙ d.next;
      bytes =
          append_assoc out r.out (contents r.sock.receive_queue)
          ∙ ap (λ q. out ++ (r.out ++ contents q)) queue
          ∙ ap (λ l. out ++ l) done.split
          ∙ d.bytes;
      bodies = rw queue done.bodies;
      early = rw ofo d.early;
    }

module _ (a : ℕ) (f : List ℕ) (m : length f < 4294967296) where
  step-IsReader : {r t : Reader} → ReaderStep a f r t → IsReader a f r → IsReader a f t
  step-IsReader (queues skb s out c) h =
      let (n, l, d) = data_queue-Delivers a f m out h.count skb s c h.delivers in
      record { count = n; delivers = d }
  step-IsReader (dequeues n s out) h = record {
    count = h.count;
    delivers = dequeue-Delivers a f out h.count n s h.delivers;
  }

  step-PipeStep :
      {r t : Reader} → ReaderStep a f r t → IsReader a f r → PipeStep f (pipe r) (pipe t)
  step-PipeStep (queues skb s out c) h =
      let (n, l, d) = data_queue-Delivers a f m out h.count skb s c h.delivers in
      let ready = contents s.receive_queue in
      let e =
        grown f out ready (contents (tcp_data_queue skb s).1.receive_queue) h.count n
          h.delivers.reached l h.delivers.bytes d.bytes in
      rw e (arrives out ready (n - h.count))
  step-PipeStep (dequeues n s out) h =
      let (t, d) = dequeued n s h.delivers.bodies in
      rw (t, d) (reads out (contents s.receive_queue) n)

  run-IsReader : {r t : Reader} → ReaderRun a f r t → IsReader a f r → IsReader a f t
  run-IsReader begins h = h
  run-IsReader (and_step x st) h = step-IsReader st (run-IsReader x h)

  run_steps : {r t : Reader} → ReaderRun a f r t → IsReader a f r → PipeRun f (pipe r) (pipe t)
  run_steps begins h = starts
  run_steps (and_step x st) h = then_step (run_steps x h) (step-PipeStep st (run-IsReader x h))

  -- Whatever segments arrive, in order or early, and whatever is read in between, the socket behaves as
  -- a pipe: each run of it is a run of the pipe from the same start, and what the application was
  -- given, with what it may read next, is a prefix of the bytes that are sent. The segments carry
  -- pieces of those bytes, fewer than 2^32 in all, numbered from the first; the start is any state in
  -- which this holds already.
  pub run-PipeRun :
      {r t : Reader}
      → ReaderRun a f r t
      → IsReader a f r
      → PipeRun f (pipe r) (pipe t)
        × ((k : ℕ) × (k ≤ length f) × (t.out ++ contents t.sock.receive_queue ≡ take k f))
  run-PipeRun x h =
      let g = run-IsReader x h in (run_steps x h, (g.count, g.delivers.reached, g.delivers.bytes))

-- ===== src/Socket/Named/Runs.antt =====
-- src/socket.c: every step keeps the names apart, and a descriptor finds its socket.
use Prim.Native.Nat.{bit_and}
use mathlib.Core.List.{Memᴰ}
use mathlib.Core.Option.{some-injective}
use level_ip.Prelude.{
  ◌≤◌, ◌==◌, ap, subst, sym, ◌≡◌, refl, ◌≢◌, inl, inr, All, All-append, Bool-cases, Option-cases, ℤ,
  not, Option, none, some, List, [], ◌∷◌, ◌++◌, ℕ, ◌+◌, ◌<◌, arith, pos, u16, ltb, ◌||◌, ◌-◌,
}
use level_ip.Socket.{
  socket_free, increment, is_disconnecting, socket_delete, Family, Socket, Sockets, alloc_socket,
  socket_wr_acquire, socket_release, write_socket, socket_find, socket_garbage_collect, get_socket,
  adjust_loop, socket_adjust_pmtu6,
}
use level_ip.Socket.Api.{
  inet_dgram_connect, fcntl_flags, inet_create, families, create, open_socket, call_socket,
  connect_socket, is_fatal,
}
use level_ip.Socket.Named.{
  given, Name, name, names, Differs, Distinct, IsBelow, IsFresh, Keeps, Step, TableRun, IsNamed,
  All-name, socket_free-IsNamed, names-write_socket, names-adjust_loop, get_socket-Mem,
}
use level_ip.Socket.Named.Step.{opens, calls, connects, collects, adjusts}
use level_ip.Socket.Named.TableRun.{here, then_step}

renamed-IsNamed :
    (s : Sockets) (xs : List Socket)
    → names xs ≡ names s.sockets
    → IsNamed s
    → IsNamed (record s { sockets = xs })
renamed-IsNamed s xs e h = record {
  distinct = subst Distinct (sym e) h.distinct;
  below = subst (All (IsBelow s.next_fd)) (sym e) h.below;
}

released-IsNamed :
    (op : Socket → ℤ × Socket) (t : Socket) (s : Sockets)
    → Keeps op
    → Memᴰ t s.sockets
    → IsNamed s
    → IsNamed (record s {
      sockets = write_socket (socket_release (op (socket_wr_acquire t)).1).1 s.sockets;
    })
unfolding socket_wr_acquire socket_release
released-IsNamed op t s k m h =
    renamed-IsNamed s (write_socket (socket_release (op (socket_wr_acquire t)).1).1 s.sockets)
      (names-write_socket t (socket_release (op (socket_wr_acquire t)).1).1 s.sockets m
        (k (socket_wr_acquire t)) h.distinct)
      h

call_socket-IsNamed :
    (op : Socket → ℤ × Socket) (pid fd : ℕ) (s : Sockets)
    → Keeps op
    → IsNamed s
    → IsNamed (call_socket op pid fd s).1
unfolding call_socket
call_socket-IsNamed op pid fd s k h = elim (Option-cases (get_socket pid fd s.sockets)) [
  | inl e ↦ rw (e, call_socket) h
  | inr (t, e) ↦
      rw (e, call_socket) (released-IsNamed op t s k (get_socket-Mem pid fd s.sockets t e) h)
]

connect_socket-IsNamed :
    (op : Socket → ℤ × Socket) (pid fd : ℕ) (s : Sockets)
    → Keeps op
    → IsNamed s
    → IsNamed (connect_socket op pid fd s).1
unfolding connect_socket
connect_socket-IsNamed op pid fd s k h = elim (Option-cases (get_socket pid fd s.sockets)) [
  | inl e ↦ rw (e, connect_socket) h
  | inr (t, e) ↦
      let u = (socket_release (op (socket_wr_acquire t)).1).1 in
      let r = released-IsNamed op t s k (get_socket-Mem pid fd s.sockets t e) h in
      elim (Bool-cases (is_fatal (op (socket_wr_acquire t)).0)) [
        | inl b ↦
            rw (e, connect_socket, b)
              (socket_free-IsNamed u (record s { sockets = write_socket u s.sockets }) r)
        | inr b ↦ rw (e, connect_socket, b) r
      ]
]

collect-IsNamed : (id : ℕ) (s : Sockets) → IsNamed s → IsNamed (socket_garbage_collect id s)
unfolding socket_garbage_collect
collect-IsNamed id s h = elim (Option-cases (socket_find id s.sockets)) [
  | inl e ↦ rw (e, socket_garbage_collect) h
  | inr (t, e) ↦ rw (e, socket_garbage_collect) (socket_free-IsNamed t s h)
]

All-map : (P Q : Name → Type 0) → ((n : Name) → P n → Q n) → (ns : List Name) → All P ns → All Q ns
All-map P Q f [] h = tt
All-map P Q f (n ∷ ns) (h, hs) = (f n h, All-map P Q f ns hs)

-- A new name at the end, of which both parts are new.
Distinct-append :
    (n : Name) (ns : List Name)
    → Distinct ns
    → All (λ m. m.id ≢ n.id) ns
    → All (IsBelow n.fd) ns
    → Distinct (ns ++ n ∷ [])
Distinct-append n [] d f b = (tt, tt)
Distinct-append n (m ∷ ns) (d, ds) (f, fs) (b, bs) = (
  All-append (Differs m) ns (n ∷ []) d (((λ e. f (sym e)), (λ e. omega (arith, e, b))), tt),
  Distinct-append n ns ds fs bs,
)

names-append : (xs : List Socket) (t : Socket) → names (xs ++ t ∷ []) ≡ names xs ++ name t ∷ []
names-append [] t = refl
names-append (x ∷ xs) t = ap (◌∷◌ (name x)) (names-append xs t)

raise : (s : Sockets) → IsNamed s → All (IsBelow (s.next_fd + 1)) (names s.sockets)
raise s h =
    All-map (IsBelow s.next_fd) (IsBelow (s.next_fd + 1)) (λ n b. omega (arith, b))
      (names s.sockets) h.below

added-IsNamed :
    (t : Socket) (s : Sockets) (amount : ℤ)
    → t.fd ≡ s.next_fd
    → IsFresh t.id s.sockets
    → IsNamed s
    → IsNamed
        (record s { sockets = s.sockets ++ t ∷ []; sock_amount = amount; next_fd = s.next_fd + 1 })
added-IsNamed t s amount e f h = record {
  distinct = subst Distinct (sym (names-append s.sockets t)) (
      Distinct-append (name t) (names s.sockets) h.distinct f
        (subst (λ n. All (IsBelow n) (names s.sockets)) (sym e) h.below));
  below = subst (All (IsBelow (s.next_fd + 1))) (sym (names-append s.sockets t)) (
      All-append (IsBelow (s.next_fd + 1)) (names s.sockets) (name t ∷ []) (raise s h)
        (omega (arith, e), tt));
}

create-name : (f : Option Family) (t u : Socket) → create f t ≡ some u → name u ≡ name t
unfolding create inet_create
create-name none t u e = absurd cc
create-name (some f) t u e = elim (Bool-cases (bit_and 1 t.type == 0)) [
  | inl a ↦ elim (Bool-cases (bit_and 2 t.type == 0)) [
    | inl b ↦ let k = rw (a, b) at e in absurd cc
    | inr b ↦ let k = rw (a, b) at e in ap name (sym (some-injective _ _ k))
  ]
  | inr a ↦ let k = rw a at e in ap name (sym (some-injective _ _ k))
]

open_socket-IsNamed :
    (id pid domain type : ℕ) (s : Sockets)
    → IsFresh id s.sockets
    → IsNamed s
    → IsNamed (open_socket id pid domain type s).1
unfolding open_socket alloc_socket
open_socket-IsNamed id pid domain type s f h =
    let t = record ((alloc_socket id pid s).0) { type = type } in
    elim (Option-cases (create (families domain) t)) [
      | inl e ↦
          rw (e, open_socket)
            (socket_free-IsNamed t (record s { next_fd = s.next_fd + 1 })
              (record { distinct = h.distinct; below = raise s h }))
      | inr (u, e) ↦
          let k = create-name (families domain) t u e in
          rw (e, open_socket)
            (added-IsNamed u s (increment s.sock_amount) (ap (λ (n : Name). n.fd) k)
              (subst (λ i. IsFresh i s.sockets) (sym (ap (λ (n : Name). n.id) k)) f) h)
    ]

adjust-IsNamed :
    (daddr : List ℕ) (pmtu : ℕ) (s : Sockets)
    → IsNamed s
    → IsNamed (socket_adjust_pmtu6 daddr pmtu s)
unfolding socket_adjust_pmtu6
adjust-IsNamed daddr pmtu s h =
    let mss = u16 (pmtu + 65536 - 60) in
    renamed-IsNamed s (adjust_loop daddr mss s.sockets) (names-adjust_loop daddr mss s.sockets) h

step-IsNamed : (s : Sockets) (fds : List ℕ) (t : Sockets) → Step s fds t → IsNamed s → IsNamed t
step-IsNamed _ _ _ (opens id pid domain type s f) h = open_socket-IsNamed id pid domain type s f h
step-IsNamed _ _ _ (calls op pid fd s k) h = call_socket-IsNamed op pid fd s k h
step-IsNamed _ _ _ (connects op pid fd s k) h = connect_socket-IsNamed op pid fd s k h
step-IsNamed _ _ _ (collects id s) h = collect-IsNamed id s h
step-IsNamed _ _ _ (adjusts daddr pmtu s) h = adjust-IsNamed daddr pmtu s h

run-IsNamed : (s : Sockets) (fds : List ℕ) (t : Sockets) → TableRun s fds t → IsNamed s → IsNamed t
run-IsNamed s _ _ here h = h
run-IsNamed s _ t (then_step {t = m} {fds = fds} {more = more} r k) h =
    step-IsNamed m more t k (run-IsNamed s fds m r h)

abbrev pub Unrepeated : List ℕ → Type 0
Unrepeated [] = Unit
Unrepeated (n ∷ ns) = All (λ m. m ≢ n) ns × Unrepeated ns

-- The descriptors that were given are below the next one, and all different.
abbrev Counted : List ℕ → Sockets → Type 0
Counted fds s = All (λ n. n < s.next_fd) fds × Unrepeated fds

below_more : (n m : ℕ) (ns : List ℕ) → n ≤ m → All (λ k. k < n) ns → All (λ k. k < m) ns
below_more n m [] e h = tt
below_more n m (k ∷ ns) e (h, hs) = (omega arith, below_more n m ns e hs)

below_ne : (n : ℕ) (ns : List ℕ) → All (λ k. k < n) ns → All (λ k. k ≢ n) ns
below_ne n [] h = tt
below_ne n (k ∷ ns) (h, hs) = ((λ e. omega arith), below_ne n ns hs)

open_socket-Counted :
    (id pid domain type : ℕ) (s : Sockets) (fds : List ℕ)
    → Counted fds s
    → Counted
        (given (open_socket id pid domain type s).0 ++ fds)
        (open_socket id pid domain type s).1
unfolding open_socket alloc_socket socket_free
open_socket-Counted id pid domain type s fds (b, u) =
    let t = record ((alloc_socket id pid s).0) { type = type } in
    let more = below_more s.next_fd (s.next_fd + 1) fds (omega arith) b in
    elim (Option-cases (create (families domain) t)) [
      | inl e ↦ rw (e, open_socket) (more, u)
      | inr (x, e) ↦
          let k : x.fd ≡ s.next_fd =
            ap (λ (n : Name). n.fd) (create-name (families domain) t x e) in
          let new = subst (λ n. All (λ m. m ≢ n) fds) (sym k) (below_ne s.next_fd fds b) in
          rw (e, open_socket) ((omega arith, more), (new, u))
    ]

step-Counted :
    (s : Sockets) (more : List ℕ) (t : Sockets) (fds : List ℕ)
    → Step s more t
    → Counted fds s
    → Counted (more ++ fds) t
unfolding call_socket connect_socket socket_garbage_collect socket_adjust_pmtu6 socket_free
step-Counted _ _ _ fds (opens id pid domain type s f) c =
    open_socket-Counted id pid domain type s fds c
step-Counted _ _ _ fds (calls op pid fd s k) c = elim (Option-cases (get_socket pid fd s.sockets)) [
  | inl e ↦ rw (e, call_socket) c
  | inr (t, e) ↦ rw (e, call_socket) c
]
step-Counted _ _ _ fds (connects op pid fd s k) c =
    elim (Option-cases (get_socket pid fd s.sockets)) [
      | inl e ↦ rw (e, connect_socket) c
      | inr (t, e) ↦ elim (Bool-cases (is_fatal (op (socket_wr_acquire t)).0)) [
        | inl b ↦ rw (e, connect_socket, b) c
        | inr b ↦ rw (e, connect_socket, b) c
      ]
    ]
step-Counted _ _ _ fds (collects id s) c = elim (Option-cases (socket_find id s.sockets)) [
  | inl e ↦ rw (e, socket_garbage_collect) c
  | inr (t, e) ↦ rw (e, socket_garbage_collect) c
]
step-Counted _ _ _ fds (adjusts daddr pmtu s) c = c

run-Counted : (s : Sockets) (fds : List ℕ) (t : Sockets) → TableRun s fds t → Counted fds t
run-Counted s _ _ here = (tt, tt)
run-Counted s _ t (then_step {t = m} {fds = fds} {more = more} r k) =
    step-Counted m more t fds k (run-Counted s fds m r)

-- Operations of the code that keep the name.
pub dgram_connect-Keeps :
    (addr port family addr_len : ℕ) → Keeps (inet_dgram_connect addr port family addr_len)
unfolding inet_dgram_connect
dgram_connect-Keeps addr port family addr_len t = elim (Option-cases t.sk) [
  | inl e ↦ rw e refl
  | inr (sk, e) ↦ elim (Bool-cases (ltb addr_len 16 || not (family == 2))) [
    | inl b ↦ rw (e, b) refl
    | inr b ↦ rw (e, b) refl
  ]
]

pub fcntl_flags-Keeps : (cmd arg : ℕ) → Keeps (fcntl_flags cmd arg)
unfolding fcntl_flags
fcntl_flags-Keeps cmd arg t = elim (Bool-cases (cmd == 3)) [
  | inl a ↦ rw a refl
  | inr a ↦ elim (Bool-cases (cmd == 4)) [ inl b ↦ rw (a, b) refl | inr b ↦ rw (a, b) refl ]
]

pub delete-Keeps : Keeps (λ t. (pos 0, socket_delete t))
unfolding socket_delete
delete-Keeps t = elim (Bool-cases (is_disconnecting t.state)) [
  | inl b ↦ rw b refl
  | inr b ↦ rw b refl
]

-- The variables as the program starts.
abbrev pub start : Sockets
start = record { sockets = []; sock_amount = pos 0; next_fd = 4097 }

get_socket-Distinct :
    (t : Socket) (xs : List Socket)
    → Memᴰ t xs
    → Distinct (names xs)
    → get_socket t.pid t.fd xs ≡ some t
unfolding get_socket
get_socket-Distinct t [] m h = elim m [ ]
get_socket-Distinct t (x ∷ xs) (Memᴰ.head e) h =
    subst (λ y. get_socket y.pid y.fd (x ∷ xs) ≡ some y) (sym e) (ground arith)
get_socket-Distinct t (x ∷ xs) (Memᴰ.tail m) (d, ds) =
    ground (arith, All-name (Differs (name x)) t xs m d, get_socket-Distinct t xs m ds)

socket_find-Distinct :
    (t : Socket) (xs : List Socket) → Memᴰ t xs → Distinct (names xs) → socket_find t.id xs ≡ some t
unfolding socket_find
socket_find-Distinct t [] m h = elim m [ ]
socket_find-Distinct t (x ∷ xs) (Memᴰ.head e) h =
    subst (λ y. socket_find y.id (x ∷ xs) ≡ some y) (sym e) (ground arith)
socket_find-Distinct t (x ∷ xs) (Memᴰ.tail m) (d, ds) =
    ground (arith, All-name (Differs (name x)) t xs m d, socket_find-Distinct t xs m ds)

-- A socket of the table is the one that its process and descriptor, or its address, name; and no
-- descriptor is given twice in a run, whatever was closed meanwhile.
pub run-IsFound :
    (fds : List ℕ) (t : Sockets) (sock : Socket)
    → TableRun start fds t
    → Memᴰ sock t.sockets
    → (get_socket sock.pid sock.fd t.sockets ≡ some sock)
      × (socket_find sock.id t.sockets ≡ some sock)
      × (sock.fd < t.next_fd)
      × Unrepeated fds
run-IsFound fds t sock r m =
    let h = run-IsNamed start fds t r (record { distinct = tt; below = tt }) in
    (
      get_socket-Distinct sock t.sockets m h.distinct,
      socket_find-Distinct sock t.sockets m h.distinct,
      All-name (IsBelow t.next_fd) sock t.sockets m h.below,
      (run-Counted start fds t r).1,
    )

-- ===== src/Socket/Named.antt =====
-- src/socket.c: descriptors name sockets, whatever calls are made and timers expire.
pub mod Runs
use mathlib.Core.List.{Memᴰ}
use level_ip.Prelude.{
  negsuc, pos, ◌==◌, if◌then◌else◌, ap, subst, sym, ◌∙◌, ◌≡◌, refl, ◌≢◌, ◌⊎◌, inl, inr, All,
  All-append, Bool-cases, Option-cases, ℤ, Bool, true, false, not, ◌&&◌, Option, none, some, List,
  [], ◌∷◌, ◌++◌, ℕ, ◌+◌, ◌<◌, ◌≤◌, arith,
}
use level_ip.Socket.{
  Family, Sk, Socket, Sockets, alloc_socket, socket_wr_acquire, socket_release, list_del,
  write_socket, socket_free, socket_find, socket_garbage_collect, get_socket, adjust_socket,
  adjust_loop, socket_adjust_pmtu6,
}
use level_ip.Socket.Api.{
  inet_create, families, create, open_socket, call_socket, connect_socket, fcntl, is_fatal,
}

-- What a socket keeps from its creation on.
pub record Name : Type 0 where
  pub id : ℕ
  pub fd : ℕ
  pub pid : ℕ

abbrev pub name : Socket → Name
name t = record { id = t.id; fd = t.fd; pid = t.pid }

abbrev pub names : List Socket → List Name
names [] = []
names (t ∷ xs) = name t ∷ names xs

-- Neither the memory nor the descriptor of `n` is that of `m`.
abbrev pub Differs : Name → Name → Type 0
Differs n m = (m.id ≢ n.id) × (m.fd ≢ n.fd)

abbrev pub Distinct : List Name → Type 0
Distinct [] = Unit
Distinct (n ∷ ns) = All (Differs n) ns × Distinct ns

abbrev pub IsBelow : ℕ → Name → Type 0
IsBelow next n = n.fd < next

-- malloc returns memory that no socket of the list has.
abbrev pub IsFresh : ℕ → List Socket → Type 0
IsFresh id xs = All (λ n. n.id ≢ id) (names xs)

-- The operations of a socket leave its name alone.
abbrev pub Keeps : (Socket → ℤ × Socket) → Type 0
Keeps op = (t : Socket) → name (op t).1 ≡ name t

-- The descriptor that a socket() gave, if it gave one.
abbrev pub given : ℤ → List ℕ
given (pos fd) = fd ∷ []
given (negsuc e) = []

-- A step, with the descriptors that it gives to the application.
pub data Step : Sockets → List ℕ → Sockets → Type 0 where
  opens :
      (id pid domain type : ℕ) (s : Sockets)
      → IsFresh id s.sockets
      → Step s (given (open_socket id pid domain type s).0) (open_socket id pid domain type s).1
  calls :
      (op : Socket → ℤ × Socket) (pid fd : ℕ) (s : Sockets)
      → Keeps op
      → Step s [] (call_socket op pid fd s).1
  connects :
      (op : Socket → ℤ × Socket) (pid fd : ℕ) (s : Sockets)
      → Keeps op
      → Step s [] (connect_socket op pid fd s).1
  collects : (id : ℕ) (s : Sockets) → Step s [] (socket_garbage_collect id s)
  adjusts : (daddr : List ℕ) (pmtu : ℕ) (s : Sockets) → Step s [] (socket_adjust_pmtu6 daddr pmtu s)

-- A sequence of steps, with all descriptors given, the last first.
pub data TableRun : Sockets → List ℕ → Sockets → Type 0 where
  here : {s : Sockets} → TableRun s [] s
  then_step :
      {s t u : Sockets} {fds more : List ℕ}
      → TableRun s fds t
      → Step t more u
      → TableRun s (more ++ fds) u

pub record IsNamed (s : Sockets) : Type 0 where
  pub distinct : Distinct (names s.sockets)
  pub below : All (IsBelow s.next_fd) (names s.sockets)

-- What holds of two names holds of the names that a deletion leaves.
All-list_del :
    (P : Name → Type 0) (id : ℕ) (xs : List Socket)
    → All P (names xs)
    → All P (names (list_del id xs))
unfolding list_del
All-list_del P id [] h = tt
All-list_del P id (t ∷ xs) (h, hs) = elim (Bool-cases (t.id == id)) [
  | inl e ↦ rw e hs
  | inr e ↦ rw e (h, All-list_del P id xs hs)
]

Distinct-list_del :
    (id : ℕ) (xs : List Socket) → Distinct (names xs) → Distinct (names (list_del id xs))
unfolding list_del
Distinct-list_del id [] h = tt
Distinct-list_del id (t ∷ xs) (h, hs) = elim (Bool-cases (t.id == id)) [
  | inl e ↦ rw e hs
  | inr e ↦ rw e (All-list_del (Differs (name t)) id xs h, Distinct-list_del id xs hs)
]

pub socket_free-IsNamed : (t : Socket) (s : Sockets) → IsNamed s → IsNamed (socket_free t s).1
unfolding socket_free
socket_free-IsNamed t s h = record {
  distinct = Distinct-list_del t.id s.sockets h.distinct;
  below = All-list_del (IsBelow s.next_fd) t.id s.sockets h.below;
}

pub All-name :
    (P : Name → Type 0) (t : Socket) (xs : List Socket) → Memᴰ t xs → All P (names xs) → P (name t)
All-name P t [] m h = elim m [ ]
All-name P t (x ∷ xs) (Memᴰ.head e) (h, hs) = subst P (ap name (sym e)) h
All-name P t (x ∷ xs) (Memᴰ.tail m) (h, hs) = All-name P t xs m hs

-- A write to a socket of the list that keeps its name keeps all names.
pub names-write_socket :
    (t u : Socket) (xs : List Socket)
    → Memᴰ t xs
    → name u ≡ name t
    → Distinct (names xs)
    → names (write_socket u xs) ≡ names xs
unfolding write_socket
names-write_socket t u [] m k h = elim m [ ]
names-write_socket t u (x ∷ xs) (Memᴰ.head e) k (h, hs) =
    let i : u.id ≡ x.id = ap (λ (n : Name). n.id) k ∙ ap (λ (y : Socket). y.id) e in
    elim (Bool-cases (x.id == u.id)) [
      | inl b ↦ rw b (ap (λ n. n ∷ names xs) (k ∙ ap name e))
      | inr b ↦ absurd (ground (arith, i))
    ]
names-write_socket t u (x ∷ xs) (Memᴰ.tail m) k (h, hs) =
    let i : u.id ≡ t.id = ap (λ (n : Name). n.id) k in
    let d = All-name (Differs (name x)) t xs m h in
    elim (Bool-cases (x.id == u.id)) [
      | inl b ↦ absurd (d.0 (ground arith))
      | inr b ↦ rw b (ap (◌∷◌ (name x)) (names-write_socket t u xs m k hs))
    ]

pub names-adjust_loop :
    (daddr : List ℕ) (mss : ℕ) (xs : List Socket) → names (adjust_loop daddr mss xs) ≡ names xs
unfolding adjust_loop adjust_socket
names-adjust_loop daddr mss [] = refl
names-adjust_loop daddr mss (t ∷ xs) = elim (Option-cases t.sk) [
  | inl e ↦ rw e (ap (◌∷◌ (name t)) (names-adjust_loop daddr mss xs))
  | inr (k, e) ↦ rw e (ap (◌∷◌ (name t)) (names-adjust_loop daddr mss xs))
]

pub get_socket-Mem :
    (pid fd : ℕ) (xs : List Socket) (t : Socket) → get_socket pid fd xs ≡ some t → Memᴰ t xs
unfolding get_socket
get_socket-Mem pid fd [] t e = absurd cc
get_socket-Mem pid fd (x ∷ xs) t e = elim (Bool-cases (x.pid == pid && (x.fd == fd))) [
  | inl b ↦ let k = rw b at e in Memᴰ.head cc
  | inr b ↦ let k = rw b at e in Memᴰ.tail (get_socket-Mem pid fd xs t k)
]

-- ===== src/Socket/Lookup/Found.antt =====
-- src/socket.c: what the lookup in two phases finds, described without the loops.
use level_ip.Prelude.{
  Option-cases, ap, sym, ◌∙◌, ◌≡◌, refl, ◌≢◌, ◌⊎◌, inl, inr, All, Bool-cases, true, false, ◌&&◌,
  Option, none, some, List, [], ◌∷◌, ◌++◌, arith,
}
use level_ip.Route.{zero6}
use level_ip.Ipv6.{same, ipv6_addr_equal, ipv6_addr_is_unspecified}
use level_ip.Ipv6.Address.{same_refl, eq_of_same}
use level_ip.Tcp.Sock.{State}
use level_ip.Tcp.Sock.State.{
  listen, syn_sent, syn_received, established, fin_wait_1, fin_wait_2, close, close_wait, closing,
  last_ack, time_wait,
}
use level_ip.Socket.{Family, same_family, Sk, Socket}
use level_ip.Socket.Family.{af_inet, af_inet6}
use level_ip.Socket.Lookup.{
  Tuple, is_listen, match_ends, match_local, tcp_sock_match_established, tcp_sock_match_listener,
  is_established_for, is_listener_for, tcp_lookup_established, tcp_lookup_listener, socket_lookup,
}

-- The addresses of both ends, and of the local end.
abbrev pub HasEnds : Family → Tuple → Sk → Type 0
HasEnds af_inet q sk = (sk.daddr4 ≡ q.remotesaddr) × (sk.saddr4 ≡ q.localsaddr)
HasEnds af_inet6 q sk = (sk.daddr6 ≡ q.remote6) × (sk.saddr6 ≡ q.local6)

abbrev pub HasLocal : Family → Tuple → Sk → Type 0
HasLocal af_inet q sk = sk.saddr4 ≡ q.localsaddr
HasLocal af_inet6 q sk = (q.local6 ≡ zero6) ⊎ (sk.saddr6 ≡ q.local6)

-- A TCP socket of the family, on the port.
pub record IsOnPort (q : Tuple) (sk : Sk) : Type 0 where
  pub family : sk.addr_family ≡ q.family
  pub tcp : sk.protocol ≡ 6
  pub port : sk.sport ≡ q.localport

-- The end of the connection that the tuple names.
pub record IsEndOf (q : Tuple) (sock : Socket) : Type 0 where
  pub sk : Sk
  pub has : sock.sk ≡ some sk
  pub on : IsOnPort q sk
  pub connected : sk.state ≢ listen
  pub remote : sk.dport ≡ q.remoteport
  pub ends : HasEnds q.family q sk

-- A listening socket that accepts connections at the local end of the tuple.
pub record IsListening (q : Tuple) (sock : Socket) : Type 0 where
  pub sk : Sk
  pub has : sock.sk ≡ some sk
  pub on : IsOnPort q sk
  pub listens : sk.state ≡ listen
  pub local : HasLocal q.family q sk

pub record IsFirst (P : Socket → Type 0) (x : Socket) (xs : List Socket) : Type 0 where
  pub before : List Socket
  pub after : List Socket
  pub split : xs ≡ before ++ x ∷ after
  pub others : All (λ y. ¬ P y) before
  pub holds : P x

-- The first end of the connection, or else the first listening socket, or else nothing.
abbrev pub Answers : Tuple → List Socket → Option Socket → Type 0
Answers q xs none = All (λ y. ¬ IsEndOf q y) xs × All (λ y. ¬ IsListening q y) xs
Answers q xs (some x) =
    IsFirst (IsEndOf q) x xs ⊎ (All (λ y. ¬ IsEndOf q y) xs × IsFirst (IsListening q) x xs)

family_eq : (a b : Family) → same_family a b ≡ true → a ≡ b
unfolding same_family
family_eq af_inet af_inet h = refl
family_eq af_inet af_inet6 h = absurd cc
family_eq af_inet6 af_inet h = absurd cc
family_eq af_inet6 af_inet6 h = refl

family_refl : (a : Family) → same_family a a ≡ true
unfolding same_family
family_refl af_inet = refl
family_refl af_inet6 = refl

listen_of : (s : State) → is_listen s ≡ true → s ≡ listen
unfolding is_listen
listen_of listen h = refl
listen_of syn_sent h = absurd cc
listen_of syn_received h = absurd cc
listen_of established h = absurd cc
listen_of fin_wait_1 h = absurd cc
listen_of fin_wait_2 h = absurd cc
listen_of close h = absurd cc
listen_of close_wait h = absurd cc
listen_of closing h = absurd cc
listen_of last_ack h = absurd cc
listen_of time_wait h = absurd cc

is_listen-listen : is_listen listen ≡ true
unfolding is_listen
is_listen-listen = refl

match_ends-HasEnds : (f : Family) (q : Tuple) (sk : Sk) → match_ends f q sk ≡ true → HasEnds f q sk
unfolding match_ends
match_ends-HasEnds af_inet q sk h = ground arith
match_ends-HasEnds af_inet6 q sk h =
    (eq_of_same sk.daddr6 q.remote6 (ground arith), eq_of_same sk.saddr6 q.local6 (ground arith))

HasEnds-match_ends : (f : Family) (q : Tuple) (sk : Sk) → HasEnds f q sk → match_ends f q sk ≡ true
unfolding match_ends
HasEnds-match_ends af_inet q sk (a, b) = ground arith
HasEnds-match_ends af_inet6 q sk (a, b) = ground (
  arith,
  ap (same sk.daddr6) (sym a) ∙ same_refl sk.daddr6,
  ap (same sk.saddr6) (sym b) ∙ same_refl sk.saddr6,
)

match_local-HasLocal :
    (f : Family) (q : Tuple) (sk : Sk) → match_local f q sk ≡ true → HasLocal f q sk
unfolding match_local ipv6_addr_is_unspecified ipv6_addr_equal
match_local-HasLocal af_inet q sk h = ground arith
match_local-HasLocal af_inet6 q sk h = elim (Bool-cases (same q.local6 zero6)) [
  | inl e ↦ inl (eq_of_same q.local6 zero6 e)
  | inr e ↦ inr (eq_of_same sk.saddr6 q.local6 (ground arith))
]

HasLocal-match_local :
    (f : Family) (q : Tuple) (sk : Sk) → HasLocal f q sk → match_local f q sk ≡ true
unfolding match_local ipv6_addr_is_unspecified ipv6_addr_equal
HasLocal-match_local af_inet q sk h = ground arith
HasLocal-match_local af_inet6 q sk (inl e) =
    ground (arith, ap (λ a. same a zero6) e ∙ same_refl zero6)
HasLocal-match_local af_inet6 q sk (inr e) =
    ground (arith, ap (same sk.saddr6) (sym e) ∙ same_refl sk.saddr6)

-- The tests of a round on the sock itself.
end_of_test :
    (q : Tuple) (sk : Sk)
    → (same_family sk.addr_family q.family && tcp_sock_match_established q sk) ≡ true
    → IsOnPort q sk × (sk.state ≢ listen) × (sk.dport ≡ q.remoteport) × HasEnds q.family q sk
unfolding tcp_sock_match_established
end_of_test q sk h = (
  record {
    family = family_eq sk.addr_family q.family (ground arith);
    tcp = ground arith;
    port = ground arith;
  },
  (λ e. ground (arith, ap is_listen e ∙ is_listen-listen)),
  ground arith,
  match_ends-HasEnds q.family q sk (ground arith),
)

not_listen : (s : State) → s ≢ listen → is_listen s ≡ false
not_listen s n = elim (Bool-cases (is_listen s)) [ inl e ↦ absurd (n (listen_of s e)) | inr e ↦ e ]

test_of_end :
    (q : Tuple) (sk : Sk)
    → IsOnPort q sk
    → sk.state ≢ listen
    → sk.dport ≡ q.remoteport
    → HasEnds q.family q sk
    → (same_family sk.addr_family q.family && tcp_sock_match_established q sk) ≡ true
unfolding tcp_sock_match_established
test_of_end q sk on n d ends = ground (
  arith,
  on.tcp,
  on.port,
  not_listen sk.state n,
  ap (same_family sk.addr_family) (sym on.family) ∙ family_refl sk.addr_family,
  HasEnds-match_ends q.family q sk ends,
)

listening_of_test :
    (q : Tuple) (sk : Sk)
    → (same_family sk.addr_family q.family && tcp_sock_match_listener q sk) ≡ true
    → IsOnPort q sk × (sk.state ≡ listen) × HasLocal q.family q sk
unfolding tcp_sock_match_listener
listening_of_test q sk h = (
  record {
    family = family_eq sk.addr_family q.family (ground arith);
    tcp = ground arith;
    port = ground arith;
  },
  listen_of sk.state (ground arith),
  match_local-HasLocal q.family q sk (ground arith),
)

test_of_listening :
    (q : Tuple) (sk : Sk)
    → IsOnPort q sk
    → sk.state ≡ listen
    → HasLocal q.family q sk
    → (same_family sk.addr_family q.family && tcp_sock_match_listener q sk) ≡ true
unfolding tcp_sock_match_listener
test_of_listening q sk on e local = ground (
  arith,
  on.tcp,
  on.port,
  ap is_listen e ∙ is_listen-listen,
  ap (same_family sk.addr_family) (sym on.family) ∙ family_refl sk.addr_family,
  HasLocal-match_local q.family q sk local,
)

established-IsEndOf : (q : Tuple) (t : Socket) → is_established_for q t ≡ true → IsEndOf q t
unfolding is_established_for
established-IsEndOf q t h = elim (Option-cases t.sk) [
  | inl e ↦ let k = rw e at h in absurd cc
  | inr (sk, e) ↦
      let k = end_of_test q sk (rw e at h) in
      record { sk = sk; has = e; on = k.0; connected = k.1; remote = k.2; ends = k.3 }
]

IsEndOf-established : (q : Tuple) (t : Socket) → IsEndOf q t → is_established_for q t ≡ true
unfolding is_established_for
IsEndOf-established q t e = rw e.has (test_of_end q e.sk e.on e.connected e.remote e.ends)

listener-IsListening : (q : Tuple) (t : Socket) → is_listener_for q t ≡ true → IsListening q t
unfolding is_listener_for
listener-IsListening q t h = elim (Option-cases t.sk) [
  | inl e ↦ let k = rw e at h in absurd cc
  | inr (sk, e) ↦
      let k = listening_of_test q sk (rw e at h) in
      record { sk = sk; has = e; on = k.0; listens = k.1; local = k.2 }
]

IsListening-listener : (q : Tuple) (t : Socket) → IsListening q t → is_listener_for q t ≡ true
unfolding is_listener_for
IsListening-listener q t e = rw e.has (test_of_listening q e.sk e.on e.listens e.local)

IsFirst-passed :
    (P : Socket → Type 0) (t x : Socket) (xs : List Socket)
    → ¬ P t
    → IsFirst P x xs
    → IsFirst P x (t ∷ xs)
IsFirst-passed P t x xs n f = record {
  before = t ∷ f.before;
  after = f.after;
  split = ap (◌∷◌ t) f.split;
  others = (n, f.others);
  holds = f.holds;
}

IsFirst-head : (P : Socket → Type 0) (t : Socket) (xs : List Socket) → P t → IsFirst P t (t ∷ xs)
IsFirst-head P t xs h = record { before = []; after = xs; split = refl; others = tt; holds = h }

-- One phase: the first socket, or none.
abbrev IsPhase : (Socket → Type 0) → List Socket → Option Socket → Type 0
IsPhase P xs none = All (λ y. ¬ P y) xs
IsPhase P xs (some x) = IsFirst P x xs

IsPhase-passed :
    (P : Socket → Type 0) (t : Socket) (xs : List Socket) (r : Option Socket)
    → ¬ P t
    → IsPhase P xs r
    → IsPhase P (t ∷ xs) r
IsPhase-passed P t xs none n h = (n, h)
IsPhase-passed P t xs (some x) n h = IsFirst-passed P t x xs n h

lookup_established-IsPhase :
    (q : Tuple) (xs : List Socket) → IsPhase (IsEndOf q) xs (tcp_lookup_established q xs)
unfolding tcp_lookup_established
lookup_established-IsPhase q [] = tt
lookup_established-IsPhase q (t ∷ xs) = elim (Bool-cases (is_established_for q t)) [
  | inl e ↦ rw e (IsFirst-head (IsEndOf q) t xs (established-IsEndOf q t e))
  | inr e ↦ rw e (
      IsPhase-passed (IsEndOf q) t xs (tcp_lookup_established q xs)
        (λ k. let b = IsEndOf-established q t k in absurd cc) (lookup_established-IsPhase q xs))
]

lookup_listener-IsPhase :
    (q : Tuple) (xs : List Socket) → IsPhase (IsListening q) xs (tcp_lookup_listener q xs)
unfolding tcp_lookup_listener
lookup_listener-IsPhase q [] = tt
lookup_listener-IsPhase q (t ∷ xs) = elim (Bool-cases (is_listener_for q t)) [
  | inl e ↦ rw e (IsFirst-head (IsListening q) t xs (listener-IsListening q t e))
  | inr e ↦ rw e (
      IsPhase-passed (IsListening q) t xs (tcp_lookup_listener q xs)
        (λ k. let b = IsListening-listener q t k in absurd cc) (lookup_listener-IsPhase q xs))
]

phases :
    (q : Tuple) (xs : List Socket) (r : Option Socket)
    → All (λ y. ¬ IsEndOf q y) xs
    → IsPhase (IsListening q) xs r
    → Answers q xs r
phases q xs none h k = (h, k)
phases q xs (some x) h k = inr (h, k)

pub socket_lookup-Answers : (q : Tuple) (xs : List Socket) → Answers q xs (socket_lookup q xs)
unfolding socket_lookup
socket_lookup-Answers q xs =
    let h = lookup_established-IsPhase q xs in
    elim (Option-cases (tcp_lookup_established q xs)) [
      | inl e ↦
          rw (e, socket_lookup)
            (phases q xs (tcp_lookup_listener q xs) (rw e at h) (lookup_listener-IsPhase q xs))
      | inr (x, e) ↦ rw (e, socket_lookup) (inl (rw e at h))
    ]

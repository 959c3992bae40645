-- ===== src/Udp/Queue.antt =====
-- src/udp_data.c: the receive queue over whole runs.
use level_ip.Prelude.{
  inr, inl, Bool-cases, ◌⊎◌, ◌<◌, ltb, if◌then◌else◌, ◌≤◌, ◌≡◌, refl, ap, sym, ◌∙◌, Bool, true,
  false, not, some, List, [], ◌∷◌, ◌++◌, append_assoc, append-nil, ℕ, arith,
}
use level_ip.Ipv6.{read}
use level_ip.Udp.{
  Datagram, UdpSock, udp_data_queue, Received, is_empty, guarded_len, dequeue_from,
  udp_data_dequeue,
}

-- A datagram is queued, or one call reads with room for `n` bytes.
pub data Event : Type 0 where
  arrives : Datagram → Event
  reads : ℕ → Event

abbrev pub arrived : List Event → List Datagram
arrived [] = []
arrived (arrives d ∷ es) = d ∷ arrived es
arrived (reads n ∷ es) = arrived es

-- The calls that found a datagram, each with its room and what it was given, and the socket after all.
unfoldable pub run : List Event → UdpSock → List (ℕ × Received) × UdpSock
unfolding udp_data_queue udp_data_dequeue
run [] usk = ([], usk)
run (arrives d ∷ es) usk = run es (udp_data_queue d usk)
run (reads n ∷ es) usk =
    let (r, t) = udp_data_dequeue n usk in
    let rest = run es t in if is_empty usk.receive_queue then rest else ((n, r) ∷ rest.0, rest.1)

-- The source of the datagram, its length, and its bytes: all, or as many as there is room for.
pub record IsGiven (room : ℕ) (r : Received) (d : Datagram) : Type 0 where
  pub from : r.from ≡ some (d.saddr, d.sport)
  pub whole : r.rlen ≡ d.dlen
  pub bytes :
      ((d.dlen ≤ room) × (r.copied ≡ read d.dlen d.payload))
      ⊎ ((room < d.dlen) × (r.copied ≡ read room d.payload))

abbrev pub Given : List (ℕ × Received) → List Datagram → Type 0
Given [] [] = Unit
Given [] (d ∷ ds) = ⊥
Given (r ∷ rs) [] = ⊥
Given ((room, r) ∷ rs) (d ∷ ds) = IsGiven room r d × Given rs ds

-- The reader was given the datagrams `given`, and the rest waits.
pub record IsInOrder (es : List Event) (usk : UdpSock) : Type 0 where
  pub given : List Datagram
  pub are : Given (run es usk).0 given
  pub rest : usk.receive_queue ++ arrived es ≡ given ++ (run es usk).1.receive_queue
  pub readable : (run es usk).1.pollin ≡ not (is_empty (run es usk).1.receive_queue)

guarded_bytes :
    (n : ℕ) (d : Datagram)
    → ((d.dlen ≤ n) × (read (guarded_len n d) d.payload ≡ read d.dlen d.payload))
      ⊎ ((n < d.dlen) × (read (guarded_len n d) d.payload ≡ read n d.payload))
unfolding guarded_len
guarded_bytes n d = elim (Bool-cases (ltb n d.dlen)) [
  | inl e ↦ inr (ground arith, rw (e, guarded_len) refl)
  | inr e ↦ inl (ground arith, rw (e, guarded_len) refl)
]

queued_readable : (q : List Datagram) (d : Datagram) → true ≡ not (is_empty (q ++ d ∷ []))
queued_readable [] d = refl
queued_readable (x ∷ q) d = refl

left_readable :
    (q : List Datagram) (p : Bool) → p ≡ true → (if is_empty q then false else p) ≡ not (is_empty q)
left_readable [] p h = refl
left_readable (x ∷ q) p h = h

-- One read, before what follows it.
reads-IsInOrder :
    (n : ℕ) (es : List Event) (q : List Datagram) (p : Bool)
    → ((t : UdpSock) → t.pollin ≡ not (is_empty t.receive_queue) → IsInOrder es t)
    → p ≡ not (is_empty q)
    → IsInOrder (reads n ∷ es) (record { receive_queue = q; pollin = p })
unfolding run udp_data_dequeue dequeue_from
reads-IsInOrder n es [] p f h =
    let k = f (record { receive_queue = []; pollin = p }) h in
    record { given = k.given; are = k.are; rest = k.rest; readable = k.readable }
reads-IsInOrder n es (d ∷ q) p f h =
    let t : UdpSock = record { receive_queue = q; pollin = if is_empty q then false else p } in
    let k = f t (left_readable q p h) in
    record {
      given = d ∷ k.given;
      are = (record { from = refl; whole = refl; bytes = guarded_bytes n d }, k.are);
      rest = ap (◌∷◌ d) k.rest;
      readable = k.readable;
    }

-- Whatever datagrams arrive and whatever calls read, in any order: the calls that find a datagram
-- are given the datagrams in the order in which they arrived, each once, its source and its length,
-- and all of its bytes if the room of the call suffices, else exactly as many of its first bytes as
-- there is room for; the others wait, and POLLIN is set exactly while one waits, if it is so at the
-- start.
pub run-IsInOrder :
    (es : List Event) (usk : UdpSock)
    → usk.pollin ≡ not (is_empty usk.receive_queue)
    → IsInOrder es usk
unfolding run udp_data_queue udp_data_dequeue dequeue_from
run-IsInOrder [] usk h = record {
  given = [];
  are = tt;
  rest = append-nil usk.receive_queue;
  readable = h;
}
run-IsInOrder (arrives d ∷ es) usk h =
    let k = run-IsInOrder es (udp_data_queue d usk) (queued_readable usk.receive_queue d) in
    record {
      given = k.given;
      are = k.are;
      rest = sym (append_assoc usk.receive_queue (d ∷ []) (arrived es)) ∙ k.rest;
      readable = k.readable;
    }
run-IsInOrder (reads n ∷ es) usk h =
    reads-IsInOrder n es usk.receive_queue usk.pollin (run-IsInOrder es) h

-- ===== src/Ndp/Cache.antt =====
-- src/ndp.c and src/dst.c: the neighbour cache under the operations that add and change entries.
use level_ip.Prelude.{
  leb, Bool-cases, length, length-append, All, All-append, ◌≤◌, none, some, List, [], ◌∷◌, ◌++◌, ℕ,
  ◌≡◌, ◌≢◌, inl, inr, refl, sym, ◌∙◌, arith,
}
use level_ip.Ipv6.{ipv6_addr_equal, NdpEntry, Host}
use level_ip.Ipv6.Address.{addr_equal_self}
use level_ip.Ndp.{new_entry, ndp_entry_alloc, ndp_lookup, write_entry, max_queue, ndp_max_neighbors}

-- No two entries are for the same address.
abbrev pub IsDistinct : List NdpEntry → Type 0
IsDistinct [] = Unit
IsDistinct (e ∷ cache) = All (λ f. f.ip6 ≢ e.ip6) cache × IsDistinct cache

-- The count is right and at most 64, no two entries are for the same address, and no queue has more
-- than 100 packets.
pub record IsNdpCache (n : ℕ) (cache : List NdpEntry) : Type 0 where
  pub counted : n ≡ length cache
  pub bounded : n ≤ ndp_max_neighbors
  pub distinct : IsDistinct cache
  pub queues : All (λ e. length e.queue ≤ max_queue) cache

module _ (ip6 : List ℕ) (f : NdpEntry → NdpEntry) where
  pub length-write_entry : (cache : List NdpEntry) → length (write_entry ip6 f cache) ≡ length cache
  unfolding write_entry
  length-write_entry [] = refl
  length-write_entry (e ∷ cache) = ground (arith, length-write_entry cache)

  -- A write keeps what holds of every entry, if it holds of the entry that is written.
  pub write_entry-All :
      (P : NdpEntry → Type 0) (cache : List NdpEntry)
      → All P cache
      → ((e : NdpEntry) → P e → ndp_lookup ip6 cache ≡ some e → P (f e))
      → All P (write_entry ip6 f cache)
  unfolding write_entry ndp_lookup
  write_entry-All P [] a k = tt
  write_entry-All P (e ∷ cache) a k = elim (Bool-cases (ipv6_addr_equal e.ip6 ip6)) [
    | inl y ↦ rw y (k e a.0 (rw y), a.1)
    | inr n ↦ rw n (a.0, write_entry-All P cache a.1 (λ d p l. k d p (rw n l)))
  ]

  pub write_entry-IsDistinct :
      (cache : List NdpEntry)
      → ((e : NdpEntry) → (f e).ip6 ≡ e.ip6)
      → IsDistinct cache
      → IsDistinct (write_entry ip6 f cache)
  unfolding write_entry
  write_entry-IsDistinct [] k d = tt
  write_entry-IsDistinct (e ∷ cache) k d = elim (Bool-cases (ipv6_addr_equal e.ip6 ip6)) [
    | inl y ↦ rw (y, k e) d
    | inr n ↦ rw n (
      write_entry-All (λ g. g.ip6 ≢ e.ip6) cache d.0 (λ g p l q. p (sym (k g) ∙ q)),
      write_entry-IsDistinct cache k d.1,
    )
  ]

  -- A write that keeps the address and the bound of the queue keeps the cache well-formed.
  pub write_entry-IsNdpCache :
      {n : ℕ} (cache : List NdpEntry)
      → ((e : NdpEntry) → (f e).ip6 ≡ e.ip6)
      → ((e : NdpEntry)
          → length e.queue ≤ max_queue
          → ndp_lookup ip6 cache ≡ some e
          → length (f e).queue ≤ max_queue)
      → IsNdpCache n cache
      → IsNdpCache n (write_entry ip6 f cache)
  write_entry-IsNdpCache cache k q c = record {
    counted = c.counted ∙ sym (length-write_entry cache);
    bounded = c.bounded;
    distinct = write_entry-IsDistinct cache k c.distinct;
    queues = write_entry-All (λ e. length e.queue ≤ max_queue) cache c.queues q;
  }

lookup_missed :
    (ip6 : List ℕ) (cache : List NdpEntry)
    → ndp_lookup ip6 cache ≡ none
    → All (λ e. e.ip6 ≢ ip6) cache
unfolding ndp_lookup
lookup_missed ip6 [] h = tt
lookup_missed ip6 (e ∷ cache) h = elim (Bool-cases (ipv6_addr_equal e.ip6 ip6)) [
  | inl y ↦ absurd (cc (rw y at h))
  | inr n ↦ (λ q. cc (addr_equal_self ip6), lookup_missed ip6 cache (rw n at h))
]

append-IsDistinct :
    (cache : List NdpEntry) (n : NdpEntry)
    → All (λ e. e.ip6 ≢ n.ip6) cache
    → IsDistinct cache
    → IsDistinct (cache ++ n ∷ [])
append-IsDistinct [] n a d = (tt, tt)
append-IsDistinct (e ∷ cache) n a d = (
  All-append (λ f. f.ip6 ≢ e.ip6) cache (n ∷ []) d.0 ((λ q. a.0 (sym q)), tt),
  append-IsDistinct cache n a.1 d.1,
)

-- An entry for an address that has none keeps the cache well-formed.
pub entry_alloc-IsNdpCache :
    (ip6 : List ℕ) (h : Host)
    → ndp_lookup ip6 h.ndp_cache ≡ none
    → IsNdpCache h.ndp_entry_count h.ndp_cache
    → let s = (ndp_entry_alloc ip6 h).1 in IsNdpCache s.ndp_entry_count s.ndp_cache
unfolding ndp_entry_alloc new_entry
entry_alloc-IsNdpCache ip6 h m c = elim (Bool-cases (leb ndp_max_neighbors h.ndp_entry_count)) [
  | inl y ↦ rw y c
  | inr n ↦ rw n (record {
    counted = omega (arith, length-append {0} h.ndp_cache (new_entry ip6 h.tick ∷ []), c.counted);
    bounded = ground arith;
    distinct = append-IsDistinct h.ndp_cache _ (lookup_missed ip6 h.ndp_cache m) c.distinct;
    queues = All-append (λ e. length e.queue ≤ max_queue) h.ndp_cache _ c.queues (omega arith, tt);
  })
]

-- ===== src/Arp/Cache.antt =====
-- src/arp.c: the cache under arriving packets.
use level_ip.Skbuff.{SkBuff}
use level_ip.Prelude.{
  if◌then◌else◌, Bool-cases, All-append, sym, inl, inr, ◌++◌, All, ℕ, ◌≡◌, refl, ◌≢◌, true, false,
  List, [], ◌∷◌, arith,
}
use level_ip.Arp.{
  Netdev, arp_entry_alloc, arp_rcv, arp_ethernet, ArpHdr, ArpData, insert_arp_translation_table,
  is_entry_of, update_arp_translation_table, ArpEntry,
}

-- Every entry is an Ethernet one and resolved, and no two are for the same address.
abbrev pub IsFresh : ℕ → List ArpEntry → Type 0
IsFresh sip cache = All (λ e. e.sip ≢ sip) cache

abbrev pub IsCache : List ArpEntry → Type 0
IsCache [] = Unit
IsCache (e ∷ cache) =
    (e.hwtype ≡ arp_ethernet) × (e.resolved ≡ true) × IsFresh e.sip cache × IsCache cache

update-IsFresh :
    (a : ℕ) (hdr : ArpHdr) (arpdata : ArpData) (cache : List ArpEntry)
    → IsFresh a cache
    → IsFresh a (update_arp_translation_table hdr arpdata cache).1
unfolding update_arp_translation_table
update-IsFresh a hdr arpdata [] f = tt
update-IsFresh a hdr arpdata (e ∷ cache) f = ground (arith, update-IsFresh a hdr arpdata cache f.1)

update-IsCache :
    (hdr : ArpHdr) (arpdata : ArpData) (cache : List ArpEntry)
    → IsCache cache
    → IsCache (update_arp_translation_table hdr arpdata cache).1
unfolding update_arp_translation_table
update-IsCache hdr arpdata [] c = tt
update-IsCache hdr arpdata (e ∷ cache) (w, r, f, c) =
    ground (arith, update-IsCache hdr arpdata cache c, update-IsFresh e.sip hdr arpdata cache f)

-- Where no entry was updated, there is none for the address, and the cache is as it was.
pub update_missed :
    (hdr : ArpHdr) (arpdata : ArpData) (cache : List ArpEntry)
    → hdr.hwtype ≡ arp_ethernet
    → IsCache cache
    → (update_arp_translation_table hdr arpdata cache).0 ≡ false
    → IsFresh arpdata.sip cache × ((update_arp_translation_table hdr arpdata cache).1 ≡ cache)
unfolding update_arp_translation_table is_entry_of
update_missed hdr arpdata [] h c m = (tt, refl)
update_missed hdr arpdata (e ∷ cache) h (w, r, f, c) m =
    ground (arith, update_missed hdr arpdata cache h c)

append-IsFresh :
    (a : ℕ) (cache : List ArpEntry) (n : ArpEntry)
    → IsFresh a cache
    → n.sip ≢ a
    → IsFresh a (cache ++ n ∷ [])
append-IsFresh a cache n f d = All-append (λ e. e.sip ≢ a) cache (n ∷ []) f (d, tt)

append-IsCache :
    (cache : List ArpEntry) (n : ArpEntry)
    → n.hwtype ≡ arp_ethernet
    → n.resolved ≡ true
    → IsFresh n.sip cache
    → IsCache cache
    → IsCache (cache ++ n ∷ [])
append-IsCache [] n h y f c = (h, y, tt, tt)
append-IsCache (e ∷ cache) n h y f (w, r, g, c) =
    (w, r, append-IsFresh e.sip cache n g (λ q. f.0 (sym q)), append-IsCache cache n h y f.1 c)

-- Both tables after the merge, and after the insertion where nothing was merged.
merge-IsCache :
    (hdr : ArpHdr) (arpdata : ArpData) (cache : List ArpEntry)
    → hdr.hwtype ≡ arp_ethernet
    → IsCache cache
    → let (merge, merged) = update_arp_translation_table hdr arpdata cache in
      IsCache (if merge then merged else insert_arp_translation_table hdr arpdata merged)
unfolding insert_arp_translation_table arp_entry_alloc
merge-IsCache hdr arpdata cache h c =
    elim (Bool-cases (update_arp_translation_table hdr arpdata cache).0) [
      | inl y ↦ rw y (update-IsCache hdr arpdata cache c)
      | inr n ↦
          let (f, e) = update_missed hdr arpdata cache h c n in
          rw (n, e) (append-IsCache cache _ h refl f c)
    ]

-- Whatever packet arrives, the cache keeps one resolved Ethernet entry at most for each address.
pub arp_rcv-IsCache :
    (netdev : Netdev) (skb : SkBuff) (hdr : ArpHdr) (arpdata : ArpData) (cache : List ArpEntry)
    → IsCache cache
    → IsCache (arp_rcv netdev skb hdr arpdata cache).0
unfolding arp_rcv
arp_rcv-IsCache netdev skb hdr arpdata cache c =
    ground (arith, merge-IsCache hdr arpdata cache, update-IsCache hdr arpdata cache c)

-- ===== src/Supervisor/Tlb/Hits.antt =====
-- What the cache of mmu.rs answers after a lookup, an insertion and a flush.
use tab_linux.Base.{
  ℕ, zero, suc, ◌+◌, ◌*◌, ◌<◌, ◌≡◌, refl, sym, ap, ◌∙◌, subst, ◌≢◌, ◌⊎◌, inl, inr, true, false,
  none, some, List, [], ◌∷◌, arith, Bool-cases, Option-cases, All, low_bits,
}
use tab_linux.Supervisor.Tlb.{
  insert, new_entry, set_at, set_of, TlbEntry, flush, is_hit, lookup, probe_sizes, probe_ways,
  vpn_at, Tlb,
}

-- The entry is one of the slots, is valid, and has the size and the key.
abbrev pub Found : Tlb → (size vpn : ℕ) → TlbEntry → Type 0
Found tlb size vpn e =
    ((n : ℕ) × (e ≡ tlb.sets n)) × (e.valid ≡ true) × (e.size ≡ size) × (e.va_key ≡ vpn)

hit-Found :
    (tlb : Tlb) (size vpn n : ℕ)
    → is_hit (tlb.sets n) size vpn ≡ true
    → Found tlb size vpn (tlb.sets n)
hit-Found tlb size vpn n h = ((n, refl), ground arith, ground arith, ground arith)

probe_ways-Found :
    (tlb : Tlb) (size vpn start : ℕ) (is : List ℕ) (e : TlbEntry)
    → probe_ways tlb size vpn start is ≡ some e
    → Found tlb size vpn e
unfolding probe_ways
probe_ways-Found tlb size vpn start [] e h = absurd (ground arith)
probe_ways-Found tlb size vpn start (i ∷ is) e h =
    elim (Bool-cases (is_hit (tlb.sets (start + i)) size vpn)) [
      | inl t ↦
          let same : tlb.sets (start + i) ≡ e = cc in
          subst (Found tlb size vpn) same (hit-Found tlb size vpn (start + i) t)
      | inr f ↦ probe_ways-Found tlb size vpn start is e (ground arith)
    ]

probe_sizes-Found :
    (tlb : Tlb) (vaddr : ℕ) (sizes : List ℕ) (e : TlbEntry)
    → probe_sizes tlb vaddr sizes ≡ some e
    → Found tlb e.size (vpn_at vaddr e.size) e
unfolding probe_sizes
probe_sizes-Found tlb vaddr [] e h = absurd (ground arith)
probe_sizes-Found tlb vaddr (size ∷ sizes) e h =
    elim (Option-cases (
      probe_ways tlb size (vpn_at vaddr size) (set_of (vpn_at vaddr size) * 4)
        (0 ∷ 1 ∷ 2 ∷ 3 ∷ []))) [
          | inl n ↦ probe_sizes-Found tlb vaddr sizes e (ground arith)
          | inr (d, s) ↦
              let (slot, on, same_size, same_key) =
                probe_ways-Found tlb size (vpn_at vaddr size) (set_of (vpn_at vaddr size) * 4)
                  (0 ∷ 1 ∷ 2 ∷ 3 ∷ []) e (ground arith) in
              (slot, on, refl, same_key ∙ ap (vpn_at vaddr) (sym same_size))
        ]

-- All slots that are probed miss.
probe_ways-miss :
    (tlb : Tlb) (size vpn start : ℕ) (is : List ℕ)
    → All (λ i. is_hit (tlb.sets (start + i)) size vpn ≡ false) is
    → probe_ways tlb size vpn start is ≡ none
unfolding probe_ways
probe_ways-miss tlb size vpn start [] h = refl
probe_ways-miss tlb size vpn start (i ∷ is) (h, hs) =
    rw h (probe_ways-miss tlb size vpn start is hs)

-- A hit is an entry that the cache holds, valid, and of the page of the address at its own size.
lookup-Found :
    (tlb : Tlb) (vaddr : ℕ) (e : TlbEntry)
    → lookup tlb vaddr ≡ some e
    → Found tlb e.size (vpn_at vaddr e.size) e
unfolding lookup
lookup-Found tlb vaddr e h = probe_sizes-Found tlb vaddr (0 ∷ 1 ∷ 2 ∷ []) e h

-- A probe of a set that misses and is put one entry that fits finds the entry.
probe_ways-set_at :
    (tlb : Tlb) (lru : ℕ → ℕ) (size vpn start n : ℕ) (new : TlbEntry) (is : List ℕ)
    → probe_ways tlb size vpn start is ≡ none
    → is_hit new size vpn ≡ true
    → (probe_ways (record { sets = set_at tlb.sets n new; lru = lru }) size vpn start is ≡ some new)
      ⊎ (All (λ i. n ≢ start + i) is
          × (probe_ways (record { sets = set_at tlb.sets n new; lru = lru }) size vpn start is
              ≡ none))
unfolding probe_ways
probe_ways-set_at tlb lru size vpn start n new [] h t = inr (tt, refl)
probe_ways-set_at tlb lru size vpn start n new (i ∷ is) h t =
    ground (arith, probe_ways-set_at tlb lru size vpn start n new is)

-- A probe that misses still misses when a slot is given an entry that does not fit.
probe_ways-set_at_miss :
    (tlb : Tlb) (lru : ℕ → ℕ) (size vpn start n : ℕ) (new : TlbEntry) (is : List ℕ)
    → probe_ways tlb size vpn start is ≡ none
    → is_hit new size vpn ≡ false
    → probe_ways (record { sets = set_at tlb.sets n new; lru = lru }) size vpn start is ≡ none
unfolding probe_ways
probe_ways-set_at_miss tlb lru size vpn start n new [] h f = refl
probe_ways-set_at_miss tlb lru size vpn start n new (i ∷ is) h f =
    ground (arith, probe_ways-set_at_miss tlb lru size vpn start n new is)

module _ (tlb : Tlb) (vaddr vaddr' ppn size flags : ℕ)
    (same : vpn_at vaddr size ≡ vpn_at vaddr' size) where
  after : Tlb
  after = insert tlb vaddr' ppn size flags

  inserted-Found :
      probe_ways tlb size (vpn_at vaddr size) (set_of (vpn_at vaddr size) * 4) (0 ∷ 1 ∷ 2 ∷ 3 ∷ [])
        ≡ none
      → probe_ways after size
          (vpn_at vaddr size)
          (set_of (vpn_at vaddr size) * 4)
          (0 ∷ 1 ∷ 2 ∷ 3 ∷ [])
        ≡ some (new_entry vaddr' ppn size flags)
  unfolding insert after
  inserted-Found h =
      let set : ℕ = set_of (vpn_at vaddr' size) in
      let slot : ℕ = set * 4 + low_bits (tlb.lru set) 2 in
      let sets : set_of (vpn_at vaddr size) ≡ set = ap set_of same in
      ground (
        arith,
        probe_ways-set_at tlb (insert tlb vaddr' ppn size flags).lru size (vpn_at vaddr size)
            (set_of (vpn_at vaddr size) * 4) slot (new_entry vaddr' ppn size flags)
            (0 ∷ 1 ∷ 2 ∷ 3 ∷ []) h,
      )

  other-Misses :
      (s : ℕ)
      → s ≢ size
      → probe_ways tlb s (vpn_at vaddr s) (set_of (vpn_at vaddr s) * 4) (0 ∷ 1 ∷ 2 ∷ 3 ∷ []) ≡ none
      → probe_ways after s (vpn_at vaddr s) (set_of (vpn_at vaddr s) * 4) (0 ∷ 1 ∷ 2 ∷ 3 ∷ [])
        ≡ none
  unfolding insert after
  other-Misses s n h =
      let set : ℕ = set_of (vpn_at vaddr' size) in
      probe_ways-set_at_miss tlb (insert tlb vaddr' ppn size flags).lru s (vpn_at vaddr s)
        (set_of (vpn_at vaddr s) * 4) (set * 4 + low_bits (tlb.lru set) 2)
        (new_entry vaddr' ppn size flags) (0 ∷ 1 ∷ 2 ∷ 3 ∷ []) h (ground arith)

-- After a flush nothing is found.
pub lookup-flush : (tlb : Tlb) (vaddr : ℕ) → lookup (flush tlb) vaddr ≡ none
unfolding lookup flush probe_sizes probe_ways
lookup-flush tlb vaddr = refl

-- A translation of one of the three page sizes that is put in the cache is what a lookup then finds at
-- every address of the page, if before it nothing was found there.
lookup-insert :
    (tlb : Tlb) (vaddr vaddr' ppn size flags : ℕ)
    → size < 3
    → vpn_at vaddr size ≡ vpn_at vaddr' size
    → lookup tlb vaddr ≡ none
    → lookup (insert tlb vaddr' ppn size flags) vaddr ≡ some (new_entry vaddr' ppn size flags)
unfolding lookup probe_sizes after
lookup-insert tlb vaddr vaddr' ppn zero flags h same miss = ground (
  arith,
  inserted-Found tlb vaddr vaddr' ppn 0 flags same,
  other-Misses tlb vaddr vaddr' ppn 0 flags same 1,
  other-Misses tlb vaddr vaddr' ppn 0 flags same 2,
)
lookup-insert tlb vaddr vaddr' ppn (suc zero) flags h same miss = ground (
  arith,
  inserted-Found tlb vaddr vaddr' ppn 1 flags same,
  other-Misses tlb vaddr vaddr' ppn 1 flags same 0,
  other-Misses tlb vaddr vaddr' ppn 1 flags same 2,
)
lookup-insert tlb vaddr vaddr' ppn (suc (suc zero)) flags h same miss = ground (
  arith,
  inserted-Found tlb vaddr vaddr' ppn 2 flags same,
  other-Misses tlb vaddr vaddr' ppn 2 flags same 0,
  other-Misses tlb vaddr vaddr' ppn 2 flags same 1,
)
lookup-insert tlb vaddr vaddr' ppn (suc (suc (suc n))) flags h same miss = absurd (omega arith)

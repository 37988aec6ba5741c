-- ===== src/Supervisor/Translate/Cache.antt =====
-- The cache of mmu.rs against the walk, and the Accessed and Dirty bits.
use tab_linux.Base.{
  ℕ, zero, suc, ◌%◌, ◌^◌, ◌<◌, bit_or, max, ◌≡◌, refl, Bool, true, false, some, arith,
  if◌then◌else◌, field, shl, nth_bit, bit_or-nth_bit,
}
use tab_linux.Cpu.{Bus}
use tab_linux.Supervisor.{Privilege, Result, Satp, AccessType}
use tab_linux.Supervisor.Mmu.{
  walk_fail, Mmu, apply_pte_flags, apply_tlb, flush_tlb, page_address, ad_satisfied, is_store,
  set_ad,
}
use tab_linux.Supervisor.Walk.Finds.{walk_from_complete}
use tab_linux.Supervisor.Walk.Maps.{MapsTo, entry_at, leaf_paddr}
use tab_linux.Supervisor.Translate.{finish_walk, translate, translate_cached, translate_walk}
use tab_linux.Supervisor.Walk.{Leaf, walk_sv39}
use tab_linux.Supervisor.Tlb.{TlbEntry, lookup}
use tab_linux.Supervisor.Tlb.Hits.{lookup-flush}

-- The bits of the entry that `set_ad` writes.
set_bits : (pte k : ℕ) (store : Bool) → ℕ
set_bits pte k store =
    nth_bit k (if store then bit_or (bit_or pte (2 ^ 6)) (2 ^ 7) else bit_or pte (2 ^ 6))

set_bits_value :
    (pte k : ℕ) (store : Bool)
    → set_bits pte k store
      ≡ max (max (nth_bit k pte) (nth_bit k 64)) (if store then nth_bit k 128 else 0)
unfolding set_bits
set_bits_value pte k true = rw (bit_or-nth_bit k (bit_or pte 64) 128, bit_or-nth_bit k pte 64) refl
set_bits_value pte k false = rw (bit_or-nth_bit k pte 64) (omega arith)

module _ {M : Type 0} (bus : Bus M) (m : M) (pte_addr flags : ℕ) (access : AccessType) where
  -- After `set_ad` the flags have the Accessed bit, and for a store the Dirty bit, so that the cache
  -- serves the next access of the kind.
  pub ad_satisfied-set_ad : ad_satisfied (set_ad bus m pte_addr flags access).0 access ≡ true
  unfolding set_ad ad_satisfied set_bits
  ad_satisfied-set_ad =
      let pte : ℕ = bus.read_u64 m pte_addr in
      let s : Bool = is_store access in
      ground (arith, set_bits_value pte 6 s, set_bits_value pte 7 s)

  -- The permissions R, W, X, U and the bit G stay as they were in `set_ad`, if the flags are those of
  -- the entry in memory.
  pub set_ad-permissions :
      flags ≡ field (bus.read_u64 m pte_addr) 1 7
      → (set_ad bus m pte_addr flags access).0 % 2 ^ 5 ≡ flags % 2 ^ 5
  unfolding set_ad set_bits
  set_ad-permissions e =
      let pte : ℕ = bus.read_u64 m pte_addr in
      let s : Bool = is_store access in
      ground (
        arith,
        set_bits_value pte 1 s,
        set_bits_value pte 2 s,
        set_bits_value pte 3 s,
        set_bits_value pte 4 s,
        set_bits_value pte 5 s,
      )

page_address-MapsTo :
    {M : Type 0} (bus : Bus M) (m : M) (vaddr level table : ℕ) (l : Leaf)
    → level < 3
    → MapsTo bus m vaddr level table l
    → page_address l.ppn l.size vaddr ≡ l.paddr
unfolding page_address
page_address-MapsTo bus m vaddr zero table l h (MapsTo.here is_leaf aligned) =
    leaf_paddr 12 (field (entry_at bus m vaddr 0 table) 10 44) vaddr (omega arith) (omega arith)
      (omega arith)
page_address-MapsTo bus m vaddr (suc zero) table l h (MapsTo.here is_leaf aligned) =
    leaf_paddr 21 (field (entry_at bus m vaddr 1 table) 10 44) vaddr (omega arith) (omega arith)
      (omega arith)
page_address-MapsTo bus m vaddr (suc (suc zero)) table l h (MapsTo.here is_leaf aligned) =
    leaf_paddr 30 (field (entry_at bus m vaddr 2 table) 10 44) vaddr (omega arith) (omega arith)
      (omega arith)
page_address-MapsTo bus m vaddr (suc (suc (suc level))) table l h (MapsTo.here is_leaf aligned) =
    absurd (omega arith)
page_address-MapsTo bus m vaddr (suc level) table l h (MapsTo.below is_table maps) =
    page_address-MapsTo bus m vaddr level _ l (omega arith) maps

module _ {M : Type 0} (bus : Bus M) (satp : Satp) (priv_level : Privilege) (sum mxr : Bool)
    (access : AccessType) (vaddr : ℕ) (m : M) (l : Leaf) where
  -- What an access to the leaf leaves, its record of the walk aside.
  served : Result ℕ × M
  served = elim (apply_pte_flags l.flags access priv_level sum mxr) [
    | Result.err trap ↦ (Result.err trap, m)
    | Result.ok u ↦ (Result.ok l.paddr, (set_ad bus m l.pte_addr l.flags access).1)
  ]

  finish_walk-served :
      (r : Result Leaf × Mmu)
      → r.0 ≡ Result.ok l
      → ((finish_walk bus m access priv_level sum mxr vaddr r).0 ≡ served.0)
        × ((finish_walk bus m access priv_level sum mxr vaddr r).2 ≡ served.1)
  unfolding finish_walk served
  finish_walk-served (Result.err trap, mmu) e = absurd (ground arith)
  finish_walk-served (Result.ok found, mmu) e = let same : found ≡ l = cc in rw same (ground arith)

  translate_walk-served :
      (mmu : Mmu)
      → MapsTo bus m vaddr 2 (shl 64 satp.ppn 12) l
      → ((translate_walk bus satp priv_level sum mxr access vaddr mmu m).0 ≡ served.0)
        × ((translate_walk bus satp priv_level sum mxr access vaddr mmu m).2 ≡ served.1)
  unfolding translate_walk walk_sv39
  translate_walk-served mmu maps =
      finish_walk-served _
        (walk_from_complete bus m vaddr access _ _ 2 (shl 64 satp.ppn 12) l (omega arith) maps)

  hit-served :
      (entry : TlbEntry) (mmu : Mmu)
      → MapsTo bus m vaddr 2 (shl 64 satp.ppn 12) l
      → entry.ppn ≡ l.ppn
      → entry.size ≡ l.size
      → entry.flags ≡ l.flags
      → ((translate_cached bus (some entry) satp priv_level sum mxr access vaddr mmu m).0
          ≡ served.0)
        × ((translate_cached bus (some entry) satp priv_level sum mxr access vaddr mmu m).2
            ≡ served.1)
  unfolding translate_cached served apply_tlb set_ad
  hit-served entry mmu maps p s f = ground (
    arith,
    translate_walk-served mmu maps,
    page_address-MapsTo bus m vaddr 2 (shl 64 satp.ppn 12) l (omega arith) maps,
  )

  cached-served :
      (entry : TlbEntry) (mmu : Mmu)
      → MapsTo bus m vaddr 2 (shl 64 satp.ppn 12) l
      → lookup mmu.tlb vaddr ≡ some entry
      → entry.ppn ≡ l.ppn
      → entry.size ≡ l.size
      → entry.flags ≡ l.flags
      → ((translate_cached bus (lookup mmu.tlb vaddr) satp priv_level sum mxr access vaddr mmu m).0
          ≡ served.0)
        × ((translate_cached bus
              (lookup mmu.tlb vaddr)
              satp
              priv_level
              sum
              mxr
              access
              vaddr
              mmu
              m).2
            ≡ served.1)
  cached-served entry mmu maps hit p s f = rw hit (hit-served entry mmu maps p s f)

  flushed-served :
      (mmu : Mmu)
      → MapsTo bus m vaddr 2 (shl 64 satp.ppn 12) l
      → ((translate_cached bus
            (lookup (flush_tlb mmu).tlb vaddr)
            satp
            priv_level
            sum
            mxr
            access
            vaddr
            (flush_tlb mmu)
            m).0
          ≡ served.0)
        × ((translate_cached bus
              (lookup (flush_tlb mmu).tlb vaddr)
              satp
              priv_level
              sum
              mxr
              access
              vaddr
              (flush_tlb mmu)
              m).2
            ≡ served.1)
  unfolding flush_tlb translate_cached
  flushed-served mmu maps =
      rw (lookup-flush mmu.tlb vaddr) (translate_walk-served (flush_tlb mmu) maps)

  -- Where the tables map the address to a leaf and the cache has an entry for it that agrees with the
  -- leaf, the cache is not seen: the answer and the memory are those of a translation with an empty
  -- cache.
  pub translate-flush_tlb :
      (entry : TlbEntry) (mmu : Mmu)
      → MapsTo bus m vaddr 2 (shl 64 satp.ppn 12) l
      → lookup mmu.tlb vaddr ≡ some entry
      → entry.ppn ≡ l.ppn
      → entry.size ≡ l.size
      → entry.flags ≡ l.flags
      → ((translate bus satp priv_level sum mxr access vaddr mmu m).0
          ≡ (translate bus satp priv_level sum mxr access vaddr (flush_tlb mmu) m).0)
        × ((translate bus satp priv_level sum mxr access vaddr mmu m).2
            ≡ (translate bus satp priv_level sum mxr access vaddr (flush_tlb mmu) m).2)
  unfolding translate walk_fail
  translate-flush_tlb entry mmu maps hit p s f =
      ground (arith, cached-served entry mmu maps hit p s f, flushed-served mmu maps)

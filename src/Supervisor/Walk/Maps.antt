-- ===== src/Supervisor/Walk/Maps.antt =====
-- The mapping that the page tables hold, as a relation, and what a turn of the walk of mmu.rs does at
-- an entry.
use tab_linux.Base.{
  ℕ, zero, suc, ◌+◌, ◌-◌, ◌*◌, ◌/◌, ◌%◌, ◌^◌, ◌<◌, bit_or, ◌≡◌, refl, ap, ◌∙◌, ◌⊎◌, Bool, true,
  arith, ◌==◌, low_bits, field, shl, bit_or_sum,
}
use native.Mathlib.Nat.{div-add-mod}
use tab_linux.Cpu.{Bus}
use tab_linux.Supervisor.{AccessType, Result}
use tab_linux.Supervisor.Mmu.{walk_fail, Mmu}
use tab_linux.Supervisor.Walk.{leaf, visit, vpn_level, Leaf}

-- An entry that points to the next table, and one that maps a page: valid, and readable, writable and
-- readable, or executable.
abbrev pub IsTable : ℕ → Type 0
IsTable pte = field pte 0 4 ≡ 1

abbrev pub IsLeaf : ℕ → Type 0
IsLeaf pte =
    (field pte 0 1 ≡ 1) × ((field pte 1 1 ≡ 1) ⊎ ((field pte 2 1 ≡ 0) × (field pte 3 1 ≡ 1)))

-- The page of 2 ^ (12 + 9 * level) bytes that the entry maps.
abbrev pub page_leaf : (level pte pte_addr vaddr : ℕ) → Leaf
page_leaf level pte pte_addr vaddr = record {
  paddr = field pte 10 44 * 2 ^ 12 + vaddr % 2 ^ (12 + 9 * level);
  ppn = field pte 10 44;
  size = level;
  flags = field pte 1 7;
  pte_addr = pte_addr;
}

abbrev pub entry_at : {M : Type 0} → Bus M → M → (vaddr level table : ℕ) → ℕ
entry_at bus m vaddr level table = bus.read_u64 m (table + vpn_level vaddr level * 8)

-- The table of the level at the address maps `vaddr` to the leaf, directly or through a table below.
pub data MapsTo {M : Type 0} (bus : Bus M) (m : M) (vaddr : ℕ)
    : (level table : ℕ) → Leaf → Type 0 where
  here :
      {level table : ℕ}
      → IsLeaf (entry_at bus m vaddr level table)
      → (field (entry_at bus m vaddr level table) 10 44 % 2 ^ (9 * level) ≡ 0)
      → MapsTo bus m vaddr level table (
          page_leaf level
            (entry_at bus m vaddr level table)
            (table + vpn_level vaddr level * 8)
            vaddr)
  below :
      {level table : ℕ} {l : Leaf}
      → IsTable (entry_at bus m vaddr (suc level) table)
      → MapsTo bus m vaddr level (field (entry_at bus m vaddr (suc level) table) 10 44 * 2 ^ 12) l
      → MapsTo bus m vaddr (suc level) table l

pub leaf_paddr :
    (k base vaddr : ℕ)
    → base < 2 ^ 44
    → base * 2 ^ 12 % 2 ^ k ≡ 0
    → vaddr % 2 ^ k < 2 ^ k
    → bit_or (shl 64 base 12) (vaddr % 2 ^ k) ≡ base * 2 ^ 12 + vaddr % 2 ^ k
leaf_paddr k base vaddr h whole fits =
    bit_or_sum k (base * 2 ^ 12 / 2 ^ k) (shl 64 base 12) (vaddr % 2 ^ k)
      (omega (arith, div-add-mod (base * 2 ^ 12) (2 ^ k))) fits
    ∙ omega arith

pub ok_injective : {a b : Leaf} → Result.ok a ≡ Result.ok b → a ≡ b
ok_injective e = cc

-- What the loop does at a leaf.
pub leaf-page :
    (dump : Bool) (level pte pte_addr vaddr : ℕ) (access : AccessType) (mmu : Mmu)
    → level < 3
    → field pte 10 44 % 2 ^ (9 * level) ≡ 0
    → (leaf dump level pte pte_addr vaddr access mmu).0
      ≡ Result.ok (page_leaf level pte pte_addr vaddr)
unfolding leaf
leaf-page dump zero pte pte_addr vaddr access mmu h whole =
    let sum : bit_or (shl 64 (field pte 10 44) 12) (low_bits vaddr 12)
        ≡ field pte 10 44 * 2 ^ 12 + vaddr % 2 ^ 12 =
      leaf_paddr 12 (field pte 10 44) vaddr (omega arith) (omega arith) (omega arith) in
    ap (λ (p : ℕ). Result.ok (record (page_leaf 0 pte pte_addr vaddr) { paddr = p })) sum
leaf-page dump (suc zero) pte pte_addr vaddr access mmu h whole =
    let base : field pte 10 44 - low_bits (field pte 10 44) 9 ≡ field pte 10 44 = omega arith in
    let aligned : (low_bits (field pte 10 44) 9 == 0) ≡ true = ground arith in
    let sum : bit_or (shl 64 (field pte 10 44) 12) (low_bits vaddr 21)
        ≡ field pte 10 44 * 2 ^ 12 + vaddr % 2 ^ 21 =
      leaf_paddr 21 (field pte 10 44) vaddr (omega arith) (omega arith) (omega arith) in
    rw (aligned, base, sum) refl
leaf-page dump (suc (suc zero)) pte pte_addr vaddr access mmu h whole =
    let base : field pte 10 44 - low_bits (field pte 10 44) 18 ≡ field pte 10 44 = omega arith in
    let aligned : (low_bits (field pte 10 44) 18 == 0) ≡ true = ground arith in
    let sum : bit_or (shl 64 (field pte 10 44) 12) (low_bits vaddr 30)
        ≡ field pte 10 44 * 2 ^ 12 + vaddr % 2 ^ 30 =
      leaf_paddr 30 (field pte 10 44) vaddr (omega arith) (omega arith) (omega arith) in
    rw (aligned, base, sum) refl
leaf-page dump (suc (suc (suc level))) pte pte_addr vaddr access mmu h whole = absurd (omega arith)

pub leaf-aligned :
    (dump : Bool) (level pte pte_addr vaddr : ℕ) (access : AccessType) (mmu : Mmu) (l : Leaf)
    → level < 3
    → (leaf dump level pte pte_addr vaddr access mmu).0 ≡ Result.ok l
    → field pte 10 44 % 2 ^ (9 * level) ≡ 0
unfolding leaf walk_fail
leaf-aligned dump zero pte pte_addr vaddr access mmu l h e = omega arith
leaf-aligned dump (suc zero) pte pte_addr vaddr access mmu l h e = ground arith
leaf-aligned dump (suc (suc zero)) pte pte_addr vaddr access mmu l h e = ground arith
leaf-aligned dump (suc (suc (suc level))) pte pte_addr vaddr access mmu l h e = absurd (omega arith)

module _ (dump : Bool) (level pte pte_addr vaddr : ℕ) (access : AccessType) (seen : Mmu)
    (next : Result Leaf × Mmu) where
  pub visit-IsLeaf :
      IsLeaf pte
      → visit dump level pte pte_addr vaddr access seen next
        ≡ leaf dump level pte pte_addr vaddr access seen
  unfolding visit
  visit-IsLeaf h = ground arith

  pub visit-IsTable : IsTable pte → visit dump level pte pte_addr vaddr access seen next ≡ next
  unfolding visit
  visit-IsTable h = ground arith

  pub visit-cases :
      (l : Leaf)
      → (visit dump level pte pte_addr vaddr access seen next).0 ≡ Result.ok l
      → (IsLeaf pte × ((leaf dump level pte pte_addr vaddr access seen).0 ≡ Result.ok l))
        ⊎ (IsTable pte × (next.0 ≡ Result.ok l))
  unfolding visit walk_fail
  visit-cases l h = ground arith

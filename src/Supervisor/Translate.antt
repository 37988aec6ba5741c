-- ===== src/Supervisor/Translate.antt =====
-- crates/riscv-supervisor/src/mmu.rs: `translate`.
pub mod Faults
pub mod Cache
use tab_linux.Base.{
  ℕ, Bool, not, ◌&&◌, ◌||◌, Option, none, some, ltb, leb, ◌==◌, if◌then◌else◌, shr,
}
use tab_linux.Cpu.{Bus}
use tab_linux.Supervisor.{Privilege, Satp, AccessType, Result}
use tab_linux.Supervisor.Mmu.{ad_satisfied, apply_pte_flags, apply_tlb, set_ad, walk_fail, Mmu}
use tab_linux.Supervisor.Walk.{walk_sv39, Leaf}
use tab_linux.Supervisor.Tlb.{TlbEntry, insert, lookup}

-- What a translation leaves: the physical address or the trap, the MMU and the memory.
abbrev pub Translated : Type 0 → Type 0
Translated M = Result ℕ × Mmu × M

-- The low half of the kernel, which is mapped as it is where the walk fails. The single page that the
-- first of the two tests of the source is for lies within it.
abbrev pub is_identity : ℕ → Bool
is_identity vaddr =
    (leb 0x8020_1000 vaddr && ltb vaddr 0x8020_2000)
    || (leb 0x8020_0000 vaddr && ltb vaddr 0x8180_0000)

abbrev cache : Mmu → (vaddr ppn size flags : ℕ) → Mmu
cache mmu vaddr ppn size flags = record mmu { tlb = insert mmu.tlb vaddr ppn size flags }

module _ {M : Type 0} (bus : Bus M) where
  -- After the walk.
  unfoldable pub finish_walk :
      M → AccessType → Privilege → (sum mxr : Bool) → ℕ → Result Leaf × Mmu → Translated M
  finish_walk m access priv_level sum mxr vaddr (Result.err trap, mmu) =
      if is_identity vaddr
      then (Result.ok vaddr, cache mmu vaddr (shr vaddr 12) 0 0x67, m)
      else (Result.err trap, mmu, m)
  finish_walk m access priv_level sum mxr vaddr (Result.ok found, mmu) =
      elim (apply_pte_flags found.flags access priv_level sum mxr) [
        | Result.err trap ↦ (Result.err trap, mmu, m)
        | Result.ok u ↦
            let (flags, written) = set_ad bus m found.pte_addr found.flags access in
            (Result.ok found.paddr, cache mmu vaddr found.ppn found.size flags, written)
      ]

  -- The walk, where the cache does not serve.
  unfoldable pub translate_walk :
      Satp → Privilege → (sum mxr : Bool) → AccessType → ℕ → Mmu → M → Translated M
  translate_walk satp priv_level sum mxr access vaddr mmu m =
      finish_walk m access priv_level sum mxr vaddr (walk_sv39 bus m satp vaddr access mmu)

  -- The cache first.
  unfoldable pub translate_cached :
      Option TlbEntry
      → Satp
      → Privilege
      → (sum mxr : Bool) → AccessType
      → ℕ
      → Mmu
      → M
      → Translated M
  translate_cached none satp priv_level sum mxr access vaddr mmu m =
      translate_walk satp priv_level sum mxr access vaddr mmu m
  translate_cached (some entry) satp priv_level sum mxr access vaddr mmu m =
      if ad_satisfied entry.flags access
      then (apply_tlb entry vaddr access priv_level sum mxr, mmu, m)
      else translate_walk satp priv_level sum mxr access vaddr mmu m

  abbrev refuse : ℕ → AccessType → ℕ → Mmu → M → Translated M
  refuse vaddr access reason mmu m =
      let (trap, failed) = walk_fail mmu vaddr access reason in (Result.err trap, failed, m)

  unfoldable pub translate :
      Satp → Privilege → (sum mxr : Bool) → AccessType → ℕ → Mmu → M → Translated M
  translate satp priv_level sum mxr access vaddr mmu m =
      if satp.mode == 0
      then (Result.ok vaddr, mmu, m)
      else if not (satp.mode == 8)
      then refuse vaddr access 6 mmu m
      else if not (shr vaddr 38 == 0) && not (shr vaddr 38 == 0x3FF_FFFF)
      then refuse vaddr access 7 mmu m
      else translate_cached (lookup mmu.tlb vaddr) satp priv_level sum mxr access vaddr mmu m

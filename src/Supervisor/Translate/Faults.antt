-- ===== src/Supervisor/Translate/Faults.antt =====
-- What `translate` of mmu.rs answers: where an address comes from, which trap a refusal is, and what
-- the privilege of the access and the Accessed and Dirty bits have to do with it.
use tab_linux.Base.{ℕ, zero, suc, ◌%◌, ◌^◌, ◌≡◌, refl, Bool, Option, none, some, arith}
use tab_linux.Isa.{Trap}
use tab_linux.Supervisor.{Satp, Privilege, AccessType, Result}
use tab_linux.Supervisor.Mmu.{apply_tlb, apply_pte_flags, page_fault_for, walk_fail, Mmu}
use tab_linux.Supervisor.Walk.{walk_from, walk_sv39, leaf, visit, Leaf}
use tab_linux.Supervisor.Translate.{
  finish_walk, translate, translate_cached, translate_walk, Translated,
}
use tab_linux.Supervisor.Tlb.{Tlb, TlbEntry, lookup}
use tab_linux.Cpu.{Bus}

-- A refused access is the page fault of its kind, and leaves the memory and the cache as they were.
abbrev pub Refuses : {M : Type 0} → AccessType → Tlb → M → Translated M → Type 0
Refuses access tlb m (Result.ok paddr, mmu', m') = Unit {0}
Refuses access tlb m (Result.err trap, mmu', m') =
    (trap ≡ Trap.exception (page_fault_for access)) × (mmu'.tlb ≡ tlb) × (m' ≡ m)

-- What a walk leaves.
abbrev WalkRefuses : AccessType → Tlb → Result Leaf × Mmu → Type 0
WalkRefuses access tlb (Result.ok l, mmu') = mmu'.tlb ≡ tlb
WalkRefuses access tlb (Result.err trap, mmu') =
    (trap ≡ Trap.exception (page_fault_for access)) × (mmu'.tlb ≡ tlb)

leaf-Refuses :
    (dump : Bool) (level pte pte_addr vaddr : ℕ) (access : AccessType) (mmu : Mmu)
    → WalkRefuses access mmu.tlb (leaf dump level pte pte_addr vaddr access mmu)
unfolding leaf walk_fail
leaf-Refuses dump zero pte pte_addr vaddr access mmu = ground arith
leaf-Refuses dump (suc zero) pte pte_addr vaddr access mmu = ground arith
leaf-Refuses dump (suc (suc level)) pte pte_addr vaddr access mmu = ground arith

visit-Refuses :
    (dump : Bool) (level pte pte_addr vaddr : ℕ) (access : AccessType) (mmu : Mmu)
    (next : Result Leaf × Mmu)
    → WalkRefuses access mmu.tlb next
    → WalkRefuses access mmu.tlb (visit dump level pte pte_addr vaddr access mmu next)
unfolding visit walk_fail
visit-Refuses dump level pte pte_addr vaddr access mmu next h =
    ground (arith, leaf-Refuses dump level pte pte_addr vaddr access mmu)

walk_from-Refuses :
    {M : Type 0} (bus : Bus M) (dump : Bool) (m : M) (level table vaddr : ℕ) (access : AccessType)
    (mmu : Mmu)
    → WalkRefuses access mmu.tlb (walk_from bus dump m level table vaddr access mmu)
unfolding walk_from walk_fail
walk_from-Refuses bus dump m zero table vaddr access mmu =
    visit-Refuses dump 0 _ _ vaddr access _ _ (refl, refl)
walk_from-Refuses bus dump m (suc level) table vaddr access mmu =
    visit-Refuses dump (suc level) _ _ vaddr access _ _
      (walk_from-Refuses bus dump m level _ vaddr access _)

abbrev Faults : AccessType → Result (Unit {0}) → Type 0
Faults access (Result.ok u) = Unit {0}
Faults access (Result.err trap) = trap ≡ Trap.exception (page_fault_for access)

apply_pte_flags-Faults :
    (flags : ℕ) (access : AccessType) (priv_level : Privilege) (sum mxr : Bool)
    → Faults access (apply_pte_flags flags access priv_level sum mxr)
unfolding apply_pte_flags
apply_pte_flags-Faults flags AccessType.instruction priv_level sum mxr = ground arith
apply_pte_flags-Faults flags AccessType.load priv_level sum mxr = ground arith
apply_pte_flags-Faults flags AccessType.store priv_level sum mxr = ground arith

module _ {M : Type 0} (bus : Bus M) (satp : Satp) (priv_level : Privilege) (sum mxr : Bool)
    (access : AccessType) (vaddr : ℕ) where
  finish_walk-Refuses :
      (m : M) (tlb : Tlb) (r : Result Leaf × Mmu)
      → WalkRefuses access tlb r
      → Refuses access tlb m (finish_walk bus m access priv_level sum mxr vaddr r)
  unfolding finish_walk
  finish_walk-Refuses m tlb (Result.err trap, mmu) h = ground arith
  finish_walk-Refuses m tlb (Result.ok found, mmu) h =
      ground (arith, apply_pte_flags-Faults found.flags access priv_level sum mxr)

  translate_walk-Refuses :
      (mmu : Mmu) (m : M)
      → Refuses access mmu.tlb m (translate_walk bus satp priv_level sum mxr access vaddr mmu m)
  unfolding translate_walk walk_sv39
  translate_walk-Refuses mmu m =
      finish_walk-Refuses m mmu.tlb _ (walk_from-Refuses bus _ m 2 _ vaddr access _)

  translate_cached-Refuses :
      (e : Option TlbEntry) (mmu : Mmu) (m : M)
      → Refuses access mmu.tlb m (translate_cached bus e satp priv_level sum mxr access vaddr mmu m)
  unfolding translate_cached apply_tlb
  translate_cached-Refuses none mmu m = translate_walk-Refuses mmu m
  translate_cached-Refuses (some e) mmu m = ground (
    arith,
    translate_walk-Refuses mmu m,
    apply_pte_flags-Faults e.flags access priv_level sum mxr,
  )

  -- A translation that is refused is refused with the page fault of its kind of access, and leaves
  -- the memory, with the Accessed and Dirty bits in it, and the cache as they were.
  pub translate-Refuses :
      (mmu : Mmu) (m : M)
      → Refuses access mmu.tlb m (translate bus satp priv_level sum mxr access vaddr mmu m)
  unfolding translate walk_fail
  translate-Refuses mmu m = ground (arith, translate_cached-Refuses (lookup mmu.tlb vaddr) mmu m)

-- Whether an access is allowed does not hang on the U bit where it comes from user mode: flags that
-- agree in R, W and X have the same answer, so a user access to a page without U is let through.
pub apply_pte_flags-user :
    (flags flags' : ℕ) (access : AccessType) (sum sum' mxr : Bool)
    → flags % 2 ^ 3 ≡ flags' % 2 ^ 3
    → apply_pte_flags flags access Privilege.user sum mxr
      ≡ apply_pte_flags flags' access Privilege.user sum' mxr
unfolding apply_pte_flags
apply_pte_flags-user flags flags' AccessType.instruction sum sum' mxr h = ground arith
apply_pte_flags-user flags flags' AccessType.load sum sum' mxr h = ground arith
apply_pte_flags-user flags flags' AccessType.store sum sum' mxr h = ground arith

-- ===== src/Supervisor/Walk.antt =====
-- crates/riscv-supervisor/src/mmu.rs: `walk_sv39`, the walk of the page tables.
pub mod Maps
pub mod Finds
use tab_linux.Base.{
  ℕ, zero, suc, ◌+◌, ◌-◌, ◌*◌, bit_or, Bool, not, ◌&&◌, ◌||◌, ◌==◌, if◌then◌else◌, low_bits, field,
  shl,
}
use tab_linux.Cpu.{Bus}
use tab_linux.Supervisor.{flag_of, Satp, AccessType, Result}
use tab_linux.Supervisor.Mmu.{walk_fail, Mmu}
use tab_linux.Supervisor.Tlb.{set_at}

-- The five values that a walk returns.
pub record Leaf : Type 0 where
  pub paddr : ℕ
  pub ppn : ℕ
  pub size : ℕ
  pub flags : ℕ
  pub pte_addr : ℕ

-- `vpn[level]`
unfoldable pub vpn_level : ℕ → ℕ → ℕ
vpn_level vaddr level = field vaddr (12 + 9 * level) 9

-- `Err(self.walk_fail(..))`
abbrev pub fails : Mmu → ℕ → AccessType → ℕ → Result Leaf × Mmu
fails mmu vaddr access reason =
    let (trap, failed) = walk_fail mmu vaddr access reason in (Result.err trap, failed)

-- The debugging records of a step of the loop and of its end.
abbrev pub saw : Bool → ℕ → ℕ → ℕ → Mmu → Mmu
saw dump level pte_addr pte mmu = record mmu {
  dbg_fail_pte_addr = pte_addr;
  dbg_fail_pte = pte;
  dbg_fail_level = level;
  dbg_walk_pte_addr =
      if dump then set_at mmu.dbg_walk_pte_addr level pte_addr else mmu.dbg_walk_pte_addr;
  dbg_walk_pte = if dump then set_at mmu.dbg_walk_pte level pte else mmu.dbg_walk_pte;
}

abbrev pub arrive : Bool → (paddr ppn cache_ppn size flags pte_addr : ℕ) → Mmu → Result Leaf × Mmu
arrive dump paddr ppn cache_ppn size flags pte_addr mmu = (
  Result.ok
      (record { paddr = paddr; ppn = cache_ppn; size = size; flags = flags; pte_addr = pte_addr }),
  if dump
      then record mmu { dbg_walk_paddr = paddr; dbg_walk_ppn = ppn; dbg_walk_size = size }
      else mmu,
)

-- The leaf entry of a level: the physical address, the page number to cache and the size.
unfoldable pub leaf : Bool → (level pte pte_addr vaddr : ℕ) → AccessType → Mmu → Result Leaf × Mmu
leaf dump zero pte pte_addr vaddr access mmu =
    let ppn : ℕ = field pte 10 44 in
    arrive dump (bit_or (shl 64 ppn 12) (low_bits vaddr 12)) ppn ppn 0 (field pte 1 7) pte_addr mmu
leaf dump (suc zero) pte pte_addr vaddr access mmu =
    let ppn : ℕ = field pte 10 44 in
    let base : ℕ = ppn - low_bits ppn 9 in
    if not (low_bits ppn 9 == 0)
    then fails mmu vaddr access 5
    else arrive dump (bit_or (shl 64 base 12) (low_bits vaddr 21)) ppn base 1 (field pte 1 7)
        pte_addr mmu
leaf dump (suc (suc level)) pte pte_addr vaddr access mmu =
    let ppn : ℕ = field pte 10 44 in
    let base : ℕ = ppn - low_bits ppn 18 in
    if not (low_bits ppn 18 == 0)
    then fails mmu vaddr access 4
    else arrive dump (bit_or (shl 64 base 12) (low_bits vaddr 30)) ppn base 2 (field pte 1 7)
        pte_addr mmu

-- A turn of the loop at an entry: an invalid one and a reserved one fail, one that points on goes on
-- with `next`, and a leaf ends the walk.
unfoldable pub visit :
    Bool → (level pte pte_addr vaddr : ℕ) → AccessType → Mmu → Result Leaf × Mmu → Result Leaf × Mmu
visit dump level pte pte_addr vaddr access seen next =
    if not (flag_of pte 0)
    then fails seen vaddr access 1
    else if flag_of pte 2 && not (flag_of pte 1)
    then fails seen vaddr access 2
    else if not (flag_of pte 1) && not (flag_of pte 2) && not (flag_of pte 3)
    then next
    else leaf dump level pte pte_addr vaddr access seen

module _ {M : Type 0} (bus : Bus M) where
  -- The loop. `level` counts down from 2, so it ends.
  unfoldable pub walk_from :
      Bool → M → (level table_addr vaddr : ℕ) → AccessType → Mmu → Result Leaf × Mmu
  walk_from dump m zero table_addr vaddr access mmu =
      let pte_addr : ℕ = table_addr + vpn_level vaddr 0 * 8 in
      let pte : ℕ = bus.read_u64 m pte_addr in
      let seen : Mmu = saw dump 0 pte_addr pte mmu in
      visit dump 0 pte pte_addr vaddr access seen (fails seen vaddr access 3)
  walk_from dump m (suc level) table_addr vaddr access mmu =
      let pte_addr : ℕ = table_addr + vpn_level vaddr (suc level) * 8 in
      let pte : ℕ = bus.read_u64 m pte_addr in
      let seen : Mmu = saw dump (suc level) pte_addr pte mmu in
      visit dump (suc level) pte pte_addr vaddr access seen
        (walk_from dump m level (shl 64 (field pte 10 44) 12) vaddr access seen)

  unfoldable pub walk_sv39 : M → Satp → ℕ → AccessType → Mmu → Result Leaf × Mmu
  walk_sv39 m satp vaddr access mmu =
      let root : ℕ = shl 64 satp.ppn 12 in
      let dump : Bool = vaddr == 0xffff_ffff_8089_a090 && not mmu.dbg_dumped in
      walk_from dump m 2 root vaddr access (record mmu {
        dbg_satp_ppn = satp.ppn;
        dbg_root_pte = bus.read_u64 m (root + 16);
        dbg_dumped = mmu.dbg_dumped || dump;
        dbg_walk_vaddr = if dump then vaddr else mmu.dbg_walk_vaddr;
        dbg_walk_root = if dump then root else mmu.dbg_walk_root;
      })

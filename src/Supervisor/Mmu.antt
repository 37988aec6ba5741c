-- ===== src/Supervisor/Mmu.antt =====
-- crates/riscv-supervisor/src/mmu.rs: `Mmu`, the Sv39 translation of an address. The bus is the
-- parameter `bus`; its reads and writes of the page tables go to the memory `m`.
use tab_linux.Base.{
  ℕ, ◌+◌, ◌^◌, bit_or, Bool, true, false, not, ◌&&◌, ◌||◌, [], ◌∷◌, if◌then◌else◌, select, u64,
  low_bits, field, shl,
}
use tab_linux.Isa.{Trap, Exception}
use tab_linux.Cpu.{Bus}
use tab_linux.Supervisor.{flag_of, Privilege, AccessType, Result}
use tab_linux.Supervisor.Tlb.{TlbEntry, flush, new_tlb, Tlb}

pub record Mmu : Type 0 where
  pub tlb : Tlb
  pub dbg_fail_count : ℕ
  pub dbg_fail_vaddr : ℕ
  pub dbg_fail_pte_addr : ℕ
  pub dbg_fail_pte : ℕ
  pub dbg_fail_level : ℕ
  pub dbg_fail_reason : ℕ
  pub dbg_satp_ppn : ℕ
  pub dbg_root_pte : ℕ
  pub dbg_dumped : Bool
  pub dbg_walk_vaddr : ℕ
  pub dbg_walk_root : ℕ
  pub dbg_walk_pte_addr : ℕ → ℕ
  pub dbg_walk_pte : ℕ → ℕ
  pub dbg_walk_paddr : ℕ
  pub dbg_walk_ppn : ℕ
  pub dbg_walk_size : ℕ

unfoldable pub new_mmu : Mmu
new_mmu = record {
  tlb = new_tlb;
  dbg_fail_count = 0;
  dbg_fail_vaddr = 0;
  dbg_fail_pte_addr = 0;
  dbg_fail_pte = 0;
  dbg_fail_level = 0;
  dbg_fail_reason = 0;
  dbg_satp_ppn = 0;
  dbg_root_pte = 0;
  dbg_dumped = false;
  dbg_walk_vaddr = 0;
  dbg_walk_root = 0;
  dbg_walk_pte_addr = λ i. 0;
  dbg_walk_pte = λ i. 0;
  dbg_walk_paddr = 0;
  dbg_walk_ppn = 0;
  dbg_walk_size = 0;
}

unfoldable pub flush_tlb : Mmu → Mmu
flush_tlb mmu = record mmu { tlb = flush mmu.tlb }

abbrev pub page_fault_for : AccessType → Exception
page_fault_for AccessType.instruction = Exception.instruction_page_fault
page_fault_for AccessType.load = Exception.load_page_fault
page_fault_for AccessType.store = Exception.store_page_fault

unfoldable pub walk_fail : Mmu → ℕ → AccessType → ℕ → Trap × Mmu
walk_fail mmu vaddr access reason = (
  Trap.exception (page_fault_for access),
  record mmu {
    dbg_fail_vaddr = vaddr;
    dbg_fail_reason = reason;
    dbg_fail_count = u64 (mmu.dbg_fail_count + 1);
  },
)

abbrev pub is_store : AccessType → Bool
is_store AccessType.store = true
is_store _ = false

abbrev pub is_supervisor : Privilege → Bool
is_supervisor Privilege.supervisor = true
is_supervisor _ = false

unfoldable pub ad_satisfied : ℕ → AccessType → Bool
ad_satisfied flags access = flag_of flags 5 && (not (is_store access) || flag_of flags 6)

unfoldable pub apply_pte_flags : ℕ → AccessType → Privilege → (sum mxr : Bool) → Result (Unit {0})
apply_pte_flags flags AccessType.instruction priv_level sum mxr =
    if not (flag_of flags 2)
    then Result.err (Trap.exception Exception.instruction_page_fault)
    else if is_supervisor priv_level && flag_of flags 3
    then Result.err (Trap.exception Exception.instruction_page_fault)
    else Result.ok tt
apply_pte_flags flags AccessType.load priv_level sum mxr =
    if not (flag_of flags 0) && (not mxr || not (flag_of flags 2))
    then Result.err (Trap.exception Exception.load_page_fault)
    else if is_supervisor priv_level && flag_of flags 3 && not sum
    then Result.err (Trap.exception Exception.load_page_fault)
    else Result.ok tt
apply_pte_flags flags AccessType.store priv_level sum mxr =
    if not (flag_of flags 1)
    then Result.err (Trap.exception Exception.store_page_fault)
    else if is_supervisor priv_level && flag_of flags 3 && not sum
    then Result.err (Trap.exception Exception.store_page_fault)
    else Result.ok tt

-- `(ppn << 12) | offset`, with the offset of the page size.
unfoldable pub page_address : (ppn size vaddr : ℕ) → ℕ
page_address ppn size vaddr =
    select size
      ((2, bit_or (shl 64 ppn 12) (low_bits vaddr 30))
        ∷ (1, bit_or (shl 64 ppn 12) (low_bits vaddr 21))
        ∷ [])
      (bit_or (shl 64 ppn 12) (low_bits vaddr 12))

unfoldable pub apply_tlb : TlbEntry → ℕ → AccessType → Privilege → (sum mxr : Bool) → Result ℕ
apply_tlb entry vaddr access priv_level sum mxr =
    elim (apply_pte_flags entry.flags access priv_level sum mxr) [
      | Result.err trap ↦ Result.err trap
      | Result.ok u ↦ Result.ok (page_address entry.ppn entry.size vaddr)
    ]

module _ {M : Type 0} (bus : Bus M) where
  -- What `set_ad` leaves: the flags and the memory.
  unfoldable pub set_ad : M → ℕ → ℕ → AccessType → ℕ × M
  set_ad m pte_addr flags access =
      let accessed : ℕ = bit_or (bus.read_u64 m pte_addr) (2 ^ 6) in
      let pte : ℕ = if is_store access then bit_or accessed (2 ^ 7) else accessed in
      if ad_satisfied flags access
      then (flags, m)
      else (field pte 1 7, bus.write_u64 m pte_addr pte)

-- ===== src/Supervisor/Hart.antt =====
-- crates/riscv-supervisor/src/supervisor.rs: the struct `Supervisor`, here `Hart`, and `new`. Fields
-- that only the instruments of the source write while they are switched off are left out: the trace
-- and store rings and the watches.
pub mod Spaces
pub mod Save
pub mod Csr
pub mod Interrupts
pub mod Traps
pub mod Memory
pub mod LoadStore
pub mod Privileged
pub mod Dispatch
pub mod Step
use tab_linux.Base.{ℕ, zero, suc, ◌-◌, ◌^◌, Bool, true, false, Option, none, List, [], ◌∷◌}
use tab_linux.Isa.{Instr}
use tab_linux.Cpu.{Cpu, new_cpu}
use tab_linux.Supervisor.{Privilege, MStatus, Satp, default_mstatus, default_satp}
use tab_linux.Supervisor.Mmu.{Mmu, new_mmu}

-- `AsidSlot`: the generations of one address space that is not the current one.
pub record AsidSlot : Type 0 where
  pub satp : ℕ
  pub trans_gen : ℕ
  pub data_trans_gen : ℕ

abbrev pub empty_slot : AsidSlot
empty_slot = record { satp = 2 ^ 64 - 1; trans_gen = 0; data_trans_gen = 0 }

-- An entry of the decode cache: the physical address, the instruction, its width and its word.
pub record Decoded : Type 0 where
  pub tag : ℕ
  pub instr : Instr
  pub width : ℕ
  pub raw : ℕ

-- What the register check of an interrupt return remembers: pc, satp.ppn, sp and the registers.
pub record IrqSnapshot : Type 0 where
  pub pc : ℕ
  pub satp_ppn : ℕ
  pub sp : ℕ
  pub regs : ℕ → ℕ

-- The diagnostic fields, which the rest of the state does not hang on.
pub record Diagnostics : Type 0 where
  pub last_trap_cause : ℕ
  pub last_trap_epc : ℕ
  pub last_ecall_a7 : ℕ
  pub last_ecall_a6 : ℕ
  pub last_ecall_a0 : ℕ
  pub ecall_count : ℕ
  pub last_decode_fail_raw : ℕ
  pub last_decode_fail_pc : ℕ
  pub last_fetch_paddr : ℕ
  pub last_fetch_half : ℕ
  pub dbg_last_time : ℕ
  pub dbg_time_reads : ℕ
  pub gen_bump : ℕ → ℕ
  pub phys_transitions : ℕ → ℕ × ℕ × ℕ
  pub phys_trans_idx : ℕ
  pub phys_fault_pc : ℕ
  pub phys_fault_captured : Bool
  pub irq_snapshot : Option IrqSnapshot
  pub irq_mismatch : Option (ℕ × ℕ × ℕ × ℕ)
  pub irq_snaps : ℕ
  pub irq_compares : ℕ

pub record Hart : Type 0 where
  pub cpu : Cpu
  pub mmu : Mmu
  pub priv_level : Privilege
  pub mstatus : MStatus
  pub mie : ℕ
  pub mip : ℕ
  pub mtvec : ℕ
  pub mepc : ℕ
  pub mcause : ℕ
  pub mtval : ℕ
  pub mscratch : ℕ
  pub medeleg : ℕ
  pub mideleg : ℕ
  pub stvec : ℕ
  pub sepc : ℕ
  pub scause : ℕ
  pub stval : ℕ
  pub sscratch : ℕ
  pub satp : Satp
  pub stimecmp : ℕ
  pub mcycle : ℕ
  pub minstret : ℕ
  pub pmpcfg : ℕ → ℕ
  pub pmpaddr : ℕ → ℕ
  pub wrote_mcycle : Bool
  pub wrote_minstret : Bool
  pub mhartid : ℕ
  pub wfi : Bool
  pub int_sync_countdown : ℕ
  pub fetch_vpn : ℕ
  pub fetch_priv : Privilege
  pub fetch_ppn : ℕ
  pub trap_delivered : Bool
  pub reservation_addr : Option ℕ
  pub console_buf : List ℕ
  pub console_len : ℕ
  pub last_fetched_raw : ℕ
  pub trans_gen : ℕ
  pub data_trans_gen : ℕ
  pub asid_tbl : ℕ → AsidSlot
  pub asid_gen_next : ℕ
  pub pending_flush : ℕ → ℕ
  pub pending_flush_n : ℕ
  pub icache_gen : ℕ
  pub block_start : Bool
  pub dcache : ℕ → Option Decoded
  pub sbi_enabled : Bool
  pub check_irq_regs : Bool
  pub diagnostics : Diagnostics

abbrev new_diagnostics : Diagnostics
new_diagnostics = record {
  last_trap_cause = 0;
  last_trap_epc = 0;
  last_ecall_a7 = 0;
  last_ecall_a6 = 0;
  last_ecall_a0 = 0;
  ecall_count = 0;
  last_decode_fail_raw = 0;
  last_decode_fail_pc = 0;
  last_fetch_paddr = 0;
  last_fetch_half = 0;
  dbg_last_time = 0;
  dbg_time_reads = 0;
  gen_bump = λ i. 0;
  phys_transitions = λ i. (0, 0, 0);
  phys_trans_idx = 0;
  phys_fault_pc = 0;
  phys_fault_captured = false;
  irq_snapshot = none;
  irq_mismatch = none;
  irq_snaps = 0;
  irq_compares = 0;
}

abbrev zeros : ℕ → List ℕ
zeros zero = []
zeros (suc n) = 0 ∷ zeros n

-- `Supervisor::new`.
unfoldable pub new_hart : (pc hartid : ℕ) → Hart
unfolding new_cpu new_mmu
new_hart pc hartid = record {
  cpu = new_cpu pc;
  mmu = new_mmu;
  priv_level = Privilege.machine;
  mstatus = default_mstatus;
  mie = 2 ^ 7;
  mip = 0;
  mtvec = 0;
  mepc = 0;
  mcause = 0;
  mtval = 0;
  mscratch = 0;
  medeleg = 0xFFFF;
  mideleg = 0x2A2;
  stvec = 0;
  sepc = 0;
  scause = 0;
  stval = 0;
  sscratch = 0;
  satp = default_satp;
  stimecmp = 2 ^ 64 - 1;
  mcycle = 0;
  minstret = 0;
  pmpcfg = λ i. 0;
  pmpaddr = λ i. 0;
  wrote_mcycle = false;
  wrote_minstret = false;
  mhartid = hartid;
  wfi = false;
  int_sync_countdown = 0;
  fetch_vpn = 2 ^ 64 - 1;
  fetch_priv = Privilege.machine;
  fetch_ppn = 0;
  trap_delivered = false;
  reservation_addr = none;
  console_buf = zeros 1048576;
  console_len = 0;
  last_fetched_raw = 0;
  trans_gen = 0;
  data_trans_gen = 0;
  asid_tbl = λ i. empty_slot;
  asid_gen_next = 0;
  pending_flush = λ i. 0;
  pending_flush_n = 0;
  icache_gen = 0;
  block_start = true;
  dcache = λ i. none;
  sbi_enabled = true;
  check_irq_regs = false;
  diagnostics = new_diagnostics;
}

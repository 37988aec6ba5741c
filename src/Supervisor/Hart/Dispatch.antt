-- ===== src/Supervisor/Hart/Dispatch.antt =====
-- crates/riscv-supervisor/src/supervisor.rs: `execute_supervisor`, one instruction with what the
-- privileged architecture adds.
pub mod Total
pub mod Keeps
use tab_linux.Base.{
  ℕ, suc, ◌+◌, ◌-◌, ◌^◌, bit_or, Bool, true, false, not, ◌&&◌, ◌||◌, Option, none, some, List, ◌++◌,
  ltb, ◌==◌, if◌then◌else◌, ◌>>=◌, length, u64,
}
use tab_linux.Supervisor.Hart.LoadStore.Atomic.{mark_fs, lrw, scw, lrd, scd}
use tab_linux.Supervisor.Hart.{Hart}
use tab_linux.Supervisor.Hart.Interrupts.{check_interrupts, sync_device_interrupts}
use tab_linux.Supervisor.Hart.LoadStore.{HartOutcome, deliver, execute_translated, next, next_with}
use tab_linux.Supervisor.Hart.Privileged.{csr_op, do_mret, do_sret}
use tab_linux.Supervisor.Mmu.{flush_tlb, is_supervisor}
use tab_linux.Isa.{Exception, Instr, Status, Trap}
use tab_linux.Cpu.{Bus, Cpu, FpResult, Outcome, read_reg, write_reg}
use tab_linux.Supervisor.Tlb.{set_at}
use tab_linux.Supervisor.{Privilege}
use tab_linux.Isa.Assemble.{ret}
use tab_linux.Supervisor.Hart.Spaces.{invalidate_all_spaces}
use tab_linux.Cpu.Arms.{advance}
use tab_linux.Supervisor.Hart.Csr.{bump_gen}
use tab_linux.Cpu.Execute.{execute_width}
use tab_linux.Supervisor.Sbi.{handle_ecall}

abbrev pub illegal : Trap
illegal = Trap.exception Exception.illegal_instruction

-- The `matches!` of `is_simple_load_store`, `is_fp` and `is_atomic`.
abbrev pub is_simple_load_store : Instr → Bool
is_simple_load_store (Instr.lb rd rs1 imm) = true
is_simple_load_store (Instr.lh rd rs1 imm) = true
is_simple_load_store (Instr.lw rd rs1 imm) = true
is_simple_load_store (Instr.ld rd rs1 imm) = true
is_simple_load_store (Instr.lbu rd rs1 imm) = true
is_simple_load_store (Instr.lhu rd rs1 imm) = true
is_simple_load_store (Instr.lwu rd rs1 imm) = true
is_simple_load_store (Instr.fld rd rs1 imm) = true
is_simple_load_store (Instr.flw rd rs1 imm) = true
is_simple_load_store (Instr.sb rs1 rs2 imm) = true
is_simple_load_store (Instr.sh rs1 rs2 imm) = true
is_simple_load_store (Instr.sw rs1 rs2 imm) = true
is_simple_load_store (Instr.sd rs1 rs2 imm) = true
is_simple_load_store (Instr.fsd rs1 rs2 imm) = true
is_simple_load_store (Instr.fsw rs1 rs2 imm) = true
is_simple_load_store instr = false

abbrev pub is_fp : Instr → Bool
is_fp (Instr.fp raw) = true
is_fp (Instr.flw rd rs1 imm) = true
is_fp (Instr.fsw rs1 rs2 imm) = true
is_fp (Instr.fld rd rs1 imm) = true
is_fp (Instr.fsd rs1 rs2 imm) = true
is_fp instr = false

abbrev pub is_atomic : Instr → Bool
is_atomic (Instr.amoswapw rd rs1 rs2 aq rl) = true
is_atomic (Instr.amoaddw rd rs1 rs2 aq rl) = true
is_atomic (Instr.amoxorw rd rs1 rs2 aq rl) = true
is_atomic (Instr.amoandw rd rs1 rs2 aq rl) = true
is_atomic (Instr.amoorw rd rs1 rs2 aq rl) = true
is_atomic (Instr.amominw rd rs1 rs2 aq rl) = true
is_atomic (Instr.amomaxw rd rs1 rs2 aq rl) = true
is_atomic (Instr.amominuw rd rs1 rs2 aq rl) = true
is_atomic (Instr.amomaxuw rd rs1 rs2 aq rl) = true
is_atomic (Instr.amoswapd rd rs1 rs2 aq rl) = true
is_atomic (Instr.amoaddd rd rs1 rs2 aq rl) = true
is_atomic (Instr.amoxord rd rs1 rs2 aq rl) = true
is_atomic (Instr.amoandd rd rs1 rs2 aq rl) = true
is_atomic (Instr.amoord rd rs1 rs2 aq rl) = true
is_atomic (Instr.amomind rd rs1 rs2 aq rl) = true
is_atomic (Instr.amomaxd rd rs1 rs2 aq rl) = true
is_atomic (Instr.amominud rd rs1 rs2 aq rl) = true
is_atomic (Instr.amomaxud rd rs1 rs2 aq rl) = true
is_atomic instr = false

-- `ConsoleToBuf::write`.
unfoldable pub console_write : Hart → List ℕ → Hart
console_write h bytes =
    let buf : List ℕ = h.console_buf ++ bytes in
    record h { console_buf = buf; console_len = length buf }

unfoldable pub count_ecall : Hart → Hart
count_ecall h = record h {
  diagnostics = record h.diagnostics {
    ecall_count = u64 (h.diagnostics.ecall_count + 1);
    last_ecall_a7 = read_reg h.cpu 17;
    last_ecall_a6 = read_reg h.cpu 16;
    last_ecall_a0 = read_reg h.cpu 10;
  };
}

abbrev pub ecall_cause : Privilege → Exception
ecall_cause Privilege.user = Exception.environment_call_from_u
ecall_cause Privilege.supervisor = Exception.environment_call_from_s
ecall_cause Privilege.machine = Exception.environment_call_from_m

-- One address to flush: it is queued, and where the queue is full everything goes.
unfoldable pub queue_flush : ℕ → Hart → Hart
queue_flush va h =
    if ltb h.pending_flush_n 8
    then record h {
      pending_flush = set_at h.pending_flush h.pending_flush_n va;
      pending_flush_n = suc h.pending_flush_n;
    }
    else invalidate_all_spaces (record h { pending_flush_n = 0 })

unfoldable pub sfence_vma : ℕ → Hart → Hart
sfence_vma rs1 h =
    let bumped : Hart = bump_gen (if not (rs1 == 0) then 2 else 1) h in
    let dropped : Hart = record bumped { fetch_vpn = 2 ^ 64 - 1; mmu = flush_tlb bumped.mmu } in
    if not (rs1 == 0)
    then queue_flush (read_reg h.cpu rs1) dropped
    else invalidate_all_spaces dropped

module _ {M : Type 0} (bus : Bus M) where
  -- An ecall of supervisor mode, answered here.
  unfoldable pub sbi_call : ℕ → Hart → M → HartOutcome M
  sbi_call width h m = do
    (ret, m', called) ←
        handle_ecall bus console_write (read_reg h.cpu 10) (read_reg h.cpu 11) (read_reg h.cpu 16)
          (read_reg h.cpu 17) m (count_ecall h)
    let enabled : ℕ = if ret.ext == 0x5449_4D45 then bit_or called.mie (2 ^ 5) else called.mie
    c ← write_reg called.cpu 10 ret.error
    next_with width 11 ret.value (record called { cpu = c; mie = enabled }) m'

  unfoldable pub execute_ecall : ℕ → Hart → M → HartOutcome M
  execute_ecall width h m =
      let called : HartOutcome M = sbi_call width h m in
      if h.sbi_enabled && is_supervisor h.priv_level
      then called
      else deliver (Trap.exception (ecall_cause h.priv_level)) h m

  unfoldable pub execute_wfi : ℕ → Hart → M → HartOutcome M
  execute_wfi width h m =
      let synced : Hart = record (sync_device_interrupts bus m h) { int_sync_countdown = 64 } in
      elim (check_interrupts synced) [
        | some t ↦ deliver t synced m
        | none ↦ some (Status.wfi, record synced { wfi = true; cpu = advance width h.cpu }, m)
      ]

abbrev pub csr_outcome : {M : Type 0} → Option (Status × Hart) → M → HartOutcome M
csr_outcome none m = none
csr_outcome (some (status, h)) m = some (status, h, m)

abbrev pub with_memory : {M : Type 0} → Status × Hart → M → HartOutcome M
with_memory (status, h) m = some (status, h, m)

-- `if self.priv_level == Privilege::Supervisor && self.mstatus.<bit> { take_trap(illegal) }`
abbrev pub unless_trapped : {M : Type 0} → Bool → Hart → M → HartOutcome M → HartOutcome M
unless_trapped bit h m outcome =
    if is_supervisor h.priv_level && bit then deliver illegal h m else outcome

abbrev pub keep_hart : {M : Type 0} → Hart → Outcome M → HartOutcome M
keep_hart h none = none
keep_hart h (some (status, c, m)) = some (status, record h { cpu = c }, m)

abbrev pub marked : {M : Type 0} → HartOutcome M → HartOutcome M
marked none = none
marked (some (status, h, m)) = some (status, mark_fs h, m)

module _ {M : Type 0} (bus : Bus M) (fpu : Cpu → ℕ → FpResult × Cpu) where
  -- The instructions that fall through the match.
  unfoldable pub execute_plain : Instr → ℕ → Hart → M → HartOutcome M
  execute_plain instr width h m =
      if h.mstatus.fs == 0 && is_fp instr
      then deliver illegal h m
      else if is_simple_load_store instr || is_atomic instr
      then marked (execute_translated bus instr width h m)
      else marked (keep_hart h (execute_width bus fpu instr width h.cpu m))

  unfoldable pub execute_supervisor : Instr → ℕ → Hart → M → HartOutcome M
  execute_supervisor (Instr.csrrw rd rs1 csr) width h m =
      csr_outcome (csr_op bus m csr rd rs1 (read_reg h.cpu rs1) false false width h) m
  execute_supervisor (Instr.csrrs rd rs1 csr) width h m =
      csr_outcome (csr_op bus m csr rd rs1 (read_reg h.cpu rs1) true false width h) m
  execute_supervisor (Instr.csrrc rd rs1 csr) width h m =
      csr_outcome (csr_op bus m csr rd rs1 (read_reg h.cpu rs1) true true width h) m
  execute_supervisor (Instr.csrrwi rd zimm csr) width h m =
      csr_outcome (csr_op bus m csr rd zimm zimm false false width h) m
  execute_supervisor (Instr.csrrsi rd zimm csr) width h m =
      csr_outcome (csr_op bus m csr rd zimm zimm true false width h) m
  execute_supervisor (Instr.csrrci rd zimm csr) width h m =
      csr_outcome (csr_op bus m csr rd zimm zimm true true width h) m
  execute_supervisor Instr.ecall width h m = execute_ecall bus width h m
  execute_supervisor Instr.ebreak width h m = deliver (Trap.exception Exception.breakpoint) h m
  execute_supervisor Instr.mret width h m = with_memory (do_mret h) m
  execute_supervisor Instr.sret width h m =
      unless_trapped h.mstatus.tsr h m (with_memory (do_sret h) m)
  execute_supervisor Instr.wfi width h m =
      unless_trapped h.mstatus.tw h m (execute_wfi bus width h m)
  execute_supervisor (Instr.sfence_vma rs1 rs2) width h m =
      unless_trapped h.mstatus.tvm h m (next width (sfence_vma rs1 h) m)
  execute_supervisor (Instr.lrw rd rs1 aq rl) width h m = lrw bus width rd rs1 h m
  execute_supervisor (Instr.scw rd rs1 rs2 aq rl) width h m = scw bus width rd rs1 rs2 h m
  execute_supervisor (Instr.lrd rd rs1 aq rl) width h m = lrd bus width rd rs1 h m
  execute_supervisor (Instr.scd rd rs1 rs2 aq rl) width h m = scd bus width rd rs1 rs2 h m
  execute_supervisor instr width h m = execute_plain instr width h m

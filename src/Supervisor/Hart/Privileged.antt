-- ===== src/Supervisor/Hart/Privileged.antt =====
-- crates/riscv-supervisor/src/supervisor.rs: the returns from traps, and the instructions on the
-- control and status registers, which compiled code does by `csr_jit`.
pub mod Returns
pub mod Access
pub mod Keeps
pub mod Sstatus
use tab_linux.Base.{
  ℕ, zero, suc, ◌+◌, bit_or, Bool, true, false, not, ◌&&◌, ◌||◌, Option, none, some, [], ◌∷◌, ltb,
  ◌==◌, if◌then◌else◌, select, ◌>>=◌, u64, field,
}
use tab_linux.Isa.{Exception, Status, Trap}
use tab_linux.Supervisor.Hart.Csr.{
  csr_read, csr_write, is_phys_kernel, priv_code, record_phys_transition, without,
}
use tab_linux.Supervisor.Hart.Traps.{take_trap}
use tab_linux.Supervisor.Mmu.{is_supervisor}
use tab_linux.Supervisor.Hart.{Diagnostics, Hart, IrqSnapshot}
use tab_linux.Cpu.Arms.{advance, clear_last}
use tab_linux.Cpu.{Bus, write_reg}
use tab_linux.Supervisor.{Privilege}

-- `match mpp { 0 => .., 1 => .., 3 => .., _ => .. }`
unfoldable pub priv_level_from_mpp : ℕ → Privilege
priv_level_from_mpp mpp =
    select mpp ((0, Privilege.user) ∷ (1, Privilege.supervisor) ∷ (3, Privilege.machine) ∷ [])
      Privilege.user

-- `if Self::is_phys_kernel(target) && self.satp.mode == 8 { .. } self.cpu.pc = target;`
unfoldable pub return_to : ℕ → Hart → Hart
return_to target h =
    let noted : Hart =
      if is_phys_kernel target && h.satp.mode == 8
      then record_phys_transition h.cpu.pc target h
      else h in
    record noted { cpu = record noted.cpu { pc = target } }

unfoldable pub do_mret : Hart → Status × Hart
do_mret h =
    let returned : Hart = record h {
      mstatus = record h.mstatus { mie = h.mstatus.mpie; mpie = true; mpp = 0 };
      priv_level = priv_level_from_mpp h.mstatus.mpp;
    } in
    (Status.running, return_to (clear_last h.mepc) returned)

-- `for i in 1..32`: the first register from i on that is not what it was.
unfoldable pub first_mismatch : (count i : ℕ) → (x regs : ℕ → ℕ) → Option ℕ
first_mismatch zero i x regs = none
first_mismatch (suc count) i x regs =
    let rest : Option ℕ = first_mismatch count (suc i) x regs in
    if x i == regs i then rest else some i

-- The comparison with the registers of the interrupt that is returned from.
unfoldable pub compare_registers : IrqSnapshot → Hart → Diagnostics
compare_registers s h =
    let d : Diagnostics = h.diagnostics in
    let compared : Diagnostics = record d { irq_compares = u64 (d.irq_compares + 1) } in
    if clear_last h.sepc == s.pc && h.satp.ppn == s.satp_ppn && h.cpu.x 2 == s.sp
    then elim (first_mismatch 31 1 h.cpu.x s.regs) [
      | none ↦ compared
      | some i ↦ record compared { irq_mismatch = some (s.pc, i, s.regs i, h.cpu.x i) }
    ]
    else d

unfoldable pub check_return : Hart → Diagnostics
check_return h =
    let d : Diagnostics = h.diagnostics in
    elim d.irq_snapshot [
      | none ↦ d
      | some s ↦ elim d.irq_mismatch [
        | some found ↦ d
        | none ↦
            if h.check_irq_regs then record (compare_registers s h) { irq_snapshot = none } else d
      ]
    ]

unfoldable pub do_sret : Hart → Status × Hart
do_sret h =
    let returned : Hart = record h {
      diagnostics = check_return h;
      mstatus = record h.mstatus { sie = h.mstatus.spie; spie = true; spp = false };
      priv_level = if h.mstatus.spp then Privilege.supervisor else Privilege.user;
    } in
    (Status.running, return_to (clear_last h.sepc) returned)

-- The checks of the privilege, of TVM, and of a write to a register that is read only.
abbrev pub will_write : (read : Bool) → (src : ℕ) → Bool
will_write read src = not read || not (src == 0)

unfoldable pub csr_refused : (csr src : ℕ) → (read : Bool) → Hart → Bool
csr_refused csr src read h =
    ltb (priv_code h.priv_level) (field csr 8 2)
    || (csr == 0x180 && is_supervisor h.priv_level && h.mstatus.tvm)
    || (will_write read src && field csr 10 2 == 3)

abbrev pub new_value : (old val : ℕ) → (read clear : Bool) → ℕ
new_value old val read clear =
    if clear then without old val else if read then bit_or old val else val

module _ {M : Type 0} (bus : Bus M) where
  -- Read, write where there is a write, and answer the old value; `none` is the panic of `write_reg`.
  unfoldable pub csr_update : M → (csr rd src val : ℕ) → (read clear : Bool) → Hart → Option Hart
  csr_update m csr rd src val read clear h = do
    let old : ℕ = (csr_read bus h m csr).0
    let h' : Hart = (csr_read bus h m csr).1
    let written : Hart =
        if will_write read src then csr_write csr (new_value old val read clear) h' else h'
    c ← write_reg written.cpu rd old
    some (record written { cpu = c })

  unfoldable pub csr_op :
      M → (csr rd rs1 val : ℕ) → (read clear : Bool) → (width : ℕ) → Hart → Option (Status × Hart)
  csr_op m csr rd rs1 val read clear width h =
      if csr_refused csr rs1 read h
      then some (take_trap (Trap.exception Exception.illegal_instruction) h)
      else do
        h' ← csr_update m csr rd rs1 val read clear h
        some (Status.running, record h' { cpu = advance width h'.cpu })

  -- `true` asks the interpreter to do the instruction.
  unfoldable pub csr_jit : M → (csr rd src val kind : ℕ) → Hart → Option (Bool × Hart)
  csr_jit m csr rd src val kind h =
      let read : Bool = not (kind == 0) in
      let clear : Bool = kind == 2 in
      let will_store : Bool = not read || not (src == 0) in
      let old : ℕ = (csr_read bus h m csr).0 in
      let h₁ : Hart = (csr_read bus h m csr).1 in
      let new_csr : ℕ = if clear then without old val else if read then bit_or old val else val in
      let h₂ : Hart = if will_store then csr_write csr new_csr h₁ else h₁ in
      let updated : Option (Bool × Hart) = do
        c ← write_reg h₂.cpu rd old
        some (false, record h₂ { cpu = c })
      in if ltb (priv_code h.priv_level) (field csr 8 2)
        then some (true, h)
        else if csr == 0x180 && is_supervisor h.priv_level && h.mstatus.tvm
        then some (true, h)
        else if will_store && field csr 10 2 == 3
        then some (true, h)
        else updated

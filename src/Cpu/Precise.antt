-- ===== src/Cpu/Precise.antt =====
-- execute.rs: what a trap leaves of the registers and the memory.
use tab_linux.Base.{ℕ, ◌≡◌, none, some, arith}
use tab_linux.Isa.{Instr, Status}
use tab_linux.Cpu.{read_f, write_f, write_reg, Bus, Cpu, FpResult, Outcome}
use tab_linux.Cpu.Arms.{
  advance, amo_d, amo_w, branch, finish, jump, retire, retire_f, retire_fp, traps,
}
use tab_linux.Cpu.Execute.{execute_width}
use tab_linux.Cpu.Values.{checked_sar, checked_shl, checked_shr}
use tab_linux.Cpu.Invariant.{AvoidsFpu}

-- What does not run on, a trap or a wait for an interrupt, has the registers and the memory as before.
abbrev pub IsPrecise : {M : Type 0} → Cpu → M → Outcome M → Type 0
IsPrecise cpu m none = Unit
IsPrecise cpu m (some (Status.running, c, m')) = Unit
IsPrecise cpu m (some (Status.trap t, c, m')) = (c ≡ cpu) × (m' ≡ m)
IsPrecise cpu m (some (Status.wfi, c, m')) = (c ≡ cpu) × (m' ≡ m)

module _ {M : Type 0} (bus : Bus M) (fpu : Cpu → ℕ → FpResult × Cpu) where
  -- An instruction that traps or waits leaves the registers, with the PC, and the memory as they were,
  -- if it is none that the floating-point unit carries out.
  pub execute_width-IsPrecise :
      (i : Instr) (width : ℕ) (cpu : Cpu) (m : M)
      → AvoidsFpu i
      → IsPrecise cpu m (execute_width bus fpu i width cpu m)
  unfolding execute_width advance finish retire retire_f jump branch traps retire_fp amo_w amo_d
      write_reg write_f read_f checked_shl checked_shr checked_sar
  execute_width-IsPrecise (Instr.lui rd imm) width cpu m avoids = ground arith
  execute_width-IsPrecise (Instr.fp raw) width cpu m avoids = absurd avoids
  execute_width-IsPrecise _ width cpu m avoids = ground arith

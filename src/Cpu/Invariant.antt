-- ===== src/Cpu/Invariant.antt =====
-- execute.rs: register x0 through the instructions.
use tab_linux.Base.{ℕ, ◌≡◌, none, some, arith}
use tab_linux.Cpu.Arms.{
  advance, amo_d, amo_w, branch, finish, jump, retire, retire_f, retire_fp, traps,
}
use tab_linux.Cpu.{Bus, Cpu, FpResult, Outcome, read_f, write_f, write_reg}
use tab_linux.Cpu.Values.{checked_sar, checked_shl, checked_shr}
use tab_linux.Isa.{Instr}
use tab_linux.Cpu.Execute.{execute_width}

-- A property of the registers that holds of an outcome, if the step completes.
abbrev pub Leaves {ℓ} : {M : Type 0} → (Cpu → Type ℓ) → Outcome M → Type ℓ
Leaves P none = Unit
Leaves P (some (status, cpu, m)) = P cpu

abbrev pub HasZero : Cpu → Type 0
HasZero cpu = cpu.x 0 ≡ 0

-- The instruction is not one that `fpu::execute` carries out; loads and stores of floating-point
-- registers are not.
abbrev pub AvoidsFpu : Instr → Type 0
AvoidsFpu (Instr.fp raw) = ⊥
AvoidsFpu i = Unit

module _ {M : Type 0} (bus : Bus M) (fpu : Cpu → ℕ → FpResult × Cpu) where
  -- x0 stays zero through every instruction that the floating-point unit does not carry out.
  pub execute_width-HasZero :
      (i : Instr) (width : ℕ) (cpu : Cpu) (m : M)
      → AvoidsFpu i
      → HasZero cpu
      → Leaves HasZero (execute_width bus fpu i width cpu m)
  unfolding execute_width advance finish retire retire_f jump branch traps retire_fp amo_w amo_d
      write_reg write_f read_f checked_shl checked_shr checked_sar
  execute_width-HasZero (Instr.lui rd imm) width cpu m avoids h = ground arith
  execute_width-HasZero (Instr.fp raw) width cpu m avoids h = absurd avoids
  execute_width-HasZero _ width cpu m avoids h = ground arith

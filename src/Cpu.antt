-- ===== src/Cpu.antt =====
-- crates/riscv-core/src/execute.rs: the registers, the bus and the result of a step.
pub mod Values
pub mod Arms
pub mod Execute
pub mod Safety
pub mod Invariant
pub mod Load
pub mod Division
pub mod Product
pub mod Precise
use tab_linux.Base.{ℕ, Bool, true, false, Option, none, some, ltb, ◌==◌, if◌then◌else◌, low_bits}
use tab_linux.Isa.{Status}
use tab_linux.Isa.Assemble.{j}

-- `Cpu`. The register files are functions from the index; only the indices below 32 exist.
pub record Cpu : Type 0 where
  pub x : ℕ → ℕ
  pub jit_fault : ℕ
  pub jit_next_pc : ℕ
  pub jit_insns : ℕ
  pub jit_budget : ℕ
  pub f : ℕ → ℕ
  pub pc : ℕ
  pub fcsr : ℕ
  pub fs_dirty : Bool

-- The `Bus` trait, over the state M of what implements it, where no access panics. `DeviceBus` is such a
-- bus but for an access that starts in its memory and ends behind it.
pub record Bus (M : Type 0) : Type 0 where
  pub read_u8 : M → ℕ → ℕ
  pub read_u16 : M → ℕ → ℕ
  pub read_u32 : M → ℕ → ℕ
  pub read_u64 : M → ℕ → ℕ
  pub write_u8 : M → ℕ → ℕ → M
  pub write_u16 : M → ℕ → ℕ → M
  pub write_u32 : M → ℕ → ℕ → M
  pub write_u64 : M → ℕ → ℕ → M
  pub check_timer_interrupt : M → Bool
  pub read_mtime : M → ℕ
  pub check_external_interrupt : M → Bool

-- `FpResult` of fpu.rs: what the floating-point unit says of one instruction.
pub record FpResult : Type 0 where
  pub ok : Bool
  pub flags : ℕ
  pub dirty : Bool

abbrev pub update : (ℕ → ℕ) → ℕ → ℕ → ℕ → ℕ
update file i v j = if i == j then v else file j

unfoldable pub new_cpu : ℕ → Cpu
new_cpu pc = record {
  x = λ i. 0;
  jit_fault = 0;
  jit_next_pc = 0;
  jit_insns = 0;
  jit_budget = 0;
  f = λ i. 0;
  pc = pc;
  fcsr = 0;
  fs_dirty = false;
}

-- The index is masked with 31.
unfoldable pub read_reg : Cpu → ℕ → ℕ
read_reg cpu i = cpu.x (low_bits i 5)

-- `none` is the panic of an index out of bounds.
unfoldable pub write_reg : Cpu → ℕ → ℕ → Option Cpu
write_reg cpu i val =
    if i == 0
    then some cpu
    else if ltb i 32
    then some (record cpu { x = update cpu.x i val })
    else none

unfoldable pub read_freg : Cpu → ℕ → ℕ
read_freg cpu i = cpu.f (low_bits i 5)

unfoldable pub write_freg : Cpu → ℕ → ℕ → Cpu
write_freg cpu i val = record cpu { f = update cpu.f (low_bits i 5) val }

-- `self.f[i]` on the left and on the right of an assignment, which check the index.
unfoldable pub write_f : Cpu → ℕ → ℕ → Option Cpu
write_f cpu i val =
    if ltb i 32 then some (record cpu { f = update cpu.f i val; fs_dirty = true }) else none

unfoldable pub read_f : Cpu → ℕ → Option ℕ
read_f cpu i = if ltb i 32 then some (cpu.f i) else none

-- What one instruction leaves: the status, the registers and the memory; `none` is a panic.
abbrev pub Outcome : Type 0 → Type 0
Outcome M = Option (Status × Cpu × M)

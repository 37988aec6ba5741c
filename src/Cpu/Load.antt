-- ===== src/Cpu/Load.antt =====
-- What the constant loads that `li` of encode.rs makes do when execute.rs runs them.
use tab_linux.Base.{
  ℕ, ◌*◌, ◌/◌, ◌^◌, ◌<◌, ◌≡◌, ◌⊎◌, Option, none, some, List, [], ◌∷◌, arith, u32, low_bits, field,
  sext, shl,
}
use tab_linux.Cpu.Execute.{execute, execute_width}
use tab_linux.Cpu.{Bus, Cpu, FpResult, read_reg, write_reg}
use tab_linux.Isa.Assemble.{li, li_hi, li_lo}
use tab_linux.Isa.Range.{IsSigned}
use tab_linux.Cpu.Arms.{address, advance, finish, retire}
use tab_linux.Isa.{Status, Instr}
use tab_linux.Cpu.Values.{wrapping_sub, wrapping_add}

module _ {M : Type 0} (bus : Bus M) (fpu : Cpu → ℕ → FpResult × Cpu) where
  -- Run a straight piece of code; `none` if an instruction panics or does not go on.
  pub run : List Instr → Cpu → M → Option (Cpu × M)
  run [] cpu m = some (cpu, m)
  run (i ∷ is) cpu m = elim (execute bus fpu i cpu m) [
    | none ↦ none
    | some (Status.running, c, m') ↦ run is c m'
    | some (Status.trap t, c, m') ↦ none
    | some (Status.wfi, c, m') ↦ none
  ]

  -- The run ends with the value in the register and the memory as it was.
  abbrev pub Loads : (rd value : ℕ) → M → Option (Cpu × M) → Type 0
  Loads rd value m none = ⊥
  Loads rd value m (some (c, m')) = (c.x rd ≡ value) × (m' ≡ m)

  li_hi_value :
      (imm : ℕ) → IsSigned 32 imm → shl 64 (li_hi imm) 12 ≡ sext 32 (u32 imm / 2 ^ 12 * 2 ^ 12)
  unfolding li_hi
  li_hi_value imm h = ground arith

  li_lo_value : (imm : ℕ) → li_lo imm ≡ sext 12 (low_bits imm 12)
  unfolding li_lo
  li_lo_value imm = ground arith

  -- The code of `li` loads a signed 32-bit constant into any register but x0, if the constant has 12
  -- bits or its bit 11 is clear and x0 holds zero.
  li-Loads :
      (rd imm : ℕ) (cpu : Cpu) (m : M)
      → 0 < rd
      → rd < 32
      → cpu.x 0 ≡ 0
      → IsSigned 32 imm
      → IsSigned 12 imm ⊎ (field imm 11 1 ≡ 0)
      → Loads rd imm m (run (li rd imm) cpu m)
  unfolding run li execute execute_width retire finish write_reg read_reg address wrapping_add
      advance
  li-Loads rd imm cpu m p q z h o = ground (arith, li_hi_value imm h, li_lo_value imm)

  -- The code of `li` loads a signed 32-bit constant that does not fit in 12 bits and has bit 11 set
  -- 4096 too low, into any register but x0: the upper part is not rounded up for the sign extension
  -- of the lower one.
  pub li-Loads_low :
      (rd imm : ℕ) (cpu : Cpu) (m : M)
      → 0 < rd
      → rd < 32
      → IsSigned 32 imm
      → ¬ IsSigned 12 imm
      → field imm 11 1 ≡ 1
      → Loads rd (wrapping_sub imm 4096) m (run (li rd imm) cpu m)
  unfolding run li execute execute_width retire finish write_reg read_reg address wrapping_add
      wrapping_sub advance
  li-Loads_low rd imm cpu m p q h o b = ground (arith, li_hi_value imm h, li_lo_value imm)

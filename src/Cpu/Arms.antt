-- ===== src/Cpu/Arms.antt =====
-- crates/riscv-core/src/execute.rs: what the arms of `execute_width` have in common.
use tab_linux.Base.{ℕ, ◌*◌, ◌/◌, bit_or, Bool, ◌||◌, some, if◌then◌else◌, ◌>>=◌, sext}
use tab_linux.Isa.{Exception, running, trap, exception, illegal_instruction}
use tab_linux.Cpu.{Bus, Cpu, FpResult, Outcome, read_reg, write_f, write_reg}
use tab_linux.Cpu.Values.{wrapping_add}

-- `self.pc = self.pc.wrapping_add(width as u64)`.
unfoldable pub advance : ℕ → Cpu → Cpu
advance width cpu = record cpu { pc = wrapping_add cpu.pc width }

unfoldable pub address : Cpu → (rs1 imm : ℕ) → ℕ
address cpu rs1 imm = wrapping_add (read_reg cpu rs1) imm

-- `& !1`.
unfoldable pub clear_last : ℕ → ℕ
clear_last x = x / 2 * 2

module _ {M : Type 0} where
  unfoldable pub finish : ℕ → Cpu → M → Outcome M
  finish width cpu m = some (running, advance width cpu, m)

  -- Write the result, then step over the instruction.
  unfoldable pub retire : ℕ → Cpu → M → (rd val : ℕ) → Outcome M
  retire width cpu m rd val = do c ← write_reg cpu rd val; finish width c m

  unfoldable pub retire_f : ℕ → Cpu → M → (rd val : ℕ) → Outcome M
  retire_f width cpu m rd val = do c ← write_f cpu rd val; finish width c m

  -- Write the return address, then go to the target.
  unfoldable pub jump : ℕ → Cpu → M → (rd target : ℕ) → Outcome M
  jump width cpu m rd target = do
    c ← write_reg cpu rd (wrapping_add cpu.pc width)
    some (running, record c { pc = target }, m)

  unfoldable pub branch : Bool → (imm width : ℕ) → Cpu → M → Outcome M
  branch taken imm width cpu m =
      if taken
      then some (running, record cpu { pc = wrapping_add cpu.pc imm }, m)
      else finish width cpu m

  unfoldable pub traps : Exception → Cpu → M → Outcome M
  traps e cpu m = some (trap (exception e), cpu, m)

  -- A failure of the floating-point unit keeps what it wrote to the registers.
  unfoldable pub retire_fp : FpResult × Cpu → ℕ → Cpu → M → Outcome M
  retire_fp (r, c) width cpu m =
      if r.ok
      then finish width
          (record c { fcsr = bit_or c.fcsr r.flags; fs_dirty = c.fs_dirty || r.dirty }) m
      else traps illegal_instruction c m

-- Read, store what the operation makes of the old value, and answer the old value.
module _ {M : Type 0} (bus : Bus M) where
  unfoldable pub amo_w : ℕ → Cpu → M → (rd rs1 : ℕ) → (ℕ → ℕ) → Outcome M
  amo_w width cpu m rd rs1 new =
      let addr = read_reg cpu rs1 in
      let old = bus.read_u32 m addr in
      retire width cpu (bus.write_u32 m addr (new old)) rd (sext 32 old)

  unfoldable pub amo_d : ℕ → Cpu → M → (rd rs1 : ℕ) → (ℕ → ℕ) → Outcome M
  amo_d width cpu m rd rs1 new =
      let addr = read_reg cpu rs1 in
      let old = bus.read_u64 m addr in retire width cpu (bus.write_u64 m addr (new old)) rd old

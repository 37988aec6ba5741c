-- ===== src/Cpu/Safety.antt =====
-- execute.rs: where it could panic, on an index into a register file or on the width of a shift.
use tab_linux.Base.{ℕ, ◌^◌, ◌<◌, ◌≡◌, ◌≢◌, none, some, arith}
use tab_linux.Cpu.Arms.{amo_d, amo_w, branch, finish, jump, retire, retire_f, retire_fp, traps}
use tab_linux.Cpu.{Bus, Cpu, FpResult, read_f, write_f, write_reg}
use tab_linux.Cpu.Values.{checked_sar, checked_shl, checked_shr}
use tab_linux.Cpu.Execute.{execute_width}
use tab_linux.Isa.{Instr}
use tab_linux.Isa.Range.{InRange}
use tab_linux.Isa.Decode.{decode}
use tab_linux.Isa.Decode.Ranges.{decode-InRange}
use tab_linux.Isa.Compressed.Ranges.{decompress-InRange}
use tab_linux.Isa.Compressed.{decompress}

module _ {M : Type 0} (bus : Bus M) (fpu : Cpu → ℕ → FpResult × Cpu) where
  pub execute_width-ne-none :
      (i : Instr) (width : ℕ) (cpu : Cpu) (m : M)
      → InRange i
      → execute_width bus fpu i width cpu m ≢ none
  unfolding execute_width finish retire retire_f jump branch traps retire_fp amo_w amo_d write_reg
      write_f read_f checked_shl checked_shr checked_sar
  execute_width-ne-none (Instr.lui rd imm) width cpu m h = ground arith
  execute_width-ne-none _ width cpu m h = ground arith

  -- Every 32-bit word executes without a panic once it is decoded, whatever the registers and the
  -- memory hold.
  execute_decoded-ne-none :
      (raw width : ℕ) (cpu : Cpu) (m : M)
      → raw < 2 ^ 32
      → execute_width bus fpu (decode raw) width cpu m ≢ none
  execute_decoded-ne-none raw width cpu m h =
      execute_width-ne-none (decode raw) width cpu m (decode-InRange raw h)

  -- Every 16-bit word that decompresses executes without a panic, whatever the registers and the
  -- memory hold.
  pub execute_decompressed-ne-none :
      (raw width : ℕ) (i : Instr) (cpu : Cpu) (m : M)
      → decompress raw ≡ some i
      → execute_width bus fpu i width cpu m ≢ none
  execute_decompressed-ne-none raw width i cpu m e =
      execute_width-ne-none i width cpu m (decompress-InRange raw e)

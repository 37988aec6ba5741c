-- ===== src/Cpu/Execute.antt =====
-- crates/riscv-core/src/execute.rs: `execute_width` and `execute`, over any bus. The arms that differ
-- only in the value they compute share a helper. The floating-point unit, `fpu::execute`, is the
-- parameter `fpu`: it answers what it says of the instruction and the registers that it leaves.
use tab_linux.Base.{
  ℕ, ◌+◌, ◌-◌, ◌^◌, bit_and, bit_or, bit_xor, not, some, ltb, ◌==◌, ◌>>=◌, u8, u16, u32, shr,
  low_bits, sar, sext, slt, shl,
}
use tab_linux.Isa.{Instr, Status, illegal_instruction, breakpoint, environment_call_from_m}
use tab_linux.Cpu.Values.{
  amo_max, amo_maxu, amo_min, amo_minu, checked_sar, checked_shl, checked_shr, div, divu, divuw,
  divw, from_bool, mul, mulh, mulhsu, mulhu, mulw, rem, remu, remuw, remw, wrapping_add,
  wrapping_sub,
}
use tab_linux.Cpu.Arms.{
  address, amo_d, amo_w, branch, clear_last, finish, jump, retire, retire_f, retire_fp, traps,
}
use tab_linux.Cpu.{Bus, Cpu, FpResult, Outcome, read_f, read_reg}

module _ {M : Type 0} (bus : Bus M) (fpu : Cpu → ℕ → FpResult × Cpu) where
  unfoldable pub execute_width : Instr → ℕ → Cpu → M → Outcome M
  execute_width (Instr.lui rd imm) width cpu m = retire width cpu m rd imm
  execute_width (Instr.auipc rd imm) width cpu m = retire width cpu m rd (wrapping_add cpu.pc imm)
  execute_width (Instr.jal rd imm) width cpu m = jump width cpu m rd (wrapping_add cpu.pc imm)
  execute_width (Instr.jalr rd rs1 imm) width cpu m =
      jump width cpu m rd (clear_last (address cpu rs1 imm))
  execute_width (Instr.beq rs1 rs2 imm) width cpu m =
      branch (read_reg cpu rs1 == read_reg cpu rs2) imm width cpu m
  execute_width (Instr.bne rs1 rs2 imm) width cpu m =
      branch (not (read_reg cpu rs1 == read_reg cpu rs2)) imm width cpu m
  execute_width (Instr.blt rs1 rs2 imm) width cpu m =
      branch (slt 64 (read_reg cpu rs1) (read_reg cpu rs2)) imm width cpu m
  execute_width (Instr.bge rs1 rs2 imm) width cpu m =
      branch (not (slt 64 (read_reg cpu rs1) (read_reg cpu rs2))) imm width cpu m
  execute_width (Instr.bltu rs1 rs2 imm) width cpu m =
      branch (ltb (read_reg cpu rs1) (read_reg cpu rs2)) imm width cpu m
  execute_width (Instr.bgeu rs1 rs2 imm) width cpu m =
      branch (not (ltb (read_reg cpu rs1) (read_reg cpu rs2))) imm width cpu m
  execute_width (Instr.lb rd rs1 imm) width cpu m =
      retire width cpu m rd (sext 8 (bus.read_u8 m (address cpu rs1 imm)))
  execute_width (Instr.lh rd rs1 imm) width cpu m =
      retire width cpu m rd (sext 16 (bus.read_u16 m (address cpu rs1 imm)))
  execute_width (Instr.lw rd rs1 imm) width cpu m =
      retire width cpu m rd (sext 32 (bus.read_u32 m (address cpu rs1 imm)))
  execute_width (Instr.ld rd rs1 imm) width cpu m =
      retire width cpu m rd (bus.read_u64 m (address cpu rs1 imm))
  execute_width (Instr.lbu rd rs1 imm) width cpu m =
      retire width cpu m rd (bus.read_u8 m (address cpu rs1 imm))
  execute_width (Instr.lhu rd rs1 imm) width cpu m =
      retire width cpu m rd (bus.read_u16 m (address cpu rs1 imm))
  execute_width (Instr.lwu rd rs1 imm) width cpu m =
      retire width cpu m rd (bus.read_u32 m (address cpu rs1 imm))
  execute_width (Instr.flw rd rs1 imm) width cpu m =
      retire_f width cpu m rd (bit_or 0xFFFF_FFFF_0000_0000 (bus.read_u32 m (address cpu rs1 imm)))
  execute_width (Instr.fld rd rs1 imm) width cpu m =
      retire_f width cpu m rd (bus.read_u64 m (address cpu rs1 imm))
  execute_width (Instr.sb rs1 rs2 imm) width cpu m =
      finish width cpu (bus.write_u8 m (address cpu rs1 imm) (u8 (read_reg cpu rs2)))
  execute_width (Instr.sh rs1 rs2 imm) width cpu m =
      finish width cpu (bus.write_u16 m (address cpu rs1 imm) (u16 (read_reg cpu rs2)))
  execute_width (Instr.sw rs1 rs2 imm) width cpu m =
      finish width cpu (bus.write_u32 m (address cpu rs1 imm) (u32 (read_reg cpu rs2)))
  execute_width (Instr.sd rs1 rs2 imm) width cpu m =
      finish width cpu (bus.write_u64 m (address cpu rs1 imm) (read_reg cpu rs2))
  execute_width (Instr.fsw rs1 rs2 imm) width cpu m = do
    v ← read_f cpu rs2
    finish width cpu (bus.write_u32 m (address cpu rs1 imm) (u32 v))
  execute_width (Instr.fsd rs1 rs2 imm) width cpu m = do
    v ← read_f cpu rs2
    finish width cpu (bus.write_u64 m (address cpu rs1 imm) v)
  execute_width (Instr.addi rd rs1 imm) width cpu m = retire width cpu m rd (address cpu rs1 imm)
  execute_width (Instr.slti rd rs1 imm) width cpu m =
      retire width cpu m rd (from_bool (slt 64 (read_reg cpu rs1) imm))
  execute_width (Instr.sltiu rd rs1 imm) width cpu m =
      retire width cpu m rd (from_bool (ltb (read_reg cpu rs1) imm))
  execute_width (Instr.xori rd rs1 imm) width cpu m =
      retire width cpu m rd (bit_xor (read_reg cpu rs1) imm)
  execute_width (Instr.ori rd rs1 imm) width cpu m =
      retire width cpu m rd (bit_or (read_reg cpu rs1) imm)
  execute_width (Instr.andi rd rs1 imm) width cpu m =
      retire width cpu m rd (bit_and (read_reg cpu rs1) imm)
  execute_width (Instr.slli rd rs1 shamt) width cpu m = do
    v ← checked_shl 64 (read_reg cpu rs1) shamt
    retire width cpu m rd v
  execute_width (Instr.srli rd rs1 shamt) width cpu m = do
    v ← checked_shr 64 (read_reg cpu rs1) shamt
    retire width cpu m rd v
  execute_width (Instr.srai rd rs1 shamt) width cpu m = do
    v ← checked_sar 64 (read_reg cpu rs1) shamt
    retire width cpu m rd v
  execute_width (Instr.add rd rs1 rs2) width cpu m =
      retire width cpu m rd (wrapping_add (read_reg cpu rs1) (read_reg cpu rs2))
  execute_width (Instr.sub rd rs1 rs2) width cpu m =
      retire width cpu m rd (wrapping_sub (read_reg cpu rs1) (read_reg cpu rs2))
  execute_width (Instr.sll rd rs1 rs2) width cpu m =
      retire width cpu m rd (shl 64 (read_reg cpu rs1) (low_bits (read_reg cpu rs2) 6))
  execute_width (Instr.slt rd rs1 rs2) width cpu m =
      retire width cpu m rd (from_bool (slt 64 (read_reg cpu rs1) (read_reg cpu rs2)))
  execute_width (Instr.sltu rd rs1 rs2) width cpu m =
      retire width cpu m rd (from_bool (ltb (read_reg cpu rs1) (read_reg cpu rs2)))
  execute_width (Instr.xor rd rs1 rs2) width cpu m =
      retire width cpu m rd (bit_xor (read_reg cpu rs1) (read_reg cpu rs2))
  execute_width (Instr.srl rd rs1 rs2) width cpu m =
      retire width cpu m rd (shr (read_reg cpu rs1) (low_bits (read_reg cpu rs2) 6))
  execute_width (Instr.sra rd rs1 rs2) width cpu m =
      retire width cpu m rd (sar 64 (read_reg cpu rs1) (low_bits (read_reg cpu rs2) 6))
  execute_width (Instr.or rd rs1 rs2) width cpu m =
      retire width cpu m rd (bit_or (read_reg cpu rs1) (read_reg cpu rs2))
  execute_width (Instr.and rd rs1 rs2) width cpu m =
      retire width cpu m rd (bit_and (read_reg cpu rs1) (read_reg cpu rs2))
  execute_width (Instr.addiw rd rs1 imm) width cpu m =
      retire width cpu m rd (sext 32 (u32 (u32 (read_reg cpu rs1) + u32 imm)))
  execute_width (Instr.slliw rd rs1 shamt) width cpu m = do
    v ← checked_shl 32 (u32 (read_reg cpu rs1)) shamt
    retire width cpu m rd (sext 32 v)
  execute_width (Instr.srliw rd rs1 shamt) width cpu m = do
    v ← checked_shr 32 (u32 (read_reg cpu rs1)) shamt
    retire width cpu m rd (sext 32 v)
  execute_width (Instr.sraiw rd rs1 shamt) width cpu m = do
    v ← checked_sar 32 (u32 (read_reg cpu rs1)) shamt
    retire width cpu m rd (sext 32 v)
  execute_width (Instr.addw rd rs1 rs2) width cpu m =
      retire width cpu m rd (sext 32 (u32 (u32 (read_reg cpu rs1) + u32 (read_reg cpu rs2))))
  execute_width (Instr.subw rd rs1 rs2) width cpu m =
      retire width cpu m rd
        (sext 32 (u32 (u32 (read_reg cpu rs1) + 2 ^ 32 - u32 (read_reg cpu rs2))))
  execute_width (Instr.sllw rd rs1 rs2) width cpu m =
      retire width cpu m rd
        (sext 32 (shl 32 (u32 (read_reg cpu rs1)) (low_bits (read_reg cpu rs2) 5)))
  execute_width (Instr.srlw rd rs1 rs2) width cpu m =
      retire width cpu m rd (sext 32 (shr (u32 (read_reg cpu rs1)) (low_bits (read_reg cpu rs2) 5)))
  execute_width (Instr.sraw rd rs1 rs2) width cpu m =
      retire width cpu m rd
        (sext 32 (sar 32 (u32 (read_reg cpu rs1)) (low_bits (read_reg cpu rs2) 5)))
  execute_width (Instr.mul rd rs1 rs2) width cpu m =
      retire width cpu m rd (mul (read_reg cpu rs1) (read_reg cpu rs2))
  execute_width (Instr.mulh rd rs1 rs2) width cpu m =
      retire width cpu m rd (mulh (read_reg cpu rs1) (read_reg cpu rs2))
  execute_width (Instr.mulhsu rd rs1 rs2) width cpu m =
      retire width cpu m rd (mulhsu (read_reg cpu rs1) (read_reg cpu rs2))
  execute_width (Instr.mulhu rd rs1 rs2) width cpu m =
      retire width cpu m rd (mulhu (read_reg cpu rs1) (read_reg cpu rs2))
  execute_width (Instr.div rd rs1 rs2) width cpu m =
      retire width cpu m rd (div (read_reg cpu rs1) (read_reg cpu rs2))
  execute_width (Instr.divu rd rs1 rs2) width cpu m =
      retire width cpu m rd (divu (read_reg cpu rs1) (read_reg cpu rs2))
  execute_width (Instr.rem rd rs1 rs2) width cpu m =
      retire width cpu m rd (rem (read_reg cpu rs1) (read_reg cpu rs2))
  execute_width (Instr.remu rd rs1 rs2) width cpu m =
      retire width cpu m rd (remu (read_reg cpu rs1) (read_reg cpu rs2))
  execute_width (Instr.mulw rd rs1 rs2) width cpu m =
      retire width cpu m rd (mulw (read_reg cpu rs1) (read_reg cpu rs2))
  execute_width (Instr.divw rd rs1 rs2) width cpu m =
      retire width cpu m rd (divw (read_reg cpu rs1) (read_reg cpu rs2))
  execute_width (Instr.divuw rd rs1 rs2) width cpu m =
      retire width cpu m rd (divuw (read_reg cpu rs1) (read_reg cpu rs2))
  execute_width (Instr.remw rd rs1 rs2) width cpu m =
      retire width cpu m rd (remw (read_reg cpu rs1) (read_reg cpu rs2))
  execute_width (Instr.remuw rd rs1 rs2) width cpu m =
      retire width cpu m rd (remuw (read_reg cpu rs1) (read_reg cpu rs2))
  execute_width (Instr.lrw rd rs1 aq rl) width cpu m =
      retire width cpu m rd (sext 32 (bus.read_u32 m (read_reg cpu rs1)))
  execute_width (Instr.scw rd rs1 rs2 aq rl) width cpu m =
      retire width cpu (bus.write_u32 m (read_reg cpu rs1) (u32 (read_reg cpu rs2))) rd 0
  execute_width (Instr.amoswapw rd rs1 rs2 aq rl) width cpu m =
      amo_w bus width cpu m rd rs1 (λ old. u32 (read_reg cpu rs2))
  execute_width (Instr.amoaddw rd rs1 rs2 aq rl) width cpu m =
      amo_w bus width cpu m rd rs1 (λ old. u32 (old + (u32 (read_reg cpu rs2))))
  execute_width (Instr.amoxorw rd rs1 rs2 aq rl) width cpu m =
      amo_w bus width cpu m rd rs1 (λ old. bit_xor old (u32 (read_reg cpu rs2)))
  execute_width (Instr.amoandw rd rs1 rs2 aq rl) width cpu m =
      amo_w bus width cpu m rd rs1 (λ old. bit_and old (u32 (read_reg cpu rs2)))
  execute_width (Instr.amoorw rd rs1 rs2 aq rl) width cpu m =
      amo_w bus width cpu m rd rs1 (λ old. bit_or old (u32 (read_reg cpu rs2)))
  execute_width (Instr.amominw rd rs1 rs2 aq rl) width cpu m =
      amo_w bus width cpu m rd rs1 (λ old. amo_min 32 old (u32 (read_reg cpu rs2)))
  execute_width (Instr.amomaxw rd rs1 rs2 aq rl) width cpu m =
      amo_w bus width cpu m rd rs1 (λ old. amo_max 32 old (u32 (read_reg cpu rs2)))
  execute_width (Instr.amominuw rd rs1 rs2 aq rl) width cpu m =
      amo_w bus width cpu m rd rs1 (λ old. amo_minu old (u32 (read_reg cpu rs2)))
  execute_width (Instr.amomaxuw rd rs1 rs2 aq rl) width cpu m =
      amo_w bus width cpu m rd rs1 (λ old. amo_maxu old (u32 (read_reg cpu rs2)))
  execute_width (Instr.lrd rd rs1 aq rl) width cpu m =
      retire width cpu m rd (bus.read_u64 m (read_reg cpu rs1))
  execute_width (Instr.scd rd rs1 rs2 aq rl) width cpu m =
      retire width cpu (bus.write_u64 m (read_reg cpu rs1) (read_reg cpu rs2)) rd 0
  execute_width (Instr.amoswapd rd rs1 rs2 aq rl) width cpu m =
      amo_d bus width cpu m rd rs1 (λ old. read_reg cpu rs2)
  execute_width (Instr.amoaddd rd rs1 rs2 aq rl) width cpu m =
      amo_d bus width cpu m rd rs1 (λ old. wrapping_add old (read_reg cpu rs2))
  execute_width (Instr.amoxord rd rs1 rs2 aq rl) width cpu m =
      amo_d bus width cpu m rd rs1 (λ old. bit_xor old (read_reg cpu rs2))
  execute_width (Instr.amoandd rd rs1 rs2 aq rl) width cpu m =
      amo_d bus width cpu m rd rs1 (λ old. bit_and old (read_reg cpu rs2))
  execute_width (Instr.amoord rd rs1 rs2 aq rl) width cpu m =
      amo_d bus width cpu m rd rs1 (λ old. bit_or old (read_reg cpu rs2))
  execute_width (Instr.amomind rd rs1 rs2 aq rl) width cpu m =
      amo_d bus width cpu m rd rs1 (λ old. amo_min 64 old (read_reg cpu rs2))
  execute_width (Instr.amomaxd rd rs1 rs2 aq rl) width cpu m =
      amo_d bus width cpu m rd rs1 (λ old. amo_max 64 old (read_reg cpu rs2))
  execute_width (Instr.amominud rd rs1 rs2 aq rl) width cpu m =
      amo_d bus width cpu m rd rs1 (λ old. amo_minu old (read_reg cpu rs2))
  execute_width (Instr.amomaxud rd rs1 rs2 aq rl) width cpu m =
      amo_d bus width cpu m rd rs1 (λ old. amo_maxu old (read_reg cpu rs2))
  execute_width Instr.ecall width cpu m = traps environment_call_from_m cpu m
  execute_width Instr.ebreak width cpu m = traps breakpoint cpu m
  execute_width (Instr.fp raw) width cpu m = retire_fp (fpu cpu raw) width cpu m
  execute_width Instr.unimp width cpu m = traps illegal_instruction cpu m
  execute_width (Instr.fence pred succ) width cpu m = finish width cpu m
  execute_width Instr.fence_i width cpu m = finish width cpu m
  execute_width Instr.mret width cpu m = traps illegal_instruction cpu m
  execute_width Instr.sret width cpu m = traps illegal_instruction cpu m
  execute_width Instr.uret width cpu m = traps illegal_instruction cpu m
  execute_width Instr.wfi width cpu m = some (Status.wfi, cpu, m)
  execute_width (Instr.sfence_vma rs1 rs2) width cpu m = finish width cpu m
  execute_width (Instr.csrrw rd rs1 csr) width cpu m = traps illegal_instruction cpu m
  execute_width (Instr.csrrs rd rs1 csr) width cpu m = traps illegal_instruction cpu m
  execute_width (Instr.csrrc rd rs1 csr) width cpu m = traps illegal_instruction cpu m
  execute_width (Instr.csrrwi rd zimm csr) width cpu m = traps illegal_instruction cpu m
  execute_width (Instr.csrrsi rd zimm csr) width cpu m = traps illegal_instruction cpu m
  execute_width (Instr.csrrci rd zimm csr) width cpu m = traps illegal_instruction cpu m

  unfoldable pub execute : Instr → Cpu → M → Outcome M
  execute instr cpu m = execute_width instr 4 cpu m

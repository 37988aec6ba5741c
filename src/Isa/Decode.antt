-- ===== src/Isa/Decode.antt =====
-- crates/riscv-core/src/decode.rs: `decode`, with the arms of the 32-bit, fence and system opcodes.
pub mod Ranges
use tab_linux.Base.{ℕ, not, [], ◌∷◌, ◌==◌, if◌then◌else◌, select, low_bits, field}
use tab_linux.Isa.{Instr}
use tab_linux.Isa.Imm.{i_imm, i_imm_sext5, s_imm, b_imm, j_imm, u_imm}
use tab_linux.Isa.Arms.{
  decode_branch, decode_load, decode_load_fp, decode_store, decode_store_fp, decode_op_imm,
  decode_op, decode_amo,
}

unfoldable pub decode_shift_right_w : (funct7 rd rs1 shamt : ℕ) → Instr
decode_shift_right_w funct7 rd rs1 shamt =
    if funct7 == 0b0000000
    then Instr.srliw rd rs1 shamt
    else if funct7 == 0b0100000
    then Instr.sraiw rd rs1 shamt
    else Instr.unimp

unfoldable pub decode_op_imm_w : (funct3 funct7 rd rs1 imm shamt : ℕ) → Instr
unfolding decode_shift_right_w
decode_op_imm_w funct3 funct7 rd rs1 imm shamt =
    select funct3
      ((0b000, Instr.addiw rd rs1 imm)
        ∷ (0b001, Instr.slliw rd rs1 shamt)
        ∷ (0b101, decode_shift_right_w funct7 rd rs1 shamt)
        ∷ [])
      Instr.unimp

unfoldable pub decode_muldiv_w : (funct3 rd rs1 rs2 : ℕ) → Instr
decode_muldiv_w funct3 rd rs1 rs2 =
    select funct3
      ((0b000, Instr.mulw rd rs1 rs2)
        ∷ (0b100, Instr.divw rd rs1 rs2)
        ∷ (0b101, Instr.divuw rd rs1 rs2)
        ∷ (0b110, Instr.remw rd rs1 rs2)
        ∷ (0b111, Instr.remuw rd rs1 rs2)
        ∷ [])
      Instr.unimp

unfoldable pub decode_alu_w : (funct3 rd rs1 rs2 : ℕ) → Instr
decode_alu_w funct3 rd rs1 rs2 =
    select funct3
      ((0b000, Instr.addw rd rs1 rs2)
        ∷ (0b001, Instr.sllw rd rs1 rs2)
        ∷ (0b101, Instr.srlw rd rs1 rs2)
        ∷ [])
      Instr.unimp

unfoldable pub decode_alu_alt_w : (funct3 rd rs1 rs2 : ℕ) → Instr
decode_alu_alt_w funct3 rd rs1 rs2 =
    select funct3 ((0b000, Instr.subw rd rs1 rs2) ∷ (0b101, Instr.sraw rd rs1 rs2) ∷ []) Instr.unimp

unfoldable pub decode_op_w : (funct7 funct3 rd rs1 rs2 : ℕ) → Instr
unfolding decode_muldiv_w decode_alu_w decode_alu_alt_w
decode_op_w funct7 funct3 rd rs1 rs2 =
    if funct7 == 0b0000001
    then decode_muldiv_w funct3 rd rs1 rs2
    else if funct7 == 0b0000000
    then decode_alu_w funct3 rd rs1 rs2
    else if funct7 == 0b0100000
    then decode_alu_alt_w funct3 rd rs1 rs2
    else Instr.unimp

unfoldable pub decode_fence : (funct3 pred succ : ℕ) → Instr
decode_fence funct3 pred succ =
    select funct3 ((0b000, Instr.fence pred succ) ∷ (0b001, Instr.fence_i) ∷ []) Instr.unimp

unfoldable pub decode_privileged : (funct7 rs1 rs2 csr : ℕ) → Instr
decode_privileged funct7 rs1 rs2 csr =
    if funct7 == 0b0001001
    then Instr.sfence_vma rs1 rs2
    else select csr
        ((0x000, Instr.ecall)
          ∷ (0x001, Instr.ebreak)
          ∷ (0x002, Instr.uret)
          ∷ (0x102, Instr.sret)
          ∷ (0x105, Instr.wfi)
          ∷ (0x302, Instr.mret)
          ∷ [])
        Instr.unimp

unfoldable pub decode_system : (funct3 funct7 rd rs1 rs2 csr : ℕ) → Instr
unfolding decode_privileged
decode_system funct3 funct7 rd rs1 rs2 csr =
    select funct3
      ((0b000, decode_privileged funct7 rs1 rs2 csr)
        ∷ (0b001, Instr.csrrw rd rs1 csr)
        ∷ (0b010, Instr.csrrs rd rs1 csr)
        ∷ (0b011, Instr.csrrc rd rs1 csr)
        ∷ (0b101, Instr.csrrwi rd rs1 csr)
        ∷ (0b110, Instr.csrrsi rd rs1 csr)
        ∷ (0b111, Instr.csrrci rd rs1 csr)
        ∷ [])
      Instr.unimp

-- The match on the major opcode, over the fields that `decode` extracts first.
unfoldable pub decode_fields : (opcode rd funct3 rs1 rs2 funct7 raw : ℕ) → Instr
decode_fields opcode rd funct3 rs1 rs2 funct7 raw =
    select opcode
      ((0b0110111, Instr.lui rd (u_imm raw))
        ∷ (0b0010111, Instr.auipc rd (u_imm raw))
        ∷ (0b1101111, Instr.jal rd (j_imm raw))
        ∷ (0b1100111, Instr.jalr rd rs1 (i_imm raw))
        ∷ (0b1100011, decode_branch funct3 rs1 rs2 (b_imm raw))
        ∷ (0b0000011, decode_load funct3 rd rs1 (i_imm raw))
        ∷ (0b0000111, decode_load_fp funct3 rd rs1 (i_imm raw))
        ∷ (0b0100011, decode_store funct3 rs1 rs2 (s_imm raw))
        ∷ (0b0100111, decode_store_fp funct3 rs1 rs2 (s_imm raw))
        ∷ (0b0010011, decode_op_imm funct3 funct7 rd rs1 (i_imm raw) (field raw 20 6))
        ∷ (0b0110011, decode_op funct7 funct3 rd rs1 rs2)
        ∷ (
          0b0101111,
          decode_amo funct3 (field raw 27 5) rd rs1 rs2 (not (field raw 26 1 == 0))
              (not (field raw 25 1 == 0)),
        )
        ∷ (0b0011011, decode_op_imm_w funct3 funct7 rd rs1 (i_imm_sext5 raw) (field raw 20 5))
        ∷ (0b0111011, decode_op_w funct7 funct3 rd rs1 rs2)
        ∷ (0b0001111, decode_fence funct3 (field raw 20 4) (field raw 24 4))
        ∷ (0b1110011, decode_system funct3 funct7 rd rs1 rs2 (field raw 20 12))
        ∷ (0b1010011, Instr.fp raw)
        ∷ (0b1000011, Instr.fp raw)
        ∷ (0b1000111, Instr.fp raw)
        ∷ (0b1001011, Instr.fp raw)
        ∷ (0b1001111, Instr.fp raw)
        ∷ [])
      Instr.unimp

unfoldable pub decode : ℕ → Instr
decode raw =
    decode_fields (low_bits raw 7) (field raw 7 5) (field raw 12 3) (field raw 15 5)
      (field raw 20 5) (field raw 25 7) raw

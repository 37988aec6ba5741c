-- ===== src/Isa/RoundTrip.antt =====
-- encode.rs and decode.rs, one after the other.
pub mod Formats
pub mod Encodable
pub mod Rounds
use tab_linux.Base.{ℕ, ◌≡◌, refl, true, some, arith}
use Rounds.{
  b_round, csr_round, fence_round, i_round, j_round, r_round, s_round, sfence_round, shift_round,
  shift_w_round, u_round,
}
use Encodable.{is_encodable}
use tab_linux.Isa.Decode.{
  decode_fence, decode_op_imm_w, decode_op_w, decode_system, decode, decode_fields,
}
use tab_linux.Isa.Range.{InRange}
use tab_linux.Isa.Encode.{encode, raw_word}
use tab_linux.Isa.{Instr}
use tab_linux.Isa.Imm.{i_imm, i_imm_sext5}
use tab_linux.Isa.Arms.{
  decode_amo, decode_branch, decode_load, decode_load_fp, decode_op, decode_op_imm, decode_store,
  decode_store_fp,
}

-- The instruction has a word, and the word decodes to the instruction.
abbrev pub RoundTrips : Instr → Type 0
RoundTrips i = (raw : ℕ) × (encode i ≡ some (raw, 4)) × (decode raw ≡ i)

-- An instruction whose fields are in range and that has a word of its own is encoded in four
-- bytes, and the word decodes to the same instruction.
pub decode-encode : (i : Instr) → InRange i → is_encodable i ≡ true → RoundTrips i
unfolding encode raw_word is_encodable i_imm i_imm_sext5 decode_fields decode_branch decode_load
    decode_load_fp decode_store decode_store_fp decode_op_imm decode_op decode_amo decode_op_imm_w
    decode_op_w decode_fence decode_system
decode-encode (Instr.lui rd imm) h _ =
    (_, refl, u_round (Instr.lui rd) 0b0110111 h (omega arith) (λ v w x y z. refl))
decode-encode (Instr.auipc rd imm) h _ =
    (_, refl, u_round (Instr.auipc rd) 0b0010111 h (omega arith) (λ v w x y z. refl))
decode-encode (Instr.jal rd imm) h _ = (_, refl, j_round h)
decode-encode (Instr.jalr rd rs1 imm) h _ =
    (_, refl, i_round (Instr.jalr rd rs1) 0b000 0b1100111 h (omega arith) (λ w x y. refl))
decode-encode (Instr.lb rd rs1 imm) h _ =
    (_, refl, i_round (Instr.lb rd rs1) 0b000 0b0000011 h (omega arith) (λ w x y. refl))
decode-encode (Instr.lh rd rs1 imm) h _ =
    (_, refl, i_round (Instr.lh rd rs1) 0b001 0b0000011 h (omega arith) (λ w x y. refl))
decode-encode (Instr.lw rd rs1 imm) h _ =
    (_, refl, i_round (Instr.lw rd rs1) 0b010 0b0000011 h (omega arith) (λ w x y. refl))
decode-encode (Instr.ld rd rs1 imm) h _ =
    (_, refl, i_round (Instr.ld rd rs1) 0b011 0b0000011 h (omega arith) (λ w x y. refl))
decode-encode (Instr.lbu rd rs1 imm) h _ =
    (_, refl, i_round (Instr.lbu rd rs1) 0b100 0b0000011 h (omega arith) (λ w x y. refl))
decode-encode (Instr.lhu rd rs1 imm) h _ =
    (_, refl, i_round (Instr.lhu rd rs1) 0b101 0b0000011 h (omega arith) (λ w x y. refl))
decode-encode (Instr.lwu rd rs1 imm) h _ =
    (_, refl, i_round (Instr.lwu rd rs1) 0b110 0b0000011 h (omega arith) (λ w x y. refl))
decode-encode (Instr.fld rd rs1 imm) h _ =
    (_, refl, i_round (Instr.fld rd rs1) 0b011 0b0000111 h (omega arith) (λ w x y. refl))
decode-encode (Instr.addi rd rs1 imm) h _ =
    (_, refl, i_round (Instr.addi rd rs1) 0b000 0b0010011 h (omega arith) (λ w x y. refl))
decode-encode (Instr.slti rd rs1 imm) h _ =
    (_, refl, i_round (Instr.slti rd rs1) 0b010 0b0010011 h (omega arith) (λ w x y. refl))
decode-encode (Instr.sltiu rd rs1 imm) h _ =
    (_, refl, i_round (Instr.sltiu rd rs1) 0b011 0b0010011 h (omega arith) (λ w x y. refl))
decode-encode (Instr.xori rd rs1 imm) h _ =
    (_, refl, i_round (Instr.xori rd rs1) 0b100 0b0010011 h (omega arith) (λ w x y. refl))
decode-encode (Instr.ori rd rs1 imm) h _ =
    (_, refl, i_round (Instr.ori rd rs1) 0b110 0b0010011 h (omega arith) (λ w x y. refl))
decode-encode (Instr.andi rd rs1 imm) h _ =
    (_, refl, i_round (Instr.andi rd rs1) 0b111 0b0010011 h (omega arith) (λ w x y. refl))
decode-encode (Instr.slli rd rs1 shamt) h _ =
    (_, refl, shift_round (Instr.slli rd rs1) 0b000000 0b001 h (omega arith) (λ w x y e. refl))
decode-encode (Instr.srli rd rs1 shamt) h _ =
    (_, refl, shift_round (Instr.srli rd rs1) 0b000000 0b101 h (omega arith) (λ w x y e. rw e))
decode-encode (Instr.srai rd rs1 shamt) h _ =
    (_, refl, shift_round (Instr.srai rd rs1) 0b010000 0b101 h (omega arith) (λ w x y e. rw e))
decode-encode (Instr.addiw rd rs1 imm) h _ =
    (_, refl, i_round (Instr.addiw rd rs1) 0b000 0b0011011 h (omega arith) (λ w x y. refl))
decode-encode (Instr.slliw rd rs1 shamt) h _ =
    (_, refl, shift_w_round (Instr.slliw rd rs1) 0b0000000 0b001 h (omega arith) (λ w. refl))
decode-encode (Instr.srliw rd rs1 shamt) h _ =
    (_, refl, shift_w_round (Instr.srliw rd rs1) 0b0000000 0b101 h (omega arith) (λ w. refl))
decode-encode (Instr.sraiw rd rs1 shamt) h _ =
    (_, refl, shift_w_round (Instr.sraiw rd rs1) 0b0100000 0b101 h (omega arith) (λ w. refl))
decode-encode (Instr.beq rs1 rs2 imm) h _ =
    (_, refl, b_round (Instr.beq rs1 rs2) 0b000 h (omega arith) (λ w x y. refl))
decode-encode (Instr.bne rs1 rs2 imm) h _ =
    (_, refl, b_round (Instr.bne rs1 rs2) 0b001 h (omega arith) (λ w x y. refl))
decode-encode (Instr.blt rs1 rs2 imm) h _ =
    (_, refl, b_round (Instr.blt rs1 rs2) 0b100 h (omega arith) (λ w x y. refl))
decode-encode (Instr.bge rs1 rs2 imm) h _ =
    (_, refl, b_round (Instr.bge rs1 rs2) 0b101 h (omega arith) (λ w x y. refl))
decode-encode (Instr.bltu rs1 rs2 imm) h _ =
    (_, refl, b_round (Instr.bltu rs1 rs2) 0b110 h (omega arith) (λ w x y. refl))
decode-encode (Instr.bgeu rs1 rs2 imm) h _ =
    (_, refl, b_round (Instr.bgeu rs1 rs2) 0b111 h (omega arith) (λ w x y. refl))
decode-encode (Instr.sb rs1 rs2 imm) h _ =
    (_, refl, s_round (Instr.sb rs1 rs2) 0b000 h (omega arith) (λ w x y. refl))
decode-encode (Instr.sh rs1 rs2 imm) h _ =
    (_, refl, s_round (Instr.sh rs1 rs2) 0b001 h (omega arith) (λ w x y. refl))
decode-encode (Instr.sw rs1 rs2 imm) h _ =
    (_, refl, s_round (Instr.sw rs1 rs2) 0b010 h (omega arith) (λ w x y. refl))
decode-encode (Instr.sd rs1 rs2 imm) h _ =
    (_, refl, s_round (Instr.sd rs1 rs2) 0b011 h (omega arith) (λ w x y. refl))
decode-encode (Instr.add rd rs1 rs2) h _ =
    (_, refl, r_round _ 0b0000000 0b000 0b0110011 h (omega arith) (λ w. refl))
decode-encode (Instr.sub rd rs1 rs2) h _ =
    (_, refl, r_round _ 0b0100000 0b000 0b0110011 h (omega arith) (λ w. refl))
decode-encode (Instr.sll rd rs1 rs2) h _ =
    (_, refl, r_round _ 0b0000000 0b001 0b0110011 h (omega arith) (λ w. refl))
decode-encode (Instr.slt rd rs1 rs2) h _ =
    (_, refl, r_round _ 0b0000000 0b010 0b0110011 h (omega arith) (λ w. refl))
decode-encode (Instr.sltu rd rs1 rs2) h _ =
    (_, refl, r_round _ 0b0000000 0b011 0b0110011 h (omega arith) (λ w. refl))
decode-encode (Instr.xor rd rs1 rs2) h _ =
    (_, refl, r_round _ 0b0000000 0b100 0b0110011 h (omega arith) (λ w. refl))
decode-encode (Instr.srl rd rs1 rs2) h _ =
    (_, refl, r_round _ 0b0000000 0b101 0b0110011 h (omega arith) (λ w. refl))
decode-encode (Instr.sra rd rs1 rs2) h _ =
    (_, refl, r_round _ 0b0100000 0b101 0b0110011 h (omega arith) (λ w. refl))
decode-encode (Instr.or rd rs1 rs2) h _ =
    (_, refl, r_round _ 0b0000000 0b110 0b0110011 h (omega arith) (λ w. refl))
decode-encode (Instr.and rd rs1 rs2) h _ =
    (_, refl, r_round _ 0b0000000 0b111 0b0110011 h (omega arith) (λ w. refl))
decode-encode (Instr.mul rd rs1 rs2) h _ =
    (_, refl, r_round _ 0b0000001 0b000 0b0110011 h (omega arith) (λ w. refl))
decode-encode (Instr.mulh rd rs1 rs2) h _ =
    (_, refl, r_round _ 0b0000001 0b001 0b0110011 h (omega arith) (λ w. refl))
decode-encode (Instr.mulhsu rd rs1 rs2) h _ =
    (_, refl, r_round _ 0b0000001 0b010 0b0110011 h (omega arith) (λ w. refl))
decode-encode (Instr.mulhu rd rs1 rs2) h _ =
    (_, refl, r_round _ 0b0000001 0b011 0b0110011 h (omega arith) (λ w. refl))
decode-encode (Instr.div rd rs1 rs2) h _ =
    (_, refl, r_round _ 0b0000001 0b100 0b0110011 h (omega arith) (λ w. refl))
decode-encode (Instr.divu rd rs1 rs2) h _ =
    (_, refl, r_round _ 0b0000001 0b101 0b0110011 h (omega arith) (λ w. refl))
decode-encode (Instr.rem rd rs1 rs2) h _ =
    (_, refl, r_round _ 0b0000001 0b110 0b0110011 h (omega arith) (λ w. refl))
decode-encode (Instr.remu rd rs1 rs2) h _ =
    (_, refl, r_round _ 0b0000001 0b111 0b0110011 h (omega arith) (λ w. refl))
decode-encode (Instr.addw rd rs1 rs2) h _ =
    (_, refl, r_round _ 0b0000000 0b000 0b0111011 h (omega arith) (λ w. refl))
decode-encode (Instr.subw rd rs1 rs2) h _ =
    (_, refl, r_round _ 0b0100000 0b000 0b0111011 h (omega arith) (λ w. refl))
decode-encode (Instr.sllw rd rs1 rs2) h _ =
    (_, refl, r_round _ 0b0000000 0b001 0b0111011 h (omega arith) (λ w. refl))
decode-encode (Instr.srlw rd rs1 rs2) h _ =
    (_, refl, r_round _ 0b0000000 0b101 0b0111011 h (omega arith) (λ w. refl))
decode-encode (Instr.sraw rd rs1 rs2) h _ =
    (_, refl, r_round _ 0b0100000 0b101 0b0111011 h (omega arith) (λ w. refl))
decode-encode (Instr.mulw rd rs1 rs2) h _ =
    (_, refl, r_round _ 0b0000001 0b000 0b0111011 h (omega arith) (λ w. refl))
decode-encode (Instr.divw rd rs1 rs2) h _ =
    (_, refl, r_round _ 0b0000001 0b100 0b0111011 h (omega arith) (λ w. refl))
decode-encode (Instr.divuw rd rs1 rs2) h _ =
    (_, refl, r_round _ 0b0000001 0b101 0b0111011 h (omega arith) (λ w. refl))
decode-encode (Instr.remw rd rs1 rs2) h _ =
    (_, refl, r_round _ 0b0000001 0b110 0b0111011 h (omega arith) (λ w. refl))
decode-encode (Instr.remuw rd rs1 rs2) h _ =
    (_, refl, r_round _ 0b0000001 0b111 0b0111011 h (omega arith) (λ w. refl))
decode-encode Instr.ecall h _ = (_, refl, unfold decode in refl)
decode-encode Instr.ebreak h _ = (_, refl, unfold decode in refl)
decode-encode Instr.mret h _ = (_, refl, unfold decode in refl)
decode-encode Instr.sret h _ = (_, refl, unfold decode in refl)
decode-encode Instr.uret h _ = (_, refl, unfold decode in refl)
decode-encode Instr.wfi h _ = (_, refl, unfold decode in refl)
decode-encode (Instr.fence pred succ) h _ = (_, refl, fence_round pred succ h.0 h.1)
decode-encode Instr.fence_i h _ = (_, refl, unfold decode in refl)
decode-encode (Instr.csrrw rd rs1 csr) h _ =
    (_, refl, csr_round (Instr.csrrw rd rs1) 0b001 h (omega arith) (λ w x y. refl))
decode-encode (Instr.csrrs rd rs1 csr) h _ =
    (_, refl, csr_round (Instr.csrrs rd rs1) 0b010 h (omega arith) (λ w x y. refl))
decode-encode (Instr.csrrc rd rs1 csr) h _ =
    (_, refl, csr_round (Instr.csrrc rd rs1) 0b011 h (omega arith) (λ w x y. refl))
decode-encode (Instr.csrrwi rd zimm csr) h _ =
    (_, refl, csr_round (Instr.csrrwi rd zimm) 0b101 h (omega arith) (λ w x y. refl))
decode-encode (Instr.csrrsi rd zimm csr) h _ =
    (_, refl, csr_round (Instr.csrrsi rd zimm) 0b110 h (omega arith) (λ w x y. refl))
decode-encode (Instr.csrrci rd zimm csr) h _ =
    (_, refl, csr_round (Instr.csrrci rd zimm) 0b111 h (omega arith) (λ w x y. refl))
decode-encode (Instr.sfence_vma rs1 rs2) h _ = (_, refl, sfence_round rs1 rs2 h.0 h.1)
decode-encode (Instr.flw rd rs1 imm) h e = cc
decode-encode (Instr.fsw rs1 rs2 imm) h e = cc
decode-encode (Instr.fsd rs1 rs2 imm) h e = cc
decode-encode (Instr.lrw rd rs1 aq rl) h e = cc
decode-encode (Instr.scw rd rs1 rs2 aq rl) h e = cc
decode-encode (Instr.amoswapw rd rs1 rs2 aq rl) h e = cc
decode-encode (Instr.amoaddw rd rs1 rs2 aq rl) h e = cc
decode-encode (Instr.amoxorw rd rs1 rs2 aq rl) h e = cc
decode-encode (Instr.amoandw rd rs1 rs2 aq rl) h e = cc
decode-encode (Instr.amoorw rd rs1 rs2 aq rl) h e = cc
decode-encode (Instr.amominw rd rs1 rs2 aq rl) h e = cc
decode-encode (Instr.amomaxw rd rs1 rs2 aq rl) h e = cc
decode-encode (Instr.amominuw rd rs1 rs2 aq rl) h e = cc
decode-encode (Instr.amomaxuw rd rs1 rs2 aq rl) h e = cc
decode-encode (Instr.lrd rd rs1 aq rl) h e = cc
decode-encode (Instr.scd rd rs1 rs2 aq rl) h e = cc
decode-encode (Instr.amoswapd rd rs1 rs2 aq rl) h e = cc
decode-encode (Instr.amoaddd rd rs1 rs2 aq rl) h e = cc
decode-encode (Instr.amoxord rd rs1 rs2 aq rl) h e = cc
decode-encode (Instr.amoandd rd rs1 rs2 aq rl) h e = cc
decode-encode (Instr.amoord rd rs1 rs2 aq rl) h e = cc
decode-encode (Instr.amomind rd rs1 rs2 aq rl) h e = cc
decode-encode (Instr.amomaxd rd rs1 rs2 aq rl) h e = cc
decode-encode (Instr.amominud rd rs1 rs2 aq rl) h e = cc
decode-encode (Instr.amomaxud rd rs1 rs2 aq rl) h e = cc
decode-encode (Instr.fp raw) h e = cc
decode-encode Instr.unimp h e = cc

-- The word of an `fsd` whose fields are in range decodes to the `sd` with the same fields: `encode` gives it the major opcode of
-- the integer stores.
pub decode-encode_fsd :
    (rs1 rs2 imm : ℕ)
    → InRange (Instr.fsd rs1 rs2 imm)
    → (raw : ℕ) × (encode (Instr.fsd rs1 rs2 imm) ≡ some (raw, 4))
      × (decode raw ≡ Instr.sd rs1 rs2 imm)
unfolding encode raw_word decode_fields decode_store
decode-encode_fsd rs1 rs2 imm h =
    (_, refl, s_round (Instr.sd rs1 rs2) 0b011 h (omega arith) (λ w x y. refl))

-- ===== src/Isa/Compressed.antt =====
-- crates/riscv-core/src/compressed.rs: `decompress`, with a helper for each quadrant and for the
-- arms that branch further.
pub mod Ranges
use tab_linux.Base.{
  ℕ, ◌+◌, Option, none, some, [], ◌∷◌, ◌==◌, if◌then◌else◌, select, low_bits, field,
}
use tab_linux.Isa.CompressedImm.{
  addi16sp_imm, addi4spn_imm, cb_imm, cj_imm, double_imm, ldsp_imm, lui_imm, lwsp_imm, sdsp_imm,
  sext_imm, six_bits, swsp_imm, word_imm, zcb_byte_imm, zcb_half_imm,
}
use tab_linux.Isa.{Instr}

-- A three-bit register field names x8 to x15.
abbrev short_reg : ℕ → ℕ → ℕ
short_reg r lo = field r lo 3 + 8

unfoldable pub decompress_addi4spn : ℕ → Option Instr
decompress_addi4spn r =
    if addi4spn_imm r == 0 then none else some (Instr.addi (short_reg r 2) 2 (addi4spn_imm r))

unfoldable pub decompress_zcb : ℕ → Option Instr
decompress_zcb r =
    let funct2 = field r 10 2 in
    let rs1p = short_reg r 7 in
    let rd = short_reg r 2 in
    select funct2
      ((0b00, some (Instr.lbu rd rs1p (zcb_byte_imm r)))
        ∷ (0b01, some (Instr.sb rs1p rd (zcb_byte_imm r)))
        ∷ (0b10, some (Instr.lhu rd rs1p (zcb_half_imm r)))
        ∷ (0b11, some (Instr.sh rs1p rd (zcb_half_imm r)))
        ∷ [])
      none

unfoldable pub quadrant0 : (f3 r : ℕ) → Option Instr
unfolding decompress_addi4spn decompress_zcb
quadrant0 f3 r =
    let rd = short_reg r 2 in
    let rs1 = short_reg r 7 in
    select f3
      ((0b000, decompress_addi4spn r)
        ∷ (0b001, some (Instr.fld rd rs1 (double_imm r)))
        ∷ (0b010, some (Instr.lw rd rs1 (word_imm r)))
        ∷ (0b011, some (Instr.ld rd rs1 (double_imm r)))
        ∷ (0b100, decompress_zcb r)
        ∷ (0b101, some (Instr.fsd rs1 rd (double_imm r)))
        ∷ (0b110, some (Instr.sw rs1 rd (word_imm r)))
        ∷ (0b111, some (Instr.sd rs1 rd (double_imm r)))
        ∷ [])
      none

unfoldable pub decompress_lui : ℕ → Option Instr
decompress_lui r =
    let rd = field r 7 5 in
    if rd == 2 then some (Instr.addi 2 2 (addi16sp_imm r)) else some (Instr.lui rd (lui_imm r))

unfoldable pub decompress_alu : ℕ → Option Instr
decompress_alu r =
    let rd = short_reg r 7 in
    let rs2 = short_reg r 2 in
    let funct2 = field r 10 2 in
    let funct6 = field r 5 2 in
    if funct2 == 0b00
    then some (Instr.srli rd rd (six_bits r))
    else if funct2 == 0b01
    then some (Instr.srai rd rd (six_bits r))
    else if funct2 == 0b10
    then some (Instr.andi rd rd (sext_imm (six_bits r) 6))
    else if field r 12 1 == 0
    then select funct6
        ((0b00, some (Instr.sub rd rd rs2))
          ∷ (0b01, some (Instr.xor rd rd rs2))
          ∷ (0b10, some (Instr.or rd rd rs2))
          ∷ (0b11, some (Instr.and rd rd rs2))
          ∷ [])
        none
    else select funct6
        ((0b00, some (Instr.subw rd rd rs2)) ∷ (0b01, some (Instr.addw rd rd rs2)) ∷ []) none

unfoldable pub quadrant1 : (f3 r : ℕ) → Option Instr
unfolding decompress_lui decompress_alu
quadrant1 f3 r =
    let rd = field r 7 5 in
    select f3
      ((0b000, some (Instr.addi rd rd (sext_imm (six_bits r) 6)))
        ∷ (0b001, some (Instr.addiw rd rd (sext_imm (six_bits r) 6)))
        ∷ (0b010, some (Instr.addi rd 0 (sext_imm (six_bits r) 6)))
        ∷ (0b011, decompress_lui r)
        ∷ (0b100, decompress_alu r)
        ∷ (0b101, some (Instr.jal 0 (cj_imm r)))
        ∷ (0b110, some (Instr.beq (short_reg r 7) 0 (cb_imm r)))
        ∷ (0b111, some (Instr.bne (short_reg r 7) 0 (cb_imm r)))
        ∷ [])
      none

unfoldable pub decompress_jump_move : ℕ → Option Instr
decompress_jump_move r =
    let rd = field r 7 5 in
    let rs2 = field r 2 5 in
    if field r 12 1 == 0
    then (if rs2 == 0
        then (if rd == 0 then none else some (Instr.jalr 0 rd 0))
        else some (Instr.add rd 0 rs2))
    else if rs2 == 0
    then (if rd == 0 then some Instr.ebreak else some (Instr.jalr 1 rd 0))
    else some (Instr.add rd rd rs2)

unfoldable pub quadrant2 : (f3 r : ℕ) → Option Instr
unfolding decompress_jump_move
quadrant2 f3 r =
    let rd = field r 7 5 in
    let rs2 = field r 2 5 in
    select f3
      ((0b000, some (Instr.slli rd rd (six_bits r)))
        ∷ (0b001, some (Instr.fld rd 2 (ldsp_imm r)))
        ∷ (0b010, if rd == 0 then none else some (Instr.lw rd 2 (lwsp_imm r)))
        ∷ (0b011, if rd == 0 then none else some (Instr.ld rd 2 (ldsp_imm r)))
        ∷ (0b100, decompress_jump_move r)
        ∷ (0b101, some (Instr.fsd 2 rs2 (sdsp_imm r)))
        ∷ (0b110, some (Instr.sw 2 rs2 (swsp_imm r)))
        ∷ (0b111, some (Instr.sd 2 rs2 (sdsp_imm r)))
        ∷ [])
      none

unfoldable pub decompress : ℕ → Option Instr
decompress raw =
    let f3 = field raw 13 3 in
    select (low_bits raw 2)
      ((0b00, quadrant0 f3 raw) ∷ (0b01, quadrant1 f3 raw) ∷ (0b10, quadrant2 f3 raw) ∷ []) none

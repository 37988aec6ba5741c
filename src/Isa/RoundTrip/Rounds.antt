-- ===== src/Isa/RoundTrip/Rounds.antt =====
-- The round trip of one instruction, format by format: what is left to check for an instruction is
-- that its arm of the decoder is reached.
use tab_linux.Base.{ℕ, ◌+◌, ◌*◌, ◌/◌, ◌%◌, ◌^◌, ◌<◌, ◌≡◌, ap, ap₂, ◌∙◌, arith, field}
use tab_linux.Isa.Decode.{decode_fence, decode_system, decode, decode_fields}
use tab_linux.Isa.RoundTrip.Formats.{
  decode-j_word, decode-r_type, j_imm-j_word, b_imm-b_type, decode-b_type, decode-csr_type,
  decode-i_type, decode-s_type, decode-u_word, decode_sum, i_imm-i_type, s_imm-s_type, u_imm-u_word,
}
use tab_linux.Isa.Encode.{
  j_word, r_type, fence_word, sfence_word, b_type, csr_type, i_type, s_type, shift_word, u_word,
}
use tab_linux.Isa.Imm.{b_imm, i_imm, s_imm, u_imm}
use tab_linux.Isa.Range.{IsOffset, IsReg, IsSigned, IsUpper}
use tab_linux.Isa.{Instr}
use tab_linux.Isa.Encode.InPlace.{
  shift_word-r_type, fence_word_sum, sfence_word_sum, shift_word_sum,
}
use tab_linux.Isa.Encode.Words.{r_type_sum}

pub i_round :
    {rd rs1 imm : ℕ} (con : ℕ → Instr) (funct3 opcode : ℕ)
    → IsReg rd × IsReg rs1 × IsSigned 12 imm
    → (funct3 < 8) × (opcode < 128)
    → ((w x y : ℕ) → decode_fields opcode rd funct3 rs1 x y w ≡ con (i_imm w))
    → decode (i_type imm rs1 funct3 rd opcode) ≡ con imm
i_round {rd} {rs1} {imm} con funct3 opcode (r, p, o) (q, s) arm =
    decode-i_type imm rs1 funct3 rd opcode p q r s
    ∙ arm _ _ _
    ∙ ap con (i_imm-i_type imm rs1 funct3 rd opcode p q r s o)

pub s_round :
    {rs1 rs2 imm : ℕ} (con : ℕ → Instr) (funct3 : ℕ)
    → IsReg rs1 × IsReg rs2 × IsSigned 12 imm
    → funct3 < 8
    → ((w x y : ℕ) → decode_fields 0b0100011 x funct3 rs1 rs2 y w ≡ con (s_imm w))
    → decode (s_type imm rs2 rs1 funct3) ≡ con imm
s_round {rs1} {rs2} {imm} con funct3 (q, p, o) r arm =
    decode-s_type imm rs2 rs1 funct3 p q r
    ∙ arm _ _ _
    ∙ ap con (s_imm-s_type imm rs2 rs1 funct3 p q r o)

pub b_round :
    {rs1 rs2 imm : ℕ} (con : ℕ → Instr) (funct3 : ℕ)
    → IsReg rs1 × IsReg rs2 × IsOffset 13 imm
    → funct3 < 8
    → ((w x y : ℕ) → decode_fields 0b1100011 x funct3 rs1 rs2 y w ≡ con (b_imm w))
    → decode (b_type imm rs2 rs1 funct3) ≡ con imm
b_round {rs1} {rs2} {imm} con funct3 (q, p, o) r arm =
    decode-b_type imm rs2 rs1 funct3 p q r o
    ∙ arm _ _ _
    ∙ ap con (b_imm-b_type imm rs2 rs1 funct3 p q r o)

pub csr_round :
    {rd rs1 csr : ℕ} (con : ℕ → Instr) (funct3 : ℕ)
    → IsReg rd × IsReg rs1 × (csr < 2 ^ 12)
    → funct3 < 8
    → ((w x y : ℕ) → decode_fields 0b1110011 rd funct3 rs1 x y w ≡ con (field w 20 12))
    → decode (csr_type csr rs1 funct3 rd) ≡ con csr
csr_round {rd} {rs1} {csr} con funct3 (s, q, p) r arm =
    let (fields, value) = decode-csr_type csr rs1 funct3 rd p q r s in
    fields ∙ arm _ _ _ ∙ ap con value

pub u_round :
    {rd imm : ℕ} (con : ℕ → Instr) (opcode : ℕ)
    → IsReg rd × IsUpper imm
    → opcode < 128
    → ((v w x y z : ℕ) → decode_fields opcode rd v x y z w ≡ con (u_imm w))
    → decode (u_word imm rd opcode) ≡ con imm
u_round {rd} {imm} con opcode (p, o) q arm =
    decode-u_word imm rd opcode o p q ∙ arm _ _ _ _ _ ∙ ap con (u_imm-u_word imm rd opcode o p q)

-- Shifts by six bits: the arm reads the amount and the bits above it from the word.
pub shift_round :
    {rd rs1 shamt : ℕ} (con : ℕ → Instr) (top funct3 : ℕ)
    → IsReg rd × IsReg rs1 × (shamt < 64)
    → (funct3 < 8) × (top < 64)
    → ((w x y : ℕ) → y / 2 ≡ top → decode_fields 0b0010011 rd funct3 rs1 x y w ≡ con (field w 20 6))
    → decode (shift_word top 26 shamt rs1 funct3 rd 0b0010011) ≡ con shamt
shift_round {rd} {rs1} {shamt} con top funct3 (r, p, o) (q, s) arm =
    let sum = shift_word_sum top shamt rs1 funct3 rd 0b0010011 s o p q r (omega arith) in
    decode_sum _ 0b0010011 rd funct3 rs1 (shamt % 32) (top * 2 + shamt / 32) (omega (arith, sum))
      (omega arith) r q p (omega arith) (omega arith)
    ∙ arm _ _ _ (omega arith)
    ∙ ap con (omega (arith, sum))

pub fence_round :
    (pred succ : ℕ) → pred < 16 → succ < 16 → decode (fence_word pred succ) ≡ Instr.fence pred succ
unfolding decode_fields decode_fence
fence_round pred succ p q =
    let sum = fence_word_sum pred succ p q in
    decode_sum _ 0b0001111 0 0 0 (pred + succ % 2 * 16) (succ / 2) (omega (arith, sum))
      (omega arith) (omega arith) (omega arith) (omega arith) (omega arith) (omega arith)
    ∙ ap₂ Instr.fence (omega (arith, sum)) (omega (arith, sum))

pub sfence_round :
    (rs1 rs2 : ℕ) → IsReg rs1 → IsReg rs2 → decode (sfence_word rs1 rs2) ≡ Instr.sfence_vma rs1 rs2
unfolding decode_fields decode_system
sfence_round rs1 rs2 p q =
    decode_sum _ 0b1110011 0 0 rs1 rs2 0b0001001 (omega (arith, sfence_word_sum rs1 rs2 p q))
      (omega arith) (omega arith) (omega arith) p q (omega arith)

pub r_round :
    {rd rs1 rs2 : ℕ} (i : Instr) (funct7 funct3 opcode : ℕ)
    → IsReg rd × IsReg rs1 × IsReg rs2
    → (funct7 < 128) × (funct3 < 8) × (opcode < 128)
    → ((w : ℕ) → decode_fields opcode rd funct3 rs1 rs2 funct7 w ≡ i)
    → decode (r_type funct7 rs2 rs1 funct3 rd opcode) ≡ i
r_round {rd} {rs1} {rs2} i funct7 funct3 opcode (p, q, r) (s, t, u) arm =
    decode-r_type funct7 rs2 rs1 funct3 rd opcode s r q t p u ∙ arm _

-- The 32-bit shifts by a constant have the amount where rs2 stands.
pub shift_w_round :
    {rd rs1 shamt : ℕ} (con : ℕ → Instr) (funct7 funct3 : ℕ)
    → IsReg rd × IsReg rs1 × IsReg shamt
    → (funct7 < 128) × (funct3 < 8)
    → ((w : ℕ) → decode_fields 0b0011011 rd funct3 rs1 shamt funct7 w ≡ con (field w 20 5))
    → decode (shift_word funct7 25 shamt rs1 funct3 rd 0b0011011) ≡ con shamt
shift_w_round {rd} {rs1} {shamt} con funct7 funct3 (p, q, r) (s, t) arm =
    rw (shift_word-r_type funct7 shamt rs1 funct3 rd 0b0011011) (
      let sum = r_type_sum funct7 shamt rs1 funct3 rd 0b0011011 s r q t p (omega arith) in
      decode-r_type funct7 shamt rs1 funct3 rd 0b0011011 s r q t p (omega arith)
      ∙ arm _
      ∙ ap con (omega (arith, sum)))

pub j_round : {rd imm : ℕ} → IsReg rd × IsOffset 21 imm → decode (j_word imm rd) ≡ Instr.jal rd imm
unfolding decode_fields
j_round {rd} {imm} (p, o) = decode-j_word imm rd o p ∙ ap (Instr.jal rd) (j_imm-j_word imm rd o p)

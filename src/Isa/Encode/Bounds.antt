-- ===== src/Isa/Encode/Bounds.antt =====
-- The size of the words of encode.rs.
use tab_linux.Base.{ℕ, ◌^◌, ◌<◌, bit_or, ◌≡◌, inl, inr, some, arith, Option-cases, bit_or-lt}
use tab_linux.Isa.Encode.{
  b_type, csr_type, encode, fence_word, i_type, j_word, r_type, raw_word, s_type, sfence_word,
  shift_word, u_word,
}
use tab_linux.Isa.{Instr}

-- One more field, or the opcode.
or_field : {a b : ℕ} → a < 2 ^ 32 → b < 2 ^ 32 → bit_or a b < 2 ^ 32
or_field {a} {b} h o = bit_or-lt 32 a b h o

or_opcode : {a opcode : ℕ} → a < 2 ^ 32 → opcode < 128 → bit_or a opcode < 2 ^ 32
or_opcode {a} {opcode} h o = bit_or-lt 32 a opcode h (omega arith)

i_type-lt : (imm rs1 funct3 rd opcode : ℕ) → opcode < 128 → i_type imm rs1 funct3 rd opcode < 2 ^ 32
unfolding i_type
i_type-lt imm rs1 funct3 rd opcode o =
    or_opcode
      (or_field (or_field (or_field (omega arith) (omega arith)) (omega arith)) (omega arith)) o

s_type-lt : (imm rs2 rs1 funct3 : ℕ) → s_type imm rs2 rs1 funct3 < 2 ^ 32
unfolding s_type
s_type-lt imm rs2 rs1 funct3 =
    or_opcode
      (or_field
        (or_field (or_field (or_field (omega arith) (omega arith)) (omega arith)) (omega arith))
        (omega arith))
      (omega arith)

b_type-lt : (imm rs2 rs1 funct3 : ℕ) → b_type imm rs2 rs1 funct3 < 2 ^ 32
unfolding b_type
b_type-lt imm rs2 rs1 funct3 =
    or_opcode
      (or_field
        (or_field
          (or_field
            (or_field (or_field (or_field (omega arith) (omega arith)) (omega arith)) (omega arith))
            (omega arith))
          (omega arith))
        (omega arith))
      (omega arith)

r_type-lt :
    (funct7 rs2 rs1 funct3 rd opcode : ℕ)
    → opcode < 128
    → r_type funct7 rs2 rs1 funct3 rd opcode < 2 ^ 32
unfolding r_type
r_type-lt funct7 rs2 rs1 funct3 rd opcode o =
    or_opcode
      (or_field
        (or_field (or_field (or_field (omega arith) (omega arith)) (omega arith)) (omega arith))
        (omega arith))
      o

csr_type-lt : (csr rs1 funct3 rd : ℕ) → csr_type csr rs1 funct3 rd < 2 ^ 32
unfolding csr_type
csr_type-lt csr rs1 funct3 rd =
    or_opcode
      (or_field (or_field (or_field (omega arith) (omega arith)) (omega arith)) (omega arith))
      (omega arith)

u_word-lt : (imm rd opcode : ℕ) → opcode < 128 → u_word imm rd opcode < 2 ^ 32
unfolding u_word
u_word-lt imm rd opcode o = or_opcode (or_field (omega arith) (omega arith)) o

j_word-lt : (imm rd : ℕ) → j_word imm rd < 2 ^ 32
unfolding j_word
j_word-lt imm rd =
    or_opcode
      (or_field
        (or_field (or_field (or_field (omega arith) (omega arith)) (omega arith)) (omega arith))
        (omega arith))
      (omega arith)

shift_word-lt :
    (top width shamt rs1 funct3 rd opcode : ℕ)
    → opcode < 128
    → shift_word top width shamt rs1 funct3 rd opcode < 2 ^ 32
unfolding shift_word
shift_word-lt top width shamt rs1 funct3 rd opcode o =
    or_opcode
      (or_field
        (or_field (or_field (or_field (omega arith) (omega arith)) (omega arith)) (omega arith))
        (omega arith))
      o

fence_word-lt : (pred succ : ℕ) → fence_word pred succ < 2 ^ 32
unfolding fence_word
fence_word-lt pred succ = or_opcode (or_field (omega arith) (omega arith)) (omega arith)

sfence_word-lt : (rs1 rs2 : ℕ) → sfence_word rs1 rs2 < 2 ^ 32
unfolding sfence_word
sfence_word-lt rs1 rs2 =
    or_opcode
      (or_field (or_field (or_field (omega arith) (omega arith)) (omega arith)) (omega arith))
      (omega arith)

lt_of_some : {w raw : ℕ} → w < 2 ^ 32 → some w ≡ some raw → raw < 2 ^ 32
lt_of_some h e = ground arith

raw_word-lt : (i : Instr) {raw : ℕ} → raw_word i ≡ some raw → raw < 2 ^ 32
unfolding raw_word
raw_word-lt (Instr.lui rd imm) e = lt_of_some (u_word-lt imm rd 0b0110111 (omega arith)) e
raw_word-lt _ e = grind (
  arith, i_type-lt, s_type-lt, b_type-lt, r_type-lt, csr_type-lt, u_word-lt, j_word-lt,
  shift_word-lt, fence_word-lt, sfence_word-lt,
)

-- The word that `encode` answers has 32 bits.
pub encode-lt : (i : Instr) {raw width : ℕ} → encode i ≡ some (raw, width) → raw < 2 ^ 32
unfolding encode
encode-lt i {raw} e = elim (Option-cases (raw_word i)) [
  | inl absent ↦ cc
  | inr (w, present) ↦ ground (arith, raw_word-lt i present)
]

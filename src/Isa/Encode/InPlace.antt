-- ===== src/Isa/Encode/InPlace.antt =====
-- The words that `encode` of encode.rs writes without a format helper, and `csr_type`, as sums of
-- their fields.
use tab_linux.Base.{ℕ, ◌+◌, ◌*◌, ◌/◌, ◌%◌, ◌^◌, ◌<◌, ◌≡◌, refl, arith, or_next}
use tab_linux.Isa.Range.{IsOffset, IsReg, IsUpper}
use tab_linux.Isa.Encode.{csr_type, fence_word, j_word, r_type, sfence_word, shift_word, u_word}

pub csr_type_sum :
    (csr rs1 funct3 rd : ℕ)
    → csr < 2 ^ 12
    → IsReg rs1
    → funct3 < 8
    → IsReg rd
    → csr_type csr rs1 funct3 rd
      ≡ csr * 2 ^ 20 + rs1 * 2 ^ 15 + funct3 * 2 ^ 12 + rd * 2 ^ 7 + 0b1110011
unfolding csr_type
csr_type_sum csr rs1 funct3 rd p q r s =
    or_next 0 7
      (or_next 7 5
        (or_next 12 3
          (or_next 15 5 (omega arith) (omega arith) (omega arith) (omega arith) (omega arith))
          (omega arith) (omega arith) (omega arith) (omega arith))
        (omega arith) (omega arith) (omega arith) (omega arith))
      refl (omega arith) (omega arith) (omega arith)

pub u_word_sum :
    (imm rd opcode : ℕ)
    → IsUpper imm
    → IsReg rd
    → opcode < 128
    → u_word imm rd opcode ≡ imm / 2 ^ 12 % 2 ^ 20 * 2 ^ 12 + rd * 2 ^ 7 + opcode
unfolding u_word
u_word_sum imm rd opcode o p q =
    or_next 0 7 (or_next 7 5 (ground arith) (omega arith) (omega arith) (omega arith) (omega arith))
      refl (omega arith) (omega arith) (omega arith)

pub j_word_sum :
    (imm rd : ℕ)
    → IsOffset 21 imm
    → IsReg rd
    → j_word imm rd
      ≡ imm / 2 ^ 20 % 2 * 2 ^ 31
        + imm / 2 ^ 12 % 2 ^ 8 * 2 ^ 12
        + imm / 2 ^ 11 % 2 * 2 ^ 20
        + imm / 2 % 2 ^ 10 * 2 ^ 21
        + rd * 2 ^ 7
        + 0b1101111
unfolding j_word
j_word_sum imm rd o p =
    or_next 0 7
      (or_next 7 5
        (or_next 21 10
          (or_next 20 1
            (or_next 12 8 (ground arith) (ground arith) (omega arith) (omega arith) (omega arith))
            (ground arith) (omega arith) (omega arith) (omega arith))
          (ground arith) (omega arith) (omega arith) (omega arith))
        (omega arith) (omega arith) (omega arith) (omega arith))
      refl (omega arith) (omega arith) (omega arith)

-- Six bits of shift amount below the six of `top`.
pub shift_word_sum :
    (top shamt rs1 funct3 rd opcode : ℕ)
    → top < 64
    → shamt < 64
    → IsReg rs1
    → funct3 < 8
    → IsReg rd
    → opcode < 128
    → shift_word top 26 shamt rs1 funct3 rd opcode
      ≡ top * 2 ^ 26 + shamt * 2 ^ 20 + rs1 * 2 ^ 15 + funct3 * 2 ^ 12 + rd * 2 ^ 7 + opcode
unfolding shift_word
shift_word_sum top shamt rs1 funct3 rd opcode o p q r s t =
    or_next 0 7
      (or_next 7 5
        (or_next 12 3
          (or_next 15 5
            (or_next 20 6 (omega arith) (omega arith) (omega arith) (omega arith) (omega arith))
            (omega arith) (omega arith) (omega arith) (omega arith))
          (omega arith) (omega arith) (omega arith) (omega arith))
        (omega arith) (omega arith) (omega arith) (omega arith))
      refl (omega arith) (omega arith) (omega arith)

-- The 32-bit shifts are words of `r_type`.
pub shift_word-r_type :
    (funct7 shamt rs1 funct3 rd opcode : ℕ)
    → shift_word funct7 25 shamt rs1 funct3 rd opcode ≡ r_type funct7 shamt rs1 funct3 rd opcode
unfolding shift_word r_type
shift_word-r_type funct7 shamt rs1 funct3 rd opcode = refl

pub fence_word_sum :
    (pred succ : ℕ)
    → pred < 16
    → succ < 16
    → fence_word pred succ ≡ pred * 2 ^ 20 + succ * 2 ^ 24 + 0b0001111
unfolding fence_word
fence_word_sum pred succ p q =
    or_next 0 7 (or_next 24 4 (omega arith) (omega arith) (omega arith) (omega arith) (omega arith))
      refl (omega arith) (omega arith) (omega arith)

pub sfence_word_sum :
    (rs1 rs2 : ℕ)
    → IsReg rs1
    → IsReg rs2
    → sfence_word rs1 rs2
      ≡ rs2 * 2 ^ 20 + rs1 * 2 ^ 15 + 0 * 2 ^ 12 + 0b0001001 * 2 ^ 25 + 0b1110011
unfolding sfence_word
sfence_word_sum rs1 rs2 p q =
    or_next 0 7
      (or_next 25 7
        (or_next 12 3
          (or_next 15 5 (omega arith) (omega arith) (omega arith) (omega arith) (omega arith))
          (omega arith) (omega arith) (omega arith) (omega arith))
        (omega arith) (omega arith) (omega arith) (omega arith))
      refl (omega arith) (omega arith) (omega arith)

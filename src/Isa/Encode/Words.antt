-- ===== src/Isa/Encode/Words.antt =====
-- The words of encode.rs as sums of their fields, for fields within their range.
use tab_linux.Base.{ℕ, ◌+◌, ◌*◌, ◌/◌, ◌%◌, ◌^◌, ◌<◌, ◌≡◌, refl, arith, or_next}
use tab_linux.Isa.Range.{IsOffset, IsReg}
use tab_linux.Isa.Encode.{b_type, r_type, s_type, i_type}

pub i_type_sum :
    (imm rs1 funct3 rd opcode : ℕ)
    → IsReg rs1
    → funct3 < 8
    → IsReg rd
    → opcode < 128
    → i_type imm rs1 funct3 rd opcode
      ≡ imm % 2 ^ 12 * 2 ^ 20 + rs1 * 2 ^ 15 + funct3 * 2 ^ 12 + rd * 2 ^ 7 + opcode
unfolding i_type
i_type_sum imm rs1 funct3 rd opcode p q r s =
    or_next 0 7
      (or_next 7 5
        (or_next 12 3
          (or_next 15 5 (omega arith) (omega arith) (omega arith) (omega arith) (omega arith))
          (omega arith) (omega arith) (omega arith) (omega arith))
        (omega arith) (omega arith) (omega arith) (omega arith))
      refl (omega arith) (omega arith) (omega arith)

pub s_type_sum :
    (imm rs2 rs1 funct3 : ℕ)
    → IsReg rs2
    → IsReg rs1
    → funct3 < 8
    → s_type imm rs2 rs1 funct3
      ≡ imm % 2 ^ 12 / 32 * 2 ^ 25
        + rs2 * 2 ^ 20
        + rs1 * 2 ^ 15
        + funct3 * 2 ^ 12
        + imm % 32 * 2 ^ 7
        + 0b0100011
unfolding s_type
s_type_sum imm rs2 rs1 funct3 p q r =
    or_next 0 7
      (or_next 7 5
        (or_next 12 3
          (or_next 15 5
            (or_next 20 5 (omega arith) (omega arith) (omega arith) (omega arith) (omega arith))
            (omega arith) (omega arith) (omega arith) (omega arith))
          (omega arith) (omega arith) (omega arith) (omega arith))
        (omega arith) (omega arith) (omega arith) (omega arith))
      refl (omega arith) (omega arith) (omega arith)

pub r_type_sum :
    (funct7 rs2 rs1 funct3 rd opcode : ℕ)
    → funct7 < 128
    → IsReg rs2
    → IsReg rs1
    → funct3 < 8
    → IsReg rd
    → opcode < 128
    → r_type funct7 rs2 rs1 funct3 rd opcode
      ≡ funct7 * 2 ^ 25 + rs2 * 2 ^ 20 + rs1 * 2 ^ 15 + funct3 * 2 ^ 12 + rd * 2 ^ 7 + opcode
unfolding r_type
r_type_sum funct7 rs2 rs1 funct3 rd opcode o p q r s t =
    or_next 0 7
      (or_next 7 5
        (or_next 12 3
          (or_next 15 5
            (or_next 20 5 (omega arith) (omega arith) (omega arith) (omega arith) (omega arith))
            (omega arith) (omega arith) (omega arith) (omega arith))
          (omega arith) (omega arith) (omega arith) (omega arith))
        (omega arith) (omega arith) (omega arith) (omega arith))
      refl (omega arith) (omega arith) (omega arith)

pub b_type_sum :
    (imm rs2 rs1 funct3 : ℕ)
    → IsOffset 13 imm
    → IsReg rs2
    → IsReg rs1
    → funct3 < 8
    → b_type imm rs2 rs1 funct3
      ≡ imm / 2 ^ 12 % 2 * 2 ^ 31
        + imm / 32 % 64 * 2 ^ 25
        + imm / 2 ^ 11 % 2 * 2 ^ 7
        + imm / 2 % 16 * 2 ^ 8
        + rs2 * 2 ^ 20
        + rs1 * 2 ^ 15
        + funct3 * 2 ^ 12
        + 0b1100011
unfolding b_type
b_type_sum imm rs2 rs1 funct3 o p q r =
    or_next 0 7
      (or_next 12 3
        (or_next 15 5
          (or_next 20 5
            (or_next 8 4
              (or_next 7 1
                (or_next 25 6 (ground arith) (ground arith) (omega arith) (omega arith)
                  (omega arith))
                (ground arith) (omega arith) (omega arith) (omega arith))
              (ground arith) (omega arith) (omega arith) (omega arith))
            (omega arith) (omega arith) (omega arith) (omega arith))
          (omega arith) (omega arith) (omega arith) (omega arith))
        (omega arith) (omega arith) (omega arith) (omega arith))
      refl (omega arith) (omega arith) (omega arith)

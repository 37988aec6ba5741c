-- ===== src/Isa/RoundTrip/Formats.antt =====
-- `decode` reads from each word of encode.rs the fields that it was put together from.
use tab_linux.Base.{ℕ, ◌+◌, ◌*◌, ◌/◌, ◌%◌, ◌^◌, ◌<◌, ◌≡◌, arith, field}
use tab_linux.Isa.Range.{IsUpper, IsOffset, IsReg, IsSigned}
use tab_linux.Isa.Encode.Words.{r_type_sum, b_type_sum, i_type_sum, s_type_sum}
use tab_linux.Isa.Imm.{j_imm, u_imm, b_imm, i_imm, s_imm}
use tab_linux.Isa.Encode.{csr_type, j_word, r_type, u_word, b_type, i_type, s_type}
use tab_linux.Isa.Decode.{decode, decode_fields}
use tab_linux.Isa.Encode.InPlace.{csr_type_sum, j_word_sum, u_word_sum}
use tab_linux.Isa.Imm.Values.{b_imm_value, j_imm_value, s_imm_value}

-- A word that is the sum of the six fields decodes by them.
pub decode_sum :
    (raw opcode rd funct3 rs1 rs2 funct7 : ℕ)
    → raw ≡ funct7 * 2 ^ 25 + rs2 * 2 ^ 20 + rs1 * 2 ^ 15 + funct3 * 2 ^ 12 + rd * 2 ^ 7 + opcode
    → opcode < 128
    → IsReg rd
    → funct3 < 8
    → IsReg rs1
    → IsReg rs2
    → funct7 < 128
    → decode raw ≡ decode_fields opcode rd funct3 rs1 rs2 funct7 raw
unfolding decode
decode_sum raw opcode rd funct3 rs1 rs2 funct7 e p q r s t u = rw (op, r2, f3, r1, r0, f7)
  where
    op : raw % 2 ^ 7 ≡ opcode
    op = omega arith

    r2 : raw / 2 ^ 7 % 2 ^ 5 ≡ rd
    r2 = omega arith

    f3 : raw / 2 ^ 12 % 2 ^ 3 ≡ funct3
    f3 = omega arith

    r1 : raw / 2 ^ 15 % 2 ^ 5 ≡ rs1
    r1 = omega arith

    r0 : raw / 2 ^ 20 % 2 ^ 5 ≡ rs2
    r0 = omega arith

    f7 : raw / 2 ^ 25 % 2 ^ 7 ≡ funct7
    f7 = omega arith

module _ (imm rs1 funct3 rd opcode : ℕ) (p : IsReg rs1) (q : funct3 < 8) (r : IsReg rd)
    (s : opcode < 128) where
  pub decode-i_type :
      decode (i_type imm rs1 funct3 rd opcode)
      ≡ decode_fields opcode rd funct3 rs1
          (imm % 32)
          (imm % 2 ^ 12 / 32)
          (i_type imm rs1 funct3 rd opcode)
  decode-i_type =
      decode_sum _ _ _ _ _ _ _ (omega (arith, i_type_sum imm rs1 funct3 rd opcode p q r s)) s r q p
        (omega arith) (omega arith)

  pub i_imm-i_type : IsSigned 12 imm → i_imm (i_type imm rs1 funct3 rd opcode) ≡ imm
  unfolding i_imm
  i_imm-i_type o = ground (arith, i_type_sum imm rs1 funct3 rd opcode p q r s)

module _ (imm rs2 rs1 funct3 : ℕ) (p : IsReg rs2) (q : IsReg rs1) (r : funct3 < 8) where
  pub decode-s_type :
      decode (s_type imm rs2 rs1 funct3)
      ≡ decode_fields 0b0100011
          (imm % 32)
          funct3
          rs1
          rs2
          (imm % 2 ^ 12 / 32)
          (s_type imm rs2 rs1 funct3)
  decode-s_type =
      decode_sum _ _ _ _ _ _ _ (omega (arith, s_type_sum imm rs2 rs1 funct3 p q r)) (omega arith)
        (omega arith) r q p (omega arith)

  pub s_imm-s_type : IsSigned 12 imm → s_imm (s_type imm rs2 rs1 funct3) ≡ imm
  s_imm-s_type o =
      ground (arith, s_imm_value (s_type imm rs2 rs1 funct3), s_type_sum imm rs2 rs1 funct3 p q r)

  pub decode-b_type :
      IsOffset 13 imm
      → decode (b_type imm rs2 rs1 funct3)
        ≡ decode_fields 0b1100011
            (imm / 2 % 16 * 2 + imm / 2 ^ 11 % 2)
            funct3
            rs1
            rs2
            (imm / 2 ^ 12 % 2 * 64 + imm / 32 % 64)
            (b_type imm rs2 rs1 funct3)
  decode-b_type o =
      decode_sum _ _ _ _ _ _ _ (omega (arith, b_type_sum imm rs2 rs1 funct3 o p q r)) (omega arith)
        (omega arith) r q p (omega arith)

  pub b_imm-b_type : IsOffset 13 imm → b_imm (b_type imm rs2 rs1 funct3) ≡ imm
  b_imm-b_type o =
      ground (arith, b_imm_value (b_type imm rs2 rs1 funct3), b_type_sum imm rs2 rs1 funct3 o p q r)

pub decode-csr_type :
    (csr rs1 funct3 rd : ℕ) (p : csr < 2 ^ 12) (q : IsReg rs1) (r : funct3 < 8) (s : IsReg rd)
    → (decode (csr_type csr rs1 funct3 rd)
        ≡ decode_fields 0b1110011 rd funct3 rs1 (csr % 32) (csr / 32) (csr_type csr rs1 funct3 rd))
      × (field (csr_type csr rs1 funct3 rd) 20 12 ≡ csr)
decode-csr_type csr rs1 funct3 rd p q r s =
    let sum = csr_type_sum csr rs1 funct3 rd p q r s in
    (
      decode_sum _ _ _ _ _ _ _ (omega (arith, sum)) (omega arith) s r q (omega arith) (omega arith),
      omega (arith, sum),
    )

pub decode-r_type :
    (funct7 rs2 rs1 funct3 rd opcode : ℕ)
    → funct7 < 128
    → IsReg rs2
    → IsReg rs1
    → funct3 < 8
    → IsReg rd
    → opcode < 128
    → decode (r_type funct7 rs2 rs1 funct3 rd opcode)
      ≡ decode_fields opcode rd funct3 rs1 rs2 funct7 (r_type funct7 rs2 rs1 funct3 rd opcode)
decode-r_type funct7 rs2 rs1 funct3 rd opcode o p q r s t =
    decode_sum _ _ _ _ _ _ _ (r_type_sum funct7 rs2 rs1 funct3 rd opcode o p q r s t) t s r q p o

module _ (imm rd opcode : ℕ) (o : IsUpper imm) (p : IsReg rd) (q : opcode < 128) where
  pub decode-u_word :
      decode (u_word imm rd opcode)
      ≡ decode_fields opcode rd
          (imm / 2 ^ 12 % 8)
          (imm / 2 ^ 15 % 32)
          (imm / 2 ^ 20 % 32)
          (imm / 2 ^ 25 % 128)
          (u_word imm rd opcode)
  decode-u_word =
      decode_sum _ _ _ _ _ _ _ (omega (arith, u_word_sum imm rd opcode o p q)) q p (omega arith)
        (omega arith) (omega arith) (omega arith)

  pub u_imm-u_word : u_imm (u_word imm rd opcode) ≡ imm
  unfolding u_imm
  u_imm-u_word = ground (arith, u_word_sum imm rd opcode o p q)

module _ (imm rd : ℕ) (o : IsOffset 21 imm) (p : IsReg rd) where
  pub decode-j_word :
      decode (j_word imm rd)
      ≡ decode_fields 0b1101111 rd
          (imm / 2 ^ 12 % 8)
          (imm / 2 ^ 15 % 32)
          (imm / 2 % 16 * 2 + imm / 2 ^ 11 % 2)
          (imm / 2 ^ 20 % 2 * 64 + imm / 32 % 64)
          (j_word imm rd)
  decode-j_word =
      decode_sum _ _ _ _ _ _ _ (omega (arith, j_word_sum imm rd o p)) (omega arith) p (omega arith)
        (omega arith) (omega arith) (omega arith)

  pub j_imm-j_word : j_imm (j_word imm rd) ≡ imm
  j_imm-j_word = ground (arith, j_imm_value (j_word imm rd), j_word_sum imm rd o p)

-- ===== src/Isa/Decode/Ranges.antt =====
-- The ranges of the fields that `decode` of decode.rs answers.
use tab_linux.Base.{ℕ, ◌%◌, ◌^◌, ◌<◌, ◌≡◌, Bool, not, arith, ◌==◌, field, sext}
use tab_linux.Isa.Imm.{i_imm_sext5, b_imm, i_imm, j_imm, s_imm, u_imm}
use tab_linux.Isa.Imm.Values.{
  b_bits, j_bits, s_bits, b_imm_value, i_imm_value, j_imm_value, s_imm_value,
}
use tab_linux.Isa.Range.{InRange, IsReg, IsOffset, IsSigned, IsUpper}
use tab_linux.Isa.Arms.{
  decode_amo, decode_branch, decode_load, decode_load_fp, decode_op, decode_op_imm, decode_store,
  decode_store_fp,
}
use tab_linux.Isa.Decode.{
  decode_fields, decode, decode_fence, decode_op_imm_w, decode_op_w, decode_system,
}

sext_12-IsSigned : (v : ℕ) → v < 2 ^ 12 → IsSigned 12 (sext 12 v)
sext_12-IsSigned v h = ground arith

sext_13-IsOffset : (v : ℕ) → v < 2 ^ 13 → v % 2 ≡ 0 → IsOffset 13 (sext 13 v)
sext_13-IsOffset v h e = ground arith

sext_21-IsOffset : (v : ℕ) → v < 2 ^ 21 → v % 2 ≡ 0 → IsOffset 21 (sext 21 v)
sext_21-IsOffset v h e = ground arith

i_imm-IsSigned : (raw : ℕ) → raw < 2 ^ 32 → IsSigned 12 (i_imm raw)
i_imm-IsSigned raw h = rw (i_imm_value raw h) (sext_12-IsSigned (field raw 20 12) (omega arith))

s_imm-IsSigned : (raw : ℕ) → IsSigned 12 (s_imm raw)
s_imm-IsSigned raw = rw (s_imm_value raw) (sext_12-IsSigned (s_bits raw) (omega arith))

b_imm-IsOffset : (raw : ℕ) → IsOffset 13 (b_imm raw)
b_imm-IsOffset raw =
    rw (b_imm_value raw) (sext_13-IsOffset (b_bits raw) (omega arith) (omega arith))

j_imm-IsOffset : (raw : ℕ) → IsOffset 21 (j_imm raw)
j_imm-IsOffset raw =
    rw (j_imm_value raw) (sext_21-IsOffset (j_bits raw) (omega arith) (omega arith))

u_imm-IsUpper : (raw : ℕ) → IsUpper (u_imm raw)
unfolding u_imm
u_imm-IsUpper raw = ground arith

i_imm_sext5-IsSigned : (raw : ℕ) → raw < 2 ^ 32 → IsSigned 12 (i_imm_sext5 raw)
unfolding i_imm i_imm_sext5
i_imm_sext5-IsSigned raw h = i_imm-IsSigned raw h

module _ (rd rs1 rs2 : ℕ) (p : IsReg rd) (q : IsReg rs1) (r : IsReg rs2) where
  branch-InRange : (funct3 imm : ℕ) → IsOffset 13 imm → InRange (decode_branch funct3 rs1 rs2 imm)
  unfolding decode_branch
  branch-InRange funct3 imm o = ground arith

  load-InRange : (funct3 imm : ℕ) → IsSigned 12 imm → InRange (decode_load funct3 rd rs1 imm)
  unfolding decode_load
  load-InRange funct3 imm o = ground arith

  load_fp-InRange : (funct3 imm : ℕ) → IsSigned 12 imm → InRange (decode_load_fp funct3 rd rs1 imm)
  unfolding decode_load_fp
  load_fp-InRange funct3 imm o = ground arith

  store-InRange : (funct3 imm : ℕ) → IsSigned 12 imm → InRange (decode_store funct3 rs1 rs2 imm)
  unfolding decode_store
  store-InRange funct3 imm o = ground arith

  store_fp-InRange :
      (funct3 imm : ℕ) → IsSigned 12 imm → InRange (decode_store_fp funct3 rs1 rs2 imm)
  unfolding decode_store_fp
  store_fp-InRange funct3 imm o = ground arith

  op_imm-InRange :
      (funct3 funct7 imm shamt : ℕ)
      → IsSigned 12 imm
      → shamt < 64
      → InRange (decode_op_imm funct3 funct7 rd rs1 imm shamt)
  unfolding decode_op_imm
  op_imm-InRange funct3 funct7 imm shamt o s = ground arith

  op-InRange : (funct7 funct3 : ℕ) → InRange (decode_op funct7 funct3 rd rs1 rs2)
  unfolding decode_op
  op-InRange funct7 funct3 = ground arith

  amo-InRange :
      (funct3 funct5 : ℕ) (aq rl : Bool) → InRange (decode_amo funct3 funct5 rd rs1 rs2 aq rl)
  unfolding decode_amo
  amo-InRange funct3 funct5 aq rl = ground arith

  op_imm_w-InRange :
      (funct3 funct7 imm shamt : ℕ)
      → IsSigned 12 imm
      → shamt < 32
      → InRange (decode_op_imm_w funct3 funct7 rd rs1 imm shamt)
  unfolding decode_op_imm_w
  op_imm_w-InRange funct3 funct7 imm shamt o s = ground arith

  op_w-InRange : (funct7 funct3 : ℕ) → InRange (decode_op_w funct7 funct3 rd rs1 rs2)
  unfolding decode_op_w
  op_w-InRange funct7 funct3 = ground arith

  system-InRange :
      (funct3 funct7 csr : ℕ) → csr < 2 ^ 12 → InRange (decode_system funct3 funct7 rd rs1 rs2 csr)
  unfolding decode_system
  system-InRange funct3 funct7 csr c = ground arith

fence-InRange :
    (funct3 pred succ : ℕ) → pred < 16 → succ < 16 → InRange (decode_fence funct3 pred succ)
unfolding decode_fence
fence-InRange funct3 pred succ p q = ground arith

-- Every 32-bit word decodes to an instruction whose fields are in range: registers below 32,
-- shift amounts below the width of the shift, CSR numbers of 12 bits, and immediates that are sign
-- extensions of as many bits as the format has.
pub decode-InRange : (raw : ℕ) → raw < 2 ^ 32 → InRange (decode raw)
unfolding decode decode_fields
decode-InRange raw h =
    let rd = field raw 7 5 in
    let rs1 = field raw 15 5 in
    let rs2 = field raw 20 5 in
    let f3 = field raw 12 3 in
    let f7 = field raw 25 7 in
    let p : IsReg rd = omega arith in
    let q : IsReg rs1 = omega arith in
    let r : IsReg rs2 = omega arith in
    ground (
      arith,
      u_imm-IsUpper raw,
      j_imm-IsOffset raw,
      i_imm-IsSigned raw h,
      branch-InRange rd rs1 rs2 p q r f3 (b_imm raw) (b_imm-IsOffset raw),
      load-InRange rd rs1 rs2 p q r f3 (i_imm raw) (i_imm-IsSigned raw h),
      load_fp-InRange rd rs1 rs2 p q r f3 (i_imm raw) (i_imm-IsSigned raw h),
      store-InRange rd rs1 rs2 p q r f3 (s_imm raw) (s_imm-IsSigned raw),
      store_fp-InRange rd rs1 rs2 p q r f3 (s_imm raw) (s_imm-IsSigned raw),
      op_imm-InRange rd rs1 rs2 p q r f3 f7 (i_imm raw) (field raw 20 6) (i_imm-IsSigned raw h)
          (omega arith),
      op-InRange rd rs1 rs2 p q r f7 f3,
      amo-InRange rd rs1 rs2 p q r f3 (field raw 27 5) (not (field raw 26 1 == 0))
          (not (field raw 25 1 == 0)),
      op_imm_w-InRange rd rs1 rs2 p q r f3 f7 (i_imm_sext5 raw) (field raw 20 5)
          (i_imm_sext5-IsSigned raw h) (omega arith),
      op_w-InRange rd rs1 rs2 p q r f7 f3,
      fence-InRange f3 (field raw 20 4) (field raw 24 4) (omega arith) (omega arith),
      system-InRange rd rs1 rs2 p q r f3 f7 (field raw 20 12) (omega arith),
    )

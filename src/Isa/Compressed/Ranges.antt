-- ===== src/Isa/Compressed/Ranges.antt =====
-- The ranges of the fields that `decompress` of compressed.rs answers.
use tab_linux.Base.{ℕ, ◌^◌, ◌<◌, ◌≡◌, subst, Option, none, some, arith, field}
use tab_linux.Isa.CompressedImm.Values.{
  addi16sp_imm_value, lui_imm_value, addi4spn_imm_sum, cb_imm_value, cj_imm_value, double_imm_sum,
  ldsp_imm_sum, lwsp_imm_sum, sdsp_imm_sum, sext_imm_six, six_bits_sum, swsp_imm_sum, word_imm_sum,
  zcb_byte_imm_sum, zcb_half_imm_sum,
}
use tab_linux.Isa.Compressed.{decompress, quadrant0, quadrant1, quadrant2}
use tab_linux.Isa.CompressedImm.{addi16sp_imm, cb_imm, cj_imm, lui_imm, sext_imm, six_bits}
use tab_linux.Isa.Range.{InRange, IsOffset, IsSigned, IsUpper}
use tab_linux.Isa.{Instr}

abbrev OptionInRange : Option Instr → Type 0
OptionInRange none = Unit {0}
OptionInRange (some i) = InRange i

addi_imm-IsSigned : (r : ℕ) → IsSigned 12 (sext_imm (six_bits r) 6)
addi_imm-IsSigned r =
    let sum = six_bits_sum r in
    let small : six_bits r < 2 ^ 6 = omega (arith, sum) in
    rw (sext_imm_six (six_bits r) small) (ground (arith, sum))

addi16sp_imm-IsSigned : (r : ℕ) → IsSigned 12 (addi16sp_imm r)
addi16sp_imm-IsSigned r = rw (addi16sp_imm_value r) (ground arith)

lui_imm-IsUpper : (r : ℕ) → IsUpper (lui_imm r)
lui_imm-IsUpper r = rw (lui_imm_value r) (ground arith)

cj_imm-IsOffset : (r : ℕ) → IsOffset 21 (cj_imm r)
cj_imm-IsOffset r = rw (cj_imm_value r) (ground arith)

cb_imm-IsOffset : (r : ℕ) → IsOffset 13 (cb_imm r)
cb_imm-IsOffset r = rw (cb_imm_value r) (ground arith)

quadrant0-InRange : (f3 r : ℕ) → OptionInRange (quadrant0 f3 r)
unfolding quadrant0
quadrant0-InRange f3 r = ground (
  arith,
  addi4spn_imm_sum r,
  double_imm_sum r,
  word_imm_sum r,
  zcb_byte_imm_sum r,
  zcb_half_imm_sum r,
)

quadrant1-InRange : (f3 r : ℕ) → OptionInRange (quadrant1 f3 r)
unfolding quadrant1
quadrant1-InRange f3 r = ground (
  arith,
  six_bits_sum r,
  addi_imm-IsSigned r,
  addi16sp_imm-IsSigned r,
  lui_imm-IsUpper r,
  cj_imm-IsOffset r,
  cb_imm-IsOffset r,
)

quadrant2-InRange : (f3 r : ℕ) → OptionInRange (quadrant2 f3 r)
unfolding quadrant2
quadrant2-InRange f3 r =
    ground (arith, six_bits_sum r, ldsp_imm_sum r, lwsp_imm_sum r, sdsp_imm_sum r, swsp_imm_sum r)

-- Every 16-bit word that decompresses at all decompresses to an instruction whose fields are in
-- range.
pub decompress-InRange : (raw : ℕ) {i : Instr} → decompress raw ≡ some i → InRange i
unfolding decompress
decompress-InRange raw {i} e = subst OptionInRange e all
  where
    all : OptionInRange (decompress raw)
    all = ground (
      arith,
      quadrant0-InRange (field raw 13 3) raw,
      quadrant1-InRange (field raw 13 3) raw,
      quadrant2-InRange (field raw 13 3) raw,
    )

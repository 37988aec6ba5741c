-- ===== src/Isa/CompressedImm/Values.antt =====
-- The immediates of compressed.rs as the numbers that their bits spell.
use tab_linux.Base.{
  ℕ, ◌+◌, ◌*◌, ◌^◌, ◌<◌, bit_or, ◌≡◌, refl, ap, ◌∙◌, arith, field, sext, shl, bit_or_disjoint,
  or_next,
}
use tab_linux.Isa.CompressedImm.{
  addi16sp_imm, addi4spn_imm, cb_code, cb_imm, cj_code, double_imm, ldsp_imm, lui_imm, lwsp_imm,
  sdsp_imm, sext_imm, six_bits, swsp_imm, word_imm, zcb_byte_imm, zcb_half_imm, cj_imm,
}

-- The bits of `c.j` and `c.jal`'s offset in the order of their weights, and those of `c.beqz` and
-- `c.bnez`.
abbrev pub cj_bits : ℕ → ℕ
cj_bits r =
    field r 12 1 * 2 ^ 11
    + field r 8 1 * 2 ^ 10
    + field r 9 2 * 2 ^ 8
    + field r 6 1 * 2 ^ 7
    + field r 7 1 * 2 ^ 6
    + field r 2 1 * 2 ^ 5
    + field r 11 1 * 2 ^ 4
    + field r 3 3 * 2

abbrev pub cb_bits : ℕ → ℕ
cb_bits r =
    field r 12 1 * 2 ^ 8
    + field r 5 2 * 2 ^ 6
    + field r 2 1 * 2 ^ 5
    + field r 10 2 * 2 ^ 3
    + field r 3 2 * 2

pub six_bits_sum : (r : ℕ) → six_bits r ≡ field r 12 1 * 2 ^ 5 + field r 2 5
unfolding six_bits
six_bits_sum r = or_next 0 5 (omega arith) refl (omega arith) (omega arith) (omega arith)

pub addi4spn_imm_sum :
    (r : ℕ)
    → addi4spn_imm r
      ≡ field r 6 1 * 2 ^ 2 + field r 5 1 * 2 ^ 3 + field r 11 2 * 2 ^ 4 + field r 7 4 * 2 ^ 6
unfolding addi4spn_imm
addi4spn_imm_sum r =
    or_next 6 4
      (or_next 4 2
        (or_next 3 1 (omega arith) (omega arith) (omega arith) (omega arith) (omega arith))
        (omega arith) (omega arith) (omega arith) (omega arith))
      (omega arith) (omega arith) (omega arith) (omega arith)

pub double_imm_sum : (r : ℕ) → double_imm r ≡ field r 10 3 * 2 ^ 3 + field r 5 2 * 2 ^ 6
unfolding double_imm
double_imm_sum r = or_next 6 2 (omega arith) (omega arith) (omega arith) (omega arith) (omega arith)

pub word_imm_sum :
    (r : ℕ) → word_imm r ≡ field r 6 1 * 2 ^ 2 + field r 10 3 * 2 ^ 3 + field r 5 1 * 2 ^ 6
unfolding word_imm
word_imm_sum r =
    or_next 6 1 (or_next 3 3 (omega arith) (omega arith) (omega arith) (omega arith) (omega arith))
      (omega arith) (omega arith) (omega arith) (omega arith)

pub zcb_byte_imm_sum :
    (r : ℕ) → zcb_byte_imm r ≡ field r 12 1 * 2 ^ 2 + field r 6 1 * 2 ^ 1 + field r 5 1
unfolding zcb_byte_imm
zcb_byte_imm_sum r =
    or_next 0 1 (or_next 1 1 (omega arith) (omega arith) (omega arith) (omega arith) (omega arith))
      refl (omega arith) (omega arith) (omega arith)

pub ldsp_imm_sum :
    (r : ℕ) → ldsp_imm r ≡ field r 12 1 * 2 ^ 5 + field r 5 2 * 2 ^ 3 + field r 2 3 * 2 ^ 6
unfolding ldsp_imm
ldsp_imm_sum r =
    or_next 6 3 (or_next 3 2 (omega arith) (omega arith) (omega arith) (omega arith) (omega arith))
      (omega arith) (omega arith) (omega arith) (omega arith)

pub lwsp_imm_sum :
    (r : ℕ) → lwsp_imm r ≡ field r 12 1 * 2 ^ 5 + field r 4 3 * 2 ^ 2 + field r 2 2 * 2 ^ 6
unfolding lwsp_imm
lwsp_imm_sum r =
    or_next 6 2 (or_next 2 3 (omega arith) (omega arith) (omega arith) (omega arith) (omega arith))
      (omega arith) (omega arith) (omega arith) (omega arith)

pub sdsp_imm_sum : (r : ℕ) → sdsp_imm r ≡ field r 10 3 * 2 ^ 3 + field r 7 3 * 2 ^ 6
unfolding sdsp_imm
sdsp_imm_sum r = or_next 6 3 (omega arith) (omega arith) (omega arith) (omega arith) (omega arith)

pub swsp_imm_sum : (r : ℕ) → swsp_imm r ≡ field r 9 4 * 2 ^ 2 + field r 7 2 * 2 ^ 6
unfolding swsp_imm
swsp_imm_sum r = or_next 6 2 (omega arith) (omega arith) (omega arith) (omega arith) (omega arith)

pub cj_code_sum :
    (r : ℕ)
    → cj_code r
      ≡ field r 12 1 * 2 ^ 10
        + field r 8 1 * 2 ^ 9
        + field r 9 2 * 2 ^ 7
        + field r 6 1 * 2 ^ 6
        + field r 7 1 * 2 ^ 5
        + field r 2 1 * 2 ^ 4
        + field r 11 1 * 2 ^ 3
        + field r 3 3
unfolding cj_code
cj_code_sum r =
    or_next 0 3
      (or_next 3 1
        (or_next 4 1
          (or_next 5 1
            (or_next 6 1
              (or_next 7 2
                (or_next 9 1 (omega arith) (omega arith) (omega arith) (omega arith) (omega arith))
                (omega arith) (omega arith) (omega arith) (omega arith))
              (omega arith) (omega arith) (omega arith) (omega arith))
            (omega arith) (omega arith) (omega arith) (omega arith))
          (omega arith) (omega arith) (omega arith) (omega arith))
        (omega arith) (omega arith) (omega arith) (omega arith))
      refl (omega arith) (omega arith) (omega arith)

pub cb_code_sum :
    (r : ℕ)
    → cb_code r
      ≡ field r 12 1 * 2 ^ 7
        + field r 5 2 * 2 ^ 5
        + field r 2 1 * 2 ^ 4
        + field r 10 2 * 2 ^ 2
        + field r 3 2
unfolding cb_code
cb_code_sum r =
    or_next 0 2
      (or_next 2 2
        (or_next 4 1
          (or_next 5 2 (omega arith) (omega arith) (omega arith) (omega arith) (omega arith))
          (omega arith) (omega arith) (omega arith) (omega arith))
        (omega arith) (omega arith) (omega arith) (omega arith))
      refl (omega arith) (omega arith) (omega arith)

pub zcb_half_imm_sum : (r : ℕ) → zcb_half_imm r ≡ (field r 12 1 * 2 + field r 6 1) * 2
unfolding zcb_half_imm
zcb_half_imm_sum r = rw val (omega arith)
  where
    val : bit_or (shl 32 (field r 12 1) 1) (field r 6 1) ≡ field r 12 1 * 2 + field r 6 1
    val = or_next 0 1 (omega arith) refl (omega arith) (omega arith) (omega arith)

-- `sext` is the sign extension of n bits, at the widths that occur.
pub sext_imm_six : (v : ℕ) → v < 2 ^ 6 → sext_imm v 6 ≡ sext 6 v
unfolding sext_imm
sext_imm_six v h = ground arith

pub sext_imm_ten : (v : ℕ) → v < 2 ^ 10 → sext_imm v 10 ≡ sext 10 v
unfolding sext_imm
sext_imm_ten v h = ground arith

pub sext_imm_eighteen : (v : ℕ) → v < 2 ^ 18 → sext_imm v 18 ≡ sext 18 v
unfolding sext_imm
sext_imm_eighteen v h = ground arith

abbrev pub addi16sp_bits : ℕ → ℕ
addi16sp_bits r =
    field r 12 1 * 2 ^ 9
    + field r 3 2 * 2 ^ 7
    + field r 5 1 * 2 ^ 6
    + field r 2 1 * 2 ^ 5
    + field r 6 1 * 2 ^ 4

abbrev pub lui_bits : ℕ → ℕ
lui_bits r = field r 12 1 * 2 ^ 17 + field r 2 5 * 2 ^ 12

pub addi16sp_imm_value : (r : ℕ) → addi16sp_imm r ≡ sext 10 (addi16sp_bits r)
unfolding addi16sp_imm
addi16sp_imm_value r =
    ap (λ v. sext_imm v 10)
      (or_next 4 1
        (or_next 5 1
          (or_next 6 1
            (or_next 7 2 (omega arith) (omega arith) (omega arith) (omega arith) (omega arith))
            (omega arith) (omega arith) (omega arith) (omega arith))
          (omega arith) (omega arith) (omega arith) (omega arith))
        (omega arith) (omega arith) (omega arith) (omega arith))
    ∙ sext_imm_ten (addi16sp_bits r) (omega arith)

pub lui_imm_value : (r : ℕ) → lui_imm r ≡ sext 18 (lui_bits r)
unfolding lui_imm
lui_imm_value r =
    ap (λ v. sext_imm v 18)
      (or_next 12 5 (omega arith) (omega arith) (omega arith) (omega arith) (omega arith))
    ∙ sext_imm_eighteen (lui_bits r) (omega arith)

-- The offset of a compressed jump is the sign extension of its twelve bits.
pub cj_imm_value : (raw : ℕ) → cj_imm raw ≡ sext 12 (cj_bits raw)
unfolding cj_imm
cj_imm_value raw = ground (arith, cj_code_sum raw, set_high)
  where
    set_high : bit_or (cj_code raw) 0xFFFF_F800 ≡ cj_code raw + 0xFFFF_F800
    set_high =
        let sum = cj_code_sum raw in
        bit_or_disjoint 11 21 (cj_code raw) 0xFFFF_F800 (omega (arith, sum)) (omega arith)
          (omega arith)

-- The offset of a compressed branch is the sign extension of its nine bits.
pub cb_imm_value : (raw : ℕ) → cb_imm raw ≡ sext 9 (cb_bits raw)
unfolding cb_imm
cb_imm_value raw = ground (arith, cb_code_sum raw, set_high)
  where
    set_high : bit_or (cb_code raw) 0xFFFF_FF00 ≡ cb_code raw + 0xFFFF_FF00
    set_high =
        let sum = cb_code_sum raw in
        bit_or_disjoint 8 24 (cb_code raw) 0xFFFF_FF00 (omega (arith, sum)) (omega arith)
          (omega arith)

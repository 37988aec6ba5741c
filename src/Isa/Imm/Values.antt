-- ===== src/Isa/Imm/Values.antt =====
-- Each immediate of decode.rs as the sign extension of the number that its bits spell.
use tab_linux.Base.{ℕ, ◌+◌, ◌*◌, ◌^◌, ◌<◌, bit_or, ◌≡◌, refl, arith, field, sar, sext, shl, or_next}
use tab_linux.Isa.Imm.{b_imm, i_imm, j_imm, s_imm}

-- `(v << (64 - n)) >> (64 - n)` at the three widths that occur.
shift_pair_12 : (v : ℕ) → v < 2 ^ 12 → sar 64 (shl 64 v 52) 52 ≡ sext 12 v
shift_pair_12 v h = ground arith

shift_pair_13 : (v : ℕ) → v < 2 ^ 13 → sar 64 (shl 64 v 51) 51 ≡ sext 13 v
shift_pair_13 v h = ground arith

shift_pair_21 : (v : ℕ) → v < 2 ^ 21 → sar 64 (shl 64 v 43) 43 ≡ sext 21 v
shift_pair_21 v h = ground arith

abbrev pub s_bits : ℕ → ℕ
s_bits raw = field raw 25 7 * 2 ^ 5 + field raw 7 5

abbrev pub b_bits : ℕ → ℕ
b_bits raw =
    field raw 31 1 * 2 ^ 12 + field raw 7 1 * 2 ^ 11 + field raw 25 6 * 2 ^ 5 + field raw 8 4 * 2

abbrev pub j_bits : ℕ → ℕ
j_bits raw =
    field raw 31 1 * 2 ^ 20
    + field raw 12 8 * 2 ^ 12
    + field raw 20 1 * 2 ^ 11
    + field raw 21 10 * 2

pub i_imm_value : (raw : ℕ) → raw < 2 ^ 32 → i_imm raw ≡ sext 12 (field raw 20 12)
unfolding i_imm
i_imm_value raw h = ground arith

pub s_imm_value : (raw : ℕ) → s_imm raw ≡ sext 12 (s_bits raw)
unfolding s_imm
s_imm_value raw = rw val (shift_pair_12 (s_bits raw) (omega arith))
  where
    val : bit_or (shl 64 (field raw 25 7) 5) (field raw 7 5) ≡ s_bits raw
    val = or_next 0 5 (omega arith) refl (omega arith) (omega arith) (omega arith)

pub b_imm_value : (raw : ℕ) → b_imm raw ≡ sext 13 (b_bits raw)
unfolding b_imm
b_imm_value raw = rw val (shift_pair_13 (b_bits raw) (omega arith))
  where
    val :
        bit_or
          (bit_or
            (bit_or (shl 64 (field raw 31 1) 12) (shl 64 (field raw 7 1) 11))
            (shl 64 (field raw 25 6) 5))
          (shl 64 (field raw 8 4) 1)
        ≡ b_bits raw
    val =
        or_next 1 4
          (or_next 5 6
            (or_next 11 1 (omega arith) (omega arith) (omega arith) (omega arith) (omega arith))
            (omega arith) (omega arith) (omega arith) (omega arith))
          (omega arith) (omega arith) (omega arith) (omega arith)

pub j_imm_value : (raw : ℕ) → j_imm raw ≡ sext 21 (j_bits raw)
unfolding j_imm
j_imm_value raw = rw val (shift_pair_21 (j_bits raw) (omega arith))
  where
    val :
        bit_or
          (bit_or
            (bit_or (shl 64 (field raw 31 1) 20) (shl 64 (field raw 12 8) 12))
            (shl 64 (field raw 20 1) 11))
          (shl 64 (field raw 21 10) 1)
        ≡ j_bits raw
    val =
        or_next 1 10
          (or_next 11 1
            (or_next 12 8 (omega arith) (omega arith) (omega arith) (omega arith) (omega arith))
            (omega arith) (omega arith) (omega arith) (omega arith))
          (omega arith) (omega arith) (omega arith) (omega arith)

-- ===== src/Isa/CompressedImm.antt =====
-- crates/riscv-core/src/compressed.rs: the immediates of the 16-bit instructions. `at x k` is
-- `x << k` on u32.
pub mod Values
use tab_linux.Base.{ℕ, ◌-◌, ◌*◌, bit_or, not, ◌==◌, if◌then◌else◌, u64, field, sar, sext, shl}

abbrev at : ℕ → ℕ → ℕ
at x k = shl 32 x k

-- `sext` of the source: the n-bit number v as an i64.
unfoldable pub sext_imm : ℕ → ℕ → ℕ
sext_imm v n = let shift = 32 - n in sext 32 (sar 32 (shl 32 v shift) shift)

-- The six-bit immediate or shift amount of quadrants 1 and 2.
unfoldable pub six_bits : ℕ → ℕ
six_bits r = bit_or (at (field r 12 1) 5) (field r 2 5)

unfoldable pub addi4spn_imm : ℕ → ℕ
addi4spn_imm r =
    bit_or (bit_or (bit_or (at (field r 6 1) 2) (at (field r 5 1) 3)) (at (field r 11 2) 4))
      (at (field r 7 4) 6)

-- The offset of a doubleword access, of a word access, and of the byte and halfword ones of Zcb.
unfoldable pub double_imm : ℕ → ℕ
double_imm r = bit_or (at (field r 10 3) 3) (at (field r 5 2) 6)

unfoldable pub word_imm : ℕ → ℕ
word_imm r = bit_or (bit_or (at (field r 6 1) 2) (at (field r 10 3) 3)) (at (field r 5 1) 6)

unfoldable pub zcb_byte_imm : ℕ → ℕ
zcb_byte_imm r = bit_or (bit_or (at (field r 12 1) 2) (at (field r 6 1) 1)) (field r 5 1)

unfoldable pub zcb_half_imm : ℕ → ℕ
zcb_half_imm r = u64 (bit_or (at (field r 12 1) 1) (field r 6 1) * 2)

unfoldable pub addi16sp_imm : ℕ → ℕ
addi16sp_imm r =
    sext_imm
      (bit_or
        (bit_or (bit_or (bit_or (at (field r 12 1) 9) (at (field r 3 2) 7)) (at (field r 5 1) 6))
          (at (field r 2 1) 5))
        (at (field r 6 1) 4))
      10

unfoldable pub lui_imm : ℕ → ℕ
lui_imm r = sext_imm (bit_or (at (field r 12 1) 17) (at (field r 2 5) 12)) 18

-- The offsets from the stack pointer: loads of doublewords and words, stores of the same.
unfoldable pub ldsp_imm : ℕ → ℕ
ldsp_imm r = bit_or (bit_or (at (field r 12 1) 5) (at (field r 5 2) 3)) (at (field r 2 3) 6)

unfoldable pub lwsp_imm : ℕ → ℕ
lwsp_imm r = bit_or (bit_or (at (field r 12 1) 5) (at (field r 4 3) 2)) (at (field r 2 2) 6)

unfoldable pub sdsp_imm : ℕ → ℕ
sdsp_imm r = bit_or (at (field r 10 3) 3) (at (field r 7 3) 6)

unfoldable pub swsp_imm : ℕ → ℕ
swsp_imm r = bit_or (at (field r 9 4) 2) (at (field r 7 2) 6)

-- The offsets of the jumps and of the branches before their last zero bit.
unfoldable pub cj_code : ℕ → ℕ
cj_code raw =
    bit_or
      (bit_or
        (bit_or
          (bit_or
            (bit_or
              (bit_or (bit_or (at (field raw 12 1) 10) (at (field raw 8 1) 9))
                (at (field raw 9 2) 7))
              (at (field raw 6 1) 6))
            (at (field raw 7 1) 5))
          (at (field raw 2 1) 4))
        (at (field raw 11 1) 3))
      (field raw 3 3)

unfoldable pub cb_code : ℕ → ℕ
cb_code raw =
    bit_or
      (bit_or
        (bit_or (bit_or (at (field raw 12 1) 7) (at (field raw 5 2) 5)) (at (field raw 2 1) 4))
        (at (field raw 10 2) 2))
      (field raw 3 2)

unfoldable pub cj_imm : ℕ → ℕ
cj_imm raw =
    let v = cj_code raw in
    if not (field raw 12 1 == 0) then shl 64 (sext 32 (bit_or v 0xFFFF_F800)) 1 else shl 64 v 1

unfoldable pub cb_imm : ℕ → ℕ
cb_imm raw =
    let v = cb_code raw in
    if not (field raw 12 1 == 0) then shl 64 (sext 32 (bit_or v 0xFFFF_FF00)) 1 else shl 64 v 1

-- ===== src/Isa/Imm.antt =====
-- crates/riscv-core/src/decode.rs: the immediates of an instruction word.
pub mod Values
use tab_linux.Base.{ℕ, ◌*◌, ◌^◌, bit_or, field, sar, sext, shl}

unfoldable pub i_imm : ℕ → ℕ
i_imm raw = sext 32 (sar 32 raw 20)

unfoldable pub i_imm_sext5 : ℕ → ℕ
i_imm_sext5 raw = sext 32 (sar 32 raw 20)

unfoldable pub s_imm : ℕ → ℕ
s_imm raw =
    let hi = field raw 25 7 in
    let lo = field raw 7 5 in let val = bit_or (shl 64 hi 5) lo in sar 64 (shl 64 val 52) 52

unfoldable pub b_imm : ℕ → ℕ
b_imm raw =
    let bit12 = field raw 31 1 in
    let bits10_5 = field raw 25 6 in
    let bits4_1 = field raw 8 4 in
    let bit11 = field raw 7 1 in
    let val =
      bit_or (bit_or (bit_or (shl 64 bit12 12) (shl 64 bit11 11)) (shl 64 bits10_5 5))
        (shl 64 bits4_1 1) in
    sar 64 (shl 64 val 51) 51

unfoldable pub j_imm : ℕ → ℕ
j_imm raw =
    let bit20 = field raw 31 1 in
    let bits10_1 = field raw 21 10 in
    let bit11 = field raw 20 1 in
    let bits19_12 = field raw 12 8 in
    let val =
      bit_or (bit_or (bit_or (shl 64 bit20 20) (shl 64 bits19_12 12)) (shl 64 bit11 11))
        (shl 64 bits10_1 1) in
    sar 64 (shl 64 val 43) 43

-- ((raw & 0xFFFFF000) as i32 as i64) as u64.
unfoldable pub u_imm : ℕ → ℕ
u_imm raw = sext 32 (field raw 12 20 * 2 ^ 12)

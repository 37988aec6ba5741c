-- ===== src/Cpu/Product.antt =====
-- The multiplication arms of execute.rs: the upper and the lower half make up the product.
use tab_linux.Base.{
  ℕ, ◌+◌, ◌-◌, ◌*◌, ◌/◌, ◌%◌, ◌^◌, ◌<◌, ◌≡◌, ap, inl, inr, arith, ltb, Bool-cases, u64, sar,
}
use native.Mathlib.Nat.{mul_comm}
use tab_linux.Cpu.Values.{mul, mulh, mulhsu, mulhu, sext_128}

-- Sign extension does not change the lower half of a product.
sext_128-low : (a x : ℕ) → a < 2 ^ 64 → sext_128 a * x % 2 ^ 64 ≡ a * x % 2 ^ 64
sext_128-low a x h = elim (Bool-cases (ltb a (2 ^ 63))) [
  | inl e ↦ rw e
  | inr e ↦
      let shifted : a + 2 ^ 128 - 2 ^ 64 ≡ a + (2 ^ 64 - 1) * 2 ^ 64 = omega arith in
      rw e (omega (arith, ap (λ (t : ℕ). t * x) shifted))
]

-- The upper half of a signed 128-bit product, taken by an arithmetic shift, is its quotient.
high_half : (p : ℕ) → p < 2 ^ 128 → u64 (sar 128 p 64) ≡ p / 2 ^ 64
high_half p h = ground arith

-- `mulhu` and `mul` are the two halves of the product of unsigned words.
pub mulhu-mul : (a b : ℕ) → a < 2 ^ 64 → b < 2 ^ 64 → mulhu a b * 2 ^ 64 + mul a b ≡ a * b
unfolding mulhu mul
mulhu-mul a b ha hb = grind arith

-- `mulh` and `mul` are the two halves of the 128-bit product of signed words.
mulh-mul :
    (a b : ℕ)
    → a < 2 ^ 64
    → b < 2 ^ 64
    → mulh a b * 2 ^ 64 + mul a b ≡ sext_128 a * sext_128 b % 2 ^ 128
unfolding mulh mul
mulh-mul a b ha hb =
    let p = sext_128 a * sext_128 b in
    omega (
      arith,
      high_half (p % 2 ^ 128) (omega arith),
      sext_128-low a (sext_128 b) ha,
      sext_128-low b a hb,
      mul_comm a (sext_128 b),
      mul_comm a b,
    )

-- `mulhsu` and `mul` are the two halves of the 128-bit product of a signed and an unsigned word.
mulhsu-mul :
    (a b : ℕ) → a < 2 ^ 64 → b < 2 ^ 64 → mulhsu a b * 2 ^ 64 + mul a b ≡ sext_128 a * b % 2 ^ 128
unfolding mulhsu mul
mulhsu-mul a b ha hb = omega (arith, sext_128-low a b ha)

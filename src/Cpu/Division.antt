-- ===== src/Cpu/Division.antt =====
-- The division arms of execute.rs: quotient and remainder make up the dividend, also where the
-- divisor is zero and where the quotient overflows.
use tab_linux.Base.{
  ℕ, zero, suc, ◌+◌, ◌-◌, ◌*◌, ◌/◌, ◌%◌, ◌^◌, ◌<◌, ◌≡◌, refl, ap, ◌≢◌, inl, inr, true, false, ◌&&◌,
  arith, ◌==◌, Bool-cases, u64, neg, magnitude,
}
use native.Mathlib.Nat.{div-add-mod, mod-lt}
use tab_linux.Cpu.Values.{div, rem, divu, quot_signed, rem_signed, remu}

-- `divu` and `remu`: quotient times divisor plus remainder is the dividend, modulo 2 ^ 64, also where
-- the divisor is zero.
pub divu-remu : (a b : ℕ) → a < 2 ^ 64 → u64 (divu a b * b + remu a b) ≡ a
unfolding divu remu
divu-remu a b h = ground (arith, div-add-mod a b)

-- The remainder of `remu` is below a divisor that is not zero.
pub remu-lt : (a b : ℕ) → b ≢ 0 → remu a b < b
unfolding remu
remu-lt a b n = ground arith

-- Modulo 2 ^ 64 a negated factor negates the product, on either side.
neg_times : (q b : ℕ) → q < 2 ^ 64 → (neg 64 q * b + q * b) % 2 ^ 64 ≡ 0
neg_times zero b h = ground arith
neg_times (suc k) b h =
    let whole : neg 64 (suc k) + suc k ≡ 2 ^ 64 = omega arith in
    omega (arith, ap (λ (t : ℕ). t * b) whole)

times_neg : (q b : ℕ) → b < 2 ^ 64 → (q * b + q * (2 ^ 64 - b)) % 2 ^ 64 ≡ 0
times_neg q b h =
    let whole : b + (2 ^ 64 - b) ≡ 2 ^ 64 = omega arith in
    omega (arith, ap (λ (t : ℕ). q * t) whole)

signed_identity :
    (a b : ℕ)
    → a < 2 ^ 64
    → b < 2 ^ 64
    → b ≢ 0
    → u64 (quot_signed 64 a b * b + rem_signed 64 a b) ≡ a
signed_identity a b ha hb n = ground (
  arith,
  div-add-mod (magnitude 64 a) (magnitude 64 b),
  neg_times (magnitude 64 a / magnitude 64 b) b,
  times_neg (magnitude 64 a / magnitude 64 b) b hb,
)

-- A divisor that is not zero has a magnitude that is not zero.
magnitude_pos : (b : ℕ) → b < 2 ^ 64 → b ≢ 0 → 0 < magnitude 64 b
magnitude_pos b h n = ground arith

rem_signed_small :
    (a b : ℕ) → a < 2 ^ 64 → b < 2 ^ 64 → b ≢ 0 → magnitude 64 (rem_signed 64 a b) < magnitude 64 b
rem_signed_small a b ha hb n =
    let small : magnitude 64 a % magnitude 64 b < magnitude 64 b =
      mod-lt (magnitude 64 a) (magnitude_pos b hb n) in
    ground (arith, small)

-- The one overflowing quotient, -2 ^ 63 by -1.
overflow_identity : (a b : ℕ) → (a == 2 ^ 63 && b == 2 ^ 64 - 1) ≡ true → u64 (a * b + 0) ≡ a
overflow_identity a b o =
    let first : a ≡ 2 ^ 63 = ground arith in
    let second : b ≡ 2 ^ 64 - 1 = ground arith in rw (first, second) refl

-- `div` and `rem`, of signed words: quotient times divisor plus remainder is the dividend modulo
-- 2 ^ 64, also where the divisor is zero and where the quotient overflows.
div-rem : (a b : ℕ) → a < 2 ^ 64 → b < 2 ^ 64 → u64 (div a b * b + rem a b) ≡ a
unfolding div rem
div-rem a b ha hb = elim (Bool-cases (b == 0)) [
  | inl e ↦ rw e (ground arith)
  | inr e ↦ elim (Bool-cases (a == 2 ^ 63 && b == 2 ^ 64 - 1)) [
    | inl o ↦ rw (e, o) (overflow_identity a b o)
    | inr o ↦ rw (e, o) (signed_identity a b ha hb (ground arith))
  ]
]

-- The remainder of `rem` is smaller in magnitude than a divisor that is not zero.
rem-magnitude :
    (a b : ℕ) → a < 2 ^ 64 → b < 2 ^ 64 → b ≢ 0 → magnitude 64 (rem a b) < magnitude 64 b
unfolding rem
rem-magnitude a b ha hb n =
    let e : (b == 0) ≡ false = ground arith in
    elim (Bool-cases (a == 2 ^ 63 && b == 2 ^ 64 - 1)) [
      | inl o ↦ rw (e, o) (ground arith)
      | inr o ↦ rw (e, o) (rem_signed_small a b ha hb n)
    ]

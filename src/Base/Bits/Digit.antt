-- ===== src/Base/Bits/Digit.antt =====
-- The k-th digit of `|` and of `&`.
use Prim.Native.Nat.{ℕ, zero, suc, ◌/◌, ◌%◌, ◌^◌, max, min, bit_and, bit_or}
use mathlib.Core.Path.{◌≡◌, ap, ◌∙◌, sym}
use tab_linux.Base.Bits.Step.{bit_and-halves, bit_or-halves}
use native.Mathlib.Nat.{pow-suc, div-div-eq-div-mul}
use native.Mathlib.Omega.{arith}

half_power : (x k : ℕ) → x / 2 / 2 ^ k ≡ x / 2 ^ suc k
half_power x k = div-div-eq-div-mul x 2 (2 ^ k) ∙ ap (λ (d : ℕ). x / d) (omega (arith, pow-suc 2 k))

pub bit_and-digit : (k x y : ℕ) → bit_and x y / 2 ^ k % 2 ≡ min (x / 2 ^ k % 2) (y / 2 ^ k % 2)
bit_and-digit zero x y = omega (arith, bit_and-halves x y)
bit_and-digit (suc k) x y =
    let half : bit_and x y / 2 ≡ bit_and (x / 2) (y / 2) = omega (arith, bit_and-halves x y) in
    rw (sym (half_power (bit_and x y) k), half, sym (half_power x k), sym (half_power y k))
      (bit_and-digit k (x / 2) (y / 2))

pub bit_or-digit : (k x y : ℕ) → bit_or x y / 2 ^ k % 2 ≡ max (x / 2 ^ k % 2) (y / 2 ^ k % 2)
bit_or-digit zero x y = omega (arith, bit_or-halves x y)
bit_or-digit (suc k) x y =
    let half : bit_or x y / 2 ≡ bit_or (x / 2) (y / 2) = omega (arith, bit_or-halves x y) in
    rw (sym (half_power (bit_or x y) k), half, sym (half_power x k), sym (half_power y k))
      (bit_or-digit k (x / 2) (y / 2))

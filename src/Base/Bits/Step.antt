-- ===== src/Base/Bits/Step.antt =====
-- `|` and `&` on the lowest digit. The native operations stand for a recursion on the binary digits of
-- their first argument, which has that argument for fuel; more fuel than the argument changes nothing.
use Prim.Native.Nat.{
  ℕ, zero, suc, ◌+◌, ◌-◌, ◌*◌, ◌/◌, ◌%◌, ◌≤◌, max, min, bit_and, bit_or, digits, bit_and-bitwise,
  bit_or-bitwise,
}
use mathlib.Core.Path.{◌≡◌, refl, ap, ◌∙◌}
use native.Mathlib.Omega.{arith}

-- `rest` is the answer where the first number has run out, `on_digits` the operation on two digits.
module _ (rest : ℕ → ℕ) (on_digits : ℕ → ℕ → ℕ) where
  -- One unit of fuel more than enough.
  spare_fuel :
      (fuel a b : ℕ)
      → a ≤ fuel
      → digits rest on_digits (suc fuel) a b ≡ digits rest on_digits fuel a b
  spare_fuel zero zero b enough = refl
  spare_fuel zero (suc a) b enough = absurd (omega arith)
  spare_fuel (suc fuel) zero b enough = refl
  spare_fuel (suc fuel) (suc a) b enough =
      ap (λ (high : ℕ). high * 2 + on_digits (suc a % 2) (b % 2))
        (spare_fuel fuel (suc a / 2) (b / 2) (omega arith))

  -- Any number of units more.
  more_fuel : (spare a b : ℕ) → digits rest on_digits (spare + a) a b ≡ digits rest on_digits a a b
  more_fuel zero a b = ap (λ (fuel : ℕ). digits rest on_digits fuel a b) (omega arith)
  more_fuel (suc spare) a b =
      let counted : suc spare + a ≡ suc (spare + a) = omega arith in
      ap (λ (fuel : ℕ). digits rest on_digits fuel a b) counted
      ∙ spare_fuel (spare + a) a b (omega arith)
      ∙ more_fuel spare a b

  -- The digits above the lowest, with the fuel that they need.
  upper_digits :
      (a b : ℕ)
      → digits rest on_digits a (suc a / 2) (b / 2)
        ≡ digits rest on_digits (suc a / 2) (suc a / 2) (b / 2)
  upper_digits a b =
      let whole : a ≡ (a - suc a / 2) + suc a / 2 = omega arith in
      ap (λ (fuel : ℕ). digits rest on_digits fuel (suc a / 2) (b / 2)) whole
      ∙ more_fuel (a - suc a / 2) (suc a / 2) (b / 2)

-- `|` is `|` of the halves, doubled, and the larger of the last digits.
pub bit_or-halves : (x y : ℕ) → bit_or x y ≡ max (x % 2) (y % 2) + 2 * bit_or (x / 2) (y / 2)
bit_or-halves zero y = simp bit_or-bitwise (omega arith)
bit_or-halves (suc x) y = simp bit_or-bitwise (omega (arith, upper_digits (λ (b : ℕ). b) max x y))

-- `&` is `&` of the halves, doubled, and the smaller of the last digits.
pub bit_and-halves : (x y : ℕ) → bit_and x y ≡ min (x % 2) (y % 2) + 2 * bit_and (x / 2) (y / 2)
bit_and-halves zero y = simp bit_and-bitwise (omega arith)
bit_and-halves (suc x) y = simp bit_and-bitwise (omega (arith, upper_digits (λ (b : ℕ). 0) min x y))

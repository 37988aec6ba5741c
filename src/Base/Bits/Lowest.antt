-- ===== src/Base/Bits/Lowest.antt =====
-- The lowest bit of a number, which `n & (n - 1)` clears.
use Prim.Native.Nat.{ℕ, zero, suc, ◌-◌, ◌*◌, ◌/◌, ◌%◌, ◌^◌, ◌≤◌, ◌<◌, bit_and, bit_and-bitwise}
use mathlib.Core.Path.{◌≡◌, refl, ap}
use tab_linux.Base.Bits.Step.{bit_and-halves}
use native.Mathlib.Nat.{pow-suc}
use native.Mathlib.Omega.{arith}

bit_and_self_fuel : (fuel a : ℕ) → a ≤ fuel → bit_and a a ≡ a
bit_and_self_fuel fuel zero h = refl
bit_and_self_fuel zero (suc a) h = absurd (omega arith)
bit_and_self_fuel (suc fuel) (suc a) h =
    omega (arith, bit_and-halves (suc a) (suc a), bit_and_self_fuel fuel (suc a / 2) (omega arith))

pub shift_suc : (m b : ℕ) → m * 2 ^ suc b ≡ 2 * (m * 2 ^ b)
shift_suc m b = omega (arith, ap (λ (t : ℕ). m * t) (pow-suc 2 b))

pub odd_shift_pos : (b m : ℕ) → m % 2 ≡ 1 → 0 < m * 2 ^ b
odd_shift_pos zero m odd = omega arith
odd_shift_pos (suc b) m odd = omega (arith, shift_suc m b, odd_shift_pos b m odd)

pub bit_and_lowest : (b m : ℕ) → m % 2 ≡ 1 → bit_and (m * 2 ^ b) (m * 2 ^ b - 1) ≡ m / 2 * 2 ^ suc b
bit_and_lowest zero m odd =
    let half : (m - 1) / 2 ≡ m / 2 = omega arith in
    let upper : bit_and (m / 2) ((m - 1) / 2) ≡ m / 2 =
      rw half (bit_and_self_fuel (m / 2) (m / 2) (omega arith)) in
    ground (arith, bit_and-halves m (m - 1), upper)
bit_and_lowest (suc b) m odd =
    let whole : m * 2 ^ suc b ≡ 2 * (m * 2 ^ b) = shift_suc m b in
    let pos : 0 < m * 2 ^ b = odd_shift_pos b m odd in
    let low : (2 * (m * 2 ^ b) - 1) / 2 ≡ m * 2 ^ b - 1 = omega arith in
    let high : 2 * (m * 2 ^ b) / 2 ≡ m * 2 ^ b = omega arith in
    let step : bit_and (2 * (m * 2 ^ b)) (2 * (m * 2 ^ b) - 1)
        ≡ 2 * bit_and (2 * (m * 2 ^ b) / 2) ((2 * (m * 2 ^ b) - 1) / 2) =
      omega (arith, bit_and-halves (2 * (m * 2 ^ b)) (2 * (m * 2 ^ b) - 1)) in
    rw (whole, step, high, low, bit_and_lowest b m odd) (omega (arith, shift_suc (m / 2) (suc b)))

bit_and-le_fuel : (fuel a b : ℕ) → a ≤ fuel → bit_and a b ≤ a
bit_and-le_fuel fuel zero b h = let e : bit_and 0 b ≡ 0 = simp bit_and-bitwise in omega (arith, e)
bit_and-le_fuel zero (suc a) b h = absurd (omega arith)
bit_and-le_fuel (suc fuel) (suc a) b h =
    omega (arith, bit_and-halves (suc a) b, bit_and-le_fuel fuel (suc a / 2) (b / 2) (omega arith))

-- `&` is at most its first side.
pub bit_and-le : (a b : ℕ) → bit_and a b ≤ a
bit_and-le a b = bit_and-le_fuel a a b (omega arith)

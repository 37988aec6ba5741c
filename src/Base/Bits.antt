-- ===== src/Base/Bits.antt =====
-- `|` of disjoint fields is their sum, at every width.
mod Step
mod Digit
mod Lowest
pub use Digit.*
pub use Lowest.*
use Step.{bit_or-halves}
use Prim.Native.Nat.{ℕ, zero, suc, ◌+◌, ◌*◌, ◌/◌, ◌%◌, ◌^◌, ◌≤◌, ◌<◌, max, bit_or}
use mathlib.Core.Path.{◌≡◌, refl, ap, ap₂, ◌∙◌}
use native.Mathlib.Nat.{pow-suc, one-le-pow, div-add-mod, mod-lt}
use native.Mathlib.Omega.{arith}

bit_or-zero_fuel : (n a : ℕ) → a ≤ n → bit_or a 0 ≡ a
bit_or-zero_fuel n zero h = refl
bit_or-zero_fuel zero (suc a) h = absurd (omega arith)
bit_or-zero_fuel (suc n) (suc a) h =
    omega (arith, bit_or-halves (suc a) 0, bit_or-zero_fuel n (suc a / 2) (omega arith))

mul-two_pow-suc : (q k : ℕ) → q * 2 ^ suc k ≡ 2 * (q * 2 ^ k)
mul-two_pow-suc q k = omega (arith, ap (λ (t : ℕ). q * t) (pow-suc 2 k))

-- `(q << k) | r` is a sum when `r` has k bits.
pub bit_or_fields : (k q r : ℕ) → r < 2 ^ k → bit_or (q * 2 ^ k) r ≡ q * 2 ^ k + r
bit_or_fields zero q r fits = ground (arith, bit_or-zero_fuel q q (omega arith))
bit_or_fields (suc k) q r fits = ground (
  arith,
  bit_or-halves (q * 2 ^ suc k) r,
  mul-two_pow-suc q k,
  bit_or_fields k q (r / 2) (omega arith),
)

-- The same with the upper field given as a number that is a multiple of 2 ^ k.
pub bit_or_sum : (k q a r : ℕ) → a ≡ q * 2 ^ k → r < 2 ^ k → bit_or a r ≡ a + r
bit_or_sum k q a r e fits = rw e (bit_or_fields k q r fits)

-- Low bits that only one side has stay as they are.
bit_or_high :
    (k x q r : ℕ) → r < 2 ^ k → bit_or (x * 2 ^ k + r) (q * 2 ^ k) ≡ bit_or x q * 2 ^ k + r
bit_or_high zero x q r fits = let e : r ≡ 0 = omega arith in rw e (ground arith)
bit_or_high (suc k) x q r fits = ground (
  arith,
  bit_or-halves (x * 2 ^ suc k + r) (q * 2 ^ suc k),
  mul-two_pow-suc x k,
  mul-two_pow-suc q k,
  mul-two_pow-suc (bit_or x q) k,
  bit_or_high k x q (r / 2) (omega arith),
)

-- A field of m bits from bit k on, put where the other side has zeros, adds up.
pub bit_or_disjoint :
    (k m s t : ℕ) → s / 2 ^ k % 2 ^ m ≡ 0 → t % 2 ^ k ≡ 0 → t / 2 ^ k < 2 ^ m → bit_or s t ≡ s + t
bit_or_disjoint k m s t free whole fits =
    ap₂ bit_or split_s split_t
    ∙ bit_or_high k (s / 2 ^ k) (t / 2 ^ k) (s % 2 ^ k) (mod-lt s (one-le-pow k 2 (omega arith)))
    ∙ rw high (omega (arith, split_s, split_t))
  where
    split_s : s ≡ s / 2 ^ k * 2 ^ k + s % 2 ^ k
    split_s = omega (arith, div-add-mod s (2 ^ k))

    split_t : t ≡ t / 2 ^ k * 2 ^ k
    split_t = omega (arith, div-add-mod t (2 ^ k))

    high : bit_or (s / 2 ^ k) (t / 2 ^ k) ≡ s / 2 ^ k + t / 2 ^ k
    high =
        bit_or_sum m (s / 2 ^ k / 2 ^ m) (s / 2 ^ k) (t / 2 ^ k)
          (omega (arith, div-add-mod (s / 2 ^ k) (2 ^ m))) fits

-- The next field of a word that is being put together.
pub or_next :
    (k m : ℕ) {a s b t : ℕ}
    → a ≡ s
    → b ≡ t
    → s / 2 ^ k % 2 ^ m ≡ 0
    → t % 2 ^ k ≡ 0
    → t / 2 ^ k < 2 ^ m
    → bit_or a b ≡ s + t
or_next k m {a} {s} {b} {t} p q free whole fits =
    rw (p, q) (bit_or_disjoint k m s t free whole fits)

-- `|` of two words of k bits has k bits.
pub bit_or-lt : (k a b : ℕ) → a < 2 ^ k → b < 2 ^ k → bit_or a b < 2 ^ k
bit_or-lt zero a b p q =
    let e : a ≡ 0 = omega arith in let d : b ≡ 0 = omega arith in rw (e, d) (omega arith)
bit_or-lt (suc k) a b p q =
    let double : 2 ^ suc k ≡ 2 * 2 ^ k = omega (arith, mul-two_pow-suc 1 k) in
    omega (
      arith,
      double,
      bit_or-halves a b,
      bit_or-lt k (a / 2) (b / 2) (omega (arith, double)) (omega (arith, double)),
    )

-- The bits of `|`, one by one.
abbrev pub nth_bit : ℕ → ℕ → ℕ
nth_bit zero a = a % 2
nth_bit (suc k) a = nth_bit k (a / 2)

pub bit_or-nth_bit : (k a b : ℕ) → nth_bit k (bit_or a b) ≡ max (nth_bit k a) (nth_bit k b)
bit_or-nth_bit zero a b = ground (arith, bit_or-halves a b)
bit_or-nth_bit (suc k) a b =
    let half : bit_or a b / 2 ≡ bit_or (a / 2) (b / 2) = ground (arith, bit_or-halves a b) in
    rw half (bit_or-nth_bit k (a / 2) (b / 2))

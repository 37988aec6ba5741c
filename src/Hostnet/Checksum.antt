-- ===== src/Hostnet/Checksum.antt =====
-- The folding of the one's-complement sum.
use native.Mathlib.Decide.{dec_lt}
use mathlib.Core.Path.{ap}
use tab_linux.Base.{
  ℕ, suc, ◌+◌, ◌%◌, ◌^◌, ◌≤◌, ◌<◌, ◌≡◌, refl, ◌∙◌, some, arith, u32, shr, low_bits,
}
use tab_linux.Hostnet.{fold_sum}

-- One round on a sum of 32 bits keeps it modulo 65535 and leaves at most twice a word.
round-mod : (sum : ℕ) → (low_bits sum 16 + shr sum 16) % 65535 ≡ sum % 65535
round-mod sum = omega arith

round-bound : (sum : ℕ) → sum < 2 ^ 32 → low_bits sum 16 + shr sum 16 < 131071
round-bound sum fits = omega arith

second-bound : (sum : ℕ) → sum < 131071 → low_bits sum 16 + shr sum 16 < 2 ^ 16
second-bound sum fits = omega arith

u32_id : (n : ℕ) → n < 131071 → u32 n ≡ n
u32_id n fits = omega arith

fold_sum-stop : (fuel sum : ℕ) → sum < 2 ^ 16 → fold_sum (suc fuel) sum ≡ some sum
unfolding fold_sum
fold_sum-stop fuel sum fits = ground arith

fold_sum-next :
    (fuel sum : ℕ)
    → 2 ^ 16 ≤ sum
    → fold_sum (suc fuel) sum ≡ fold_sum fuel (u32 (low_bits sum 16 + shr sum 16))
unfolding fold_sum
fold_sum-next fuel sum large = ground arith

-- The loop ends on `sum` with its residue modulo 65535.
abbrev Folds : (fuel sum : ℕ) → Type 0
Folds fuel sum =
    (folded : ℕ) × (fold_sum fuel sum ≡ some folded)
    × (folded < 2 ^ 16)
    × (folded % 65535 ≡ sum % 65535)

Folds-stop : (fuel sum : ℕ) → sum < 2 ^ 16 → Folds (suc fuel) sum
Folds-stop fuel sum fits = (sum, fold_sum-stop fuel sum fits, fits, refl)

Folds-next :
    (fuel sum : ℕ)
    → 2 ^ 16 ≤ sum
    → low_bits sum 16 + shr sum 16 < 131071
    → Folds fuel (low_bits sum 16 + shr sum 16)
    → Folds (suc fuel) sum
Folds-next fuel sum large fits (folded, ends, small, same) = (
  folded,
  (fold_sum-next fuel sum large
      ∙ ap (fold_sum fuel) (u32_id (low_bits sum 16 + shr sum 16) fits)
      ∙ ends),
  small,
  (same ∙ round-mod sum),
)

Folds-second : (sum : ℕ) → sum < 131071 → Folds 2 sum
Folds-second sum fits = elim (dec_lt sum (2 ^ 16)) [
  | yes small ↦ Folds-stop 1 sum small
  | no large ↦
      Folds-next 1 sum (omega arith) (omega (arith, second-bound sum fits))
        (Folds-stop 0 (low_bits sum 16 + shr sum 16) (second-bound sum fits))
]

-- The loop of the checksum ends after at most two rounds for every 32-bit sum, with the one's-complement
-- sum: a 16-bit number that is the sum modulo 65535.
pub fold_sum-ends :
    (sum : ℕ)
    → sum < 2 ^ 32
    → (folded : ℕ) × (fold_sum 3 sum ≡ some folded)
      × (folded < 2 ^ 16)
      × (folded % 65535 ≡ sum % 65535)
fold_sum-ends sum fits = elim (dec_lt sum (2 ^ 16)) [
  | yes small ↦ Folds-stop 2 sum small
  | no large ↦
      Folds-next 2 sum (omega arith) (round-bound sum fits)
        (Folds-second (low_bits sum 16 + shr sum 16) (round-bound sum fits))
]

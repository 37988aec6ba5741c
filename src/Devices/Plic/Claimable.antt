-- ===== src/Devices/Plic/Claimable.antt =====
-- The bitmap of the claimable sources, the lines and the sources in service.
use native.Mathlib.Nat.{zero-div}
use tab_linux.Base.{
  ℕ, zero, suc, ◌-◌, ◌/◌, ◌%◌, ◌^◌, ◌<◌, bit_and, bit_or, ◌≡◌, refl, ◌≢◌, Bool, true, false, not,
  ◌&&◌, arith, ltb, ◌==◌, if◌then◌else◌, bit_and-digit, bit_or-digit,
}
use tab_linux.Devices.Plic.{
  bit_of, best, new_plic, plic_nsrc, plic_read, plic_write, put, same, write_enable, write_priority,
  write_threshold, claim, plic_complete, recalc_claimable, set_level, Plic,
}

-- The bit of a source in the bitmap.
abbrev pub claim_bit : Plic → ℕ → ℕ
claim_bit p irq = p.claimable (irq / 32) / 2 ^ (irq % 32) % 2

abbrev pub Agrees : Plic → ℕ → Type 0
Agrees p irq = claim_bit p irq ≡ (if p.level irq && not (p.claimed irq) then 1 else 0)

-- Every bit of the bitmap is right.
abbrev pub IsClaimable : Plic → Type 0
IsClaimable p = (irq : ℕ) → Agrees p irq

all_below : ℕ → (ℕ → Bool) → Bool
all_below zero test = true
all_below (suc n) test = test n && all_below n test

all_below_sound :
    (n : ℕ) (test : ℕ → Bool) (x : ℕ) → all_below n test ≡ true → x < n → test x ≡ true
unfolding all_below
all_below_sound zero test x h lt = absurd (omega arith)
all_below_sound (suc n) test x h lt = ground (arith, all_below_sound n test x)

abbrev set_digit : ℕ → ℕ → ℕ
set_digit b k = if b == k then 1 else 0

abbrev keep_digit : ℕ → ℕ → ℕ
keep_digit b k = if b == k then 0 else 1

abbrev digits_right : ℕ → ℕ → Bool
digits_right b k =
    (2 ^ b / 2 ^ k % 2 == set_digit b k) && ((2 ^ 32 - 1 - 2 ^ b) / 2 ^ k % 2 == keep_digit b k)

digits_table : all_below 32 (λ b. all_below 32 (digits_right b)) ≡ true
unfolding all_below
digits_table = refl

bit_digits : (b k : ℕ) → b < 32 → k < 32 → digits_right b k ≡ true
bit_digits b k hb hk =
    all_below_sound 32 (digits_right b) k
      (all_below_sound 32 (λ b. all_below 32 (digits_right b)) b digits_table hb) hk

small_bits : all_below 32 (λ b. ltb (2 ^ b) (2 ^ 32)) ≡ true
unfolding all_below
small_bits = refl

digit_of_bit : (b k : ℕ) → b < 32 → k < 32 → 2 ^ b / 2 ^ k % 2 ≡ set_digit b k
digit_of_bit b k hb hk = ground (arith, bit_digits b k hb hk)

digit_of_mask : (b k : ℕ) → b < 32 → k < 32 → (2 ^ 32 - 1 - 2 ^ b) / 2 ^ k % 2 ≡ keep_digit b k
digit_of_mask b k hb hk = ground (arith, bit_digits b k hb hk)

-- Setting and clearing bit b of a word.
set_bit :
    (b k word : ℕ)
    → b < 32
    → k < 32
    → bit_or word (2 ^ b) / 2 ^ k % 2 ≡ (if b == k then 1 else word / 2 ^ k % 2)
set_bit b k word hb hk = ground (arith, bit_or-digit k word (2 ^ b), digit_of_bit b k hb hk)

clear_bit :
    (b k word : ℕ)
    → b < 32
    → k < 32
    → bit_and word (2 ^ 32 - 1 - 2 ^ b) / 2 ^ k % 2 ≡ (if b == k then 0 else word / 2 ^ k % 2)
clear_bit b k word hb hk =
    ground (arith, bit_and-digit k word (2 ^ 32 - 1 - 2 ^ b), digit_of_mask b k hb hk)

pub bit_of-lt : (irq : ℕ) → bit_of irq < 2 ^ 32
bit_of-lt irq =
    ground
      (arith, all_below_sound 32 (λ b. ltb (2 ^ b) (2 ^ 32)) (irq % 32) small_bits (omega arith))

-- Recomputing one bit makes it right and leaves the others.
pub recalc_claimable-Agrees :
    (p : Plic) (irq i : ℕ) → (i ≢ irq → Agrees p i) → Agrees (recalc_claimable p irq) i
unfolding recalc_claimable
recalc_claimable-Agrees p irq i other = ground (
  arith,
  set_bit (irq % 32) (i % 32) (p.claimable (irq / 32)) (omega arith) (omega arith),
  clear_bit (irq % 32) (i % 32) (p.claimable (irq / 32)) (omega arith) (omega arith),
)

pub if_both {ℓ κ} :
    {A : Type ℓ} (P : A → Type κ) (b : Bool) {x y : A} → P x → P y → P (if b then x else y)
if_both P true h k = h
if_both P false h k = k

-- A change of the line or of the service of one source.
put_level-Agrees :
    (p : Plic) (irq i : ℕ) (level : Bool)
    → Agrees p i
    → i ≢ irq
    → Agrees (record p { level = put p.level irq level }) i
put_level-Agrees p irq i level h other = ground (arith, other)

put_claimed-Agrees :
    (p : Plic) (irq i : ℕ) (claimed : Bool)
    → Agrees p i
    → i ≢ irq
    → Agrees (record p { claimed = put p.claimed irq claimed }) i
put_claimed-Agrees p irq i claimed h other = ground (arith, other)

pub set_level-IsClaimable :
    (p : Plic) (irq : ℕ) (level : Bool) → IsClaimable p → IsClaimable (set_level p irq level)
unfolding set_level
set_level-IsClaimable p irq level inv i =
    if_both (λ q. Agrees q i) (same (p.level irq) level) (inv i)
      (recalc_claimable-Agrees (record p { level = put p.level irq level }) irq i
        (put_level-Agrees p irq i level (inv i)))

-- Taking a source into service or out of it.
serve-IsClaimable :
    (p : Plic) (irq : ℕ) (claimed : Bool)
    → IsClaimable p
    → IsClaimable (recalc_claimable (record p { claimed = put p.claimed irq claimed }) irq)
serve-IsClaimable p irq claimed inv i =
    recalc_claimable-Agrees (record p { claimed = put p.claimed irq claimed }) irq i
      (put_claimed-Agrees p irq i claimed (inv i))

pub claim-IsClaimable : (p : Plic) (ctx : ℕ) → IsClaimable p → IsClaimable (claim p ctx).1
unfolding claim
claim-IsClaimable p ctx inv =
    if_both (λ (r : ℕ × Plic). IsClaimable r.1) (best p ctx == 0) inv
      (serve-IsClaimable p (best p ctx) true inv)

pub plic_complete-IsClaimable :
    (p : Plic) (irq : ℕ) → IsClaimable p → IsClaimable (plic_complete p irq)
unfolding plic_complete
plic_complete-IsClaimable p irq inv =
    if_both IsClaimable (ltb irq plic_nsrc) (serve-IsClaimable p irq false inv) inv

pub new_plic-IsClaimable : IsClaimable new_plic
unfolding new_plic
new_plic-IsClaimable irq = ground (arith, zero-div (2 ^ (irq % 32)))

-- A read of a register keeps the bitmap right, whatever it claims.
pub plic_read-IsClaimable : (p : Plic) (off : ℕ) → IsClaimable p → IsClaimable (plic_read p off).1
unfolding plic_read
plic_read-IsClaimable p off inv =
    ground (arith, claim-IsClaimable p ((off - 0x200000) / 0x1000) inv)

pub plic_write-IsClaimable :
    (p : Plic) (off val : ℕ) → IsClaimable p → IsClaimable (plic_write p off val)
unfolding plic_write write_priority write_enable write_threshold
plic_write-IsClaimable p off val inv = ground (arith, inv, plic_complete-IsClaimable p val inv)

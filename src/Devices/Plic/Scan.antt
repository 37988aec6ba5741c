-- ===== src/Devices/Plic/Scan.antt =====
-- The loop over the set bits of a word visits them from the lowest on.
use tab_linux.Base.{
  ℕ, zero, suc, ◌+◌, ◌*◌, ◌/◌, ◌%◌, ◌^◌, ◌≤◌, ◌<◌, ◌≡◌, refl, ap, ◌∙◌, inl, inr, false, arith, ◌==◌,
  if◌then◌else◌, Bool-cases, shift_suc, odd_shift_pos, bit_and_lowest,
}
use tab_linux.Devices.Plic.{best, consider, scan_word, trailing_zeros, Best, Plic}

-- The same loop over all of n bits of a word, the first of which is that of source i.
unfoldable pub visit_bits : (n : ℕ) → Plic → (ctx i word : ℕ) → Best → Best
visit_bits zero p ctx i word b = b
visit_bits (suc n) p ctx i word b =
    visit_bits n p ctx (suc i) (word / 2) (if word % 2 == 1 then consider p ctx i b else b)

trailing_zeros_lem : (fuel b m : ℕ) → m % 2 ≡ 1 → b < fuel → trailing_zeros fuel (m * 2 ^ b) ≡ b
unfolding trailing_zeros
trailing_zeros_lem zero b m odd h = absurd (omega arith)
trailing_zeros_lem (suc fuel) zero m odd h = ground arith
trailing_zeros_lem (suc fuel) (suc b) m odd h =
    ground (arith, shift_suc m b, trailing_zeros_lem fuel b m odd (omega arith))

scan_word_zero :
    (fuel : ℕ) (p : Plic) (ctx w : ℕ) (best : Best) → scan_word fuel p ctx w 0 best ≡ best
unfolding scan_word
scan_word_zero zero p ctx w best = refl
scan_word_zero (suc fuel) p ctx w best = refl

-- A round at the lowest bit.
scan_word-odd :
    (fuel b m : ℕ) (p : Plic) (ctx w : ℕ) (acc : Best)
    → m % 2 ≡ 1
    → b < 32
    → scan_word (suc fuel) p ctx w (m * 2 ^ b) acc
      ≡ scan_word fuel p ctx w (m / 2 * 2 ^ suc b) (consider p ctx (w * 32 + b) acc)
unfolding scan_word
scan_word-odd fuel b m p ctx w acc odd h =
    let more : (m * 2 ^ b == 0) ≡ false = ground (arith, odd_shift_pos b m odd) in
    rw (more, bit_and_lowest b m odd, trailing_zeros_lem 32 b m odd h) refl

pub scan_word-visit_bits :
    (n fuel b m : ℕ) (p : Plic) (ctx w : ℕ) (acc : Best)
    → n + b ≡ 32
    → m < 2 ^ n
    → n ≤ fuel
    → scan_word fuel p ctx w (m * 2 ^ b) acc ≡ visit_bits n p ctx (w * 32 + b) m acc
unfolding visit_bits
scan_word-visit_bits zero fuel b m p ctx w acc e fits enough =
    let none_left : m * 2 ^ b ≡ 0 = let z : m ≡ 0 = omega arith in rw z (omega arith) in
    rw none_left (scan_word_zero fuel p ctx w acc)
scan_word-visit_bits (suc n) zero b m p ctx w acc e fits enough = absurd (omega arith)
scan_word-visit_bits (suc n) (suc fuel) b m p ctx w acc e fits enough =
    let half : m / 2 < 2 ^ n = omega (arith, shift_suc 1 n) in
    let up : w * 32 + suc b ≡ suc (w * 32 + b) = omega arith in
    elim (Bool-cases (m % 2 == 1)) [
      | inl odd ↦
          let one : m % 2 ≡ 1 = ground arith in
          rw odd (
            scan_word-odd fuel b m p ctx w acc one (omega arith)
            ∙ scan_word-visit_bits n fuel (suc b) (m / 2) p ctx w (consider p ctx (w * 32 + b) acc)
                (omega arith) half (omega arith)
            ∙ ap (λ (i : ℕ). visit_bits n p ctx i (m / 2) (consider p ctx (w * 32 + b) acc)) up)
      | inr even ↦
          let same_word : m * 2 ^ b ≡ m / 2 * 2 ^ suc b = omega (
            arith,
            shift_suc (m / 2) b,
            ap (λ (t : ℕ). t * 2 ^ b) (let d : m ≡ 2 * (m / 2) = ground arith in d),
          ) in
          rw even (
            ap (λ (bits : ℕ). scan_word (suc fuel) p ctx w bits acc) same_word
            ∙ scan_word-visit_bits n (suc fuel) (suc b) (m / 2) p ctx w acc (omega arith) half
                (omega arith)
            ∙ ap (λ (i : ℕ). visit_bits n p ctx i (m / 2) acc) up)
    ]

-- ===== src/Devices/Plic/Choice.antt =====
-- The source that `best` answers.
use native.Mathlib.Decide.{dec_lt}
use native.Mathlib.Nat.{pow-suc, div-div-eq-div-mul}
use tab_linux.Devices.Plic.Scan.{scan_word-visit_bits, visit_bits}
use tab_linux.Base.{
  ℕ, zero, suc, ◌+◌, ◌*◌, ◌/◌, ◌%◌, ◌^◌, ◌≤◌, ◌<◌, ◌≡◌, refl, sym, ap, ◌∙◌, subst, ◌≢◌, ◌⊎◌, inl,
  inr, true, not, ◌&&◌, ◌||◌, arith, ltb, ◌==◌, if◌then◌else◌, Bool-cases,
}
use tab_linux.Devices.Plic.{best, scan_word, consider, enabled, Best, Plic}
use tab_linux.Devices.Plic.Claimable.{claim_bit}

-- A source that the context can claim.
pub record Eligible (p : Plic) (ctx irq : ℕ) : Type 0 where
  pub named : irq ≢ 0
  pub waiting : claim_bit p irq ≡ 1
  pub enables : enabled p ctx irq ≡ true
  pub above : p.threshold ctx < p.priority irq

-- The best of the sources below a bound.
pub record IsBest (p : Plic) (ctx bound : ℕ) (b : Best) : Type 0 where
  pub upper : (i : ℕ) → i < bound → Eligible p ctx i → p.priority i ≤ b.prio
  pub first : (i : ℕ) → i < bound → Eligible p ctx i → p.priority i ≡ b.prio → b.source ≤ i
  pub chosen :
      ((b.source ≡ 0) × (b.prio ≡ 0))
      ⊎ (Eligible p ctx b.source × (b.source < bound) × (b.prio ≡ p.priority b.source))

half_down : (x k : ℕ) → x / 2 ^ k / 2 ≡ x / 2 ^ suc k
half_down x k = div-div-eq-div-mul x (2 ^ k) 2 ∙ ap (λ (d : ℕ). x / d) (omega (arith, pow-suc 2 k))

module _ (p : Plic) (ctx : ℕ) where
  -- What one more source does to the best.
  abbrev visited : ℕ → Best → Best
  visited i b = if claim_bit p i == 1 then consider p ctx i b else b

  -- A source is passed by, being no better, or becomes the best.
  visited-cases :
      (i : ℕ) (b : Best)
      → ((visited i b ≡ b) × (Eligible p ctx i → p.priority i ≤ b.prio))
        ⊎ (Eligible p ctx i
            × (b.prio < p.priority i)
            × (visited i b ≡ record { source = i; prio = p.priority i }))
  unfolding consider
  visited-cases i b = elim (Bool-cases (claim_bit p i == 1)) [
    | inr idle ↦ inl (rw idle refl, λ el. ground (arith, el.waiting))
    | inl bit ↦ elim (Bool-cases (i == 0 || not (enabled p ctx i))) [
      | inl barred ↦ inl (rw (bit, barred) refl, λ el. ground (arith, el.named, el.enables))
      | inr free ↦
          elim (Bool-cases (ltb (p.threshold ctx) (p.priority i) && ltb b.prio (p.priority i))) [
            | inr low ↦ inl (rw (bit, free, low) refl, λ el. ground (arith, el.above))
            | inl better ↦ inr (
              record {
                named = ground arith;
                waiting = ground arith;
                enables = ground arith;
                above = ground arith;
              },
              ground arith,
              rw (bit, free, better) refl,
            )
          ]
    ]
  ]

  visited-IsBest : (i : ℕ) (b : Best) → IsBest p ctx i b → IsBest p ctx (suc i) (visited i b)
  visited-IsBest i b h = elim (visited-cases i b) [
    | inl (same_best, no_better) ↦ rw same_best (record {
      upper = λ k lt el. elim (dec_lt k i) [
        | yes before ↦ h.upper k before el
        | no after ↦
            let e : k ≡ i = omega arith in
            omega (arith, ap p.priority e, no_better (subst (Eligible p ctx) e el))
      ];
      first = λ k lt el tie. elim (dec_lt k i) [
        | yes before ↦ h.first k before el tie
        | no after ↦ elim h.chosen [
          | inl nothing ↦ omega (arith, nothing.0)
          | inr found ↦ omega (arith, found.1)
        ]
      ];
      chosen = elim h.chosen [
        | inl nothing ↦ inl nothing
        | inr found ↦ inr (found.0, omega (arith, found.1), found.2)
      ];
    })
    | inr (el_i, better, new_best) ↦ rw new_best (record {
      upper = λ k lt el. elim (dec_lt k i) [
        | yes before ↦ omega (arith, h.upper k before el)
        | no after ↦ let e : k ≡ i = omega arith in omega (arith, ap p.priority e)
      ];
      first = λ k lt el tie. elim (dec_lt k i) [
        | yes before ↦ absurd (omega (arith, h.upper k before el))
        | no after ↦ omega arith
      ];
      chosen = inr (el_i, omega arith, refl);
    })
  ]

  -- The bits of one word of the bitmap from bit k on.
  visit_bits-IsBest :
      (n k w : ℕ) (b : Best)
      → n + k ≡ 32
      → IsBest p ctx (w * 32 + k) b
      → IsBest p ctx (w * 32 + 32) (visit_bits n p ctx (w * 32 + k) (p.claimable w / 2 ^ k) b)
  unfolding visit_bits
  visit_bits-IsBest zero k w b e h = let full : w * 32 + 32 ≡ w * 32 + k = omega arith in rw full h
  visit_bits-IsBest (suc n) k w b e h =
      let word : (w * 32 + k) / 32 ≡ w = omega arith in
      let bit : (w * 32 + k) % 32 ≡ k = omega arith in
      let up : suc (w * 32 + k) ≡ w * 32 + suc k = omega arith in
      let one : claim_bit p (w * 32 + k) ≡ p.claimable w / 2 ^ k % 2 = rw (word, bit) refl in
      let after : IsBest p ctx (w * 32 + suc k) (visited (w * 32 + k) b) =
        subst (λ t. IsBest p ctx t (visited (w * 32 + k) b)) up (visited-IsBest (w * 32 + k) b h) in
      let rest : IsBest p ctx (w * 32 + 32) (
          visit_bits n p ctx (w * 32 + suc k) (p.claimable w / 2 ^ suc k)
            (visited (w * 32 + k) b)) =
        visit_bits-IsBest n (suc k) w (visited (w * 32 + k) b) (omega arith) after in
      rw (sym one, half_down (p.claimable w) k, up) rest

abbrev pub AreWords32 : (ℕ → ℕ) → Type 0
AreWords32 words = (w : ℕ) → words w < 2 ^ 32

-- The loop of `best` over one word.
scan_word-IsBest :
    (p : Plic) (ctx : ℕ)
    → AreWords32 p.claimable
    → (w : ℕ) (b : Best) → IsBest p ctx (w * 32) b
    → IsBest p ctx (w * 32 + 32) (scan_word 32 p ctx w (p.claimable w) b)
scan_word-IsBest p ctx words w b h =
    let visits : scan_word 32 p ctx w (p.claimable w) b
        ≡ visit_bits 32 p ctx (w * 32 + 0) (p.claimable w / 2 ^ 0) b =
      ap (λ (m : ℕ). scan_word 32 p ctx w m b) (omega arith)
      ∙ scan_word-visit_bits 32 32 0 (p.claimable w) p ctx w b refl (words w) (omega arith)
      ∙ ap (λ (m : ℕ). visit_bits 32 p ctx (w * 32 + 0) m b) (omega arith) in
    let from_low : IsBest p ctx (w * 32 + 0) b = subst (λ t. IsBest p ctx t b) (omega arith) h in
    rw visits (visit_bits-IsBest p ctx 32 0 w b refl from_low)

-- The loops of `best` over the three words.
best-IsBest :
    (p : Plic) (ctx : ℕ)
    → AreWords32 p.claimable
    → (b : Best) × (best p ctx ≡ b.source) × IsBest p ctx 96 b
unfolding best
best-IsBest p ctx words = (third, refl, third-IsBest)
  where
    start : Best
    start = record { source = 0; prio = 0 }

    start-IsBest : IsBest p ctx 0 start
    start-IsBest = record {
      upper = λ i lt el. omega arith;
      first = λ i lt el tie. omega arith;
      chosen = inl (refl, refl);
    }

    first_word : Best
    first_word = scan_word 32 p ctx 0 (p.claimable 0) start

    second : Best
    second = scan_word 32 p ctx 1 (p.claimable 1) first_word

    third : Best
    third = scan_word 32 p ctx 2 (p.claimable 2) second

    third-IsBest : IsBest p ctx 96 third
    third-IsBest = scan_word-IsBest p ctx words 2 second (
        scan_word-IsBest p ctx words 1 first_word
          (scan_word-IsBest p ctx words 0 start start-IsBest))

-- A source that the context can claim is not better than the answer of `best`, which then is one too;
-- of equal priorities the answer has the lowest number.
pub best-outranks :
    (p : Plic) (ctx irq : ℕ)
    → AreWords32 p.claimable
    → irq < 96
    → Eligible p ctx irq
    → Eligible p ctx (best p ctx)
      × (best p ctx < 96)
      × ((p.priority irq < p.priority (best p ctx))
          ⊎ ((p.priority irq ≡ p.priority (best p ctx)) × (best p ctx ≤ irq)))
best-outranks p ctx irq words lt el =
    let (b, same_source, h) = best-IsBest p ctx words in
    rw same_source (elim h.chosen [
      | inl nothing ↦ absurd (omega (arith, h.upper irq lt el, el.above, nothing.1))
      | inr found ↦ (
        found.0,
        found.1,
        elim (dec_lt (p.priority irq) b.prio) [
          | yes less ↦ inl (omega (arith, found.2))
          | no more ↦
              let tie : p.priority irq ≡ b.prio = omega (arith, h.upper irq lt el) in
              inr (tie ∙ found.2, h.first irq lt el tie)
        ],
      )
    ])

-- If `best` answers a source, the context can claim it.
pub best-Eligible :
    (p : Plic) (ctx : ℕ)
    → AreWords32 p.claimable
    → best p ctx ≢ 0
    → Eligible p ctx (best p ctx) × (best p ctx < 96)
best-Eligible p ctx words found =
    let (b, same_source, h) = best-IsBest p ctx words in
    rw same_source (elim h.chosen [
      | inl nothing ↦ absurd (found (same_source ∙ nothing.0))
      | inr taken ↦ (taken.0, taken.1)
    ])

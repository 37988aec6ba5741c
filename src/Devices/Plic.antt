-- ===== src/Devices/Plic.antt =====
-- crates/riscv-devices/src/device_bus.rs: `Plic`, the interrupt controller. The arrays are functions from
-- the index; only the sources below 96, the contexts below 8 and the words below 3 exist.
pub mod Claimable
pub mod Scan
pub mod Choice
pub mod Service
pub mod Lines
use tab_linux.Base.{
  ℕ, zero, suc, ◌+◌, ◌-◌, ◌*◌, ◌/◌, ◌%◌, ◌^◌, bit_and, bit_or, Bool, true, false, not, ◌&&◌, ◌||◌,
  ltb, leb, ◌==◌, if◌then◌else◌, shr,
}

pub record Plic : Type 0 where
  pub priority : ℕ → ℕ
  pub level : ℕ → Bool
  pub claimed : ℕ → Bool
  pub enable : ℕ → ℕ → ℕ
  pub threshold : ℕ → ℕ
  pub claimable : ℕ → ℕ

abbrev pub plic_nsrc : ℕ
plic_nsrc = 96

abbrev pub plic_nctx : ℕ
plic_nctx = 8

abbrev pub plic_words : ℕ
plic_words = 3

unfoldable pub new_plic : Plic
new_plic = record {
  priority = λ i. 0;
  level = λ i. false;
  claimed = λ i. false;
  enable = λ ctx w. 0;
  threshold = λ ctx. 0;
  claimable = λ w. 0;
}

abbrev pub put {ℓ} : {A : Type ℓ} → (ℕ → A) → ℕ → A → ℕ → A
put a i v k = if i == k then v else a k

-- `1u32 << (irq % 32)`
abbrev pub bit_of : ℕ → ℕ
bit_of irq = 2 ^ (irq % 32)

unfoldable pub recalc_claimable : Plic → ℕ → Plic
recalc_claimable p irq =
    let word : ℕ = p.claimable (irq / 32) in
    record p {
      claimable = put p.claimable (irq / 32) (
          if p.level irq && not (p.claimed irq)
          then bit_or word (bit_of irq)
          else bit_and word (2 ^ 32 - 1 - bit_of irq));
    }

abbrev pub same : Bool → Bool → Bool
same true b = b
same false b = not b

unfoldable pub set_level : Plic → ℕ → Bool → Plic
set_level p irq level =
    if same (p.level irq) level
    then p
    else recalc_claimable (record p { level = put p.level irq level }) irq

unfoldable pub enabled : Plic → (ctx irq : ℕ) → Bool
enabled p ctx irq = ltb ctx plic_nctx && not (shr (p.enable ctx (irq / 32)) (irq % 32) % 2 == 0)

-- The number of zeros below the lowest bit of a word that is not zero.
unfoldable pub trailing_zeros : (fuel word : ℕ) → ℕ
trailing_zeros zero word = 0
trailing_zeros (suc fuel) word =
    let rest : ℕ = trailing_zeros fuel (word / 2) in if word % 2 == 1 then 0 else suc rest

-- The best source so far, and its priority.
pub record Best : Type 0 where
  pub source : ℕ
  pub prio : ℕ

-- One candidate of `best`.
unfoldable pub consider : Plic → (ctx irq : ℕ) → Best → Best
consider p ctx irq b =
    let prio : ℕ = p.priority irq in
    if irq == 0 || not (enabled p ctx irq)
    then b
    else if ltb (p.threshold ctx) prio && ltb b.prio prio
    then record { source = irq; prio = prio }
    else b

-- `while bits != 0`: a round clears the lowest bit, so 32 rounds are enough.
unfoldable pub scan_word : (fuel : ℕ) → Plic → (ctx w bits : ℕ) → Best → Best
scan_word zero p ctx w bits b = b
scan_word (suc fuel) p ctx w bits b =
    let rest : Best =
      scan_word fuel p ctx w (bit_and bits (bits - 1))
        (consider p ctx (w * 32 + trailing_zeros 32 bits) b) in
    if bits == 0 then b else rest

unfoldable pub best : Plic → (ctx : ℕ) → ℕ
best p ctx =
    let b₀ : Best = scan_word 32 p ctx 0 (p.claimable 0) (record { source = 0; prio = 0 }) in
    let b₁ : Best = scan_word 32 p ctx 1 (p.claimable 1) b₀ in
    (scan_word 32 p ctx 2 (p.claimable 2) b₁).source

-- `(i..n).any(test)`
unfoldable pub any_from : (count i : ℕ) → (ℕ → Bool) → Bool
any_from zero i test = false
any_from (suc count) i test = test i || any_from count (suc i) test

unfoldable pub any_pending : Plic → Bool
any_pending p =
    if p.claimable 0 == 0 && p.claimable 1 == 0 && p.claimable 2 == 0
    then false
    else any_from plic_nctx 0 (λ ctx. not (best p ctx == 0))

unfoldable pub claim : Plic → (ctx : ℕ) → ℕ × Plic
claim p ctx =
    let irq : ℕ = best p ctx in
    if irq == 0
    then (irq, p)
    else (irq, recalc_claimable (record p { claimed = put p.claimed irq true }) irq)

unfoldable pub plic_complete : Plic → (irq : ℕ) → Plic
plic_complete p irq =
    if ltb irq plic_nsrc
    then recalc_claimable (record p { claimed = put p.claimed irq false }) irq
    else p

-- The bitmap of the pending sources of a word, from bit b on.
unfoldable pub pending_bits : (count b word : ℕ) → Plic → ℕ
pending_bits zero b word p = 0
pending_bits (suc count) b word p =
    let irq : ℕ = word * 32 + b in
    bit_or (if p.level irq && not (p.claimed irq) then 2 ^ b else 0)
      (pending_bits count (suc b) word p)

-- A read of the register at an offset; the one of a claim claims.
unfoldable pub plic_read : Plic → (off : ℕ) → ℕ × Plic
plic_read p off =
    if ltb off 0x1000
    then (if ltb (off / 4) plic_nsrc then p.priority (off / 4) else 0, p)
    else if ltb off 0x2000
    then (
      if ltb ((off - 0x1000) / 4) plic_words then pending_bits 32 0 ((off - 0x1000) / 4) p else 0,
      p,
    )
    else if ltb off 0x200000
    then (
      let ctx : ℕ = (off - 0x2000) / 0x80 in
          let word : ℕ = (off - 0x2000) % 0x80 / 4 in
          if ltb ctx plic_nctx && ltb word plic_words then p.enable ctx word else 0,
      p,
    )
    else let ctx : ℕ = (off - 0x200000) / 0x1000 in
      let register : ℕ = (off - 0x200000) % 0x1000 in
      if leb 0x4000000 off || not (ltb ctx plic_nctx)
      then (0, p)
      else if register == 0
      then (p.threshold ctx, p)
      else if register == 4
      then claim p ctx
      else (0, p)

unfoldable pub write_priority : Plic → (irq val : ℕ) → Plic
write_priority p irq val =
    if ltb irq plic_nsrc then record p { priority = put p.priority irq val } else p

unfoldable pub write_enable : Plic → (ctx word val : ℕ) → Plic
write_enable p ctx word val =
    if ltb ctx plic_nctx && ltb word plic_words
    then record p { enable = put p.enable ctx (put (p.enable ctx) word val) }
    else p

unfoldable pub write_threshold : Plic → (ctx val : ℕ) → Plic
write_threshold p ctx val =
    if ltb ctx plic_nctx then record p { threshold = put p.threshold ctx val } else p

unfoldable pub plic_write : Plic → (off val : ℕ) → Plic
plic_write p off val =
    let register : ℕ = (off - 0x200000) % 0x1000 in
    if ltb off 0x1000
    then write_priority p (off / 4) val
    else if ltb off 0x2000
    then p
    else if ltb off 0x200000
    then write_enable p ((off - 0x2000) / 0x80) ((off - 0x2000) % 0x80 / 4) val
    else if leb 0x4000000 off
    then p
    else if register == 0
    then write_threshold p ((off - 0x200000) / 0x1000) val
    else if register == 4
    then plic_complete p val
    else p

-- ===== src/Devices/Plic/Service.antt =====
-- The states that the interrupt controller reaches, and the sources in service.
use tab_linux.Base.{
  ℕ, ◌-◌, ◌/◌, ◌^◌, ◌≡◌, sym, ap, ◌∙◌, ◌≢◌, Bool, true, false, List, [], ◌∷◌, arith, ltb, ◌==◌,
  bit_or-lt, bit_and-le,
}
use tab_linux.Devices.Plic.{
  best, bit_of, plic_nsrc, put, same, claim, new_plic, plic_complete, plic_read, plic_write,
  recalc_claimable, set_level, write_enable, write_priority, write_threshold, Plic,
}
use tab_linux.Devices.Plic.Claimable.{
  bit_of-lt, claim-IsClaimable, if_both, IsClaimable, new_plic-IsClaimable, plic_read-IsClaimable,
  plic_write-IsClaimable, set_level-IsClaimable,
}
use tab_linux.Devices.Plic.Choice.{Eligible, best-Eligible, AreWords32}

-- What the bus does to the controller.
pub data PlicOp : Type 0 where
  line : (irq : ℕ) (level : Bool) → PlicOp
  mmio_load : (off : ℕ) → PlicOp
  mmio_store : (off val : ℕ) → PlicOp

unfoldable pub plic_step : PlicOp → Plic → Plic
plic_step (PlicOp.line irq level) p = set_level p irq level
plic_step (PlicOp.mmio_load off) p = (plic_read p off).1
plic_step (PlicOp.mmio_store off val) p = plic_write p off val

unfoldable pub plic_run : List PlicOp → Plic → Plic
plic_run [] p = p
plic_run (op ∷ ops) p = plic_run ops (plic_step op p)

-- The bitmap agrees with the lines and the sources in service, and its words have 32 bits.
pub record IsSound (p : Plic) : Type 0 where
  pub bits : IsClaimable p
  pub words : AreWords32 p.claimable

recalc_claimable-words :
    (p : Plic) (irq : ℕ) → AreWords32 p.claimable → AreWords32 (recalc_claimable p irq).claimable
unfolding recalc_claimable
recalc_claimable-words p irq words w = ground (
  arith,
  words w,
  words (irq / 32),
  bit_or-lt 32 (p.claimable (irq / 32)) (bit_of irq) (words (irq / 32)) (bit_of-lt irq),
  bit_and-le (p.claimable (irq / 32)) (2 ^ 32 - 1 - bit_of irq),
)

set_level-words :
    (p : Plic) (irq : ℕ) (level : Bool)
    → AreWords32 p.claimable
    → AreWords32 (set_level p irq level).claimable
unfolding set_level
set_level-words p irq level words =
    if_both (λ (q : Plic). AreWords32 q.claimable) (same (p.level irq) level) words
      (recalc_claimable-words (record p { level = put p.level irq level }) irq words)

claim-words : (p : Plic) (ctx : ℕ) → AreWords32 p.claimable → AreWords32 (claim p ctx).1.claimable
unfolding claim
claim-words p ctx words =
    if_both (λ (r : ℕ × Plic). AreWords32 r.1.claimable) (best p ctx == 0) words
      (recalc_claimable-words (record p { claimed = put p.claimed (best p ctx) true }) (best p ctx)
        words)

plic_complete-words :
    (p : Plic) (irq : ℕ) → AreWords32 p.claimable → AreWords32 (plic_complete p irq).claimable
unfolding plic_complete
plic_complete-words p irq words =
    if_both (λ (q : Plic). AreWords32 q.claimable) (ltb irq plic_nsrc)
      (recalc_claimable-words (record p { claimed = put p.claimed irq false }) irq words) words

plic_read-words :
    (p : Plic) (off : ℕ) → AreWords32 p.claimable → AreWords32 (plic_read p off).1.claimable
unfolding plic_read
plic_read-words p off words w =
    ground (arith, words w, claim-words p ((off - 0x200000) / 0x1000) words w)

plic_write-words :
    (p : Plic) (off val : ℕ) → AreWords32 p.claimable → AreWords32 (plic_write p off val).claimable
unfolding plic_write write_priority write_enable write_threshold
plic_write-words p off val words w = ground (arith, words w, plic_complete-words p val words w)

pub plic_step-IsSound : (op : PlicOp) (p : Plic) → IsSound p → IsSound (plic_step op p)
unfolding plic_step
plic_step-IsSound (PlicOp.line irq level) p h = record {
  bits = set_level-IsClaimable p irq level h.bits;
  words = set_level-words p irq level h.words;
}
plic_step-IsSound (PlicOp.mmio_load off) p h = record {
  bits = plic_read-IsClaimable p off h.bits;
  words = plic_read-words p off h.words;
}
plic_step-IsSound (PlicOp.mmio_store off val) p h = record {
  bits = plic_write-IsClaimable p off val h.bits;
  words = plic_write-words p off val h.words;
}

-- Whatever the devices and the guest do to the controller, its bitmap keeps agreeing with the lines
-- and the sources in service.
pub plic_run-IsSound : (ops : List PlicOp) (p : Plic) → IsSound p → IsSound (plic_run ops p)
unfolding plic_run
plic_run-IsSound [] p h = h
plic_run-IsSound (op ∷ ops) p h = plic_run-IsSound ops (plic_step op p) (plic_step-IsSound op p h)

pub new_plic-IsSound : IsSound new_plic
unfolding new_plic
new_plic-IsSound = record { bits = new_plic-IsClaimable; words = λ w. omega arith }

claim-best : (p : Plic) (ctx : ℕ) → (claim p ctx).0 ≡ best p ctx
unfolding claim
claim-best p ctx = ground arith

claim-IsSound : (p : Plic) (ctx : ℕ) → IsSound p → IsSound (claim p ctx).1
claim-IsSound p ctx h = record {
  bits = claim-IsClaimable p ctx h.bits;
  words = claim-words p ctx h.words;
}

-- A source that a claim can answer is asserted and not in service.
Eligible-free :
    (p : Plic) (ctx irq : ℕ)
    → IsSound p
    → Eligible p ctx irq
    → (p.level irq ≡ true) × (p.claimed irq ≡ false)
Eligible-free p ctx irq h el = let bit = h.bits irq in ground (arith, el.waiting)

claim-claimed : (p : Plic) (ctx : ℕ) → best p ctx ≢ 0 → (claim p ctx).1.claimed (best p ctx) ≡ true
unfolding claim recalc_claimable
claim-claimed p ctx found = ground (arith, found)

claimed_again :
    (p : Plic) (ctx other : ℕ)
    → IsSound p
    → best p ctx ≢ 0
    → best (claim p ctx).1 other ≢ best p ctx
claimed_again p ctx other h found again =
    let sound : IsSound (claim p ctx).1 = claim-IsSound p ctx h in
    let el : Eligible (claim p ctx).1 other (best (claim p ctx).1 other) =
      (best-Eligible (claim p ctx).1 other sound.words (λ e. found (sym again ∙ e))).0 in
    let free = Eligible-free (claim p ctx).1 other (best (claim p ctx).1 other) sound el in
    cc (claim-claimed p ctx found, free.1, ap (claim p ctx).1.claimed again)

-- What a claim answers is asserted and was not in service, and then no context claims it.
pub claim-claim :
    (p : Plic) (ctx other : ℕ)
    → IsSound p
    → (claim p ctx).0 ≢ 0
    → (p.level (claim p ctx).0 ≡ true)
      × (p.claimed (claim p ctx).0 ≡ false)
      × ((claim (claim p ctx).1 other).0 ≢ (claim p ctx).0)
claim-claim p ctx other h found =
    let some_best : best p ctx ≢ 0 = λ e. found (claim-best p ctx ∙ e) in
    let free = Eligible-free p ctx (best p ctx) h (best-Eligible p ctx h.words some_best).0 in
    rw (claim-best p ctx) (
      free.0,
      free.1,
      λ again.
          claimed_again p ctx other h some_best (sym (claim-best (claim p ctx).1 other) ∙ again),
    )

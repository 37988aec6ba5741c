-- ===== src/Devices/Plic/Lines.antt =====
-- The lines of the interrupt controller and what is pending.
use native.Mathlib.Decide.{dec_lt}
use native.Mathlib.Nat.{zero-div}
use tab_linux.Base.{
  ℕ, zero, suc, ◌+◌, ◌/◌, ◌%◌, ◌^◌, ◌≤◌, ◌<◌, ◌≡◌, refl, sym, ap, ◌∙◌, ◌≢◌, Bool, true, false, not,
  arith, ◌==◌,
}
use tab_linux.Devices.Plic.{
  best, any_from, any_pending, enabled, plic_nctx, recalc_claimable, same, set_level, Plic,
}
use tab_linux.Supervisor.Hart.Privileged.Returns.{context}
use tab_linux.Devices.Plic.Service.{PlicOp, plic_step, plic_step-IsSound, IsSound}
use tab_linux.Devices.Plic.Claimable.{if_both}
use tab_linux.Devices.Plic.Choice.{best-outranks, Eligible}

-- What the guest has set up, and which sources are in service, is the same.
pub record SameSetup (p q : Plic) : Type 0 where
  pub priorities : p.priority ≡ q.priority
  pub enables : p.enable ≡ q.enable
  pub thresholds : p.threshold ≡ q.threshold
  pub services : p.claimed ≡ q.claimed

pub SameSetup-refl : (p : Plic) → SameSetup p p
SameSetup-refl p = record { priorities = refl; enables = refl; thresholds = refl; services = refl }

pub SameSetup-trans : (p q r : Plic) → SameSetup p q → SameSetup q r → SameSetup p r
SameSetup-trans p q r h k = record {
  priorities = h.priorities ∙ k.priorities;
  enables = h.enables ∙ k.enables;
  thresholds = h.thresholds ∙ k.thresholds;
  services = h.services ∙ k.services;
}

pub set_level-SameSetup : (p : Plic) (irq : ℕ) (level : Bool) → SameSetup p (set_level p irq level)
unfolding set_level recalc_claimable
set_level-SameSetup p irq level =
    if_both (λ (q : Plic). SameSetup p q) (same (p.level irq) level) (SameSetup-refl p)
      (record { priorities = refl; enables = refl; thresholds = refl; services = refl })

set_level-level : (p : Plic) (irq : ℕ) → (set_level p irq true).level irq ≡ true
unfolding set_level recalc_claimable
set_level-level p irq = ground arith

any_from-true :
    (count i ctx : ℕ) (test : ℕ → Bool)
    → i ≤ ctx
    → ctx < i + count
    → test ctx ≡ true
    → any_from count i test ≡ true
unfolding any_from
any_from-true zero i ctx test low high h = absurd (omega arith)
any_from-true (suc count) i ctx test low high h = elim (dec_lt i ctx) [
  | yes later ↦ ground (arith, any_from-true count (suc i) ctx test later (omega arith) h)
  | no now ↦ let e : i ≡ ctx = omega arith in rw (e, h) refl
]

nonzero_digit : (x k : ℕ) → x / 2 ^ k % 2 ≡ 1 → x ≢ 0
nonzero_digit x k one zero_x =
    omega (arith, sym one ∙ ap (λ (t : ℕ). t / 2 ^ k % 2) zero_x, zero-div (2 ^ k))

-- A context that has a source to claim makes the controller pending.
any_pending-Eligible :
    (p : Plic) (ctx irq : ℕ)
    → IsSound p
    → irq < 32
    → ctx < plic_nctx
    → Eligible p ctx irq
    → any_pending p ≡ true
unfolding any_pending
any_pending-Eligible p ctx irq h small context el =
    let top = best-outranks p ctx irq h.words (omega arith) el in
    let answered : not (best p ctx == 0) ≡ true = ground (arith, top.0.named) in
    let word : irq / 32 ≡ 0 = omega arith in
    let one : p.claimable 0 / 2 ^ (irq % 32) % 2 ≡ 1 =
      ap (λ (w : ℕ). p.claimable w / 2 ^ (irq % 32) % 2) (sym word) ∙ el.waiting in
    let busy : p.claimable 0 ≢ 0 = nonzero_digit (p.claimable 0) (irq % 32) one in
    ground (
      arith,
      busy,
      any_from-true plic_nctx 0 ctx (λ c. not (best p c == 0)) (omega arith) context answered,
    )

-- The source is ready but for its line: not in service, enabled and above the threshold.
pub record IsReady (p : Plic) (ctx irq : ℕ) : Type 0 where
  pub idle : p.claimed irq ≡ false
  pub enables : enabled p ctx irq ≡ true
  pub above : p.threshold ctx < p.priority irq

pub IsReady-SameSetup :
    (p q : Plic) (ctx irq : ℕ) → SameSetup p q → IsReady p ctx irq → IsReady q ctx irq
unfolding enabled
IsReady-SameSetup p q ctx irq s h = record {
  idle = ap (λ (f : ℕ → Bool). f irq) (sym s.services) ∙ h.idle;
  enables = rw (sym s.enables) h.enables;
  above = rw (sym s.thresholds, sym s.priorities) h.above;
}

-- Asserting the line of a source that is ready makes the controller pending.
pub any_pending-set_level :
    (p : Plic) (ctx irq : ℕ)
    → IsSound p
    → irq ≢ 0
    → irq < 32
    → ctx < plic_nctx
    → IsReady p ctx irq
    → any_pending (set_level p irq true) ≡ true
unfolding plic_step
any_pending-set_level p ctx irq h named small context ready =
    let q : Plic = set_level p irq true in
    let sound : IsSound q = plic_step-IsSound (PlicOp.line irq true) p h in
    let still : IsReady q ctx irq =
      IsReady-SameSetup p q ctx irq (set_level-SameSetup p irq true) ready in
    let bit = sound.bits irq in
    any_pending-Eligible q ctx irq sound small context (record {
      named = named;
      waiting = ground (arith, bit, set_level-level p irq, still.idle);
      enables = still.enables;
      above = still.above;
    })

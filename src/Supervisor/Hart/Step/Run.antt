-- ===== src/Supervisor/Hart/Step/Run.antt =====
-- Any number of steps of the hart.
use tab_linux.Base.{ℕ, zero, suc, ◌^◌, ◌<◌, refl, ◌≢◌, Option, none, some, arith, ◌>>=◌}
use tab_linux.Supervisor.Hart.Step.Invariant.{OutcomeInRange, step-OutcomeInRange}
use tab_linux.Supervisor.Hart.Step.{step}
use tab_linux.Cpu.{Bus, Cpu, FpResult}
use tab_linux.Supervisor.Hart.LoadStore.{HartOutcome}
use tab_linux.Supervisor.Hart.Step.Safety.{CacheInRange, step-ne-none}
use tab_linux.Supervisor.Hart.{Hart}
use tab_linux.Isa.{Status}

module _ {M : Type 0} (bus : Bus M) (fpu : Cpu → ℕ → FpResult × Cpu) where
  -- The hart after the given number of steps; `none` is a panic in one of them.
  unfoldable pub run : ℕ → Hart → M → Option (Hart × M)
  run zero h m = some (h, m)
  run (suc n) h m = do (s, h', m') ← step bus fpu h m; run n h' m'

  pub run-ne-none :
      ((m : M) (a : ℕ) → bus.read_u16 m a < 2 ^ 16)
      → (n : ℕ) (h : Hart) (m : M) → CacheInRange h
      → run n h m ≢ none
  unfolding run
  run-ne-none narrow zero h m cached = ground arith
  run-ne-none narrow (suc n) h m cached =
      onward (step bus fpu h m) (step-ne-none bus fpu narrow h m cached)
        (step-OutcomeInRange bus fpu narrow h m cached) (run-ne-none narrow n)
    where
      onward :
          (o : HartOutcome M)
          → o ≢ none
          → OutcomeInRange o
          → ((h' : Hart) (m' : M) → CacheInRange h' → run n h' m' ≢ none)
          → (o >>= λ (left : Status × Hart × M). run n left.1 left.2) ≢ none
      onward none total fine later = absurd (total refl)
      onward (some (s, h', m')) total fine later = later h' m' fine

-- ===== src/Supervisor/Hart/Interrupts/Soundness.antt =====
-- The interrupt that is taken, and the registers that allow it.
use tab_linux.Base.{
  ℕ, ◌-◌, ◌^◌, bit_and, ◌≡◌, refl, ◌⊎◌, inl, inr, Bool, true, false, not, ◌&&◌, Option, none, some,
  arith, if◌then◌else◌, bit_and-digit,
}
use tab_linux.Supervisor.{flag_of}
use tab_linux.Isa.{Interrupt, Trap}
use tab_linux.Supervisor.Hart.Traps.{interrupt_code}
use tab_linux.Supervisor.Hart.Interrupts.{
  is_machine, check_interrupts, m_enabled, s_enabled, delegated_interrupt, machine_interrupt,
}
use tab_linux.Supervisor.Hart.{Hart}
use tab_linux.Supervisor.Hart.Csr.{without}
use tab_linux.Devices.Plic.{enabled}

flag_of-bit_and :
    (x y k : ℕ) → flag_of (bit_and x y) k ≡ true → (flag_of x k ≡ true) × (flag_of y k ≡ true)
flag_of-bit_and x y k set = let digit = bit_and-digit k x y in ground arith

-- The bits for which an interrupt is answered: a timer interrupt of the supervisor is also answered
-- for the delegated timer interrupt of the machine.
abbrev pub Source : Interrupt → ℕ → Type 0
Source Interrupt.supervisor_timer k = (k ≡ 5) ⊎ (k ≡ 7)
Source i k = k ≡ interrupt_code i

-- A bit that is taken out of 64 bits is not one of the mask.
abbrev Clears : ℕ → Type 0
Clears k = (y : ℕ) → flag_of (2 ^ 64 - 1 - y) k ≡ true → flag_of y k ≡ false

abbrev Answers : (bits : ℕ) → Option Trap → Type 0
Answers bits none = Unit
Answers bits (some (Trap.exception e)) = ⊥
Answers bits (some (Trap.interrupt i)) = (k : ℕ) × Source i k × Clears k × (flag_of bits k ≡ true)

-- One test of the source, whose bit is answered with an interrupt of it.
tested-Answers :
    (bits k : ℕ) (i : Interrupt) (later : Option Trap)
    → Source i k
    → Clears k
    → Answers bits later
    → Answers bits (if flag_of bits k then some (Trap.interrupt i) else later)
tested-Answers bits k i later source clears rest = subst_test (flag_of bits k) refl
  where
    subst_test :
        (b : Bool)
        → flag_of bits k ≡ b
        → Answers bits (if b then some (Trap.interrupt i) else later)
    subst_test true e = (k, source, clears, e)
    subst_test false e = rest

delegated_interrupt-Answers : (bits : ℕ) → Answers bits (delegated_interrupt bits)
unfolding delegated_interrupt
delegated_interrupt-Answers bits =
    tested-Answers bits 7 Interrupt.supervisor_timer _ (inr refl) (λ y set. ground arith)
      (tested-Answers bits 5 Interrupt.supervisor_timer _ (inl refl) (λ y set. ground arith)
        (tested-Answers bits 1 Interrupt.supervisor_software _ refl (λ y set. ground arith)
          (tested-Answers bits 9 Interrupt.supervisor_external none refl (λ y set. ground arith)
            tt)))

machine_interrupt-Answers : (bits : ℕ) → Answers bits (machine_interrupt bits)
unfolding machine_interrupt
machine_interrupt-Answers bits =
    tested-Answers bits 11 Interrupt.machine_external _ refl (λ y set. ground arith)
      (tested-Answers bits 3 Interrupt.machine_software _ refl (λ y set. ground arith)
        (tested-Answers bits 7 Interrupt.machine_timer _ refl (λ y set. ground arith)
          (tested-Answers bits 9 Interrupt.supervisor_external _ refl (λ y set. ground arith)
            (tested-Answers bits 1 Interrupt.supervisor_software _ refl (λ y set. ground arith)
              (tested-Answers bits 5 Interrupt.supervisor_timer none (inl refl)
                (λ y set. ground arith) tt)))))

-- What the interrupt i of check_interrupts says of the hart, of the bit k for which it is answered.
abbrev pub Takes : Hart → Option Trap → Type 0
Takes h none = Unit
Takes h (some (Trap.exception e)) = ⊥
Takes h (some (Trap.interrupt i)) =
    (k : ℕ) × Source i k
    × (flag_of h.mip k ≡ true)
    × (flag_of h.mie k ≡ true)
    × (((flag_of h.mideleg k ≡ true) × (s_enabled h ≡ true) × (is_machine h.priv_level ≡ false))
        ⊎ ((flag_of h.mideleg k ≡ false) × (m_enabled h ≡ true)))

Takes-delegated :
    (h : Hart) (o : Option Trap)
    → s_enabled h ≡ true
    → is_machine h.priv_level ≡ false
    → Answers (bit_and (bit_and h.mip h.mie) h.mideleg) o
    → Takes h o
Takes-delegated h none enabled below answered = tt
Takes-delegated h (some (Trap.exception e)) enabled below answered = absurd answered
Takes-delegated h (some (Trap.interrupt i)) enabled below (k, source, clears, set) =
    let (pending, delegated) = flag_of-bit_and (bit_and h.mip h.mie) h.mideleg k set in
    let (raised, allowed) = flag_of-bit_and h.mip h.mie k pending in
    (k, source, raised, allowed, inl (delegated, enabled, below))

Takes-machine :
    (h : Hart) (o : Option Trap)
    → m_enabled h ≡ true
    → Answers (without (bit_and h.mip h.mie) h.mideleg) o
    → Takes h o
Takes-machine h none enabled answered = tt
Takes-machine h (some (Trap.exception e)) enabled answered = absurd answered
Takes-machine h (some (Trap.interrupt i)) enabled (k, source, clears, set) =
    let (pending, kept) = flag_of-bit_and (bit_and h.mip h.mie) (2 ^ 64 - 1 - h.mideleg) k set in
    let (raised, allowed) = flag_of-bit_and h.mip h.mie k pending in
    (k, source, raised, allowed, inr (clears h.mideleg kept, enabled))

Takes-guarded :
    (h : Hart) (b : Bool) (o : Option Trap)
    → (b ≡ true → Takes h o)
    → Takes h (if b then o else none)
Takes-guarded h true o takes = takes refl
Takes-guarded h false o takes = tt

Takes-first :
    (h : Hart) (o later : Option Trap)
    → Takes h o
    → Takes h later
    → Takes h (elim o [ none ↦ later | some t ↦ some t ])
Takes-first h none later takes last = last
Takes-first h (some t) later takes last = takes

Takes-unless : (h : Hart) (b : Bool) (o : Option Trap) → Takes h o → Takes h (if b then none else o)
Takes-unless h true o takes = tt
Takes-unless h false o takes = takes

-- What check_interrupts answers is an interrupt, never an exception, that is answered for a bit that is
-- pending in mip and enabled in mie. If the bit is delegated, the hart is below machine mode and
-- supervisor interrupts are enabled, by user mode or by SIE; if not, machine interrupts are, by a mode
-- below machine mode or by MIE. The bit is the one of the interrupt, or, of the supervisor timer, that of
-- the machine timer.
pub check_interrupts-Takes : (h : Hart) → Takes h (check_interrupts h)
unfolding check_interrupts
check_interrupts-Takes h = Takes-unless h _ _ (
    Takes-first h _ _
      (Takes-guarded h (s_enabled h && not (is_machine h.priv_level)) _
        (λ e. Takes-delegated h _ (ground arith) (ground arith) (delegated_interrupt-Answers _)))
      (Takes-guarded h (m_enabled h) _ (λ e. Takes-machine h _ e (machine_interrupt-Answers _))))

-- ===== src/Supervisor/Hart/Privileged/Returns.antt =====
-- A trap and the return from it.
use tab_linux.Base.{
  ℕ, ◌%◌, ◌≡◌, refl, ap, ◌∙◌, ◌≢◌, Bool, true, false, not, ◌&&◌, Option, arith, if◌then◌else◌,
}
use tab_linux.Supervisor.Hart.Traps.{
  trap_to_machine, delegates, enter_trap, take_trap_with_vaddr, trap_to_supervisor, vector,
}
use tab_linux.Supervisor.{MStatus, Privilege}
use tab_linux.Isa.{Trap}
use tab_linux.Supervisor.Hart.{Hart}
use tab_linux.Supervisor.Hart.Csr.{priv_code, record_phys_transition}
use tab_linux.Supervisor.Hart.Privileged.{do_mret, do_sret, priv_level_from_mpp, return_to}
use tab_linux.Cpu.Arms.{clear_last}
use tab_linux.Supervisor.Mmu.{is_supervisor}
use tab_linux.Supervisor.Hart.Interrupts.{is_machine}

priv_level_from_mpp-priv_code : (p : Privilege) → priv_level_from_mpp (priv_code p) ≡ p
unfolding priv_level_from_mpp
priv_level_from_mpp-priv_code Privilege.user = refl
priv_level_from_mpp-priv_code Privilege.supervisor = refl
priv_level_from_mpp-priv_code Privilege.machine = refl

-- The privilege, the PC, the general registers and the two interrupt enables of a hart.
abbrev pub Context : Type 0
Context = Privilege × ℕ × (ℕ → ℕ) × Bool × Bool

abbrev pub context : Hart → Context
context h = (h.priv_level, h.cpu.pc, h.cpu.x, h.mstatus.sie, h.mstatus.mie)

return_to-context :
    (target : ℕ) (h : Hart)
    → context (return_to target h) ≡ (h.priv_level, target, h.cpu.x, h.mstatus.sie, h.mstatus.mie)
unfolding return_to record_phys_transition
return_to-context target h = ground arith

-- Vectoring changes the PC only.
abbrev status_of : Hart → MStatus × ℕ × ℕ × (ℕ → ℕ)
status_of h = (h.mstatus, h.sepc, h.mepc, h.cpu.x)

vector-status_of : (t : Trap) (h : Hart) → status_of (vector t h) ≡ status_of h
unfolding vector
vector-status_of t h = ground arith

supervisor_again :
    (p : Privilege)
    → p ≢ Privilege.machine
    → (if is_supervisor p then Privilege.supervisor else Privilege.user) ≡ p
supervisor_again Privilege.user below = refl
supervisor_again Privilege.supervisor below = refl
supervisor_again Privilege.machine below = absurd (below refl)

do_sret-context :
    (h : Hart)
    → context (do_sret h).1 ≡ (
      if h.mstatus.spp then Privilege.supervisor else Privilege.user,
      clear_last h.sepc,
      h.cpu.x,
      h.mstatus.spie,
      h.mstatus.mie,
    )
unfolding do_sret
do_sret-context h = return_to-context _ _

do_mret-context :
    (h : Hart)
    → context (do_mret h).1 ≡ (
      priv_level_from_mpp h.mstatus.mpp,
      clear_last h.mepc,
      h.cpu.x,
      h.mstatus.sie,
      h.mstatus.mpie,
    )
unfolding do_mret
do_mret-context h = return_to-context _ _

abbrev trapped : Trap → Option ℕ → Hart → Hart
trapped t fault_vaddr h = (take_trap_with_vaddr t fault_vaddr h).1

-- What the return finds is what the trap left, wherever it was vectored to.
trapped-status_of :
    (t : Trap) (fault_vaddr : Option ℕ) (h : Hart)
    → status_of (trapped t fault_vaddr h)
      ≡ status_of (enter_trap t fault_vaddr (record h { trap_delivered = true }))
unfolding take_trap_with_vaddr
trapped-status_of t fault_vaddr h = vector-status_of t _

even_pc : (pc : ℕ) → pc % 2 ≡ 0 → clear_last pc ≡ pc
unfolding clear_last
even_pc pc even = omega arith

below_machine : (p : Privilege) → p ≢ Privilege.machine → is_machine p ≡ false
below_machine Privilege.user below = refl
below_machine Privilege.supervisor below = refl
below_machine Privilege.machine below = absurd (below refl)

-- A trap that is delegated to supervisor mode, taken below machine mode at an even PC, is undone by
-- sret: the privilege, the PC, the general registers and both interrupt enables are as before the
-- trap.
pub do_sret-take_trap :
    (t : Trap) (fault_vaddr : Option ℕ) (h : Hart)
    → delegates h.medeleg h.mideleg t ≡ true
    → h.priv_level ≢ Privilege.machine
    → h.cpu.pc % 2 ≡ 0
    → context (do_sret (take_trap_with_vaddr t fault_vaddr h).1).1 ≡ context h
unfolding enter_trap trap_to_supervisor
do_sret-take_trap t fault_vaddr h delegated below even =
    do_sret-context (trapped t fault_vaddr h)
    ∙ ap
        (λ (s : MStatus × ℕ × ℕ × (ℕ → ℕ)). (
          if s.0.spp then Privilege.supervisor else Privilege.user,
          clear_last s.1,
          s.3,
          s.0.spie,
          s.0.mie,
        ))
        (trapped-status_of t fault_vaddr h)
    ∙ rw
        (
          delegated,
          below_machine h.priv_level below,
          supervisor_again h.priv_level below,
          even_pc h.cpu.pc even,
        )
        refl

-- A trap that is not delegated, or is taken in machine mode, at an even PC, is undone by mret: the
-- privilege, the PC, the general registers and both interrupt enables are as before the trap.
pub do_mret-take_trap :
    (t : Trap) (fault_vaddr : Option ℕ) (h : Hart)
    → delegates h.medeleg h.mideleg t && not (is_machine h.priv_level) ≡ false
    → h.cpu.pc % 2 ≡ 0
    → context (do_mret (take_trap_with_vaddr t fault_vaddr h).1).1 ≡ context h
unfolding enter_trap trap_to_machine
do_mret-take_trap t fault_vaddr h stays even =
    do_mret-context (trapped t fault_vaddr h)
    ∙ ap
        (λ (s : MStatus × ℕ × ℕ × (ℕ → ℕ)).
          (priv_level_from_mpp s.0.mpp, clear_last s.2, s.3, s.0.sie, s.0.mpie))
        (trapped-status_of t fault_vaddr h)
    ∙ rw (stays, priv_level_from_mpp-priv_code h.priv_level, even_pc h.cpu.pc even) refl

-- ===== src/Supervisor/Hart/Interrupts.antt =====
-- crates/riscv-supervisor/src/supervisor.rs: which interrupt is taken.
pub mod Soundness
use tab_linux.Base.{
  ℕ, ◌^◌, bit_and, bit_or, Bool, true, false, not, ◌&&◌, ◌||◌, Option, none, some, leb, ◌==◌,
  if◌then◌else◌,
}
use tab_linux.Isa.{Trap, Interrupt}
use tab_linux.Cpu.{Bus}
use tab_linux.Supervisor.{flag_of, Privilege}
use tab_linux.Supervisor.Hart.{Hart}
use tab_linux.Supervisor.Hart.Csr.{without}
use tab_linux.Supervisor.Mmu.{is_supervisor}

-- `if on { x |= 1 << k } else { x &= !(1 << k) }`
abbrev pub put_bit : ℕ → ℕ → Bool → ℕ
put_bit x k on = if on then bit_or x (2 ^ k) else without x (2 ^ k)

module _ {M : Type 0} (bus : Bus M) where
  unfoldable pub sync_device_interrupts : M → Hart → Hart
  sync_device_interrupts m h =
      let timer_fired : Bool = bus.check_timer_interrupt m || leb h.stimecmp (bus.read_mtime m) in
      record h { mip = put_bit (put_bit h.mip 5 timer_fired) 9 (bus.check_external_interrupt m) }

abbrev pub is_user : Privilege → Bool
is_user Privilege.user = true
is_user _ = false

abbrev pub is_machine : Privilege → Bool
is_machine Privilege.machine = true
is_machine _ = false

abbrev interrupt : Interrupt → Option Trap
interrupt i = some (Trap.interrupt i)

-- The first that is pending of the delegated ones.
unfoldable pub delegated_interrupt : ℕ → Option Trap
delegated_interrupt delegated =
    if flag_of delegated 7
    then interrupt Interrupt.supervisor_timer
    else if flag_of delegated 5
    then interrupt Interrupt.supervisor_timer
    else if flag_of delegated 1
    then interrupt Interrupt.supervisor_software
    else if flag_of delegated 9
    then interrupt Interrupt.supervisor_external
    else none

-- The first that is pending of those that machine mode takes.
unfoldable pub machine_interrupt : ℕ → Option Trap
machine_interrupt m_pending =
    if flag_of m_pending 11
    then interrupt Interrupt.machine_external
    else if flag_of m_pending 3
    then interrupt Interrupt.machine_software
    else if flag_of m_pending 7
    then interrupt Interrupt.machine_timer
    else if flag_of m_pending 9
    then interrupt Interrupt.supervisor_external
    else if flag_of m_pending 1
    then interrupt Interrupt.supervisor_software
    else if flag_of m_pending 5
    then interrupt Interrupt.supervisor_timer
    else none

unfoldable pub m_enabled : Hart → Bool
m_enabled h = not (is_machine h.priv_level) || h.mstatus.mie

unfoldable pub s_enabled : Hart → Bool
s_enabled h = is_user h.priv_level || is_supervisor h.priv_level && h.mstatus.sie

unfoldable pub check_interrupts : Hart → Option Trap
check_interrupts h =
    let pending : ℕ = bit_and h.mip h.mie in
    let m_pending : ℕ = without pending h.mideleg in
    let by_machine : Option Trap = if m_enabled h then machine_interrupt m_pending else none in
    let by_supervisor : Option Trap =
      if s_enabled h && not (is_machine h.priv_level)
      then delegated_interrupt (bit_and pending h.mideleg)
      else none in
    if pending == 0 then none else elim by_supervisor [ none ↦ by_machine | some t ↦ some t ]

module _ {M : Type 0} (bus : Bus M) where
  unfoldable pub interrupt_pending : M → Hart → Bool × Hart
  interrupt_pending m h =
      let synced : Hart = sync_device_interrupts bus m h in
      (elim (check_interrupts synced) [ some t ↦ true | none ↦ false ], synced)

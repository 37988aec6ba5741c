-- ===== src/Supervisor/Hart/Traps.antt =====
-- crates/riscv-supervisor/src/supervisor.rs: `take_trap_with_vaddr`, which enters a trap.
use tab_linux.Base.{
  ℕ, ◌+◌, ◌*◌, ◌^◌, bit_or, Bool, true, false, not, ◌&&◌, ◌||◌, Option, none, some, ◌==◌,
  if◌then◌else◌, u64, shr, low_bits,
}
use tab_linux.Isa.{Exception, Interrupt, Trap, Status}
use tab_linux.Supervisor.Hart.{Diagnostics, Hart}
use tab_linux.Cpu.Values.{wrapping_add}
use tab_linux.Supervisor.Hart.Csr.{priv_code, without}
use tab_linux.Supervisor.Mmu.{is_supervisor}
use tab_linux.Cpu.Arms.{clear_last}
use tab_linux.Supervisor.Hart.Interrupts.{is_machine}
use tab_linux.Supervisor.{Privilege, flag_of}

-- `e as u64` and `i as u64`.
abbrev pub exception_code : Exception → ℕ
exception_code Exception.instruction_address_misaligned = 0
exception_code Exception.instruction_access_fault = 1
exception_code Exception.illegal_instruction = 2
exception_code Exception.breakpoint = 3
exception_code Exception.load_address_misaligned = 4
exception_code Exception.load_access_fault = 5
exception_code Exception.store_address_misaligned = 6
exception_code Exception.store_access_fault = 7
exception_code Exception.environment_call_from_u = 8
exception_code Exception.environment_call_from_s = 9
exception_code Exception.environment_call_from_m = 11
exception_code Exception.instruction_page_fault = 12
exception_code Exception.load_page_fault = 13
exception_code Exception.store_page_fault = 15

abbrev pub interrupt_code : Interrupt → ℕ
interrupt_code Interrupt.supervisor_software = 1
interrupt_code Interrupt.machine_software = 3
interrupt_code Interrupt.supervisor_timer = 5
interrupt_code Interrupt.machine_timer = 7
interrupt_code Interrupt.supervisor_external = 9
interrupt_code Interrupt.machine_external = 11

unfoldable pub cause_of : Trap → ℕ
cause_of (Trap.exception e) = exception_code e
cause_of (Trap.interrupt i) = bit_or (2 ^ 63) (interrupt_code i)

-- Whether the delegation registers send the trap to supervisor mode.
unfoldable pub delegates : (medeleg mideleg : ℕ) → Trap → Bool
delegates medeleg mideleg (Trap.exception Exception.environment_call_from_m) = false
delegates medeleg mideleg (Trap.exception e) = flag_of medeleg (exception_code e)
delegates medeleg mideleg (Trap.interrupt Interrupt.supervisor_software) = flag_of mideleg 1
delegates medeleg mideleg (Trap.interrupt Interrupt.supervisor_timer) =
    flag_of mideleg 5 || flag_of mideleg 7
delegates medeleg mideleg (Trap.interrupt Interrupt.supervisor_external) = flag_of mideleg 9
delegates medeleg mideleg (Trap.interrupt i) = false

abbrev pub is_page_fault : Trap → Bool
is_page_fault (Trap.exception Exception.instruction_page_fault) = true
is_page_fault (Trap.exception Exception.load_page_fault) = true
is_page_fault (Trap.exception Exception.store_page_fault) = true
is_page_fault t = false

abbrev pub is_interrupt : Trap → Bool
is_interrupt (Trap.interrupt i) = true
is_interrupt (Trap.exception e) = false

abbrev unwrap_or : ℕ → Option ℕ → ℕ
unwrap_or d none = d
unwrap_or d (some a) = a

-- `if is_page_fault { fault_vaddr.unwrap_or(0) } else { 0 }`
unfoldable pub tval : Trap → Option ℕ → ℕ
tval t fault_vaddr = if is_page_fault t then unwrap_or 0 fault_vaddr else 0

-- `if let Trap::Interrupt(i) = trap { match i { .. => self.mip &= !(1 << ..) } }`
unfoldable pub clear_pending : Trap → ℕ → ℕ
clear_pending (Trap.interrupt Interrupt.supervisor_software) mip = without mip (2 ^ 1)
clear_pending (Trap.interrupt Interrupt.supervisor_timer) mip =
    without (without mip (2 ^ 5)) (2 ^ 7)
clear_pending (Trap.interrupt Interrupt.supervisor_external) mip = without mip (2 ^ 9)
clear_pending t mip = mip

-- What the register check of the matching return compares with.
unfoldable pub snapshot_registers : Trap → Hart → Diagnostics
snapshot_registers t h =
    let d : Diagnostics = h.diagnostics in
    if h.check_irq_regs && is_interrupt t
    then record d {
      irq_snaps = u64 (d.irq_snaps + 1);
      irq_snapshot =
          some (record { pc = h.cpu.pc; satp_ppn = h.satp.ppn; sp = h.cpu.x 2; regs = h.cpu.x });
    }
    else d

abbrev last_trap : Trap → Hart → Diagnostics → Diagnostics
last_trap t h d = record d { last_trap_cause = cause_of t; last_trap_epc = h.cpu.pc }

-- Trap to S-mode.
unfoldable pub trap_to_supervisor : Trap → Option ℕ → Hart → Hart
trap_to_supervisor t fault_vaddr h = record h {
  sepc = h.cpu.pc;
  scause = cause_of t;
  stval = tval t fault_vaddr;
  mstatus = record h.mstatus {
    spp = is_supervisor h.priv_level;
    spie = h.mstatus.sie;
    sie = false;
  };
  priv_level = Privilege.supervisor;
  diagnostics = last_trap t h (snapshot_registers t h);
  cpu = record h.cpu { pc = clear_last h.stvec };
  mip = clear_pending t h.mip;
}

-- Trap to M-mode.
unfoldable pub trap_to_machine : Trap → Option ℕ → Hart → Hart
trap_to_machine t fault_vaddr h = record h {
  mepc = h.cpu.pc;
  mcause = cause_of t;
  sepc = h.cpu.pc;
  scause = cause_of t;
  mtval = tval t fault_vaddr;
  mstatus = record h.mstatus { mpp = priv_code h.priv_level; mpie = h.mstatus.mie; mie = false };
  priv_level = Privilege.machine;
  diagnostics = last_trap t h h.diagnostics;
  cpu = record h.cpu { pc = clear_last h.mtvec };
}

-- Where MODE is 1 an interrupt goes to its own entry.
unfoldable pub vector : Trap → Hart → Hart
vector t h =
    let vec : ℕ = if is_machine h.priv_level then h.mtvec else h.stvec in
    if not (shr (cause_of t) 63 == 0) && not (low_bits vec 1 == 0)
    then record h {
      cpu = record h.cpu { pc = wrapping_add (clear_last vec) (4 * low_bits (cause_of t) 63) };
    }
    else h

unfoldable pub enter_trap : Trap → Option ℕ → Hart → Hart
enter_trap t fault_vaddr h =
    if delegates h.medeleg h.mideleg t && not (is_machine h.priv_level)
    then trap_to_supervisor t fault_vaddr h
    else trap_to_machine t fault_vaddr h

unfoldable pub take_trap_with_vaddr : Trap → Option ℕ → Hart → Status × Hart
take_trap_with_vaddr t fault_vaddr h = (
  Status.trap t,
  record (vector t (enter_trap t fault_vaddr (record h { trap_delivered = true }))) { wfi = false },
)

unfoldable pub take_trap : Trap → Hart → Status × Hart
take_trap t h = take_trap_with_vaddr t none h

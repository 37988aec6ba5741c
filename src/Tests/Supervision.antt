-- ===== src/Tests/Supervision.antt =====
-- The theorems on the hart at a hart out of reset, in supervisor and in user mode.
use tab_linux.Supervisor.Hart.LoadStore.Atomic.{lrw, scw, load_reserved}
use tab_linux.Base.{
  ℕ, ◌-◌, ◌^◌, ◌<◌, ◌≡◌, refl, ◌≢◌, inl, false, not, none, some, List, [], ◌∷◌, ◌++◌, arith, ◌==◌,
  if◌then◌else◌, length, All, u32,
}
use tab_linux.Supervisor.Hart.Step.Run.{run, run-ne-none}
use tab_linux.Tests.{word_bus, no_fpu, no_memory}
use tab_linux.Supervisor.Hart.Privileged.{
  priv_level_from_mpp, csr_jit, csr_op, csr_refused, csr_update, do_mret, do_sret,
}
use tab_linux.Supervisor.Hart.Dispatch.{keep_hart}
use tab_linux.Supervisor.Hart.Step.Invariant.{OutcomeInRange, step-OutcomeInRange}
use tab_linux.Supervisor.{default_mstatus, satp_from_bits, satp_to_bits, to_bits, Privilege}
use tab_linux.Isa.{Status, Exception, Instr, Interrupt, Trap}
use tab_linux.Supervisor.Hart.LoadStore.{at_address, next_with, execute_translated}
use tab_linux.Supervisor.Hart.Traps.{delegates, take_trap_with_vaddr}
use tab_linux.Supervisor.Hart.Interrupts.Soundness.{Takes, check_interrupts-Takes}
use tab_linux.Supervisor.Hart.Privileged.Returns.{context, do_mret-take_trap, do_sret-take_trap}
use tab_linux.Supervisor.Hart.Step.{step}
use tab_linux.Supervisor.Sbi.{handle_dbcn, read_chunk, va_to_pa}
use tab_linux.Supervisor.Hart.Csr.{write_sstatus, csr_write, write_fcsr, csr_read, csr_value}
use tab_linux.Supervisor.Hart.Step.Run.{run-ne-none}
use tab_linux.Supervisor.Hart.Interrupts.{check_interrupts}
use tab_linux.Supervisor.Hart.Privileged.Access.{
  csr_jit-user, csr_op-csr_jit, resume_interpreter, system,
}
use tab_linux.Supervisor.Hart.{Hart, new_hart}
use tab_linux.Cpu.{read_reg, new_cpu, update, write_reg}
use tab_linux.Supervisor.Hart.LoadStore.Bare.{execute_translated-bare}
use tab_linux.Supervisor.Sbi.Console.{handle_dbcn-writes}
use tab_linux.Snapshot.RoundTrip.{append_assoc}
use tab_linux.Cpu.Execute.{execute_width}
use tab_linux.Supervisor.Hart.Save.{load_state, registers, save_state}
use tab_linux.Supervisor.Hart.Save.Whole.{load_state-save_state}
use tab_linux.Snapshot.{new_reader}
use tab_linux.Supervisor.Hart.Spaces.Generations.{Enters, switch_address_space-Enters, IsBounded}
use tab_linux.Supervisor.Hart.Memory.{translate_access, translate_as}
use tab_linux.Cpu.Values.{wrapping_add}
use tab_linux.Supervisor.Hart.Spaces.{asid_index, stash, switch_address_space}
use tab_linux.Cpu.Arms.{advance}
use tab_linux.Supervisor.Hart.LoadStore.Reservation.{scw-lrw}
use tab_linux.Supervisor.Hart.Privileged.Sstatus.{machine_fields, write_sstatus-machine_fields}

-- addi x1, x1, 1 at the reset address.
abbrev program : ℕ → ℕ
program a = if a == 0x8000_0000 then 0x8093 else if a == 0x8000_0002 then 0x0010 else 0

-- Out of reset, with an empty console.
abbrev start : Hart
start = record (new_hart 0x8000_0000 0) { console_buf = [] }

abbrev in_user : Hart
in_user = record start { priv_level = Privilege.user; mideleg = 0x222; stvec = 0x8000_1001 }

run-ne-none_example : run word_bus no_fpu 3 start program ≢ none
unfolding new_hart
run-ne-none_example = run-ne-none word_bus no_fpu (λ m a. omega arith) 3 start program (λ i. tt)

step-OutcomeInRange_example : OutcomeInRange (step word_bus no_fpu start program)
unfolding new_hart
step-OutcomeInRange_example =
    step-OutcomeInRange word_bus no_fpu (λ m a. omega arith) start program (λ i. tt)

execute_translated-bare_example :
    execute_translated word_bus (Instr.sw 1 2 8) 4 start no_memory
    ≡ keep_hart start (execute_width word_bus no_fpu (Instr.sw 1 2 8) 4 start.cpu no_memory)
unfolding new_hart
execute_translated-bare_example =
    execute_translated-bare word_bus no_fpu (Instr.sw 1 2 8) 4 start no_memory
      (omega arith, omega arith, inl (omega arith)) refl refl

csr_op-csr_jit_example :
    csr_op word_bus no_memory 0x340 1 2 7 (not (0 == 0)) (0 == 2) 4 start
    ≡ resume_interpreter 4 (csr_jit word_bus no_memory 0x340 1 2 7 0 start)
csr_op-csr_jit_example = csr_op-csr_jit word_bus no_memory 0x340 1 2 7 0 4 start

abbrev frm_written : Hart
frm_written = record in_user {
  cpu = record in_user.cpu { fcsr = 0x60; x = update in_user.cpu.x 1 0 };
  mstatus = record in_user.mstatus { fs = 3 };
}

writes_frm : csr_jit word_bus no_memory 0x002 1 5 3 0 in_user ≡ some (false, frm_written)
unfolding csr_jit csr_refused csr_update csr_read csr_value csr_write write_fcsr write_reg new_hart
    new_cpu
writes_frm = refl

csr_jit-user_example : system frm_written ≡ system in_user
csr_jit-user_example =
    csr_jit-user word_bus no_memory 0x002 1 5 3 0 false in_user frm_written refl writes_frm

do_sret-take_trap_example :
    context
      (do_sret (take_trap_with_vaddr (Trap.interrupt Interrupt.supervisor_timer) none in_user).1).1
    ≡ context in_user
unfolding new_hart new_cpu delegates
do_sret-take_trap_example =
    do_sret-take_trap (Trap.interrupt Interrupt.supervisor_timer) none in_user refl (ground arith)
      refl

do_mret-take_trap_example :
    context (do_mret (take_trap_with_vaddr (Trap.exception Exception.breakpoint) none start).1).1
    ≡ context start
unfolding new_hart new_cpu delegates
do_mret-take_trap_example =
    do_mret-take_trap (Trap.exception Exception.breakpoint) none start refl refl

abbrev pending_timer : Hart
pending_timer = record in_user { mip = 0x20; mie = 0x20 }

check_interrupts-Takes_example : Takes pending_timer (check_interrupts pending_timer)
check_interrupts-Takes_example = check_interrupts-Takes pending_timer

handle_dbcn-writes_example :
    handle_dbcn word_bus (λ (c : List ℕ) (bytes : List ℕ). c ++ bytes) 2 0x8000_0000 program []
    ≡ some (record { error = 0; value = 2 }, 0x93 ∷ 0 ∷ [])
unfolding read_chunk va_to_pa
handle_dbcn-writes_example =
    handle_dbcn-writes word_bus (λ (c : List ℕ) (bytes : List ℕ). c ++ bytes) append_assoc 2
      0x8000_0000 program [] (omega arith)

words_of_start : All (λ (v : ℕ). v < 2 ^ 64) (registers start)
unfolding new_hart to_bits satp_to_bits
words_of_start = ground arith

satp_of_start : satp_from_bits (satp_to_bits start.satp) ≡ start.satp
unfolding new_hart satp_from_bits satp_to_bits
satp_of_start = refl

load_state-save_state_example :
    (h' : Hart) × (load_state in_user (new_reader (save_state start []))
      ≡ some (h', record { buf = save_state start []; pos = length (save_state start []) }))
    × (save_state h' [] ≡ save_state start [])
unfolding new_hart new_cpu
load_state-save_state_example =
    load_state-save_state start in_user
      ((λ i. omega arith), (λ i. omega arith), (omega arith, (omega arith, tt)))
      (words_of_start, (λ i. omega arith), (λ i. omega arith), omega arith) (omega arith)
      (omega arith, omega arith, omega arith, omega arith, omega arith, omega arith) satp_of_start

start-IsBounded : IsBounded start
unfolding new_hart
start-IsBounded = (omega arith, omega arith, (λ i. omega arith), (λ i. omega arith))

switch_address_space-Enters_example : Enters 1 (stash 0 start) (switch_address_space 0 1 start)
unfolding new_hart
switch_address_space-Enters_example =
    switch_address_space-Enters 0 1 start (omega arith) start-IsBounded

other_slots : asid_index 0 ≢ asid_index 1
unfolding asid_index
other_slots = ground arith

abbrev after_lrw : Hart
after_lrw = record start {
  cpu = record start.cpu { x = update start.cpu.x 3 0; pc = 0x8000_0004 };
  reservation_addr = some 0;
}

loads_reserved : lrw word_bus 4 3 1 start no_memory ≡ some (Status.running, after_lrw, no_memory)
unfolding lrw load_reserved at_address translate_access translate_as priv_level_from_mpp write_reg
    read_reg advance wrapping_add new_hart new_cpu
loads_reserved = refl

scw-lrw_example :
    scw word_bus 4 5 1 2 after_lrw no_memory
    ≡ next_with 4 5 0
        (record after_lrw { reservation_addr = none })
        (word_bus.write_u32 no_memory (read_reg start.cpu 1) (u32 (read_reg after_lrw.cpu 2)))
unfolding new_hart new_cpu read_reg
scw-lrw_example =
    scw-lrw word_bus 4 3 1 5 2 start after_lrw no_memory no_memory Status.running refl
      loads_reserved refl

write_sstatus-machine_fields_example :
    (machine_fields (write_sstatus (2 ^ 64 - 1) default_mstatus) ≡ machine_fields default_mstatus)
    × ((write_sstatus (2 ^ 64 - 1) default_mstatus).mpp ≡ default_mstatus.mpp)
write_sstatus-machine_fields_example =
    write_sstatus-machine_fields (2 ^ 64 - 1) default_mstatus
      (omega arith, omega arith, omega arith, omega arith, omega arith, omega arith)

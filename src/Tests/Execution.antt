-- ===== src/Tests/Execution.antt =====
-- The theorems on execution at concrete instructions and registers.
use tab_linux.Base.{refl, ◌≢◌, inl, none, arith}
use tab_linux.Isa.{Instr}
use tab_linux.Cpu.{new_cpu}
use tab_linux.Tests.{word_bus, no_memory, no_fpu}
use tab_linux.Cpu.Values.{wrapping_sub}
use tab_linux.Cpu.Load.{Loads, li-Loads_low, run}
use tab_linux.Isa.Assemble.{li}
use tab_linux.Cpu.Safety.{execute_width-ne-none}
use tab_linux.Cpu.Execute.{execute_width}
use tab_linux.Cpu.Invariant.{HasZero, Leaves, execute_width-HasZero}
use tab_linux.Cpu.Precise.{IsPrecise, execute_width-IsPrecise}

execute_width-ne-none_example :
    execute_width word_bus no_fpu (Instr.addi 1 2 5) 4 (new_cpu 0) no_memory ≢ none
execute_width-ne-none_example =
    execute_width-ne-none word_bus no_fpu (Instr.addi 1 2 5) 4 (new_cpu 0) no_memory
      (omega arith, omega arith, inl (omega arith))

new_cpu-HasZero : HasZero (new_cpu 0)
unfolding new_cpu
new_cpu-HasZero = refl

execute_width-HasZero_example :
    Leaves HasZero (execute_width word_bus no_fpu (Instr.addi 0 2 5) 4 (new_cpu 0) no_memory)
execute_width-HasZero_example =
    execute_width-HasZero word_bus no_fpu (Instr.addi 0 2 5) 4 (new_cpu 0) no_memory tt
      new_cpu-HasZero

li-Loads_low_example :
    Loads word_bus no_fpu 5
      (wrapping_sub 0x12800 4096)
      no_memory
      (run word_bus no_fpu (li 5 0x12800) (new_cpu 0) no_memory)
li-Loads_low_example =
    li-Loads_low word_bus no_fpu 5 0x12800 (new_cpu 0) no_memory (omega arith) (omega arith)
      (inl (omega arith)) (omega arith) (omega arith)

execute_width-IsPrecise_example :
    IsPrecise
      (new_cpu 0)
      no_memory
      (execute_width word_bus no_fpu Instr.ecall 4 (new_cpu 0) no_memory)
execute_width-IsPrecise_example =
    execute_width-IsPrecise word_bus no_fpu Instr.ecall 4 (new_cpu 0) no_memory tt

-- ===== src/Lib.antt =====
-- TabLinux: a RISC-V machine that boots Linux in a browser tab. The crates under crates/ are the
-- instruction set and the interpreter (riscv-core), the privileged architecture (riscv-supervisor),
-- the devices, the composed machine, a compiler to WebAssembly, and the front ends. An instruction
-- word is fetched, decompressed if it has 16 bits, decoded and executed on the registers and a bus;
-- the supervisor translates each address first.
--
-- Base holds what the modules share: tests on the native numbers, lists, machine words as bit
-- patterns, and the lemmas that make `|` of disjoint fields a sum.
--
-- Isa is the instruction set of crates/riscv-core/src. Isa.antt has the types of types.rs. Isa/Decode
-- is `decode` of decode.rs, with the arms for an opcode in Isa/Arms and the immediates in Isa/Imm.
-- Isa/Encode is `encode` and Isa/Assemble are `assemble`, `li` and the other pseudo-instructions of
-- encode.rs. Isa/Compressed is `decompress` of compressed.rs, with the immediates in
-- Isa/CompressedImm. Isa/Range says which field values an instruction word can carry.
--
-- Cpu is crates/riscv-core/src/execute.rs. Cpu.antt has the registers, the `Bus` trait as a record of
-- functions over the state of the bus, of which no access panics, and the register file. The bus of
-- device_bus.rs is such a bus but for an access that starts in its memory and ends behind it; there the
-- hart panics with the bus. Cpu/Execute is `execute_width`, one
-- clause for each instruction; the arithmetic of the arms is in Cpu/Values and what the arms have in
-- common in Cpu/Arms. A step answers `none` where the source panics. Integers are bit patterns below
-- their power of two, also the signed ones. The floating-point unit of fpu.rs is a parameter of the
-- step.
--
-- Supervisor is part of crates/riscv-supervisor/src. Supervisor.antt has the registers mstatus and
-- satp of types.rs. Supervisor/Tlb, Supervisor/Mmu, Supervisor/Walk and Supervisor/Translate are
-- mmu.rs: the cache of translations, the permission checks with the Accessed and Dirty bits, the walk
-- of the page tables, and `translate`. The walk recurses on the level, which counts down from 2 as in
-- the source, so no fuel is needed. The arrays of the source are functions from the index.
--
-- Supervisor/Hart is crates/riscv-supervisor/src/supervisor.rs: the record `Hart` is the struct
-- `Supervisor`, and a step answers the status, the hart and the memory, or `none` for a panic. Its
-- children are Spaces (the generations of the address spaces), Csr and Privileged (the control and
-- status registers, `csr_op`, `csr_jit`, `do_mret`, `do_sret`), Interrupts, Traps
-- (`take_trap_with_vaddr`), Memory (`translate`, `fetch_translate`), LoadStore (`execute_translated`,
-- the reservation, `fp_jit`), Dispatch (`execute_supervisor`), Step (`step` and `finish_step`, each
-- match of the source a function), and Save (`save_state`, `load_state`). `step` fetches through
-- Memory, decodes with Isa, and hands the instruction to Dispatch, which uses the others and Cpu.
-- A control and status register is selected by its number in a list, as in the source.
--
-- Supervisor/Sbi is crates/riscv-supervisor/src/sbi.rs, over a console that is any function on a
-- state; the hart passes its console buffer. The loop of the debug console has a unit of fuel for each
-- byte and one more, which is enough since a round writes at least one byte.
--
-- Snapshot is crates/riscv-core/src/state.rs, the byte streams of machine snapshots. A position in a
-- stream is an unbounded number.
--
-- Devices is crates/riscv-devices/src. Devices/Memory is `GuestMem` of virtio.rs, a function from the
-- offset with its size, and the scatter lists. Devices/Virtio is the virtio-mmio transport of virtio.rs
-- over any device, whose trait is a record of functions on its state: Rings has `walk` and `push_used`,
-- Queues has `notify`, `tick`, `poll` and the others that move chains, Registers the register file, Save
-- the snapshot. Devices/Block is virtio_blk.rs and Devices/Net is virtio_net.rs, each over any backend.
-- Devices/Plic and Devices/Uart are the interrupt controller and the serial port of device_bus.rs, and
-- Devices/Bus is `DeviceBus`: Bus/Virtio has the slots and their interrupt lines, Bus/Clock the clock,
-- Bus/Access the reads and writes of the `Bus` trait. A read of the bus answers the bus after it, since
-- it can take a byte of input or claim an interrupt; the hart's steps are over buses whose reads change
-- nothing. The loops of `notify`, `walk` and `poll` have the bounds of the source; `best` clears one bit
-- of a word in each round, so that 32 rounds are enough. The frames that the host has queued are an
-- argument of the idle skips.
--
-- Machine/Fdt is crates/riscv-machine/src/fdt.rs, the two patches of the devicetree over one loop on its
-- tokens, which are compared with a search that keeps the open nodes in a stack. Each round passes a token of four bytes, so that a unit of fuel for each byte and one more is
-- enough for every blob.
--
-- Hostnet is crates/riscv-hostnet/src/lib.rs: `respond` with the ARP and ICMP answers and the checksum.
-- The sum of the words has 32 bits; three tests of the loop that folds it are enough.
--
-- Tests has the theorems at concrete inputs.
--
-- Not modelled: the floating-point unit, the tracing and watching instruments of supervisor.rs, which
-- are off by default, `debug_fetch`, the 9P share, the snapshot of the bus, the rest of
-- the machine, the compiler to WebAssembly, and the front ends. Debug builds check arithmetic for overflow; where the source does not
-- ask for wrapping (the product of `mulhsu`, counters, `paddr + 2`), the model wraps as release builds
-- do.
pub mod Base
pub mod Isa
pub mod Cpu
pub mod Supervisor
pub mod Snapshot
pub mod Devices
pub mod Machine
pub mod Hostnet
pub mod Tests

-- ===== src/Devices/Bus.antt =====
-- crates/riscv-devices/src/device_bus.rs: `DeviceBus`, the memory, the timer, the interrupt controller,
-- the serial port and the eight virtio slots. The devices in the slots have a state of any type D. The
-- cells that the source changes through `&self` are fields, so that a read answers the bus after it.
pub mod Virtio
pub mod Clock
pub mod Access
use tab_linux.Base.{
  ℕ, ◌+◌, ◌-◌, ◌*◌, ◌/◌, ◌%◌, ◌^◌, Bool, ◌&&◌, ◌||◌, Option, none, some, List, ltb, leb,
  if◌then◌else◌, length,
}
use tab_linux.Devices.Memory.{copy_slice, GuestMem}
use tab_linux.Devices.Virtio.{VirtioMmio}
use tab_linux.Devices.Plic.{new_plic, Plic}
use tab_linux.Devices.Uart.{new_uart, Uart}

abbrev pub virtio_mmio_base : ℕ
virtio_mmio_base = 0x10001000

abbrev pub virtio_mmio_slots : ℕ
virtio_mmio_slots = 8

abbrev pub dram_start : ℕ
dram_start = 0x80000000

abbrev pub clint_base : ℕ
clint_base = 0x02000000

abbrev pub plic_base : ℕ
plic_base = 0x0C000000

abbrev pub uart_base : ℕ
uart_base = 0x10000000

abbrev pub uart_irq : ℕ
uart_irq = 10

-- `mem` is the memory with its base and its size; the slots below 8 exist.
pub record DeviceBus (D : Type 0) : Type 0 where
  pub mem : GuestMem
  pub mtime : ℕ
  pub mtimecmp : ℕ
  pub msoft : ℕ
  pub tick_accum : ℕ
  pub uart : Uart
  pub plic : Plic
  pub virtio : ℕ → Option (VirtioMmio D)
  pub virtio_n : ℕ
  pub net_poll_accum : ℕ
  pub idle_stall : ℕ
  pub clint_mtime_reads : ℕ
  pub clint_mtimecmp_writes : ℕ

module _ {D : Type 0} where
  unfoldable pub new_bus : (dram_size : ℕ) → DeviceBus D
  unfolding new_plic
  new_bus dram_size = record {
    mem = record { dram = λ i. 0; size = dram_size; base = dram_start };
    mtime = 0;
    mtimecmp = 2 ^ 64 - 1;
    msoft = 0;
    tick_accum = 0;
    uart = new_uart;
    plic = new_plic;
    virtio = λ i. none;
    virtio_n = 0;
    net_poll_accum = 0;
    idle_stall = 0;
    clint_mtime_reads = 0;
    clint_mtimecmp_writes = 0;
  }

  unfoldable pub dram_offset : DeviceBus D → (addr : ℕ) → Option ℕ
  dram_offset bus addr =
      if leb bus.mem.base addr && ltb addr (bus.mem.base + bus.mem.size)
      then some (addr - bus.mem.base)
      else none

  -- `none` is the panic of a blob that is not in the memory.
  unfoldable pub load_blob : DeviceBus D → (addr : ℕ) → List ℕ → Option (DeviceBus D)
  load_blob bus addr bytes =
      let off : ℕ = addr - bus.mem.base in
      if ltb addr bus.mem.base || ltb bus.mem.size (off + length bytes)
      then none
      else some (record bus { mem = record bus.mem { dram = copy_slice bytes off bus.mem.dram } })

abbrev pub in_clint : ℕ → Bool
in_clint addr = leb clint_base addr && ltb addr (clint_base + 0x10000)

abbrev pub in_plic : ℕ → Bool
in_plic addr = leb plic_base addr && ltb addr (plic_base + 0x600000)

abbrev pub in_uart : ℕ → Bool
in_uart addr = leb uart_base addr && ltb addr (uart_base + 0x100)

-- The slot and the offset of a register of the virtio window.
unfoldable pub virtio_slot : ℕ → Option (ℕ × ℕ)
virtio_slot addr =
    let rel : ℕ = addr - virtio_mmio_base in
    if ltb addr virtio_mmio_base || leb (virtio_mmio_base + 0x1000 * virtio_mmio_slots) addr
    then none
    else some (rel / 0x1000, rel % 0x1000)

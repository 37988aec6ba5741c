-- ===== src/Devices/Bus/Access.antt =====
-- crates/riscv-devices/src/device_bus.rs: the accesses of the hart to the bus. `none` is the panic of an
-- access that starts in the memory and ends behind it.
pub mod Dram
use tab_linux.Base.{
  ℕ, ◌+◌, ◌-◌, ◌*◌, ◌%◌, ◌^◌, bit_or, Bool, ◌||◌, Option, none, some, [], ◌∷◌, leb, ◌==◌,
  if◌then◌else◌, select, ◌>>=◌, u8, u32, u64, shr, low_bits, field,
}
use tab_linux.Devices.Bus.{
  dram_offset, in_clint, in_plic, in_uart, plic_base, uart_base, virtio_slot, DeviceBus,
}
use tab_linux.Devices.Virtio.{VirtioDevice}
use tab_linux.Devices.Plic.{plic_read, plic_write}
use tab_linux.Devices.Virtio.Registers.{mmio_read, put_high, put_low}
use tab_linux.Devices.Uart.{uart_read, uart_write}
use tab_linux.Devices.Bus.Virtio.{refresh_uart_irq, virtio_write}
use tab_linux.Devices.Memory.{copy_slice, slice_at}
use tab_linux.Snapshot.{from_le_bytes, to_le_bytes}

module _ {D : Type 0} where
  -- `dram[off..off + n]` as a number, and its counterpart.
  unfoldable pub dram_read : (n off : ℕ) → DeviceBus D → Option ℕ
  dram_read n off bus =
      if leb (off + n) bus.mem.size
      then some (from_le_bytes (slice_at n off bus.mem.dram))
      else none

  unfoldable pub dram_write : (n off val : ℕ) → DeviceBus D → Option (DeviceBus D)
  dram_write n off val bus =
      if leb (off + n) bus.mem.size
      then some (record bus {
        mem = record bus.mem { dram = copy_slice (to_le_bytes n val) off bus.mem.dram };
      })
      else none

  -- The serial port from its base on.
  unfoldable pub bus_uart_read : (addr : ℕ) → DeviceBus D → ℕ × DeviceBus D
  bus_uart_read addr bus =
      let (val, uart) = uart_read bus.uart (u8 (addr - uart_base)) in
      (val, record bus { uart = uart })

  unfoldable pub bus_uart_write : (addr val : ℕ) → DeviceBus D → DeviceBus D
  bus_uart_write addr val bus = record bus {
    uart = uart_write bus.uart (u8 (addr - uart_base)) val;
  }

  abbrev pub count_mtime_read : Bool → DeviceBus D → DeviceBus D
  count_mtime_read mtime bus =
      if mtime then record bus { clint_mtime_reads = bus.clint_mtime_reads + 1 } else bus

  unfoldable pub clint_read_u32 : (addr : ℕ) → DeviceBus D → ℕ × DeviceBus D
  clint_read_u32 addr bus = (
    select addr
        ((0x02000000, bus.msoft)
          ∷ (0x02000004, 0)
          ∷ (0x02004000, u32 bus.mtimecmp)
          ∷ (0x02004004, u32 (shr bus.mtimecmp 32))
          ∷ (0x0200BFF8, u32 bus.mtime)
          ∷ (0x0200BFFC, u32 (shr bus.mtime 32))
          ∷ [])
        0,
    count_mtime_read (addr == 0x0200BFF8 || addr == 0x0200BFFC) bus,
  )

  unfoldable pub clint_read_u64 : (addr : ℕ) → DeviceBus D → ℕ × DeviceBus D
  clint_read_u64 addr bus = (
    select addr
        ((0x02000000, bus.msoft) ∷ (0x02004000, bus.mtimecmp) ∷ (0x0200BFF8, bus.mtime) ∷ []) 0,
    count_mtime_read (addr == 0x0200BFF8) bus,
  )

  unfoldable pub clint_write_u32 : (addr val : ℕ) → DeviceBus D → DeviceBus D
  clint_write_u32 addr val bus =
      select addr
        ((0x02000000, record bus { msoft = val })
          ∷ (0x02004000, record bus { mtimecmp = put_low bus.mtimecmp val })
          ∷ (0x02004004, record bus { mtimecmp = put_high bus.mtimecmp val })
          ∷ [])
        bus

  unfoldable pub clint_write_u64 : (addr val : ℕ) → DeviceBus D → DeviceBus D
  clint_write_u64 addr val bus =
      select addr
        ((0x02000000, record bus { msoft = u32 val })
          ∷ (
            0x02004000,
            record bus { mtimecmp = val; clint_mtimecmp_writes = bus.clint_mtimecmp_writes + 1 },
          )
          ∷ [])
        bus

  module _ (device : VirtioDevice D) where
    -- A register of the device in a slot.
    unfoldable pub slot_read : (slot off : ℕ) → DeviceBus D → ℕ
    slot_read slot off bus = elim (bus.virtio slot) [
      | none ↦ 0
      | some dev ↦ mmio_read device dev off
    ]

    unfoldable pub bus_read_u8 : (addr : ℕ) → DeviceBus D → Option (ℕ × DeviceBus D)
    bus_read_u8 addr bus = elim (dram_offset bus addr) [
      | some off ↦ do val ← dram_read 1 off bus; some (val, bus)
      | none ↦
          if in_clint addr
          then some (if addr % 2 ^ 16 == 0 then 3 else 0, bus)
          else elim (virtio_slot addr) [
            | some (slot, off) ↦
                some (u8 (shr (slot_read slot (off - off % 4) bus) (off % 4 * 8)), bus)
            | none ↦ some (if in_uart addr then bus_uart_read addr bus else (0, bus))
          ]
    ]

    unfoldable pub bus_read_u16 : (addr : ℕ) → DeviceBus D → Option (ℕ × DeviceBus D)
    bus_read_u16 addr bus = do
      (low, bus₁) ← bus_read_u8 addr bus
      (high, bus₂) ← bus_read_u8 (u64 (addr + 1)) bus₁
      some (from_le_bytes (low ∷ high ∷ []), bus₂)

    -- A word outside the memory and the timer.
    unfoldable pub device_read_u32 : (addr : ℕ) → DeviceBus D → Option (ℕ × DeviceBus D)
    device_read_u32 addr bus = elim (virtio_slot addr) [
      | some (slot, off) ↦ some (slot_read slot off bus, bus)
      | none ↦
          let refreshed : DeviceBus D = refresh_uart_irq bus in
          let (val, plic) = plic_read refreshed.plic (addr - plic_base) in
          if in_plic addr
          then some (val, record refreshed { plic = plic })
          else if in_uart addr
          then bus_read_u8 addr bus
          else some (0, bus)
    ]

    unfoldable pub bus_read_u32 : (addr : ℕ) → DeviceBus D → Option (ℕ × DeviceBus D)
    bus_read_u32 addr bus = elim (dram_offset bus addr) [
      | some off ↦ do val ← dram_read 4 off bus; some (val, bus)
      | none ↦ if in_clint addr then some (clint_read_u32 addr bus) else device_read_u32 addr bus
    ]

    unfoldable pub bus_read_u64 : (addr : ℕ) → DeviceBus D → Option (ℕ × DeviceBus D)
    bus_read_u64 addr bus = elim (dram_offset bus addr) [
      | some off ↦ do val ← dram_read 8 off bus; some (val, bus)
      | none ↦ if in_clint addr then some (clint_read_u64 addr bus) else do
        (low, bus₁) ← bus_read_u32 addr bus
        (high, bus₂) ← bus_read_u32 (u64 (addr + 4)) bus₁
        some (bit_or low (high * 2 ^ 32), bus₂)
    ]

    unfoldable pub bus_write_u8 : (addr val : ℕ) → DeviceBus D → Option (DeviceBus D)
    bus_write_u8 addr val bus = elim (dram_offset bus addr) [
      | some off ↦ dram_write 1 off val bus
      | none ↦ elim (virtio_slot addr) [
        | some (slot, off) ↦
            if leb 0x100 off then virtio_write device slot off val bus else some bus
        | none ↦ some (if in_uart addr then bus_uart_write addr val bus else bus)
      ]
    ]

    unfoldable pub bus_write_u16 : (addr val : ℕ) → DeviceBus D → Option (DeviceBus D)
    bus_write_u16 addr val bus = elim (dram_offset bus addr) [
      | some off ↦ dram_write 2 off val bus
      | none ↦ if in_uart addr then bus_write_u8 addr (low_bits val 8) bus else do
        bus₁ ← bus_write_u8 addr (low_bits val 8) bus
        bus_write_u8 (u64 (addr + 1)) (field val 8 8) bus₁
    ]

    -- A word to a virtio slot or the interrupt controller.
    unfoldable pub device_write_u32 : (addr val : ℕ) → DeviceBus D → Option (DeviceBus D)
    device_write_u32 addr val bus = elim (virtio_slot addr) [
      | some (slot, off) ↦ virtio_write device slot off val bus
      | none ↦ some (
          if in_plic addr
          then record bus { plic = plic_write bus.plic (addr - plic_base) val }
          else bus)
    ]

    unfoldable pub bus_write_u32 : (addr val : ℕ) → DeviceBus D → Option (DeviceBus D)
    bus_write_u32 addr val bus = elim (dram_offset bus addr) [
      | some off ↦ dram_write 4 off val bus
      | none ↦
          if in_uart addr
          then bus_write_u8 addr (low_bits val 8) bus
          else if in_clint addr
          then some (clint_write_u32 addr val bus)
          else device_write_u32 addr val bus
    ]

    unfoldable pub bus_write_u64 : (addr val : ℕ) → DeviceBus D → Option (DeviceBus D)
    bus_write_u64 addr val bus = elim (dram_offset bus addr) [
      | some off ↦ dram_write 8 off val bus
      | none ↦
          if in_uart addr
          then bus_write_u8 addr (low_bits val 8) bus
          else if in_clint addr
          then some (clint_write_u64 addr val bus)
          else do
            bus₁ ← bus_write_u32 addr (low_bits val 32) bus
            bus_write_u32 (u64 (addr + 4)) (field val 32 32) bus₁
    ]

-- ===== src/Devices/Bus/Virtio.antt =====
-- crates/riscv-devices/src/device_bus.rs: the virtio slots of the bus and their interrupt lines.
pub mod Input
use tab_linux.Base.{
  ℕ, zero, suc, ◌+◌, ◌%◌, max, Bool, true, false, not, ◌||◌, Option, none, some, List, ◌++◌, ltb,
  ◌==◌, if◌then◌else◌, ◌>>=◌, u64,
}
use tab_linux.Devices.Bus.{uart_irq, virtio_mmio_slots, DeviceBus}
use tab_linux.Devices.Memory.{GuestMem}
use tab_linux.Devices.Virtio.{has_pending, irq_level, new_virtio, VirtioDevice, VirtioMmio}
use tab_linux.Devices.Uart.{uart_irq_level}
use tab_linux.Devices.Plic.{any_pending, set_level}
use tab_linux.Devices.Virtio.Queues.{flush_pending, virtio_mmio_tick, virtio_poll, virtio_supply}
use tab_linux.Cpu.Arms.{advance}
use tab_linux.Devices.Virtio.Registers.{mmio_write}

module _ {D : Type 0} where
  abbrev pub set_slot : DeviceBus D → ℕ → VirtioMmio D → DeviceBus D
  set_slot bus slot dev = record bus { virtio = λ i. if slot == i then some dev else bus.virtio i }

  -- The first of the slots from i on that is free.
  unfoldable pub free_slot : (count i : ℕ) → DeviceBus D → Option ℕ
  free_slot zero i bus = none
  free_slot (suc count) i bus =
      let rest : Option ℕ = free_slot count (suc i) bus in
      elim (bus.virtio i) [ none ↦ some i | some dev ↦ rest ]

  unfoldable pub attach_virtio : D → DeviceBus D → Option (ℕ × DeviceBus D)
  attach_virtio dev bus = do
    slot ← free_slot virtio_mmio_slots 0 bus
    let attached : DeviceBus D = set_slot bus slot (new_virtio dev (slot + 1))
    some (slot + 1, record attached { virtio_n = max bus.virtio_n (slot + 1) })

  -- The line of a device, brought to its interrupt status.
  unfoldable pub sync_line : VirtioMmio D → DeviceBus D → DeviceBus D
  sync_line dev bus = record bus { plic = set_level bus.plic dev.irq (irq_level dev) }

  -- `refresh_virtio_irqs` on the slots from i on.
  unfoldable pub refresh_from : (count i : ℕ) → DeviceBus D → DeviceBus D
  refresh_from zero i bus = bus
  refresh_from (suc count) i bus =
      refresh_from count (suc i) (elim (bus.virtio i) [ none ↦ bus | some dev ↦ sync_line dev bus ])

  unfoldable pub refresh_virtio_irqs : DeviceBus D → DeviceBus D
  refresh_virtio_irqs bus = refresh_from bus.virtio_n 0 bus

  unfoldable pub refresh_uart_irq : DeviceBus D → DeviceBus D
  refresh_uart_irq bus = record bus { plic = set_level bus.plic uart_irq (uart_irq_level bus.uart) }

  unfoldable pub external_interrupt_pending : DeviceBus D → Bool × DeviceBus D
  external_interrupt_pending bus =
      let refreshed : DeviceBus D = refresh_uart_irq (refresh_virtio_irqs bus) in
      (any_pending refreshed.plic, refreshed)

  unfoldable pub uart_push_input : List ℕ → DeviceBus D → DeviceBus D
  uart_push_input bytes bus =
      refresh_uart_irq (record bus { uart = record bus.uart { rx = bus.uart.rx ++ bytes } })

  -- What an operation of a device leaves, its line brought up to date if `changed`.
  unfoldable pub after_device :
      DeviceBus D → (slot : ℕ) → Bool × VirtioMmio D × GuestMem → (changed : Bool) → DeviceBus D
  after_device bus slot done changed =
      let bus' : DeviceBus D = record (set_slot bus slot done.1) { mem = done.2 } in
      if changed then sync_line done.1 bus' else bus'

  -- `flush_virtio_completions` on the slots from i on.
  unfoldable pub flush_from :
      (count i : ℕ) → (any : Bool) → DeviceBus D → Option (Bool × DeviceBus D)
  flush_from zero i any bus = some (any, bus)
  flush_from (suc count) i any bus = do
    (any', bus') ← elim (bus.virtio i) [
      | none ↦ some (any, bus)
      | some dev ↦ if not (has_pending dev) then some (any, bus) else do
        done ← flush_pending dev bus.mem
        some (any || done.0, after_device bus i done true)
    ]
    flush_from count (suc i) any' bus'

  unfoldable pub flush_virtio_completions : DeviceBus D → Option (Bool × DeviceBus D)
  flush_virtio_completions bus = flush_from bus.virtio_n 0 false bus

  unfoldable pub pending_from : (count i : ℕ) → DeviceBus D → Bool
  pending_from zero i bus = false
  pending_from (suc count) i bus =
      elim (bus.virtio i) [ none ↦ false | some dev ↦ has_pending dev ]
      || pending_from count (suc i) bus

  unfoldable pub any_virtio_pending : DeviceBus D → Bool
  any_virtio_pending bus = pending_from bus.virtio_n 0 bus

  -- The completions of one slot that are due.
  unfoldable pub tick_slot : (advance slot : ℕ) → DeviceBus D → Option (DeviceBus D)
  tick_slot advance slot bus = elim (bus.virtio slot) [
    | none ↦ some bus
    | some dev ↦ if not (has_pending dev) then some bus else do
      done ← virtio_mmio_tick advance dev bus.mem
      some (after_device bus slot done done.0)
  ]

  module _ (device : VirtioDevice D) where
    unfoldable pub virtio_write : (slot off val : ℕ) → DeviceBus D → Option (DeviceBus D)
    virtio_write slot off val bus = elim (bus.virtio slot) [
      | none ↦ some bus
      | some dev ↦ do
        done ← mmio_write device off val dev bus.mem
        some (after_device bus slot done done.0)
    ]

    -- The inbound data of one slot.
    unfoldable pub poll_slot : (slot : ℕ) → DeviceBus D → Option (DeviceBus D)
    poll_slot slot bus = elim (bus.virtio slot) [
      | none ↦ some bus
      | some dev ↦ do
        done ← virtio_poll device dev bus.mem
        some (after_device bus slot done done.0)
    ]

    unfoldable pub tick_slots :
        (count slot advance : ℕ) → (poll_rx : Bool) → DeviceBus D → Option (DeviceBus D)
    tick_slots zero slot advance poll_rx bus = some bus
    tick_slots (suc count) slot advance poll_rx bus = do
      polled ← if poll_rx then poll_slot slot bus else some bus
      ticked ← tick_slot advance slot polled
      tick_slots count (suc slot) advance poll_rx ticked

    unfoldable pub virtio_tick : (advance : ℕ) → DeviceBus D → Option (DeviceBus D)
    virtio_tick advance bus =
        let accum : ℕ = u64 (bus.net_poll_accum + 1) in
        tick_slots bus.virtio_n 0 advance (accum % 512 == 0) (record bus { net_poll_accum = accum })

    -- A reply of the host for the device of the 9P share.
    unfoldable pub supply_slot : (slot id : ℕ) → List ℕ → DeviceBus D → Bool × DeviceBus D
    supply_slot slot id payload bus = elim (bus.virtio slot) [
      | none ↦ (false, bus)
      | some dev ↦
          let done : Bool × VirtioMmio D × GuestMem = virtio_supply device dev id payload bus.mem in
          (done.0, after_device bus slot done true)
    ]

    -- The first slot from i on with a device of the kind.
    unfoldable pub slot_of_kind : (kind count i : ℕ) → DeviceBus D → Option ℕ
    slot_of_kind kind zero i bus = none
    slot_of_kind kind (suc count) i bus =
        let rest : Option ℕ = slot_of_kind kind count (suc i) bus in
        elim (bus.virtio i) [
          | none ↦ rest
          | some dev ↦ if device.device_id dev.dev == kind then some i else rest
        ]

    unfoldable pub p9_supply : (id : ℕ) → List ℕ → DeviceBus D → Bool × DeviceBus D
    p9_supply id payload bus = elim (slot_of_kind 9 bus.virtio_n 0 bus) [
      | none ↦ (false, bus)
      | some slot ↦ supply_slot slot id payload bus
    ]

    unfoldable pub virtio_device_id : (slot : ℕ) → DeviceBus D → Option ℕ
    virtio_device_id slot bus =
        if ltb slot virtio_mmio_slots
        then (do dev ← bus.virtio slot; some (device.device_id dev.dev))
        else none

-- ===== src/Tests/Machinery.antt =====
-- The theorems on the devices at a bus with a disk, and at an interrupt controller after a few writes.
use tab_linux.Base.{
  ℕ, ◌+◌, ◌-◌, ◌^◌, ◌≤◌, ◌<◌, ◌≡◌, refl, ◌≢◌, ◌↔◌, ◌⊎◌, inr, true, false, none, some, List, [], ◌∷◌,
  ◌++◌, arith, ◌==◌, if◌then◌else◌, u16, u64,
}
use tab_linux.Devices.Memory.{mem_read, mem_read_u16, slice_at, window, GuestMem}
use tab_linux.Devices.Virtio.{new_virtio, QueueState, VirtioDevice, VirtioMmio}
use tab_linux.Devices.Bus.{dram_start, uart_irq, DeviceBus}
use tab_linux.Devices.Plic.{
  best, claim, consider, enabled, new_plic, plic_write, recalc_claimable, scan_word, set_level,
  trailing_zeros, write_enable, write_priority, Plic,
}
use tab_linux.Devices.Block.{blk_device, mem_backend, MemBackend, VirtioBlk}
use tab_linux.Devices.Virtio.Save.{load_virtio, save_virtio}
use tab_linux.Devices.Plic.Choice.{Eligible, best-outranks}
use tab_linux.Devices.Bus.Clock.{tick_n}
use tab_linux.Snapshot.{from_le_bytes}
use tab_linux.Devices.Bus.Clock.Steps.{tick_n-tick_times, tick_times}
use tab_linux.Devices.Bus.Access.{bus_read_u32, bus_read_u64, bus_write_u64}
use tab_linux.Devices.Uart.{new_uart}
use tab_linux.Devices.Virtio.Registers.{mmio_write}
use tab_linux.Devices.Virtio.Save.RoundTrip.{IsTransport, load_virtio-save_virtio}
use tab_linux.Devices.Plic.Service.{
  IsSound, PlicOp, claim-claim, new_plic-IsSound, plic_run, plic_run-IsSound, plic_step,
}
use tab_linux.Snapshot.Prefix.{at}
use tab_linux.Devices.Bus.Access.Dram.{bus_read_u32_panics, bus_read_u64-bus_write_u64}
use tab_linux.Devices.Virtio.Queues.{notify, virtio_mmio_tick}
use tab_linux.Devices.Virtio.Registers.Reset.{tick-mmio_write_reset}
use tab_linux.Devices.Plic.Lines.{IsReady}
use tab_linux.Devices.Bus.Virtio.{external_interrupt_pending, uart_push_input}
use tab_linux.Devices.Bus.Virtio.Input.{external_interrupt_pending-uart_push_input}
use tab_linux.Devices.Virtio.Queues.Progress.{answer_chains, moved_on, notify-answer_chains}

-- The serial port asserts its line; its priority is 1 and the first context has it enabled.
abbrev setup_ops : List PlicOp
setup_ops = PlicOp.mmio_store 0x28 1 ∷ PlicOp.mmio_store 0x2000 0x400 ∷ PlicOp.line 10 true ∷ []

abbrev served_plic : Plic
served_plic = plic_run setup_ops new_plic

plic_run-IsSound_example : IsSound served_plic
plic_run-IsSound_example = plic_run-IsSound setup_ops new_plic new_plic-IsSound

served_plic-IsSound : IsSound served_plic
served_plic-IsSound = plic_run-IsSound setup_ops new_plic new_plic-IsSound

best_is_uart : best served_plic 0 ≡ 10
unfolding best scan_word consider enabled trailing_zeros plic_run plic_step plic_write
    write_priority write_enable set_level recalc_claimable new_plic
best_is_uart = refl

claim_is_uart : (claim served_plic 0).0 ≡ 10
unfolding claim best scan_word consider enabled trailing_zeros plic_run plic_step plic_write
    write_priority write_enable set_level recalc_claimable new_plic
claim_is_uart = refl

uart-Eligible : Eligible served_plic 0 10
unfolding enabled plic_run plic_step plic_write write_priority write_enable set_level
    recalc_claimable new_plic
uart-Eligible = record { named = omega arith; waiting = refl; enables = refl; above = omega arith }

best-outranks_example :
    Eligible served_plic 0 (best served_plic 0)
    × (best served_plic 0 < 96)
    × ((served_plic.priority 10 < served_plic.priority (best served_plic 0))
        ⊎ ((served_plic.priority 10 ≡ served_plic.priority (best served_plic 0))
            × (best served_plic 0 ≤ 10)))
best-outranks_example =
    best-outranks served_plic 0 10 served_plic-IsSound.words (omega arith) uart-Eligible

claim-claim_example :
    (served_plic.level (claim served_plic 0).0 ≡ true)
    × (served_plic.claimed (claim served_plic 0).0 ≡ false)
    × ((claim (claim served_plic 0).1 1).0 ≢ (claim served_plic 0).0)
claim-claim_example =
    claim-claim served_plic 0 1 served_plic-IsSound (λ e. absurd (omega (arith, e, claim_is_uart)))

-- A disk of four sectors on a bus with 64 KiB of memory.
abbrev disk : VirtioBlk MemBackend
disk = record {
  backend = record { bytes = λ i. 0; size = 2048 };
  serial = [];
  reads = 0;
  writes = 0;
  max_descs = 0;
  max_bytes = 0;
}

abbrev disk_device : VirtioDevice (VirtioBlk MemBackend)
disk_device = blk_device mem_backend

abbrev small_bus : DeviceBus (VirtioBlk MemBackend)
small_bus = record {
  mem = record { dram = λ i. 0; size = 0x10000; base = dram_start };
  mtime = 2 ^ 64 - 1;
  mtimecmp = 2 ^ 64 - 1;
  msoft = 0;
  tick_accum = 7;
  uart = record new_uart { ier = 1 };
  plic = plic_run (PlicOp.mmio_store 0x28 1 ∷ PlicOp.mmio_store 0x2000 0x400 ∷ []) new_plic;
  virtio = λ i. none;
  virtio_n = 0;
  net_poll_accum = 0;
  idle_stall = 0;
  clint_mtime_reads = 0;
  clint_mtimecmp_writes = 0;
}

tick_n-tick_times_example : tick_n disk_device 25 small_bus ≡ tick_times disk_device 25 small_bus
tick_n-tick_times_example =
    tick_n-tick_times disk_device 25 small_bus
      (record { accum = omega arith; time = omega arith; poll = omega arith }) refl (omega arith)

uart-IsReady : IsReady small_bus.plic 0 uart_irq
unfolding enabled plic_run plic_step plic_write write_priority write_enable new_plic
uart-IsReady = record { idle = refl; enables = refl; above = omega arith }

external_interrupt_pending-uart_push_input_example :
    (external_interrupt_pending (uart_push_input (0x61 ∷ 0x0a ∷ []) small_bus)).0 ≡ true
external_interrupt_pending-uart_push_input_example =
    external_interrupt_pending-uart_push_input 0x61 (0x0a ∷ []) small_bus 0
      (plic_run-IsSound (PlicOp.mmio_store 0x28 1 ∷ PlicOp.mmio_store 0x2000 0x400 ∷ []) new_plic
        new_plic-IsSound)
      (omega arith) (omega arith) uart-IsReady

bus_read_u64-bus_write_u64_example :
    (bus' : DeviceBus (VirtioBlk MemBackend)) × (bus_write_u64 disk_device 0x80000010
        0x1122334455667788 small_bus
      ≡ some bus')
    × (bus_read_u64 disk_device 0x80000010 bus' ≡ some (0x1122334455667788, bus'))
    × ((v : ℕ) × (bus_read_u64 disk_device 0x80000018 small_bus ≡ some (v, small_bus))
        × (bus_read_u64 disk_device 0x80000018 bus' ≡ some (v, bus')))
bus_read_u64-bus_write_u64_example =
    bus_read_u64-bus_write_u64 disk_device small_bus 0x80000010 0x1122334455667788 0x80000018
      (omega arith) (omega arith) (omega arith) (inr (omega arith))

bus_read_u32_panics_example : (bus_read_u32 disk_device 0x8000fffe small_bus ≡ none) ↔ (
    (dram_start ≤ 0x8000fffe)
    × (0x8000fffe < dram_start + 0x10000)
    × (dram_start + 0x10000 < 0x8000fffe + 4))
bus_read_u32_panics_example = bus_read_u32_panics disk_device small_bus 0x8000fffe

-- A ready queue of four entries in a memory where the driver has published one chain.
abbrev one_queue : QueueState
one_queue = record {
  num = 4;
  ready = true;
  desc = dram_start;
  avail = dram_start + 0x100;
  used = dram_start + 0x200;
  last_avail = 0;
}

abbrev disk_mmio : VirtioMmio (VirtioBlk MemBackend)
disk_mmio = record {
  dev = disk;
  irq = 1;
  device_features_sel = 0;
  driver_features = 0;
  driver_features_sel = 0;
  status = 15;
  queue_sel = 0;
  queues = λ i. one_queue;
  interrupt_status = 0;
  config_generation = 0;
  pending = record { queue = 0; head = 2; len = 513; due = 2000 } ∷ [];
  now = 1999;
}

abbrev published : GuestMem
published = record { dram = λ i. if i == 0x102 then 1 else 0; size = 0x10000; base = dram_start }

published_one : mem_read_u16 published (u64 (one_queue.avail + 2)) ≡ u16 (0 + 1)
unfolding mem_read_u16 mem_read window slice_at from_le_bytes
published_one = refl

notify-answer_chains_example :
    notify disk_device 0 disk_mmio published
    ≡ some (
        moved_on disk_device 0
          (mem_read_u16 published (u64 (one_queue.avail + 2)))
          (answer_chains disk_device 1 0 one_queue one_queue.last_avail false disk_mmio published))
notify-answer_chains_example =
    notify-answer_chains disk_device 0 1 disk_mmio published (omega arith) (omega arith) refl refl
      (omega arith) (omega arith) (omega arith) (omega arith) published_one

tick-mmio_write_reset_example :
    (v' : VirtioMmio (VirtioBlk MemBackend)) × (mmio_write disk_device 0x070 0 disk_mmio published
      ≡ some (true, v', published))
    × (v'.pending ≡ disk_mmio.pending)
    × (virtio_mmio_tick 1 v' published ≡ none)
tick-mmio_write_reset_example =
    tick-mmio_write_reset disk_device 1 disk_mmio published
      (record { queue = 0; head = 2; len = 513; due = 2000 }) [] refl (omega arith) (omega arith)

disk_mmio_fits : IsTransport disk_mmio
disk_mmio_fits = record {
  device_features_sel = omega arith;
  driver_features = omega arith;
  driver_features_sel = omega arith;
  status = omega arith;
  queue_sel = omega arith;
  queues = λ i. record {
    num = omega arith;
    desc = omega arith;
    avail = omega arith;
    used = omega arith;
    last_avail = omega arith;
  };
  interrupt_status = omega arith;
  config_generation = omega arith;
  now = omega arith;
  count = omega arith;
  pending = (
    record { queue = omega arith; head = omega arith; len = omega arith; due = omega arith },
    tt,
  );
}

load_virtio-save_virtio_example :
    (v' : VirtioMmio (VirtioBlk MemBackend)) × (load_virtio
        (new_virtio disk 3)
        (at (save_virtio disk_mmio (7 ∷ []) ++ 8 ∷ []) (7 ∷ []))
      ≡ some (v', at (save_virtio disk_mmio (7 ∷ []) ++ 8 ∷ []) (save_virtio disk_mmio (7 ∷ []))))
    × (save_virtio v' (7 ∷ []) ≡ save_virtio disk_mmio (7 ∷ []))
    × (v'.dev ≡ (new_virtio disk 3).dev)
    × (v'.irq ≡ (new_virtio disk 3).irq)
load_virtio-save_virtio_example =
    load_virtio-save_virtio disk_mmio (new_virtio disk 3) (7 ∷ []) (8 ∷ []) disk_mmio_fits

-- ===== src/Devices/Bus/Clock.antt =====
-- crates/riscv-devices/src/device_bus.rs: the clock of the bus, by retired instructions and by jumps while
-- the hart is idle.
pub mod Steps
use tab_linux.Base.{
  ℕ, ◌+◌, ◌-◌, ◌/◌, ◌%◌, ◌^◌, min, Bool, false, ◌&&◌, ◌||◌, Option, none, some, ltb, leb, ◌==◌,
  if◌then◌else◌, u32, u64,
}
use tab_linux.Devices.Bus.{DeviceBus}
use tab_linux.Devices.Virtio.{VirtioDevice}
use tab_linux.Devices.Bus.Virtio.{virtio_tick}

abbrev pub mtime_steps_per_tick : ℕ
mtime_steps_per_tick = 10

abbrev pub max_idle_skip : ℕ
max_idle_skip = 10000

module _ {D : Type 0} where
  unfoldable pub fast_forward_mtime : (target : ℕ) → DeviceBus D → DeviceBus D
  fast_forward_mtime target bus =
      if ltb bus.mtime target then record bus { mtime = target; tick_accum = 0 } else bus

  -- `waiting` tells whether a frame is queued for the guest.
  abbrev pub stalls : (waiting : Bool) → DeviceBus D → Bool
  stalls waiting bus = waiting && ltb bus.idle_stall 4096

  abbrev pub count_stall : DeviceBus D → DeviceBus D
  count_stall bus = record bus { idle_stall = bus.idle_stall + 1 }

  abbrev pub clear_stall : DeviceBus D → DeviceBus D
  clear_stall bus = record bus { idle_stall = 0 }

  unfoldable pub idle_skip_mtime_to : (waiting : Bool) → (target : ℕ) → DeviceBus D → DeviceBus D
  idle_skip_mtime_to waiting target bus =
      if stalls waiting bus then count_stall bus else fast_forward_mtime target (clear_stall bus)

  unfoldable pub idle_skip_mtime : (waiting : Bool) → (target : ℕ) → DeviceBus D → DeviceBus D
  idle_skip_mtime waiting target bus =
      if stalls waiting bus
      then count_stall bus
      else fast_forward_mtime (min target (u64 (bus.mtime + max_idle_skip))) (clear_stall bus)

  unfoldable pub idle_skip_mtime_realtime :
      (waiting : Bool) → (target allowance : ℕ) → DeviceBus D → Bool × DeviceBus D
  idle_skip_mtime_realtime waiting target allowance bus =
      let reach : ℕ = min target (min (bus.mtime + allowance) (2 ^ 64 - 1)) in
      let skipped : DeviceBus D = fast_forward_mtime reach (clear_stall bus) in
      if stalls waiting bus then (false, count_stall bus) else (leb target skipped.mtime, skipped)

  unfoldable pub check_timer_interrupt : DeviceBus D → Bool
  check_timer_interrupt bus = leb bus.mtimecmp bus.mtime

  -- The address of a page of the memory; `host` is where the memory lies in the linear memory.
  unfoldable pub dram_page_host_addr : (host : ℕ) → DeviceBus D → (paddr : ℕ) → Option ℕ
  dram_page_host_addr host bus paddr =
      let page : ℕ = paddr - paddr % 2 ^ 12 in
      let off : ℕ = page - bus.mem.base in
      if ltb page bus.mem.base || leb (2 ^ 64) (off + 4096) || ltb bus.mem.size (off + 4096)
      then none
      else some (u32 (host + off))

  module _ (device : VirtioDevice D) where
    unfoldable pub tick : DeviceBus D → Option (DeviceBus D)
    tick bus =
        let accum : ℕ = u64 (bus.tick_accum + 1) in
        virtio_tick device 1 (
          if leb mtime_steps_per_tick accum
          then record bus { tick_accum = 0; mtime = u64 (bus.mtime + 1) }
          else record bus { tick_accum = accum })

    unfoldable pub tick_n : (n : ℕ) → DeviceBus D → Option (DeviceBus D)
    tick_n n bus =
        let accum : ℕ = u64 (bus.tick_accum + n) in
        let many : DeviceBus D = record bus {
          tick_accum = accum % mtime_steps_per_tick;
          mtime = u64 (bus.mtime + accum / mtime_steps_per_tick);
          net_poll_accum = u64 (bus.net_poll_accum + (n - 1));
        } in
        if n == 0 then some bus else if n == 1 then tick bus else virtio_tick device n many

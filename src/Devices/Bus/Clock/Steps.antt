-- ===== src/Devices/Bus/Clock/Steps.antt =====
-- Advancing the clock by many instructions at once, against one tick for each.
use tab_linux.Base.{
  ℕ, zero, suc, ◌+◌, ◌-◌, ◌/◌, ◌%◌, ◌^◌, ◌<◌, ◌≡◌, refl, sym, ap, ◌∙◌, inl, inr, false, Option,
  some, arith, leb, ◌==◌, Bool-cases, ◌>>=◌, u64,
}
use tab_linux.Devices.Bus.{DeviceBus}
use tab_linux.Devices.Virtio.{VirtioDevice}
use tab_linux.Devices.Bus.Virtio.{tick_slots, virtio_tick}
use tab_linux.Devices.Bus.Clock.{mtime_steps_per_tick, tick, tick_n}
use tab_linux.Cpu.Arms.{advance}

-- The numbers of the clock are in range.
pub record IsClock {D : Type 0} (bus : DeviceBus D) : Type 0 where
  pub accum : bus.tick_accum < mtime_steps_per_tick
  pub time : bus.mtime < 2 ^ 64
  pub poll : bus.net_poll_accum < 2 ^ 64

module _ {D : Type 0} (device : VirtioDevice D) where
  unfoldable pub tick_times : ℕ → DeviceBus D → Option (DeviceBus D)
  tick_times zero bus = some bus
  tick_times (suc n) bus = do bus' ← tick device bus; tick_times n bus'

  virtio_tick-empty :
      (advance : ℕ) (bus : DeviceBus D)
      → bus.virtio_n ≡ 0
      → virtio_tick device advance bus
        ≡ some (record bus { net_poll_accum = u64 (bus.net_poll_accum + 1) })
  unfolding virtio_tick tick_slots
  virtio_tick-empty advance bus empty = rw empty refl

  -- Where n ticks take the clock.
  abbrev advanced : ℕ → DeviceBus D → DeviceBus D
  advanced n bus = record bus {
    tick_accum = (bus.tick_accum + n) % mtime_steps_per_tick;
    mtime = u64 (bus.mtime + (bus.tick_accum + n) / mtime_steps_per_tick);
    net_poll_accum = u64 (bus.net_poll_accum + n);
  }

  -- The numbers of the clock, put into a bus.
  abbrev clock_at : DeviceBus D → (accum time poll : ℕ) → DeviceBus D
  clock_at bus accum time poll = record bus {
    tick_accum = accum;
    mtime = time;
    net_poll_accum = poll;
  }

  clock_at_eq :
      (bus : DeviceBus D) {a b s t p q : ℕ}
      → a ≡ b
      → s ≡ t
      → p ≡ q
      → clock_at bus a s p ≡ clock_at bus b t q
  clock_at_eq bus ea es ep = rw (ea, es, ep) refl

  tick-advanced :
      (bus : DeviceBus D) → IsClock bus → bus.virtio_n ≡ 0 → tick device bus ≡ some (advanced 1 bus)
  unfolding tick
  tick-advanced bus clock empty =
      elim (Bool-cases (leb mtime_steps_per_tick (u64 (bus.tick_accum + 1)))) [
        | inl full ↦ rw full (
            virtio_tick-empty 1 (record bus { tick_accum = 0; mtime = u64 (bus.mtime + 1) }) empty
            ∙ ap some
                (clock_at_eq bus (ground (arith, clock.accum)) (ground (arith, clock.accum)) refl))
        | inr part ↦ rw part (
            virtio_tick-empty 1 (record bus { tick_accum = u64 (bus.tick_accum + 1) }) empty
            ∙ ap some (
                clock_at_eq bus (ground (arith, clock.accum))
                  (ground (arith, clock.accum, clock.time)) refl))
      ]

  advanced-suc :
      (n : ℕ) (bus : DeviceBus D) → IsClock bus → advanced n (advanced 1 bus) ≡ advanced (suc n) bus
  advanced-suc n bus clock = clock_at_eq bus (omega arith) (omega arith) (omega arith)

  tick_times-advanced :
      (n : ℕ) (bus : DeviceBus D)
      → IsClock bus
      → bus.virtio_n ≡ 0
      → tick_times n bus ≡ some (advanced n bus)
  unfolding tick_times
  tick_times-advanced zero bus clock empty =
      ap some (clock_at_eq bus (omega arith) (omega arith) (omega arith))
  tick_times-advanced (suc n) bus clock empty = rw (tick-advanced bus clock empty) (
      tick_times-advanced n (advanced 1 bus)
        (record { accum = omega arith; time = omega arith; poll = omega arith }) empty
      ∙ ap some (advanced-suc n bus clock))

  -- What `tick_n` credits before it asks the devices.
  abbrev credited : ℕ → DeviceBus D → DeviceBus D
  credited n bus = record bus {
    tick_accum = u64 (bus.tick_accum + n) % mtime_steps_per_tick;
    mtime = u64 (bus.mtime + u64 (bus.tick_accum + n) / mtime_steps_per_tick);
    net_poll_accum = u64 (bus.net_poll_accum + (n - 1));
  }

  -- On a bus with no devices, advancing by n instructions does what n ticks do.
  pub tick_n-tick_times :
      (n : ℕ) (bus : DeviceBus D)
      → IsClock bus
      → bus.virtio_n ≡ 0
      → bus.tick_accum + n < 2 ^ 64
      → tick_n device n bus ≡ tick_times n bus
  unfolding tick_n
  tick_n-tick_times zero bus clock empty fits = unfold tick_times in refl
  tick_n-tick_times (suc zero) bus clock empty fits =
      unfold tick_times in rw (tick-advanced bus clock empty) refl
  tick_n-tick_times (suc (suc n)) bus clock empty fits =
      let some_steps : (suc (suc n) == 0) ≡ false = ground arith in
      let more_steps : (suc (suc n) == 1) ≡ false = ground arith in
      rw (some_steps, more_steps)
        (virtio_tick-empty (suc (suc n)) (credited (suc (suc n)) bus) empty
          ∙ ap some (clock_at_eq bus (omega arith) (omega arith) (omega arith))
          ∙ sym (tick_times-advanced (suc (suc n)) bus clock empty))

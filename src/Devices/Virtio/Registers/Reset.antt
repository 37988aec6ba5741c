-- ===== src/Devices/Virtio/Registers/Reset.antt =====
-- What a reset of the driver leaves behind.
use tab_linux.Base.{
  ℕ, ◌+◌, ◌≤◌, ◌<◌, ◌≡◌, refl, true, false, none, some, List, ◌∷◌, arith, ltb, u64,
}
use tab_linux.Devices.Memory.{GuestMem}
use tab_linux.Devices.Virtio.{max_queues, Completion, VirtioDevice, VirtioMmio}
use tab_linux.Devices.Virtio.Queues.{report, retire_due, virtio_mmio_tick}
use tab_linux.Devices.Virtio.Registers.{mmio_write, write_status}
use tab_linux.Devices.Virtio.Rings.{push_used}

module _ {D : Type 0} (device : VirtioDevice D) where
  -- A driver that resets the device while a completion is pending leaves the completion; when it is
  -- due, its report divides by the size of a queue that is reset, and panics.
  pub tick-mmio_write_reset :
      (amount : ℕ) (v : VirtioMmio D) (mem : GuestMem) (c : Completion) (cs : List Completion)
      → v.pending ≡ c ∷ cs
      → c.queue < max_queues
      → c.due ≤ u64 (v.now + amount)
      → (v' : VirtioMmio D) × (mmio_write device 0x070 0 v mem ≡ some (true, v', mem))
        × (v'.pending ≡ c ∷ cs)
        × (virtio_mmio_tick amount v' mem ≡ none)
  unfolding mmio_write write_status virtio_mmio_tick retire_due report push_used
  tick-mmio_write_reset amount v mem c cs held lt due = (
    (write_status 0 v).1,
    refl,
    held,
    let early : ltb (u64 (v.now + amount)) c.due ≡ false = ground arith in
        let there : ltb c.queue max_queues ≡ true = ground arith in rw (held, early, there) refl,
  )

-- ===== src/Devices/Virtio/Registers.antt =====
-- crates/riscv-devices/src/virtio.rs: the registers of the transport.
pub mod Reset
use tab_linux.Base.{
  ℕ, ◌+◌, ◌-◌, ◌*◌, ◌%◌, ◌^◌, bit_and, bit_or, Bool, true, false, Option, some, [], ◌∷◌, ltb, leb,
  ◌==◌, if◌then◌else◌, select, u8, u16, u32, shr, low_bits,
}
use tab_linux.Devices.Memory.{GuestMem}
use tab_linux.Devices.Virtio.{
  default_queue, max_queues, set_queue, QueueState, VirtioDevice, VirtioMmio,
}
use tab_linux.Snapshot.{from_le_bytes}
use tab_linux.Devices.Virtio.Queues.{notify}

-- The halves of a 64-bit register.
abbrev pub put_low : (old val : ℕ) → ℕ
put_low old val = bit_or (shr old 32 * 2 ^ 32) val

abbrev pub put_high : (old val : ℕ) → ℕ
put_high old val = bit_or (low_bits old 32) (val * 2 ^ 32)

unfoldable pub set_ready : ℕ → QueueState → QueueState
set_ready val q =
    if val % 2 == 1 then record q { ready = true } else record q { ready = false; last_avail = 0 }

module _ {D : Type 0} where
  -- `with_queue`
  unfoldable pub with_queue : VirtioMmio D → (QueueState → QueueState) → VirtioMmio D
  with_queue v f =
      if ltb v.queue_sel max_queues then set_queue v v.queue_sel (f (v.queues v.queue_sel)) else v

  -- A write of the status; 0 is the reset of the driver.
  unfoldable pub write_status : ℕ → VirtioMmio D → Bool × VirtioMmio D
  write_status val v =
      if val == 0
      then (
        true,
        record v {
          status = val;
          queues = λ i. default_queue;
          interrupt_status = 0;
          driver_features = 0;
        },
      )
      else (false, record v { status = val })

  module _ (device : VirtioDevice D) where
    unfoldable pub mmio_read : VirtioMmio D → (off : ℕ) → ℕ
    mmio_read v off =
        let q : QueueState =
          if ltb v.queue_sel max_queues then v.queues v.queue_sel else default_queue in
        let b : ℕ = off - 0x100 in
        if leb 0x100 off
        then from_le_bytes (
            device.config_read v.dev b
            ∷ device.config_read v.dev (b + 1)
            ∷ device.config_read v.dev (b + 2)
            ∷ device.config_read v.dev (b + 3)
            ∷ [])
        else select off
            ((0x000, 0x74726976)
              ∷ (0x004, 2)
              ∷ (0x008, device.device_id v.dev)
              ∷ (0x00c, 0x554d4551)
              ∷ (
                0x010,
                if v.device_features_sel == 0
                    then u32 (device.features v.dev)
                    else u32 (shr (device.features v.dev) 32),
              )
              ∷ (0x034, 256)
              ∷ (0x044, if q.ready then 1 else 0)
              ∷ (0x060, v.interrupt_status)
              ∷ (0x070, v.status)
              ∷ (0x0fc, v.config_generation)
              ∷ [])
            0

    -- The registers that the driver sets without a further effect.
    unfoldable pub set_register : (off val : ℕ) → VirtioMmio D → VirtioMmio D
    set_register off val v =
        select off
          ((0x014, record v { device_features_sel = val })
            ∷ (
              0x020,
              record v {
                driver_features =
                    if v.driver_features_sel == 0
                    then put_low v.driver_features val
                    else put_high v.driver_features val;
              },
            )
            ∷ (0x024, record v { driver_features_sel = val })
            ∷ (0x030, record v { queue_sel = val })
            ∷ (0x038, with_queue v λ q. record q { num = u16 val })
            ∷ (0x044, with_queue v (set_ready val))
            ∷ (0x080, with_queue v λ q. record q { desc = put_low q.desc val })
            ∷ (0x084, with_queue v λ q. record q { desc = put_high q.desc val })
            ∷ (0x090, with_queue v λ q. record q { avail = put_low q.avail val })
            ∷ (0x094, with_queue v λ q. record q { avail = put_high q.avail val })
            ∷ (0x0a0, with_queue v λ q. record q { used = put_low q.used val })
            ∷ (0x0a4, with_queue v λ q. record q { used = put_high q.used val })
            ∷ [])
          v

    unfoldable pub mmio_write :
        (off val : ℕ) → VirtioMmio D → GuestMem → Option (Bool × VirtioMmio D × GuestMem)
    mmio_write off val v mem =
        let status : Bool × VirtioMmio D = write_status val v in
        if leb 0x100 off
        then some (false, record v { dev = device.config_write v.dev (off - 0x100) (u8 val) }, mem)
        else if off == 0x050
        then notify device val v mem
        else if off == 0x064
        then some (
          true,
          record v { interrupt_status = bit_and v.interrupt_status (2 ^ 32 - 1 - val) },
          mem,
        )
        else if off == 0x070
        then some (status.0, status.1, mem)
        else some (false, set_register off val v, mem)

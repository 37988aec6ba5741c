-- ===== src/Devices/Bus/Access/Dram.antt =====
-- The memory through the bus.
use tab_linux.Base.{
  ℕ, ◌+◌, ◌-◌, ◌^◌, ◌≤◌, ◌<◌, ◌≡◌, ap, ◌∙◌, ◌≢◌, ◌↔◌, ◌⊎◌, inl, inr, none, some, List, arith,
  Option-cases, length,
}
use tab_linux.Devices.Bus.{dram_offset, DeviceBus}
use tab_linux.Devices.Virtio.{VirtioDevice}
use tab_linux.Devices.Bus.Access.{
  bus_read_u32, bus_read_u64, bus_read_u8, bus_write_u64, device_read_u32, dram_read, dram_write,
}
use tab_linux.Devices.Memory.{copy_slice, slice_at}
use tab_linux.Snapshot.{from_le_bytes, to_le_bytes}
use tab_linux.Snapshot.RoundTrip.{from_le_bytes-to_le_bytes_8, length-to_le_bytes}
use tab_linux.Devices.Memory.Slices.{slice_at-copy_slice, slice_at-copy_slice_apart}

module _ {D : Type 0} (device : VirtioDevice D) where
  -- The n bytes from an address on are in the memory.
  abbrev pub InDram : DeviceBus D → (addr n : ℕ) → Type 0
  InDram bus addr n = (bus.mem.base ≤ addr) × (addr + n ≤ bus.mem.base + bus.mem.size)

  -- The bus after a store of n bytes to the memory.
  abbrev pub stored : (n addr val : ℕ) → DeviceBus D → DeviceBus D
  stored n addr val bus = record bus {
    mem = record bus.mem {
      dram = copy_slice (to_le_bytes n val) (addr - bus.mem.base) bus.mem.dram;
    };
  }

  dram_offset-InDram :
      (bus : DeviceBus D) (addr n : ℕ)
      → 0 < n
      → InDram bus addr n
      → dram_offset bus addr ≡ some (addr - bus.mem.base)
  unfolding dram_offset
  dram_offset-InDram bus addr n pos h = ground (arith, h.0, h.1)

  bus_write_u64-stored :
      (bus : DeviceBus D) (addr val : ℕ)
      → InDram bus addr 8
      → bus_write_u64 device addr val bus ≡ some (stored 8 addr val bus)
  unfolding bus_write_u64 dram_write
  bus_write_u64-stored bus addr val h =
      ground (arith, dram_offset-InDram bus addr 8 (omega arith) h, h.0, h.1)

  bus_read_u64-dram :
      (bus : DeviceBus D) (addr : ℕ)
      → InDram bus addr 8
      → bus_read_u64 device addr bus
        ≡ some (from_le_bytes (slice_at 8 (addr - bus.mem.base) bus.mem.dram), bus)
  unfolding bus_read_u64 dram_read
  bus_read_u64-dram bus addr h =
      ground (arith, dram_offset-InDram bus addr 8 (omega arith) h, h.0, h.1)

  apart_offsets :
      (bus : DeviceBus D) (addr val other : ℕ)
      → InDram bus addr 8
      → InDram bus other 8
      → (other + 8 ≤ addr) ⊎ (addr + 8 ≤ other)
      → (other - bus.mem.base + 8 ≤ addr - bus.mem.base)
        ⊎ (addr - bus.mem.base + length (to_le_bytes 8 val) ≤ other - bus.mem.base)
  apart_offsets bus addr val other h h' apart = elim apart [
    | inl before ↦ inl (omega (arith, h.0, h'.0))
    | inr behind ↦ inr (omega (arith, h.0, h'.0, length-to_le_bytes 8 val))
  ]

  -- A doubleword stored to the memory is read back, and one apart from it reads as before.
  pub bus_read_u64-bus_write_u64 :
      (bus : DeviceBus D) (addr val other : ℕ)
      → InDram bus addr 8
      → val < 2 ^ 64
      → InDram bus other 8
      → (other + 8 ≤ addr) ⊎ (addr + 8 ≤ other)
      → (bus' : DeviceBus D) × (bus_write_u64 device addr val bus ≡ some bus')
        × (bus_read_u64 device addr bus' ≡ some (val, bus'))
        × ((v : ℕ) × (bus_read_u64 device other bus ≡ some (v, bus))
            × (bus_read_u64 device other bus' ≡ some (v, bus')))
  unfolding to_le_bytes
  bus_read_u64-bus_write_u64 bus addr val other h fits h' apart = (
    stored 8 addr val bus,
    bus_write_u64-stored bus addr val h,
    bus_read_u64-dram (stored 8 addr val bus) addr h
        ∙ ap (λ (v : ℕ). some (v, stored 8 addr val bus))
            (ap from_le_bytes
                (slice_at-copy_slice (to_le_bytes 8 val) (addr - bus.mem.base) bus.mem.dram)
              ∙ from_le_bytes-to_le_bytes_8 val fits),
    (
      from_le_bytes (slice_at 8 (other - bus.mem.base) bus.mem.dram),
      bus_read_u64-dram bus other h',
      bus_read_u64-dram (stored 8 addr val bus) other h'
          ∙ ap (λ (bytes : List ℕ). some (from_le_bytes bytes, stored 8 addr val bus))
              (slice_at-copy_slice_apart 8 (other - bus.mem.base) (to_le_bytes 8 val)
                (addr - bus.mem.base) bus.mem.dram (apart_offsets bus addr val other h h' apart)),
    ),
  )

  uart_read_u8-ne-none :
      (bus : DeviceBus D) (addr : ℕ)
      → dram_offset bus addr ≡ none
      → bus_read_u8 device addr bus ≢ none
  unfolding bus_read_u8
  uart_read_u8-ne-none bus addr outside = ground (arith, outside)

  device_read_u32-ne-none :
      (bus : DeviceBus D) (addr : ℕ)
      → dram_offset bus addr ≡ none
      → device_read_u32 device addr bus ≢ none
  unfolding device_read_u32
  device_read_u32-ne-none bus addr outside =
      ground (arith, outside, uart_read_u8-ne-none bus addr outside)

  read_u32_outside :
      (bus : DeviceBus D) (addr : ℕ)
      → dram_offset bus addr ≡ none
      → bus_read_u32 device addr bus ≢ none
  unfolding bus_read_u32
  read_u32_outside bus addr outside =
      ground (arith, outside, device_read_u32-ne-none bus addr outside)

  dram_offset-none :
      (bus : DeviceBus D) (addr : ℕ)
      → dram_offset bus addr ≡ none
      → bus.mem.base ≤ addr
      → bus.mem.base + bus.mem.size ≤ addr
  unfolding dram_offset
  dram_offset-none bus addr outside low = ground arith

  dram_offset-some :
      (bus : DeviceBus D) (addr off : ℕ)
      → dram_offset bus addr ≡ some off
      → (off ≡ addr - bus.mem.base) × (bus.mem.base ≤ addr) × (addr < bus.mem.base + bus.mem.size)
  unfolding dram_offset
  dram_offset-some bus addr off inside = ground arith

  -- A word load panics exactly if it starts in the memory and ends behind it.
  pub bus_read_u32_panics :
      (bus : DeviceBus D) (addr : ℕ)
      → (bus_read_u32 device addr bus ≡ none) ↔ (
          (bus.mem.base ≤ addr)
          × (addr < bus.mem.base + bus.mem.size)
          × (bus.mem.base + bus.mem.size < addr + 4))
  unfolding bus_read_u32 dram_read
  bus_read_u32_panics bus addr = elim (Option-cases (dram_offset bus addr)) [
    | inl outside ↦ (
      λ panics. absurd (read_u32_outside bus addr outside panics),
      λ crosses. absurd (omega (arith, dram_offset-none bus addr outside crosses.0, crosses.1)),
    )
    | inr (off, inside) ↦
        (let place = dram_offset-some bus addr off inside in
          (
            λ panics. (place.1, place.2, ground (arith, inside, panics, place.0, place.1)),
            λ crosses. ground (arith, inside, place.0, place.1, crosses.2),
          ))
  ]

-- ===== src/Devices/Virtio/Save/RoundTrip.antt =====
-- The snapshot of the transport, saved and loaded.
use tab_linux.Base.{ℕ, ◌^◌, ◌<◌, ◌≡◌, refl, some, List, ◌++◌, length, All}
use tab_linux.Devices.Virtio.{max_queues, VirtioMmio}
use tab_linux.Snapshot.{write_u32, write_u64, Writer}
use tab_linux.Snapshot.Prefix.{
  Prefix, Prefix-write_u32, Prefix-write_u64, at, read_u32-write_u32, read_u64-write_u64,
}
use tab_linux.Devices.Virtio.Save.{
  load_selectors, load_virtio, save_queues, save_selectors, save_virtio,
}
use tab_linux.Devices.Virtio.Save.Queues.{
  IsCompletion, IsQueue, Prefix-save_pending, Prefix-save_queues, fill_queues,
  load_pending-save_pending, load_queues-save_queues,
}

module _ {D : Type 0} where
  -- The numbers of the registers are of their types.
  pub record IsTransport (v : VirtioMmio D) : Type 0 where
    pub device_features_sel : v.device_features_sel < 2 ^ 32
    pub driver_features : v.driver_features < 2 ^ 64
    pub driver_features_sel : v.driver_features_sel < 2 ^ 32
    pub status : v.status < 2 ^ 32
    pub queue_sel : v.queue_sel < 2 ^ 64
    pub queues : (i : ℕ) → IsQueue (v.queues i)
    pub interrupt_status : v.interrupt_status < 2 ^ 32
    pub config_generation : v.config_generation < 2 ^ 32
    pub now : v.now < 2 ^ 64
    pub count : length v.pending < 2 ^ 64
    pub pending : All IsCompletion v.pending

  selectors_restored : VirtioMmio D → VirtioMmio D → VirtioMmio D
  selectors_restored v v₀ = record v₀ {
    device_features_sel = v.device_features_sel;
    driver_features = v.driver_features;
    driver_features_sel = v.driver_features_sel;
    status = v.status;
    queue_sel = v.queue_sel;
  }

  Prefix-save_selectors :
      (v : VirtioMmio D) (w buf : List ℕ) → Prefix (save_selectors v w) buf → Prefix w buf
  unfolding save_selectors
  Prefix-save_selectors v w buf p = Prefix-write_u32 w buf v.device_features_sel (
      Prefix-write_u64 _ buf v.driver_features (
        Prefix-write_u32 _ buf v.driver_features_sel
          (Prefix-write_u32 _ buf v.status (Prefix-write_u64 _ buf v.queue_sel p))))

  load_selectors-save_selectors :
      (v v₀ : VirtioMmio D) (w buf : List ℕ)
      → IsTransport v
      → Prefix (save_selectors v w) buf
      → load_selectors v₀ (at buf w) ≡ some (selectors_restored v v₀, at buf (save_selectors v w))
  unfolding load_selectors save_selectors selectors_restored
  load_selectors-save_selectors v v₀ w buf fits p₅ =
      let w₁ : Writer = write_u32 w v.device_features_sel in
      let w₂ : Writer = write_u64 w₁ v.driver_features in
      let w₃ : Writer = write_u32 w₂ v.driver_features_sel in
      let w₄ : Writer = write_u32 w₃ v.status in
      let p₄ : Prefix w₄ buf = Prefix-write_u64 w₄ buf v.queue_sel p₅ in
      let p₃ : Prefix w₃ buf = Prefix-write_u32 w₃ buf v.status p₄ in
      let p₂ : Prefix w₂ buf = Prefix-write_u32 w₂ buf v.driver_features_sel p₃ in
      let p₁ : Prefix w₁ buf = Prefix-write_u64 w₁ buf v.driver_features p₂ in
      rw
        (
          read_u32-write_u32 w buf v.device_features_sel fits.device_features_sel p₁,
          read_u64-write_u64 w₁ buf v.driver_features fits.driver_features p₂,
          read_u32-write_u32 w₂ buf v.driver_features_sel fits.driver_features_sel p₃,
          read_u32-write_u32 w₃ buf v.status fits.status p₄,
          read_u64-write_u64 w₄ buf v.queue_sel fits.queue_sel p₅,
        )
        refl

  restored : VirtioMmio D → VirtioMmio D → VirtioMmio D
  restored v v₀ = record (selectors_restored v v₀) {
    queues = fill_queues max_queues 0 v.queues (selectors_restored v v₀).queues;
    interrupt_status = v.interrupt_status;
    config_generation = v.config_generation;
    now = v.now;
    pending = v.pending;
  }

  load_virtio-restored :
      (v v₀ : VirtioMmio D) (w buf : List ℕ)
      → IsTransport v
      → Prefix (save_virtio v w) buf
      → load_virtio v₀ (at buf w) ≡ some (restored v v₀, at buf (save_virtio v w))
  unfolding load_virtio save_virtio restored
  load_virtio-restored v v₀ w buf fits p₇ =
      let w₁ : Writer = save_selectors v w in
      let w₂ : Writer = save_queues max_queues 0 v.queues w₁ in
      let w₃ : Writer = write_u32 w₂ v.interrupt_status in
      let w₄ : Writer = write_u32 w₃ v.config_generation in
      let w₅ : Writer = write_u64 w₄ v.now in
      let w₆ : Writer = write_u64 w₅ (length v.pending) in
      let p₆ : Prefix w₆ buf = Prefix-save_pending v.pending w₆ buf p₇ in
      let p₅ : Prefix w₅ buf = Prefix-write_u64 w₅ buf (length v.pending) p₆ in
      let p₄ : Prefix w₄ buf = Prefix-write_u64 w₄ buf v.now p₅ in
      let p₃ : Prefix w₃ buf = Prefix-write_u32 w₃ buf v.config_generation p₄ in
      let p₂ : Prefix w₂ buf = Prefix-write_u32 w₂ buf v.interrupt_status p₃ in
      let p₁ : Prefix w₁ buf = Prefix-save_queues max_queues 0 v.queues w₁ buf p₂ in
      rw
        (
          load_selectors-save_selectors v v₀ w buf fits p₁,
          load_queues-save_queues max_queues 0 v.queues (selectors_restored v v₀).queues w₁ buf
              fits.queues p₂,
          read_u32-write_u32 w₂ buf v.interrupt_status fits.interrupt_status p₃,
          read_u32-write_u32 w₃ buf v.config_generation fits.config_generation p₄,
          read_u64-write_u64 w₄ buf v.now fits.now p₅,
          read_u64-write_u64 w₅ buf (length v.pending) fits.count p₆,
          load_pending-save_pending v.pending w₆ buf fits.pending p₇,
        )
        refl

  save_virtio-restored :
      (v v₀ : VirtioMmio D) (w : Writer) → save_virtio (restored v v₀) w ≡ save_virtio v w
  unfolding save_virtio save_selectors save_queues restored selectors_restored fill_queues
  save_virtio-restored v v₀ w = refl

  -- A snapshot of the transport of a device, written behind anything and followed by anything, loads
  -- into any transport; the device and the line of that one stay, and the snapshot of what is loaded
  -- is the same.
  pub load_virtio-save_virtio :
      (v v₀ : VirtioMmio D) (w post : List ℕ)
      → IsTransport v
      → (v' : VirtioMmio D) × (load_virtio v₀ (at (save_virtio v w ++ post) w)
          ≡ some (v', at (save_virtio v w ++ post) (save_virtio v w)))
        × (save_virtio v' w ≡ save_virtio v w)
        × (v'.dev ≡ v₀.dev)
        × (v'.irq ≡ v₀.irq)
  unfolding restored selectors_restored
  load_virtio-save_virtio v v₀ w post fits = (
    restored v v₀,
    load_virtio-restored v v₀ w (save_virtio v w ++ post) fits (post, refl),
    save_virtio-restored v v₀ w,
    refl,
    refl,
  )

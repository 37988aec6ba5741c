-- ===== src/Devices/Virtio/Save.antt =====
-- crates/riscv-devices/src/virtio.rs: `save_state` and `load_state`, the snapshot of the transport.
pub mod Queues
pub mod RoundTrip
use tab_linux.Base.{ℕ, zero, suc, Option, some, List, [], ◌∷◌, ◌==◌, if◌then◌else◌, ◌>>=◌, length}
use tab_linux.Devices.Virtio.{max_queues, Completion, QueueState, VirtioMmio}
use tab_linux.Snapshot.{
  read_bool, read_u16, read_u32, read_u64, write_bool, write_u16, write_u32, write_u64, Reader,
  Writer,
}

unfoldable pub save_queue : QueueState → Writer → Writer
save_queue q w =
    let w₁ : Writer = write_bool (write_u16 w q.num) q.ready in
    let w₂ : Writer = write_u64 (write_u64 (write_u64 w₁ q.desc) q.avail) q.used in
    write_u16 w₂ q.last_avail

unfoldable pub save_queues : (count i : ℕ) → (ℕ → QueueState) → Writer → Writer
save_queues zero i queues w = w
save_queues (suc count) i queues w = save_queues count (suc i) queues (save_queue (queues i) w)

unfoldable pub save_completion : Completion → Writer → Writer
save_completion c w = write_u64 (write_u32 (write_u16 (write_u64 w c.queue) c.head) c.len) c.due

unfoldable pub save_pending : List Completion → Writer → Writer
save_pending [] w = w
save_pending (c ∷ cs) w = save_pending cs (save_completion c w)

unfoldable pub load_queue : Reader → Option (QueueState × Reader)
load_queue r = do
  (num, r₁) ← read_u16 r
  (ready, r₂) ← read_bool r₁
  (desc, r₃) ← read_u64 r₂
  (avail, r₄) ← read_u64 r₃
  (used, r₅) ← read_u64 r₄
  (last_avail, r₆) ← read_u16 r₅
  some (
    record {
      num = num;
      ready = ready;
      desc = desc;
      avail = avail;
      used = used;
      last_avail = last_avail;
    },
    r₆,
  )

unfoldable pub load_queues :
    (count i : ℕ) → (ℕ → QueueState) → Reader → Option ((ℕ → QueueState) × Reader)
load_queues zero i queues r = some (queues, r)
load_queues (suc count) i queues r = do
  (q, r') ← load_queue r
  load_queues count (suc i) (λ k. if i == k then q else queues k) r'

unfoldable pub load_completion : Reader → Option (Completion × Reader)
load_completion r = do
  (queue, r₁) ← read_u64 r
  (head, r₂) ← read_u16 r₁
  (len, r₃) ← read_u32 r₂
  (due, r₄) ← read_u64 r₃
  some (record { queue = queue; head = head; len = len; due = due }, r₄)

unfoldable pub load_pending : (count : ℕ) → Reader → Option (List Completion × Reader)
load_pending zero r = some ([], r)
load_pending (suc count) r = do
  (c, r₁) ← load_completion r
  (cs, r₂) ← load_pending count r₁
  some (c ∷ cs, r₂)

module _ {D : Type 0} where
  -- The registers before the queues.
  unfoldable pub save_selectors : VirtioMmio D → Writer → Writer
  save_selectors v w =
      let w₁ : Writer = write_u64 (write_u32 w v.device_features_sel) v.driver_features in
      write_u64 (write_u32 (write_u32 w₁ v.driver_features_sel) v.status) v.queue_sel

  unfoldable pub save_virtio : VirtioMmio D → Writer → Writer
  save_virtio v w =
      let w₁ : Writer = save_queues max_queues 0 v.queues (save_selectors v w) in
      let w₂ : Writer = write_u32 (write_u32 w₁ v.interrupt_status) v.config_generation in
      save_pending v.pending (write_u64 (write_u64 w₂ v.now) (length v.pending))

  unfoldable pub load_selectors : VirtioMmio D → Reader → Option (VirtioMmio D × Reader)
  load_selectors v r = do
    (device_features_sel, r₁) ← read_u32 r
    (driver_features, r₂) ← read_u64 r₁
    (driver_features_sel, r₃) ← read_u32 r₂
    (status, r₄) ← read_u32 r₃
    (queue_sel, r₅) ← read_u64 r₄
    some (
      record v {
        device_features_sel = device_features_sel;
        driver_features = driver_features;
        driver_features_sel = driver_features_sel;
        status = status;
        queue_sel = queue_sel;
      },
      r₅,
    )

  unfoldable pub load_virtio : VirtioMmio D → Reader → Option (VirtioMmio D × Reader)
  load_virtio v r = do
    (v₁, r₁) ← load_selectors v r
    (queues, r₂) ← load_queues max_queues 0 v₁.queues r₁
    (interrupt_status, r₃) ← read_u32 r₂
    (config_generation, r₄) ← read_u32 r₃
    (now, r₅) ← read_u64 r₄
    (count, r₆) ← read_u64 r₅
    (pending, r₇) ← load_pending count r₆
    some (
      record v₁ {
        queues = queues;
        interrupt_status = interrupt_status;
        config_generation = config_generation;
        now = now;
        pending = pending;
      },
      r₇,
    )

-- ===== src/Devices/Virtio/Save/Queues.antt =====
-- The queues and the pending completions in a snapshot of the transport.
use tab_linux.Base.{
  ℕ, zero, suc, ◌^◌, ◌<◌, ◌≡◌, refl, some, List, [], ◌∷◌, ◌==◌, if◌then◌else◌, length, All,
}
use tab_linux.Devices.Virtio.{Completion, QueueState}
use tab_linux.Snapshot.{write_bool, write_u16, write_u32, write_u64, Writer}
use tab_linux.Snapshot.Prefix.{
  Prefix, Prefix-write_bool, Prefix-write_u16, Prefix-write_u32, Prefix-write_u64, at,
  read_bool-write_bool, read_u16-write_u16, read_u32-write_u32, read_u64-write_u64,
}
use tab_linux.Devices.Virtio.Save.{
  load_completion, load_pending, load_queue, load_queues, save_completion, save_pending, save_queue,
  save_queues,
}

-- The numbers of a queue and of a completion are of their types.
pub record IsQueue (q : QueueState) : Type 0 where
  pub num : q.num < 2 ^ 16
  pub desc : q.desc < 2 ^ 64
  pub avail : q.avail < 2 ^ 64
  pub used : q.used < 2 ^ 64
  pub last_avail : q.last_avail < 2 ^ 16

pub record IsCompletion (c : Completion) : Type 0 where
  pub queue : c.queue < 2 ^ 64
  pub head : c.head < 2 ^ 16
  pub len : c.len < 2 ^ 32
  pub due : c.due < 2 ^ 64

Prefix-save_queue : (q : QueueState) (w buf : List ℕ) → Prefix (save_queue q w) buf → Prefix w buf
unfolding save_queue
Prefix-save_queue q w buf p = Prefix-write_u16 w buf q.num (
    Prefix-write_bool _ buf q.ready (
      Prefix-write_u64 _ buf q.desc (
        Prefix-write_u64 _ buf q.avail
          (Prefix-write_u64 _ buf q.used (Prefix-write_u16 _ buf q.last_avail p)))))

load_queue-save_queue :
    (q : QueueState) (w buf : List ℕ)
    → IsQueue q
    → Prefix (save_queue q w) buf
    → load_queue (at buf w) ≡ some (q, at buf (save_queue q w))
unfolding load_queue save_queue
load_queue-save_queue q w buf fits p₆ =
    let w₁ : Writer = write_u16 w q.num in
    let w₂ : Writer = write_bool w₁ q.ready in
    let w₃ : Writer = write_u64 w₂ q.desc in
    let w₄ : Writer = write_u64 w₃ q.avail in
    let w₅ : Writer = write_u64 w₄ q.used in
    let p₅ : Prefix w₅ buf = Prefix-write_u16 w₅ buf q.last_avail p₆ in
    let p₄ : Prefix w₄ buf = Prefix-write_u64 w₄ buf q.used p₅ in
    let p₃ : Prefix w₃ buf = Prefix-write_u64 w₃ buf q.avail p₄ in
    let p₂ : Prefix w₂ buf = Prefix-write_u64 w₂ buf q.desc p₃ in
    let p₁ : Prefix w₁ buf = Prefix-write_bool w₁ buf q.ready p₂ in
    rw
      (
        read_u16-write_u16 w buf q.num fits.num p₁,
        read_bool-write_bool w₁ buf q.ready p₂,
        read_u64-write_u64 w₂ buf q.desc fits.desc p₃,
        read_u64-write_u64 w₃ buf q.avail fits.avail p₄,
        read_u64-write_u64 w₄ buf q.used fits.used p₅,
        read_u16-write_u16 w₅ buf q.last_avail fits.last_avail p₆,
      )
      refl

pub Prefix-save_queues :
    (count i : ℕ) (queues : ℕ → QueueState) (w buf : List ℕ)
    → Prefix (save_queues count i queues w) buf
    → Prefix w buf
unfolding save_queues
Prefix-save_queues zero i queues w buf p = p
Prefix-save_queues (suc count) i queues w buf p =
    Prefix-save_queue (queues i) w buf
      (Prefix-save_queues count (suc i) queues (save_queue (queues i) w) buf p)

-- The queues that a run of loads leaves.
unfoldable pub fill_queues : (count i : ℕ) → (from into : ℕ → QueueState) → ℕ → QueueState
fill_queues zero i from into = into
fill_queues (suc count) i from into =
    fill_queues count (suc i) from (λ k. if i == k then from i else into k)

pub load_queues-save_queues :
    (count i : ℕ) (from into : ℕ → QueueState) (w buf : List ℕ)
    → ((k : ℕ) → IsQueue (from k))
    → Prefix (save_queues count i from w) buf
    → load_queues count i into (at buf w)
      ≡ some (fill_queues count i from into, at buf (save_queues count i from w))
unfolding load_queues save_queues fill_queues
load_queues-save_queues zero i from into w buf fits p = refl
load_queues-save_queues (suc count) i from into w buf fits p =
    rw
      (load_queue-save_queue (from i) w buf (fits i)
        (Prefix-save_queues count (suc i) from (save_queue (from i) w) buf p))
      (load_queues-save_queues count (suc i) from (λ k. if i == k then from i else into k)
        (save_queue (from i) w) buf fits p)

Prefix-save_completion :
    (c : Completion) (w buf : List ℕ) → Prefix (save_completion c w) buf → Prefix w buf
unfolding save_completion
Prefix-save_completion c w buf p =
    Prefix-write_u64 w buf c.queue (
      Prefix-write_u16 _ buf c.head (Prefix-write_u32 _ buf c.len (Prefix-write_u64 _ buf c.due p)))

load_completion-save_completion :
    (c : Completion) (w buf : List ℕ)
    → IsCompletion c
    → Prefix (save_completion c w) buf
    → load_completion (at buf w) ≡ some (c, at buf (save_completion c w))
unfolding load_completion save_completion
load_completion-save_completion c w buf fits p₄ =
    let w₁ : Writer = write_u64 w c.queue in
    let w₂ : Writer = write_u16 w₁ c.head in
    let w₃ : Writer = write_u32 w₂ c.len in
    let p₃ : Prefix w₃ buf = Prefix-write_u64 w₃ buf c.due p₄ in
    let p₂ : Prefix w₂ buf = Prefix-write_u32 w₂ buf c.len p₃ in
    let p₁ : Prefix w₁ buf = Prefix-write_u16 w₁ buf c.head p₂ in
    rw
      (
        read_u64-write_u64 w buf c.queue fits.queue p₁,
        read_u16-write_u16 w₁ buf c.head fits.head p₂,
        read_u32-write_u32 w₂ buf c.len fits.len p₃,
        read_u64-write_u64 w₃ buf c.due fits.due p₄,
      )
      refl

pub Prefix-save_pending :
    (cs : List Completion) (w buf : List ℕ) → Prefix (save_pending cs w) buf → Prefix w buf
unfolding save_pending
Prefix-save_pending [] w buf p = p
Prefix-save_pending (c ∷ cs) w buf p =
    Prefix-save_completion c w buf (Prefix-save_pending cs (save_completion c w) buf p)

pub load_pending-save_pending :
    (cs : List Completion) (w buf : List ℕ)
    → All IsCompletion cs
    → Prefix (save_pending cs w) buf
    → load_pending (length cs) (at buf w) ≡ some (cs, at buf (save_pending cs w))
unfolding load_pending save_pending
load_pending-save_pending [] w buf fits p = refl
load_pending-save_pending (c ∷ cs) w buf (fit, fits) p =
    rw
      (
        load_completion-save_completion c w buf fit
            (Prefix-save_pending cs (save_completion c w) buf p),
        load_pending-save_pending cs (save_completion c w) buf fits p,
      )
      refl

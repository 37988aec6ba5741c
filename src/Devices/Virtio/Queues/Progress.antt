-- ===== src/Devices/Virtio/Queues/Progress.antt =====
-- `notify` of virtio.rs against the chains that the driver has published.
use tab_linux.Base.{
  ℕ, zero, suc, ◌+◌, ◌*◌, ◌%◌, ◌^◌, ◌≤◌, ◌<◌, ◌≡◌, refl, ap, Bool, true, false, not, ◌||◌, Option,
  none, some, [], ◌∷◌, ◌++◌, arith, leb, ◌==◌, if◌then◌else◌, u16, u64,
}
use tab_linux.Devices.Memory.{mem_read_u16, GuestMem}
use tab_linux.Devices.Virtio.{
  Completion, completion_latency, set_queue, Chain, max_queues, QueueState, VirtioDevice,
  VirtioMmio,
}
use tab_linux.Devices.Virtio.Queues.{service, drain, drain_queue, is_rx_queue, notify}
use tab_linux.Devices.Virtio.Rings.{walk}

module _ {D : Type 0} (device : VirtioDevice D) where
  -- The device handles a chain, and the chain with the length that it answers is queued for the used
  -- ring, behind those that are queued, unless the device defers the answer.
  abbrev pub answer_chain : (queue : ℕ) → Chain → VirtioMmio D → GuestMem → VirtioMmio D × GuestMem
  answer_chain queue chain v mem =
      let (len, dev, mem') = device.handle v.dev queue chain mem in
      let (is_deferred, dev') = device.deferred_this dev in
      let completion : Completion = record {
        queue = queue;
        head = chain.head;
        len = len;
        due = u64 (v.now + completion_latency);
      } in
      (
        record v {
          dev = dev';
          pending = if is_deferred then v.pending else v.pending ++ completion ∷ [];
        },
        mem',
      )

  -- The chains at k entries of the available ring, one after the other; an entry without one is passed.
  unfoldable pub answer_chains :
      (k queue : ℕ)
      → QueueState
      → (last : ℕ) → Bool
      → VirtioMmio D
      → GuestMem
      → Bool × VirtioMmio D × GuestMem
  answer_chains zero queue q last served v mem = (served, v, mem)
  answer_chains (suc k) queue q last served v mem =
      elim (walk mem q (mem_read_u16 mem (u64 (q.avail + 4 + last % q.num * 2)))) [
        | none ↦ answer_chains k queue q (u16 (last + 1)) served v mem
        | some chain ↦
            let (v', mem') = answer_chain queue chain v mem in
            answer_chains k queue q (u16 (last + 1)) true v' mem'
      ]

  abbrev reaching : ℕ → Bool × VirtioMmio D × GuestMem → ℕ × Bool × VirtioMmio D × GuestMem
  reaching i answered = (i, answered.0, answered.1, answered.2)

  drain-answers :
      (budget k queue : ℕ) (q : QueueState) (avail_idx last : ℕ) (served : Bool) (v : VirtioMmio D)
      (mem : GuestMem)
      → k ≤ budget
      → k < 2 ^ 16
      → last < 2 ^ 16
      → avail_idx ≡ u16 (last + k)
      → drain device budget queue q avail_idx last served v mem
        ≡ reaching avail_idx (answer_chains k queue q last served v mem)
  unfolding drain answer_chains service
  drain-answers zero zero queue q avail_idx last served v mem enough few small ahead =
      let here : last ≡ avail_idx = omega arith in ap (λ (i : ℕ). (i, served, v, mem)) here
  drain-answers zero (suc k) queue q avail_idx last served v mem enough few small ahead =
      absurd (omega arith)
  drain-answers (suc budget) zero queue q avail_idx last served v mem enough few small ahead =
      let equal : last ≡ avail_idx = omega arith in
      let here : (last == avail_idx) ≡ true = ground arith in
      rw here (ap (λ (i : ℕ). (i, served, v, mem)) equal)
  drain-answers (suc budget) (suc k) queue q avail_idx last served v mem enough few small ahead =
      let more : (last == avail_idx) ≡ false = ground arith in
      let go = λ (s : Bool) (w : VirtioMmio D) (m : GuestMem).
        drain-answers budget k queue q avail_idx (u16 (last + 1)) s w m (omega arith) (omega arith)
          (omega arith) (omega arith) in
      let head : ℕ = mem_read_u16 mem (u64 (q.avail + 4 + last % q.num * 2)) in
      rw more
        (elim (walk mem q head)
          as (λ (found : Option Chain).
            let rest : ℕ × Bool × VirtioMmio D × GuestMem = elim found [
              | none ↦ drain device budget queue q avail_idx (u16 (last + 1)) served v mem
              | some chain ↦
                  drain device budget queue q avail_idx (u16 (last + 1)) true
                    (service device queue chain v mem).0 (service device queue chain v mem).1
            ] in
            let answered : Bool × VirtioMmio D × GuestMem = elim found [
              | none ↦ answer_chains k queue q (u16 (last + 1)) served v mem
              | some chain ↦
                  answer_chains k queue q (u16 (last + 1)) true (answer_chain queue chain v mem).0
                    (answer_chain queue chain v mem).1
            ] in
            rest ≡ reaching avail_idx answered) [
              | none ↦ go served v mem
              | some chain ↦
                  go true (answer_chain queue chain v mem).0 (answer_chain queue chain v mem).1
            ])

  -- The queue is moved on to an index, once the chains are answered.
  abbrev pub moved_on :
      (queue index : ℕ) → Bool × VirtioMmio D × GuestMem → Bool × VirtioMmio D × GuestMem
  moved_on queue index answered = (
    answered.0,
    set_queue answered.1 queue (record (answered.1.queues queue) { last_avail = index }),
    answered.2,
  )

  drain_queue-answers :
      (queue k : ℕ) (v : VirtioMmio D) (mem : GuestMem)
      → (v.queues queue).ready ≡ true
      → k ≤ 2 * (v.queues queue).num
      → k < 2 ^ 16
      → 0 < (v.queues queue).num
      → (v.queues queue).last_avail < 2 ^ 16
      → mem_read_u16 mem (u64 ((v.queues queue).avail + 2)) ≡ u16 ((v.queues queue).last_avail + k)
      → drain_queue device queue v mem
        ≡ moved_on queue
            (mem_read_u16 mem (u64 ((v.queues queue).avail + 2)))
            (answer_chains k queue (v.queues queue) (v.queues queue).last_avail false v mem)
  unfolding drain_queue
  drain_queue-answers queue k v mem ready few short some_entries small ahead =
      let works : (not (v.queues queue).ready || (v.queues queue).num == 0) ≡ false =
        ground arith in
      rw
        (
          works,
          drain-answers ((v.queues queue).num * 2 + 1) k queue (v.queues queue)
              (mem_read_u16 mem (u64 ((v.queues queue).avail + 2))) (v.queues queue).last_avail
              false v mem (omega arith) short small ahead,
          drain_queue,
        )
        refl

  -- A notification of a ready queue that does not receive has the device answer the chains that the
  -- driver has published, each once and in order, and moves the queue on to the published index, if
  -- that is at most twice the size of the queue ahead; a queue holds no more than its size.
  pub notify-answer_chains :
      (queue k : ℕ) (v : VirtioMmio D) (mem : GuestMem)
      → queue < max_queues
      → queue < device.num_queues v.dev
      → is_rx_queue device v.dev queue ≡ false
      → (v.queues queue).ready ≡ true
      → k ≤ 2 * (v.queues queue).num
      → k < 2 ^ 16
      → 0 < (v.queues queue).num
      → (v.queues queue).last_avail < 2 ^ 16
      → mem_read_u16 mem (u64 ((v.queues queue).avail + 2)) ≡ u16 ((v.queues queue).last_avail + k)
      → notify device queue v mem
        ≡ some (
            moved_on queue
              (mem_read_u16 mem (u64 ((v.queues queue).avail + 2)))
              (answer_chains k queue (v.queues queue) (v.queues queue).last_avail false v mem))
  unfolding notify
  notify-answer_chains queue k v mem lt lt' work ready few short some_entries small ahead =
      let named : (leb max_queues queue || leb (device.num_queues v.dev) queue) ≡ false =
        ground (arith, lt, lt') in
      rw (named, work, notify)
        (ap some (drain_queue-answers queue k v mem ready few short some_entries small ahead))

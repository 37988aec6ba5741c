-- ===== src/Devices/Virtio/Queues.antt =====
-- crates/riscv-devices/src/virtio.rs: `flush_pending`, `tick`, `supply`, `notify`, `poll`, `take_avail` and
-- `complete`, which move chains from the available ring to the used ring.
pub mod Progress
use tab_linux.Base.{
  ℕ, zero, suc, ◌+◌, ◌*◌, ◌%◌, Bool, true, false, not, ◌||◌, Option, none, some, List, [], ◌∷◌,
  ◌++◌, ltb, leb, ◌==◌, if◌then◌else◌, ◌>>=◌, u16, u64,
}
use tab_linux.Devices.Memory.{mem_read_u16, GuestMem}
use tab_linux.Devices.Virtio.{
  Reply, completion_latency, max_queues, raise, set_queue, Chain, Completion, QueueState,
  VirtioDevice, VirtioMmio,
}
use tab_linux.Devices.Virtio.Rings.{push_used, walk}

-- The report of one chain in the used ring of its queue, if there is such a queue.
unfoldable pub report : (queues : ℕ → QueueState) → Completion → GuestMem → Option GuestMem
report queues c mem =
    if ltb c.queue max_queues then push_used mem (queues c.queue) c.head c.len else some mem

unfoldable pub report_all : (queues : ℕ → QueueState) → List Completion → GuestMem → Option GuestMem
report_all queues [] mem = some mem
report_all queues (c ∷ cs) mem = do mem' ← report queues c mem; report_all queues cs mem'

-- The loop of `tick`: the completions at the front that are due, and the others.
unfoldable pub retire_due :
    (queues : ℕ → QueueState)
    → (now : ℕ) → List Completion
    → GuestMem
    → Option (Bool × List Completion × GuestMem)
retire_due queues now [] mem = some (false, [], mem)
retire_due queues now (c ∷ cs) mem =
    let rest : Option (Bool × List Completion × GuestMem) = do
      mem' ← report queues c mem
      (fired, left, mem'') ← retire_due queues now cs mem'
      some (true, left, mem'')
    in if ltb now c.due then some (false, c ∷ cs, mem) else rest

module _ {D : Type 0} where
  unfoldable pub flush_pending : VirtioMmio D → GuestMem → Option (Bool × VirtioMmio D × GuestMem)
  flush_pending v mem = elim v.pending [
    | [] ↦ some (false, v, mem)
    | c ∷ cs ↦ do
      mem' ← report_all v.queues (c ∷ cs) mem
      some (true, raise (record v { pending = [] }), mem')
  ]

  unfoldable pub virtio_mmio_tick :
      (amount : ℕ) → VirtioMmio D → GuestMem → Option (Bool × VirtioMmio D × GuestMem)
  virtio_mmio_tick amount v mem =
      let v₁ : VirtioMmio D = record v { now = u64 (v.now + amount) } in
      do
        (fired, left, mem') ← retire_due v.queues v₁.now v.pending mem
        let v₂ : VirtioMmio D = record v₁ { pending = left }
        some (fired, if fired then raise v₂ else v₂, mem')

  -- Complete a chain of `take_avail`.
  unfoldable pub complete :
      VirtioMmio D → (queue : ℕ) → GuestMem → (head len : ℕ) → Option (VirtioMmio D × GuestMem)
  complete v queue mem head len =
      if ltb queue max_queues
      then (do mem' ← push_used mem (v.queues queue) head len; some (raise v, mem'))
      else some (v, mem)

  -- The chain that the driver made available next, if there is one.
  unfoldable pub take_avail : VirtioMmio D → (queue : ℕ) → GuestMem → Option Chain × VirtioMmio D
  take_avail v queue mem =
      let q : QueueState = v.queues queue in
      let avail_idx : ℕ = mem_read_u16 mem (u64 (q.avail + 2)) in
      let head : ℕ = mem_read_u16 mem (u64 (q.avail + 4 + q.last_avail % q.num * 2)) in
      if not (ltb queue max_queues) || not q.ready || q.num == 0 || q.last_avail == avail_idx
      then (none, v)
      else elim (walk mem q head) [
        | none ↦ (none, v)
        | some chain ↦
            (some chain, set_queue v queue (record q { last_avail = u16 (q.last_avail + 1) }))
      ]

  module _ (device : VirtioDevice D) where
    -- `supply`, with the reply of the device pending at once.
    unfoldable pub virtio_supply :
        VirtioMmio D → (id : ℕ) → List ℕ → GuestMem → Bool × VirtioMmio D × GuestMem
    virtio_supply v id payload mem =
        let supplied : Option Reply × D × GuestMem = device.supply v.dev id payload mem in
        let v₁ : VirtioMmio D = record v { dev = supplied.1 } in
        elim supplied.0 [
          | none ↦ (false, v₁, supplied.2)
          | some reply ↦
              let held : Completion = record {
                queue = reply.queue;
                head = reply.head;
                len = reply.len;
                due = v.now;
              } in
              (true, record v₁ { pending = v.pending ++ held ∷ [] }, supplied.2)
        ]

    -- The receive loop of `poll`, with its bound on the rounds.
    unfoldable pub receive :
        (rounds : ℕ)
        → (queue : ℕ) → Bool
        → VirtioMmio D
        → GuestMem
        → Option (Bool × VirtioMmio D × GuestMem)
    receive zero queue delivered v mem = some (delivered, v, mem)
    receive (suc rounds) queue delivered v mem =
        let asked : Bool × D = device.has_rx v.dev in
        let v₁ : VirtioMmio D = record v { dev = asked.1 } in
        let taken : Option Chain × VirtioMmio D = take_avail v₁ queue mem in
        if not asked.0 then some (delivered, v₁, mem) else elim taken.0 [
          | none ↦ some (delivered, taken.1, mem)
          | some chain ↦
              let filled : ℕ × D × GuestMem = device.fill_rx taken.1.dev chain mem in
              do
                (v₂, mem') ←
                    complete (record taken.1 { dev = filled.1 }) queue filled.2 chain.head filled.0
                receive rounds queue true v₂ mem'
        ]

    unfoldable pub virtio_poll : VirtioMmio D → GuestMem → Option (Bool × VirtioMmio D × GuestMem)
    virtio_poll v mem =
        let polled : Bool × D × GuestMem = device.poll v.dev mem in
        let v₁ : VirtioMmio D = record v { dev = polled.1 } in
        if v.status == 0
        then some (false, v, mem)
        else if polled.0
        then some (true, raise v₁, polled.2)
        else elim (device.rx_queue v₁.dev) [
          | none ↦ some (false, v₁, polled.2)
          | some queue ↦ receive 32 queue false v₁ polled.2
        ]

    -- One chain of `notify`: the device handles it, and the report is pending unless it is deferred.
    unfoldable pub service : (queue : ℕ) → Chain → VirtioMmio D → GuestMem → VirtioMmio D × GuestMem
    service queue chain v mem =
        let handled : ℕ × D × GuestMem = device.handle v.dev queue chain mem in
        let deferred : Bool × D = device.deferred_this handled.1 in
        let report : Completion = record {
          queue = queue;
          head = chain.head;
          len = handled.0;
          due = u64 (v.now + completion_latency);
        } in
        (
          record v {
            dev = deferred.1;
            pending = if deferred.0 then v.pending else v.pending ++ report ∷ [];
          },
          handled.2,
        )

    -- The loop of `notify`; the answer has the index that is reached in the available ring.
    unfoldable pub drain :
        (budget : ℕ)
        → (queue : ℕ) → QueueState
        → (avail_idx last : ℕ) → (serviced : Bool) → VirtioMmio D
        → GuestMem
        → ℕ × Bool × VirtioMmio D × GuestMem
    drain zero queue q avail_idx last serviced v mem = (last, serviced, v, mem)
    drain (suc budget) queue q avail_idx last serviced v mem =
        let head : ℕ = mem_read_u16 mem (u64 (q.avail + 4 + last % q.num * 2)) in
        let rest : ℕ × Bool × VirtioMmio D × GuestMem = elim (walk mem q head) [
          | none ↦ drain budget queue q avail_idx (u16 (last + 1)) serviced v mem
          | some chain ↦
              let done : VirtioMmio D × GuestMem = service queue chain v mem in
              drain budget queue q avail_idx (u16 (last + 1)) true done.0 done.1
        ] in
        if last == avail_idx then (last, serviced, v, mem) else rest

    unfoldable pub drain_queue :
        (queue : ℕ) → VirtioMmio D → GuestMem → Bool × VirtioMmio D × GuestMem
    drain_queue queue v mem =
        let q : QueueState = v.queues queue in
        let avail_idx : ℕ = mem_read_u16 mem (u64 (q.avail + 2)) in
        let (last, serviced, v', mem') =
          drain (q.num * 2 + 1) queue q avail_idx q.last_avail false v mem in
        if not q.ready || q.num == 0
        then (false, v, mem)
        else (serviced, set_queue v' queue (record (v'.queues queue) { last_avail = last }), mem')

    abbrev pub is_rx_queue : D → ℕ → Bool
    is_rx_queue dev queue = elim (device.rx_queue dev) [ none ↦ false | some rx ↦ rx == queue ]

    unfoldable pub notify :
        (queue : ℕ) → VirtioMmio D → GuestMem → Option (Bool × VirtioMmio D × GuestMem)
    notify queue v mem =
        if leb max_queues queue || leb (device.num_queues v.dev) queue
        then some (false, v, mem)
        else if is_rx_queue v.dev queue
        then virtio_poll v mem
        else some (drain_queue queue v mem)

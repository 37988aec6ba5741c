-- ===== src/Devices/Virtio.antt =====
-- crates/riscv-devices/src/virtio.rs: the virtio-mmio transport of one device. The state of the device
-- behind the transport is of any type D, and the trait `VirtioDevice` is a record of functions on it.
-- The outer `none` is a panic.
pub mod Rings
pub mod Queues
pub mod Registers
pub mod Save
use tab_linux.Base.{
  ℕ, bit_or, Bool, true, false, not, Option, none, some, List, [], ◌∷◌, ltb, ◌==◌, if◌then◌else◌,
}
use tab_linux.Devices.Memory.{Buf, GuestMem}

-- A walked descriptor chain, split by direction.
pub record Chain : Type 0 where
  pub head : ℕ
  pub readable : List Buf
  pub writable : List Buf

-- What a device asks the host for.
pub record HostReq : Type 0 where
  pub id : ℕ
  pub kind : ℕ
  pub path : List ℕ
  pub off : ℕ
  pub len : ℕ

-- The chain that a device completes later: its queue, its head and the bytes written.
pub record Reply : Type 0 where
  pub queue : ℕ
  pub head : ℕ
  pub len : ℕ

pub record VirtioDevice (D : Type 0) : Type 0 where
  pub device_id : D → ℕ
  pub features : D → ℕ
  pub num_queues : D → ℕ
  pub config_read : D → ℕ → ℕ
  pub config_write : D → (off val : ℕ) → D
  pub handle : D → (queue : ℕ) → Chain → GuestMem → ℕ × D × GuestMem
  pub deferred_this : D → Bool × D
  pub take_host_reqs : D → List HostReq × D
  pub supply : D → (id : ℕ) → List ℕ → GuestMem → Option Reply × D × GuestMem
  pub poll : D → GuestMem → Bool × D × GuestMem
  pub dev_state : D → Option (List ℕ)
  pub load_dev_state : D → List ℕ → Option D
  pub rx_queue : D → Option ℕ
  pub has_rx : D → Bool × D
  pub fill_rx : D → Chain → GuestMem → ℕ × D × GuestMem

-- A serviced chain that waits to be reported.
pub record Completion : Type 0 where
  pub queue : ℕ
  pub head : ℕ
  pub len : ℕ
  pub due : ℕ

abbrev pub completion_latency : ℕ
completion_latency = 2000

pub record QueueState : Type 0 where
  pub num : ℕ
  pub ready : Bool
  pub desc : ℕ
  pub avail : ℕ
  pub used : ℕ
  pub last_avail : ℕ

abbrev pub default_queue : QueueState
default_queue = record { num = 0; ready = false; desc = 0; avail = 0; used = 0; last_avail = 0 }

abbrev pub max_queues : ℕ
max_queues = 4

-- The registers of the transport; only the queues below `max_queues` exist.
pub record VirtioMmio (D : Type 0) : Type 0 where
  pub dev : D
  pub irq : ℕ
  pub device_features_sel : ℕ
  pub driver_features : ℕ
  pub driver_features_sel : ℕ
  pub status : ℕ
  pub queue_sel : ℕ
  pub queues : ℕ → QueueState
  pub interrupt_status : ℕ
  pub config_generation : ℕ
  pub pending : List Completion
  pub now : ℕ

unfoldable pub new_virtio : {D : Type 0} → D → ℕ → VirtioMmio D
new_virtio dev irq = record {
  dev = dev;
  irq = irq;
  device_features_sel = 0;
  driver_features = 0;
  driver_features_sel = 0;
  status = 0;
  queue_sel = 0;
  queues = λ i. default_queue;
  interrupt_status = 0;
  config_generation = 0;
  pending = [];
  now = 0;
}

-- `self.queues.get(queue)`
abbrev pub get_queue : {D : Type 0} → VirtioMmio D → ℕ → Option QueueState
get_queue v queue = if ltb queue max_queues then some (v.queues queue) else none

abbrev pub set_queue : {D : Type 0} → VirtioMmio D → ℕ → QueueState → VirtioMmio D
set_queue v queue q = record v { queues = λ i. if queue == i then q else v.queues i }

unfoldable pub irq_level : {D : Type 0} → VirtioMmio D → Bool
irq_level v = not (v.interrupt_status == 0)

unfoldable pub has_pending : {D : Type 0} → VirtioMmio D → Bool
has_pending v = elim v.pending [ [] ↦ false | c ∷ cs ↦ true ]

-- `self.interrupt_status |= 1`
abbrev pub raise : {D : Type 0} → VirtioMmio D → VirtioMmio D
raise v = record v { interrupt_status = bit_or v.interrupt_status 1 }

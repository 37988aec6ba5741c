-- ===== src/Devices/Net.antt =====
-- crates/riscv-devices/src/virtio_net.rs: the network card. What frames come from and go to is of any
-- type B, and the trait `NetBackend` is a record of functions on it.
use tab_linux.Base.{
  ℕ, ◌+◌, ◌-◌, ◌^◌, min, Bool, true, false, not, ◌||◌, Option, none, some, List, [], ◌∷◌, ◌++◌, ltb,
  leb, ◌==◌, if◌then◌else◌, ◌>>=◌, length, get_elem?, take, u32,
}
use tab_linux.Devices.Memory.{sg_len, sg_read, sg_write, zero_bytes, GuestMem}
use tab_linux.Devices.Virtio.{Chain, VirtioDevice}
use tab_linux.Snapshot.{new_reader, read_bool, read_bytes, write_bool, write_bytes}

pub record NetBackend (B : Type 0) : Type 0 where
  pub transmit : B → List ℕ → B
  pub receive_frame : B → Option (List ℕ) × B

abbrev pub pop_frame : List (List ℕ) → Option (List ℕ) × List (List ℕ)
pop_frame [] = (none, [])
pop_frame (frame ∷ frames) = (some frame, frames)

-- `LoopbackBackend` is its queue.
abbrev pub loopback_backend : NetBackend (List (List ℕ))
loopback_backend = record {
  transmit = λ queue frame. queue ++ frame ∷ [];
  receive_frame = pop_frame;
}

-- The queues between the guest and the host.
pub record NetQueues : Type 0 where
  pub to_host : List (List ℕ)
  pub to_guest : List (List ℕ)

abbrev pub shared_backend : NetBackend NetQueues
shared_backend = record {
  transmit = λ q frame. record q { to_host = q.to_host ++ frame ∷ [] };
  receive_frame = λ q. ((pop_frame q.to_guest).0, record q { to_guest = (pop_frame q.to_guest).1 });
}

pub record VirtioNet (B : Type 0) : Type 0 where
  pub backend : B
  pub mac : List ℕ
  pub pending_rx : Option (List ℕ)
  pub tx_frames : ℕ
  pub rx_frames : ℕ

abbrev pub net_hdr_len : ℕ
net_hdr_len = 12

abbrev pub max_frame : ℕ
max_frame = 1600

module _ {B : Type 0} where
  unfoldable pub new_net : B → List ℕ → VirtioNet B
  new_net backend mac = record {
    backend = backend;
    mac = mac;
    pending_rx = none;
    tx_frames = 0;
    rx_frames = 0;
  }

  unfoldable pub net_dev_state : VirtioNet B → List ℕ
  net_dev_state net =
      let w : List ℕ = write_bytes [] net.mac in
      elim net.pending_rx [
        | none ↦ write_bool w false
        | some frame ↦ write_bytes (write_bool w true) frame
      ]

  unfoldable pub load_net_state : VirtioNet B → List ℕ → Option (VirtioNet B)
  load_net_state net bytes = do
    (mac, r₁) ← read_bytes (new_reader bytes)
    short ← if ltb (length mac) 6 then none else some (take 6 mac)
    (held, r₂) ← read_bool r₁
    let frame : Option (Option (List ℕ)) =
        if held then (do (f, r₃) ← read_bytes r₂; some (some f)) else some none
    pending_rx ← frame
    some (record net { mac = short; pending_rx = pending_rx })

  unfoldable pub net_fill_rx : VirtioNet B → Chain → GuestMem → ℕ × VirtioNet B × GuestMem
  net_fill_rx net chain mem =
      let taken : VirtioNet B = record net { pending_rx = none } in
      elim net.pending_rx [
        | none ↦ (0, net, mem)
        | some frame ↦
            let headed : GuestMem = (sg_write mem chain.writable 0 (zero_bytes net_hdr_len)).1 in
            if ltb (sg_len chain.writable) (net_hdr_len + length frame) then (0, taken, mem) else (
              u32 (net_hdr_len + length frame),
              record taken { rx_frames = net.rx_frames + 1 },
              (sg_write headed chain.writable net_hdr_len frame).1,
            )
      ]

  module _ (backend : NetBackend B) where
    unfoldable pub net_handle :
        VirtioNet B → (queue : ℕ) → Chain → GuestMem → ℕ × VirtioNet B × GuestMem
    net_handle net queue chain mem =
        let total : ℕ = sg_len chain.readable in
        let len : ℕ = min (total - net_hdr_len) max_frame in
        let gathered : List ℕ = sg_read mem chain.readable net_hdr_len len in
        let frame : List ℕ = gathered ++ zero_bytes (len - length gathered) in
        if not (queue == 1) || leb total net_hdr_len then (0, net, mem) else (
          0,
          record net {
            backend = backend.transmit net.backend frame;
            tx_frames = net.tx_frames + 1;
          },
          mem,
        )

    unfoldable pub net_has_rx : VirtioNet B → Bool × VirtioNet B
    net_has_rx net =
        let (frame, backend') = backend.receive_frame net.backend in
        elim net.pending_rx [
          | some held ↦ (true, net)
          | none ↦ (
            elim frame [ some f ↦ true | none ↦ false ],
            record net { backend = backend'; pending_rx = frame },
          )
        ]

    abbrev pub net_device : VirtioDevice (VirtioNet B)
    net_device = record {
      device_id = λ net. 1;
      features = λ net. 2 ^ 32 + 2 ^ 5;
      num_queues = λ net. 2;
      config_read =
          λ net off. elim (get_elem? (net.mac ++ zero_bytes 4) off) [ some v ↦ v | none ↦ 0 ];
      config_write = λ net off val. net;
      handle = net_handle;
      deferred_this = λ net. (false, net);
      take_host_reqs = λ net. ([], net);
      supply = λ net id payload mem. (none, net, mem);
      poll = λ net mem. (false, net, mem);
      dev_state = λ net. some (net_dev_state net);
      load_dev_state = load_net_state;
      rx_queue = λ net. some 0;
      has_rx = net_has_rx;
      fill_rx = net_fill_rx;
    }

-- ===== src/Devices/Block.antt =====
-- crates/riscv-devices/src/virtio_blk.rs: the disk. Its backing store is of any type B, and the trait
-- `BlockBackend` is a record of functions on it.
use tab_linux.Base.{
  ℕ, ◌+◌, ◌-◌, ◌*◌, ◌/◌, ◌%◌, ◌^◌, max, min, Bool, true, false, not, ◌||◌, Option, none, some, List,
  [], ◌∷◌, ◌++◌, ltb, leb, ◌==◌, if◌then◌else◌, select, length, get_elem?, take, drop, u32, u64,
}
use tab_linux.Devices.Memory.{copy_slice, sg_len, sg_read, sg_write, slice_at, zero_bytes, GuestMem}
use tab_linux.Devices.Virtio.{Chain, VirtioDevice}
use tab_linux.Snapshot.{from_le_bytes, to_le_bytes}

-- A read answers its bytes, or `none` for an error; a write and a flush answer whether they succeeded.
pub record BlockBackend (B : Type 0) : Type 0 where
  pub capacity_sectors : B → ℕ
  pub read_sectors : B → (sector n : ℕ) → Option (List ℕ) × B
  pub write_sectors : B → (sector : ℕ) → List ℕ → Bool × B
  pub flush : B → Bool × B
  pub read_only : B → Bool

-- The store in memory: a function from the offset, of which `size` bytes exist.
pub record MemBackend : Type 0 where
  pub bytes : ℕ → ℕ
  pub size : ℕ

-- The offset of n bytes from a sector on, if they are in the store; the product wraps.
unfoldable pub sector_range : MemBackend → (sector n : ℕ) → Option ℕ
sector_range s sector n =
    let off : ℕ = u64 (sector * 512) in
    if leb (2 ^ 64) (off + n) || ltb s.size (off + n) then none else some off

unfoldable pub store_read : MemBackend → (sector n : ℕ) → Option (List ℕ) × MemBackend
store_read s sector n = elim (sector_range s sector n) [
  | none ↦ (none, s)
  | some off ↦ (some (slice_at n off s.bytes), s)
]

unfoldable pub store_write : MemBackend → (sector : ℕ) → List ℕ → Bool × MemBackend
store_write s sector buf = elim (sector_range s sector (length buf)) [
  | none ↦ (false, s)
  | some off ↦ (true, record s { bytes = copy_slice buf off s.bytes })
]

abbrev pub mem_backend : BlockBackend MemBackend
mem_backend = record {
  capacity_sectors = λ s. s.size / 512;
  read_sectors = store_read;
  write_sectors = store_write;
  flush = λ s. (true, s);
  read_only = λ s. false;
}

pub record VirtioBlk (B : Type 0) : Type 0 where
  pub backend : B
  pub serial : List ℕ
  pub reads : ℕ
  pub writes : ℕ
  pub max_descs : ℕ
  pub max_bytes : ℕ

-- The whole sectors of a number of bytes.
abbrev pub whole_sectors : ℕ → ℕ
whole_sectors n = n - n % 512

module _ {B : Type 0} where
  unfoldable pub new_blk : B → VirtioBlk B
  new_blk backend = record {
    backend = backend;
    serial =
        0x72
        ∷ 0x69
        ∷ 0x73
        ∷ 0x63
        ∷ 0x76
        ∷ 0x2d
        ∷ 0x76
        ∷ 0x6d
        ∷ 0x2d
        ∷ 0x64
        ∷ 0x69
        ∷ 0x73
        ∷ 0x6b
        ∷ zero_bytes 7;
    reads = 0;
    writes = 0;
    max_descs = 0;
    max_bytes = 0;
  }

  -- The largest chain so far.
  unfoldable pub note_chain : Chain → VirtioBlk B → VirtioBlk B
  note_chain chain blk = record blk {
    max_descs = max blk.max_descs (length chain.readable + length chain.writable);
    max_bytes = max blk.max_bytes (sg_len chain.readable + sg_len chain.writable);
  }

  module _ (disk : BlockBackend B) where
    -- `T_IN`; the answer of a request is its status, the device and the memory.
    unfoldable pub request_in :
        (sector data_cap : ℕ) → Chain → VirtioBlk B → GuestMem → ℕ × VirtioBlk B × GuestMem
    request_in sector data_cap chain blk mem =
        let want : ℕ = whole_sectors data_cap in
        let got : Option (List ℕ) × B = disk.read_sectors blk.backend sector want in
        let read_blk : VirtioBlk B = record blk { backend = got.1 } in
        if want == 0 || ltb (disk.capacity_sectors blk.backend) (u64 (sector + want / 512))
        then (1, blk, mem)
        else elim got.0 [
          | none ↦ (1, read_blk, mem)
          | some buf ↦
              (0, record read_blk { reads = blk.reads + 1 }, (sg_write mem chain.writable 0 buf).1)
        ]

    -- `T_OUT`, with the payload behind the 16 bytes of the header.
    unfoldable pub request_out :
        (sector : ℕ) → Chain → VirtioBlk B → GuestMem → ℕ × VirtioBlk B × GuestMem
    request_out sector chain blk mem =
        let want : ℕ = whole_sectors (sg_len chain.readable - 16) in
        let gathered : List ℕ = sg_read mem chain.readable 16 want in
        let buf : List ℕ = gathered ++ zero_bytes (want - length gathered) in
        let (written, backend) = disk.write_sectors blk.backend sector buf in
        let write_blk : VirtioBlk B = record blk { backend = backend } in
        if disk.read_only blk.backend || want == 0
        then (1, blk, mem)
        else if written
        then (0, record write_blk { writes = blk.writes + 1 }, mem)
        else (1, write_blk, mem)

    unfoldable pub request_flush : VirtioBlk B → GuestMem → ℕ × VirtioBlk B × GuestMem
    request_flush blk mem =
        let (flushed, backend) = disk.flush blk.backend in
        (if flushed then 0 else 1, record blk { backend = backend }, mem)

    unfoldable pub request_id :
        (data_cap : ℕ) → Chain → VirtioBlk B → GuestMem → ℕ × VirtioBlk B × GuestMem
    request_id data_cap chain blk mem =
        (0, blk, (sg_write mem chain.writable 0 (take (min data_cap 20) blk.serial)).1)

    unfoldable pub request :
        (req_type sector data_cap : ℕ) → Chain → VirtioBlk B → GuestMem → ℕ × VirtioBlk B × GuestMem
    request req_type sector data_cap chain blk mem =
        select req_type
          ((0, request_in sector data_cap chain blk mem)
            ∷ (1, request_out sector chain blk mem)
            ∷ (4, request_flush blk mem)
            ∷ (8, request_id data_cap chain blk mem)
            ∷ [])
          (2, blk, mem)

    -- The length that the used ring reports.
    unfoldable pub used_len : (req_type data_cap : ℕ) → ℕ
    used_len req_type data_cap =
        select req_type
          ((0, u32 (u32 (whole_sectors data_cap) + 1)) ∷ (8, min data_cap 20 + 1) ∷ []) 1

    unfoldable pub blk_handle :
        VirtioBlk B → (queue : ℕ) → Chain → GuestMem → ℕ × VirtioBlk B × GuestMem
    blk_handle blk queue chain mem =
        let noted : VirtioBlk B = note_chain chain blk in
        let hdr : List ℕ = sg_read mem chain.readable 0 16 in
        let req_type : ℕ = from_le_bytes (take 4 hdr) in
        let total : ℕ = sg_len chain.writable in
        let done : ℕ × VirtioBlk B × GuestMem =
          request req_type (from_le_bytes (drop 8 hdr)) (total - 1) chain noted mem in
        if not (length hdr == 16) || total == 0 then (0, noted, mem) else (
          used_len req_type (total - 1),
          done.1,
          (sg_write done.2 chain.writable (total - 1) (done.0 ∷ [])).1,
        )

    abbrev pub blk_device : VirtioDevice (VirtioBlk B)
    blk_device = record {
      device_id = λ blk. 2;
      features = λ blk. 2 ^ 32 + 2 ^ 9 + (if disk.read_only blk.backend then 2 ^ 5 else 0);
      num_queues = λ blk. 1;
      config_read = λ blk off.
          elim (get_elem? (to_le_bytes 8 (disk.capacity_sectors blk.backend)) off) [
            | some v ↦ v
            | none ↦ 0
          ];
      config_write = λ blk off val. blk;
      handle = blk_handle;
      deferred_this = λ blk. (false, blk);
      take_host_reqs = λ blk. ([], blk);
      supply = λ blk id payload mem. (none, blk, mem);
      poll = λ blk mem. (false, blk, mem);
      dev_state = λ blk. some (to_le_bytes 8 (disk.capacity_sectors blk.backend));
      load_dev_state = λ blk bytes. some blk;
      rx_queue = λ blk. none;
      has_rx = λ blk. (false, blk);
      fill_rx = λ blk chain mem. (0, blk, mem);
    }

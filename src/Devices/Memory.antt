-- ===== src/Devices/Memory.antt =====
-- crates/riscv-devices/src/virtio.rs: `GuestMem`, the window of the devices onto the guest's memory, and
-- the scatter lists. The memory is a function from the offset, of which `size` bytes exist; addresses
-- and offsets have 64 bits.
pub mod Slices
use tab_linux.Base.{
  ℕ, zero, suc, ◌+◌, ◌-◌, ◌^◌, min, ◌||◌, Option, none, some, List, [], ◌∷◌, ◌++◌, ltb, leb, ◌==◌,
  if◌then◌else◌, length, take, drop, u64,
}
use tab_linux.Snapshot.{from_le_bytes, to_le_bytes}

pub record GuestMem : Type 0 where
  pub dram : ℕ → ℕ
  pub size : ℕ
  pub base : ℕ

abbrev pub set_byte : (ℕ → ℕ) → ℕ → ℕ → ℕ → ℕ
set_byte bytes i v k = if i == k then v else bytes k

-- `dram[off..off + n]`
unfoldable pub slice_at : (n off : ℕ) → (ℕ → ℕ) → List ℕ
slice_at zero off bytes = []
slice_at (suc n) off bytes = bytes off ∷ slice_at n (suc off) bytes

-- `dram[off..].copy_from_slice(src)`
unfoldable pub copy_slice : List ℕ → ℕ → (ℕ → ℕ) → ℕ → ℕ
copy_slice [] off bytes = bytes
copy_slice (v ∷ vs) off bytes = copy_slice vs (suc off) (set_byte bytes off v)

abbrev pub zero_bytes : ℕ → List ℕ
zero_bytes zero = []
zero_bytes (suc n) = 0 ∷ zero_bytes n

-- The offset at which `len` bytes from a guest address on lie in the memory.
unfoldable pub window : GuestMem → (gpa len : ℕ) → Option ℕ
window mem gpa len =
    let off : ℕ = gpa - mem.base in
    if ltb gpa mem.base || leb (2 ^ 64) (off + len)
    then none
    else if leb (off + len) mem.size
    then some off
    else none

unfoldable pub mem_read : GuestMem → (gpa n : ℕ) → List ℕ
mem_read mem gpa n = elim (window mem gpa n) [
  | some off ↦ slice_at n off mem.dram
  | none ↦ zero_bytes n
]

unfoldable pub mem_write : GuestMem → (gpa : ℕ) → List ℕ → GuestMem
mem_write mem gpa src = elim (window mem gpa (length src)) [
  | some off ↦ record mem { dram = copy_slice src off mem.dram }
  | none ↦ mem
]

unfoldable pub mem_read_u16 : GuestMem → ℕ → ℕ
mem_read_u16 mem gpa = from_le_bytes (mem_read mem gpa 2)

unfoldable pub mem_read_u32 : GuestMem → ℕ → ℕ
mem_read_u32 mem gpa = from_le_bytes (mem_read mem gpa 4)

unfoldable pub mem_read_u64 : GuestMem → ℕ → ℕ
mem_read_u64 mem gpa = from_le_bytes (mem_read mem gpa 8)

unfoldable pub mem_write_u16 : GuestMem → (gpa v : ℕ) → GuestMem
mem_write_u16 mem gpa v = mem_write mem gpa (to_le_bytes 2 v)

unfoldable pub mem_write_u32 : GuestMem → (gpa v : ℕ) → GuestMem
mem_write_u32 mem gpa v = mem_write mem gpa (to_le_bytes 4 v)

-- One descriptor's guest buffer.
pub record Buf : Type 0 where
  pub addr : ℕ
  pub len : ℕ

-- Gather n bytes from a scatter list, `skip` bytes in; the answer is shorter if the list is.
unfoldable pub sg_read : GuestMem → List Buf → (skip n : ℕ) → List ℕ
sg_read mem [] skip n = []
sg_read mem (b ∷ bs) skip n =
    let passed : List ℕ = sg_read mem bs (skip - b.len) n in
    let took : ℕ = min (b.len - skip) n in
    let rest : List ℕ = sg_read mem bs 0 (n - took) in
    if leb b.len skip
    then passed
    else mem_read mem (u64 (b.addr + skip)) took ++ (if took == n then [] else rest)

-- Scatter `src` into a list of buffers, `skip` bytes in, and count the bytes written.
unfoldable pub sg_write : GuestMem → List Buf → (skip : ℕ) → List ℕ → ℕ × GuestMem
sg_write mem [] skip src = (0, mem)
sg_write mem (b ∷ bs) skip src =
    let passed : ℕ × GuestMem = sg_write mem bs (skip - b.len) src in
    let took : ℕ = min (b.len - skip) (length src) in
    let mem' : GuestMem = mem_write mem (u64 (b.addr + skip)) (take took src) in
    let rest : ℕ × GuestMem = sg_write mem' bs 0 (drop took src) in
    if leb b.len skip
    then passed
    else if took == length src
    then (took, mem')
    else (took + rest.0, rest.1)

unfoldable pub sg_len : List Buf → ℕ
sg_len [] = 0
sg_len (b ∷ bs) = b.len + sg_len bs

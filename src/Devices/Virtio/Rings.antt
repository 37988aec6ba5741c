-- ===== src/Devices/Virtio/Rings.antt =====
-- crates/riscv-devices/src/virtio.rs: `walk` and `push_used`, the descriptor table and the used ring.
use tab_linux.Base.{
  ℕ, zero, suc, ◌+◌, ◌*◌, ◌/◌, ◌%◌, bit_and, min, Bool, not, Option, none, some, [], ◌∷◌, ◌++◌, leb,
  ◌==◌, if◌then◌else◌, u16, u64,
}
use tab_linux.Devices.Memory.{
  mem_read_u16, mem_read_u32, mem_read_u64, mem_write_u16, mem_write_u32, Buf, GuestMem,
}
use tab_linux.Devices.Virtio.{Chain, QueueState}

-- One descriptor of a table in the guest's memory.
pub record Desc : Type 0 where
  pub addr : ℕ
  pub len : ℕ
  pub flags : ℕ
  pub next : ℕ

unfoldable pub read_desc : GuestMem → ℕ → Desc
read_desc mem d = record {
  addr = mem_read_u64 mem d;
  len = mem_read_u32 mem (u64 (d + 8));
  flags = mem_read_u16 mem (u64 (d + 12));
  next = mem_read_u16 mem (u64 (d + 14));
}

abbrev pub desc_next : Desc → Bool
desc_next d = not (bit_and d.flags 1 == 0)

abbrev pub desc_write : Desc → Bool
desc_write d = not (bit_and d.flags 2 == 0)

abbrev pub desc_indirect : Desc → Bool
desc_indirect d = not (bit_and d.flags 4 == 0)

-- The buffer goes to the list of its direction.
unfoldable pub add_buf : Chain → Desc → Chain
add_buf chain d =
    let buf : Buf = record { addr = d.addr; len = d.len } in
    if desc_write d
    then record chain { writable = chain.writable ++ buf ∷ [] }
    else record chain { readable = chain.readable ++ buf ∷ [] }

-- The table of an indirect descriptor, from the entry `inner` on; `count` entries are followed at most.
unfoldable pub walk_indirect : (count : ℕ) → GuestMem → (addr inner : ℕ) → Chain → Chain
walk_indirect zero mem addr inner chain = chain
walk_indirect (suc count) mem addr inner chain =
    let d : Desc = read_desc mem (u64 (addr + inner * 16)) in
    let rest : Chain = walk_indirect count mem addr d.next (add_buf chain d) in
    if desc_next d then rest else add_buf chain d

-- What a descriptor adds to the chain.
unfoldable pub add_desc : GuestMem → Chain → Desc → Chain
add_desc mem chain d =
    if desc_indirect d
    then walk_indirect (min (d.len / 16) 256) mem d.addr 0 chain
    else add_buf chain d

unfoldable pub walk_loop : (budget : ℕ) → GuestMem → QueueState → (idx : ℕ) → Chain → Option Chain
walk_loop zero mem q idx chain = some chain
walk_loop (suc budget) mem q idx chain =
    let d : Desc = read_desc mem (u64 (q.desc + idx * 16)) in
    let chain' : Chain = add_desc mem chain d in
    let rest : Option Chain = walk_loop budget mem q d.next chain' in
    if leb q.num idx then none else if desc_next d then rest else some chain'

unfoldable pub walk : GuestMem → QueueState → (head : ℕ) → Option Chain
walk mem q head =
    walk_loop (q.num + 1) mem q head (record { head = head; readable = []; writable = [] })

-- `none` is the panic of the division by a ring of no entries.
unfoldable pub push_used : GuestMem → QueueState → (head len : ℕ) → Option GuestMem
push_used mem q head len =
    let used_idx : ℕ = mem_read_u16 mem (u64 (q.used + 2)) in
    let entry : ℕ = u64 (q.used + 4 + used_idx % q.num * 8) in
    let mem₁ : GuestMem = mem_write_u32 mem entry head in
    let mem₂ : GuestMem = mem_write_u32 mem₁ (u64 (entry + 4)) len in
    if q.num == 0 then none else some (mem_write_u16 mem₂ (u64 (q.used + 2)) (u16 (used_idx + 1)))

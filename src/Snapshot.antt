-- ===== src/Snapshot.antt =====
-- crates/riscv-core/src/state.rs: `Writer` and `Reader`, the byte streams of machine snapshots. A
-- writer is its buffer.
pub mod RoundTrip
pub mod Prefix
use tab_linux.Base.{
  ℕ, zero, suc, ◌+◌, ◌*◌, ◌/◌, ◌%◌, ◌^◌, Bool, not, Option, none, some, List, [], ◌∷◌, ◌++◌, leb,
  ◌==◌, if◌then◌else◌, ◌>>=◌, length, take, drop,
}

-- `to_le_bytes` of n bytes, and `from_le_bytes`.
unfoldable pub to_le_bytes : ℕ → ℕ → List ℕ
to_le_bytes zero v = []
to_le_bytes (suc n) v = (v % 2 ^ 8) ∷ to_le_bytes n (v / 2 ^ 8)

unfoldable pub from_le_bytes : List ℕ → ℕ
from_le_bytes [] = 0
from_le_bytes (b ∷ bs) = b + from_le_bytes bs * 2 ^ 8

abbrev pub Writer : Type 0
Writer = List ℕ

unfoldable pub write_u8 : Writer → ℕ → Writer
write_u8 w v = w ++ v ∷ []

unfoldable pub write_u16 : Writer → ℕ → Writer
write_u16 w v = w ++ to_le_bytes 2 v

unfoldable pub write_u32 : Writer → ℕ → Writer
write_u32 w v = w ++ to_le_bytes 4 v

unfoldable pub write_u64 : Writer → ℕ → Writer
write_u64 w v = w ++ to_le_bytes 8 v

unfoldable pub write_bool : Writer → Bool → Writer
write_bool w v = w ++ (if v then 1 else 0) ∷ []

unfoldable pub write_bytes : Writer → List ℕ → Writer
write_bytes w v = write_u64 w (length v) ++ v

pub record Reader : Type 0 where
  pub buf : List ℕ
  pub pos : ℕ

unfoldable pub new_reader : List ℕ → Reader
new_reader buf = record { buf = buf; pos = 0 }

-- `self.buf.get(self.pos..self.pos + n)?`
unfoldable pub take_bytes : ℕ → Reader → Option (List ℕ × Reader)
take_bytes n r =
    if leb (r.pos + n) (length r.buf)
    then some (take n (drop r.pos r.buf), record r { pos = r.pos + n })
    else none

-- A number of n bytes.
unfoldable pub read_number : ℕ → Reader → Option (ℕ × Reader)
read_number n r = do (bs, r') ← take_bytes n r; some (from_le_bytes bs, r')

unfoldable pub read_u8 : Reader → Option (ℕ × Reader)
read_u8 r = read_number 1 r

unfoldable pub read_u16 : Reader → Option (ℕ × Reader)
read_u16 r = read_number 2 r

unfoldable pub read_u32 : Reader → Option (ℕ × Reader)
read_u32 r = read_number 4 r

unfoldable pub read_u64 : Reader → Option (ℕ × Reader)
read_u64 r = read_number 8 r

unfoldable pub read_bool : Reader → Option (Bool × Reader)
read_bool r = do (v, r') ← read_number 1 r; some (not (v == 0), r')

unfoldable pub read_bytes : Reader → Option (List ℕ × Reader)
read_bytes r = do (n, r') ← read_u64 r; take_bytes n r'

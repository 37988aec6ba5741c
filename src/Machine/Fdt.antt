-- ===== src/Machine/Fdt.antt =====
-- crates/riscv-machine/src/fdt.rs: the devicetree blob is searched for the properties to overwrite. Blobs
-- are lists of bytes, and offsets are unbounded numbers,
-- as `usize` is wider than four bytes.

pub mod Patch
pub mod Ends
pub mod Related
use tab_linux.Base.{
  ℕ, zero, suc, ◌+◌, ◌-◌, ◌*◌, ◌%◌, ◌^◌, Bool, true, false, not, ◌&&◌, ◌||◌, Option, none, some,
  List, [], ◌∷◌, ◌++◌, ltb, leb, ◌==◌, if◌then◌else◌, select, ◌>>=◌, length, take, drop, field,
}

unfoldable pub from_be_bytes : List ℕ → ℕ
from_be_bytes [] = 0
from_be_bytes (b ∷ bs) = b * 2 ^ (8 * length bs) + from_be_bytes bs

unfoldable pub to_be_bytes : (count v : ℕ) → List ℕ
to_be_bytes zero v = []
to_be_bytes (suc count) v = field v (8 * count) 8 ∷ to_be_bytes count v

-- `none` is the panic of an index.
unfoldable pub be32 : List ℕ → (o : ℕ) → Option ℕ
be32 b o = if leb (o + 4) (length b) then some (from_be_bytes (take 4 (drop o b))) else none

abbrev pub align4 : ℕ → ℕ
align4 n = n + 3 - (n + 3) % 4

-- The number of bytes before the first zero, all if there is none.
unfoldable pub zero_at : List ℕ → ℕ
zero_at [] = 0
zero_at (c ∷ cs) = if c == 0 then 0 else suc (zero_at cs)

unfoldable pub name_at : (dtb : List ℕ) → (off_strings off : ℕ) → List ℕ
name_at dtb off_strings off =
    let text : List ℕ = drop (off_strings + off) dtb in take (zero_at text) text

abbrev pub bytes_eq : List ℕ → List ℕ → Bool
bytes_eq [] [] = true
bytes_eq (x ∷ xs) (y ∷ ys) = x == y && bytes_eq xs ys
bytes_eq xs ys = false

-- "linux,initrd-start", "linux,initrd-end", "memory" and "reg".
abbrev pub initrd_start : List ℕ
initrd_start =
    0x6c ∷ 0x69 ∷ 0x6e ∷ 0x75 ∷ 0x78 ∷ 0x2c ∷ 0x69 ∷ 0x6e ∷ 0x69 ∷ 0x74 ∷ 0x72 ∷ 0x64 ∷ 0x2d ∷ 0x73
    ∷ 0x74 ∷ 0x61 ∷ 0x72 ∷ 0x74 ∷ []

abbrev pub initrd_end : List ℕ
initrd_end =
    0x6c ∷ 0x69 ∷ 0x6e ∷ 0x75 ∷ 0x78 ∷ 0x2c ∷ 0x69 ∷ 0x6e ∷ 0x69 ∷ 0x74 ∷ 0x72 ∷ 0x64 ∷ 0x2d ∷ 0x65
    ∷ 0x6e ∷ 0x64 ∷ []

abbrev pub memory_name : List ℕ
memory_name = 0x6d ∷ 0x65 ∷ 0x6d ∷ 0x6f ∷ 0x72 ∷ 0x79 ∷ []

abbrev pub reg_name : List ℕ
reg_name = 0x72 ∷ 0x65 ∷ 0x67 ∷ []

-- How a search ends: with what it has noted, at an unknown token, by a panic, or without fuel.
pub data Search (A : Type 0) : Type 0 where
  found : A → Search A
  refused : Search A
  panicked : Search A
  unfinished : Search A

-- The next position with what is noted by then, or the end of the search.
pub data Next (A : Type 0) : Type 0 where
  go_on : (pos : ℕ) → A → Next A
  stop : Search A → Next A

-- One property: its length, its name, and where its bytes begin.
pub record Property : Type 0 where
  pub len : ℕ
  pub name : List ℕ
  pub data_at : ℕ

unfoldable pub read_property : List ℕ → (off_strings pos : ℕ) → Option Property
read_property dtb off_strings pos = do
  len ← be32 dtb (pos + 4)
  nameoff ← be32 dtb (pos + 8)
  some (record { len = len; name = name_at dtb off_strings nameoff; data_at = pos + 12 })

-- What a patch notes at the tokens of each kind.
pub record Notes (A : Type 0) : Type 0 where
  pub at_begin : (name : List ℕ) → A → A
  pub at_end : A → A
  pub at_property : Property → A → A

unfoldable pub property_step :
    {A : Type 0} → Notes A → (dtb : List ℕ) → (off_strings pos : ℕ) → A → Next A
property_step notes dtb off_strings pos a = elim (read_property dtb off_strings pos) [
  | none ↦ Next.stop Search.panicked
  | some p ↦ Next.go_on (align4 (p.data_at + p.len)) (notes.at_property p a)
]

abbrev pub token_cases :
    {A : Type 0} → Notes A → (dtb : List ℕ) → (off_strings pos : ℕ) → A → List (ℕ × Next A)
token_cases notes dtb off_strings pos a =
    let name_len : ℕ = zero_at (drop (pos + 4) dtb) in
    (
      1,
      Next.go_on (align4 (pos + 4 + name_len + 1))
          (notes.at_begin (take name_len (drop (pos + 4) dtb)) a),
    )
    ∷ (2, Next.go_on (pos + 4) (notes.at_end a))
    ∷ (4, Next.go_on (pos + 4) a)
    ∷ (3, property_step notes dtb off_strings pos a)
    ∷ (9, Next.stop (Search.found a))
    ∷ []

-- `none` is the end of the blob, the condition of the loop.
unfoldable pub token_step :
    {A : Type 0} → Notes A → (dtb : List ℕ) → (off_strings pos : ℕ) → A → Next A
token_step notes dtb off_strings pos a = elim (be32 dtb pos) [
  | none ↦ Next.stop (Search.found a)
  | some token ↦ select token (token_cases notes dtb off_strings pos a) (Next.stop Search.refused)
]

-- The loop over the tokens, which both patches have.
unfoldable pub search :
    {A : Type 0} → Notes A → (fuel : ℕ) → (dtb : List ℕ) → (off_strings pos : ℕ) → A → Search A
search notes zero dtb off_strings pos a = Search.unfinished
search notes (suc fuel) dtb off_strings pos a = elim (token_step notes dtb off_strings pos a) [
  | Next.go_on pos' a' ↦ search notes fuel dtb off_strings pos' a'
  | Next.stop result ↦ result
]

-- The blob is large enough and has its magic number, and its blocks are in it: the offsets of the
-- tokens and of the names.
unfoldable pub blocks : List ℕ → Option (ℕ × ℕ)
blocks dtb = do
  magic ← be32 dtb 0
  off_struct ← be32 dtb 8
  off_strings ← be32 dtb 12
  size_strings ← be32 dtb 32
  (if ltb (length dtb) 40
        || not (magic == 0xd00dfeed)
        || leb (length dtb) off_struct
        || ltb (length dtb) (off_strings + size_strings)
      then none
      else some (off_struct, off_strings))

-- `dtb[at..at + 8].copy_from_slice(&v.to_be_bytes())`
unfoldable pub put_u64 : List ℕ → (offset v : ℕ) → Option (List ℕ)
put_u64 dtb offset v =
    if leb (offset + 8) (length dtb)
    then some (take offset dtb ++ (to_be_bytes 8 v ++ drop (offset + 8) dtb))
    else none

-- The tokens are searched from their first on; the fuel is enough for every blob.
abbrev pub search_blob :
    {A : Type 0} → Notes A → List ℕ → (off_struct off_strings : ℕ) → A → Search A
search_blob notes dtb off_struct off_strings a =
    search notes (suc (length dtb)) dtb off_strings off_struct a

-- ===== src/Machine/Fdt/Patch.antt =====
-- crates/riscv-machine/src/fdt.rs: `patch_initrd` and `patch_memory`. The answer is that of the function
-- with the blob it leaves; `none` is a panic.
pub mod Splice
pub mod Effect
pub mod Nodes
use tab_linux.Base.{
  ℕ, ◌+◌, ◌-◌, ◌^◌, Bool, true, false, not, ◌&&◌, ◌||◌, Option, none, some, List, [], ◌∷◌, ◌++◌,
  ◌==◌, if◌then◌else◌, ◌>>=◌, take, u32,
}
use tab_linux.Machine.Fdt.{
  Notes, Property, Search, blocks, bytes_eq, initrd_end, initrd_start, memory_name, put_u64,
  reg_name, search_blob,
}

record InitrdSearch : Type 0 where
  pub patched : ℕ
  pub start_at : ℕ
  pub end_at : ℕ

abbrev note_initrd : Property → InitrdSearch → InitrdSearch
note_initrd p s =
    if p.len == 8
    then if bytes_eq p.name initrd_start
      then record s { start_at = p.data_at; patched = s.patched + 1 }
      else if bytes_eq p.name initrd_end
      then record s { end_at = p.data_at; patched = s.patched + 1 }
      else s
    else s

abbrev initrd_notes : Notes InitrdSearch
initrd_notes = record { at_begin = λ name s. s; at_end = λ s. s; at_property = note_initrd }

abbrev put_noted : List ℕ → (offset v : ℕ) → Option (List ℕ)
put_noted dtb offset v = if offset == 0 then some dtb else put_u64 dtb offset v

unfoldable pub patch_initrd : List ℕ → (start end : ℕ) → Option (Bool × List ℕ)
patch_initrd dtb start end = elim (blocks dtb) [
  | none ↦ some (false, dtb)
  | some (off_struct, off_strings) ↦
      elim (search_blob initrd_notes dtb off_struct off_strings
        (record { patched = 0; start_at = 0; end_at = 0 })) [
          | Search.refused ↦ some (false, dtb)
          | Search.panicked ↦ none
          | Search.unfinished ↦ none
          | Search.found s ↦ do
            started ← put_noted dtb s.start_at start
            ended ← put_noted started s.end_at end
            some (s.patched == 2, ended)
        ]
]

-- The depths wrap at 32 bits; `memory_depth` is at first -1.
pub record MemorySearch : Type 0 where
  pub in_memory : Bool
  pub depth : ℕ
  pub memory_depth : ℕ
  pub reg_at : ℕ

abbrev pub begin_memory : (name : List ℕ) → MemorySearch → MemorySearch
begin_memory name s =
    let deeper : ℕ = u32 (s.depth + 1) in
    if not s.in_memory
      && (bytes_eq name memory_name || bytes_eq (take 7 name) (memory_name ++ 0x40 ∷ []))
    then record s { in_memory = true; depth = deeper; memory_depth = deeper }
    else record s { depth = deeper }

abbrev pub end_memory : MemorySearch → MemorySearch
end_memory s = record s {
  in_memory = s.in_memory && not (s.depth == s.memory_depth);
  depth = u32 (s.depth + (2 ^ 32 - 1));
}

abbrev pub note_reg : Property → MemorySearch → MemorySearch
note_reg p s =
    if s.in_memory && p.len == 16 && bytes_eq p.name reg_name
    then record s { reg_at = p.data_at }
    else s

abbrev pub memory_notes : Notes MemorySearch
memory_notes = record { at_begin = begin_memory; at_end = end_memory; at_property = note_reg }

abbrev pub new_search : MemorySearch
new_search = record { in_memory = false; depth = 0; memory_depth = 2 ^ 32 - 1; reg_at = 0 }

abbrev pub search_memory : List ℕ → (off_struct off_strings : ℕ) → Search MemorySearch
search_memory dtb off_struct off_strings =
    search_blob memory_notes dtb off_struct off_strings new_search

-- What is done with the end of the search.
unfoldable pub retarget : List ℕ → (base size : ℕ) → Search MemorySearch → Option (Bool × List ℕ)
retarget dtb base size Search.refused = some (false, dtb)
retarget dtb base size Search.panicked = none
retarget dtb base size Search.unfinished = none
retarget dtb base size (Search.found s) = if s.reg_at == 0 then some (false, dtb) else (do
  based ← put_u64 dtb s.reg_at base
  sized ← put_u64 based (s.reg_at + 8) size
  some (true, sized))

unfoldable pub patch_memory : List ℕ → (base size : ℕ) → Option (Bool × List ℕ)
patch_memory dtb base size = elim (blocks dtb) [
  | none ↦ some (false, dtb)
  | some (off_struct, off_strings) ↦
      retarget dtb base size (search_memory dtb off_struct off_strings)
]

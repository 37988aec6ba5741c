-- ===== src/Machine/Fdt/Patch/Effect.antt =====
-- `patch_memory` against a description of it on the stack of the open nodes.
use tab_linux.Base.{
  ℕ, ◌+◌, ◌^◌, ◌<◌, ◌≡◌, refl, ap, inl, inr, Bool, true, false, Option, none, some, List, arith,
  leb, ◌==◌, if◌then◌else◌, Option-cases, ◌>>=◌, length,
}
use tab_linux.Machine.Fdt.Patch.Splice.{
  length-put_u64, put_twice, put_u64-none, put_u64-splices, splice,
}
use tab_linux.Machine.Fdt.Patch.{MemorySearch, memory_notes, patch_memory, retarget, search_memory}
use tab_linux.Machine.Fdt.Patch.Nodes.{
  OpenNodes, Tracks, node_notes, search_memory-EndsAlike, search_nodes,
}
use tab_linux.Machine.Fdt.{Search, blocks, put_u64}
use tab_linux.Machine.Fdt.Related.{EndsAlike}

-- What becomes of the blob at the end of a search that keeps the open nodes; a panic is `none`.
abbrev pub effect_of : List ℕ → (base size : ℕ) → Search OpenNodes → Option (Bool × List ℕ)
effect_of dtb base size Search.refused = some (false, dtb)
effect_of dtb base size Search.panicked = none
effect_of dtb base size Search.unfinished = none
effect_of dtb base size (Search.found t) =
    if t.reg_found == 0
    then some (false, dtb)
    else if leb (t.reg_found + 16) (length dtb)
    then some (true, splice dtb t.reg_found base size)
    else none

abbrev pub memory_effect : List ℕ → (base size : ℕ) → Option (Bool × List ℕ)
memory_effect dtb base size = elim (blocks dtb) [
  | none ↦ some (false, dtb)
  | some (off_struct, off_strings) ↦
      effect_of dtb base size (search_nodes dtb off_struct off_strings)
]

-- Two doublewords that are put one after the other.
put_both :
    (dtb : List ℕ) (offset base size : ℕ)
    → let doubled : Option (Bool × List ℕ) = do
      based ← put_u64 dtb offset base
      sized ← put_u64 based (offset + 8) size
      some (true, sized)
      in doubled ≡ (
        if leb (offset + 16) (length dtb) then some (true, splice dtb offset base size) else none)
put_both dtb offset base size = elim (Option-cases (put_u64 dtb offset base)) [
  | inl p ↦
      let short : leb (offset + 16) (length dtb) ≡ false =
        ground (arith, put_u64-none dtb offset base p) in
      rw (p, short) refl
  | inr (once, p) ↦ elim (Option-cases (put_u64 once (offset + 8) size)) [
    | inl q ↦
        let short : leb (offset + 16) (length dtb) ≡ false =
          ground
            (arith, put_u64-none once (offset + 8) size q, length-put_u64 dtb once offset base p) in
        rw (p, q, short) refl
    | inr (twice, q) ↦
        let fits : leb (offset + 16) (length dtb) ≡ true = ground (
          arith,
          (put_u64-splices once twice (offset + 8) size q).0,
          length-put_u64 dtb once offset base p,
        ) in
        rw (p, q, fits)
          (ap (λ (b : List ℕ). some (true, b)) (put_twice dtb once twice offset base size p q))
  ]
]

retarget-effect_of :
    (dtb : List ℕ) (base size : ℕ) (r : Search MemorySearch) (r' : Search OpenNodes)
    → EndsAlike memory_notes node_notes Tracks r r'
    → retarget dtb base size r ≡ effect_of dtb base size r'
unfolding retarget
retarget-effect_of dtb base size (Search.found s) (Search.found t) (pos, (equal, _, _)) = rw equal (
    ap (λ (outcome : Option (Bool × List ℕ)). if s.reg_at == 0 then some (false, dtb) else outcome)
      (put_both dtb s.reg_at base size))
retarget-effect_of dtb base size Search.refused Search.refused alike = refl
retarget-effect_of dtb base size Search.panicked Search.panicked alike = refl
retarget-effect_of dtb base size Search.unfinished Search.unfinished alike = refl
retarget-effect_of dtb base size _ _ alike = absurd alike

-- Of a blob of less than 2^32 bytes, `patch_memory` answers true exactly if the header is accepted, the
-- tokens are searched to the end without a panic, the last 16-byte `reg` in a memory node or in a node
-- within one lies at an offset other than 0, and its bytes are in the blob; they are then those of the
-- base and of the size, big-endian, and all others as before. It panics if the search does or the bytes
-- are not in the blob, and in all other cases it answers false and leaves the blob as it is.
pub patch_memory-memory_effect :
    (dtb : List ℕ) (base size : ℕ)
    → length dtb < 2 ^ 32
    → patch_memory dtb base size ≡ memory_effect dtb base size
unfolding patch_memory
patch_memory-memory_effect dtb base size small =
    elim (blocks dtb)
      as (λ (found : Option (ℕ × ℕ)).
        let patched : Option (Bool × List ℕ) = elim found [
          | none ↦ some (false, dtb)
          | some (off_struct, off_strings) ↦
              retarget dtb base size (search_memory dtb off_struct off_strings)
        ] in
        let expected : Option (Bool × List ℕ) = elim found [
          | none ↦ some (false, dtb)
          | some (off_struct, off_strings) ↦
              effect_of dtb base size (search_nodes dtb off_struct off_strings)
        ] in
        patched ≡ expected) [
          | none ↦ refl
          | some (off_struct, off_strings) ↦
              retarget-effect_of dtb base size (search_memory dtb off_struct off_strings)
                (search_nodes dtb off_struct off_strings)
                (search_memory-EndsAlike dtb off_struct off_strings small)
        ]

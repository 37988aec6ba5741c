-- ===== src/Machine/Fdt/Patch/Nodes.antt =====
-- The search of `patch_memory` against one that keeps the open nodes in a stack.
use tab_linux.Base.{
  ℕ, zero, suc, ◌+◌, ◌^◌, ◌≤◌, ◌<◌, ◌≡◌, refl, ◌⊎◌, inl, inr, Bool, true, false, ◌&&◌, ◌||◌, List,
  [], ◌∷◌, ◌++◌, arith, ◌==◌, if◌then◌else◌, Bool-cases, length, take, drop, u32,
}
use tab_linux.Machine.Fdt.Patch.{
  memory_notes, new_search, search_memory, MemorySearch, begin_memory, end_memory, note_reg,
}
use tab_linux.Machine.Fdt.{Search, search_blob, Notes, Property, bytes_eq, memory_name, reg_name}
use tab_linux.Machine.Fdt.Related.{EndsAlike, IsKept, search-EndsAlike}

-- For each open node, the innermost first, whether it is a memory, and the `reg` that was found last.
pub record OpenNodes : Type 0 where
  pub memories : List Bool
  pub reg_found : ℕ

abbrev pub is_memory : (name : List ℕ) → Bool
is_memory name = bytes_eq name memory_name || bytes_eq (take 7 name) (memory_name ++ 0x40 ∷ [])

abbrev pub any_of : List Bool → Bool
any_of [] = false
any_of (b ∷ bs) = b || any_of bs

abbrev pub is_reg : Property → Bool
is_reg p = p.len == 16 && bytes_eq p.name reg_name

abbrev pub node_notes : Notes OpenNodes
node_notes = record {
  at_begin = λ name s. record s { memories = is_memory name ∷ s.memories };
  at_end = λ s. record s { memories = drop 1 s.memories };
  at_property =
      λ p s. if any_of s.memories && is_reg p then record s { reg_found = p.data_at } else s;
}

-- The outermost memory among the open nodes has k nodes open in it.
abbrev Inner : (k : ℕ) → List Bool → Type 0
Inner k [] = ⊥
Inner zero (b ∷ bs) = (b ≡ true) × (any_of bs ≡ false)
Inner (suc k) (b ∷ bs) = Inner k bs

-- Outside of memories, or as many nodes inside of one as the depths say.
abbrev pub Tracks : (pos : ℕ) → MemorySearch → OpenNodes → Type 0
Tracks pos s t =
    (t.reg_found ≡ s.reg_at)
    × (s.depth < 2 ^ 32)
    × (((s.in_memory ≡ false) × (any_of t.memories ≡ false))
        ⊎ ((s.in_memory ≡ true)
            × (s.memory_depth < 2 ^ 32)
            × ((k : ℕ) × Inner k t.memories × (k ≤ pos) × (u32 (s.memory_depth + k) ≡ s.depth))))

Inner-any_of : (k : ℕ) (bs : List Bool) → Inner k bs → any_of bs ≡ true
Inner-any_of k [] inner = absurd inner
Inner-any_of zero (b ∷ bs) (e, out) = rw e refl
Inner-any_of (suc k) (true ∷ bs) inner = refl
Inner-any_of (suc k) (false ∷ bs) inner = Inner-any_of k bs inner

any_of-drop : (bs : List Bool) → any_of bs ≡ false → any_of (drop 1 bs) ≡ false
any_of-drop [] e = refl
any_of-drop (false ∷ bs) e = e
any_of-drop (true ∷ bs) e = ground arith

-- The cases of an open node, by whether it is a memory.
begun :
    (b : Bool) (pos pos' : ℕ) (name : List ℕ) (s : MemorySearch) (t : OpenNodes)
    → is_memory name ≡ b
    → pos + 4 ≤ pos'
    → Tracks pos s t
    → Tracks pos' (begin_memory name s) (node_notes.at_begin name t)
begun true pos pos' name s t memory later (r, d, inl (out, none_open)) =
    rw (memory, out, begin_memory)
      (r, omega arith, inr (refl, omega arith, (0, (memory, none_open), omega arith, ground arith)))
begun false pos pos' name s t other later (r, d, inl (out, none_open)) =
    rw (other, out, begin_memory) (r, omega arith, inl (refl, none_open))
begun b pos pos' name s t memory later (r, d, inr (within, m, (k, inner, below, e))) =
    rw (memory, within, begin_memory)
      (r, omega arith, inr (refl, m, (suc k, inner, omega arith, omega (arith, e))))

end-Tracks :
    (pos pos' : ℕ) (s : MemorySearch) (t : OpenNodes)
    → pos + 4 < 2 ^ 32
    → pos + 4 ≤ pos'
    → Tracks pos s t
    → Tracks pos' (end_memory s) (node_notes.at_end t)
end-Tracks pos pos' s t small later (r, d, inl (out, none_open)) =
    rw (out, end_memory) (r, omega arith, inl (refl, any_of-drop t.memories none_open))
end-Tracks pos pos' s t small later (r, d, inr (within, m, (k, inner, below, e))) =
    ended k t.memories inner below e
  where
    ended :
        (k : ℕ) (memories : List Bool)
        → Inner k memories
        → k ≤ pos
        → u32 (s.memory_depth + k) ≡ s.depth
        → Tracks pos'
            (end_memory s)
            (record { memories = drop 1 memories; reg_found = t.reg_found })
    ended k [] inner below e = absurd inner
    ended zero (b ∷ bs) (memory, out) below e =
        let here : (s.depth == s.memory_depth) ≡ true = ground (arith, e, m) in
        rw (within, here, end_memory) (r, omega arith, inl (refl, out))
    ended (suc k) (b ∷ bs) inner below e =
        let deeper : (s.depth == s.memory_depth) ≡ false = ground (arith, e, m, small, below) in
        rw (within, deeper, end_memory)
          (r, omega arith, inr (refl, m, (k, inner, omega arith, omega (arith, e))))

property-Tracks :
    (pos pos' : ℕ) (p : Property) (s : MemorySearch) (t : OpenNodes)
    → pos + 4 ≤ pos'
    → Tracks pos s t
    → Tracks pos' (note_reg p s) (node_notes.at_property p t)
property-Tracks pos pos' p s t later (r, d, inl (out, none_open)) =
    rw (out, none_open, note_reg) (r, d, inl (refl, none_open))
property-Tracks pos pos' p s t later (r, d, inr (within, m, (k, inner, below, e))) =
    elim (Bool-cases (is_reg p)) [
      | inl reg ↦
          rw (within, Inner-any_of k t.memories inner, reg, note_reg)
            (refl, d, inr (refl, m, (k, inner, omega arith, e)))
      | inr other ↦
          rw (within, Inner-any_of k t.memories inner, other, note_reg)
            (r, d, inr (refl, m, (k, inner, omega arith, e)))
    ]

passed :
    (pos pos' : ℕ) (s : MemorySearch) (t : OpenNodes)
    → pos + 4 ≤ pos'
    → Tracks pos s t
    → Tracks pos' s t
passed pos pos' s t later (r, d, inl outside) = (r, d, inl outside)
passed pos pos' s t later (r, d, inr (within, m, (k, inner, below, e))) =
    (r, d, inr (within, m, (k, inner, omega arith, e)))

nodes-IsKept : (size : ℕ) → size < 2 ^ 32 → IsKept memory_notes node_notes Tracks size
nodes-IsKept size small = record {
  begins =
      λ pos pos' name s t inside later rel. begun (is_memory name) pos pos' name s t refl later rel;
  ends = λ pos pos' s t inside later rel. end-Tracks pos pos' s t (omega arith) later rel;
  properties = λ pos pos' p s t inside later rel. property-Tracks pos pos' p s t later rel;
  passes = λ pos pos' s t later rel. passed pos pos' s t later rel;
}

abbrev pub search_nodes : List ℕ → (off_struct off_strings : ℕ) → Search OpenNodes
search_nodes dtb off_struct off_strings =
    search_blob node_notes dtb off_struct off_strings (record { memories = []; reg_found = 0 })

-- The two searches end in the same way, with the same `reg`.
pub search_memory-EndsAlike :
    (dtb : List ℕ) (off_struct off_strings : ℕ)
    → length dtb < 2 ^ 32
    → EndsAlike memory_notes node_notes Tracks
        (search_memory dtb off_struct off_strings)
        (search_nodes dtb off_struct off_strings)
search_memory-EndsAlike dtb off_struct off_strings small =
    search-EndsAlike memory_notes node_notes Tracks dtb off_strings
      (nodes-IsKept (length dtb) small) (suc (length dtb)) off_struct new_search
      (record { memories = []; reg_found = 0 }) (refl, omega arith, inl (refl, refl))

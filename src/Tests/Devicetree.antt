-- ===== src/Tests/Devicetree.antt =====
-- The patches of the devicetree: a blob with a memory node, and one that ends in a property.
use tab_linux.Base.{ℕ, ◌≡◌, refl, true, false, none, some, List, [], ◌∷◌, arith}
use tab_linux.Machine.Fdt.{
  Search, be32, blocks, from_be_bytes, name_at, property_step, put_u64, read_property, search,
  to_be_bytes, token_step, zero_at,
}
use tab_linux.Machine.Fdt.Patch.Splice.{splice}
use tab_linux.Machine.Fdt.Patch.{memory_notes, new_search, patch_initrd, patch_memory, retarget}
use tab_linux.Machine.Fdt.Ends.{search-ne-unfinished}
use tab_linux.Machine.Fdt.Patch.Effect.{memory_effect, patch_memory-memory_effect}

abbrev memory_blob : List ℕ
memory_blob =
    208 ∷ 13 ∷ 254 ∷ 237 ∷ 0 ∷ 0 ∷ 0 ∷ 108 ∷ 0 ∷ 0 ∷ 0 ∷ 40 ∷ 0 ∷ 0 ∷ 0 ∷ 104 ∷ 0 ∷ 0 ∷ 0 ∷ 0 ∷ 0
    ∷ 0 ∷ 0 ∷ 0 ∷ 0 ∷ 0 ∷ 0 ∷ 0 ∷ 0 ∷ 0 ∷ 0 ∷ 0 ∷ 0 ∷ 0 ∷ 0 ∷ 4 ∷ 0 ∷ 0 ∷ 0 ∷ 64 ∷ 0 ∷ 0 ∷ 0 ∷ 1 ∷ 0
    ∷ 0 ∷ 0 ∷ 0 ∷ 0 ∷ 0 ∷ 0 ∷ 1 ∷ 109 ∷ 101 ∷ 109 ∷ 111 ∷ 114 ∷ 121 ∷ 64 ∷ 56 ∷ 0 ∷ 0 ∷ 0 ∷ 0 ∷ 0
    ∷ 0 ∷ 0 ∷ 3 ∷ 0 ∷ 0 ∷ 0 ∷ 16 ∷ 0 ∷ 0 ∷ 0 ∷ 0 ∷ 0 ∷ 0 ∷ 0 ∷ 0 ∷ 0 ∷ 0 ∷ 0 ∷ 0 ∷ 0 ∷ 0 ∷ 0 ∷ 0 ∷ 0
    ∷ 0 ∷ 0 ∷ 0 ∷ 0 ∷ 0 ∷ 0 ∷ 2 ∷ 0 ∷ 0 ∷ 0 ∷ 2 ∷ 0 ∷ 0 ∷ 0 ∷ 9 ∷ 114 ∷ 101 ∷ 103 ∷ 0 ∷ []

abbrev cut_blob : List ℕ
cut_blob =
    208 ∷ 13 ∷ 254 ∷ 237 ∷ 0 ∷ 0 ∷ 0 ∷ 68 ∷ 0 ∷ 0 ∷ 0 ∷ 40 ∷ 0 ∷ 0 ∷ 0 ∷ 40 ∷ 0 ∷ 0 ∷ 0 ∷ 0 ∷ 0 ∷ 0
    ∷ 0 ∷ 0 ∷ 0 ∷ 0 ∷ 0 ∷ 0 ∷ 0 ∷ 0 ∷ 0 ∷ 0 ∷ 0 ∷ 0 ∷ 0 ∷ 0 ∷ 0 ∷ 0 ∷ 0 ∷ 0 ∷ 0 ∷ 0 ∷ 0 ∷ 1 ∷ 0 ∷ 0
    ∷ 0 ∷ 0 ∷ 0 ∷ 0 ∷ 0 ∷ 1 ∷ 109 ∷ 101 ∷ 109 ∷ 111 ∷ 114 ∷ 121 ∷ 64 ∷ 56 ∷ 0 ∷ 0 ∷ 0 ∷ 0 ∷ 0 ∷ 0
    ∷ 0 ∷ 3 ∷ []

memory_blob_retargeted :
    patch_memory memory_blob 0x80000000 0x20000000
    ≡ some (true, splice memory_blob 76 0x80000000 0x20000000)
unfolding patch_memory retarget blocks be32 from_be_bytes search token_step property_step
    read_property name_at zero_at put_u64 to_be_bytes
memory_blob_retargeted = refl

cut_blob_panics : patch_memory cut_blob 0x80000000 0x20000000 ≡ none
unfolding patch_memory retarget blocks be32 from_be_bytes search token_step property_step
    read_property name_at zero_at put_u64 to_be_bytes
cut_blob_panics = refl

initrd_missing : patch_initrd memory_blob 0x84000000 0x84100000 ≡ some (false, memory_blob)
unfolding patch_initrd blocks be32 from_be_bytes search token_step property_step read_property
    name_at zero_at
initrd_missing = refl

patch_memory-memory_effect_example :
    patch_memory memory_blob 0x80000000 0x20000000 ≡ memory_effect memory_blob 0x80000000 0x20000000
patch_memory-memory_effect_example =
    patch_memory-memory_effect memory_blob 0x80000000 0x20000000 (omega arith)

search-ne-unfinished_example :
    ¬ (search memory_notes 109 memory_blob 104 40 new_search ≡ Search.unfinished)
search-ne-unfinished_example =
    search-ne-unfinished memory_notes 109 memory_blob 104 40 new_search (omega arith) (omega arith)

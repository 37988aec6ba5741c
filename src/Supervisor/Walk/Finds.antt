-- ===== src/Supervisor/Walk/Finds.antt =====
-- The walk of mmu.rs against the relation of the page tables.
use tab_linux.Base.{
  ℕ, zero, suc, ◌+◌, ◌*◌, ◌%◌, ◌^◌, ◌<◌, ◌≡◌, sym, ap, ◌∙◌, subst, inl, inr, Bool, arith, field,
  shl,
}
use tab_linux.Cpu.{Bus}
use tab_linux.Supervisor.{AccessType, Result}
use tab_linux.Supervisor.Mmu.{Mmu}
use tab_linux.Supervisor.Walk.{fails, leaf, saw, vpn_level, walk_from, Leaf}
use tab_linux.Supervisor.Walk.Maps.{
  IsLeaf, IsTable, entry_at, leaf-aligned, leaf-page, ok_injective, page_leaf, visit-IsLeaf,
  visit-IsTable, visit-cases, MapsTo,
}

module _ {M : Type 0} (bus : Bus M) (m : M) (vaddr : ℕ) (access : AccessType) where
  walk-here :
      (dump : Bool) (mmu : Mmu) (level table : ℕ)
      → level < 3
      → IsLeaf (bus.read_u64 m (table + vpn_level vaddr level * 8))
      → field (bus.read_u64 m (table + vpn_level vaddr level * 8)) 10 44 % 2 ^ (9 * level) ≡ 0
      → (walk_from bus dump m level table vaddr access mmu).0
        ≡ Result.ok (
            page_leaf level
              (bus.read_u64 m (table + vpn_level vaddr level * 8))
              (table + vpn_level vaddr level * 8)
              vaddr)
  unfolding walk_from
  walk-here dump mmu zero table h is_leaf aligned =
      let pte_addr : ℕ = table + vpn_level vaddr 0 * 8 in
      let pte : ℕ = bus.read_u64 m pte_addr in
      rw
        (visit-IsLeaf dump 0 pte pte_addr vaddr access (saw dump 0 pte_addr pte mmu)
          (fails (saw dump 0 pte_addr pte mmu) vaddr access 3) is_leaf)
        (leaf-page dump 0 pte pte_addr vaddr access (saw dump 0 pte_addr pte mmu) h aligned)
  walk-here dump mmu (suc level) table h is_leaf aligned =
      let pte_addr : ℕ = table + vpn_level vaddr (suc level) * 8 in
      let pte : ℕ = bus.read_u64 m pte_addr in
      let seen : Mmu = saw dump (suc level) pte_addr pte mmu in
      rw
        (visit-IsLeaf dump (suc level) pte pte_addr vaddr access seen
          (walk_from bus dump m level (shl 64 (field pte 10 44) 12) vaddr access seen) is_leaf)
        (leaf-page dump (suc level) pte pte_addr vaddr access seen h aligned)

  mapped_here :
      (dump : Bool) (mmu : Mmu) (level table : ℕ) (l : Leaf)
      → level < 3
      → IsLeaf (entry_at bus m vaddr level table)
      → (leaf dump level
          (entry_at bus m vaddr level table)
          (table + vpn_level vaddr level * 8)
          vaddr
          access
          mmu).0
        ≡ Result.ok l
      → MapsTo bus m vaddr level table l
  mapped_here dump mmu level table l h is_leaf ends =
      let pte : ℕ = entry_at bus m vaddr level table in
      let pte_addr : ℕ = table + vpn_level vaddr level * 8 in
      let aligned = leaf-aligned dump level pte pte_addr vaddr access mmu l h ends in
      subst (MapsTo bus m vaddr level table)
        (ok_injective (sym (leaf-page dump level pte pte_addr vaddr access mmu h aligned) ∙ ends))
        (MapsTo.here is_leaf aligned)

  next_table : (pte : ℕ) → shl 64 (field pte 10 44) 12 ≡ field pte 10 44 * 2 ^ 12
  next_table pte = omega arith

  walk-below :
      (dump : Bool) (mmu : Mmu) (level table : ℕ)
      → IsTable (entry_at bus m vaddr (suc level) table)
      → (walk_from bus dump m (suc level) table vaddr access mmu)
        ≡ walk_from bus dump m level
            (field (entry_at bus m vaddr (suc level) table) 10 44 * 2 ^ 12)
            vaddr
            access
            (saw dump
              (suc level)
              (table + vpn_level vaddr (suc level) * 8)
              (entry_at bus m vaddr (suc level) table)
              mmu)
  unfolding walk_from
  walk-below dump mmu level table h =
      let pte_addr : ℕ = table + vpn_level vaddr (suc level) * 8 in
      let pte : ℕ = bus.read_u64 m pte_addr in
      let seen : Mmu = saw dump (suc level) pte_addr pte mmu in
      visit-IsTable dump (suc level) pte pte_addr vaddr access seen
        (walk_from bus dump m level (shl 64 (field pte 10 44) 12) vaddr access seen) h
      ∙ ap (λ (t : ℕ). walk_from bus dump m level t vaddr access seen) (next_table pte)

  -- From a table of level 0, 1 or 2 the walk answers every leaf that the tables map the address to,
  -- whatever was recorded of earlier walks.
  pub walk_from_complete :
      (dump : Bool) (mmu : Mmu) (level table : ℕ) (l : Leaf)
      → level < 3
      → MapsTo bus m vaddr level table l
      → (walk_from bus dump m level table vaddr access mmu).0 ≡ Result.ok l
  walk_from_complete dump mmu level table l h (MapsTo.here is_leaf aligned) =
      walk-here dump mmu level table h is_leaf aligned
  walk_from_complete dump mmu (suc level) table l h (MapsTo.below is_table maps) =
      rw (walk-below dump mmu level table is_table) (
        walk_from_complete dump
          (saw dump (suc level) (table + vpn_level vaddr (suc level) * 8)
            (entry_at bus m vaddr (suc level) table) mmu)
          level (field (entry_at bus m vaddr (suc level) table) 10 44 * 2 ^ 12) l (omega arith)
          maps)

  -- A leaf that the walk answers from a table of level 0, 1 or 2 is one that the tables map the
  -- address to.
  pub walk_from_sound :
      (dump : Bool) (mmu : Mmu) (level table : ℕ) (l : Leaf)
      → level < 3
      → (walk_from bus dump m level table vaddr access mmu).0 ≡ Result.ok l
      → MapsTo bus m vaddr level table l
  unfolding walk_from
  walk_from_sound dump mmu zero table l h e =
      let pte_addr : ℕ = table + vpn_level vaddr 0 * 8 in
      let pte : ℕ = bus.read_u64 m pte_addr in
      let seen : Mmu = saw dump 0 pte_addr pte mmu in
      elim (visit-cases dump 0 pte pte_addr vaddr access seen (fails seen vaddr access 3) l e) [
        | inl (is_leaf, ends) ↦ mapped_here dump seen 0 table l h is_leaf ends
        | inr (is_table, failed) ↦ absurd (ground arith)
      ]
  walk_from_sound dump mmu (suc level) table l h e =
      let pte_addr : ℕ = table + vpn_level vaddr (suc level) * 8 in
      let pte : ℕ = bus.read_u64 m pte_addr in
      let seen : Mmu = saw dump (suc level) pte_addr pte mmu in
      elim (visit-cases dump (suc level) pte pte_addr vaddr access seen
        (walk_from bus dump m level (shl 64 (field pte 10 44) 12) vaddr access seen) l e) [
          | inl (is_leaf, ends) ↦ mapped_here dump seen (suc level) table l h is_leaf ends
          | inr (is_table, goes_on) ↦ MapsTo.below is_table (
              subst (λ (t : ℕ). MapsTo bus m vaddr level t l) (next_table pte)
                (walk_from_sound dump seen level _ l (omega arith) goes_on))
        ]

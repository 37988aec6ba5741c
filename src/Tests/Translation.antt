-- ===== src/Tests/Translation.antt =====
-- The theorems on the MMU at a page table with one entry, a page of 1 GB.
use tab_linux.Base.{ℕ, ◌≡◌, refl, inl, false, none, some, arith, ◌==◌, if◌then◌else◌}
use tab_linux.Supervisor.{Satp, Privilege, AccessType, Result}
use tab_linux.Supervisor.Mmu.{apply_pte_flags, flush_tlb, new_mmu, Mmu}
use tab_linux.Supervisor.Walk.Finds.{walk_from_complete, walk_from_sound}
use tab_linux.Supervisor.Walk.Maps.{MapsTo}
use tab_linux.Supervisor.Walk.{vpn_level, walk_from, Leaf}
use tab_linux.Tests.{word_bus}
use tab_linux.Supervisor.Translate.{translate}
use tab_linux.Supervisor.Translate.Faults.{Refuses, apply_pte_flags-user, translate-Refuses}
use tab_linux.Supervisor.Tlb.{
  insert, lookup, new_entry, new_tlb, probe_sizes, probe_ways, set_of, vpn_at,
}
use tab_linux.Supervisor.Translate.Cache.{translate-flush_tlb}

abbrev tables : ℕ → ℕ
tables a = if a == 0x1008 then 0x1000_00CF else 0

abbrev sv39 : Satp
sv39 = record { mode = 8; asid = 0; ppn = 1 }

abbrev address : ℕ
address = 0x4000_0123

abbrev giga : Leaf
giga = record { paddr = 0x4000_0123; ppn = 0x4_0000; size = 2; flags = 0x67; pte_addr = 0x1008 }

tables-maps : MapsTo word_bus tables address 2 0x1000 giga
unfolding vpn_level
tables-maps = MapsTo.here (refl, inl refl) refl

abbrev filled : Mmu
filled = record new_mmu { tlb = insert new_tlb address 0x4_0000 2 0x67 }

filled-hit : lookup filled.tlb address ≡ some (new_entry address 0x4_0000 2 0x67)
unfolding lookup probe_sizes probe_ways insert new_mmu new_tlb vpn_at set_of
filled-hit = refl

walk_from_complete_example :
    (walk_from word_bus false tables 2 0x1000 address AccessType.load new_mmu).0 ≡ Result.ok giga
walk_from_complete_example =
    walk_from_complete word_bus tables address AccessType.load false new_mmu 2 0x1000 giga
      (omega arith) tables-maps

walk_from_sound_example : MapsTo word_bus tables address 2 0x1000 giga
walk_from_sound_example =
    walk_from_sound word_bus tables address AccessType.load false new_mmu 2 0x1000 giga
      (omega arith) walk_from_complete_example

translate-flush_tlb_example :
    ((translate word_bus sv39 Privilege.supervisor false false AccessType.load address filled
        tables).0
      ≡ (translate word_bus sv39 Privilege.supervisor false false AccessType.load address
          (flush_tlb filled)
          tables).0)
    × ((translate word_bus sv39 Privilege.supervisor false false AccessType.load address filled
          tables).2
        ≡ (translate word_bus sv39 Privilege.supervisor false false AccessType.load address
            (flush_tlb filled)
            tables).2)
translate-flush_tlb_example =
    translate-flush_tlb word_bus sv39 Privilege.supervisor false false AccessType.load address
      tables giga (new_entry address 0x4_0000 2 0x67) filled tables-maps filled-hit refl refl refl

translate-Refuses_example :
    Refuses AccessType.store new_mmu.tlb tables (
      translate word_bus sv39 Privilege.user false false AccessType.store 0x8000_0000 new_mmu
        tables)
translate-Refuses_example =
    translate-Refuses word_bus sv39 Privilege.user false false AccessType.store 0x8000_0000 new_mmu
      tables

apply_pte_flags-user_example :
    apply_pte_flags 0x67 AccessType.store Privilege.user false false
    ≡ apply_pte_flags 0x6F AccessType.store Privilege.user false false
apply_pte_flags-user_example =
    apply_pte_flags-user 0x67 0x6F AccessType.store false false false refl

same_page : vpn_at 0x4123_4567 2 ≡ vpn_at address 2
unfolding vpn_at
same_page = refl

still_empty : lookup new_tlb 0x4123_4567 ≡ none
unfolding lookup probe_sizes probe_ways new_tlb
still_empty = refl

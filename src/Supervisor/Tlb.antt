-- ===== src/Supervisor/Tlb.antt =====
-- crates/riscv-supervisor/src/mmu.rs: `TlbEntry` and `Tlb`, the cache of translations of four ways
-- and 64 sets. The arrays are functions from the index.
pub mod Hits
use tab_linux.Base.{
  ℕ, ◌+◌, ◌*◌, Bool, true, false, ◌&&◌, Option, none, some, List, [], ◌∷◌, ◌==◌, if◌then◌else◌,
  select, u8, shr, low_bits,
}
use tab_linux.Isa.Assemble.{j}

pub record TlbEntry : Type 0 where
  pub valid : Bool
  pub va_key : ℕ
  pub ppn : ℕ
  pub flags : ℕ
  pub size : ℕ

pub record Tlb : Type 0 where
  pub sets : ℕ → TlbEntry
  pub lru : ℕ → ℕ

abbrev pub default_entry : TlbEntry
default_entry = record { valid = false; va_key = 0; ppn = 0; flags = 0; size = 0 }

-- `Tlb::new` and `Tlb::flush`.
unfoldable pub new_tlb : Tlb
new_tlb = record { sets = λ i. default_entry; lru = λ i. 0 }

unfoldable pub flush : Tlb → Tlb
flush tlb = record { sets = λ i. record (tlb.sets i) { valid = false }; lru = λ i. 0 }

unfoldable pub vpn_at : ℕ → ℕ → ℕ
vpn_at vaddr size = select size ((2, shr vaddr 30) ∷ (1, shr vaddr 21) ∷ []) (shr vaddr 12)

unfoldable pub set_of : ℕ → ℕ
set_of vpn = low_bits vpn 6

-- `e.valid && e.size == size && e.va_key == vpn`
abbrev pub is_hit : TlbEntry → ℕ → ℕ → Bool
is_hit e size vpn = e.valid && e.size == size && e.va_key == vpn

-- `for i in 0..4`, over the ways that are left.
unfoldable pub probe_ways : Tlb → (size vpn start : ℕ) → List ℕ → Option TlbEntry
probe_ways tlb size vpn start [] = none
probe_ways tlb size vpn start (i ∷ is) =
    if is_hit (tlb.sets (start + i)) size vpn
    then some (tlb.sets (start + i))
    else probe_ways tlb size vpn start is

-- `for size in 0u8..=2`, over the sizes that are left.
unfoldable pub probe_sizes : Tlb → ℕ → List ℕ → Option TlbEntry
probe_sizes tlb vaddr [] = none
probe_sizes tlb vaddr (size ∷ sizes) =
    let vpn = vpn_at vaddr size in
    elim (probe_ways tlb size vpn (set_of vpn * 4) (0 ∷ 1 ∷ 2 ∷ 3 ∷ [])) [
      | some e ↦ some e
      | none ↦ probe_sizes tlb vaddr sizes
    ]

unfoldable pub lookup : Tlb → ℕ → Option TlbEntry
lookup tlb vaddr = probe_sizes tlb vaddr (0 ∷ 1 ∷ 2 ∷ [])

-- `a[i] = v`
abbrev pub set_at {ℓ} : {A : Type ℓ} → (ℕ → A) → ℕ → A → ℕ → A
set_at a i v j = if i == j then v else a j

abbrev pub new_entry : (vaddr ppn size flags : ℕ) → TlbEntry
new_entry vaddr ppn size flags = record {
  valid = true;
  va_key = vpn_at vaddr size;
  ppn = ppn;
  flags = flags;
  size = size;
}

unfoldable pub insert : Tlb → (vaddr ppn size flags : ℕ) → Tlb
insert tlb vaddr ppn size flags =
    let set = set_of (vpn_at vaddr size) in
    let way = low_bits (tlb.lru set) 2 in
    record {
      sets = set_at tlb.sets (set * 4 + way) (new_entry vaddr ppn size flags);
      lru = set_at tlb.lru set (low_bits (u8 (tlb.lru set + 1)) 2);
    }

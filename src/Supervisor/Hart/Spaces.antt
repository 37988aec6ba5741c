-- ===== src/Supervisor/Hart/Spaces.antt =====
-- crates/riscv-supervisor/src/supervisor.rs: the generations of the address spaces. Compiled code is
-- valid for the generation that it was made in.
pub mod Generations
use tab_linux.Base.{ℕ, ◌+◌, ◌-◌, ◌^◌, bit_xor, none, ◌==◌, if◌then◌else◌, u32, shr, low_bits}
use tab_linux.Supervisor.Hart.{empty_slot, Hart, AsidSlot}
use tab_linux.Supervisor.Tlb.{set_at}

-- `(ppn ^ (ppn >> 10) ^ (ppn >> 21)) & (ASID_SLOTS - 1)`
unfoldable pub asid_index : ℕ → ℕ
asid_index satp =
    let ppn : ℕ = low_bits satp 44 in low_bits (bit_xor (bit_xor ppn (shr ppn 10)) (shr ppn 21)) 7

-- The space that is left is remembered in its slot.
unfoldable pub stash : ℕ → Hart → Hart
stash old h = record h {
  asid_tbl =
      set_at h.asid_tbl (asid_index old)
        (record { satp = old; trans_gen = h.trans_gen; data_trans_gen = h.data_trans_gen });
}

-- The next generation, for both kinds of caches.
unfoldable pub fresh_gens : Hart → Hart
fresh_gens h = record h {
  asid_gen_next = u32 (h.asid_gen_next + 1);
  trans_gen = u32 (h.asid_gen_next + 1);
  data_trans_gen = u32 (h.asid_gen_next + 1);
}

-- The slot of the space that is entered, if it is its own, and new generations if not.
unfoldable pub select_space : ℕ → Hart → Hart
select_space new h =
    let slot : AsidSlot = h.asid_tbl (asid_index new) in
    if slot.satp == new
    then record h { trans_gen = slot.trans_gen; data_trans_gen = slot.data_trans_gen }
    else fresh_gens h

unfoldable pub switch_address_space : (old new : ℕ) → Hart → Hart
switch_address_space old new h = select_space new (stash old h)

unfoldable pub invalidate_all_spaces : Hart → Hart
invalidate_all_spaces h = fresh_gens (record h { asid_tbl = λ i. empty_slot })

unfoldable pub advance_chain_gen : Hart → Hart
advance_chain_gen h = record h {
  asid_gen_next = u32 (h.asid_gen_next + 1);
  trans_gen = u32 (h.asid_gen_next + 1);
}

unfoldable pub dcache_flush : Hart → Hart
dcache_flush h =
    let h' : Hart = invalidate_all_spaces h in
    record h' { icache_gen = u32 (h'.icache_gen + 1); dcache = λ i. none; fetch_vpn = 2 ^ 64 - 1 }

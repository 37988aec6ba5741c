-- ===== src/Supervisor/Hart/Memory.antt =====
-- crates/riscv-supervisor/src/supervisor.rs: `translate`, with the privilege that a data access has,
-- and `fetch_translate` with its cache of one page.
use tab_linux.Base.{
  ℕ, ◌+◌, bit_or, Bool, true, false, not, ◌&&◌, ◌||◌, ◌==◌, if◌then◌else◌, u64, shr, low_bits, shl,
}
use tab_linux.Supervisor.Translate.{translate}
use tab_linux.Supervisor.Hart.Privileged.{priv_level_from_mpp}
use tab_linux.Cpu.{Bus}
use tab_linux.Cpu.Values.{wrapping_add}
use tab_linux.Supervisor.Hart.{Hart}
use tab_linux.Supervisor.{AccessType, Privilege, Result}
use tab_linux.Supervisor.Hart.Csr.{priv_code}
use tab_linux.Supervisor.Hart.Interrupts.{is_machine}

abbrev pub is_instruction : AccessType → Bool
is_instruction AccessType.instruction = true
is_instruction a = false

abbrev pub same_privilege : Privilege → Privilege → Bool
same_privilege p q = priv_code p == priv_code q

-- The address or the trap, the hart and the memory.
abbrev pub Accessed : Type 0 → Type 0
Accessed M = Result ℕ × Hart × M

module _ {M : Type 0} (bus : Bus M) where
  -- `self.mmu.translate(bus, &self.satp, priv, self.mstatus.sum, self.mstatus.mxr, access, vaddr)`
  unfoldable pub translate_as : Privilege → AccessType → ℕ → Hart → M → Accessed M
  translate_as priv_level access vaddr h m =
      let (answer, mmu, written) =
        translate bus h.satp priv_level h.mstatus.sum h.mstatus.mxr access vaddr h.mmu m in
      (answer, record h { mmu = mmu }, written)

  unfoldable pub translate_access : AccessType → ℕ → Hart → M → Accessed M
  translate_access access vaddr h m =
      let eff_priv : Privilege = priv_level_from_mpp h.mstatus.mpp in
      if is_machine h.priv_level
      then (if is_instruction access || not h.mstatus.mprv || is_machine eff_priv
          then (Result.ok vaddr, h, m)
          else translate_as eff_priv access vaddr h m)
      else translate_as h.priv_level access vaddr h m

  -- A fetch that succeeds is remembered.
  abbrev pub remember_fetch : ℕ → Accessed M → Accessed M
  remember_fetch vaddr (Result.err t, h, m) = (Result.err t, h, m)
  remember_fetch vaddr (Result.ok paddr, h, m) = (
    Result.ok paddr,
    record h { fetch_vpn = shr vaddr 12; fetch_priv = h.priv_level; fetch_ppn = shr paddr 12 },
    m,
  )

  unfoldable pub fetch_translate : ℕ → Hart → M → Accessed M
  fetch_translate vaddr h m =
      if shr vaddr 12 == h.fetch_vpn && same_privilege h.priv_level h.fetch_priv
      then (Result.ok (bit_or (shl 64 h.fetch_ppn 12) (low_bits vaddr 12)), h, m)
      else remember_fetch vaddr (translate_access AccessType.instruction vaddr h m)

  abbrev pub read_half : Accessed M → Accessed M
  read_half (Result.err t, h, m) = (Result.err t, h, m)
  read_half (Result.ok paddr, h, m) = (Result.ok (bus.read_u16 m paddr), h, m)

  -- The upper half of an instruction, which can stand on another page.
  unfoldable pub fetch_upper_half : ℕ → Hart → M → Accessed M
  fetch_upper_half lo_paddr h m =
      if not (low_bits h.cpu.pc 12 == 0xFFE)
      then (Result.ok (bus.read_u16 m (u64 (lo_paddr + 2))), h, m)
      else read_half (translate_access AccessType.instruction (wrapping_add h.cpu.pc 2) h m)

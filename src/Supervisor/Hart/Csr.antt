-- ===== src/Supervisor/Hart/Csr.antt =====
-- crates/riscv-supervisor/src/supervisor.rs: the control and status registers.
use tab_linux.Base.{
  ℕ, ◌+◌, ◌-◌, ◌*◌, ◌%◌, ◌^◌, bit_and, bit_or, Bool, true, ◌&&◌, List, [], ◌∷◌, ltb, leb, ◌==◌,
  if◌then◌else◌, select, u64, low_bits, field,
}
use tab_linux.Cpu.{Bus}
use tab_linux.Supervisor.{from_bits, satp_from_bits, satp_to_bits, to_bits, Privilege, MStatus}
use tab_linux.Supervisor.Hart.{Hart, Diagnostics}
use tab_linux.Supervisor.Hart.Spaces.{switch_address_space}
use tab_linux.Supervisor.Mmu.{flush_tlb}
use tab_linux.Supervisor.Tlb.{set_at}

-- `x & !mask`
abbrev pub without : ℕ → ℕ → ℕ
without x mask = bit_and x (2 ^ 64 - 1 - mask)

abbrev pub between : (first last x : ℕ) → Bool
between first last x = leb first x && leb x last

-- `self.priv_level as u8`
abbrev pub priv_code : Privilege → ℕ
priv_code Privilege.user = 0
priv_code Privilege.supervisor = 1
priv_code Privilege.machine = 3

abbrev pub is_phys_kernel : ℕ → Bool
is_phys_kernel pc = leb 0x8000_0000 pc && ltb pc 0x8200_0000

unfoldable pub record_phys_transition : (src_pc phys_pc : ℕ) → Hart → Hart
record_phys_transition src_pc phys_pc h =
    let d : Diagnostics = h.diagnostics in
    record h {
      diagnostics = record d {
        phys_transitions = set_at d.phys_transitions (d.phys_trans_idx % 64) (src_pc, 0, phys_pc);
        phys_trans_idx = u64 (d.phys_trans_idx + 1);
      };
    }

-- `if self.satp.mode == 8 && Self::is_phys_kernel(val) { self.record_phys_transition(..) }`
abbrev pub note_phys : ℕ → Hart → Hart
note_phys val h =
    if h.satp.mode == 8 && is_phys_kernel val then record_phys_transition h.cpu.pc val h else h

-- The value that a read answers.
module _ {M : Type 0} (bus : Bus M) where
  unfoldable pub csr_value : Hart → M → ℕ → ℕ
  csr_value h m csr =
      if between 0x3A0 0x3AF csr
      then h.pmpcfg (csr - 0x3A0)
      else if between 0x3B0 0x3EF csr
      then h.pmpaddr (csr - 0x3B0)
      else select csr
          ((0x001, low_bits h.cpu.fcsr 5)
            ∷ (0x002, field h.cpu.fcsr 5 3)
            ∷ (0x003, low_bits h.cpu.fcsr 8)
            ∷ (0x300, to_bits h.mstatus)
            ∷ (0x301, 0x8000_0000_0094_112D)
            ∷ (0x302, h.medeleg)
            ∷ (0x303, h.mideleg)
            ∷ (0x304, h.mie)
            ∷ (0x305, h.mtvec)
            ∷ (0x306, 0)
            ∷ (0x340, h.mscratch)
            ∷ (0x341, h.mepc)
            ∷ (0x342, h.mcause)
            ∷ (0x343, h.mtval)
            ∷ (0x344, h.mip)
            ∷ (0xB00, h.mcycle)
            ∷ (0xB02, h.minstret)
            ∷ (0xF11, 0)
            ∷ (0xF12, 0)
            ∷ (0xF13, 0)
            ∷ (0xF14, h.mhartid)
            ∷ (0x100, to_bits h.mstatus)
            ∷ (0x104, bit_and h.mie 0x222)
            ∷ (0x105, h.stvec)
            ∷ (0x106, 0)
            ∷ (0x140, h.sscratch)
            ∷ (0x141, h.sepc)
            ∷ (0x142, h.scause)
            ∷ (0x143, h.stval)
            ∷ (0x144, bit_and h.mip 0x222)
            ∷ (0x14D, h.stimecmp)
            ∷ (0x180, satp_to_bits h.satp)
            ∷ (0xC01, bus.read_mtime m)
            ∷ (0xC00, h.mcycle)
            ∷ (0xC02, h.minstret)
            ∷ (0xC80, 0)
            ∷ (0xC81, 0)
            ∷ (0xC82, 0)
            ∷ [])
          0

  -- The read of `time` is counted.
  unfoldable pub csr_read : Hart → M → ℕ → ℕ × Hart
  csr_read h m csr = (
    csr_value h m csr,
    if csr == 0xC01
        then record h {
          diagnostics = record h.diagnostics {
            dbg_last_time = bus.read_mtime m;
            dbg_time_reads = u64 (h.diagnostics.dbg_time_reads + 1);
          };
        }
        else h,
  )

-- SD, UXL, MXR, SUM, XS, FS, VS, SPP, SPIE and SIE.
abbrev pub sstatus_mask : ℕ
sstatus_mask =
    2 ^ 63
    + 3 * 2 ^ 32
    + 2 ^ 19
    + 2 ^ 18
    + 3 * 2 ^ 15
    + 3 * 2 ^ 13
    + 3 * 2 ^ 9
    + 2 ^ 8
    + 2 ^ 5
    + 2 ^ 1

unfoldable pub write_sstatus : ℕ → MStatus → MStatus
write_sstatus val s =
    from_bits (bit_or (without (to_bits s) sstatus_mask) (bit_and val sstatus_mask))

-- UXL and SXL are fixed.
unfoldable pub write_mstatus : ℕ → MStatus
write_mstatus val = record (from_bits val) { uxl = 2; sxl = 2 }

unfoldable pub write_fcsr : ℕ → Hart → Hart
write_fcsr fcsr h = record h {
  cpu = record h.cpu { fcsr = fcsr };
  mstatus = record h.mstatus { fs = 3 };
}

unfoldable pub bump_gen : ℕ → Hart → Hart
bump_gen i h =
    let bumps : ℕ → ℕ = h.diagnostics.gen_bump in
    record h {
      diagnostics = record h.diagnostics { gen_bump = set_at bumps i (u64 (bumps i + 1)) };
    }

-- A write of another value than satp has drops what was cached of translations.
unfoldable pub write_satp : ℕ → Hart → Hart
write_satp val h =
    let old : ℕ = satp_to_bits h.satp in
    let h' : Hart = bump_gen 0 (record h { satp = satp_from_bits val }) in
    if old == val
    then record h { satp = satp_from_bits val }
    else switch_address_space old val (record h' { mmu = flush_tlb h'.mmu; fetch_vpn = 2 ^ 64 - 1 })

-- What a write leaves, by the number of the register.
abbrev pub csr_writes : ℕ → Hart → List (ℕ × Hart)
csr_writes val h =
    (0x001, write_fcsr (bit_or (without h.cpu.fcsr 0x1f) (low_bits val 5)) h)
    ∷ (0x002, write_fcsr (bit_or (without h.cpu.fcsr 0xe0) (low_bits val 3 * 2 ^ 5)) h)
    ∷ (0x003, write_fcsr (low_bits val 8) h)
    ∷ (0x300, record h { mstatus = write_mstatus val })
    ∷ (0x302, record h { medeleg = val })
    ∷ (0x303, record h { mideleg = val })
    ∷ (0x304, record h { mie = val })
    ∷ (0x305, record h { mtvec = val })
    ∷ (0x340, record h { mscratch = val })
    ∷ (0x341, note_phys val (record h { mepc = val }))
    ∷ (0x342, record h { mcause = val })
    ∷ (0x343, record h { mtval = val })
    ∷ (0x344, record h { mip = val })
    ∷ (0xB00, record h { mcycle = val; wrote_mcycle = true })
    ∷ (0xB02, record h { minstret = val; wrote_minstret = true })
    ∷ (0x100, record h { mstatus = write_sstatus val h.mstatus })
    ∷ (0x104, record h { mie = bit_or (without h.mie 0x222) (bit_and val 0x222) })
    ∷ (0x105, record h { stvec = val })
    ∷ (0x140, record h { sscratch = val })
    ∷ (0x141, note_phys val (record h { sepc = val }))
    ∷ (0x142, record h { scause = val })
    ∷ (0x143, record h { stval = val })
    ∷ (0x144, record h { mip = bit_or (without h.mip 0x222) (bit_and val 0x222) })
    ∷ (0x14D, record h { stimecmp = val })
    ∷ (0x180, write_satp val h)
    ∷ []

unfoldable pub csr_write : ℕ → ℕ → Hart → Hart
csr_write csr val h =
    if between 0x3A0 0x3AF csr
    then record h { pmpcfg = set_at h.pmpcfg (csr - 0x3A0) val }
    else if between 0x3B0 0x3EF csr
    then record h { pmpaddr = set_at h.pmpaddr (csr - 0x3B0) (low_bits val 54) }
    else select csr (csr_writes val h) h

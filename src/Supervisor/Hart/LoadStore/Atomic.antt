-- ===== src/Supervisor/Hart/LoadStore/Atomic.antt =====
-- crates/riscv-supervisor/src/supervisor.rs: the arms of `execute_supervisor` on the reservation, and
-- `fp_jit`, the floating-point instructions of compiled code.
use tab_linux.Base.{
  ℕ, ◌*◌, ◌/◌, bit_or, Bool, true, false, ◌||◌, Option, none, some, [], ◌∷◌, ◌==◌, if◌then◌else◌,
  select, u32, sext,
}
use tab_linux.Supervisor.Hart.Memory.{Accessed, translate_access}
use tab_linux.Supervisor.Hart.LoadStore.{HartOutcome, at_address, next_with}
use tab_linux.Supervisor.{AccessType, Result}
use tab_linux.Cpu.{Bus, Cpu, FpResult, read_freg, read_reg, write_freg}
use tab_linux.Cpu.Arms.{address}
use tab_linux.Supervisor.Hart.{Hart}

-- `vaddr & !0x3` and `vaddr & !0x7`.
abbrev pub aligned : (size vaddr : ℕ) → ℕ
aligned size vaddr = vaddr / size * size

abbrev pub holds : Option ℕ → ℕ → Bool
holds none a = false
holds (some r) a = r == a

module _ {M : Type 0} (bus : Bus M) where
  unfoldable pub load_reserved : (width size rd rs1 : ℕ) → (M → ℕ → ℕ) → Hart → M → HartOutcome M
  load_reserved width size rd rs1 value h m =
      let vaddr : ℕ = read_reg h.cpu rs1 in
      at_address bus AccessType.load vaddr h m (λ paddr h' m'.
        next_with width rd (value m' paddr)
          (record h' { reservation_addr = some (aligned size vaddr) }) m')

  unfoldable pub store_conditional :
      (width size rd rs1 : ℕ) → (M → ℕ → M) → Hart → M → HartOutcome M
  store_conditional width size rd rs1 write h m =
      let vaddr : ℕ = read_reg h.cpu rs1 in
      at_address bus AccessType.store vaddr h m (λ paddr h' m'.
        if holds h'.reservation_addr (aligned size vaddr)
        then next_with width rd 0 (record h' { reservation_addr = none }) (write m' paddr)
        else next_with width rd 1 (record h' { reservation_addr = none }) m')

  unfoldable pub lrw : (width rd rs1 : ℕ) → Hart → M → HartOutcome M
  lrw width rd rs1 h m = load_reserved width 4 rd rs1 (λ m' a. sext 32 (bus.read_u32 m' a)) h m

  unfoldable pub scw : (width rd rs1 rs2 : ℕ) → Hart → M → HartOutcome M
  scw width rd rs1 rs2 h m =
      store_conditional width 4 rd rs1 (λ m' a. bus.write_u32 m' a (u32 (read_reg h.cpu rs2))) h m

  unfoldable pub lrd : (width rd rs1 : ℕ) → Hart → M → HartOutcome M
  lrd width rd rs1 h m = load_reserved width 8 rd rs1 (λ m' a. bus.read_u64 m' a) h m

  unfoldable pub scd : (width rd rs1 rs2 : ℕ) → Hart → M → HartOutcome M
  scd width rd rs1 rs2 h m =
      store_conditional width 8 rd rs1 (λ m' a. bus.write_u64 m' a (read_reg h.cpu rs2)) h m

-- `if self.cpu.fs_dirty { self.cpu.fs_dirty = false; self.mstatus.fs = 3; }`
unfoldable pub mark_fs : Hart → Hart
mark_fs h =
    if h.cpu.fs_dirty
    then record h { cpu = record h.cpu { fs_dirty = false }; mstatus = record h.mstatus { fs = 3 } }
    else h

module _ {M : Type 0} (bus : Bus M) (fpu : Cpu → ℕ → FpResult × Cpu) where
  -- An access of compiled code: on a fault it is left to the interpreter.
  abbrev jit_access : AccessType → ℕ → (ℕ → Hart → M → Hart × M) → Hart → M → Bool × Hart × M
  jit_access access vaddr use_address h m =
      let accessed : Accessed M = translate_access bus access vaddr h m in
      elim accessed.0 [
        | Result.err t ↦ (true, accessed.1, accessed.2)
        | Result.ok paddr ↦
            let used : Hart × M = use_address paddr accessed.1 accessed.2 in
            (false, mark_fs used.0, used.1)
      ]

  abbrev put_f : ℕ → ℕ → Hart → Hart
  put_f r v h = record h { cpu = record (write_freg h.cpu r v) { fs_dirty = true } }

  -- The arithmetic, which keeps what the unit wrote to the registers when it fails.
  abbrev jit_arithmetic : FpResult × Cpu → Hart → M → Bool × Hart × M
  jit_arithmetic (r, c) h m =
      let c' : Cpu = record c { fcsr = bit_or c.fcsr r.flags; fs_dirty = c.fs_dirty || r.dirty } in
      if r.ok then (false, mark_fs (record h { cpu = c' }), m) else (true, record h { cpu = c }, m)

  unfoldable pub fp_jit : (kind r1 r2 arg : ℕ) → Hart → M → Bool × Hart × M
  fp_jit kind r1 r2 arg h m =
      let vaddr : ℕ = address h.cpu r2 arg in
      if h.mstatus.fs == 0
      then (true, h, m)
      else select kind
          ((
            0,
            jit_access AccessType.load vaddr
                (λ paddr h' m'. (put_f r1 (bus.read_u64 m' paddr) h', m')) h m,
          )
            ∷ (
              1,
              jit_access AccessType.load vaddr
                  (λ paddr h' m'.
                    (put_f r1 (bit_or 0xFFFF_FFFF_0000_0000 (bus.read_u32 m' paddr)) h', m'))
                  h m,
            )
            ∷ (
              2,
              jit_access AccessType.store vaddr
                  (λ paddr h' m'. (h', bus.write_u64 m' paddr (read_freg h'.cpu r1))) h m,
            )
            ∷ (
              3,
              jit_access AccessType.store vaddr
                  (λ paddr h' m'. (h', bus.write_u32 m' paddr (u32 (read_freg h'.cpu r1)))) h m,
            )
            ∷ [])
          (jit_arithmetic (fpu h.cpu (u32 arg)) h m)

-- ===== src/Supervisor/Hart/LoadStore.antt =====
-- crates/riscv-supervisor/src/supervisor.rs: `execute_translated`, the loads, stores and atomic
-- operations at translated addresses, and the instructions on the reservation.
pub mod Atomic
pub mod Bare
pub mod Total
pub mod Keeps
pub mod Reservation
use tab_linux.Base.{
  ℕ, ◌+◌, bit_and, bit_or, bit_xor, true, Option, none, some, ◌>>=◌, u8, u16, u32, sext,
}
use tab_linux.Supervisor.{AccessType, Result}
use tab_linux.Supervisor.Hart.{Hart}
use tab_linux.Cpu.{Bus, read_freg, read_reg, write_freg, write_reg}
use tab_linux.Supervisor.Hart.Traps.{take_trap_with_vaddr}
use tab_linux.Cpu.Arms.{address, advance}
use tab_linux.Isa.{Exception, Instr, Status, Trap}
use tab_linux.Supervisor.Hart.Memory.{Accessed, translate_access}
use tab_linux.Cpu.Values.{amo_max, amo_maxu, amo_min, amo_minu, wrapping_add}

-- What an instruction leaves; `none` is a panic.
abbrev pub HartOutcome : Type 0 → Type 0
HartOutcome M = Option (Status × Hart × M)

abbrev pub deliver_with : {M : Type 0} → Trap → Option ℕ → Hart → M → HartOutcome M
deliver_with t fault_vaddr h m =
    let (status, trapped) = take_trap_with_vaddr t fault_vaddr h in some (status, trapped, m)

abbrev pub deliver : {M : Type 0} → Trap → Hart → M → HartOutcome M
deliver t h m = deliver_with t none h m

-- `self.cpu.pc = self.cpu.pc.wrapping_add(width as u64)`, and on.
abbrev pub next : {M : Type 0} → ℕ → Hart → M → HartOutcome M
next width h m = some (Status.running, record h { cpu = advance width h.cpu }, m)

-- `self.cpu.write_reg(rd, v)`, and on.
abbrev pub next_with : {M : Type 0} → ℕ → (rd v : ℕ) → Hart → M → HartOutcome M
next_with width rd v h m = do c ← write_reg h.cpu rd v; next width (record h { cpu = c }) m

abbrev pub next_with_f : {M : Type 0} → ℕ → (rd v : ℕ) → Hart → M → HartOutcome M
next_with_f width rd v h m =
    next width (record h { cpu = record (write_freg h.cpu rd v) { fs_dirty = true } }) m

module _ {M : Type 0} (bus : Bus M) where
  -- `{ Ok(paddr) => .., Err(t) => return self.take_trap_with_vaddr(t, Some(vaddr)) }`
  abbrev pub after_translation : ℕ → (ℕ → Hart → M → HartOutcome M) → Accessed M → HartOutcome M
  after_translation vaddr use_address (Result.ok paddr, h, m) = use_address paddr h m
  after_translation vaddr use_address (Result.err t, h, m) = deliver_with t (some vaddr) h m

  -- `match self.translate(bus, access, vaddr) ..`
  unfoldable pub at_address :
      AccessType → ℕ → Hart → M → (ℕ → Hart → M → HartOutcome M) → HartOutcome M
  at_address access vaddr h m use_address =
      after_translation vaddr use_address (translate_access bus access vaddr h m)

  abbrev pub load : ℕ → (rd rs1 imm : ℕ) → (M → ℕ → ℕ) → Hart → M → HartOutcome M
  load width rd rs1 imm value h m =
      at_address AccessType.load (address h.cpu rs1 imm) h m
        (λ paddr h' m'. next_with width rd (value m' paddr) h' m')

  abbrev pub load_f : ℕ → (rd rs1 imm : ℕ) → (M → ℕ → ℕ) → Hart → M → HartOutcome M
  load_f width rd rs1 imm value h m =
      at_address AccessType.load (address h.cpu rs1 imm) h m
        (λ paddr h' m'. next_with_f width rd (value m' paddr) h' m')

  abbrev pub store : ℕ → (rs1 imm : ℕ) → (M → ℕ → M) → Hart → M → HartOutcome M
  store width rs1 imm write h m =
      at_address AccessType.store (address h.cpu rs1 imm) h m
        (λ paddr h' m'. next width h' (write m' paddr))

  -- Read, store what the operation makes of the old value and the register, answer the old value.
  abbrev pub amo_word : ℕ → (rd rs1 rs2 : ℕ) → (ℕ → ℕ → ℕ) → Hart → M → HartOutcome M
  amo_word width rd rs1 rs2 new h m =
      at_address AccessType.store (read_reg h.cpu rs1) h m (λ paddr h' m'.
        let old : ℕ = bus.read_u32 m' paddr in
        next_with width rd (sext 32 old) h'
          (bus.write_u32 m' paddr (new old (u32 (read_reg h'.cpu rs2)))))

  abbrev pub amo_double : ℕ → (rd rs1 rs2 : ℕ) → (ℕ → ℕ → ℕ) → Hart → M → HartOutcome M
  amo_double width rd rs1 rs2 new h m =
      at_address AccessType.store (read_reg h.cpu rs1) h m (λ paddr h' m'.
        let old : ℕ = bus.read_u64 m' paddr in
        next_with width rd old h' (bus.write_u64 m' paddr (new old (read_reg h'.cpu rs2))))

  unfoldable pub execute_translated : Instr → ℕ → Hart → M → HartOutcome M
  execute_translated (Instr.lb rd rs1 imm) width h m =
      load width rd rs1 imm (λ m' a. sext 8 (bus.read_u8 m' a)) h m
  execute_translated (Instr.lh rd rs1 imm) width h m =
      load width rd rs1 imm (λ m' a. sext 16 (bus.read_u16 m' a)) h m
  execute_translated (Instr.lw rd rs1 imm) width h m =
      load width rd rs1 imm (λ m' a. sext 32 (bus.read_u32 m' a)) h m
  execute_translated (Instr.ld rd rs1 imm) width h m =
      load width rd rs1 imm (λ m' a. bus.read_u64 m' a) h m
  execute_translated (Instr.lbu rd rs1 imm) width h m =
      load width rd rs1 imm (λ m' a. bus.read_u8 m' a) h m
  execute_translated (Instr.lhu rd rs1 imm) width h m =
      load width rd rs1 imm (λ m' a. bus.read_u16 m' a) h m
  execute_translated (Instr.lwu rd rs1 imm) width h m =
      load width rd rs1 imm (λ m' a. bus.read_u32 m' a) h m
  execute_translated (Instr.sb rs1 rs2 imm) width h m =
      store width rs1 imm (λ m' a. bus.write_u8 m' a (u8 (read_reg h.cpu rs2))) h m
  execute_translated (Instr.sh rs1 rs2 imm) width h m =
      store width rs1 imm (λ m' a. bus.write_u16 m' a (u16 (read_reg h.cpu rs2))) h m
  execute_translated (Instr.sw rs1 rs2 imm) width h m =
      store width rs1 imm (λ m' a. bus.write_u32 m' a (u32 (read_reg h.cpu rs2))) h m
  execute_translated (Instr.sd rs1 rs2 imm) width h m =
      store width rs1 imm (λ m' a. bus.write_u64 m' a (read_reg h.cpu rs2)) h m
  execute_translated (Instr.fld rd rs1 imm) width h m =
      load_f width rd rs1 imm (λ m' a. bus.read_u64 m' a) h m
  execute_translated (Instr.flw rd rs1 imm) width h m =
      load_f width rd rs1 imm (λ m' a. bit_or 0xFFFF_FFFF_0000_0000 (bus.read_u32 m' a)) h m
  execute_translated (Instr.fsw rs1 rs2 imm) width h m =
      store width rs1 imm (λ m' a. bus.write_u32 m' a (u32 (read_freg h.cpu rs2))) h m
  execute_translated (Instr.fsd rs1 rs2 imm) width h m =
      store width rs1 imm (λ m' a. bus.write_u64 m' a (read_freg h.cpu rs2)) h m
  execute_translated (Instr.amoswapw rd rs1 rs2 aq rl) width h m =
      amo_word width rd rs1 rs2 (λ old reg. reg) h m
  execute_translated (Instr.amoaddw rd rs1 rs2 aq rl) width h m =
      amo_word width rd rs1 rs2 (λ old reg. u32 (old + reg)) h m
  execute_translated (Instr.amoxorw rd rs1 rs2 aq rl) width h m =
      amo_word width rd rs1 rs2 (λ old reg. bit_xor old reg) h m
  execute_translated (Instr.amoandw rd rs1 rs2 aq rl) width h m =
      amo_word width rd rs1 rs2 (λ old reg. bit_and old reg) h m
  execute_translated (Instr.amoorw rd rs1 rs2 aq rl) width h m =
      amo_word width rd rs1 rs2 (λ old reg. bit_or old reg) h m
  execute_translated (Instr.amominw rd rs1 rs2 aq rl) width h m =
      amo_word width rd rs1 rs2 (λ old reg. amo_min 32 old reg) h m
  execute_translated (Instr.amomaxw rd rs1 rs2 aq rl) width h m =
      amo_word width rd rs1 rs2 (λ old reg. amo_max 32 old reg) h m
  execute_translated (Instr.amominuw rd rs1 rs2 aq rl) width h m =
      amo_word width rd rs1 rs2 (λ old reg. amo_minu old reg) h m
  execute_translated (Instr.amomaxuw rd rs1 rs2 aq rl) width h m =
      amo_word width rd rs1 rs2 (λ old reg. amo_maxu old reg) h m
  execute_translated (Instr.amoswapd rd rs1 rs2 aq rl) width h m =
      amo_double width rd rs1 rs2 (λ old reg. reg) h m
  execute_translated (Instr.amoaddd rd rs1 rs2 aq rl) width h m =
      amo_double width rd rs1 rs2 (λ old reg. wrapping_add old reg) h m
  execute_translated (Instr.amoxord rd rs1 rs2 aq rl) width h m =
      amo_double width rd rs1 rs2 (λ old reg. bit_xor old reg) h m
  execute_translated (Instr.amoandd rd rs1 rs2 aq rl) width h m =
      amo_double width rd rs1 rs2 (λ old reg. bit_and old reg) h m
  execute_translated (Instr.amoord rd rs1 rs2 aq rl) width h m =
      amo_double width rd rs1 rs2 (λ old reg. bit_or old reg) h m
  execute_translated (Instr.amomind rd rs1 rs2 aq rl) width h m =
      amo_double width rd rs1 rs2 (λ old reg. amo_min 64 old reg) h m
  execute_translated (Instr.amomaxd rd rs1 rs2 aq rl) width h m =
      amo_double width rd rs1 rs2 (λ old reg. amo_max 64 old reg) h m
  execute_translated (Instr.amominud rd rs1 rs2 aq rl) width h m =
      amo_double width rd rs1 rs2 (λ old reg. amo_minu old reg) h m
  execute_translated (Instr.amomaxud rd rs1 rs2 aq rl) width h m =
      amo_double width rd rs1 rs2 (λ old reg. amo_maxu old reg) h m
  execute_translated instr width h m = deliver (Trap.exception Exception.illegal_instruction) h m

-- ===== src/Supervisor/Hart/Step.antt =====
-- crates/riscv-supervisor/src/supervisor.rs: `step` and `finish_step`, one step of the hart. The trace
-- that is off by default is left out.
pub mod Safety
pub mod Cache
pub mod Invariant
pub mod Run
use tab_linux.Base.{
  ℕ, ◌+◌, ◌-◌, bit_or, Bool, true, false, not, ◌&&◌, ◌||◌, Option, none, some, ◌==◌, if◌then◌else◌,
  u16, u64, low_bits, field, shl,
}
use tab_linux.Isa.Decode.{decode}
use tab_linux.Isa.Compressed.{decompress}
use tab_linux.Cpu.{Bus, Cpu, FpResult}
use tab_linux.Supervisor.Hart.Memory.{Accessed, fetch_translate, fetch_upper_half}
use tab_linux.Isa.{Exception, Instr, Status, Trap}
use tab_linux.Supervisor.Hart.Dispatch.{execute_supervisor}
use tab_linux.Supervisor.Hart.{Decoded, Hart}
use tab_linux.Supervisor.{Result}
use tab_linux.Supervisor.Hart.Csr.{is_phys_kernel}
use tab_linux.Supervisor.Hart.LoadStore.{HartOutcome, deliver, deliver_with}
use tab_linux.Cpu.Values.{wrapping_add}
use tab_linux.Supervisor.Hart.Spaces.{dcache_flush}
use tab_linux.Supervisor.Hart.Interrupts.{check_interrupts, sync_device_interrupts}
use tab_linux.Supervisor.Tlb.{set_at}

abbrev pub is_fence_i : Instr → Bool
is_fence_i Instr.fence_i = true
is_fence_i instr = false

-- A counter that the instruction itself wrote does not count it.
unfoldable pub count_instruction : Hart → Hart
count_instruction h = record h {
  mcycle = if h.wrote_mcycle then h.mcycle else u64 (h.mcycle + 1);
  minstret = if h.wrote_minstret then h.minstret else u64 (h.minstret + 1);
  wrote_mcycle = false;
  wrote_minstret = false;
}

-- A trap of the CPU itself is delivered here, one that has been delivered is not again.
unfoldable pub deliver_bare : {M : Type 0} → Status → Hart → M → HartOutcome M
deliver_bare (Status.trap t) h m =
    if h.trap_delivered then some (Status.trap t, h, m) else deliver t h m
deliver_bare status h m = some (status, h, m)

-- What follows the instruction.
unfoldable pub after_instruction :
    {M : Type 0} → (prev_pc width : ℕ) → HartOutcome M → HartOutcome M
after_instruction prev_pc width none = none
after_instruction prev_pc width (some (status, h, m)) =
    let block_start : Bool = h.trap_delivered || not (h.cpu.pc == wrapping_add prev_pc width) in
    deliver_bare status (count_instruction (record h { block_start = block_start })) m

unfoldable pub sync_batched : {M : Type 0} → Bus M → M → Hart → Hart
sync_batched bus m h =
    if h.int_sync_countdown == 0
    then sync_device_interrupts bus m (record h { int_sync_countdown = 64 })
    else record h { int_sync_countdown = h.int_sync_countdown - 1 }

-- A fetch that fails at an address of the kernel image with the MMU on is recorded.
unfoldable pub note_fetch_fault : Hart → Hart
note_fetch_fault h =
    if h.satp.mode == 8 && is_phys_kernel h.cpu.pc
    then record h {
      diagnostics = record h.diagnostics { phys_fault_pc = h.cpu.pc; phys_fault_captured = true };
    }
    else h

abbrev pub fetched : (raw half : ℕ) → Hart → Hart
fetched raw half h = record h {
  last_fetched_raw = raw;
  diagnostics = record h.diagnostics { last_fetch_half = half };
}

-- The slot of the decode cache for a physical address.
abbrev pub slot_of : ℕ → ℕ
slot_of paddr = field paddr 1 15

abbrev pub keep_decoded : (paddr : ℕ) → Instr → (width : ℕ) → Hart → Hart
keep_decoded paddr instr width h = record h {
  dcache =
      set_at h.dcache (slot_of paddr)
        (some (record { tag = paddr; instr = instr; width = width; raw = h.last_fetched_raw }));
}

abbrev pub fails_decode : (hi half : ℕ) → Hart → Hart
fails_decode hi half h =
    let raw : ℕ = bit_or (shl 32 hi 16) half in
    record h {
      last_fetched_raw = raw;
      diagnostics = record h.diagnostics {
        last_decode_fail_raw = raw;
        last_decode_fail_pc = h.cpu.pc;
      };
    }

-- `self.fetch_upper_half(bus, paddr).unwrap_or(0)`
abbrev pub half_or_zero : Result ℕ → ℕ
half_or_zero (Result.ok hi) = hi
half_or_zero (Result.err t) = 0

module _ {M : Type 0} (bus : Bus M) (fpu : Cpu → ℕ → FpResult × Cpu) where
  unfoldable pub finish_step : Instr → ℕ → Hart → M → HartOutcome M
  finish_step instr width h m =
      let flushed : Hart = if is_fence_i instr then dcache_flush h else h in
      after_instruction h.cpu.pc width (execute_supervisor bus fpu instr width flushed m)

  -- The half word is no instruction: the trap, with the word recorded.
  unfoldable pub step_undecoded : (paddr half : ℕ) → Hart → M → HartOutcome M
  step_undecoded paddr half h m =
      let upper : Accessed M = fetch_upper_half bus paddr h m in
      deliver (Trap.exception Exception.illegal_instruction)
        (fails_decode (half_or_zero upper.0) half upper.1) upper.2

  -- The match on `decompress(half)`.
  unfoldable pub after_decompress : (paddr half : ℕ) → Hart → M → Option Instr → HartOutcome M
  after_decompress paddr half h m (some instr) =
      finish_step instr 2 (keep_decoded paddr instr 2 (record h { last_fetched_raw = half })) m
  after_decompress paddr half h m none = step_undecoded paddr half h m

  -- The match on the fetch of the upper half.
  unfoldable pub after_upper_half : (paddr half : ℕ) → Accessed M → HartOutcome M
  after_upper_half paddr half (Result.err t, h, m) =
      deliver_with t (some (wrapping_add h.cpu.pc 2)) h m
  after_upper_half paddr half (Result.ok hi, h, m) =
      let raw : ℕ = bit_or (shl 32 hi 16) half in
      finish_step (decode raw) 4
        (keep_decoded paddr (decode raw) 4 (record h { last_fetched_raw = raw })) m

  -- The decode cache does not hold the address.
  unfoldable pub step_uncached : ℕ → Hart → M → HartOutcome M
  step_uncached paddr h m =
      let half : ℕ = bus.read_u16 m paddr in
      let read : Hart = record h {
        diagnostics = record h.diagnostics { last_fetch_half = half };
      } in
      if not (low_bits half 2 == 3)
      then after_decompress paddr half read m (decompress half)
      else after_upper_half paddr half (fetch_upper_half bus paddr read m)

  -- The match on the slot of the decode cache.
  unfoldable pub after_lookup : ℕ → Hart → M → Option Decoded → HartOutcome M
  after_lookup paddr h m none = step_uncached paddr h m
  after_lookup paddr h m (some e) =
      if e.tag == paddr
      then finish_step e.instr e.width (fetched e.raw (u16 e.raw) h) m
      else step_uncached paddr h m

  -- The match on the translation of the PC.
  unfoldable pub after_fetch : Accessed M → HartOutcome M
  after_fetch (Result.ok paddr, h, m) =
      after_lookup paddr
        (record h { diagnostics = record h.diagnostics { last_fetch_paddr = paddr } }) m
        (h.dcache (slot_of paddr))
  after_fetch (Result.err t, h, m) = deliver_with t (some h.cpu.pc) (note_fetch_fault h) m

  -- An interrupt is taken before the instruction.
  unfoldable pub after_check : Hart → M → Option Trap → HartOutcome M
  after_check h m (some t) = deliver t h m
  after_check h m none = after_fetch (fetch_translate bus h.cpu.pc h m)

  unfoldable pub step : Hart → M → HartOutcome M
  step h m =
      let synced : Hart = sync_batched bus m (record h { trap_delivered = false }) in
      after_check synced m (check_interrupts synced)

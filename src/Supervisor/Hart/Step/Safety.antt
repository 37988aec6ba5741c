-- ===== src/Supervisor/Hart/Step/Safety.antt =====
-- One step of the hart, and where it could panic.
use tab_linux.Supervisor.Hart.LoadStore.Total.{either-ne-none}
use tab_linux.Base.{
  ℕ, ◌+◌, ◌^◌, ◌<◌, ◌≡◌, refl, sym, subst, ◌≢◌, false, Option, none, some, arith, u64, bit_or-lt,
}
use tab_linux.Isa.Compressed.Ranges.{decompress-InRange}
use tab_linux.Supervisor.Hart.Step.{
  after_check, after_fetch, after_lookup, after_upper_half, slot_of, step_uncached,
  after_decompress, step, after_instruction, deliver_bare, finish_step, step_undecoded,
}
use tab_linux.Supervisor.Hart.LoadStore.{deliver_with, HartOutcome}
use tab_linux.Cpu.{Bus, Cpu, FpResult}
use tab_linux.Isa.Range.{InRange}
use tab_linux.Isa.Compressed.{decompress}
use tab_linux.Supervisor.Hart.Dispatch.Total.{execute_supervisor-ne-none}
use tab_linux.Supervisor.Hart.{Decoded, Hart}
use tab_linux.Isa.{Trap, Instr, Status}
use tab_linux.Supervisor.Hart.Memory.{Accessed, read_half, translate_access, fetch_upper_half}
use tab_linux.Supervisor.{AccessType, Result}
use tab_linux.Isa.Decode.Ranges.{decode-InRange}
use tab_linux.Supervisor.Hart.Step.Cache.{fetch_translate-dcache, sync_batched-dcache}
use tab_linux.Cpu.Values.{wrapping_add}

abbrev pub EntryInRange : Option Decoded → Type 0
EntryInRange none = Unit
EntryInRange (some e) = InRange e.instr

-- Every instruction of the decode cache has its fields in range.
abbrev pub CacheInRange : Hart → Type 0
CacheInRange h = (i : ℕ) → EntryInRange (h.dcache i)

module _ {M : Type 0} (bus : Bus M) (fpu : Cpu → ℕ → FpResult × Cpu) where
  deliver_bare-ne-none : (s : Status) (h : Hart) (m : M) → deliver_bare s h m ≢ none
  unfolding deliver_bare
  deliver_bare-ne-none Status.running h m = ground arith
  deliver_bare-ne-none Status.wfi h m = ground arith
  deliver_bare-ne-none (Status.trap t) h m = ground arith

  after_instruction-ne-none :
      (pc width : ℕ) (o : HartOutcome M) → o ≢ none → after_instruction pc width o ≢ none
  unfolding after_instruction
  after_instruction-ne-none pc width none p = absurd (p refl)
  after_instruction-ne-none pc width (some (s, h, m)) p = deliver_bare-ne-none s _ m

  finish_step-ne-none :
      (i : Instr) (width : ℕ) (h : Hart) (m : M)
      → InRange i
      → finish_step bus fpu i width h m ≢ none
  unfolding finish_step
  finish_step-ne-none i width h m r =
      after_instruction-ne-none h.cpu.pc width _ (execute_supervisor-ne-none bus fpu i width _ m r)

  delivered-ne-none :
      (t : Trap) (vaddr : Option ℕ) (h : Hart) (m : M) → deliver_with t vaddr h m ≢ none
  delivered-ne-none t vaddr h m = ground arith

  after_decompress-ne-none :
      (paddr half : ℕ) (h : Hart) (m : M)
      → after_decompress bus fpu paddr half h m (decompress half) ≢ none
  unfolding after_decompress step_undecoded
  after_decompress-ne-none paddr half h m =
      decoded (decompress half) (λ i e. decompress-InRange half e)
    where
      decoded :
          (o : Option Instr)
          → ((i : Instr) → o ≡ some i → InRange i)
          → after_decompress bus fpu paddr half h m o ≢ none
      decoded (some i) r = finish_step-ne-none i 2 _ m (r i refl)
      decoded none r = delivered-ne-none _ _ _ _

  -- The half that a fetch answers has 16 bits.
  unfoldable pub HalfFits : Result ℕ → Type 0
  HalfFits (Result.err t) = Unit
  HalfFits (Result.ok hi) = hi < 2 ^ 16

  read_half-HalfFits :
      ((m : M) (a : ℕ) → bus.read_u16 m a < 2 ^ 16)
      → (a : Accessed M) → HalfFits (read_half bus a).0
  unfolding HalfFits
  read_half-HalfFits narrow (Result.ok paddr, h, m) = narrow m paddr
  read_half-HalfFits narrow (Result.err t, h, m) = tt

  pub fetch_upper_half-HalfFits :
      ((m : M) (a : ℕ) → bus.read_u16 m a < 2 ^ 16)
      → (paddr : ℕ) (h : Hart) (m : M) → HalfFits (fetch_upper_half bus paddr h m).0
  unfolding fetch_upper_half HalfFits
  fetch_upper_half-HalfFits narrow paddr h m =
      let here = narrow m (u64 (paddr + 2)) in
      let there =
        read_half-HalfFits narrow
          (translate_access bus AccessType.instruction (wrapping_add h.cpu.pc 2) h m) in
      ground arith

  after_upper_half-ne-none :
      (paddr half : ℕ) (a : Accessed M)
      → half < 2 ^ 16
      → HalfFits a.0
      → after_upper_half bus fpu paddr half a ≢ none
  unfolding after_upper_half HalfFits
  after_upper_half-ne-none paddr half (Result.err t, h, m) low high = delivered-ne-none _ _ _ _
  after_upper_half-ne-none paddr half (Result.ok hi, h, m) low high =
      finish_step-ne-none _ 4 _ m
        (decode-InRange _ (bit_or-lt 32 _ half (omega arith) (omega arith)))

  step_uncached-ne-none :
      ((m : M) (a : ℕ) → bus.read_u16 m a < 2 ^ 16)
      → (paddr : ℕ) (h : Hart) (m : M) → step_uncached bus fpu paddr h m ≢ none
  unfolding step_uncached
  step_uncached-ne-none narrow paddr h m =
      either-ne-none bus _ _ _ (after_decompress-ne-none paddr _ _ m) (
        after_upper_half-ne-none paddr _ _ (narrow m paddr)
          (fetch_upper_half-HalfFits narrow paddr _ m))

  after_lookup-ne-none :
      ((m : M) (a : ℕ) → bus.read_u16 m a < 2 ^ 16)
      → (paddr : ℕ) (h : Hart) (m : M) (o : Option Decoded) → EntryInRange o
      → after_lookup bus fpu paddr h m o ≢ none
  unfolding after_lookup
  after_lookup-ne-none narrow paddr h m none r = step_uncached-ne-none narrow paddr h m
  after_lookup-ne-none narrow paddr h m (some e) r =
      either-ne-none bus _ _ _ (finish_step-ne-none e.instr e.width _ m r)
        (step_uncached-ne-none narrow paddr h m)

  after_fetch-ne-none :
      ((m : M) (a : ℕ) → bus.read_u16 m a < 2 ^ 16)
      → (a : Accessed M) → CacheInRange a.1
      → after_fetch bus fpu a ≢ none
  unfolding after_fetch
  after_fetch-ne-none narrow (Result.ok paddr, h, m) cached =
      after_lookup-ne-none narrow paddr _ m _ (cached (slot_of paddr))
  after_fetch-ne-none narrow (Result.err t, h, m) cached = delivered-ne-none _ _ _ _

  after_check-ne-none :
      ((m : M) (a : ℕ) → bus.read_u16 m a < 2 ^ 16)
      → (h : Hart) (m : M) (o : Option Trap) → CacheInRange h
      → after_check bus fpu h m o ≢ none
  unfolding after_check
  after_check-ne-none narrow h m (some t) cached = delivered-ne-none _ _ _ _
  after_check-ne-none narrow h m none cached = after_fetch-ne-none narrow _ (
      subst (λ (c : ℕ → Option Decoded). (i : ℕ) → EntryInRange (c i))
        (sym (fetch_translate-dcache bus h.cpu.pc h m)) cached)

  -- Where the decode cache is in range and the bus reads 16 bits as 16 bits, a step of the hart does
  -- not panic, whatever it fetches.
  pub step-ne-none :
      ((m : M) (a : ℕ) → bus.read_u16 m a < 2 ^ 16)
      → (h : Hart) (m : M) → CacheInRange h
      → step bus fpu h m ≢ none
  unfolding step
  step-ne-none narrow h m cached = after_check-ne-none narrow _ m _ (
      subst (λ (c : ℕ → Option Decoded). (i : ℕ) → EntryInRange (c i))
        (sym (sync_batched-dcache bus m (record h { trap_delivered = false }))) cached)

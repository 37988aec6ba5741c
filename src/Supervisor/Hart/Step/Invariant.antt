-- ===== src/Supervisor/Hart/Step/Invariant.antt =====
-- The decode cache from step to step.
use tab_linux.Base.{
  ℕ, ◌^◌, ◌<◌, bit_or, ◌≡◌, refl, sym, subst, Bool, true, false, not, Option, none, some, arith,
  ◌==◌, if◌then◌else◌, u16, low_bits, shl, bit_or-lt,
}
use tab_linux.Supervisor.Hart.LoadStore.Keeps.{
  either-KeepsCache, KeepsCache, Cache, delivered-KeepsCache,
}
use tab_linux.Supervisor.Hart.Step.{
  sync_batched, after_check, after_decompress, after_fetch, after_lookup, after_upper_half,
  fails_decode, fetched, half_or_zero, note_fetch_fault, step, step_uncached, step_undecoded,
  after_instruction, count_instruction, deliver_bare, finish_step, is_fence_i, keep_decoded,
  slot_of,
}
use tab_linux.Isa.{Trap, Instr, Status}
use tab_linux.Cpu.{Bus, Cpu, FpResult}
use tab_linux.Isa.Range.{InRange}
use tab_linux.Supervisor.Hart.Dispatch.{illegal, execute_supervisor}
use tab_linux.Supervisor.Hart.LoadStore.{HartOutcome, deliver}
use tab_linux.Supervisor.Hart.Dispatch.Keeps.{execute_supervisor-KeepsCache}
use tab_linux.Supervisor.Hart.{Decoded, Hart}
use tab_linux.Supervisor.Hart.Step.Safety.{
  HalfFits, fetch_upper_half-HalfFits, CacheInRange, EntryInRange,
}
use tab_linux.Supervisor.Hart.Spaces.{dcache_flush}
use tab_linux.Isa.Compressed.{decompress}
use tab_linux.Supervisor.Hart.Step.Cache.{
  fetch_translate-dcache, fetch_upper_half-dcache, sync_batched-dcache,
}
use tab_linux.Isa.Compressed.Ranges.{decompress-InRange}
use tab_linux.Supervisor.Hart.Memory.{fetch_translate, Accessed, fetch_upper_half}
use tab_linux.Isa.Decode.Ranges.{decode-InRange}
use tab_linux.Supervisor.{Result}
use tab_linux.Supervisor.Hart.Interrupts.{check_interrupts}
use tab_linux.Isa.Decode.{decode}

-- The hart that a step leaves has its decode cache in range.
abbrev pub OutcomeInRange : {M : Type 0} → HartOutcome M → Type 0
OutcomeInRange none = Unit
OutcomeInRange (some (s, h, m)) = CacheInRange h

same_cache : (h h' : Hart) → h'.dcache ≡ h.dcache → CacheInRange h → CacheInRange h'
same_cache h h' e cached = subst (λ (c : Cache). (i : ℕ) → EntryInRange (c i)) (sym e) cached

module _ {M : Type 0} where
  kept-OutcomeInRange :
      (h : Hart) (o : HartOutcome M) → CacheInRange h → KeepsCache h.dcache o → OutcomeInRange o
  kept-OutcomeInRange h none cached e = tt
  kept-OutcomeInRange h (some (s, h', m)) cached e = same_cache h h' e cached

  deliver_bare-KeepsCache :
      (s : Status) (h : Hart) (m : M) → KeepsCache h.dcache (deliver_bare s h m)
  unfolding deliver_bare
  deliver_bare-KeepsCache Status.running h m = refl
  deliver_bare-KeepsCache Status.wfi h m = refl
  deliver_bare-KeepsCache (Status.trap t) h m =
      either-KeepsCache h.dcache h.trap_delivered (some (Status.trap t, h, m)) (deliver t h m) refl
        (delivered-KeepsCache h.dcache t none h m refl)

  after_instruction-KeepsCache :
      (c : Cache) (pc width : ℕ) (o : HartOutcome M)
      → KeepsCache c o
      → KeepsCache c (after_instruction pc width o)
  unfolding after_instruction count_instruction
  after_instruction-KeepsCache c pc width none e = tt
  after_instruction-KeepsCache c pc width (some (s, h, m)) e =
      subst (λ (d : Cache). KeepsCache d (after_instruction pc width (some (s, h, m)))) e
        (deliver_bare-KeepsCache s _ m)

module _ {M : Type 0} (bus : Bus M) (fpu : Cpu → ℕ → FpResult × Cpu) where
  flushed-CacheInRange :
      (b : Bool) (h : Hart) → CacheInRange h → CacheInRange (if b then dcache_flush h else h)
  unfolding dcache_flush
  flushed-CacheInRange true h cached = λ i. tt
  flushed-CacheInRange false h cached = cached

  finish_step-OutcomeInRange :
      (i : Instr) (width : ℕ) (h : Hart) (m : M)
      → CacheInRange h
      → OutcomeInRange (finish_step bus fpu i width h m)
  unfolding finish_step
  finish_step-OutcomeInRange i width h m cached =
      let flushed : Hart = if is_fence_i i then dcache_flush h else h in
      kept-OutcomeInRange flushed (finish_step bus fpu i width h m)
        (flushed-CacheInRange (is_fence_i i) h cached)
        (after_instruction-KeepsCache flushed.dcache h.cpu.pc width
          (execute_supervisor bus fpu i width flushed m)
          (execute_supervisor-KeepsCache bus fpu i width flushed m))

  -- An instruction in range may be put in the cache.
  keep_decoded-CacheInRange :
      (paddr : ℕ) (instr : Instr) (width : ℕ) (h : Hart)
      → InRange instr
      → CacheInRange h
      → CacheInRange (keep_decoded paddr instr width h)
  keep_decoded-CacheInRange paddr instr width h r cached i = put (slot_of paddr == i)
    where
      put :
          (b : Bool)
          → EntryInRange (
              if b
              then some
                  (record { tag = paddr; instr = instr; width = width; raw = h.last_fetched_raw })
              else h.dcache i)
      put true = r
      put false = cached i

  after_decompress-OutcomeInRange :
      (paddr half : ℕ) (h : Hart) (m : M)
      → CacheInRange h
      → OutcomeInRange (after_decompress bus fpu paddr half h m (decompress half))
  unfolding after_decompress step_undecoded
  after_decompress-OutcomeInRange paddr half h m cached =
      decoded (decompress half) (λ i e. decompress-InRange half e)
    where
      upper : Accessed M
      upper = fetch_upper_half bus paddr h m

      decoded :
          (o : Option Instr)
          → ((i : Instr) → o ≡ some i → InRange i)
          → OutcomeInRange (after_decompress bus fpu paddr half h m o)
      decoded (some i) r =
          let fresh : Hart = record h { last_fetched_raw = half } in
          finish_step-OutcomeInRange i 2 (keep_decoded paddr i 2 fresh) m
            (keep_decoded-CacheInRange paddr i 2 fresh (r i refl) cached)
      decoded none r = kept-OutcomeInRange h (after_decompress bus fpu paddr half h m none) cached (
          delivered-KeepsCache h.dcache illegal none
            (fails_decode (half_or_zero upper.0) half upper.1) upper.2
            (fetch_upper_half-dcache bus paddr h m))

  after_upper_half-OutcomeInRange :
      (paddr half : ℕ) (a : Accessed M)
      → half < 2 ^ 16
      → HalfFits bus fpu a.0
      → CacheInRange a.1
      → OutcomeInRange (after_upper_half bus fpu paddr half a)
  unfolding after_upper_half HalfFits
  after_upper_half-OutcomeInRange paddr half (Result.err t, h, m) low high cached =
      kept-OutcomeInRange h (after_upper_half bus fpu paddr half (Result.err t, h, m)) cached
        (delivered-KeepsCache h.dcache t _ h m refl)
  after_upper_half-OutcomeInRange paddr half (Result.ok hi, h, m) low high cached =
      let raw : ℕ = bit_or (shl 32 hi 16) half in
      let fresh : Hart = record h { last_fetched_raw = raw } in
      finish_step-OutcomeInRange (decode raw) 4 (keep_decoded paddr (decode raw) 4 fresh) m (
        keep_decoded-CacheInRange paddr (decode raw) 4 fresh
          (decode-InRange raw (bit_or-lt 32 (shl 32 hi 16) half (omega arith) (omega arith)))
          cached)

  either-OutcomeInRange :
      (b : Bool) (x y : HartOutcome M)
      → OutcomeInRange x
      → OutcomeInRange y
      → OutcomeInRange (if b then x else y)
  either-OutcomeInRange true x y p q = p
  either-OutcomeInRange false x y p q = q

  step_uncached-OutcomeInRange :
      ((m : M) (a : ℕ) → bus.read_u16 m a < 2 ^ 16)
      → (paddr : ℕ) (h : Hart) (m : M) → CacheInRange h
      → OutcomeInRange (step_uncached bus fpu paddr h m)
  unfolding step_uncached
  step_uncached-OutcomeInRange narrow paddr h m cached =
      let half : ℕ = bus.read_u16 m paddr in
      let read : Hart = record h {
        diagnostics = record h.diagnostics { last_fetch_half = half };
      } in
      let upper : Accessed M = fetch_upper_half bus paddr read m in
      either-OutcomeInRange (not (low_bits half 2 == 3))
        (after_decompress bus fpu paddr half read m (decompress half))
        (after_upper_half bus fpu paddr half upper)
        (after_decompress-OutcomeInRange paddr half read m cached)
        (after_upper_half-OutcomeInRange paddr half upper (narrow m paddr)
          (fetch_upper_half-HalfFits bus fpu narrow paddr read m)
          (same_cache h upper.1 (fetch_upper_half-dcache bus paddr read m) cached))

  after_lookup-OutcomeInRange :
      ((m : M) (a : ℕ) → bus.read_u16 m a < 2 ^ 16)
      → (paddr : ℕ) (h : Hart) (m : M) (o : Option Decoded) → CacheInRange h
      → OutcomeInRange (after_lookup bus fpu paddr h m o)
  unfolding after_lookup
  after_lookup-OutcomeInRange narrow paddr h m none cached =
      step_uncached-OutcomeInRange narrow paddr h m cached
  after_lookup-OutcomeInRange narrow paddr h m (some e) cached =
      either-OutcomeInRange (e.tag == paddr)
        (finish_step bus fpu e.instr e.width (fetched e.raw (u16 e.raw) h) m)
        (step_uncached bus fpu paddr h m)
        (finish_step-OutcomeInRange e.instr e.width (fetched e.raw (u16 e.raw) h) m cached)
        (step_uncached-OutcomeInRange narrow paddr h m cached)

  after_fetch-OutcomeInRange :
      ((m : M) (a : ℕ) → bus.read_u16 m a < 2 ^ 16)
      → (a : Accessed M) → CacheInRange a.1
      → OutcomeInRange (after_fetch bus fpu a)
  unfolding after_fetch note_fetch_fault
  after_fetch-OutcomeInRange narrow (Result.ok paddr, h, m) cached =
      let found : Hart = record h {
        diagnostics = record h.diagnostics { last_fetch_paddr = paddr };
      } in
      after_lookup-OutcomeInRange narrow paddr found m (h.dcache (slot_of paddr)) cached
  after_fetch-OutcomeInRange narrow (Result.err t, h, m) cached =
      kept-OutcomeInRange h (after_fetch bus fpu (Result.err t, h, m)) cached
        (delivered-KeepsCache h.dcache t (some h.cpu.pc) (note_fetch_fault h) m (ground arith))

  after_check-OutcomeInRange :
      ((m : M) (a : ℕ) → bus.read_u16 m a < 2 ^ 16)
      → (h : Hart) (m : M) (o : Option Trap) → CacheInRange h
      → OutcomeInRange (after_check bus fpu h m o)
  unfolding after_check
  after_check-OutcomeInRange narrow h m (some t) cached =
      kept-OutcomeInRange h (deliver t h m) cached (delivered-KeepsCache h.dcache t none h m refl)
  after_check-OutcomeInRange narrow h m none cached =
      let fetch : Accessed M = fetch_translate bus h.cpu.pc h m in
      after_fetch-OutcomeInRange narrow fetch
        (same_cache h fetch.1 (fetch_translate-dcache bus h.cpu.pc h m) cached)

  -- Where the bus reads 16 bits as 16 bits, a step leaves the decode cache in range if it was.
  pub step-OutcomeInRange :
      ((m : M) (a : ℕ) → bus.read_u16 m a < 2 ^ 16)
      → (h : Hart) (m : M) → CacheInRange h
      → OutcomeInRange (step bus fpu h m)
  unfolding step
  step-OutcomeInRange narrow h m cached =
      let synced : Hart = sync_batched bus m (record h { trap_delivered = false }) in
      after_check-OutcomeInRange narrow synced m (check_interrupts synced) (
        same_cache h synced (sync_batched-dcache bus m (record h { trap_delivered = false }))
          cached)

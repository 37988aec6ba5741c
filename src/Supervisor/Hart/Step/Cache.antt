-- ===== src/Supervisor/Hart/Step/Cache.antt =====
-- The decode cache through the parts of a step.
use tab_linux.Base.{ℕ, ◌≡◌, refl, arith}
use tab_linux.Cpu.{Bus}
use tab_linux.Supervisor.Hart.{Hart}
use tab_linux.Supervisor.Hart.Memory.{
  Accessed, fetch_translate, fetch_upper_half, read_half, remember_fetch, translate_access,
  translate_as,
}
use tab_linux.Supervisor.{AccessType, Result}
use tab_linux.Cpu.Values.{wrapping_add}
use tab_linux.Supervisor.Hart.Interrupts.{sync_device_interrupts}
use tab_linux.Supervisor.Hart.Step.{sync_batched}

module _ {M : Type 0} (bus : Bus M) where
  pub translate_access-dcache :
      (access : AccessType) (vaddr : ℕ) (h : Hart) (m : M)
      → (translate_access bus access vaddr h m).1.dcache ≡ h.dcache
  unfolding translate_access translate_as
  translate_access-dcache access vaddr h m = ground arith

  remembered-dcache :
      (vaddr : ℕ) (a : Accessed M) → (remember_fetch bus vaddr a).1.dcache ≡ a.1.dcache
  remembered-dcache vaddr (Result.ok paddr, h, m) = refl
  remembered-dcache vaddr (Result.err t, h, m) = refl

  pub fetch_translate-dcache :
      (vaddr : ℕ) (h : Hart) (m : M) → (fetch_translate bus vaddr h m).1.dcache ≡ h.dcache
  unfolding fetch_translate
  fetch_translate-dcache vaddr h m =
      let kept = remembered-dcache vaddr (translate_access bus AccessType.instruction vaddr h m) in
      let same = translate_access-dcache AccessType.instruction vaddr h m in ground arith

  halved-dcache : (a : Accessed M) → (read_half bus a).1.dcache ≡ a.1.dcache
  halved-dcache (Result.ok paddr, h, m) = refl
  halved-dcache (Result.err t, h, m) = refl

  pub fetch_upper_half-dcache :
      (paddr : ℕ) (h : Hart) (m : M) → (fetch_upper_half bus paddr h m).1.dcache ≡ h.dcache
  unfolding fetch_upper_half
  fetch_upper_half-dcache paddr h m =
      let kept =
        halved-dcache (translate_access bus AccessType.instruction (wrapping_add h.cpu.pc 2) h m) in
      let same = translate_access-dcache AccessType.instruction (wrapping_add h.cpu.pc 2) h m in
      ground arith

  pub sync_batched-dcache : (m : M) (h : Hart) → (sync_batched bus m h).dcache ≡ h.dcache
  unfolding sync_batched sync_device_interrupts
  sync_batched-dcache m h = ground arith

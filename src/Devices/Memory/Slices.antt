-- ===== src/Devices/Memory/Slices.antt =====
-- Reading back what was copied into a memory, and what a copy leaves alone.
use tab_linux.Base.{
  ℕ, zero, suc, ◌+◌, ◌≤◌, ◌<◌, ◌≡◌, refl, ap₂, ◌∙◌, ◌⊎◌, inl, inr, List, [], ◌∷◌, arith, length,
}
use tab_linux.Devices.Memory.{set_byte, copy_slice, slice_at}

-- A byte outside the copied range keeps its value.
pub copy_slice_outside :
    (src : List ℕ) (off i : ℕ) (bytes : ℕ → ℕ)
    → (i < off) ⊎ (off + length src ≤ i)
    → copy_slice src off bytes i ≡ bytes i
unfolding copy_slice
copy_slice_outside [] off i bytes out = refl
copy_slice_outside (v ∷ vs) off i bytes out =
    copy_slice_outside vs (suc off) i (set_byte bytes off v)
      (elim out [ inl low ↦ inl (omega arith) | inr high ↦ inr (omega arith) ])
    ∙ ground (arith, out)

pub slice_at-copy_slice :
    (src : List ℕ) (off : ℕ) (bytes : ℕ → ℕ)
    → slice_at (length src) off (copy_slice src off bytes) ≡ src
unfolding slice_at copy_slice
slice_at-copy_slice [] off bytes = refl
slice_at-copy_slice (v ∷ vs) off bytes =
    ap₂ ◌∷◌
      (copy_slice_outside vs (suc off) off (set_byte bytes off v) (inl (omega arith))
        ∙ ground arith)
      (slice_at-copy_slice vs (suc off) (set_byte bytes off v))

-- A range apart from the copied one keeps its bytes.
pub slice_at-copy_slice_apart :
    (n i : ℕ) (src : List ℕ) (off : ℕ) (bytes : ℕ → ℕ)
    → (i + n ≤ off) ⊎ (off + length src ≤ i)
    → slice_at n i (copy_slice src off bytes) ≡ slice_at n i bytes
unfolding slice_at
slice_at-copy_slice_apart zero i src off bytes out = refl
slice_at-copy_slice_apart (suc n) i src off bytes out =
    ap₂ ◌∷◌
      (copy_slice_outside src off i bytes
        (elim out [ inl low ↦ inl (omega arith) | inr high ↦ inr high ]))
      (slice_at-copy_slice_apart n (suc i) src off bytes
        (elim out [ inl low ↦ inl (omega arith) | inr high ↦ inr (omega arith) ]))

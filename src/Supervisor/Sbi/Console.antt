-- ===== src/Supervisor/Sbi/Console.antt =====
-- The loop of the debug console and what it writes.
use tab_linux.Base.{
  ℕ, zero, suc, ◌+◌, ◌-◌, ◌≤◌, ◌<◌, min, ◌≡◌, refl, sym, ap, ap₂, ◌∙◌, ◌≢◌, inl, inr, true, false,
  none, some, List, ◌∷◌, ◌++◌, arith, ltb, ◌==◌, Bool-cases, u64,
}
use tab_linux.Supervisor.Sbi.{
  dispatch_ecall, handle_ecall, read_chunk, write_chunks, handle_dbcn, va_to_pa,
}
use tab_linux.Cpu.{Bus}

-- Two runs of bytes are one.
read_chunk-append :
    {M : Type 0} (bus : Bus M) (m : M) (base_pa first n k : ℕ)
    → read_chunk bus m base_pa first (n + k)
      ≡ read_chunk bus m base_pa first n ++ read_chunk bus m base_pa (first + n) k
unfolding read_chunk
read_chunk-append bus m base_pa first zero k =
    ap₂ (λ (i : ℕ) (count : ℕ). read_chunk bus m base_pa i count) (omega arith) (omega arith)
read_chunk-append bus m base_pa first (suc n) k =
    let one_more : suc n + k ≡ suc (n + k) = omega arith in
    let shifted : suc first + n ≡ first + suc n = omega arith in
    ap (λ (count : ℕ). read_chunk bus m base_pa first count) one_more
    ∙ ap (λ (bs : List ℕ). bus.read_u8 m (u64 (base_pa + first)) ∷ bs)
        (read_chunk-append bus m base_pa (suc first) n k)
    ∙ ap (λ (i : ℕ). read_chunk bus m base_pa first (suc n) ++ read_chunk bus m base_pa i k) shifted

module _ {M : Type 0} (bus : Bus M) {C : Type 0} (write : C → List ℕ → C) where
  round-more :
      (fuel : ℕ) (m : M) (base_pa len written : ℕ) (console : C)
      → written < len
      → write_chunks bus write (suc fuel) m base_pa len written console
        ≡ write_chunks bus write fuel m base_pa len
            (written + min (len - written) 256)
            (write console (read_chunk bus m base_pa written (min (len - written) 256)))
  unfolding write_chunks
  round-more fuel m base_pa len written console more =
      let p : ltb written len ≡ true = ground arith in rw p refl

  round-done :
      (fuel : ℕ) (m : M) (base_pa len written : ℕ) (console : C)
      → len ≤ written
      → write_chunks bus write (suc fuel) m base_pa len written console ≡ some console
  unfolding write_chunks
  round-done fuel m base_pa len written console done =
      let p : ltb written len ≡ false = ground arith in rw p refl

  -- The loop, from a place before the end, writes what is left in order, with a unit of fuel for each
  -- byte and one to see the end.
  write_chunks-enough :
      ((c : C) (a b : List ℕ) → write (write c a) b ≡ write c (a ++ b))
      → (fuel : ℕ) (m : M) (base_pa len written : ℕ) (console : C) → len ≤ written + fuel
      → written < len
      → write_chunks bus write (suc fuel) m base_pa len written console
        ≡ some (write console (read_chunk bus m base_pa written (len - written)))
  write_chunks-enough joins zero m base_pa len written console enough more = absurd (omega arith)
  write_chunks-enough joins (suc fuel) m base_pa len written console enough more =
      round-more (suc fuel) m base_pa len written console more
      ∙ elim (Bool-cases (ltb (written + n) len)) [
        | inl e ↦
            write_chunks-enough joins fuel m base_pa len (written + n) _ (omega arith)
              (ground arith)
            ∙ ap some (joins console _ _)
            ∙ ap (λ (bs : List ℕ). some (write console bs))
                (sym (read_chunk-append bus m base_pa written n _))
            ∙ ap (λ (k : ℕ). some (write console (read_chunk bus m base_pa written k)))
                (ground arith)
        | inr e ↦
            round-done fuel m base_pa len (written + n) _ (ground arith)
            ∙ ap (λ (k : ℕ). some (write console (read_chunk bus m base_pa written k)))
                (ground arith)
      ]
    where
      n : ℕ
      n = min (len - written) 256

  -- A debug console write of a positive number of bytes ends, answers success with the number of bytes,
  -- and hands exactly the bytes of memory from the translated address on to the console, in order, if
  -- the console takes two writes as it takes one of both runs of bytes.
  pub handle_dbcn-writes :
      ((c : C) (a b : List ℕ) → write (write c a) b ≡ write c (a ++ b))
      → (byte_len base_addr_in : ℕ) (m : M) (console : C) → 0 < byte_len
      → handle_dbcn bus write byte_len base_addr_in m console
        ≡ some (
          record { error = 0; value = byte_len },
          write console (read_chunk bus m (va_to_pa base_addr_in) 0 byte_len),
        )
  unfolding handle_dbcn
  handle_dbcn-writes joins byte_len base_addr_in m console positive =
      let p : (byte_len == 0) ≡ false = ground arith in
      let q : byte_len - 0 ≡ byte_len = omega arith in
      let all =
        write_chunks-enough joins byte_len m (va_to_pa base_addr_in) byte_len 0 console
          (omega arith) positive in
      rw (p, all, q) refl

  handle_dbcn-none :
      (m : M) (base_addr_in : ℕ) (console : C)
      → handle_dbcn bus write 0 base_addr_in m console ≢ none
  unfolding handle_dbcn
  handle_dbcn-none m base_addr_in console = ground arith

  handle_dbcn-ne-none :
      ((c : C) (a b : List ℕ) → write (write c a) b ≡ write c (a ++ b))
      → (byte_len base_addr_in : ℕ) (m : M) (console : C)
      → handle_dbcn bus write byte_len base_addr_in m console ≢ none
  handle_dbcn-ne-none joins zero base_addr_in m console e =
      handle_dbcn-none m base_addr_in console e
  handle_dbcn-ne-none joins (suc n) base_addr_in m console e =
      let written = handle_dbcn-writes joins (suc n) base_addr_in m console (omega arith) in
      ground arith

  -- Every call of the interface returns, if the console takes two writes as it takes one of both runs
  -- of bytes.
  pub handle_ecall-ne-none :
      ((c : C) (a b : List ℕ) → write (write c a) b ≡ write c (a ++ b))
      → (a0 a1 a6 a7 : ℕ) (m : M) (console : C)
      → handle_ecall bus write a0 a1 a6 a7 m console ≢ none
  unfolding handle_ecall dispatch_ecall
  handle_ecall-ne-none joins a0 a1 a6 a7 m console =
      let writes = handle_dbcn-ne-none joins a0 a1 m console in ground arith

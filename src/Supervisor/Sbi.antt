-- ===== src/Supervisor/Sbi.antt =====
-- crates/riscv-supervisor/src/sbi.rs: the calls of the supervisor binary interface. The console is the
-- function `write` on its state C; an `i64` in an answer is its 64-bit pattern.
pub mod Console
use tab_linux.Base.{
  ℕ, zero, suc, ◌+◌, ◌-◌, ◌^◌, bit_or, min, Bool, false, ◌||◌, Option, none, some, List, [], ◌∷◌,
  ltb, leb, ◌==◌, if◌then◌else◌, select, ◌>>=◌, u64, low_bits, shl,
}
use tab_linux.Cpu.{Bus}

pub record SbiRet : Type 0 where
  pub error : ℕ
  pub value : ℕ

pub record SbiRetExt : Type 0 where
  pub ext : ℕ
  pub error : ℕ
  pub value : ℕ

abbrev pub sbi_err_not_supported : ℕ
sbi_err_not_supported = 2 ^ 64 - 2

abbrev pub sbi_err_invalid_param : ℕ
sbi_err_invalid_param = 2 ^ 64 - 3

abbrev answers : (error value : ℕ) → SbiRet
answers error value = record { error = error; value = value }

-- The extension identifiers that `matches!` lists.
abbrev pub extensions : List ℕ
extensions =
    0x10 ∷ 0x5449_4D45 ∷ 0x4442_434E ∷ 0x73_5049 ∷ 0x48_534D ∷ 0x5352_5354 ∷ 0x5246_4E43 ∷ 0 ∷ 1 ∷ 2
    ∷ 3 ∷ 4 ∷ 5 ∷ 6 ∷ 7 ∷ 8 ∷ []

abbrev pub elem : ℕ → List ℕ → Bool
elem x [] = false
elem x (y ∷ ys) = x == y || elem x ys

unfoldable pub handle_base : (a0 function : ℕ) → SbiRet
handle_base a0 function =
    select function
      ((0, answers 0 0x0200_0000)
        ∷ (1, answers 0 1)
        ∷ (2, answers 0 0x0200_0000)
        ∷ (3, answers 0 (if elem a0 extensions then 1 else 0))
        ∷ (4, answers 0 0)
        ∷ (5, answers 0 0)
        ∷ (6, answers 0 0)
        ∷ [])
      (answers sbi_err_not_supported 0)

unfoldable pub handle_hsm : ℕ → SbiRet
handle_hsm function =
    if function == 0 then answers sbi_err_invalid_param 0 else answers sbi_err_not_supported 0

unfoldable pub handle_srst : ℕ → SbiRet
handle_srst function = if function == 0 then answers 0 0 else answers sbi_err_not_supported 0

unfoldable pub handle_ipi : ℕ → SbiRet
handle_ipi function = if function == 0 then answers 0 0 else answers sbi_err_not_supported 0

unfoldable pub handle_rfence : ℕ → SbiRet
handle_rfence function = if function == 0 then answers 0 0 else answers sbi_err_not_supported 0

unfoldable pub va_to_pa : ℕ → ℕ
va_to_pa va =
    if leb 0xffff_ffff_8000_0000 va then u64 (va - 0xffff_ffff_8000_0000 + 0x8000_0000) else va

module _ {M : Type 0} (bus : Bus M) where
  -- `for i in 0..to_read`, from the byte with the given number on.
  unfoldable pub read_chunk : M → (base_pa from count : ℕ) → List ℕ
  read_chunk m base_pa from zero = []
  read_chunk m base_pa from (suc count) =
      bus.read_u8 m (u64 (base_pa + from)) ∷ read_chunk m base_pa (suc from) count

module _ {M : Type 0} (bus : Bus M) {C : Type 0} (write : C → List ℕ → C) where
  -- `while written < len`, of which fuel bounds the rounds.
  unfoldable pub write_chunks : (fuel : ℕ) → M → (base_pa len written : ℕ) → C → Option C
  write_chunks zero m base_pa len written console = none
  write_chunks (suc fuel) m base_pa len written console =
      let to_read : ℕ = min (len - written) 256 in
      let console' : C = write console (read_chunk bus m base_pa written to_read) in
      let rest : Option C = write_chunks fuel m base_pa len (written + to_read) console' in
      if ltb written len then rest else some console

  -- `none` would be a loop that does not end.
  unfoldable pub handle_dbcn : (byte_len base_addr_in : ℕ) → M → C → Option (SbiRet × C)
  handle_dbcn byte_len base_addr_in m console =
      if byte_len == 0 then some (answers 0 0, console) else do
        console' ← write_chunks (suc byte_len) m (va_to_pa base_addr_in) byte_len 0 console
        some (answers 0 byte_len, console')

  unfoldable pub handle_time : (a0 a1 : ℕ) → M → SbiRet × M
  handle_time a0 a1 m = (answers 0 0, bus.write_u64 m 0x0200_4000 (bit_or (shl 64 a1 32) a0))

  -- An answer that changes nothing.
  abbrev plainly : M → C → SbiRet → Option (SbiRet × M × C)
  plainly m console r = some (r, m, console)

  -- The match on `a7`.
  unfoldable pub dispatch_ecall : (a0 a1 a6 a7 : ℕ) → M → C → Option (SbiRet × M × C)
  dispatch_ecall a0 a1 a6 a7 m console =
      select a7
        ((0x4442_434E, handle_dbcn a0 a1 m console >>= λ (r : SbiRet × C). some (r.0, m, r.1))
          ∷ (0x10, plainly m console (handle_base a0 a6))
          ∷ (0x5449_4D45, some ((handle_time a0 a1 m).0, (handle_time a0 a1 m).1, console))
          ∷ (0x48_534D, plainly m console (handle_hsm a6))
          ∷ (0x5352_5354, plainly m console (handle_srst a6))
          ∷ (0x73_5049, plainly m console (handle_ipi a6))
          ∷ (0x5246_4E43, plainly m console (handle_rfence a6))
          ∷ (0, some (answers 0 0, bus.write_u64 m 0x0200_4000 a0, console))
          ∷ (1, some (answers 0 0, m, write console (low_bits a0 8 ∷ [])))
          ∷ (2, plainly m console (answers 0 (2 ^ 64 - 1)))
          ∷ (3, plainly m console (answers 0 0))
          ∷ (4, plainly m console (answers 0 0))
          ∷ (5, plainly m console (answers 0 0))
          ∷ (6, plainly m console (answers 0 0))
          ∷ (7, plainly m console (answers 0 0))
          ∷ (8, plainly m console (answers 0 (2 ^ 64 - 1)))
          ∷ [])
        (plainly m console (answers sbi_err_not_supported 0))

  unfoldable pub handle_ecall : (a0 a1 a6 a7 : ℕ) → M → C → Option (SbiRetExt × M × C)
  handle_ecall a0 a1 a6 a7 m console = do
    (r, m', console') ← dispatch_ecall a0 a1 a6 a7 m console
    some (record { ext = a7; error = r.error; value = r.value }, m', console')

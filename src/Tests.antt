-- ===== src/Tests.antt =====
-- The theorems at concrete inputs, with a bus whose memory is a function from the address.
pub mod Codec
pub mod Execution
pub mod Translation
pub mod Streams
pub mod Supervision
pub mod Network
pub mod Machinery
pub mod Devicetree
use tab_linux.Base.{ℕ, false, u8, u16, u32, u64}
use tab_linux.Cpu.{Bus, Cpu, FpResult, update}
use tab_linux.Snapshot.{
  read_u16, read_u32, read_u64, read_u8, write_u16, write_u32, write_u64, write_u8,
}

-- A memory with a word at each address; a narrower access is to the low bits of the word.
abbrev pub word_bus : Bus (ℕ → ℕ)
word_bus = record {
  read_u8 = λ m a. u8 (m a);
  read_u16 = λ m a. u16 (m a);
  read_u32 = λ m a. u32 (m a);
  read_u64 = λ m a. u64 (m a);
  write_u8 = λ m a v. update m a v;
  write_u16 = λ m a v. update m a v;
  write_u32 = λ m a v. update m a v;
  write_u64 = λ m a v. update m a v;
  check_timer_interrupt = λ m. false;
  read_mtime = λ m. 0;
  check_external_interrupt = λ m. false;
}

abbrev pub no_memory : ℕ → ℕ
no_memory a = 0

-- A floating-point unit that knows no instruction.
abbrev pub no_fpu : Cpu → ℕ → FpResult × Cpu
no_fpu cpu raw = (record { ok = false; flags = 0; dirty = false }, cpu)

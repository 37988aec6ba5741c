-- ===== src/Supervisor/Hart/Save.antt =====
-- crates/riscv-supervisor/src/supervisor.rs: `save_state` and `load_state`, the snapshot of the hart.
-- `none` is a stream that ends too early, after which the source keeps what it had loaded so far.
pub mod RoundTrip
pub mod Whole
use tab_linux.Base.{
  ℕ, zero, suc, ◌-◌, ◌^◌, Bool, true, false, Option, none, some, List, [], ◌∷◌, if◌then◌else◌,
  select, ◌>>=◌,
}
use tab_linux.Snapshot.{
  Reader, Writer, read_bool, read_u64, read_u8, write_bool, write_u64, write_u8,
}
use tab_linux.Supervisor.{Privilege, from_bits, satp_from_bits, satp_to_bits, to_bits}
use tab_linux.Supervisor.Mmu.{flush_tlb}
use tab_linux.Supervisor.Hart.Spaces.{dcache_flush}
use tab_linux.Supervisor.Tlb.{set_at}
use tab_linux.Supervisor.Hart.Csr.{priv_code}
use tab_linux.Supervisor.Hart.{Hart}

-- The elements of an array from index i on.
abbrev pub elements : (count i : ℕ) → (ℕ → ℕ) → List ℕ
elements zero i a = []
elements (suc count) i a = a i ∷ elements count (suc i) a

-- One `w.u64(..)` for each.
unfoldable pub save_words : List ℕ → Writer → Writer
save_words [] w = w
save_words (v ∷ vs) w = save_words vs (write_u64 w v)

-- One `.. = r.u64()?` for each.
unfoldable pub load_words : List (ℕ → Hart → Hart) → Hart → Reader → Option (Hart × Reader)
load_words [] h r = some (h, r)
load_words (set ∷ sets) h r = do (v, r') ← read_u64 r; load_words sets (set v h) r'

-- `for i in .. { array[i] = r.u64()?; }`
unfoldable pub load_array : (count i : ℕ) → (ℕ → ℕ) → Reader → Option ((ℕ → ℕ) × Reader)
load_array zero i a r = some (a, r)
load_array (suc count) i a r = do (v, r') ← read_u64 r; load_array count (suc i) (set_at a i v) r'

abbrev pub registers : Hart → List ℕ
registers h =
    to_bits h.mstatus
    ∷ h.mie
    ∷ h.mip
    ∷ h.mtvec
    ∷ h.mepc
    ∷ h.mcause
    ∷ h.mtval
    ∷ h.mscratch
    ∷ h.medeleg
    ∷ h.mideleg
    ∷ h.stvec
    ∷ h.sepc
    ∷ h.scause
    ∷ h.stval
    ∷ h.sscratch
    ∷ satp_to_bits h.satp
    ∷ h.stimecmp
    ∷ h.mcycle
    ∷ h.minstret
    ∷ []

abbrev pub set_registers : List (ℕ → Hart → Hart)
set_registers =
    (λ v h. record h { mstatus = from_bits v })
    ∷ (λ v h. record h { mie = v })
    ∷ (λ v h. record h { mip = v })
    ∷ (λ v h. record h { mtvec = v })
    ∷ (λ v h. record h { mepc = v })
    ∷ (λ v h. record h { mcause = v })
    ∷ (λ v h. record h { mtval = v })
    ∷ (λ v h. record h { mscratch = v })
    ∷ (λ v h. record h { medeleg = v })
    ∷ (λ v h. record h { mideleg = v })
    ∷ (λ v h. record h { stvec = v })
    ∷ (λ v h. record h { sepc = v })
    ∷ (λ v h. record h { scause = v })
    ∷ (λ v h. record h { stval = v })
    ∷ (λ v h. record h { sscratch = v })
    ∷ (λ v h. record h { satp = satp_from_bits v })
    ∷ (λ v h. record h { stimecmp = v })
    ∷ (λ v h. record h { mcycle = v })
    ∷ (λ v h. record h { minstret = v })
    ∷ []

abbrev pub set_cpu : List (ℕ → Hart → Hart)
set_cpu =
    (λ v h. record h { cpu = record h.cpu { pc = v } })
    ∷ (λ v h. record h { cpu = record h.cpu { fcsr = v } })
    ∷ []

-- `self.reservation_addr.map_or(u64::MAX, |a| a)` and `.is_some()`.
abbrev pub reserved_word : Option ℕ → ℕ
reserved_word none = 2 ^ 64 - 1
reserved_word (some a) = a

abbrev pub is_some : Option ℕ → Bool
is_some none = false
is_some (some a) = true

abbrev pub privilege_of : ℕ → Privilege
privilege_of code =
    select code ((0, Privilege.user) ∷ (1, Privilege.supervisor) ∷ []) Privilege.machine

unfoldable pub save_cpu : Hart → Writer → Writer
save_cpu h w =
    write_bool
      (save_words (h.cpu.pc ∷ h.cpu.fcsr ∷ [])
        (save_words (elements 32 0 h.cpu.f) (save_words (elements 32 0 h.cpu.x) w)))
      h.cpu.fs_dirty

unfoldable pub save_privileged : Hart → Writer → Writer
save_privileged h w = save_words (h.mhartid ∷ []) (
    save_words (elements 64 0 h.pmpaddr) (
      save_words (elements 16 0 h.pmpcfg)
        (save_words (registers h) (write_u8 w (priv_code h.priv_level)))))

unfoldable pub save_rest : Hart → Writer → Writer
save_rest h w =
    write_bool
      (write_u64 (write_bool (write_bool w h.wfi) h.sbi_enabled) (reserved_word h.reservation_addr))
      (is_some h.reservation_addr)

unfoldable pub save_state : Hart → Writer → Writer
save_state h w = save_rest h (save_privileged h (save_cpu h w))

unfoldable pub load_cpu : Hart → Reader → Option (Hart × Reader)
load_cpu h r = do
  (x, r₁) ← load_array 32 0 h.cpu.x r
  (f, r₂) ← load_array 32 0 h.cpu.f r₁
  (h', r₃) ← load_words set_cpu (record h { cpu = record h.cpu { x = x; f = f } }) r₂
  (fs_dirty, r₄) ← read_bool r₃
  some (record h' { cpu = record h'.cpu { fs_dirty = fs_dirty } }, r₄)

unfoldable pub load_privileged : Hart → Reader → Option (Hart × Reader)
load_privileged h r = do
  (code, r₁) ← read_u8 r
  (h', r₂) ← load_words set_registers (record h { priv_level = privilege_of code }) r₁
  (cfg, r₃) ← load_array 16 0 h'.pmpcfg r₂
  (addr, r₄) ← load_array 64 0 h'.pmpaddr r₃
  load_words ((λ v h. record h { mhartid = v }) ∷ []) (record h' { pmpcfg = cfg; pmpaddr = addr })
      r₄

unfoldable pub load_rest : Hart → Reader → Option (Hart × Reader)
load_rest h r = do
  (wfi, r₁) ← read_bool r
  (sbi_enabled, r₂) ← read_bool r₁
  (addr, r₃) ← read_u64 r₂
  (reserved, r₄) ← read_bool r₃
  let reservation_addr : Option ℕ = if reserved then some addr else none
  some (record h { wfi = wfi; sbi_enabled = sbi_enabled; reservation_addr = reservation_addr }, r₄)

-- The caches belong to the machine that was: they are dropped.
unfoldable pub load_state : Hart → Reader → Option (Hart × Reader)
load_state h r = do
  (h₁, r₁) ← load_cpu h r
  (h₂, r₂) ← load_privileged h₁ r₁
  (h₃, r₃) ← load_rest h₂ r₂
  some (dcache_flush (record h₃ { mmu = flush_tlb h₃.mmu }), r₃)

-- ===== src/Supervisor/Hart/Save/Whole.antt =====
-- The whole snapshot of the hart.
use tab_linux.Base.{
  ℕ, ◌^◌, ◌<◌, ◌≡◌, refl, sym, ap, ◌∙◌, Option, none, some, List, [], ◌∷◌, if◌then◌else◌, length,
}
use tab_linux.Supervisor.Hart.Save.RoundTrip.{
  load_cpu-save_cpu, IsCpu, cpu_restored, AreWords, Prefix-save_words, apply_words, fill,
  load_array-save_words, load_words-save_words,
}
use tab_linux.Supervisor.Hart.Save.{
  save_cpu, is_some, load_rest, load_state, reserved_word, save_rest, save_state, elements,
  load_privileged, privilege_of, registers, save_privileged, save_words, set_registers,
}
use tab_linux.Supervisor.{Privilege, from_bits, satp_from_bits, satp_to_bits, to_bits}
use tab_linux.Snapshot.{new_reader, to_le_bytes, write_bool, write_u64, Writer, write_u8}
use tab_linux.Supervisor.Hart.Csr.{priv_code}
use tab_linux.Supervisor.Hart.{Hart}
use tab_linux.Supervisor.Hart.Spaces.{fresh_gens, invalidate_all_spaces, dcache_flush}
use tab_linux.Supervisor.Mmu.{flush_tlb}
use tab_linux.Supervisor.Registers.{from_bits-to_bits, HasFields}
use tab_linux.Snapshot.RoundTrip.{append_nil}
use tab_linux.Snapshot.Prefix.{
  Prefix, Prefix-append, Prefix-write_bool, at, read_bool-write_bool, read_u64-write_u64,
  read_u8-write_u8,
}

abbrev privileged_restored : Hart → Hart → Hart
privileged_restored h h₀ = record h₀ {
  priv_level = h.priv_level;
  mstatus = from_bits (to_bits h.mstatus);
  mie = h.mie;
  mip = h.mip;
  mtvec = h.mtvec;
  mepc = h.mepc;
  mcause = h.mcause;
  mtval = h.mtval;
  mscratch = h.mscratch;
  medeleg = h.medeleg;
  mideleg = h.mideleg;
  stvec = h.stvec;
  sepc = h.sepc;
  scause = h.scause;
  stval = h.stval;
  sscratch = h.sscratch;
  satp = satp_from_bits (satp_to_bits h.satp);
  stimecmp = h.stimecmp;
  mcycle = h.mcycle;
  minstret = h.minstret;
  pmpcfg = fill 16 0 h.pmpcfg h₀.pmpcfg;
  pmpaddr = fill 64 0 h.pmpaddr h₀.pmpaddr;
  mhartid = h.mhartid;
}

-- Every privileged register is a 64-bit word.
abbrev pub IsPrivileged : Hart → Type 0
IsPrivileged h =
    AreWords (registers h)
    × ((i : ℕ) → h.pmpcfg i < 2 ^ 64)
    × ((i : ℕ) → h.pmpaddr i < 2 ^ 64)
    × (h.mhartid < 2 ^ 64)

privilege_of-priv_code : (p : Privilege) → privilege_of (priv_code p) ≡ p
privilege_of-priv_code Privilege.user = refl
privilege_of-priv_code Privilege.supervisor = refl
privilege_of-priv_code Privilege.machine = refl

load_privileged-save_privileged :
    (h h₀ : Hart) (w buf : List ℕ)
    → IsPrivileged h
    → Prefix (save_privileged h w) buf
    → load_privileged h₀ (at buf w) ≡ some (privileged_restored h h₀, at buf (save_privileged h w))
unfolding load_privileged save_privileged apply_words
load_privileged-save_privileged h h₀ w buf (fits, cfgs, addrs, id) p =
    let w₁ : Writer = write_u8 w (priv_code h.priv_level) in
    let w₂ : Writer = save_words (registers h) w₁ in
    let w₃ : Writer = save_words (elements 16 0 h.pmpcfg) w₂ in
    let w₄ : Writer = save_words (elements 64 0 h.pmpaddr) w₃ in
    let p₄ : Prefix w₄ buf = Prefix-save_words (h.mhartid ∷ []) w₄ buf p in
    let p₃ : Prefix w₃ buf = Prefix-save_words (elements 64 0 h.pmpaddr) w₃ buf p₄ in
    let p₂ : Prefix w₂ buf = Prefix-save_words (elements 16 0 h.pmpcfg) w₂ buf p₃ in
    let p₁ : Prefix w₁ buf = Prefix-save_words (registers h) w₁ buf p₂ in
    rw
      (
        read_u8-write_u8 w buf (priv_code h.priv_level) p₁,
        privilege_of-priv_code h.priv_level,
        load_words-save_words set_registers (registers h) w₁ buf _ tt fits p₂,
        load_array-save_words 16 0 h.pmpcfg h₀.pmpcfg w₂ buf cfgs p₃,
        load_array-save_words 64 0 h.pmpaddr h₀.pmpaddr w₃ buf addrs p₄,
      )
      (load_words-save_words ((λ v g. record g { mhartid = v }) ∷ []) (h.mhartid ∷ []) w₄ buf _ tt
        (id, tt) p)

rest_restored : Hart → Hart → Hart
rest_restored h h₀ = record h₀ {
  wfi = h.wfi;
  sbi_enabled = h.sbi_enabled;
  reservation_addr = h.reservation_addr;
}

reserved_again : (r : Option ℕ) → (if is_some r then some (reserved_word r) else none) ≡ r
reserved_again none = refl
reserved_again (some a) = refl

load_rest-save_rest :
    (h h₀ : Hart) (w buf : List ℕ)
    → reserved_word h.reservation_addr < 2 ^ 64
    → Prefix (save_rest h w) buf
    → load_rest h₀ (at buf w) ≡ some (rest_restored h h₀, at buf (save_rest h w))
unfolding load_rest save_rest rest_restored write_u64
load_rest-save_rest h h₀ w buf fits p =
    let w₁ : Writer = write_bool w h.wfi in
    let w₂ : Writer = write_bool w₁ h.sbi_enabled in
    let w₃ : Writer = write_u64 w₂ (reserved_word h.reservation_addr) in
    let p₃ : Prefix w₃ buf = Prefix-write_bool w₃ buf (is_some h.reservation_addr) p in
    let p₂ : Prefix w₂ buf =
      Prefix-append w₂ (to_le_bytes 8 (reserved_word h.reservation_addr)) buf p₃ in
    let p₁ : Prefix w₁ buf = Prefix-write_bool w₁ buf h.sbi_enabled p₂ in
    rw
      (
        read_bool-write_bool w buf h.wfi p₁,
        read_bool-write_bool w₁ buf h.sbi_enabled p₂,
        read_u64-write_u64 w₂ buf (reserved_word h.reservation_addr) fits p₃,
        read_bool-write_bool w₃ buf (is_some h.reservation_addr) p,
        reserved_again h.reservation_addr,
      )
      refl

Prefix-save_rest : (h : Hart) (w buf : List ℕ) → Prefix (save_rest h w) buf → Prefix w buf
unfolding save_rest write_u64
Prefix-save_rest h w buf p = Prefix-write_bool w buf h.wfi (
    Prefix-write_bool _ buf h.sbi_enabled (
      Prefix-append _ (to_le_bytes 8 (reserved_word h.reservation_addr)) buf
        (Prefix-write_bool _ buf (is_some h.reservation_addr) p)))

Prefix-save_privileged :
    (h : Hart) (w buf : List ℕ) → Prefix (save_privileged h w) buf → Prefix w buf
unfolding save_privileged write_u8
Prefix-save_privileged h w buf p = Prefix-append w (priv_code h.priv_level ∷ []) buf (
    Prefix-save_words (registers h) _ buf (
      Prefix-save_words (elements 16 0 h.pmpcfg) _ buf (
        Prefix-save_words (elements 64 0 h.pmpaddr) _ buf
          (Prefix-save_words (h.mhartid ∷ []) _ buf p))))

-- The hart that a snapshot of h leaves when it is loaded into h₀: the caches are dropped.
restored : Hart → Hart → Hart
restored h h₀ =
    let loaded : Hart = rest_restored h (privileged_restored h (cpu_restored h h₀)) in
    dcache_flush (record loaded { mmu = flush_tlb loaded.mmu })

load_state-restored :
    (h h₀ : Hart) (buf : List ℕ)
    → IsCpu h
    → IsPrivileged h
    → reserved_word h.reservation_addr < 2 ^ 64
    → Prefix (save_state h []) buf
    → load_state h₀ (new_reader buf) ≡ some (restored h h₀, at buf (save_state h []))
unfolding load_state save_state restored new_reader
load_state-restored h h₀ buf cpu privileged reserved p =
    let w₁ : Writer = save_cpu h [] in
    let w₂ : Writer = save_privileged h w₁ in
    let p₂ : Prefix w₂ buf = Prefix-save_rest h w₂ buf p in
    let p₁ : Prefix w₁ buf = Prefix-save_privileged h w₁ buf p₂ in
    let loaded : Hart = cpu_restored h h₀ in
    rw
      (
        load_cpu-save_cpu h h₀ [] buf cpu p₁,
        load_privileged-save_privileged h loaded w₁ buf privileged p₂,
        load_rest-save_rest h (privileged_restored h loaded) w₂ buf reserved p,
      )
      refl

save_cpu-restored : (h h₀ : Hart) (w : Writer) → save_cpu (restored h h₀) w ≡ save_cpu h w
unfolding save_cpu restored rest_restored cpu_restored dcache_flush invalidate_all_spaces fresh_gens
    fill
save_cpu-restored h h₀ w = refl

save_privileged-restored :
    (h h₀ : Hart) (w : Writer)
    → HasFields h.mstatus
    → satp_from_bits (satp_to_bits h.satp) ≡ h.satp
    → save_privileged (restored h h₀) w ≡ save_privileged h w
unfolding save_privileged restored rest_restored dcache_flush invalidate_all_spaces fresh_gens fill
save_privileged-restored h h₀ w fields satp = rw (from_bits-to_bits h.mstatus fields, satp) refl

save_rest-restored : (h h₀ : Hart) (w : Writer) → save_rest (restored h h₀) w ≡ save_rest h w
unfolding save_rest restored rest_restored dcache_flush invalidate_all_spaces fresh_gens
save_rest-restored h h₀ w = refl

-- A snapshot of a hart, loaded into any hart, is read to its end, and the hart that it leaves makes the
-- same snapshot again. Each register of the hart is a 64-bit word, the fields of its mstatus have two
-- bits, and its satp is one that a write to satp can leave.
pub load_state-save_state :
    (h h₀ : Hart)
    → IsCpu h
    → IsPrivileged h
    → reserved_word h.reservation_addr < 2 ^ 64
    → HasFields h.mstatus
    → satp_from_bits (satp_to_bits h.satp) ≡ h.satp
    → (h' : Hart) × (load_state h₀ (new_reader (save_state h []))
        ≡ some (h', record { buf = save_state h []; pos = length (save_state h []) }))
      × (save_state h' [] ≡ save_state h [])
unfolding save_state
load_state-save_state h h₀ cpu privileged reserved fields satp = (
  restored h h₀,
  load_state-restored h h₀ (save_state h []) cpu privileged reserved
      ([], sym (append_nil (save_state h []))),
  save_rest-restored h h₀ (save_privileged (restored h h₀) (save_cpu (restored h h₀) []))
      ∙ ap (save_rest h) (
          save_privileged-restored h h₀ (save_cpu (restored h h₀) []) fields satp
          ∙ ap (save_privileged h) (save_cpu-restored h h₀ [])),
)

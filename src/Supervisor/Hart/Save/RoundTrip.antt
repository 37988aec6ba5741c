-- ===== src/Supervisor/Hart/Save/RoundTrip.antt =====
-- The snapshot of the hart, saved and loaded, part by part.
use tab_linux.Base.{ℕ, zero, suc, ◌^◌, ◌<◌, ◌≡◌, refl, some, List, [], ◌∷◌, ◌++◌, All}
use tab_linux.Supervisor.Hart.Save.{
  load_cpu, save_cpu, set_cpu, elements, load_array, load_words, save_words,
}
use tab_linux.Snapshot.{Writer, to_le_bytes, write_u64}
use tab_linux.Supervisor.Hart.{Hart}
use tab_linux.Supervisor.Tlb.{set_at}
use tab_linux.Snapshot.Prefix.{
  Prefix, Prefix-append, Prefix-write_bool, at, read_bool-write_bool, read_u64-write_u64,
}
use tab_linux.Devices.Plic.{same}

pub Prefix-save_words : (vs w buf : List ℕ) → Prefix (save_words vs w) buf → Prefix w buf
unfolding save_words write_u64
Prefix-save_words [] w buf p = p
Prefix-save_words (v ∷ vs) w buf p =
    Prefix-append w (to_le_bytes 8 v) buf (Prefix-save_words vs (w ++ to_le_bytes 8 v) buf p)

abbrev pub AreWords : List ℕ → Type 0
AreWords vs = All (λ (v : ℕ). v < 2 ^ 64) vs

-- Each setter takes the value at its place.
abbrev SameLength : List (ℕ → Hart → Hart) → List ℕ → Type 0
SameLength [] [] = Unit
SameLength (set ∷ sets) (v ∷ vs) = SameLength sets vs
SameLength sets vs = ⊥

unfoldable pub apply_words : List (ℕ → Hart → Hart) → List ℕ → Hart → Hart
apply_words (set ∷ sets) (v ∷ vs) h = apply_words sets vs (set v h)
apply_words sets vs h = h

pub load_words-save_words :
    (sets : List (ℕ → Hart → Hart)) (vs w buf : List ℕ) (h : Hart)
    → SameLength sets vs
    → AreWords vs
    → Prefix (save_words vs w) buf
    → load_words sets h (at buf w) ≡ some (apply_words sets vs h, at buf (save_words vs w))
unfolding load_words save_words apply_words
load_words-save_words [] [] w buf h same fits p = refl
load_words-save_words [] (v ∷ vs) w buf h same fits p = absurd same
load_words-save_words (set ∷ sets) [] w buf h same fits p = absurd same
load_words-save_words (set ∷ sets) (v ∷ vs) w buf h same (fit, fits) p =
    rw (read_u64-write_u64 w buf v fit (Prefix-save_words vs (write_u64 w v) buf p))
      (load_words-save_words sets vs (write_u64 w v) buf (set v h) same fits p)

-- The array that a run of reads leaves.
unfoldable pub fill : (count i : ℕ) → (from a : ℕ → ℕ) → ℕ → ℕ
fill zero i from a = a
fill (suc count) i from a = fill count (suc i) from (set_at a i (from i))

pub load_array-save_words :
    (count i : ℕ) (from a : ℕ → ℕ) (w buf : List ℕ)
    → ((k : ℕ) → from k < 2 ^ 64)
    → Prefix (save_words (elements count i from) w) buf
    → load_array count i a (at buf w)
      ≡ some (fill count i from a, at buf (save_words (elements count i from) w))
unfolding load_array save_words fill
load_array-save_words zero i from a w buf fits p = refl
load_array-save_words (suc count) i from a w buf fits p =
    rw
      (read_u64-write_u64 w buf (from i) (fits i)
        (Prefix-save_words (elements count (suc i) from) (write_u64 w (from i)) buf p))
      (load_array-save_words count (suc i) from (set_at a i (from i)) (write_u64 w (from i)) buf
        fits p)

-- What is kept of the hart that a snapshot is loaded into, and what is replaced.
unfoldable pub cpu_restored : Hart → Hart → Hart
cpu_restored h h₀ = record h₀ {
  cpu = record h₀.cpu {
    x = fill 32 0 h.cpu.x h₀.cpu.x;
    f = fill 32 0 h.cpu.f h₀.cpu.f;
    pc = h.cpu.pc;
    fcsr = h.cpu.fcsr;
    fs_dirty = h.cpu.fs_dirty;
  };
}

-- Every register of the CPU is a 64-bit word.
abbrev pub IsCpu : Hart → Type 0
IsCpu h =
    ((i : ℕ) → h.cpu.x i < 2 ^ 64)
    × ((i : ℕ) → h.cpu.f i < 2 ^ 64)
    × AreWords (h.cpu.pc ∷ h.cpu.fcsr ∷ [])

pub load_cpu-save_cpu :
    (h h₀ : Hart) (w buf : List ℕ)
    → IsCpu h
    → Prefix (save_cpu h w) buf
    → load_cpu h₀ (at buf w) ≡ some (cpu_restored h h₀, at buf (save_cpu h w))
unfolding load_cpu save_cpu cpu_restored apply_words
load_cpu-save_cpu h h₀ w buf (xs, fs, rest) p =
    let w₁ : Writer = save_words (elements 32 0 h.cpu.x) w in
    let w₂ : Writer = save_words (elements 32 0 h.cpu.f) w₁ in
    let w₃ : Writer = save_words (h.cpu.pc ∷ h.cpu.fcsr ∷ []) w₂ in
    let p₃ : Prefix w₃ buf = Prefix-write_bool w₃ buf h.cpu.fs_dirty p in
    let p₂ : Prefix w₂ buf = Prefix-save_words (h.cpu.pc ∷ h.cpu.fcsr ∷ []) w₂ buf p₃ in
    let p₁ : Prefix w₁ buf = Prefix-save_words (elements 32 0 h.cpu.f) w₁ buf p₂ in
    rw
      (
        load_array-save_words 32 0 h.cpu.x h₀.cpu.x w buf xs p₁,
        load_array-save_words 32 0 h.cpu.f h₀.cpu.f w₁ buf fs p₂,
        load_words-save_words set_cpu (h.cpu.pc ∷ h.cpu.fcsr ∷ []) w₂ buf _ tt rest p₃,
        read_bool-write_bool w₃ buf h.cpu.fs_dirty p,
      )
      refl

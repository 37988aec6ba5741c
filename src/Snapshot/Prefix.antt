-- ===== src/Snapshot/Prefix.antt =====
-- Reading what has been written at its place in a longer buffer.
use tab_linux.Base.{
  ℕ, ◌^◌, ◌<◌, ◌≡◌, refl, sym, ◌∙◌, subst, Bool, true, false, some, List, ◌++◌, length,
}
use tab_linux.Snapshot.{
  read_bool, read_u16, read_u32, read_u64, read_u8, write_bool, write_u16, write_u32, write_u64,
  write_u8, Reader, Writer,
}
use tab_linux.Snapshot.RoundTrip.{
  append_assoc, from_le_bytes-to_le_bytes_2, from_le_bytes-to_le_bytes_4,
  from_le_bytes-to_le_bytes_8, read_number-append, read_number-byte,
}

abbrev pub at : List ℕ → Writer → Reader
at buf w = record { buf = buf; pos = length w }

-- The buffer begins with what has been written so far.
abbrev pub Prefix : Writer → List ℕ → Type 0
Prefix w buf = (post : List ℕ) × (buf ≡ w ++ post)

pub Prefix-append : (w v buf : List ℕ) → Prefix (w ++ v) buf → Prefix w buf
Prefix-append w v buf (post, e) = (v ++ post, e ∙ append_assoc w v post)

pub read_u64-write_u64 :
    (w buf : List ℕ) (v : ℕ)
    → v < 2 ^ 64
    → Prefix (write_u64 w v) buf
    → read_u64 (at buf w) ≡ some (v, at buf (write_u64 w v))
unfolding write_u64 read_u64
read_u64-write_u64 w buf v fits (post, e) =
    subst (λ (b : List ℕ). read_u64 (at b w) ≡ some (v, at b (write_u64 w v))) (sym e)
      (read_number-append 8 v w post (from_le_bytes-to_le_bytes_8 v fits))

pub read_bool-write_bool :
    (w buf : List ℕ) (v : Bool)
    → Prefix (write_bool w v) buf
    → read_bool (at buf w) ≡ some (v, at buf (write_bool w v))
unfolding write_bool read_bool
read_bool-write_bool w buf true (post, e) =
    subst (λ (b : List ℕ). read_bool (at b w) ≡ some (true, at b (write_bool w true))) (sym e)
      (rw (read_number-byte 1 w post) refl)
read_bool-write_bool w buf false (post, e) =
    subst (λ (b : List ℕ). read_bool (at b w) ≡ some (false, at b (write_bool w false))) (sym e)
      (rw (read_number-byte 0 w post) refl)

pub read_u8-write_u8 :
    (w buf : List ℕ) (v : ℕ)
    → Prefix (write_u8 w v) buf
    → read_u8 (at buf w) ≡ some (v, at buf (write_u8 w v))
unfolding write_u8 read_u8
read_u8-write_u8 w buf v (post, e) =
    subst (λ (b : List ℕ). read_u8 (at b w) ≡ some (v, at b (write_u8 w v))) (sym e)
      (read_number-byte v w post)

pub Prefix-write_bool : (w buf : List ℕ) (v : Bool) → Prefix (write_bool w v) buf → Prefix w buf
unfolding write_bool
Prefix-write_bool w buf v p = Prefix-append w _ buf p

pub read_u16-write_u16 :
    (w buf : List ℕ) (v : ℕ)
    → v < 2 ^ 16
    → Prefix (write_u16 w v) buf
    → read_u16 (at buf w) ≡ some (v, at buf (write_u16 w v))
unfolding write_u16 read_u16
read_u16-write_u16 w buf v fits (post, e) =
    subst (λ (b : List ℕ). read_u16 (at b w) ≡ some (v, at b (write_u16 w v))) (sym e)
      (read_number-append 2 v w post (from_le_bytes-to_le_bytes_2 v fits))

pub read_u32-write_u32 :
    (w buf : List ℕ) (v : ℕ)
    → v < 2 ^ 32
    → Prefix (write_u32 w v) buf
    → read_u32 (at buf w) ≡ some (v, at buf (write_u32 w v))
unfolding write_u32 read_u32
read_u32-write_u32 w buf v fits (post, e) =
    subst (λ (b : List ℕ). read_u32 (at b w) ≡ some (v, at b (write_u32 w v))) (sym e)
      (read_number-append 4 v w post (from_le_bytes-to_le_bytes_4 v fits))

pub Prefix-write_u16 : (w buf : List ℕ) (v : ℕ) → Prefix (write_u16 w v) buf → Prefix w buf
unfolding write_u16
Prefix-write_u16 w buf v p = Prefix-append w _ buf p

pub Prefix-write_u32 : (w buf : List ℕ) (v : ℕ) → Prefix (write_u32 w v) buf → Prefix w buf
unfolding write_u32
Prefix-write_u32 w buf v p = Prefix-append w _ buf p

pub Prefix-write_u64 : (w buf : List ℕ) (v : ℕ) → Prefix (write_u64 w v) buf → Prefix w buf
unfolding write_u64
Prefix-write_u64 w buf v p = Prefix-append w _ buf p

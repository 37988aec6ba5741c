-- ===== src/Supervisor/Registers.antt =====
-- The word of mstatus, written and read back.
use tab_linux.Base.{
  ℕ, ◌+◌, ◌*◌, ◌/◌, ◌%◌, ◌^◌, ◌<◌, ◌≡◌, refl, ◌∙◌, Bool, true, false, arith, low_bits, field,
  or_next,
}
use tab_linux.Supervisor.{flag_of, from_bits, set_field, set_flag, MStatus, to_bits}

abbrev bit : Bool → ℕ
bit true = 1
bit false = 0

-- A flag or a field that is put where there are zeros adds up.
set_flag-sum :
    (k : ℕ) {v s : ℕ} (b : Bool)
    → 2 ^ k % 2 ^ k ≡ 0
    → 2 ^ k / 2 ^ k < 2 ^ 1
    → v ≡ s
    → s / 2 ^ k % 2 ^ 1 ≡ 0
    → set_flag v b k ≡ s + bit b * 2 ^ k
set_flag-sum k true whole fits p free = or_next k 1 p refl free whole fits ∙ omega arith
set_flag-sum k false whole fits p free = p ∙ omega arith

set_field-sum :
    (k : ℕ) {v s : ℕ} (x : ℕ)
    → low_bits x 2 * 2 ^ k % 2 ^ k ≡ 0
    → low_bits x 2 * 2 ^ k / 2 ^ k < 2 ^ 2
    → v ≡ s
    → s / 2 ^ k % 2 ^ 2 ≡ 0
    → set_field v x k ≡ s + low_bits x 2 * 2 ^ k
set_field-sum k x whole fits p free = or_next k 2 p refl free whole fits

all_bits : MStatus → ℕ
all_bits s =
    0
    + bit s.sd * 2 ^ 63
    + bit s.mbe * 2 ^ 37
    + bit s.sbe * 2 ^ 36
    + low_bits s.sxl 2 * 2 ^ 34
    + low_bits s.uxl 2 * 2 ^ 32
    + bit s.tsr * 2 ^ 22
    + bit s.tw * 2 ^ 21
    + bit s.tvm * 2 ^ 20
    + bit s.mxr * 2 ^ 19
    + bit s.sum * 2 ^ 18
    + bit s.mprv * 2 ^ 17
    + low_bits s.xs 2 * 2 ^ 15
    + low_bits s.fs 2 * 2 ^ 13
    + low_bits s.mpp 2 * 2 ^ 11
    + low_bits s.vs 2 * 2 ^ 9
    + bit s.spp * 2 ^ 8
    + bit s.mpie * 2 ^ 7
    + bit s.spie * 2 ^ 5
    + bit s.mie * 2 ^ 3
    + bit s.sie * 2 ^ 1

to_bits-all_bits : (s : MStatus) → to_bits s ≡ all_bits s
unfolding to_bits all_bits
to_bits-all_bits s =
    set_flag-sum 1 s.sie refl (omega arith)
      (set_flag-sum 3 s.mie refl (omega arith)
        (set_flag-sum 5 s.spie refl (omega arith)
          (set_flag-sum 7 s.mpie refl (omega arith)
            (set_flag-sum 8 s.spp refl (omega arith)
              (set_field-sum 9 s.vs (omega arith) (omega arith)
                (set_field-sum 11 s.mpp (omega arith) (omega arith)
                  (set_field-sum 13 s.fs (omega arith) (omega arith)
                    (set_field-sum 15 s.xs (omega arith) (omega arith)
                      (set_flag-sum 17 s.mprv refl (omega arith)
                        (set_flag-sum 18 s.sum refl (omega arith)
                          (set_flag-sum 19 s.mxr refl (omega arith)
                            (set_flag-sum 20 s.tvm refl (omega arith)
                              (set_flag-sum 21 s.tw refl (omega arith)
                                (set_flag-sum 22 s.tsr refl (omega arith)
                                  (set_field-sum 32 s.uxl (omega arith) (omega arith)
                                    (set_field-sum 34 s.sxl (omega arith) (omega arith)
                                      (set_flag-sum 36 s.sbe refl (omega arith)
                                        (set_flag-sum 37 s.mbe refl (omega arith)
                                          (set_flag-sum 63 s.sd refl (omega arith) refl
                                            (omega arith))
                                          (omega arith))
                                        (omega arith))
                                      (omega arith))
                                    (omega arith))
                                  (omega arith))
                                (omega arith))
                              (omega arith))
                            (omega arith))
                          (omega arith))
                        (omega arith))
                      (omega arith))
                    (omega arith))
                  (omega arith))
                (omega arith))
              (omega arith))
            (omega arith))
          (omega arith))
        (omega arith))
      (omega arith)

-- The two-bit fields of the record hold two bits.
abbrev pub HasFields : MStatus → Type 0
HasFields s = (s.sxl < 4) × (s.uxl < 4) × (s.xs < 4) × (s.fs < 4) × (s.mpp < 4) × (s.vs < 4)

flag_of-bit : (b : Bool) (v k : ℕ) → field v k 1 ≡ bit b → flag_of v k ≡ b
flag_of-bit true v k e = ground arith
flag_of-bit false v k e = ground arith

bit-lt : (b : Bool) → bit b < 2
bit-lt true = omega arith
bit-lt false = omega arith

flags_lt :
    (s : MStatus)
    → (bit s.sd < 2)
      × (bit s.mbe < 2)
      × (bit s.sbe < 2)
      × (bit s.tsr < 2)
      × (bit s.tw < 2)
      × (bit s.tvm < 2)
      × (bit s.mxr < 2)
      × (bit s.sum < 2)
      × (bit s.mprv < 2)
      × (bit s.spp < 2)
      × (bit s.mpie < 2)
      × (bit s.spie < 2)
      × (bit s.mie < 2)
      × (bit s.sie < 2)
flags_lt s = (
  bit-lt s.sd,
  bit-lt s.mbe,
  bit-lt s.sbe,
  bit-lt s.tsr,
  bit-lt s.tw,
  bit-lt s.tvm,
  bit-lt s.mxr,
  bit-lt s.sum,
  bit-lt s.mprv,
  bit-lt s.spp,
  bit-lt s.mpie,
  bit-lt s.spie,
  bit-lt s.mie,
  bit-lt s.sie,
)

-- `from_bits` of `to_bits` gives the mstatus back, if its fields of two bits have two bits.
pub from_bits-to_bits : (s : MStatus) → HasFields s → from_bits (to_bits s) ≡ s
unfolding from_bits all_bits
from_bits-to_bits s h =
    let below = flags_lt s in
    let p_sd : flag_of (all_bits s) 63 ≡ s.sd = flag_of-bit s.sd (all_bits s) 63 (omega arith) in
    let p_mbe : flag_of (all_bits s) 37 ≡ s.mbe = flag_of-bit s.mbe (all_bits s) 37 (omega arith) in
    let p_sbe : flag_of (all_bits s) 36 ≡ s.sbe = flag_of-bit s.sbe (all_bits s) 36 (omega arith) in
    let p_sxl : field (all_bits s) 34 2 ≡ s.sxl = omega arith in
    let p_uxl : field (all_bits s) 32 2 ≡ s.uxl = omega arith in
    let p_tsr : flag_of (all_bits s) 22 ≡ s.tsr = flag_of-bit s.tsr (all_bits s) 22 (omega arith) in
    let p_tw : flag_of (all_bits s) 21 ≡ s.tw = flag_of-bit s.tw (all_bits s) 21 (omega arith) in
    let p_tvm : flag_of (all_bits s) 20 ≡ s.tvm = flag_of-bit s.tvm (all_bits s) 20 (omega arith) in
    let p_mxr : flag_of (all_bits s) 19 ≡ s.mxr = flag_of-bit s.mxr (all_bits s) 19 (omega arith) in
    let p_sum : flag_of (all_bits s) 18 ≡ s.sum = flag_of-bit s.sum (all_bits s) 18 (omega arith) in
    let p_mprv : flag_of (all_bits s) 17 ≡ s.mprv =
      flag_of-bit s.mprv (all_bits s) 17 (omega arith) in
    let p_xs : field (all_bits s) 15 2 ≡ s.xs = omega arith in
    let p_fs : field (all_bits s) 13 2 ≡ s.fs = omega arith in
    let p_mpp : field (all_bits s) 11 2 ≡ s.mpp = omega arith in
    let p_vs : field (all_bits s) 9 2 ≡ s.vs = omega arith in
    let p_spp : flag_of (all_bits s) 8 ≡ s.spp = flag_of-bit s.spp (all_bits s) 8 (omega arith) in
    let p_mpie : flag_of (all_bits s) 7 ≡ s.mpie =
      flag_of-bit s.mpie (all_bits s) 7 (omega arith) in
    let p_spie : flag_of (all_bits s) 5 ≡ s.spie =
      flag_of-bit s.spie (all_bits s) 5 (omega arith) in
    let p_mie : flag_of (all_bits s) 3 ≡ s.mie = flag_of-bit s.mie (all_bits s) 3 (omega arith) in
    let p_sie : flag_of (all_bits s) 1 ≡ s.sie = flag_of-bit s.sie (all_bits s) 1 (omega arith) in
    rw (to_bits-all_bits s) (λ i. record {
      sd = p_sd i;
      mbe = p_mbe i;
      sbe = p_sbe i;
      sxl = p_sxl i;
      uxl = p_uxl i;
      tsr = p_tsr i;
      tw = p_tw i;
      tvm = p_tvm i;
      mxr = p_mxr i;
      sum = p_sum i;
      mprv = p_mprv i;
      xs = p_xs i;
      fs = p_fs i;
      mpp = p_mpp i;
      vs = p_vs i;
      spp = p_spp i;
      mpie = p_mpie i;
      spie = p_spie i;
      mie = p_mie i;
      sie = p_sie i;
    })

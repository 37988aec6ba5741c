-- ===== src/Supervisor/Hart/Privileged/Sstatus.antt =====
-- What a write of sstatus does to mstatus.
use tab_linux.Base.{
  ℕ, ◌-◌, ◌/◌, ◌%◌, ◌^◌, bit_and, bit_or, ◌≡◌, refl, ap, ◌∙◌, Bool, not, arith, ◌==◌, field,
  bit_and-digit, bit_or-digit,
}
use tab_linux.Supervisor.Registers.{from_bits-to_bits, HasFields}
use tab_linux.Supervisor.{MStatus, flag_of, from_bits, to_bits}
use tab_linux.Supervisor.Hart.Csr.{sstatus_mask, without, write_sstatus}

-- The digit at a place that the mask does not hold is that of the word before.
digit_kept :
    (k x v mask : ℕ)
    → (2 ^ 64 - 1 - mask) / 2 ^ k % 2 ≡ 1
    → mask / 2 ^ k % 2 ≡ 0
    → bit_or (without x mask) (bit_and v mask) / 2 ^ k % 2 ≡ x / 2 ^ k % 2
digit_kept k x v mask kept free =
    let either = bit_or-digit k (without x mask) (bit_and v mask) in
    let left = bit_and-digit k x (2 ^ 64 - 1 - mask) in
    let right = bit_and-digit k v mask in omega (arith, either, left, right, kept, free)

abbrev merged : (val : ℕ) → MStatus → ℕ
merged val s = bit_or (without (to_bits s) sstatus_mask) (bit_and val sstatus_mask)

flag_kept :
    (k x v mask : ℕ)
    → (2 ^ 64 - 1 - mask) / 2 ^ k % 2 ≡ 1
    → mask / 2 ^ k % 2 ≡ 0
    → flag_of (bit_or (without x mask) (bit_and v mask)) k ≡ flag_of x k
flag_kept k x v mask kept free = ap (λ (d : ℕ). not (d == 0)) (digit_kept k x v mask kept free)

-- The fields of mstatus that sstatus does not show.
abbrev pub MachineFields : Type 0
MachineFields = Bool × Bool × Bool × Bool × Bool × Bool × Bool × Bool

abbrev pub machine_fields : MStatus → MachineFields
machine_fields s = (s.mie, s.mpie, s.mprv, s.tvm, s.tw, s.tsr, s.sbe, s.mbe)

-- A write of sstatus, whatever the value, leaves MIE, MPIE, MPRV, TVM, TW, TSR, SBE, MBE and MPP of
-- mstatus as they are, if the fields of two bits have two bits.
pub write_sstatus-machine_fields :
    (val : ℕ) (s : MStatus)
    → HasFields s
    → (machine_fields (write_sstatus val s) ≡ machine_fields s)
      × ((write_sstatus val s).mpp ≡ s.mpp)
unfolding write_sstatus from_bits
write_sstatus-machine_fields val s fields =
    let same = from_bits-to_bits s fields in
    let p_mie : flag_of (merged val s) 3 ≡ s.mie =
      flag_kept 3 (to_bits s) val sstatus_mask refl refl ∙ ap (λ (r : MStatus). r.mie) same in
    let p_mpie : flag_of (merged val s) 7 ≡ s.mpie =
      flag_kept 7 (to_bits s) val sstatus_mask refl refl ∙ ap (λ (r : MStatus). r.mpie) same in
    let p_mprv : flag_of (merged val s) 17 ≡ s.mprv =
      flag_kept 17 (to_bits s) val sstatus_mask refl refl ∙ ap (λ (r : MStatus). r.mprv) same in
    let p_tvm : flag_of (merged val s) 20 ≡ s.tvm =
      flag_kept 20 (to_bits s) val sstatus_mask refl refl ∙ ap (λ (r : MStatus). r.tvm) same in
    let p_tw : flag_of (merged val s) 21 ≡ s.tw =
      flag_kept 21 (to_bits s) val sstatus_mask refl refl ∙ ap (λ (r : MStatus). r.tw) same in
    let p_tsr : flag_of (merged val s) 22 ≡ s.tsr =
      flag_kept 22 (to_bits s) val sstatus_mask refl refl ∙ ap (λ (r : MStatus). r.tsr) same in
    let p_sbe : flag_of (merged val s) 36 ≡ s.sbe =
      flag_kept 36 (to_bits s) val sstatus_mask refl refl ∙ ap (λ (r : MStatus). r.sbe) same in
    let p_mbe : flag_of (merged val s) 37 ≡ s.mbe =
      flag_kept 37 (to_bits s) val sstatus_mask refl refl ∙ ap (λ (r : MStatus). r.mbe) same in
    let low = digit_kept 11 (to_bits s) val sstatus_mask refl refl in
    let high = digit_kept 12 (to_bits s) val sstatus_mask refl refl in
    let mpp : field (to_bits s) 11 2 ≡ s.mpp = ap (λ (r : MStatus). r.mpp) same in
    let p_mpp : field (merged val s) 11 2 ≡ s.mpp = omega (arith, low, high, mpp) in
    ((λ i. (p_mie i, p_mpie i, p_mprv i, p_tvm i, p_tw i, p_tsr i, p_sbe i, p_mbe i)), p_mpp)

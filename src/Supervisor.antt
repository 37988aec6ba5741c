-- ===== src/Supervisor.antt =====
-- crates/riscv-supervisor/src/types.rs: the privilege levels, the kinds of access, and the registers
-- mstatus and satp with the words they are read and written as.
pub mod Registers
pub mod SatpWord
pub mod Tlb
pub mod Mmu
pub mod Walk
pub mod Translate
pub mod Sbi
pub mod Hart
use tab_linux.Base.{
  ℕ, ◌*◌, ◌^◌, bit_or, Bool, false, not, ◌||◌, ◌==◌, if◌then◌else◌, low_bits, field,
}
use tab_linux.Isa.{Trap}

pub data Privilege : Type 0 where
  user supervisor machine : Privilege

pub data AccessType : Type 0 where
  instruction load store : AccessType

-- `Result<A, Trap>`.
pub data Result {ℓ} (A : Type ℓ) : Type ℓ where
  ok : A → Result A
  err : Trap → Result A

pub record MStatus : Type 0 where
  pub sd : Bool
  pub mbe : Bool
  pub sbe : Bool
  pub sxl : ℕ
  pub uxl : ℕ
  pub tsr : Bool
  pub tw : Bool
  pub tvm : Bool
  pub mxr : Bool
  pub sum : Bool
  pub mprv : Bool
  pub xs : ℕ
  pub fs : ℕ
  pub mpp : ℕ
  pub vs : ℕ
  pub spp : Bool
  pub mpie : Bool
  pub spie : Bool
  pub mie : Bool
  pub sie : Bool

-- `if flag { val |= 1 << k; }` and `val |= (x as u64 & 0x3) << k;`
abbrev pub set_flag : ℕ → Bool → ℕ → ℕ
set_flag val flag k = if flag then bit_or val (2 ^ k) else val

abbrev pub set_field : ℕ → ℕ → ℕ → ℕ
set_field val x k = bit_or val (low_bits x 2 * 2 ^ k)

-- `(val >> k) & 1 != 0`
abbrev pub flag_of : ℕ → ℕ → Bool
flag_of val k = not (field val k 1 == 0)

unfoldable pub to_bits : MStatus → ℕ
to_bits s =
    let val_sd : ℕ = set_flag 0 s.sd 63 in
    let val_mbe : ℕ = set_flag val_sd s.mbe 37 in
    let val_sbe : ℕ = set_flag val_mbe s.sbe 36 in
    let val_sxl : ℕ = set_field val_sbe s.sxl 34 in
    let val_uxl : ℕ = set_field val_sxl s.uxl 32 in
    let val_tsr : ℕ = set_flag val_uxl s.tsr 22 in
    let val_tw : ℕ = set_flag val_tsr s.tw 21 in
    let val_tvm : ℕ = set_flag val_tw s.tvm 20 in
    let val_mxr : ℕ = set_flag val_tvm s.mxr 19 in
    let val_sum : ℕ = set_flag val_mxr s.sum 18 in
    let val_mprv : ℕ = set_flag val_sum s.mprv 17 in
    let val_xs : ℕ = set_field val_mprv s.xs 15 in
    let val_fs : ℕ = set_field val_xs s.fs 13 in
    let val_mpp : ℕ = set_field val_fs s.mpp 11 in
    let val_vs : ℕ = set_field val_mpp s.vs 9 in
    let val_spp : ℕ = set_flag val_vs s.spp 8 in
    let val_mpie : ℕ = set_flag val_spp s.mpie 7 in
    let val_spie : ℕ = set_flag val_mpie s.spie 5 in
    let val_mie : ℕ = set_flag val_spie s.mie 3 in set_flag val_mie s.sie 1

unfoldable pub from_bits : ℕ → MStatus
from_bits val = record {
  sd = flag_of val 63;
  mbe = flag_of val 37;
  sbe = flag_of val 36;
  sxl = field val 34 2;
  uxl = field val 32 2;
  tsr = flag_of val 22;
  tw = flag_of val 21;
  tvm = flag_of val 20;
  mxr = flag_of val 19;
  sum = flag_of val 18;
  mprv = flag_of val 17;
  xs = field val 15 2;
  fs = field val 13 2;
  mpp = field val 11 2;
  vs = field val 9 2;
  spp = flag_of val 8;
  mpie = flag_of val 7;
  spie = flag_of val 5;
  mie = flag_of val 3;
  sie = flag_of val 1;
}

-- `MStatus::default`.
abbrev pub default_mstatus : MStatus
default_mstatus = record {
  sd = false;
  mbe = false;
  sbe = false;
  sxl = 2;
  uxl = 2;
  tsr = false;
  tw = false;
  tvm = false;
  mxr = false;
  sum = false;
  mprv = false;
  xs = 0;
  fs = 0;
  mpp = 0;
  vs = 0;
  spp = false;
  mpie = false;
  spie = false;
  mie = false;
  sie = false;
}

pub record Satp : Type 0 where
  pub mode : ℕ
  pub asid : ℕ
  pub ppn : ℕ

unfoldable pub satp_to_bits : Satp → ℕ
satp_to_bits s =
    bit_or (bit_or (low_bits s.mode 4 * 2 ^ 60) (low_bits s.asid 16 * 2 ^ 44)) (low_bits s.ppn 44)

unfoldable pub satp_from_bits : ℕ → Satp
satp_from_bits val = record {
  mode = if field val 60 4 == 0 || field val 60 4 == 8 then field val 60 4 else 0;
  asid = field val 44 16;
  ppn = low_bits val 44;
}

-- `Satp::default`.
abbrev pub default_satp : Satp
default_satp = record { mode = 0; asid = 0; ppn = 0 }

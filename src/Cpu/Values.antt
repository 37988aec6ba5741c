-- ===== src/Cpu/Values.antt =====
-- crates/riscv-core/src/execute.rs: the values that the arms of `execute_width` compute. Words are
-- bit patterns; `as i32 as i64 as u64` is `sext 32`.
use tab_linux.Base.{
  ℕ, ◌+◌, ◌-◌, ◌*◌, ◌/◌, ◌%◌, ◌^◌, Bool, true, false, ◌&&◌, Option, none, some, ltb, ◌==◌,
  if◌then◌else◌, u32, u64, shr, sar, sext, slt, neg, magnitude, shl,
}

-- The 64-bit word as an `i128`.
abbrev pub sext_128 : ℕ → ℕ
sext_128 x = if ltb x (2 ^ 63) then x else x + 2 ^ 128 - 2 ^ 64

abbrev pub from_bool : Bool → ℕ
from_bool true = 1
from_bool false = 0

unfoldable pub wrapping_add : ℕ → ℕ → ℕ
wrapping_add a b = u64 (a + b)

unfoldable pub wrapping_sub : ℕ → ℕ → ℕ
wrapping_sub a b = u64 (a + 2 ^ 64 - b)

-- A shift that overflows its width panics in a checked build; `none` is that panic.
unfoldable pub checked_shl : ℕ → ℕ → ℕ → Option ℕ
checked_shl w a sh = if ltb sh w then some (shl w a sh) else none

unfoldable pub checked_shr : ℕ → ℕ → ℕ → Option ℕ
checked_shr w a sh = if ltb sh w then some (shr a sh) else none

unfoldable pub checked_sar : ℕ → ℕ → ℕ → Option ℕ
checked_sar w a sh = if ltb sh w then some (sar w a sh) else none

unfoldable pub mul : ℕ → ℕ → ℕ
mul a b = u64 (a * b)

unfoldable pub mulh : ℕ → ℕ → ℕ
mulh a b = u64 (sar 128 (sext_128 a * sext_128 b % 2 ^ 128) 64)

-- The product wraps at 2 ^ 128, as in a build without overflow checks.
unfoldable pub mulhsu : ℕ → ℕ → ℕ
mulhsu a b = u64 (shr (sext_128 a * b % 2 ^ 128) 64)

unfoldable pub mulhu : ℕ → ℕ → ℕ
mulhu a b = u64 (shr (a * b) 64)

-- `a / b` and `a % b` of signed words, which round towards zero.
abbrev pub quot_signed : ℕ → ℕ → ℕ → ℕ
quot_signed w a b =
    let q = magnitude w a / magnitude w b in
    if ltb a (2 ^ (w - 1))
    then (if ltb b (2 ^ (w - 1)) then q else neg w q)
    else (if ltb b (2 ^ (w - 1)) then neg w q else q)

abbrev pub rem_signed : ℕ → ℕ → ℕ → ℕ
rem_signed w a b =
    let r = magnitude w a % magnitude w b in if ltb a (2 ^ (w - 1)) then r else neg w r

unfoldable pub div : ℕ → ℕ → ℕ
div a b =
    if b == 0 then 2 ^ 64 - 1 else if a == 2 ^ 63 && b == 2 ^ 64 - 1 then a else quot_signed 64 a b

unfoldable pub divu : ℕ → ℕ → ℕ
divu a b = if b == 0 then 2 ^ 64 - 1 else a / b

unfoldable pub rem : ℕ → ℕ → ℕ
rem a b = if b == 0 then a else if a == 2 ^ 63 && b == 2 ^ 64 - 1 then 0 else rem_signed 64 a b

unfoldable pub remu : ℕ → ℕ → ℕ
remu a b = if b == 0 then a else a % b

unfoldable pub mulw : ℕ → ℕ → ℕ
mulw a b = sext 32 (u32 (u32 a * u32 b))

unfoldable pub divw : ℕ → ℕ → ℕ
divw ra rb =
    let a = u32 ra in
    let b = u32 rb in
    if b == 0
    then 2 ^ 64 - 1
    else if a == 2 ^ 31 && b == 2 ^ 32 - 1
    then sext 32 a
    else sext 32 (quot_signed 32 a b)

unfoldable pub divuw : ℕ → ℕ → ℕ
divuw ra rb = let a = u32 ra in let b = u32 rb in if b == 0 then 2 ^ 64 - 1 else sext 32 (a / b)

unfoldable pub remw : ℕ → ℕ → ℕ
remw ra rb =
    let a = u32 ra in
    let b = u32 rb in
    if b == 0
    then sext 32 a
    else if a == 2 ^ 31 && b == 2 ^ 32 - 1
    then 0
    else sext 32 (rem_signed 32 a b)

unfoldable pub remuw : ℕ → ℕ → ℕ
remuw ra rb = let a = u32 ra in let b = u32 rb in if b == 0 then sext 32 a else sext 32 (a % b)

-- What the minimum and maximum atomics store, from the old value and the register.
unfoldable pub amo_min : ℕ → ℕ → ℕ → ℕ
amo_min w old new = if slt w old new then old else new

unfoldable pub amo_max : ℕ → ℕ → ℕ → ℕ
amo_max w old new = if slt w new old then old else new

unfoldable pub amo_minu : ℕ → ℕ → ℕ
amo_minu old new = if ltb old new then old else new

unfoldable pub amo_maxu : ℕ → ℕ → ℕ
amo_maxu old new = if ltb new old then old else new

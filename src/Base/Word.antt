-- ===== src/Base/Word.antt =====
-- Machine words as native numbers: a w-bit word is its bit pattern, below 2 ^ w, also where the
-- source's type is signed. Shifts and masks are quotients and remainders by powers of two.
use Prim.Native.Nat.{ℕ, ◌+◌, ◌-◌, ◌*◌, ◌/◌, ◌%◌, ◌^◌}
use mathlib.Core.Bool.{Bool}
use tab_linux.Base.Tests.{ltb, if◌then◌else◌}

abbrev pub u8 : ℕ → ℕ
u8 n = n % 2 ^ 8

abbrev pub u16 : ℕ → ℕ
u16 n = n % 2 ^ 16

abbrev pub u32 : ℕ → ℕ
u32 n = n % 2 ^ 32

abbrev pub u64 : ℕ → ℕ
u64 n = n % 2 ^ 64

-- x >> k, logical.
abbrev pub shr : ℕ → ℕ → ℕ
shr x k = x / 2 ^ k

-- x & (2 ^ k - 1).
abbrev pub low_bits : ℕ → ℕ → ℕ
low_bits x k = x % 2 ^ k

-- (x >> lo) & (2 ^ n - 1).
abbrev pub field : ℕ → ℕ → ℕ → ℕ
field x lo n = x / 2 ^ lo % 2 ^ n

-- x >> k for a signed w-bit word: the sign bit is copied in from the left.
abbrev pub sar : ℕ → ℕ → ℕ → ℕ
sar w x k = if ltb x (2 ^ (w - 1)) then x / 2 ^ k else 2 ^ w - 1 - (2 ^ w - 1 - x) / 2 ^ k

-- The n-bit signed word x as a 64-bit one.
abbrev pub sext : ℕ → ℕ → ℕ
sext n x = if ltb x (2 ^ (n - 1)) then x else x + 2 ^ 64 - 2 ^ n

-- x < y on signed w-bit words.
abbrev pub slt : ℕ → ℕ → ℕ → Bool
slt w x y = ltb ((x + 2 ^ (w - 1)) % 2 ^ w) ((y + 2 ^ (w - 1)) % 2 ^ w)

-- The pattern of minus x, and of the quantity that a signed word has without its sign.
abbrev pub neg : ℕ → ℕ → ℕ
neg w x = (2 ^ w - x) % 2 ^ w

abbrev pub magnitude : ℕ → ℕ → ℕ
magnitude w x = if ltb x (2 ^ (w - 1)) then x else 2 ^ w - x

-- x << k in a w-bit word.
abbrev pub shl : ℕ → ℕ → ℕ → ℕ
shl w x k = x * 2 ^ k % 2 ^ w

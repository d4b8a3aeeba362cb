-- ===== src/Prelude/Words.antt =====
-- Casts, shifts and wrapping sums of the machine widths.
use Prim.Native.Nat.{ℕ, ◌+◌, ◌-◌, ◌*◌, ◌/◌, ◌%◌, ◌^◌, bit_and, bit_or, compare, Ordering}
use mathlib.Core.Bool.{Bool, true, false}

abbrev pub u8 : ℕ → ℕ
u8 n = n % 2 ^ 8

abbrev pub u16 : ℕ → ℕ
u16 n = n % 2 ^ 16

abbrev pub u32 : ℕ → ℕ
u32 n = n % 2 ^ 32

abbrev pub u64 : ℕ → ℕ
u64 n = n % 2 ^ 64

-- Shifts, before the cast to the width of the result.
infixl 75 ◌<<<◌ ◌>>>◌
abbrev pub ◌<<<◌ : ℕ → ℕ → ℕ
x <<< k = x * 2 ^ k

abbrev pub ◌>>>◌ : ℕ → ℕ → ℕ
x >>> k = x / 2 ^ k

-- `usize::wrapping_add` on a 64-bit target.
abbrev pub wrapping_add : ℕ → ℕ → ℕ
wrapping_add a b = u64 (a + b)

-- `!x`, `x << k` and `x - y` on 32 bits.
abbrev pub not32 : ℕ → ℕ
not32 x = 2 ^ 32 - 1 - x

abbrev pub shl32 : ℕ → ℕ → ℕ
shl32 x k = u32 (x <<< k)

abbrev pub sub32 : ℕ → ℕ → ℕ
sub32 x y = u32 (x + 2 ^ 32 - y)

-- `&` and `|`, which bind looser than shifts and tighter than comparisons.
infixl 60 ◌&&&◌
abbrev pub ◌&&&◌ : ℕ → ℕ → ℕ
x &&& y = bit_and x y

infixl 55 ◌|||◌
abbrev pub ◌|||◌ : ℕ → ℕ → ℕ
x ||| y = bit_or x y

-- `x & mask != 0`
abbrev pub any_of : ℕ → ℕ → Bool
any_of x mask = elim (compare (x &&& mask) 0) [ Ordering.eq ↦ false | _ ↦ true ]

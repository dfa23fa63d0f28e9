-- ===== src/Common/Word.antt =====
-- Machine words as native numbers: the wrapping operations of `u8`, `u16`, `u32` and `u64`.
use Prim.Native.Nat.{ℕ, ◌+◌, ◌-◌, ◌*◌, ◌/◌, ◌%◌, ◌^◌, ◌<◌, min}

abbrev pub IsByte : ℕ → Type 0
IsByte b = b < 256

abbrev pub IsU16 : ℕ → Type 0
IsU16 v = v < 2 ^ 16

abbrev pub IsU32 : ℕ → Type 0
IsU32 v = v < 2 ^ 32

abbrev pub IsU64 : ℕ → Type 0
IsU64 v = v < 2 ^ 64

-- `x as u8`
abbrev pub u8 : ℕ → ℕ
u8 x = x % 256

abbrev pub u32_max : ℕ
u32_max = 2 ^ 32 - 1

-- `a.wrapping_add(b)` and `a.wrapping_sub(b)` on `u32`
abbrev pub wrapping_add : ℕ → ℕ → ℕ
wrapping_add a b = (a + b) % 2 ^ 32

abbrev pub wrapping_sub : ℕ → ℕ → ℕ
wrapping_sub a b = (a + 2 ^ 32 - b) % 2 ^ 32

-- `a.saturating_add(b)` on `u64`
abbrev pub saturating_add_u64 : ℕ → ℕ → ℕ
saturating_add_u64 a b = min (a + b) (2 ^ 64 - 1)

-- `x >> k`, and `x << k` before the width cuts it
infixl 60 ◌<<◌ ◌>>>◌
abbrev pub ◌>>>◌ : ℕ → ℕ → ℕ
x >>> k = x / 2 ^ k

abbrev pub ◌<<◌ : ℕ → ℕ → ℕ
x << k = x * 2 ^ k

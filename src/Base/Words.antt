-- ===== src/Base/Words.antt =====
-- Casts between the machine integers of the language. A signed integer is its bit pattern: -1 as
-- an i32 is 2 ^ 32 - 1.
use Prim.Native.Nat.{ℕ, ◌+◌, ◌-◌, ◌%◌, ◌^◌, ◌<◌}
use mathlib.Core.Path.{◌≡◌}
use mathlib.Core.Bool.{Bool}
use native.Mathlib.Omega.{arith}
use zksrv.Base.Tests.{ltb, if◌then◌else◌}

-- `n as i32`, for a usize.
abbrev pub as_i32 : ℕ → ℕ
as_i32 n = n % 2 ^ 32

-- `w as usize`, for an i32: the sign is extended to 64 bits.
abbrev pub as_usize : ℕ → ℕ
as_usize w = if ltb w (2 ^ 31) then w else w + (2 ^ 64 - 2 ^ 32)

-- The i32 literal -n.
abbrev pub neg_i32 : ℕ → ℕ
neg_i32 n = 2 ^ 32 - n

-- `a < b` on i32: adding 2 ^ 31 turns the signed order into the unsigned one.
abbrev pub ltb_i32 : ℕ → ℕ → Bool
ltb_i32 a b = ltb ((a + 2 ^ 31) % 2 ^ 32) ((b + 2 ^ 31) % 2 ^ 32)

pub as_usize-as_i32 : (n : ℕ) → n < 2 ^ 31 → as_usize (as_i32 n) ≡ n
as_usize-as_i32 n h = ground arith

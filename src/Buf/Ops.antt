-- ===== src/Buf/Ops.antt =====
-- The operations of the crate `bytes` as calls on a buffer, and the allocations of `Vec`.
pub mod Laws
use zksrv.Base.{ℕ, ◌^◌, Option, none, some, List, [], ◌∷◌, length, ltb, if◌then◌else◌}
use zksrv.Errors.{ok, panic}
use zksrv.Bytes.{ByteOps}
use zksrv.Buf.{Buf, pure, abort}

module _ {E A : Type 0} where
  -- A library call that panics on too short a buffer.
  unfoldable pub or_panic : (List ℕ → Option (A × List ℕ)) → Buf E A
  or_panic f buf = elim (f buf) [ some r ↦ ok r | none ↦ panic ]

module _ {E : Type 0} where
  -- A call that only writes.
  unfoldable pub write : (List ℕ → List ℕ) → Buf E (Unit {0})
  write f buf = ok (tt, f buf)

  -- Room for `n` elements: more than `isize::MAX` bytes is a panic.
  unfoldable pub alloc : ℕ → Buf E (Unit {0})
  alloc n = if ltb n (2 ^ 63) then pure tt else abort

-- `bytes.len()`.
unfoldable pub remaining : {E : Type 0} → Buf E ℕ
remaining buf = ok (length buf, buf)

-- `assert!(src.is_empty())`.
unfoldable pub assert_empty : {E : Type 0} → Buf E (Unit {0})
assert_empty [] = ok (tt, [])
assert_empty (x ∷ xs) = panic

module _ ⦃b : ByteOps⦄ {E : Type 0} where
  unfoldable pub put_u8 : ℕ → Buf E (Unit {0})
  put_u8 v = write (b.put_u8 v)

  unfoldable pub put_i32 : ℕ → Buf E (Unit {0})
  put_i32 v = write (b.put_i32 v)

  unfoldable pub put_i64 : ℕ → Buf E (Unit {0})
  put_i64 v = write (b.put_i64 v)

  unfoldable pub put_slice : List ℕ → Buf E (Unit {0})
  put_slice bs = write (b.put_slice bs)

  unfoldable pub get_u8 : Buf E ℕ
  get_u8 = or_panic b.get_u8

  unfoldable pub get_i32 : Buf E ℕ
  get_i32 = or_panic b.get_i32

  unfoldable pub get_i64 : Buf E ℕ
  get_i64 = or_panic b.get_i64

  unfoldable pub copy_to_slice : ℕ → Buf E (List ℕ)
  copy_to_slice n = or_panic (b.copy_to_slice n)

  unfoldable pub split_to : ℕ → Buf E (List ℕ)
  split_to n = or_panic (b.split_to n)

  unfoldable pub reserve : ℕ → Buf E (Unit {0})
  reserve n = or_panic (b.reserve n)

  unfoldable pub advance : ℕ → Buf E (Unit {0})
  advance n = or_panic (b.advance n)

-- ===== src/Bytes.antt =====
-- The crate `bytes`, which the program calls and does not implement: the operations of `Buf`,
-- `BufMut` and `BytesMut` that it uses, with what their documentation says of them. The contents of
-- a buffer are the list of the bytes that are still to be read.
pub mod Concrete
use zksrv.Base.{
  ℕ, ◌%◌, ◌+◌, ◌^◌, ltb, leb, ◌&&◌, if◌then◌else◌, ◌≤◌, ◌<◌, ◌≡◌, Option, none, some, List, [], ◌∷◌,
  ◌++◌, length, to_be_bytes, to_le_bytes, from_be_bytes, from_le_bytes,
}

-- `f` panics on fewer than `n` bytes, and otherwise takes `n` bytes off the front.
pub record Takes {A : Type 0} (n : ℕ) (f : List ℕ → Option (A × List ℕ)) (value : List ℕ → A)
    : Type 0 where
  pub short : (buf : List ℕ) → length buf < n → f buf ≡ none
  pub takes : (bs rest : List ℕ) → length bs ≡ n → f (bs ++ rest) ≡ some (value bs, rest)

-- `none` is a panic. `put_*` grow the buffer, and do not panic.
pub record ByteOps : Type 0 where
  pub put_u8 : ℕ → List ℕ → List ℕ
  pub put_i32 : ℕ → List ℕ → List ℕ
  pub put_i64 : ℕ → List ℕ → List ℕ
  pub put_slice : List ℕ → List ℕ → List ℕ
  pub extend_from_slice : List ℕ → List ℕ → List ℕ
  pub put_uint : ℕ → ℕ → List ℕ → List ℕ
  pub put_uint_le : ℕ → ℕ → List ℕ → List ℕ
  pub get_u8 : List ℕ → Option (ℕ × List ℕ)
  pub get_i32 : List ℕ → Option (ℕ × List ℕ)
  pub get_i64 : List ℕ → Option (ℕ × List ℕ)
  pub get_uint : ℕ → List ℕ → Option (ℕ × List ℕ)
  pub get_uint_le : ℕ → List ℕ → Option (ℕ × List ℕ)
  pub copy_to_slice : ℕ → List ℕ → Option (List ℕ × List ℕ)
  pub split_to : ℕ → List ℕ → Option (List ℕ × List ℕ)
  pub advance : ℕ → List ℕ → Option (Unit {0} × List ℕ)
  -- Room for so many bytes behind those that are there.
  pub reserve : ℕ → List ℕ → Option (Unit {0} × List ℕ)
  pub put_u8_lem : (v : ℕ) (buf : List ℕ) → put_u8 v buf ≡ buf ++ to_be_bytes 1 v
  pub put_i32_lem : (v : ℕ) (buf : List ℕ) → put_i32 v buf ≡ buf ++ to_be_bytes 4 v
  pub put_i64_lem : (v : ℕ) (buf : List ℕ) → put_i64 v buf ≡ buf ++ to_be_bytes 8 v
  pub put_slice_lem : (bs buf : List ℕ) → put_slice bs buf ≡ buf ++ bs
  pub extend_from_slice_lem : (bs buf : List ℕ) → extend_from_slice bs buf ≡ buf ++ bs
  pub put_uint_lem : (v n : ℕ) (buf : List ℕ) → n ≤ 8 → put_uint v n buf ≡ buf ++ to_be_bytes n v
  pub put_uint_le_lem :
      (v n : ℕ) (buf : List ℕ) → n ≤ 8 → put_uint_le v n buf ≡ buf ++ to_le_bytes n v
  pub get_u8_lem : Takes 1 get_u8 from_be_bytes
  pub get_i32_lem : Takes 4 get_i32 from_be_bytes
  pub get_i64_lem : Takes 8 get_i64 from_be_bytes
  pub get_uint_lem : (n : ℕ) → n ≤ 8 → Takes n (get_uint n) from_be_bytes
  pub get_uint_le_lem : (n : ℕ) → n ≤ 8 → Takes n (get_uint_le n) from_le_bytes
  pub copy_to_slice_lem : (n : ℕ) → Takes n (copy_to_slice n) (λ bs. bs)
  pub split_to_lem : (n : ℕ) → Takes n (split_to n) (λ bs. bs)
  pub advance_lem : (n : ℕ) → Takes n (advance n) (λ _. tt)
  -- A buffer that would have to hold more than isize::MAX bytes is a panic.
  pub reserve_lem :
      (n : ℕ) (buf : List ℕ)
      → reserve n buf ≡ (if ltb 0 n && leb (2 ^ 63) (length buf + n) then none else some (tt, buf))

-- ===== src/Jute.antt =====
-- The wire format as a description of its own: ZooKeeper's record encoding ("jute"), by schemas. A
-- schema says what values a message holds, which of them can be sent, and the bytes they are sent
-- as. `reader` joins the program's own reading functions along a schema.
pub mod Conform
pub mod RoundTrip
pub mod Ends
pub mod Traits
pub mod Canonical
use zksrv.Base.{
  ℕ, ◌+◌, ◌^◌, ◌<◌, ◌≡◌, true, List, [], ◌∷◌, ◌++◌, length, as_i32, to_be_bytes, IsByte, All,
}
use zksrv.Text.{String, is_utf8}
use zksrv.Errors.{ZkError}
use zksrv.Bytes.{ByteOps}
use zksrv.Buf.{Buf, pure, ◌>>=◌}
use zksrv.Buf.Ops.{get_u8, get_i32, get_i64}
use zksrv.Record.{Deserialize, deserialize, vec_deserialize, string_deserialize, bytes_deserialize}

infixr 60 ◌⊗◌
pub data Jute : Type 0 where
  byte int long ustring buffer : Jute
  vector : Jute → Jute
  ◌⊗◌ : Jute → Jute → Jute

abbrev pub Value : Jute → Type 0
Value byte = ℕ
Value int = ℕ
Value long = ℕ
Value ustring = String
Value buffer = List ℕ
Value (vector j) = List (Value j)
Value (j ⊗ k) = Value j × Value k

-- The bytes of each element, one after the other.
unfoldable pub encode_items : {A : Type 0} → (A → List ℕ) → List A → List ℕ
encode_items f [] = []
encode_items f (x ∷ xs) = f x ++ encode_items f xs

-- Integers are sent with the most significant byte first, and a text, a buffer or a vector behind
-- its length as an int.
abbrev pub encode : (j : Jute) → Value j → List ℕ
encode byte v = to_be_bytes 1 v
encode int v = to_be_bytes 4 v
encode long v = to_be_bytes 8 v
encode ustring s = to_be_bytes 4 (as_i32 (length s.as_bytes)) ++ s.as_bytes
encode buffer bs = to_be_bytes 4 (as_i32 (length bs)) ++ bs
encode (vector j) vs = to_be_bytes 4 (as_i32 (length vs)) ++ encode_items (encode j) vs
encode (j ⊗ k) p = encode j p.0 ++ encode k p.1

-- The values that the types of the program can hold and an i32 length can count.
abbrev pub IsSendable : (j : Jute) → Value j → Type 0
IsSendable byte v = v < 2 ^ 8
IsSendable int v = v < 2 ^ 32
IsSendable long v = v < 2 ^ 64
IsSendable ustring s =
    (is_utf8 s.as_bytes ≡ true) × (length s.as_bytes < 2 ^ 31) × All IsByte s.as_bytes
IsSendable buffer bs = (length bs < 2 ^ 31) × All IsByte bs
IsSendable (vector j) vs = (length vs < 2 ^ 31) × All (IsSendable j) vs
IsSendable (j ⊗ k) p = IsSendable j p.0 × IsSendable k p.1

abbrev pub reader : ⦃b : ByteOps⦄ (j : Jute) → Buf ZkError (Value j)
reader byte = get_u8
reader int = get_i32
reader long = get_i64
reader ustring = deserialize ⦃d = string_deserialize⦄
reader buffer = deserialize ⦃d = bytes_deserialize⦄
reader (vector j) = deserialize ⦃d = vec_deserialize ⦃d = record { deserialize = reader j }⦄⦄
reader (j ⊗ k) = do v ← reader j; w ← reader k; pure (v, w)

-- ===== src/Codec/Request/RoundTrip.antt =====
-- codec.rs: a transaction is written and read back, in the program's own terms.
use zksrv.Base.{ℕ, ◌≡◌, List, [], ◌++◌, length, All, IsByte}
use zksrv.Errors.{ok}
use zksrv.Bytes.{ByteOps}
use zksrv.Record.{serialize_into, size, deserialize}
use zksrv.Constants.{Codes}
use zksrv.Codec.Request.{
  MultiRequest, multi, request_serialize, serialize_request, size_request, multi_request_serialize,
  multi_request_deserialize,
}
use zksrv.Codec.Request.Wire.{
  encode_request, encode_multi, serialize_request-encode, size_request-length,
}
use zksrv.Codec.Request.Reading.{IsMulti}
use zksrv.Codec.Request.Total.{multi-Reads, IsMulti-Takes}

module _ ⦃b : ByteOps⦄ where
  serialize_multi_lem :
      (r : MultiRequest) (out : List ℕ) → serialize_into r out ≡ ok (tt, out ++ encode_multi r)
  unfolding multi_request_serialize
  serialize_multi_lem r out =
      unfold serialize_request encode_request in serialize_request-encode (multi r) out

  size_multi_lem : (r : MultiRequest) → size r ≡ length (encode_multi r)
  unfolding multi_request_serialize
  size_multi_lem r = unfold size_request encode_request in size_request-length (multi r)

  module _ ⦃c : Codes⦄ where
    -- A transaction whose values can be sent, whose headers announce its operations, and whose
    -- last header alone is marked as done, is written at the end of any buffer as `size` many
    -- bytes, and these are read back as the same transaction whatever follows them, which is
    -- left.
    pub multi-round_trip :
        (r : MultiRequest) (out rest : List ℕ)
        → IsMulti r
        → (bs : List ℕ) × (serialize_into r out ≡ ok (tt, out ++ bs))
          × (size r ≡ length bs)
          × (deserialize (bs ++ rest) ≡ ok (r, rest))
    multi-round_trip r out rest good =
        (encode_multi r, serialize_multi_lem r out, size_multi_lem r, multi-Reads r good rest)

    -- When bytes are read as a transaction, its headers announce its operations and the last alone
    -- is marked as done, and the bytes that were taken are those that it is written as.
    pub IsMulti-canonical :
        (r : MultiRequest) (buf rest : List ℕ)
        → All IsByte buf
        → deserialize buf ≡ ok (r, rest)
        → IsMulti r × (bs : List ℕ) × (serialize_into r [] ≡ ok (tt, bs)) × (buf ≡ bs ++ rest)
    IsMulti-canonical r buf rest bytes h =
        let (good, whole) = IsMulti-Takes buf r rest bytes h in
        (good, encode_multi r, serialize_multi_lem r [], whole)

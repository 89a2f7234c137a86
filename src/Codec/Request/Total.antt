-- ===== src/Codec/Request/Total.antt =====
-- codec.rs: `MultiRequest::deserialize` as a whole: round trip, what it takes, and that it ends.
use zksrv.Base.{
  suc, ◌≤◌, ◌≡◌, refl, sym, ◌∙◌, ◌++◌, subst, length, length-append, arith, All, IsByte,
}
use zksrv.Errors.{ok-injective}
use zksrv.Bytes.{ByteOps}
use zksrv.Buf.{pure, bind-ok, bind-eq-ok}
use zksrv.Buf.Ops.{remaining}
use zksrv.Record.{deserialize}
use zksrv.Constants.{Codes}
use zksrv.Jute.RoundTrip.{Reads}
use zksrv.Jute.Canonical.{Takes}
use zksrv.Jute.Conform.{encoding}
use zksrv.Proto.Headers.{MultiHeader, multi_header_serialize, multi_header_deserialize}
use zksrv.Proto.Headers.Wire.{multi_header_encodable, multi_header_conforms}
use zksrv.Codec.Request.{
  MultiRequest, Ops, multi_request, deserialize_ops, multi_request_deserialize,
}
use zksrv.Codec.Request.Wire.{encode_multi, encode_ops, encode_request}
use zksrv.Codec.Request.Reading.{IsMulti}
use zksrv.Codec.Request.Multi.{count_ops, deserialize_ops-Reads, deserialize_ops-LoopTakes}

module _ ⦃b : ByteOps⦄ where
  -- A header is nine bytes.
  pub length-header : (h : MultiHeader) → length (encoding h) ≡ 9
  unfolding multi_header_serialize
  length-header h = sym (multi_header_encodable.size_lem h)

  count-le-length : (ops : Ops) → count_ops ops ≤ length (encode_ops ops)
  unfolding encode_ops
  count-le-length Ops.no_ops = omega arith
  count-le-length (Ops.op header req ops) = omega (
    arith,
    count-le-length ops,
    length-header header,
    length-append (encoding header) (encode_request req ++ encode_ops ops),
    length-append (encode_request req) (encode_ops ops),
  )

module _ ⦃b : ByteOps⦄ ⦃c : Codes⦄ where
  -- A transaction that was written is read back, whatever follows it.
  pub multi-Reads : (r : MultiRequest) → IsMulti r → Reads deserialize (encode_multi r) r
  unfolding multi_request_deserialize encode_multi remaining pure
  multi-Reads (multi_request ops done_header) (are, sendable, last) rest =
      let bs = encode_multi (multi_request ops done_header) in
      bind-ok remaining _ _ refl
      ∙ bind-ok (deserialize_ops (suc (length (bs ++ rest)))) _ _ (
          deserialize_ops-Reads (suc (length (bs ++ rest))) done_header are sendable last
            (omega (
              arith,
              count-le-length ops,
              length-append bs rest,
              length-append (encode_ops ops) (encoding done_header),
            ))
            rest)

  -- What is read as a transaction is one, and its bytes are what was taken.
  pub IsMulti-Takes : Takes deserialize encode_multi IsMulti
  unfolding multi_request_deserialize encode_multi remaining pure
  IsMulti-Takes buf r rest bytes h =
      let (len, mid, got, h') = bind-eq-ok remaining _ buf h in
      let same : buf ≡ mid = cc in
      let ((ops, done_header), mid', got', h'') = bind-eq-ok (deserialize_ops (suc len)) _ mid h' in
      let bytes' : All IsByte mid = rw same at bytes in
      let took = deserialize_ops-LoopTakes (suc len) mid ((ops, done_header), mid') bytes' got' in
      rw same (subst (λ p. IsMulti p.0 × (mid ≡ encode_multi p.0 ++ p.1)) (ok-injective h'') took)

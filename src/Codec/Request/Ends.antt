-- ===== src/Codec/Request/Ends.antt =====
-- codec.rs: the loop of `MultiRequest::deserialize` ends.
use zksrv.Base.{
  ℕ, zero, suc, ◌<◌, ◌≡◌, ◌≢◌, refl, ap, Option, none, some, List, length, length-append, arith,
  All, IsByte, ◌==◌, Bool-cases, inl, inr,
}
use zksrv.Errors.{ZkError, Outcome, ok, err, panic, stuck, and_then}
use zksrv.Bytes.{ByteOps}
use zksrv.Buf.{Buf, pure, fail, abort, ◌>>=◌}
use zksrv.Buf.Ops.{remaining}
use zksrv.Record.{deserialize}
use zksrv.Constants.{Codes, OpCodes}
use zksrv.Jute.Ends.{Ends, Ends-bind, Ends-pure, deserialize-Ends}
use zksrv.Jute.Canonical.{rest-IsByte}
use zksrv.Jute.Conform.{encoding}
use zksrv.Jute.Traits.{deserialize-Takes}
use zksrv.Proto.Create.{
  create_request_serialize, create_ttl_request_serialize, delete_request_serialize,
  create_request_deserialize, create_ttl_request_deserialize, delete_request_deserialize,
}
use zksrv.Proto.Create.Wire.{
  create_request_encodable, create_ttl_request_encodable, delete_request_encodable,
  create_request_conforms, create_ttl_request_conforms, delete_request_conforms,
}
use zksrv.Proto.NodeData.{
  exists_request_serialize, get_data_request_serialize, set_data_request_serialize,
  exists_request_deserialize, get_data_request_deserialize, set_data_request_deserialize,
}
use zksrv.Proto.NodeData.Wire.{
  exists_request_encodable, get_data_request_encodable, set_data_request_encodable,
  exists_request_conforms, get_data_request_conforms, set_data_request_conforms,
}
use zksrv.Proto.Children.{get_children_request_serialize, get_children_request_deserialize}
use zksrv.Proto.Children.Wire.{get_children_request_encodable, get_children_request_conforms}
use zksrv.Proto.Watches.{check_watches_request_serialize, check_watches_request_deserialize}
use zksrv.Proto.Watches.Wire.{check_watches_request_encodable, check_watches_request_conforms}
use zksrv.Proto.Headers.{multi_header_serialize, multi_header_deserialize}
use zksrv.Proto.Headers.Wire.{multi_header_encodable, multi_header_conforms}
use zksrv.Codec.Request.{
  Request, MultiRequest, deserialize_request, deserialize_ops, ok_or, multi_request_deserialize,
}
use zksrv.Codec.Request.Wire.{encode_request}
use zksrv.Codec.Request.Reading.{deserialize_request-eq-ok}
use zksrv.Codec.Request.Multi.{op_from_i32-eq-ok}
use zksrv.Codec.Request.Total.{length-header}

-- `m` ends on every buffer of bytes that is shorter than `n`.
abbrev EndsBelow {ℓ} : {A : Type ℓ} → ℕ → Buf ZkError A → Type ℓ
EndsBelow n m = (buf : List ℕ) → All IsByte buf → length buf < n → m buf ≢ stuck

-- The first step ends, and the rest ends on what it leaves.
pub bind-ne-stuck {ℓ κ} :
    {A : Type ℓ} {B : Type κ} (m : Buf ZkError A) (f : A → Buf ZkError B) (buf : List ℕ)
    → m buf ≢ stuck
    → ((a : A) (rest : List ℕ) → m buf ≡ ok (a, rest) → f a rest ≢ stuck)
    → (m >>= f) buf ≢ stuck
unfolding ◌>>=◌
bind-ne-stuck {A = A} m f buf hm hf = split (m buf) refl
  where
    split :
        (r : Outcome ZkError (A × List ℕ)) → m buf ≡ r → and_then r (λ (a, rest). f a rest) ≢ stuck
    split (ok (a, rest)) e = hf a rest e
    split (err x) e = λ p. cc
    split panic e = λ p. cc
    split stuck e = λ p. hm e

module _ ⦃b : ByteOps⦄ where
  pub Ends-request : (o : OpCodes) → Ends (deserialize_request o)
  unfolding deserialize_request abort
  Ends-request OpCodes.create =
      Ends-bind deserialize _ deserialize-Ends (λ r. Ends-pure (Request.create r))
  Ends-request OpCodes.create2 =
      Ends-bind deserialize _ deserialize-Ends (λ r. Ends-pure (Request.create r))
  Ends-request OpCodes.create_ttl =
      Ends-bind deserialize _ deserialize-Ends (λ r. Ends-pure (Request.create_ttl r))
  Ends-request OpCodes.create_container =
      Ends-bind deserialize _ deserialize-Ends (λ r. Ends-pure (Request.create r))
  Ends-request OpCodes.delete =
      Ends-bind deserialize _ deserialize-Ends (λ r. Ends-pure (Request.delete r))
  Ends-request OpCodes.set_data =
      Ends-bind deserialize _ deserialize-Ends (λ r. Ends-pure (Request.set_data r))
  Ends-request OpCodes.check =
      Ends-bind deserialize _ deserialize-Ends (λ r. Ends-pure (Request.check_watches r))
  Ends-request OpCodes.get_children =
      Ends-bind deserialize _ deserialize-Ends (λ r. Ends-pure (Request.get_children r))
  Ends-request OpCodes.exists =
      Ends-bind deserialize _ deserialize-Ends (λ r. Ends-pure (Request.exists r))
  Ends-request OpCodes.get_data =
      Ends-bind deserialize _ deserialize-Ends (λ r. Ends-pure (Request.get_data r))
  Ends-request _ = λ buf h. cc

  pub Ends-ok_or {ℓ} : {A : Type ℓ} (o : Option A) (e : ZkError) → Ends (ok_or o e)
  unfolding ok_or pure fail
  Ends-ok_or none e buf h = cc
  Ends-ok_or (some a) e buf h = cc

module _ ⦃b : ByteOps⦄ ⦃c : Codes⦄ where
  -- Each round takes a header, so that the fuel falls no faster than the input shrinks.
  deserialize_ops-EndsBelow : (fuel : ℕ) → EndsBelow fuel (deserialize_ops fuel)
  unfolding deserialize_ops pure
  deserialize_ops-EndsBelow zero buf bytes h = absurd (omega arith)
  deserialize_ops-EndsBelow (suc fuel) buf bytes h =
      bind-ne-stuck deserialize _ buf (deserialize-Ends buf) λ header mid got.
        let (good, whole) = deserialize-Takes buf header mid bytes got in
        let bytes' = rest-IsByte (encoding header) mid bytes whole in
        let shorter : length mid < fuel =
          omega
            (arith, ap length whole, length-append (encoding header) mid, length-header header) in
        elim (Bool-cases (header.done == 1)) [
          | inl last ↦ rw last (λ p. cc)
          | inr more ↦ rw more (
              bind-ne-stuck _ _ mid (Ends-ok_or _ _ mid) λ o m1 g1.
                bind-ne-stuck _ _ m1 (Ends-request o m1) λ req m2 g2.
                  let same = (op_from_i32-eq-ok header mid o m1 g1).1 in
                  let bytes1 : All IsByte m1 = rw same at bytes' in
                  let w2 = (deserialize_request-eq-ok o m1 req m2 bytes1 g2).1 in
                  let size2 : length m2 < fuel = omega (
                    arith,
                    shorter,
                    ap length same,
                    ap length w2,
                    length-append (encode_request req) m2,
                  ) in
                  bind-ne-stuck (deserialize_ops fuel) _ m2
                    (deserialize_ops-EndsBelow fuel m2
                      (rest-IsByte (encode_request req) m2 bytes1 w2) size2)
                    (λ r rest e p. cc))
        ]

  -- On bytes, reading a transaction ends: with a value, an error or a panic.
  pub multi-ends : (buf : List ℕ) → All IsByte buf → deserialize {A = MultiRequest} buf ≢ stuck
  unfolding multi_request_deserialize remaining pure
  multi-ends buf bytes =
      bind-ne-stuck remaining _ buf (λ p. cc)
        λ len mid got.
          let (same, size) : (buf ≡ mid) × (length buf ≡ len) = ground arith in
          bind-ne-stuck (deserialize_ops (suc len)) _ mid
            (deserialize_ops-EndsBelow (suc len) mid (rw same at bytes)
              (omega (arith, ap length same, size)))
            (λ r rest e p. cc)

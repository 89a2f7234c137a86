-- ===== src/Codec/Request/Multi.antt =====
-- codec.rs: the loop of `MultiRequest::deserialize`.
use zksrv.Base.{
  ℕ, zero, suc, ◌<◌, ◌≡◌, ◌≢◌, sym, ap, ◌∙◌, false, some, List, [], ◌++◌, subst, append_assoc,
  arith, All, IsByte, ◌==◌, Bool-cases, inl, inr, ==_iff,
}
use zksrv.Errors.{ZkError, ok, ok-injective, invalid_op_code}
use zksrv.Bytes.{ByteOps}
use zksrv.Buf.{Buf, pure, fail, give_up, ◌>>=◌, bind-ok, bind-eq-ok}
use zksrv.Record.{deserialize}
use zksrv.Constants.{Codes, OpCodes, op_number}
use zksrv.Jute.RoundTrip.{Reads, Reads-bind}
use zksrv.Jute.Canonical.{rest-IsByte}
use zksrv.Jute.Conform.{encoding}
use zksrv.Jute.Traits.{CanSend, deserialize-encoding, deserialize-Takes}
use zksrv.Proto.Headers.{MultiHeader, multi_header_serialize, multi_header_deserialize}
use zksrv.Proto.Headers.Wire.{multi_header_encodable, multi_header_conforms}
use zksrv.Codec.Request.{
  Request, Ops, multi_request, deserialize_request, deserialize_ops, ok_or,
  multi_request_deserialize,
}
use zksrv.Codec.Request.Wire.{encode_request, encode_ops}
use zksrv.Codec.Request.Reading.{
  Announces, AreOps, IsMulti, deserialize_request-Reads, deserialize_request-eq-ok,
}

abbrev pub count_ops : Ops → ℕ
count_ops Ops.no_ops = 0
count_ops (Ops.op header req ops) = suc (count_ops ops)

==-false : (a b : ℕ) → a ≢ b → (a == b) ≡ false
==-false a b h = ground arith

-- The bytes of a round: a header, its operation, and what later rounds take.
regroup :
    {mid m1 m2 : List ℕ} (header req ops last rest : List ℕ)
    → mid ≡ m1
    → m1 ≡ req ++ m2
    → m2 ≡ (ops ++ last) ++ rest
    → header ++ mid ≡ ((header ++ (req ++ ops)) ++ last) ++ rest
regroup header req ops last rest p q r = rw (p, q, r) (simp append_assoc)

module _ ⦃b : ByteOps⦄ ⦃c : Codes⦄ where
  op_from_i32-Reads :
      (o : OpCodes) (header : MultiHeader)
      → op_number o ≡ header.type
      → Reads (ok_or (c.ops.from_i32 header.type) (invalid_op_code header.type)) [] o
  unfolding ok_or pure
  op_from_i32-Reads o header h rest = rw ((c.ops.from_i32_lem header.type o).1 h)

  pub op_from_i32-eq-ok :
      (header : MultiHeader) (buf : List ℕ) (o : OpCodes) (rest : List ℕ)
      → ok_or (c.ops.from_i32 header.type) (invalid_op_code header.type) buf ≡ ok (o, rest)
      → (op_number o ≡ header.type) × (buf ≡ rest)
  unfolding ok_or pure fail
  op_from_i32-eq-ok header buf o rest h =
      let (found, same) : (c.ops.from_i32 header.type ≡ some o) × (buf ≡ rest) = ground arith in
      ((c.ops.from_i32_lem header.type o).0 found, same)

  abbrev next : ℕ → MultiHeader → Buf ZkError (Ops × MultiHeader)
  next fuel header = ok_or (c.ops.from_i32 header.type) (invalid_op_code header.type) >>= λ o.
      deserialize_request o >>= λ req.
      deserialize_ops fuel >>= λ (ops, done_header). pure (Ops.op header req ops, done_header)

  next-Reads :
      (fuel : ℕ) {o : OpCodes} {header : MultiHeader} {req : Request} {ops : Ops}
      (done_header : MultiHeader)
      → op_number o ≡ header.type
      → Announces o req
      → Reads (deserialize_ops fuel) (encode_ops ops ++ encoding done_header) (ops, done_header)
      → Reads
          (next fuel header)
          (encode_request req ++ (encode_ops ops ++ encoding done_header))
          (Ops.op header req ops, done_header)
  unfolding pure
  next-Reads fuel {o = o} {header = header} {req = req} done_header code announced rest_read =
      Reads-bind _ _ [] _ o _ (op_from_i32-Reads o header code) (
        Reads-bind (deserialize_request o) _ (encode_request req) _ req _
          (deserialize_request-Reads announced)
          (λ rest. bind-ok (deserialize_ops fuel) _ _ (rest_read rest)))

  -- A transaction's operations are read back, with fuel for each of them and one round more.
  pub deserialize_ops-Reads :
      (fuel : ℕ) {ops : Ops} (done_header : MultiHeader)
      → AreOps ops
      → CanSend done_header
      → done_header.done ≡ 1
      → count_ops ops < fuel
      → Reads (deserialize_ops fuel) (encode_ops ops ++ encoding done_header) (ops, done_header)
  unfolding deserialize_ops encode_ops pure
  deserialize_ops-Reads zero done_header AreOps.no_ops sendable last h rest = absurd (omega arith)
  deserialize_ops-Reads zero done_header _ sendable last h rest = absurd (omega arith)
  deserialize_ops-Reads (suc fuel) done_header AreOps.no_ops sendable last h rest =
      bind-ok deserialize _ _ (deserialize-encoding done_header sendable rest)
      ∙ rw ((==_iff done_header.done 1).1 last)
  deserialize_ops-Reads (suc fuel) done_header
        (AreOps.op {o = o} {header = header} {req = req} {ops = ops} good more code announced are)
        sendable last h rest =
      let whole =
        ap (λ bs. encoding header ++ bs)
          (append_assoc (encode_request req) (encode_ops ops) (encoding done_header)) in
      subst (λ bs. Reads (deserialize_ops (suc fuel)) bs (Ops.op header req ops, done_header))
        (sym (append_assoc (encoding header) _ _ ∙ whole))
        (Reads-bind deserialize _ (encoding header) _ header _ (deserialize-encoding header good)
          (λ rest'. rw (==-false header.done 1 more) (
            next-Reads fuel done_header code announced
              (deserialize_ops-Reads fuel done_header are sendable last (omega arith)) rest')))
        rest

  -- What a run of the loop took off its input.
  abbrev pub TookOps : List ℕ → (Ops × MultiHeader) × List ℕ → Type 0
  TookOps buf ((ops, done_header), rest) =
      IsMulti (multi_request ops done_header)
      × (buf ≡ (encode_ops ops ++ encoding done_header) ++ rest)

  abbrev pub LoopTakes : ℕ → Type 0
  LoopTakes fuel =
      (buf : List ℕ) (r : (Ops × MultiHeader) × List ℕ)
      → All IsByte buf
      → deserialize_ops fuel buf ≡ ok r
      → TookOps buf r

  next-eq-ok :
      (fuel : ℕ) (header : MultiHeader) (mid : List ℕ) (r : (Ops × MultiHeader) × List ℕ)
      → LoopTakes fuel
      → CanSend header
      → header.done ≢ 1
      → All IsByte mid
      → next fuel header mid ≡ ok r
      → TookOps (encoding header ++ mid) r
  unfolding pure encode_ops
  next-eq-ok fuel header mid r ih good more bytes h =
      let (o, m1, g1, h1) =
        bind-eq-ok (ok_or (c.ops.from_i32 header.type) (invalid_op_code header.type)) _ mid h in
      let (code, same) = op_from_i32-eq-ok header mid o m1 g1 in
      let bytes1 : All IsByte m1 = rw same at bytes in
      let (req, m2, g2, h2) = bind-eq-ok (deserialize_request o) _ m1 h1 in
      let (announced, w2) = deserialize_request-eq-ok o m1 req m2 bytes1 g2 in
      let ((ops, done_header), m3, g3, h3) = bind-eq-ok (deserialize_ops fuel) _ m2 h2 in
      let ((are, sendable, last), w3) =
        ih m2 ((ops, done_header), m3) (rest-IsByte (encode_request req) m2 bytes1 w2) g3 in
      subst (TookOps (encoding header ++ mid)) (ok-injective h3) (
        (AreOps.op good more code announced are, sendable, last),
        regroup (encoding header) (encode_request req) (encode_ops ops) (encoding done_header) m3
            same w2 w3,
      )

  pub deserialize_ops-LoopTakes : (fuel : ℕ) → LoopTakes fuel
  unfolding deserialize_ops encode_ops pure give_up
  deserialize_ops-LoopTakes zero buf r bytes h = cc
  deserialize_ops-LoopTakes (suc fuel) buf r bytes h =
      let (header, mid, got, h') = bind-eq-ok deserialize _ buf h in
      let (good, whole) = deserialize-Takes buf header mid bytes got in
      let bytes' = rest-IsByte (encoding header) mid bytes whole in
      elim (Bool-cases (header.done == 1)) [
        | inl last ↦
            subst (TookOps buf) (ok-injective (rw last at h'))
              ((AreOps.no_ops, good, (==_iff header.done 1).0 last), whole)
        | inr more ↦ rw whole (
            next-eq-ok fuel header mid r (deserialize_ops-LoopTakes fuel) good
              (λ e. cc ((==_iff header.done 1).1 e)) bytes' (rw more at h'))
      ]

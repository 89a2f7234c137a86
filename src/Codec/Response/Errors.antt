-- ===== src/Codec/Response/Errors.antt =====
-- codec.rs: the response of a transaction holds no result that is not an error, since reading a
-- result asks for the end of the buffer.
use zksrv.Base.{
  ℕ, zero, suc, ◌+◌, ◌*◌, ◌≡◌, ◌≢◌, subst, sym, ap, List, [], ◌∷◌, length, ◌==◌, Bool-cases, inl,
  inr, neg_i32, arith,
}
use zksrv.Errors.{ZkError, ok, panic, ok-injective}
use zksrv.Bytes.{ByteOps}
use zksrv.Buf.{Buf, pure, abort, give_up, ◌>>=◌, bind-eq-ok, bind-panic}
use zksrv.Buf.Ops.{remaining, assert_empty, get_i32}
use zksrv.Buf.Ops.Laws.{or_panic-short}
use zksrv.Record.{deserialize}
use zksrv.Constants.{Codes, OpCodes}
use zksrv.Proto.Headers.{MultiHeader, multi_header_deserialize}
use zksrv.Codec.Response.{
  ZkResponse, empty, error, multi, multi_response, Results, ended, deserialize_response,
  deserialize_results, read_response,
}

module _ ⦃b : ByteOps⦄ ⦃c : Codes⦄ where
  ended-eq-ok :
      (a : ZkResponse) (buf : List ℕ) (r : ZkResponse) (rest : List ℕ)
      → ended a buf ≡ ok (r, rest)
      → rest ≡ []
  unfolding ended assert_empty pure ◌>>=◌
  ended-eq-ok a [] r rest h = ap (λ p. p.1) (sym (ok-injective h))
  ended-eq-ok a (x ∷ xs) r rest h = cc

  bind-ended :
      {A : Type 0} (m : Buf ZkError A) (f : A → ZkResponse) (buf : List ℕ) (r : ZkResponse)
      (rest : List ℕ)
      → (m >>= λ a. ended (f a)) buf ≡ ok (r, rest)
      → rest ≡ []
  bind-ended m f buf r rest h =
      let (a, mid, got, h') = bind-eq-ok m _ buf h in ended-eq-ok (f a) mid r rest h'

  -- A response that is read is the whole of the rest of its buffer.
  pub deserialize_response-eq-ok :
      (fuel : ℕ) (opcode : OpCodes) (buf : List ℕ) (r : ZkResponse) (rest : List ℕ)
      → deserialize_response fuel opcode buf ≡ ok (r, rest)
      → rest ≡ []
  unfolding deserialize_response give_up abort
  deserialize_response-eq-ok zero opcode buf r rest h = cc
  deserialize_response-eq-ok (suc fuel) OpCodes.exists buf r rest h = bind-ended _ _ buf r rest h
  deserialize_response-eq-ok (suc fuel) OpCodes.set_data buf r rest h = bind-ended _ _ buf r rest h
  deserialize_response-eq-ok (suc fuel) OpCodes.set_acl buf r rest h = bind-ended _ _ buf r rest h
  deserialize_response-eq-ok (suc fuel) OpCodes.get_data buf r rest h =
      let (x, mid, got, h') = bind-eq-ok _ _ buf h in bind-ended _ _ mid r rest h'
  deserialize_response-eq-ok (suc fuel) OpCodes.delete buf r rest h = ended-eq-ok empty buf r rest h
  deserialize_response-eq-ok (suc fuel) OpCodes.close buf r rest h = ended-eq-ok empty buf r rest h
  deserialize_response-eq-ok (suc fuel) OpCodes.get_children buf r rest h =
      bind-ended _ _ buf r rest h
  deserialize_response-eq-ok (suc fuel) OpCodes.get_children2 buf r rest h =
      let (x, mid, got, h') = bind-eq-ok _ _ buf h in bind-ended _ _ mid r rest h'
  deserialize_response-eq-ok (suc fuel) OpCodes.create buf r rest h = bind-ended _ _ buf r rest h
  deserialize_response-eq-ok (suc fuel) OpCodes.create_ttl buf r rest h =
      bind-ended _ _ buf r rest h
  deserialize_response-eq-ok (suc fuel) OpCodes.get_acl buf r rest h =
      let (x, mid, got, h') = bind-eq-ok _ _ buf h in bind-ended _ _ mid r rest h'
  deserialize_response-eq-ok (suc fuel) OpCodes.check buf r rest h = ended-eq-ok empty buf r rest h
  deserialize_response-eq-ok (suc fuel) OpCodes.create_container buf r rest h =
      bind-ended _ _ buf r rest h
  deserialize_response-eq-ok (suc fuel) OpCodes.set_auth buf r rest h =
      ended-eq-ok empty buf r rest h
  deserialize_response-eq-ok (suc fuel) OpCodes.set_watches buf r rest h =
      ended-eq-ok empty buf r rest h
  deserialize_response-eq-ok (suc fuel) OpCodes.create2 buf r rest h = bind-ended _ _ buf r rest h
  deserialize_response-eq-ok (suc fuel) OpCodes.check_watches buf r rest h =
      ended-eq-ok empty buf r rest h
  deserialize_response-eq-ok (suc fuel) OpCodes.whoami buf r rest h = bind-ended _ _ buf r rest h
  deserialize_response-eq-ok (suc fuel) OpCodes.multi buf r rest h =
      bind-ended (deserialize_results fuel) _ buf r rest h
  deserialize_response-eq-ok (suc fuel) OpCodes.error buf r rest h = ended-eq-ok empty buf r rest h
  deserialize_response-eq-ok (suc fuel) OpCodes.connect buf r rest h = cc
  deserialize_response-eq-ok (suc fuel) OpCodes.sync buf r rest h = cc
  deserialize_response-eq-ok (suc fuel) OpCodes.ping buf r rest h = cc
  deserialize_response-eq-ok (suc fuel) OpCodes.reconfig buf r rest h = cc
  deserialize_response-eq-ok (suc fuel) OpCodes.remove_watches buf r rest h = cc
  deserialize_response-eq-ok (suc fuel) OpCodes.multi_read buf r rest h = cc
  deserialize_response-eq-ok (suc fuel) OpCodes.sasl buf r rest h = cc
  deserialize_response-eq-ok (suc fuel) OpCodes.get_ephemerals buf r rest h = cc
  deserialize_response-eq-ok (suc fuel) OpCodes.get_all_children_number buf r rest h = cc
  deserialize_response-eq-ok (suc fuel) OpCodes.set_watches2 buf r rest h = cc
  deserialize_response-eq-ok (suc fuel) OpCodes.add_watch buf r rest h = cc
  deserialize_response-eq-ok (suc fuel) OpCodes.create_session buf r rest h = cc

  header-panic : deserialize {A = MultiHeader} [] ≡ panic
  unfolding multi_header_deserialize get_i32
  header-panic =
      bind-panic get_i32 _ [] (or_panic-short 4 b.get_i32 _ b.get_i32_lem [] (omega arith))

  -- Nothing is read as results from an empty buffer.
  deserialize_results-nil :
      (fuel : ℕ) (r : (Results × MultiHeader) × List ℕ) → deserialize_results fuel [] ≢ ok r
  unfolding deserialize_results give_up
  deserialize_results-nil zero r h = cc
  deserialize_results-nil (suc fuel) r h =
      let e : deserialize_results (suc fuel) [] ≡ panic =
        bind-panic deserialize _ [] header-panic in
      cc

  -- The results that are error codes.
  pub data AreErrors : Results → Type 0 where
    no_results : AreErrors Results.no_results
    done :
        (err : ℕ) (header : MultiHeader) (rs : Results)
        → AreErrors rs
        → AreErrors (Results.done (error err) header rs)

  deserialize_results-AreErrors :
      (fuel : ℕ) (buf : List ℕ) (r : (Results × MultiHeader) × List ℕ)
      → deserialize_results fuel buf ≡ ok r
      → AreErrors r.0.0
  unfolding deserialize_results give_up pure
  deserialize_results-AreErrors zero buf r h = cc
  deserialize_results-AreErrors (suc fuel) buf r h =
      let (header, mid, got, h') = bind-eq-ok deserialize _ buf h in
      elim (Bool-cases (header.done == 1)) [
        | inl last ↦
            let h'' = ok-injective (rw last at h') in subst (λ p. AreErrors p.0.0) h'' no_results
        | inr more ↦ elim (Bool-cases (header.type == neg_i32 1)) [
          | inl failed' ↦
              let h1 = rw (more, failed') at h' in
              let (p, mid', got', h2) = bind-eq-ok (deserialize_results fuel) _ mid h1 in
              subst (λ q. AreErrors q.0.0) (ok-injective h2)
                (done header.err header p.0 (deserialize_results-AreErrors fuel mid (p, mid') got'))
          | inr result ↦
              let h1 = rw (more, result) at h' in
              let (opcode, m1, g1, h2) = bind-eq-ok _ _ mid h1 in
              let (response, m2, g2, h3) = bind-eq-ok _ _ m1 h2 in
              let (p, m3, g3, h4) = bind-eq-ok (deserialize_results fuel) _ m2 h3 in
              let at_end = deserialize_response-eq-ok fuel opcode m1 response m2 g2 in
              absurd (
                deserialize_results-nil fuel (p, m3)
                  (subst (λ bs. deserialize_results fuel bs ≡ ok (p, m3)) at_end g3))
        ]
      ]

  multi-AreErrors :
      (fuel : ℕ) (buf rest : List ℕ) (rs : Results) (done_header : MultiHeader)
      → deserialize_response fuel OpCodes.multi buf
        ≡ ok (multi (multi_response rs done_header), rest)
      → AreErrors rs × (rest ≡ [])
  unfolding deserialize_response give_up ended pure
  multi-AreErrors zero buf rest rs done_header h = cc
  multi-AreErrors (suc fuel) buf rest rs done_header h =
      let (p, mid, got, h') = bind-eq-ok (deserialize_results fuel) _ buf h in
      let (u, mid', at_end, h'') = bind-eq-ok assert_empty _ mid h' in
      let same : p.0 ≡ rs = cc in
      (
        subst AreErrors same (deserialize_results-AreErrors fuel buf (p, mid) got),
        deserialize_response-eq-ok (suc fuel) OpCodes.multi buf
            (multi (multi_response rs done_header)) rest h,
      )

  -- When the response of a transaction is read, each of its results is an error code, and its
  -- buffer is at its end: a transaction with a result that is no error is not read.
  pub read_response-AreErrors :
      (buf rest : List ℕ) (rs : Results) (done_header : MultiHeader)
      → read_response OpCodes.multi buf ≡ ok (multi (multi_response rs done_header), rest)
      → AreErrors rs × (rest ≡ [])
  unfolding read_response remaining ◌>>=◌
  read_response-AreErrors buf rest rs done_header h =
      multi-AreErrors (2 * length buf + 2) buf rest rs done_header h

-- ===== src/Codec/Response/Ends.antt =====
-- codec.rs: reading a response ends.
use zksrv.Base.{
  ℕ, zero, suc, ◌+◌, ◌*◌, ◌<◌, ◌≡◌, ◌≢◌, ap, subst, sym, Option, none, some, List, [], ◌∷◌, length,
  length-append, arith, All, IsByte, ◌==◌, Bool-cases, inl, inr, neg_i32,
}
use zksrv.Errors.{ZkError, ok, stuck}
use zksrv.Bytes.{ByteOps}
use zksrv.Buf.{pure, fail, abort, ◌>>=◌}
use zksrv.Buf.Ops.{remaining, assert_empty}
use zksrv.Record.{
  deserialize, string_serialize, string_deserialize, bytes_serialize, bytes_deserialize,
  vec_serialize, vec_deserialize,
}
use zksrv.Constants.{Codes, OpCodes}
use zksrv.Jute.Ends.{Ends, Ends-bind, Ends-pure, deserialize-Ends}
use zksrv.Jute.Canonical.{rest-IsByte}
use zksrv.Jute.Conform.{
  encoding, string_encodable, string_conforms, bytes_encodable, bytes_conforms, vec_encodable,
  vec_conforms,
}
use zksrv.Jute.Traits.{deserialize-Takes}
use zksrv.Proto.Headers.{multi_header_serialize, multi_header_deserialize}
use zksrv.Proto.Headers.Wire.{multi_header_encodable, multi_header_conforms}
use zksrv.Proto.Ids.{acl_serialize, acl_deserialize}
use zksrv.Proto.Ids.Wire.{acl_encodable, acl_conforms}
use zksrv.Proto.Stats.{stat_serialize, stat_deserialize}
use zksrv.Proto.Stats.Wire.{stat_encodable, stat_conforms}
use zksrv.Proto.Create.{
  create_response_serialize, create_response_deserialize, create2_response_serialize,
  create2_response_deserialize,
}
use zksrv.Proto.Create.Wire.{
  create_response_encodable, create_response_conforms, create2_response_encodable,
  create2_response_conforms,
}
use zksrv.Proto.Admin.{whoami_response_serialize, whoami_response_deserialize}
use zksrv.Proto.Admin.Wire.{whoami_response_encodable, whoami_response_conforms}
use zksrv.Codec.Request.{ok_or}
use zksrv.Codec.Request.Total.{length-header}
use zksrv.Codec.Request.Ends.{bind-ne-stuck, Ends-ok_or}
use zksrv.Codec.Response.{
  ZkResponse, ended, deserialize_response, deserialize_results, read_response,
}
use zksrv.Codec.Response.Errors.{deserialize_response-eq-ok}

module _ ⦃b : ByteOps⦄ ⦃c : Codes⦄ where
  Ends-assert_empty : Ends assert_empty
  unfolding assert_empty
  Ends-assert_empty [] h = cc
  Ends-assert_empty (x ∷ xs) h = cc

  Ends-ended : (r : ZkResponse) → Ends (ended r)
  unfolding ended
  Ends-ended r = Ends-bind assert_empty _ Ends-assert_empty (λ u. Ends-pure r)

  ok_or-eq-ok :
      {A : Type 0} (o : Option A) (e : ZkError) (buf : List ℕ) {a : A} {rest : List ℕ}
      → ok_or o e buf ≡ ok (a, rest)
      → buf ≡ rest
  unfolding ok_or pure fail
  ok_or-eq-ok none e buf h = cc
  ok_or-eq-ok (some a) e buf h = cc

  mutual
    unfolding deserialize_response deserialize_results pure abort

    response_ends :
        (fuel : ℕ) (o : OpCodes) (buf : List ℕ)
        → All IsByte buf
        → 2 * length buf + 1 < fuel
        → deserialize_response fuel o buf ≢ stuck
    response_ends zero o buf bytes h = absurd (omega arith)
    response_ends (suc fuel) OpCodes.exists buf bytes h =
        Ends-bind deserialize _ deserialize-Ends (λ r. Ends-ended _) buf
    response_ends (suc fuel) OpCodes.set_data buf bytes h =
        Ends-bind deserialize _ deserialize-Ends (λ r. Ends-ended _) buf
    response_ends (suc fuel) OpCodes.set_acl buf bytes h =
        Ends-bind deserialize _ deserialize-Ends (λ r. Ends-ended _) buf
    response_ends (suc fuel) OpCodes.get_children buf bytes h =
        Ends-bind deserialize _ deserialize-Ends (λ r. Ends-ended _) buf
    response_ends (suc fuel) OpCodes.create buf bytes h =
        Ends-bind deserialize _ deserialize-Ends (λ r. Ends-ended _) buf
    response_ends (suc fuel) OpCodes.create_ttl buf bytes h =
        Ends-bind deserialize _ deserialize-Ends (λ r. Ends-ended _) buf
    response_ends (suc fuel) OpCodes.create_container buf bytes h =
        Ends-bind deserialize _ deserialize-Ends (λ r. Ends-ended _) buf
    response_ends (suc fuel) OpCodes.create2 buf bytes h =
        Ends-bind deserialize _ deserialize-Ends (λ r. Ends-ended _) buf
    response_ends (suc fuel) OpCodes.whoami buf bytes h =
        Ends-bind deserialize _ deserialize-Ends (λ r. Ends-ended _) buf
    response_ends (suc fuel) OpCodes.get_data buf bytes h =
        Ends-bind deserialize _ deserialize-Ends
          (λ r. Ends-bind deserialize _ deserialize-Ends (λ st. Ends-ended _)) buf
    response_ends (suc fuel) OpCodes.get_children2 buf bytes h =
        Ends-bind deserialize _ deserialize-Ends
          (λ r. Ends-bind deserialize _ deserialize-Ends (λ st. Ends-ended _)) buf
    response_ends (suc fuel) OpCodes.get_acl buf bytes h =
        Ends-bind deserialize _ deserialize-Ends
          (λ r. Ends-bind deserialize _ deserialize-Ends (λ st. Ends-ended _)) buf
    response_ends (suc fuel) OpCodes.delete buf bytes h = Ends-ended _ buf
    response_ends (suc fuel) OpCodes.close buf bytes h = Ends-ended _ buf
    response_ends (suc fuel) OpCodes.check buf bytes h = Ends-ended _ buf
    response_ends (suc fuel) OpCodes.set_auth buf bytes h = Ends-ended _ buf
    response_ends (suc fuel) OpCodes.set_watches buf bytes h = Ends-ended _ buf
    response_ends (suc fuel) OpCodes.check_watches buf bytes h = Ends-ended _ buf
    response_ends (suc fuel) OpCodes.error buf bytes h = Ends-ended _ buf
    response_ends (suc fuel) OpCodes.connect buf bytes h = λ p. cc
    response_ends (suc fuel) OpCodes.sync buf bytes h = λ p. cc
    response_ends (suc fuel) OpCodes.ping buf bytes h = λ p. cc
    response_ends (suc fuel) OpCodes.reconfig buf bytes h = λ p. cc
    response_ends (suc fuel) OpCodes.remove_watches buf bytes h = λ p. cc
    response_ends (suc fuel) OpCodes.multi_read buf bytes h = λ p. cc
    response_ends (suc fuel) OpCodes.sasl buf bytes h = λ p. cc
    response_ends (suc fuel) OpCodes.get_ephemerals buf bytes h = λ p. cc
    response_ends (suc fuel) OpCodes.get_all_children_number buf bytes h = λ p. cc
    response_ends (suc fuel) OpCodes.set_watches2 buf bytes h = λ p. cc
    response_ends (suc fuel) OpCodes.add_watch buf bytes h = λ p. cc
    response_ends (suc fuel) OpCodes.create_session buf bytes h = λ p. cc
    response_ends (suc fuel) OpCodes.multi buf bytes h =
        bind-ne-stuck (deserialize_results fuel) _ buf (results_end fuel buf bytes (omega arith))
          λ r rest got. Ends-ended _ rest

    results_end :
        (fuel : ℕ) (buf : List ℕ)
        → All IsByte buf
        → 2 * length buf < fuel
        → deserialize_results fuel buf ≢ stuck
    results_end zero buf bytes h = absurd (omega arith)
    results_end (suc fuel) buf bytes h =
        bind-ne-stuck deserialize _ buf (deserialize-Ends buf) λ header mid got.
          let (good, whole) = deserialize-Takes buf header mid bytes got in
          let bytes' = rest-IsByte (encoding header) mid bytes whole in
          let shorter : 2 * length mid + 1 < fuel =
            omega
              (arith, ap length whole, length-append (encoding header) mid, length-header header) in
          elim (Bool-cases (header.done == 1)) [
            | inl last ↦ rw last (λ p. cc)
            | inr more ↦ elim (Bool-cases (header.type == neg_i32 1)) [
              | inl failed ↦
                  rw (more, failed)
                    (bind-ne-stuck (deserialize_results fuel) _ mid
                      (results_end fuel mid bytes' (omega arith)) (λ r rest e p. cc))
              | inr result ↦
                  rw (more, result)
                    (bind-ne-stuck (ok_or (c.ops.from_i32 header.type) _) _ mid (Ends-ok_or _ _ mid)
                      λ o m1 g1.
                        let same = ok_or-eq-ok _ _ mid g1 in
                        bind-ne-stuck (deserialize_response fuel o) _ m1
                          (subst (λ bs. deserialize_response fuel o bs ≢ stuck) same
                            (response_ends fuel o mid bytes' shorter))
                          λ r m2 g2.
                            bind-ne-stuck (deserialize_results fuel) _ m2
                              (subst (λ bs. deserialize_results fuel bs ≢ stuck)
                                (sym (deserialize_response-eq-ok fuel o m1 r m2 g2))
                                (results_end fuel [] tt (omega arith)))
                              (λ r rest e p. cc))
            ]
          ]

  -- On bytes, reading the response to any operation ends: with a value, an error or a panic.
  pub read_response-ends :
      (o : OpCodes) (buf : List ℕ) → All IsByte buf → read_response o buf ≢ stuck
  unfolding read_response remaining ◌>>=◌
  read_response-ends o buf bytes = response_ends (2 * length buf + 2) o buf bytes (omega arith)

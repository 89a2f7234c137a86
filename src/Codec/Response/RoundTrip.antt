-- ===== src/Codec/Response/RoundTrip.antt =====
-- codec.rs: a response that is written is read back by the operation that it answers.
use zksrv.Base.{
  ℕ, suc, ◌+◌, ◌*◌, ◌≡◌, refl, ap, ◌∙◌, List, [], ◌∷◌, ◌++◌, append_assoc, append-nil, length,
  length-map, map, arith,
}
use zksrv.Text.{String}
use zksrv.Errors.{ZkError, ok}
use zksrv.Bytes.{ByteOps}
use zksrv.Buf.{Buf, pure, ◌>>=◌, bind-ok}
use zksrv.Buf.Ops.{remaining, assert_empty}
use zksrv.Buf.Ops.Laws.{put_i32-bind, put_slice-bind}
use zksrv.Record.{
  for_each, Serialize, Deserialize, deserialize, string_serialize, string_deserialize,
  bytes_serialize, bytes_deserialize, vec_serialize, vec_deserialize,
}
use zksrv.Constants.{Codes, OpCodes}
use zksrv.Jute.Conform.{
  Encodable, Conforms, encoding, serialize_into-bind, for_each-bind, string_encodable,
  string_conforms, bytes_encodable, bytes_conforms, vec_encodable, vec_conforms,
}
use zksrv.Jute.Traits.{CanSend, deserialize-encoding}
use zksrv.Proto.Ids.{Acl, acl_serialize, acl_deserialize}
use zksrv.Proto.Ids.Wire.{acl_encodable, acl_conforms}
use zksrv.Proto.Stats.{Stat, stat_serialize, stat_deserialize}
use zksrv.Proto.Stats.Wire.{stat_encodable, stat_conforms}
use zksrv.Proto.NodeData.{GetDataResponse, get_data_response_serialize}
use zksrv.Proto.NodeData.Wire.{get_data_response_encodable}
use zksrv.Proto.Create.{
  CreateResponse, create_response_serialize, create_response_deserialize, Create2Response,
  create2_response_serialize, create2_response_deserialize,
}
use zksrv.Proto.Create.Wire.{
  create_response_encodable, create_response_conforms, create2_response_encodable,
  create2_response_conforms,
}
use zksrv.Proto.Admin.{WhoAmIResponse, whoami_response_serialize, whoami_response_deserialize}
use zksrv.Proto.Admin.Wire.{whoami_response_encodable, whoami_response_conforms}
use zksrv.Codec.Server.Reading.{message}
use zksrv.Codec.Response.{
  ZkResponse, serialize_response, deserialize_response, ended, read_response,
}
use zksrv.Codec.Response.Size.{one, put_text, put_texts}

module _ ⦃b : ByteOps⦄ where
  -- The responses that answer each operation, but for transactions.
  pub data Answers : OpCodes → ZkResponse → Type 0 where
    exists : (st : Stat) → CanSend st → Answers OpCodes.exists (ZkResponse.stat st)
    set_data : (st : Stat) → CanSend st → Answers OpCodes.set_data (ZkResponse.stat st)
    set_acl : (st : Stat) → CanSend st → Answers OpCodes.set_acl (ZkResponse.stat st)
    get_data :
        (bs : List ℕ) (st : Stat)
        → CanSend bs
        → CanSend st
        → Answers OpCodes.get_data (ZkResponse.get_data (record { data_bytes = bs; stat = st }))
    delete : Answers OpCodes.delete ZkResponse.empty
    close : Answers OpCodes.close ZkResponse.empty
    check : Answers OpCodes.check ZkResponse.empty
    set_auth : Answers OpCodes.set_auth ZkResponse.empty
    set_watches : Answers OpCodes.set_watches ZkResponse.empty
    check_watches : Answers OpCodes.check_watches ZkResponse.empty
    error : Answers OpCodes.error ZkResponse.empty
    get_children2 :
        (children : List String) (st : Stat)
        → CanSend children
        → CanSend st
        → Answers OpCodes.get_children2 (ZkResponse.get_children2 children st)
    create : (r : CreateResponse) → CanSend r → Answers OpCodes.create (ZkResponse.create r)
    create2 : (r : Create2Response) → CanSend r → Answers OpCodes.create2 (ZkResponse.create2 r)
    whoami : (r : WhoAmIResponse) → CanSend r → Answers OpCodes.whoami (ZkResponse.whoami r)
    create_ttl :
        (path : String) → CanSend path → Answers OpCodes.create_ttl (ZkResponse.string path)
    create_container :
        (path : String) → CanSend path → Answers OpCodes.create_container (ZkResponse.string path)
    get_acl :
        (acl : List Acl) (st : Stat)
        → CanSend acl
        → CanSend st
        → Answers OpCodes.get_acl (ZkResponse.get_acl acl st)
    get_children :
        (children : List String)
        → CanSend children
        → Answers OpCodes.get_children (ZkResponse.strings children)

  module _ ⦃c : Codes⦄ where
    at_end : (r : ZkResponse) → ended r [] ≡ ok (r, [])
    unfolding ended assert_empty pure ◌>>=◌
    at_end r = refl

    -- What is written is read back, on any fuel.
    abbrev IsRead : OpCodes → ZkResponse → List ℕ → Type 0
    IsRead o r out =
        (bs : List ℕ) × (serialize_response r out ≡ ok (tt, out ++ bs))
        × ((fuel : ℕ) → deserialize_response (suc fuel) o bs ≡ ok (r, []))

    single :
        {A : Type 0} ⦃s : Serialize A⦄ ⦃d : Deserialize A⦄ ⦃e : Encodable A⦄ ⦃k : Conforms A⦄
        (f : A → ZkResponse) (a : A)
        → CanSend a
        → (d.deserialize >>= λ x. ended (f x)) (encoding a) ≡ ok (f a, [])
    single f a h = bind-ok deserialize _ _ (message a h) ∙ at_end (f a)

    double :
        {A : Type 0} ⦃s : Serialize A⦄ ⦃d : Deserialize A⦄ ⦃e : Encodable A⦄ ⦃k : Conforms A⦄
        (f : A → Stat → ZkResponse) (a : A) (st : Stat)
        → CanSend a
        → CanSend st
        → (d.deserialize >>= λ x. deserialize >>= λ y. ended (f x y)) (encoding a ++ encoding st)
          ≡ ok (f a st, [])
    double f a st h h' =
        bind-ok deserialize _ _ (deserialize-encoding a h (encoding st)) ∙ single (f a) st h'

    string_lem :
        (s : String) (out : List ℕ)
        → serialize_response (ZkResponse.string s) out ≡ ok (tt, out ++ encoding s)
    unfolding serialize_response pure string_encodable
    string_lem s out = simp (put_i32-bind, put_slice-bind, append_assoc)

    get_data_lem :
        (r : GetDataResponse) (out : List ℕ)
        → serialize_response (ZkResponse.get_data r) out
          ≡ ok (tt, out ++ (encoding r.data_bytes ++ encoding r.stat))
    unfolding serialize_response get_data_response_encodable
    get_data_lem r out = one r out

    get_acl_lem :
        (acl : List Acl) (st : Stat) (out : List ℕ)
        → serialize_response (ZkResponse.get_acl acl st) out
          ≡ ok (tt, out ++ (encoding acl ++ encoding st))
    unfolding serialize_response vec_encodable pure
    get_acl_lem acl st out =
        put_i32-bind _ out _
        ∙ for_each-bind _ acl _
        ∙ serialize_into-bind _ st _
        ∙ simp (append_assoc, length-map)

    map_same : (strs : List String) → map (λ s. s) strs ≡ strs
    map_same [] = refl
    map_same (s ∷ strs) = ap (◌∷◌ s) (map_same strs)

    strings_lem :
        (strs : List String) (out : List ℕ)
        → serialize_response (ZkResponse.strings strs) out ≡ ok (tt, out ++ encoding strs)
    unfolding serialize_response vec_encodable string_encodable put_text pure
    strings_lem strs out =
        put_i32-bind _ out _
        ∙ bind-ok (for_each put_text strs) _ _ (put_texts strs _)
        ∙ rw (map_same strs) (simp append_assoc)

    reads : (o : OpCodes) (r : ZkResponse) (out : List ℕ) → Answers o r → IsRead o r out
    unfolding serialize_response deserialize_response pure
    reads _ _ out (Answers.exists st h) =
        (encoding st, one st out, λ fuel. single ZkResponse.stat st h)
    reads _ _ out (Answers.set_data st h) =
        (encoding st, one st out, λ fuel. single ZkResponse.stat st h)
    reads _ _ out (Answers.set_acl st h) =
        (encoding st, one st out, λ fuel. single ZkResponse.stat st h)
    reads _ _ out (Answers.get_data bs st h h') = (
      encoding bs ++ encoding st,
      get_data_lem (record { data_bytes = bs; stat = st }) out,
      λ fuel. double (λ x y. ZkResponse.get_data (record { data_bytes = x; stat = y })) bs st h h',
    )
    reads _ _ out Answers.delete = ([], simp append-nil, λ fuel. at_end ZkResponse.empty)
    reads _ _ out Answers.close = ([], simp append-nil, λ fuel. at_end ZkResponse.empty)
    reads _ _ out Answers.check = ([], simp append-nil, λ fuel. at_end ZkResponse.empty)
    reads _ _ out Answers.set_auth = ([], simp append-nil, λ fuel. at_end ZkResponse.empty)
    reads _ _ out Answers.set_watches = ([], simp append-nil, λ fuel. at_end ZkResponse.empty)
    reads _ _ out Answers.check_watches = ([], simp append-nil, λ fuel. at_end ZkResponse.empty)
    reads _ _ out Answers.error = ([], simp append-nil, λ fuel. at_end ZkResponse.empty)
    reads _ _ out (Answers.get_children2 children st h h') = (
      encoding children ++ encoding st,
      serialize_into-bind _ children out ∙ serialize_into-bind _ st _ ∙ simp append_assoc,
      λ fuel. double ZkResponse.get_children2 children st h h',
    )
    reads _ _ out (Answers.create r h) =
        (encoding r, one r out, λ fuel. single ZkResponse.create r h)
    reads _ _ out (Answers.create2 r h) =
        (encoding r, one r out, λ fuel. single ZkResponse.create2 r h)
    reads _ _ out (Answers.whoami r h) =
        (encoding r, one r out, λ fuel. single ZkResponse.whoami r h)
    reads _ _ out (Answers.create_ttl path h) =
        (encoding path, string_lem path out, λ fuel. single ZkResponse.string path h)
    reads _ _ out (Answers.create_container path h) =
        (encoding path, string_lem path out, λ fuel. single ZkResponse.string path h)
    reads _ _ out (Answers.get_acl acl st h h') = (
      encoding acl ++ encoding st,
      get_acl_lem acl st out,
      λ fuel. double ZkResponse.get_acl acl st h h',
    )
    reads _ _ out (Answers.get_children children h) =
        (encoding children, strings_lem children out, λ fuel. single ZkResponse.strings children h)

    -- A response that answers an operation other than a transaction, with values that can be sent,
    -- is written at the end of any buffer, and read back from these bytes by the operation.
    pub read_response-serialize :
        (o : OpCodes) (r : ZkResponse) (out : List ℕ)
        → Answers o r
        → (bs : List ℕ) × (serialize_response r out ≡ ok (tt, out ++ bs))
          × (read_response o bs ≡ ok (r, []))
    unfolding read_response remaining
    read_response-serialize o r out h =
        let (bs, written, read) = reads o r out h in
        let enough : 2 * length bs + 2 ≡ suc (2 * length bs + 1) = omega arith in
        (
          bs,
          written,
          bind-ok remaining _ bs refl
              ∙ ap (λ (m : Buf ZkError ZkResponse). m bs)
                  (ap (λ n. deserialize_response n o) enough)
              ∙ read (2 * length bs + 1),
        )

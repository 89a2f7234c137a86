-- ===== src/Codec/Request/Wire.antt =====
-- codec.rs: the bytes that a request is sent as, by its message's schema; and that
-- `serialize_into` and `size` of `Request` and `MultiRequest` agree with them.
use zksrv.Base.{
  ℕ, ◌≡◌, refl, ◌∙◌, List, [], ◌++◌, append_assoc, append-nil, length, length-append, arith,
}
use zksrv.Errors.{ok}
use zksrv.Bytes.{ByteOps}
use zksrv.Buf.{pure, bind-ok}
use zksrv.Jute.Conform.{encoding, serialize_into-bind}
use zksrv.Proto.Create.{
  create_request_serialize, delete_request_serialize, create_ttl_request_serialize,
}
use zksrv.Proto.Create.Wire.{
  create_request_encodable, delete_request_encodable, create_ttl_request_encodable,
}
use zksrv.Proto.NodeData.{
  exists_request_serialize, get_data_request_serialize, set_data_request_serialize,
}
use zksrv.Proto.NodeData.Wire.{
  exists_request_encodable, get_data_request_encodable, set_data_request_encodable,
}
use zksrv.Proto.Acls.{get_acl_request_serialize, set_acl_request_serialize}
use zksrv.Proto.Acls.Wire.{get_acl_request_encodable, set_acl_request_encodable}
use zksrv.Proto.Children.{get_children_request_serialize, get_children2_request_serialize}
use zksrv.Proto.Children.Wire.{get_children_request_encodable, get_children2_request_encodable}
use zksrv.Proto.Watches.{set_watches_serialize, check_watches_request_serialize}
use zksrv.Proto.Watches.Wire.{set_watches_encodable, check_watches_request_encodable}
use zksrv.Proto.Connect.{connect_request_serialize}
use zksrv.Proto.Connect.Wire.{connect_request_encodable}
use zksrv.Proto.Headers.{auth_packet_serialize, multi_header_serialize}
use zksrv.Proto.Headers.Wire.{auth_packet_encodable, multi_header_encodable}
use zksrv.Proto.Versions.{sync_request_serialize}
use zksrv.Proto.Versions.Wire.{sync_request_encodable}
use zksrv.Codec.Request.{
  Request, MultiRequest, Ops, create, delete, exists, get_data, set_data, get_acl, set_acl,
  get_children, get_children2, get_children3, set_watches, connect, auth, create_ttl, check_watches,
  sync, ping, close, whoami, multi, multi_request, no_ops, op, serialize_request, serialize_multi,
  serialize_ops, size_request, size_multi, size_ops,
}

module _ ⦃b : ByteOps⦄ where
  unfoldable mutual
    pub encode_request : Request → List ℕ
    encode_request (create req) = encoding req
    encode_request (delete req) = encoding req
    encode_request (exists req) = encoding req
    encode_request (get_data req) = encoding req
    encode_request (set_data req) = encoding req
    encode_request (get_acl req) = encoding req
    encode_request (set_acl req) = encoding req
    encode_request (get_children req) = encoding req
    encode_request (get_children2 req) = encoding req
    encode_request (get_children3 req) = encoding req
    encode_request (set_watches req) = encoding req
    encode_request (connect req) = encoding req
    encode_request (auth req) = encoding req
    encode_request (create_ttl req) = encoding req
    encode_request (check_watches req) = encoding req
    encode_request (sync req) = encoding req
    encode_request ping = []
    encode_request close = []
    encode_request whoami = []
    encode_request (multi req) = encode_multi req

    pub encode_multi : MultiRequest → List ℕ
    encode_multi (multi_request ops done_header) = encode_ops ops ++ encoding done_header

    pub encode_ops : Ops → List ℕ
    encode_ops no_ops = []
    encode_ops (op header req ops) = encoding header ++ (encode_request req ++ encode_ops ops)

  mutual
    unfolding serialize_request encode_request pure

    serialize_request_lem :
        (r : Request) (buf : List ℕ) → serialize_request r buf ≡ ok (tt, buf ++ encode_request r)
    serialize_request_lem (create req) buf = create_request_encodable.serialize_lem req buf
    serialize_request_lem (delete req) buf = delete_request_encodable.serialize_lem req buf
    serialize_request_lem (exists req) buf = exists_request_encodable.serialize_lem req buf
    serialize_request_lem (get_data req) buf = get_data_request_encodable.serialize_lem req buf
    serialize_request_lem (set_data req) buf = set_data_request_encodable.serialize_lem req buf
    serialize_request_lem (get_acl req) buf = get_acl_request_encodable.serialize_lem req buf
    serialize_request_lem (set_acl req) buf = set_acl_request_encodable.serialize_lem req buf
    serialize_request_lem (get_children req) buf =
        get_children_request_encodable.serialize_lem req buf
    serialize_request_lem (get_children2 req) buf =
        get_children2_request_encodable.serialize_lem req buf
    serialize_request_lem (get_children3 req) buf =
        get_children_request_encodable.serialize_lem req buf
    serialize_request_lem (set_watches req) buf = set_watches_encodable.serialize_lem req buf
    serialize_request_lem (connect req) buf = connect_request_encodable.serialize_lem req buf
    serialize_request_lem (auth req) buf = auth_packet_encodable.serialize_lem req buf
    serialize_request_lem (create_ttl req) buf = create_ttl_request_encodable.serialize_lem req buf
    serialize_request_lem (check_watches req) buf =
        check_watches_request_encodable.serialize_lem req buf
    serialize_request_lem (sync req) buf = sync_request_encodable.serialize_lem req buf
    serialize_request_lem ping buf = simp append-nil
    serialize_request_lem close buf = simp append-nil
    serialize_request_lem whoami buf = simp append-nil
    serialize_request_lem (multi req) buf = serialize_multi_lem req buf

    serialize_multi_lem :
        (r : MultiRequest) (buf : List ℕ) → serialize_multi r buf ≡ ok (tt, buf ++ encode_multi r)
    serialize_multi_lem (multi_request ops done_header) buf =
        bind-ok (serialize_ops ops) _ buf (serialize_ops_lem ops buf)
        ∙ simp (serialize_into-bind, append_assoc)

    serialize_ops_lem :
        (r : Ops) (buf : List ℕ) → serialize_ops r buf ≡ ok (tt, buf ++ encode_ops r)
    serialize_ops_lem no_ops buf = simp append-nil
    serialize_ops_lem (op header req ops) buf =
        serialize_into-bind _ header buf
        ∙ bind-ok (serialize_request req) _ _ (serialize_request_lem req _)
        ∙ serialize_ops_lem ops _
        ∙ simp append_assoc

  mutual
    unfolding size_request encode_request

    size_request_lem : (r : Request) → size_request r ≡ length (encode_request r)
    size_request_lem (create req) = create_request_encodable.size_lem req
    size_request_lem (delete req) = delete_request_encodable.size_lem req
    size_request_lem (exists req) = exists_request_encodable.size_lem req
    size_request_lem (get_data req) = get_data_request_encodable.size_lem req
    size_request_lem (set_data req) = set_data_request_encodable.size_lem req
    size_request_lem (get_acl req) = get_acl_request_encodable.size_lem req
    size_request_lem (set_acl req) = set_acl_request_encodable.size_lem req
    size_request_lem (get_children req) = get_children_request_encodable.size_lem req
    size_request_lem (get_children2 req) = get_children2_request_encodable.size_lem req
    size_request_lem (get_children3 req) = get_children_request_encodable.size_lem req
    size_request_lem (set_watches req) = set_watches_encodable.size_lem req
    size_request_lem (connect req) = connect_request_encodable.size_lem req
    size_request_lem (auth req) = auth_packet_encodable.size_lem req
    size_request_lem (create_ttl req) = create_ttl_request_encodable.size_lem req
    size_request_lem (check_watches req) = check_watches_request_encodable.size_lem req
    size_request_lem (sync req) = sync_request_encodable.size_lem req
    size_request_lem ping = refl
    size_request_lem close = refl
    size_request_lem whoami = refl
    size_request_lem (multi req) = size_multi_lem req

    size_multi_lem : (r : MultiRequest) → size_multi r ≡ length (encode_multi r)
    size_multi_lem (multi_request ops done_header) = omega (
      arith,
      size_ops_lem ops,
      multi_header_encodable.size_lem done_header,
      length-append (encode_ops ops) (encoding done_header),
    )

    size_ops_lem : (r : Ops) → size_ops r ≡ length (encode_ops r)
    size_ops_lem no_ops = refl
    size_ops_lem (op header req ops) = omega (
      arith,
      size_ops_lem ops,
      size_request_lem req,
      multi_header_encodable.size_lem header,
      length-append (encoding header) (encode_request req ++ encode_ops ops),
      length-append (encode_request req) (encode_ops ops),
    )

  -- Writing a request of any kind never fails, and appends the bytes of its schema.
  pub serialize_request-encode :
      (r : Request) (buf : List ℕ) → serialize_request r buf ≡ ok (tt, buf ++ encode_request r)
  serialize_request-encode r = serialize_request_lem r

  -- `size` of a request is the number of the bytes that it is written as.
  pub size_request-length : (r : Request) → size_request r ≡ length (encode_request r)
  size_request-length r = size_request_lem r

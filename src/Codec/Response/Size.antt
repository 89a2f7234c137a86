-- ===== src/Codec/Response/Size.antt =====
-- codec.rs: what a response is written as, and whether `size` counts it.
use zksrv.Base.{
  ℕ, ◌+◌, ◌*◌, ◌≡◌, ◌≢◌, refl, sym, ap, ◌∙◌, List, [], ◌∷◌, ◌++◌, append_assoc, append-nil, length,
  length-append, length-to_be_bytes, map, as_i32, to_be_bytes, arith,
}
use zksrv.Text.{String}
use zksrv.Errors.{ZkError, ok}
use zksrv.Bytes.{ByteOps}
use zksrv.Buf.{Buf, pure, ◌>>=◌, ◌>>◌, bind-ok}
use zksrv.Buf.Ops.{put_i32, put_slice, write}
use zksrv.Buf.Ops.Laws.{put_i32-bind, put_slice-bind}
use zksrv.Record.{
  Serialize, size, sum_of, for_each, string_serialize, bytes_serialize, vec_serialize,
}
use zksrv.Jute.{encode, encode_items, ustring}
use zksrv.Jute.Conform.{
  Encodable, schema_of, view_of, encoding, serialize_into-bind, for_each-bind, sum_of-length,
  string_encodable, vec_encodable,
}
use zksrv.Proto.Ids.{Acl, acl_serialize, auth_id_serialize}
use zksrv.Proto.Ids.Wire.{acl_encodable}
use zksrv.Proto.Stats.{Stat, stat_serialize}
use zksrv.Proto.Stats.Wire.{stat_encodable}
use zksrv.Proto.Connect.{ConnectResponse, connect_response_serialize}
use zksrv.Proto.Connect.Wire.{connect_response_encodable}
use zksrv.Proto.NodeData.{GetDataResponse, get_data_response_serialize, set_data_response_serialize}
use zksrv.Proto.NodeData.Wire.{get_data_response_encodable, set_data_response_encodable}
use zksrv.Proto.Create.{create_response_serialize, create2_response_serialize}
use zksrv.Proto.Create.Wire.{create_response_encodable, create2_response_encodable}
use zksrv.Proto.Watches.{watcher_event_serialize}
use zksrv.Proto.Watches.Wire.{watcher_event_encodable}
use zksrv.Proto.Admin.{whoami_response_serialize}
use zksrv.Proto.Admin.Wire.{whoami_response_encodable}
use zksrv.Codec.Response.{ZkResponse, MultiResponse, serialize_response, size_response}

module _ ⦃b : ByteOps⦄ where
  -- What is written, and that `size` counts it.
  abbrev pub IsCounted : ZkResponse → List ℕ → Type 0
  IsCounted r out =
      (bs : List ℕ) × (serialize_response r out ≡ ok (tt, out ++ bs))
      × (size_response r ≡ ok (length bs))

  pub one :
      {A : Type 0} ⦃s : Serialize A⦄ ⦃e : Encodable A⦄ (a : A) (out : List ℕ)
      → (s.serialize_into a >>= λ _. pure {A = Unit {0}} tt) out ≡ ok (tt, out ++ encoding a)
  unfolding pure
  one a out = serialize_into-bind (λ _. pure {A = Unit {0}} tt) a out

  connect_size : (r : ConnectResponse) → 4 + 4 + 8 + 4 + length r.passwd + 1 ≡ size r
  unfolding connect_response_serialize bytes_serialize
  connect_size r = omega arith

  get_data_size : (r : GetDataResponse) → 4 + length r.data_bytes + 6 * 8 + 4 * 5 ≡ size r
  unfolding get_data_response_serialize bytes_serialize stat_serialize
  get_data_size r = omega arith

  unfoldable pub put_text : String → Buf ZkError (Unit {0})
  put_text s = put_i32 (as_i32 (length s.as_bytes)) >> put_slice s.as_bytes

  put_text_lem : (s : String) (out : List ℕ) → put_text s out ≡ ok (tt, out ++ encode ustring s)
  unfolding put_text put_slice write
  put_text_lem s out =
      put_i32-bind (λ _. put_slice s.as_bytes) out _
      ∙ rw (b.put_slice_lem s.as_bytes) (simp append_assoc)

  pub put_texts :
      (strs : List String) (out : List ℕ)
      → for_each put_text strs out ≡ ok (tt, out ++ encode_items (encode ustring) strs)
  unfolding for_each encode_items pure
  put_texts [] out = simp append-nil
  put_texts (s ∷ strs) out =
      bind-ok (put_text s) _ out (put_text_lem s out) ∙ put_texts strs _ ∙ simp append_assoc

  texts_size :
      (strs : List String)
      → sum_of (λ s. 4 + length s.as_bytes) strs ≡ length (encode_items (encode ustring) strs)
  unfolding sum_of encode_items
  texts_size [] = refl
  texts_size (s ∷ strs) = omega (
    arith,
    texts_size strs,
    length-append (encode ustring s) (encode_items (encode ustring) strs),
    length-append (to_be_bytes 4 (as_i32 (length s.as_bytes))) s.as_bytes,
    length-to_be_bytes 4 (as_i32 (length s.as_bytes)),
  )

  -- Every response but that of a transaction and but one with an access control list is written
  -- at the end of any buffer, and `size` is the number of the bytes that it is written as.
  pub counted :
      (r : ZkResponse) (out : List ℕ)
      → ((m : MultiResponse) → r ≢ ZkResponse.multi m)
      → ((acl : List Acl) (st : Stat) → r ≢ ZkResponse.get_acl acl st)
      → IsCounted r out
  unfolding serialize_response size_response pure put_text string_encodable string_serialize
  counted (ZkResponse.connect r) out h k =
      (encoding r, one r out, ap ok (connect_size r ∙ connect_response_encodable.size_lem r))
  counted (ZkResponse.get_data r) out h k =
      (encoding r, one r out, ap ok (get_data_size r ∙ get_data_response_encodable.size_lem r))
  counted (ZkResponse.set_data r) out h k =
      (encoding r, one r out, ap ok (set_data_response_encodable.size_lem r))
  counted (ZkResponse.create r) out h k =
      (encoding r, one r out, ap ok (create_response_encodable.size_lem r))
  counted (ZkResponse.create2 r) out h k =
      (encoding r, one r out, ap ok (create2_response_encodable.size_lem r))
  counted (ZkResponse.watch_event r) out h k =
      (encoding r, one r out, ap ok (watcher_event_encodable.size_lem r))
  counted (ZkResponse.whoami r) out h k =
      (encoding r, one r out, ap ok (whoami_response_encodable.size_lem r))
  counted (ZkResponse.get_children2 children st) out h k = (
    encoding children ++ encoding st,
    serialize_into-bind _ children out ∙ serialize_into-bind _ st _ ∙ simp append_assoc,
    ap ok (
        omega (
          arith,
          vec_encodable.size_lem children,
          stat_encodable.size_lem st,
          length-append (encoding children) (encoding st),
        )),
  )
  counted (ZkResponse.get_acl acl st) out h k = absurd (k acl st refl)
  counted ZkResponse.ping out h k = ([], simp append-nil, refl)
  counted (ZkResponse.stat st) out h k =
      (encoding st, one st out, ap ok (stat_encodable.size_lem st))
  counted ZkResponse.empty out h k = ([], simp append-nil, refl)
  counted (ZkResponse.strings strs) out h k =
      let items = encode_items (encode ustring) strs in
      let count = to_be_bytes 4 (as_i32 (length strs)) in
      (
        count ++ items,
        put_i32-bind _ out _
            ∙ bind-ok (for_each put_text strs) _ _ (put_texts strs _)
            ∙ simp append_assoc,
        ap ok (
            omega (
              arith,
              texts_size strs,
              length-append count items,
              length-to_be_bytes 4 (as_i32 (length strs)),
            )),
      )
  counted (ZkResponse.string s) out h k = (
    encoding s,
    simp (put_i32-bind, put_slice-bind, append_assoc),
    ap ok (string_encodable.size_lem s),
  )
  counted (ZkResponse.multi m) out h k = absurd (h m refl)
  counted (ZkResponse.error err) out h k = (
    to_be_bytes 4 err,
    put_i32-bind (λ _. pure tt) out err,
    ap ok (sym (length-to_be_bytes 4 err)),
  )

  acl_size : (a : Acl) → 8 + (4 + length a.id.scheme.as_bytes + length a.id.id.as_bytes) ≡ size a
  unfolding acl_serialize auth_id_serialize string_serialize
  acl_size a = omega arith

  acl_sizes_in :
      (acl : List Acl)
      → 8 * length acl + sum_of (λ a. 4 + length a.id.scheme.as_bytes + length a.id.id.as_bytes) acl
        ≡ sum_of size acl
  unfolding sum_of
  acl_sizes_in [] = refl
  acl_sizes_in (a ∷ acl) = omega (arith, acl_size a, acl_sizes_in acl)

  acl_sizes :
      (acl : List Acl)
      → 8 * length acl + sum_of (λ a. 4 + length a.id.scheme.as_bytes + length a.id.id.as_bytes) acl
        ≡ length (encode_items (encode (schema_of Acl)) (map view_of acl))
  acl_sizes acl = acl_sizes_in acl ∙ sum_of-length acl

  -- The size of an access control list counts eight bytes for each entry, and so falls short of the
  -- bytes that are written by four bytes and the texts of each entry.
  pub get_acl-short :
      (acl : List Acl) (st : Stat) (out : List ℕ)
      → (bs : List ℕ) × (n : ℕ) × (serialize_response (ZkResponse.get_acl acl st) out
          ≡ ok (tt, out ++ bs))
        × (size_response (ZkResponse.get_acl acl st) ≡ ok n)
        × (n + sum_of (λ a. 4 + length a.id.scheme.as_bytes + length a.id.id.as_bytes) acl
            ≡ length bs)
  unfolding serialize_response size_response pure
  get_acl-short acl st out =
      let count = to_be_bytes 4 (as_i32 (length acl)) in
      let items = encode_items (encode (schema_of Acl)) (map view_of acl) in
      (
        count ++ (items ++ encoding st),
        4 + length acl * 8 + size st,
        put_i32-bind _ out _
            ∙ for_each-bind _ acl _
            ∙ serialize_into-bind _ st _
            ∙ simp append_assoc,
        refl,
        omega (
          arith,
          acl_sizes acl,
          stat_encodable.size_lem st,
          length-append count (items ++ encoding st),
          length-append items (encoding st),
          length-to_be_bytes 4 (as_i32 (length acl)),
        ),
      )

-- ===== src/Codec/Server/Reading.antt =====
-- codec.rs: what `ServerPacketCodec` reads behind a header: the requests by their operation codes.
use zksrv.Base.{ℕ, ◌≡◌, refl, sym, ap, ◌∙◌, List, [], ◌∷◌, ◌++◌, subst, append-nil, All, IsByte}
use zksrv.Errors.{ZkError, ok, ok-injective}
use zksrv.Bytes.{ByteOps}
use zksrv.Buf.{Buf, pure, abort, ◌>>=◌, bind-ok, bind-eq-ok}
use zksrv.Buf.Ops.{assert_empty}
use zksrv.Record.{Serialize, Deserialize, deserialize}
use zksrv.Constants.{Codes, OpCodes}
use zksrv.Jute.RoundTrip.{Reads}
use zksrv.Jute.Canonical.{Takes}
use zksrv.Jute.Conform.{Encodable, Conforms, encoding}
use zksrv.Jute.Traits.{CanSend, deserialize-encoding, deserialize-Takes}
use zksrv.Proto.NodeData.{
  get_data_request_serialize, set_data_request_serialize, exists_request_serialize,
  get_data_request_deserialize, set_data_request_deserialize, exists_request_deserialize,
  GetDataRequest, SetDataRequest, ExistsRequest,
}
use zksrv.Proto.NodeData.Wire.{
  get_data_request_encodable, set_data_request_encodable, exists_request_encodable,
  get_data_request_conforms, set_data_request_conforms, exists_request_conforms,
}
use zksrv.Proto.Create.{
  create_ttl_request_serialize, create_request_serialize, delete_request_serialize,
  create_ttl_request_deserialize, create_request_deserialize, delete_request_deserialize,
  CreateTtlRequest, CreateRequest, DeleteRequest,
}
use zksrv.Proto.Create.Wire.{
  create_ttl_request_encodable, create_request_encodable, delete_request_encodable,
  create_ttl_request_conforms, create_request_conforms, delete_request_conforms,
}
use zksrv.Proto.Children.{
  get_children_request_serialize, get_children2_request_serialize, get_children_request_deserialize,
  get_children2_request_deserialize, GetChildrenRequest, GetChildren2Request,
}
use zksrv.Proto.Children.Wire.{
  get_children_request_encodable, get_children2_request_encodable, get_children_request_conforms,
  get_children2_request_conforms,
}
use zksrv.Proto.Acls.{
  get_acl_request_serialize, set_acl_request_serialize, get_acl_request_deserialize,
  set_acl_request_deserialize, GetAclRequest, SetAclRequest,
}
use zksrv.Proto.Acls.Wire.{
  get_acl_request_encodable, set_acl_request_encodable, get_acl_request_conforms,
  set_acl_request_conforms,
}
use zksrv.Proto.Headers.{auth_packet_serialize, auth_packet_deserialize, AuthPacket}
use zksrv.Proto.Headers.Wire.{auth_packet_encodable, auth_packet_conforms}
use zksrv.Proto.Watches.{
  set_watches_serialize, check_watches_request_serialize, set_watches_deserialize,
  check_watches_request_deserialize, SetWatches, CheckWatchesRequest,
}
use zksrv.Proto.Watches.Wire.{
  set_watches_encodable, check_watches_request_encodable, set_watches_conforms,
  check_watches_request_conforms,
}
use zksrv.Proto.Versions.{sync_request_serialize, sync_request_deserialize, SyncRequest}
use zksrv.Proto.Versions.Wire.{sync_request_encodable, sync_request_conforms}
use zksrv.Codec.Request.{Request, MultiRequest, multi_request_deserialize}
use zksrv.Codec.Request.Wire.{encode_request, encode_multi}
use zksrv.Codec.Request.Reading.{IsMulti}
use zksrv.Codec.Request.Total.{multi-Reads, IsMulti-Takes}
use zksrv.Codec.Server.{read_request}

module _ ⦃b : ByteOps⦄ ⦃c : Codes⦄ where
  -- The requests that a client may send, by the code of the operation.
  pub data DataRequest : OpCodes → Request → Type 0 where
    get_data :
        (req : GetDataRequest) → CanSend req → DataRequest OpCodes.get_data (Request.get_data req)
    create_ttl :
        (req : CreateTtlRequest)
        → CanSend req
        → DataRequest OpCodes.create_ttl (Request.create_ttl req)
    create : (req : CreateRequest) → CanSend req → DataRequest OpCodes.create (Request.create req)
    create2 : (req : CreateRequest) → CanSend req → DataRequest OpCodes.create2 (Request.create req)
    create_container :
        (req : CreateRequest)
        → CanSend req
        → DataRequest OpCodes.create_container (Request.create req)
    set_data :
        (req : SetDataRequest) → CanSend req → DataRequest OpCodes.set_data (Request.set_data req)
    get_children :
        (req : GetChildrenRequest)
        → CanSend req
        → DataRequest OpCodes.get_children (Request.get_children req)
    get_children2 :
        (req : GetChildren2Request)
        → CanSend req
        → DataRequest OpCodes.get_children2 (Request.get_children2 req)
    delete : (req : DeleteRequest) → CanSend req → DataRequest OpCodes.delete (Request.delete req)
    exists : (req : ExistsRequest) → CanSend req → DataRequest OpCodes.exists (Request.exists req)
    get_acl :
        (req : GetAclRequest) → CanSend req → DataRequest OpCodes.get_acl (Request.get_acl req)
    set_acl :
        (req : SetAclRequest) → CanSend req → DataRequest OpCodes.set_acl (Request.set_acl req)
    close : DataRequest OpCodes.close Request.close
    set_auth : (req : AuthPacket) → CanSend req → DataRequest OpCodes.set_auth (Request.auth req)
    set_watches :
        (req : SetWatches) → CanSend req → DataRequest OpCodes.set_watches (Request.set_watches req)
    check_watches :
        (req : CheckWatchesRequest)
        → CanSend req
        → DataRequest OpCodes.check_watches (Request.check_watches req)
    whoami : DataRequest OpCodes.whoami Request.whoami
    multi : (req : MultiRequest) → IsMulti req → DataRequest OpCodes.multi (Request.multi req)
    sync : (req : SyncRequest) → CanSend req → DataRequest OpCodes.sync (Request.sync req)

  -- Reading the whole of an input.
  pub whole {ℓ} :
      {A : Type ℓ} (m : Buf ZkError A) (bs : List ℕ) (a : A) → Reads m bs a → m bs ≡ ok (a, [])
  whole m bs a h = ap m (sym (append-nil bs)) ∙ h []

  pub message :
      {A : Type 0} ⦃s : Serialize A⦄ ⦃d : Deserialize A⦄ ⦃e : Encodable A⦄ ⦃k : Conforms A⦄ (a : A)
      → CanSend a
      → d.deserialize (encoding a) ≡ ok (a, [])
  message a h = whole deserialize (encoding a) a (deserialize-encoding a h)

  -- A request that was written is read back by the code that announces it.
  pub read_request-encode :
      {o : OpCodes} {r : Request} → DataRequest o r → read_request o (encode_request r) ≡ ok (r, [])
  unfolding read_request encode_request assert_empty pure
  read_request-encode (DataRequest.get_data req h) = bind-ok deserialize _ _ (message req h)
  read_request-encode (DataRequest.create_ttl req h) = bind-ok deserialize _ _ (message req h)
  read_request-encode (DataRequest.create req h) = bind-ok deserialize _ _ (message req h)
  read_request-encode (DataRequest.create2 req h) = bind-ok deserialize _ _ (message req h)
  read_request-encode (DataRequest.create_container req h) = bind-ok deserialize _ _ (message req h)
  read_request-encode (DataRequest.set_data req h) = bind-ok deserialize _ _ (message req h)
  read_request-encode (DataRequest.get_children req h) = bind-ok deserialize _ _ (message req h)
  read_request-encode (DataRequest.get_children2 req h) = bind-ok deserialize _ _ (message req h)
  read_request-encode (DataRequest.delete req h) = bind-ok deserialize _ _ (message req h)
  read_request-encode (DataRequest.exists req h) = bind-ok deserialize _ _ (message req h)
  read_request-encode (DataRequest.get_acl req h) = bind-ok deserialize _ _ (message req h)
  read_request-encode (DataRequest.set_acl req h) = bind-ok deserialize _ _ (message req h)
  read_request-encode DataRequest.close = refl
  read_request-encode (DataRequest.set_auth req h) = bind-ok deserialize _ _ (message req h)
  read_request-encode (DataRequest.set_watches req h) = bind-ok deserialize _ _ (message req h)
  read_request-encode (DataRequest.check_watches req h) = bind-ok deserialize _ _ (message req h)
  read_request-encode DataRequest.whoami = bind-ok assert_empty _ _ refl
  read_request-encode (DataRequest.multi req h) =
      bind-ok deserialize _ _ (whole deserialize (encode_multi req) req (multi-Reads req h))
      ∙ bind-ok assert_empty _ _ refl
  read_request-encode (DataRequest.sync req h) =
      bind-ok deserialize _ _ (message req h) ∙ bind-ok assert_empty _ _ refl

  -- What a run took off its input.
  abbrev pub Took : OpCodes → List ℕ → Request × List ℕ → Type 0
  Took o buf (r, rest) = DataRequest o r × (buf ≡ encode_request r ++ rest)

  pub assert_empty-eq-ok :
      (buf : List ℕ) {u : Unit {0}} {rest : List ℕ}
      → assert_empty {E = ZkError} buf ≡ ok (u, rest)
      → buf ≡ rest
  unfolding assert_empty
  assert_empty-eq-ok [] h = cc
  assert_empty-eq-ok (x ∷ xs) h = cc

  module _ {A : Type 0} ⦃d : Deserialize A⦄ (e : A → List ℕ) (Good : A → Type 0)
      (t : Takes d.deserialize e Good) (o : OpCodes) (make : A → Request)
      (announce : (a : A) → Good a → DataRequest o (make a))
      (same : (a : A) → encode_request (make a) ≡ e a) (buf : List ℕ) (r : Request × List ℕ)
      (bytes : All IsByte buf) where
    read_as : (d.deserialize >>= λ req. pure (make req)) buf ≡ ok r → Took o buf r
    unfolding pure
    read_as h =
        let (a, mid, got, last) = bind-eq-ok deserialize _ buf h in
        let (sendable, front) = t buf a mid bytes got in
        subst (Took o buf) (ok-injective last) (announce a sendable, rw (same a) front)

    read_all :
        (d.deserialize >>= λ req. assert_empty >>= λ _. pure (make req)) buf ≡ ok r → Took o buf r
    unfolding pure
    read_all h =
        let (a, mid, got, h') = bind-eq-ok deserialize _ buf h in
        let (u, mid', empty, last) = bind-eq-ok assert_empty _ mid h' in
        let (sendable, front) = t buf a mid bytes got in
        subst (Took o buf) (ok-injective last)
          (announce a sendable, rw (same a, ← assert_empty-eq-ok mid empty) front)

  -- What is read by a code is a request that it announces, and its bytes are what was taken.
  pub read_request-eq-ok :
      (o : OpCodes) (buf : List ℕ) (r : Request × List ℕ)
      → All IsByte buf
      → read_request o buf ≡ ok r
      → Took o buf r
  unfolding read_request encode_request abort pure
  read_request-eq-ok OpCodes.get_data buf r bytes h =
      read_as encoding CanSend deserialize-Takes OpCodes.get_data Request.get_data
        DataRequest.get_data (λ a. refl) buf r bytes h
  read_request-eq-ok OpCodes.create_ttl buf r bytes h =
      read_as encoding CanSend deserialize-Takes OpCodes.create_ttl Request.create_ttl
        DataRequest.create_ttl (λ a. refl) buf r bytes h
  read_request-eq-ok OpCodes.create buf r bytes h =
      read_as encoding CanSend deserialize-Takes OpCodes.create Request.create DataRequest.create
        (λ a. refl) buf r bytes h
  read_request-eq-ok OpCodes.create2 buf r bytes h =
      read_as encoding CanSend deserialize-Takes OpCodes.create2 Request.create DataRequest.create2
        (λ a. refl) buf r bytes h
  read_request-eq-ok OpCodes.create_container buf r bytes h =
      read_as encoding CanSend deserialize-Takes OpCodes.create_container Request.create
        DataRequest.create_container (λ a. refl) buf r bytes h
  read_request-eq-ok OpCodes.set_data buf r bytes h =
      read_as encoding CanSend deserialize-Takes OpCodes.set_data Request.set_data
        DataRequest.set_data (λ a. refl) buf r bytes h
  read_request-eq-ok OpCodes.get_children buf r bytes h =
      read_as encoding CanSend deserialize-Takes OpCodes.get_children Request.get_children
        DataRequest.get_children (λ a. refl) buf r bytes h
  read_request-eq-ok OpCodes.get_children2 buf r bytes h =
      read_as encoding CanSend deserialize-Takes OpCodes.get_children2 Request.get_children2
        DataRequest.get_children2 (λ a. refl) buf r bytes h
  read_request-eq-ok OpCodes.delete buf r bytes h =
      read_as encoding CanSend deserialize-Takes OpCodes.delete Request.delete DataRequest.delete
        (λ a. refl) buf r bytes h
  read_request-eq-ok OpCodes.exists buf r bytes h =
      read_as encoding CanSend deserialize-Takes OpCodes.exists Request.exists DataRequest.exists
        (λ a. refl) buf r bytes h
  read_request-eq-ok OpCodes.get_acl buf r bytes h =
      read_as encoding CanSend deserialize-Takes OpCodes.get_acl Request.get_acl DataRequest.get_acl
        (λ a. refl) buf r bytes h
  read_request-eq-ok OpCodes.set_acl buf r bytes h =
      read_as encoding CanSend deserialize-Takes OpCodes.set_acl Request.set_acl DataRequest.set_acl
        (λ a. refl) buf r bytes h
  read_request-eq-ok OpCodes.close buf r bytes h =
      subst (Took OpCodes.close buf) (ok-injective h) (DataRequest.close, refl)
  read_request-eq-ok OpCodes.set_auth buf r bytes h =
      read_as encoding CanSend deserialize-Takes OpCodes.set_auth Request.auth DataRequest.set_auth
        (λ a. refl) buf r bytes h
  read_request-eq-ok OpCodes.set_watches buf r bytes h =
      read_as encoding CanSend deserialize-Takes OpCodes.set_watches Request.set_watches
        DataRequest.set_watches (λ a. refl) buf r bytes h
  read_request-eq-ok OpCodes.check_watches buf r bytes h =
      read_as encoding CanSend deserialize-Takes OpCodes.check_watches Request.check_watches
        DataRequest.check_watches (λ a. refl) buf r bytes h
  read_request-eq-ok OpCodes.whoami buf r bytes h =
      let (u, mid, empty, last) = bind-eq-ok assert_empty _ buf h in
      subst (Took OpCodes.whoami buf) (ok-injective last)
        (DataRequest.whoami, assert_empty-eq-ok buf empty)
  read_request-eq-ok OpCodes.multi buf r bytes h =
      read_all encode_multi IsMulti IsMulti-Takes OpCodes.multi Request.multi DataRequest.multi
        (λ a. refl) buf r bytes h
  read_request-eq-ok OpCodes.sync buf r bytes h =
      read_all encoding CanSend deserialize-Takes OpCodes.sync Request.sync DataRequest.sync
        (λ a. refl) buf r bytes h
  read_request-eq-ok _ buf r bytes h = cc

-- ===== src/Codec/Request/Reading.antt =====
-- codec.rs: what is read of a transaction, `MultiRequest::deserialize`.
use zksrv.Base.{ℕ, ◌≡◌, ◌≢◌, refl, List, ◌++◌, subst, All, IsByte}
use zksrv.Errors.{ok, ok-injective}
use zksrv.Bytes.{ByteOps}
use zksrv.Buf.{pure, abort, ◌>>=◌, bind-ok, bind-eq-ok}
use zksrv.Record.{Serialize, Deserialize, deserialize}
use zksrv.Constants.{Codes, OpCodes, op_number}
use zksrv.Jute.RoundTrip.{Reads}
use zksrv.Jute.Conform.{Encodable, Conforms, encoding}
use zksrv.Jute.Traits.{CanSend, deserialize-encoding, deserialize-Takes}
use zksrv.Proto.Create.{
  create_request_serialize, create_ttl_request_serialize, delete_request_serialize,
  create_request_deserialize, create_ttl_request_deserialize, delete_request_deserialize,
  CreateRequest, CreateTtlRequest, DeleteRequest,
}
use zksrv.Proto.Create.Wire.{
  create_request_encodable, create_ttl_request_encodable, delete_request_encodable,
  create_request_conforms, create_ttl_request_conforms, delete_request_conforms,
}
use zksrv.Proto.NodeData.{
  exists_request_serialize, get_data_request_serialize, set_data_request_serialize,
  exists_request_deserialize, get_data_request_deserialize, set_data_request_deserialize,
  ExistsRequest, GetDataRequest, SetDataRequest,
}
use zksrv.Proto.NodeData.Wire.{
  exists_request_encodable, get_data_request_encodable, set_data_request_encodable,
  exists_request_conforms, get_data_request_conforms, set_data_request_conforms,
}
use zksrv.Proto.Children.{
  get_children_request_serialize, get_children_request_deserialize, GetChildrenRequest,
}
use zksrv.Proto.Children.Wire.{get_children_request_encodable, get_children_request_conforms}
use zksrv.Proto.Watches.{
  check_watches_request_serialize, check_watches_request_deserialize, CheckWatchesRequest,
}
use zksrv.Proto.Watches.Wire.{check_watches_request_encodable, check_watches_request_conforms}
use zksrv.Proto.Headers.{multi_header_serialize, multi_header_deserialize, MultiHeader}
use zksrv.Proto.Headers.Wire.{multi_header_encodable, multi_header_conforms}
use zksrv.Codec.Request.{
  Request, MultiRequest, Ops, multi_request, deserialize_request, multi_request_deserialize,
}
use zksrv.Codec.Request.Wire.{encode_request}

module _ ⦃b : ByteOps⦄ where
  -- The operation codes of a transaction, and the request that each announces.
  pub data Announces : OpCodes → Request → Type 0 where
    create : (req : CreateRequest) → CanSend req → Announces OpCodes.create (Request.create req)
    create2 : (req : CreateRequest) → CanSend req → Announces OpCodes.create2 (Request.create req)
    create_ttl :
        (req : CreateTtlRequest)
        → CanSend req
        → Announces OpCodes.create_ttl (Request.create_ttl req)
    create_container :
        (req : CreateRequest)
        → CanSend req
        → Announces OpCodes.create_container (Request.create req)
    delete : (req : DeleteRequest) → CanSend req → Announces OpCodes.delete (Request.delete req)
    set_data :
        (req : SetDataRequest) → CanSend req → Announces OpCodes.set_data (Request.set_data req)
    check :
        (req : CheckWatchesRequest)
        → CanSend req
        → Announces OpCodes.check (Request.check_watches req)
    get_children :
        (req : GetChildrenRequest)
        → CanSend req
        → Announces OpCodes.get_children (Request.get_children req)
    exists : (req : ExistsRequest) → CanSend req → Announces OpCodes.exists (Request.exists req)
    get_data :
        (req : GetDataRequest) → CanSend req → Announces OpCodes.get_data (Request.get_data req)

  pub deserialize_request-Reads :
      {o : OpCodes} {r : Request}
      → Announces o r
      → Reads (deserialize_request o) (encode_request r) r
  unfolding deserialize_request encode_request pure
  deserialize_request-Reads (Announces.create req h) rest =
      bind-ok deserialize _ _ (deserialize-encoding req h rest)
  deserialize_request-Reads (Announces.create2 req h) rest =
      bind-ok deserialize _ _ (deserialize-encoding req h rest)
  deserialize_request-Reads (Announces.create_ttl req h) rest =
      bind-ok deserialize _ _ (deserialize-encoding req h rest)
  deserialize_request-Reads (Announces.create_container req h) rest =
      bind-ok deserialize _ _ (deserialize-encoding req h rest)
  deserialize_request-Reads (Announces.delete req h) rest =
      bind-ok deserialize _ _ (deserialize-encoding req h rest)
  deserialize_request-Reads (Announces.set_data req h) rest =
      bind-ok deserialize _ _ (deserialize-encoding req h rest)
  deserialize_request-Reads (Announces.check req h) rest =
      bind-ok deserialize _ _ (deserialize-encoding req h rest)
  deserialize_request-Reads (Announces.get_children req h) rest =
      bind-ok deserialize _ _ (deserialize-encoding req h rest)
  deserialize_request-Reads (Announces.exists req h) rest =
      bind-ok deserialize _ _ (deserialize-encoding req h rest)
  deserialize_request-Reads (Announces.get_data req h) rest =
      bind-ok deserialize _ _ (deserialize-encoding req h rest)

  -- A message that was read, and the request that it is made into.
  read_as :
      {A : Type 0} ⦃s : Serialize A⦄ ⦃d : Deserialize A⦄ ⦃e : Encodable A⦄ ⦃c : Conforms A⦄
      (o : OpCodes) (make : A → Request)
      → ((a : A) → CanSend a → Announces o (make a))
      → ((a : A) → encode_request (make a) ≡ encoding a)
      → (buf : List ℕ) (r : Request) (rest : List ℕ) → All IsByte buf
      → (d.deserialize >>= λ req. pure (make req)) buf ≡ ok (r, rest)
      → Announces o r × (buf ≡ encode_request r ++ rest)
  unfolding pure
  read_as o make announce same buf r rest bytes h =
      let (a, mid, got, last) = bind-eq-ok deserialize _ buf h in
      let (sendable, whole) = deserialize-Takes buf a mid bytes got in
      subst (λ p. Announces o p.0 × (buf ≡ encode_request p.0 ++ p.1)) (ok-injective last)
        (announce a sendable, rw (same a) whole)

  pub deserialize_request-eq-ok :
      (o : OpCodes) (buf : List ℕ) (r : Request) (rest : List ℕ)
      → All IsByte buf
      → deserialize_request o buf ≡ ok (r, rest)
      → Announces o r × (buf ≡ encode_request r ++ rest)
  unfolding deserialize_request encode_request abort
  deserialize_request-eq-ok OpCodes.create =
      read_as OpCodes.create Request.create Announces.create (λ a. refl)
  deserialize_request-eq-ok OpCodes.create2 =
      read_as OpCodes.create2 Request.create Announces.create2 (λ a. refl)
  deserialize_request-eq-ok OpCodes.create_ttl =
      read_as OpCodes.create_ttl Request.create_ttl Announces.create_ttl (λ a. refl)
  deserialize_request-eq-ok OpCodes.create_container =
      read_as OpCodes.create_container Request.create Announces.create_container (λ a. refl)
  deserialize_request-eq-ok OpCodes.delete =
      read_as OpCodes.delete Request.delete Announces.delete (λ a. refl)
  deserialize_request-eq-ok OpCodes.set_data =
      read_as OpCodes.set_data Request.set_data Announces.set_data (λ a. refl)
  deserialize_request-eq-ok OpCodes.check =
      read_as OpCodes.check Request.check_watches Announces.check (λ a. refl)
  deserialize_request-eq-ok OpCodes.get_children =
      read_as OpCodes.get_children Request.get_children Announces.get_children (λ a. refl)
  deserialize_request-eq-ok OpCodes.exists =
      read_as OpCodes.exists Request.exists Announces.exists (λ a. refl)
  deserialize_request-eq-ok OpCodes.get_data =
      read_as OpCodes.get_data Request.get_data Announces.get_data (λ a. refl)
  deserialize_request-eq-ok _ = λ buf r rest bytes h. cc

  module _ ⦃c : Codes⦄ where
    -- The operations of a transaction that can be read back: each header carries the code of its
    -- operation, and only the last is marked as done.
    pub data AreOps : Ops → Type 0 where
      no_ops : AreOps Ops.no_ops
      op :
          {o : OpCodes} {header : MultiHeader} {req : Request} {ops : Ops}
          → CanSend header
          → header.done ≢ 1
          → op_number o ≡ header.type
          → Announces o req
          → AreOps ops
          → AreOps (Ops.op header req ops)

    abbrev pub IsMulti : MultiRequest → Type 0
    IsMulti (multi_request ops done_header) =
        AreOps ops × CanSend done_header × (done_header.done ≡ 1)

-- ===== src/Codec/Request.antt =====
-- codec.rs: a client's requests, the requests of a transaction (`MultiRequest`), and how they are
-- written and read.
pub mod Wire
pub mod Reading
pub mod Multi
pub mod Total
pub mod Ends
pub mod RoundTrip
use zksrv.Base.{ℕ, zero, suc, ◌+◌, Option, none, some, List, [], ◌∷◌, ◌==◌, length, if◌then◌else◌}
use zksrv.Errors.{ZkError, invalid_op_code}
use zksrv.Bytes.{ByteOps}
use zksrv.Buf.{Buf, pure, fail, abort, give_up, ◌>>=◌, ◌>>◌}
use zksrv.Buf.Ops.{remaining}
use zksrv.Record.{Serialize, Deserialize, serialize_into, size, deserialize}
use zksrv.Constants.{Codes, OpCodes}
use zksrv.Proto.Connect.{ConnectRequest, connect_request_serialize}
use zksrv.Proto.Headers.{
  AuthPacket, auth_packet_serialize, MultiHeader, multi_header_serialize, multi_header_deserialize,
}
use zksrv.Proto.Create.{
  CreateRequest, create_request_serialize, create_request_deserialize, CreateTtlRequest,
  create_ttl_request_serialize, create_ttl_request_deserialize, DeleteRequest,
  delete_request_serialize, delete_request_deserialize,
}
use zksrv.Proto.NodeData.{
  ExistsRequest, exists_request_serialize, exists_request_deserialize, GetDataRequest,
  get_data_request_serialize, get_data_request_deserialize, SetDataRequest,
  set_data_request_serialize, set_data_request_deserialize,
}
use zksrv.Proto.Acls.{
  GetAclRequest, get_acl_request_serialize, SetAclRequest, set_acl_request_serialize,
}
use zksrv.Proto.Children.{
  GetChildrenRequest, get_children_request_serialize, get_children_request_deserialize,
  GetChildren2Request, get_children2_request_serialize,
}
use zksrv.Proto.Watches.{
  SetWatches, set_watches_serialize, CheckWatchesRequest, check_watches_request_serialize,
  check_watches_request_deserialize,
}
use zksrv.Proto.Versions.{SyncRequest, sync_request_serialize}

mutual
  pub data Request : Type 0 where
    connect : ConnectRequest → Request
    auth : AuthPacket → Request
    create : CreateRequest → Request
    create_ttl : CreateTtlRequest → Request
    delete : DeleteRequest → Request
    exists : ExistsRequest → Request
    get_data : GetDataRequest → Request
    set_data : SetDataRequest → Request
    get_acl : GetAclRequest → Request
    set_acl : SetAclRequest → Request
    get_children : GetChildrenRequest → Request
    get_children2 : GetChildren2Request → Request
    ping : Request
    whoami : Request
    get_children3 : GetChildrenRequest → Request
    multi : MultiRequest → Request
    close : Request
    set_watches : SetWatches → Request
    check_watches : CheckWatchesRequest → Request
    sync : SyncRequest → Request

  -- The operations of a transaction and the header that ends it.
  pub data MultiRequest : Type 0 where
    multi_request : Ops → MultiHeader → MultiRequest

  -- `Vec<(MultiHeader, Request)>`
  pub data Ops : Type 0 where
    no_ops : Ops
    op : MultiHeader → Request → Ops → Ops

module _ ⦃b : ByteOps⦄ where
  unfoldable mutual
    pub serialize_request : Request → Buf ZkError (Unit {0})
    serialize_request (create req) = serialize_into req
    serialize_request (delete req) = serialize_into req
    serialize_request (exists req) = serialize_into req
    serialize_request (get_data req) = serialize_into req
    serialize_request (set_data req) = serialize_into req
    serialize_request (get_acl req) = serialize_into req
    serialize_request (set_acl req) = serialize_into req
    serialize_request (get_children req) = serialize_into req
    serialize_request (get_children2 req) = serialize_into req
    serialize_request ping = pure tt
    serialize_request (get_children3 req) = serialize_into req
    serialize_request close = pure tt
    serialize_request (set_watches req) = serialize_into req
    serialize_request (connect req) = serialize_into req
    serialize_request (auth req) = serialize_into req
    serialize_request (create_ttl req) = serialize_into req
    serialize_request (check_watches req) = serialize_into req
    serialize_request whoami = pure tt
    serialize_request (multi req) = serialize_multi req
    serialize_request (sync req) = serialize_into req

    pub serialize_multi : MultiRequest → Buf ZkError (Unit {0})
    serialize_multi (multi_request ops done_header) = do
      serialize_ops ops
      serialize_into done_header
      pure tt

    pub serialize_ops : Ops → Buf ZkError (Unit {0})
    serialize_ops no_ops = pure tt
    serialize_ops (op header req ops) = do
      serialize_into header
      serialize_request req
      serialize_ops ops

  unfoldable mutual
    pub size_request : Request → ℕ
    size_request (create req) = size req
    size_request (delete req) = size req
    size_request (exists req) = size req
    size_request (get_data req) = size req
    size_request (set_data req) = size req
    size_request (get_acl req) = size req
    size_request (set_acl req) = size req
    size_request (get_children req) = size req
    size_request (get_children2 req) = size req
    size_request ping = 0
    size_request (get_children3 req) = size req
    size_request close = 0
    size_request (set_watches req) = size req
    size_request (connect req) = size req
    size_request (auth req) = size req
    size_request (create_ttl req) = size req
    size_request (check_watches req) = size req
    size_request whoami = 0
    size_request (multi req) = size_multi req
    size_request (sync req) = size req

    pub size_multi : MultiRequest → ℕ
    size_multi (multi_request ops done_header) = size_ops ops + size done_header

    pub size_ops : Ops → ℕ
    size_ops no_ops = 0
    size_ops (op header req ops) = size header + size_request req + size_ops ops

  instance unfoldable pub request_serialize : Serialize Request
  unfolding serialize_request size_request
  request_serialize = record { serialize_into = serialize_request; size = size_request }

  instance unfoldable pub multi_request_serialize : Serialize MultiRequest
  unfolding serialize_multi size_multi
  multi_request_serialize = record { serialize_into = serialize_multi; size = size_multi }

  -- `Request::deserialize`: the operations that a transaction may hold. Any other is
  -- `unreachable!`.
  unfoldable pub deserialize_request : OpCodes → Buf ZkError Request
  deserialize_request OpCodes.create = do req ← deserialize; pure (create req)
  deserialize_request OpCodes.create2 = do req ← deserialize; pure (create req)
  deserialize_request OpCodes.create_ttl = do req ← deserialize; pure (create_ttl req)
  deserialize_request OpCodes.create_container = do req ← deserialize; pure (create req)
  deserialize_request OpCodes.delete = do req ← deserialize; pure (delete req)
  deserialize_request OpCodes.set_data = do req ← deserialize; pure (set_data req)
  deserialize_request OpCodes.check = do req ← deserialize; pure (check_watches req)
  deserialize_request OpCodes.get_children = do req ← deserialize; pure (get_children req)
  deserialize_request OpCodes.exists = do req ← deserialize; pure (exists req)
  deserialize_request OpCodes.get_data = do req ← deserialize; pure (get_data req)
  deserialize_request _ = abort

  -- `opt.ok_or(e)?`
  unfoldable pub ok_or {ℓ} : {A : Type ℓ} → Option A → ZkError → Buf ZkError A
  ok_or (some a) e = pure a
  ok_or none e = fail e

  module _ ⦃c : Codes⦄ where
    -- The loop of `MultiRequest::deserialize`. A header that is not the last is followed by its
    -- operation.
    unfoldable pub deserialize_ops : ℕ → Buf ZkError (Ops × MultiHeader)
    unfolding ok_or
    deserialize_ops zero = give_up
    deserialize_ops (suc fuel) = do
      header ← deserialize
      let next = do
        opcode ← ok_or (c.ops.from_i32 header.type) (invalid_op_code header.type)
        req ← deserialize_request opcode
        (ops, done_header) ← deserialize_ops fuel
        pure (op header req ops, done_header)
      if header.done == 1 then pure (no_ops, header) else next

    -- Each round takes a header of nine bytes at least, so the length of the input is fuel enough.
    instance unfoldable pub multi_request_deserialize : Deserialize MultiRequest
    unfolding deserialize_ops
    multi_request_deserialize = record {
      deserialize = do
        len ← remaining
        (ops, done_header) ← deserialize_ops (suc len)
        pure (multi_request ops done_header);
    }

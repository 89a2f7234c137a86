-- ===== src/Codec/Response.antt =====
-- codec.rs: the backend's responses, the responses of a transaction (`MultiResponse`), and how they
-- are written, sized and read.
pub mod Size
pub mod Errors
pub mod RoundTrip
pub mod Ends
use zksrv.Base.{
  ℕ, zero, suc, ◌+◌, ◌*◌, Option, none, some, List, [], ◌∷◌, ◌==◌, length, as_i32, neg_i32,
  if◌then◌else◌,
}
use zksrv.Text.{String}
use zksrv.Errors.{ZkError, invalid_op_code, Outcome, ok, panic, and_then}
use zksrv.Bytes.{ByteOps}
use zksrv.Buf.{Buf, pure, fail, abort, give_up, ◌>>=◌, ◌>>◌}
use zksrv.Buf.Ops.{remaining, assert_empty, put_i32, put_slice}
use zksrv.Record.{
  Serialize, Deserialize, serialize_into, size, deserialize, for_each, sum_of, string_serialize,
  string_deserialize, bytes_deserialize, vec_serialize, vec_deserialize,
}
use zksrv.Constants.{Codes, OpCodes, ZooErrors, error_number}
use zksrv.Proto.Ids.{Acl, acl_serialize, acl_deserialize}
use zksrv.Proto.Stats.{Stat, stat_serialize, stat_deserialize}
use zksrv.Proto.Connect.{ConnectResponse, connect_response_serialize}
use zksrv.Proto.Headers.{MultiHeader, multi_header_serialize, multi_header_deserialize}
use zksrv.Proto.NodeData.{
  GetDataResponse, get_data_response_serialize, SetDataResponse, set_data_response_serialize,
}
use zksrv.Proto.Create.{
  CreateResponse, create_response_serialize, create_response_deserialize, Create2Response,
  create2_response_serialize, create2_response_deserialize,
}
use zksrv.Proto.Watches.{WatcherEvent, watcher_event_serialize}
use zksrv.Proto.Admin.{WhoAmIResponse, whoami_response_serialize, whoami_response_deserialize}
use zksrv.Codec.Request.{ok_or}

mutual
  pub data ZkResponse : Type 0 where
    connect : ConnectResponse → ZkResponse
    get_data : GetDataResponse → ZkResponse
    set_data : SetDataResponse → ZkResponse
    create : CreateResponse → ZkResponse
    create2 : Create2Response → ZkResponse
    watch_event : WatcherEvent → ZkResponse
    whoami : WhoAmIResponse → ZkResponse
    get_children2 : List String → Stat → ZkResponse
    get_acl : List Acl → Stat → ZkResponse
    ping : ZkResponse
    stat : Stat → ZkResponse
    empty : ZkResponse
    strings : List String → ZkResponse
    string : String → ZkResponse
    multi : MultiResponse → ZkResponse
    error : ℕ → ZkResponse

  -- The results of a transaction and the header that ends it.
  pub data MultiResponse : Type 0 where
    multi_response : Results → MultiHeader → MultiResponse

  -- `Vec<Result<(ZkResponse, MultiHeader), ZooErrors>>`
  pub data Results : Type 0 where
    no_results : Results
    done : ZkResponse → MultiHeader → Results → Results
    failed : ZooErrors → Results → Results

module _ ⦃b : ByteOps⦄ where
  -- A transaction's response is `todo!`.
  unfoldable pub serialize_response : ZkResponse → Buf ZkError (Unit {0})
  serialize_response (connect resp) = do serialize_into resp; pure tt
  serialize_response (get_data r) = do serialize_into r; pure tt
  serialize_response ping = pure tt
  serialize_response (get_acl acl st) = do
    put_i32 (as_i32 (length acl))
    for_each serialize_into acl
    serialize_into st
    pure tt
  serialize_response (stat st) = do serialize_into st; pure tt
  serialize_response empty = pure tt
  serialize_response (strings strs) = do
    put_i32 (as_i32 (length strs))
    for_each (λ s. put_i32 (as_i32 (length s.as_bytes)) >> put_slice s.as_bytes) strs
    pure tt
  serialize_response (string str) = do
    put_i32 (as_i32 (length str.as_bytes))
    put_slice str.as_bytes
    pure tt
  serialize_response (multi _) = abort
  serialize_response (get_children2 children st) = do
    serialize_into children
    serialize_into st
    pure tt
  serialize_response (watch_event req) = do serialize_into req; pure tt
  serialize_response (create2 req) = do serialize_into req; pure tt
  serialize_response (whoami res) = do serialize_into res; pure tt
  serialize_response (set_data res) = do serialize_into res; pure tt
  serialize_response (create res) = do serialize_into res; pure tt
  serialize_response (error err) = do put_i32 err; pure tt

  unfoldable pub size_response : ZkResponse → Outcome ZkError ℕ
  size_response (connect r) = ok (4 + 4 + 8 + 4 + length r.passwd + 1)
  size_response (get_data r) = ok (4 + length r.data_bytes + 6 * 8 + 4 * 5)
  size_response ping = ok 0
  size_response (get_acl acl st) = ok (4 + length acl * 8 + size st)
  size_response (stat st) = ok (size st)
  size_response empty = ok 0
  size_response (strings strs) = ok (4 + sum_of (λ s. 4 + length s.as_bytes) strs)
  size_response (string str) = ok (4 + length str.as_bytes)
  size_response (multi _) = panic
  size_response (get_children2 children st) = ok (size children + size st)
  size_response (watch_event req) = ok (size req)
  size_response (create2 req) = ok (size req)
  size_response (whoami req) = ok (size req)
  size_response (set_data req) = ok (size req)
  size_response (create req) = ok (size req)
  size_response (error _) = ok 4

  -- The headers of the results are written, and the responses are not.
  unfoldable pub serialize_results : Results → Buf ZkError (Unit {0})
  serialize_results no_results = pure tt
  serialize_results (done response header results) =
      serialize_into header >> serialize_results results
  serialize_results (failed err results) =
      let header : MultiHeader = record { type = neg_i32 1; done = 0; err = error_number err } in
      serialize_into header >> serialize_results results

  unfoldable pub serialize_multi_response : MultiResponse → Buf ZkError (Unit {0})
  unfolding serialize_results
  serialize_multi_response (multi_response results done_header) = do
    serialize_results results
    serialize_into done_header
    pure tt

  unfoldable pub size_results : Results → Outcome ZkError ℕ
  unfolding size_response
  size_results no_results = ok 0
  size_results (done response header results) =
      and_then (size_response response)
        λ n. and_then (size_results results) λ m. ok (size header + n + m)
  size_results (failed _ results) = and_then (size_results results) λ m. ok (4 + 1 + 4 + m)

  unfoldable pub size_multi_response : MultiResponse → Outcome ZkError ℕ
  unfolding size_results
  size_multi_response (multi_response results done_header) =
      and_then (size_results results) λ m. ok (m + size done_header)

  -- `ZkResponse::deserialize` by the operation that was asked for, and the loop of
  -- `MultiResponse::deserialize`, on fuel. Other operations are `todo!` or `unreachable!`.
  module _ ⦃c : Codes⦄ where
    -- The rest of the buffer must be empty.
    unfoldable pub ended : ZkResponse → Buf ZkError ZkResponse
    ended r = do assert_empty; pure r

    unfoldable mutual
      pub deserialize_response : ℕ → OpCodes → Buf ZkError ZkResponse
      deserialize_response zero opcode = give_up
      deserialize_response (suc fuel) OpCodes.exists = do st ← deserialize; ended (stat st)
      deserialize_response (suc fuel) OpCodes.set_data = do st ← deserialize; ended (stat st)
      deserialize_response (suc fuel) OpCodes.set_acl = do st ← deserialize; ended (stat st)
      deserialize_response (suc fuel) OpCodes.get_data = do
        bs ← deserialize
        st ← deserialize
        ended (get_data (record { data_bytes = bs; stat = st }))
      deserialize_response (suc fuel) OpCodes.delete = ended empty
      deserialize_response (suc fuel) OpCodes.close = ended empty
      deserialize_response (suc fuel) OpCodes.get_children = do
        children ← deserialize
        ended (strings children)
      deserialize_response (suc fuel) OpCodes.get_children2 = do
        children ← deserialize
        st ← deserialize
        ended (get_children2 children st)
      deserialize_response (suc fuel) OpCodes.create = do resp ← deserialize; ended (create resp)
      deserialize_response (suc fuel) OpCodes.create_ttl = do
        path ← deserialize
        ended (string path)
      deserialize_response (suc fuel) OpCodes.get_acl = do
        acl ← deserialize
        st ← deserialize
        ended (get_acl acl st)
      deserialize_response (suc fuel) OpCodes.check = ended empty
      deserialize_response (suc fuel) OpCodes.create_container = do
        path ← deserialize
        ended (string path)
      deserialize_response (suc fuel) OpCodes.set_auth = ended empty
      deserialize_response (suc fuel) OpCodes.set_watches = ended empty
      deserialize_response (suc fuel) OpCodes.create2 = do res ← deserialize; ended (create2 res)
      deserialize_response (suc fuel) OpCodes.check_watches = ended empty
      deserialize_response (suc fuel) OpCodes.whoami = do res ← deserialize; ended (whoami res)
      deserialize_response (suc fuel) OpCodes.multi = do
        (results, done_header) ← deserialize_results fuel
        ended (multi (multi_response results done_header))
      deserialize_response (suc fuel) OpCodes.error = ended empty
      deserialize_response (suc fuel) _ = abort

      pub deserialize_results : ℕ → Buf ZkError (Results × MultiHeader)
      deserialize_results zero = give_up
      deserialize_results (suc fuel) = do
        header ← deserialize
        let failed_one = do
          (results, done_header) ← deserialize_results fuel
          pure (done (error header.err) header results, done_header)
        let next = do
          opcode ← ok_or (c.ops.from_i32 header.type) (invalid_op_code (neg_i32 1))
          response ← deserialize_response fuel opcode
          (results, done_header) ← deserialize_results fuel
          pure (done response header results, done_header)
        let other = if header.type == neg_i32 1 then failed_one else next
        if header.done == 1 then pure (no_results, header) else other

    -- `ZkResponse::deserialize`, on fuel that is enough: two rounds take a header of nine bytes.
    unfoldable pub read_response : OpCodes → Buf ZkError ZkResponse
    unfolding deserialize_response
    read_response opcode = do len ← remaining; deserialize_response (2 * len + 2) opcode

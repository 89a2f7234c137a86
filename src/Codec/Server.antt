-- ===== src/Codec/Server.antt =====
-- codec.rs: `ServerPacketCodec`, which reads what clients send.
pub mod Header
pub mod Reading
pub mod Whole
pub mod Taken
use zksrv.Base.{
  ℕ, ◌+◌, Option, none, some, List, ◌≡◌, length, take, ltb, ltb_i32, as_i32, neg_i32, from_be_bytes,
  if◌then◌else◌,
}
use zksrv.Errors.{ZkError, invalid_op_code, ok, panic}
use zksrv.Bytes.{ByteOps}
use zksrv.Buf.{Buf, pure, fail, abort, ◌>>=◌, ◌>>◌}
use zksrv.Buf.Ops.{remaining, assert_empty, get_i32}
use zksrv.Record.{deserialize}
use zksrv.Constants.{Codes, OpCodes, XidCodes, xid_length, opcode_length}
use zksrv.Proto.Connect.{connect_request_deserialize}
use zksrv.Proto.NodeData.{
  get_data_request_deserialize, set_data_request_deserialize, exists_request_deserialize,
}
use zksrv.Proto.Create.{
  create_ttl_request_deserialize, create_request_deserialize, delete_request_deserialize,
}
use zksrv.Proto.Children.{get_children_request_deserialize, get_children2_request_deserialize}
use zksrv.Proto.Acls.{get_acl_request_deserialize, set_acl_request_deserialize}
use zksrv.Proto.Headers.{auth_packet_deserialize}
use zksrv.Proto.Watches.{set_watches_deserialize, check_watches_request_deserialize}
use zksrv.Proto.Versions.{sync_request_deserialize}
use zksrv.Codec.Request.{
  Request, multi_request_deserialize, get_data, create_ttl, create, set_data, get_children,
  get_children2, delete, exists, get_acl, set_acl, close, auth, set_watches, check_watches, whoami,
  multi, sync, connect, ping,
}
use zksrv.Codec.Packet.{RequestPacket}

unfoldable pub ensure_min_length : ℕ → ℕ → Buf ZkError (Unit {0})
ensure_min_length len min = if ltb_i32 len min then abort else pure tt

unfoldable pub ensure_min_length_bytes : ℕ → Buf ZkError (Unit {0})
unfolding ensure_min_length
ensure_min_length_bytes min = do len ← remaining; ensure_min_length (as_i32 len) min

-- `i32::from_be_bytes(src[..4].try_into().unwrap())`
unfoldable pub peek_i32 : Buf ZkError ℕ
peek_i32 buf = if ltb (length buf) 4 then panic else ok (from_be_bytes (take 4 buf), buf)

abbrev pub packet : ℕ → ℕ → Request → Option RequestPacket
packet xid type request =
    some (record { request_header = some (record { xid = xid; type = type }); request = request })

module _ ⦃b : ByteOps⦄ ⦃c : Codes⦄ where
  -- The request that an operation code announces. Any other code is a panic.
  unfoldable pub read_request : OpCodes → Buf ZkError Request
  read_request OpCodes.get_data = do req ← deserialize; pure (get_data req)
  read_request OpCodes.create_ttl = do req ← deserialize; pure (create_ttl req)
  read_request OpCodes.create = do req ← deserialize; pure (create req)
  read_request OpCodes.create2 = do req ← deserialize; pure (create req)
  read_request OpCodes.create_container = do req ← deserialize; pure (create req)
  read_request OpCodes.set_data = do req ← deserialize; pure (set_data req)
  read_request OpCodes.get_children = do req ← deserialize; pure (get_children req)
  read_request OpCodes.get_children2 = do req ← deserialize; pure (get_children2 req)
  read_request OpCodes.delete = do req ← deserialize; pure (delete req)
  read_request OpCodes.exists = do req ← deserialize; pure (exists req)
  read_request OpCodes.get_acl = do req ← deserialize; pure (get_acl req)
  read_request OpCodes.set_acl = do req ← deserialize; pure (set_acl req)
  read_request OpCodes.close = pure close
  read_request OpCodes.set_auth = do req ← deserialize; pure (auth req)
  read_request OpCodes.set_watches = do req ← deserialize; pure (set_watches req)
  read_request OpCodes.check_watches = do req ← deserialize; pure (check_watches req)
  read_request OpCodes.whoami = do assert_empty; pure whoami
  read_request OpCodes.multi = do req ← deserialize; assert_empty; pure (multi req)
  read_request OpCodes.sync = do req ← deserialize; assert_empty; pure (sync req)
  read_request _ = abort

  unfoldable pub dispatch : Option OpCodes → ℕ → ℕ → Buf ZkError (Option RequestPacket)
  unfolding read_request
  dispatch none xid type = fail (invalid_op_code type)
  dispatch (some opcode) xid type = do request ← read_request opcode; pure (packet xid type request)

  -- Data requests: the code of the operation stands behind the xid.
  unfoldable pub decode_data : Buf ZkError (Option RequestPacket)
  unfolding dispatch
  decode_data = do xid ← get_i32; type ← get_i32; dispatch (c.ops.from_i32 type) xid type

  -- Control requests are told by their xid.
  unfoldable pub decode_xid : ℕ → Option XidCodes → Buf ZkError (Option RequestPacket)
  unfolding decode_data
  decode_xid xid (some XidCodes.connect) = do
    req ← deserialize
    pure (some (record { request_header = none; request = connect req }))
  decode_xid xid (some XidCodes.ping) = do
    _ ← get_i32
    type ← get_i32
    assert_empty
    pure (packet xid type ping)
  decode_xid xid (some XidCodes.auth) = do
    _ ← get_i32
    type ← get_i32
    req ← deserialize
    assert_empty
    pure (packet xid type (auth req))
  decode_xid xid (some XidCodes.set_watches) = do
    _ ← get_i32
    type ← get_i32
    req ← deserialize
    assert_empty
    pure (packet xid type (set_watches req))
  decode_xid xid (some XidCodes.watch) = decode_data
  decode_xid xid none = decode_data

  -- `decode_inner`, on the bytes of one frame.
  unfoldable pub decode_inner : Buf ZkError (Option RequestPacket)
  unfolding decode_xid ensure_min_length_bytes peek_i32
  decode_inner = do
    ensure_min_length_bytes (xid_length + opcode_length)
    xid ← peek_i32
    decode_xid xid (c.xids.from_i32 xid)

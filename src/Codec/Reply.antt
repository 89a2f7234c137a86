-- ===== src/Codec/Reply.antt =====
-- codec.rs: a response with its header (`ResponsePacket`); `ClientPacketCodec::decode`, which
-- reads what the backend sends; and `ServerPacketCodec::encode`, which writes to a client.
pub mod Match
use zksrv.Base.{ℕ, ◌+◌, Option, none, some, List, [], ◌==◌, if◌then◌else◌}
use zksrv.Errors.{ZkError, decode_error, encode_error, Outcome, ok, err, panic, stuck, and_then}
use zksrv.Bytes.{ByteOps}
use zksrv.Buf.{Buf, pure, abort, ◌>>=◌, ◌>>◌}
use zksrv.Buf.Ops.{assert_empty, get_i32, get_i64}
use zksrv.Record.{serialize_into, size, deserialize}
use zksrv.Constants.{Codes, OpCodes, XidCodes}
use zksrv.Frame
use zksrv.Frame.{LengthDelimitedCodec, IoError}
use zksrv.Proto.Headers.{ReplyHeader, reply_header_serialize}
use zksrv.Proto.Connect.{connect_response_deserialize}
use zksrv.Proto.Watches.{watcher_event_deserialize}
use zksrv.Codec.Request.{ok_or}
use zksrv.Codec.Server.{ensure_min_length_bytes, peek_i32}
use zksrv.Codec.Client.{DashMap}
use zksrv.Codec.Stream.{ServerPacketCodec, or_decode_error}
use zksrv.Codec.Response.{
  ZkResponse, connect, watch_event, empty, serialize_response, size_response, read_response,
}

pub record ResponsePacket : Type 0 where
  pub response_header : Option ReplyHeader
  pub response : ZkResponse

-- `map_err(|_| ZkError::EncodeError)`
unfoldable pub or_encode_error {ℓ} : {A : Type ℓ} → Buf IoError A → Buf ZkError A
or_encode_error m buf = elim (m buf) [
  | ok r ↦ ok r
  | err e ↦ err encode_error
  | panic ↦ panic
  | stuck ↦ stuck
]

module _ ⦃b : ByteOps⦄ where
  unfoldable pub serialize_reply_header : Option ReplyHeader → Buf ZkError (Unit {0})
  serialize_reply_header (some header) = serialize_into header
  serialize_reply_header none = pure tt

  unfoldable pub serialize_response_packet : ResponsePacket → Buf ZkError (Unit {0})
  unfolding serialize_reply_header serialize_response
  serialize_response_packet p = do
    serialize_reply_header p.response_header
    serialize_response p.response
    pure tt

  unfoldable pub size_reply_header : Option ReplyHeader → ℕ
  size_reply_header (some header) = size header
  size_reply_header none = 0

  unfoldable pub size_response_packet : ResponsePacket → Outcome ZkError ℕ
  unfolding size_reply_header size_response
  size_response_packet p =
      and_then (size_response p.response) λ n. ok (size_reply_header p.response_header + n)

  -- The packet is written to a buffer of its own, which is then sent as a frame.
  unfoldable pub encode : ServerPacketCodec → ResponsePacket → Buf ZkError (Unit {0})
  unfolding size_response_packet serialize_response_packet or_encode_error
  encode codec item dst = and_then (size_response_packet item) λ _.
      and_then (serialize_response_packet item [])
        λ (_, buf). or_encode_error (Frame.encode codec.inner.builder buf) dst

module _ ⦃b : ByteOps⦄ ⦃c : Codes⦄ ⦃d : DashMap⦄ where
  abbrev pub reply : ReplyHeader → ZkResponse → Option ResponsePacket
  reply header response = some (record { response_header = some header; response = response })

  -- A data reply is read by the operation that the map holds under its xid, unless it is an error.
  unfoldable pub data_reply : d.Map → ReplyHeader → Buf ZkError (Option ResponsePacket)
  data_reply map header =
      let read = do
        opcode ← ok_or (d.get header.xid map) decode_error
        resp ← read_response opcode
        pure (reply header resp)
      in if header.err == 0 then read else pure (reply header empty)

  unfoldable pub reply_body :
      d.Map → ReplyHeader → Option XidCodes → Buf ZkError (Option ResponsePacket)
  unfolding data_reply
  reply_body map header (some XidCodes.watch) = do
    resp ← deserialize
    pure (reply header (watch_event resp))
  reply_body map header (some XidCodes.ping) = pure (reply header empty)
  reply_body map header (some XidCodes.auth) = do assert_empty; pure (reply header empty)
  reply_body map header (some XidCodes.connect) = abort
  reply_body map header (some XidCodes.set_watches) = abort
  reply_body map header none = data_reply map header

  unfoldable pub headed_reply : d.Map → Option XidCodes → Buf ZkError (Option ResponsePacket)
  unfolding reply_body
  headed_reply map o = do
    xid ← get_i32
    zxid ← get_i64
    error ← get_i32
    reply_body map (record { xid = xid; zxid = zxid; err = error }) o

  unfoldable pub reply_in : d.Map → Option XidCodes → Buf ZkError (Option ResponsePacket)
  unfolding headed_reply
  reply_in map (some XidCodes.connect) = do
    resp ← deserialize
    pure (some (record { response_header = none; response = connect resp }))
  reply_in map o = headed_reply map o

  -- `decode`, on the bytes of one frame.
  unfoldable pub decode_reply : d.Map → Buf ZkError (Option ResponsePacket)
  unfolding reply_in
  decode_reply map = do
    ensure_min_length_bytes 4
    xid ← peek_i32
    reply_in map (c.xids.from_i32 xid)

  unfoldable pub decode_frame_reply :
      d.Map
      → LengthDelimitedCodec
      → Option (List ℕ × ℕ)
      → Buf ZkError (Option ResponsePacket × LengthDelimitedCodec)
  decode_frame_reply map inner none rest = ok ((none, inner), rest)
  decode_frame_reply map inner (some (src, n)) rest =
      and_then (decode_reply map src) (λ (packet, _). ok ((packet, inner), rest))

  unfoldable pub decode :
      d.Map → LengthDelimitedCodec → Buf ZkError (Option ResponsePacket × LengthDelimitedCodec)
  unfolding decode_frame_reply or_decode_error
  decode map inner buf =
      and_then (or_decode_error (Frame.decode inner) buf)
        (λ ((found, inner'), rest). decode_frame_reply map inner' found rest)

-- ===== src/Codec/Packet.antt =====
-- codec.rs: a request with its header.
pub mod Wire
use zksrv.Base.{ℕ, ◌+◌, Option, none, some}
use zksrv.Errors.{ZkError}
use zksrv.Bytes.{ByteOps}
use zksrv.Buf.{Buf, pure, ◌>>=◌, ◌>>◌}
use zksrv.Record.{Serialize, serialize_into, size}
use zksrv.Proto.Headers.{RequestHeader, request_header_serialize}
use zksrv.Codec.Request.{Request, request_serialize}

pub record RequestPacket : Type 0 where
  pub request_header : Option RequestHeader
  pub request : Request

module _ ⦃b : ByteOps⦄ where
  -- `if let Some(header) = &self.request_header { header.serialize_into(buffer)?; }`
  unfoldable pub serialize_header : Option RequestHeader → Buf ZkError (Unit {0})
  serialize_header (some header) = serialize_into header
  serialize_header none = pure tt

  -- `map_or(0, |h| h.size())`
  unfoldable pub size_header : Option RequestHeader → ℕ
  size_header (some header) = size header
  size_header none = 0

  instance unfoldable pub request_packet_serialize : Serialize RequestPacket
  unfolding serialize_header size_header
  request_packet_serialize = record {
    serialize_into = λ p. do
      serialize_header p.request_header
      serialize_into p.request
      pure tt;
    size = λ p. size_header p.request_header + size p.request;
  }

-- ===== src/Proto/Headers.antt =====
-- proto.rs: headers, and authentication.
pub mod Wire
pub mod RoundTrip
use zksrv.Base.{ℕ, ◌+◌, List}
use zksrv.Text.{String}
use zksrv.Bytes.{ByteOps}
use zksrv.Buf.{pure, ◌>>=◌, ◌>>◌}
use zksrv.Buf.Ops.{get_i32, get_i64, get_u8, put_i32, put_i64, put_u8}
use zksrv.Record.{
  Deserialize, Serialize, bytes_deserialize, bytes_serialize, deserialize, serialize_into, size,
  string_deserialize, string_serialize,
}

pub record RequestHeader : Type 0 where
  pub xid : ℕ
  pub type : ℕ

pub record MultiHeader : Type 0 where
  pub type : ℕ
  pub done : ℕ
  pub err : ℕ

pub record ReplyHeader : Type 0 where
  pub xid : ℕ
  pub zxid : ℕ
  pub err : ℕ

pub record AuthPacket : Type 0 where
  pub type : ℕ
  pub scheme : String
  pub auth : List ℕ

pub record ErrorResponse : Type 0 where
  pub err : ℕ

module _ ⦃b : ByteOps⦄ where
  instance unfoldable pub request_header_serialize : Serialize RequestHeader
  request_header_serialize = record {
    serialize_into = λ r. do
      put_i32 r.xid
      put_i32 r.type
      pure tt;
    size = λ r. 4 + 4;
  }

  instance unfoldable pub request_header_deserialize : Deserialize RequestHeader
  request_header_deserialize = record {
    deserialize = do
      xid ← get_i32
      type ← get_i32
      pure (record { xid = xid; type = type });
  }

  instance unfoldable pub multi_header_serialize : Serialize MultiHeader
  multi_header_serialize = record {
    serialize_into = λ r. do
      put_i32 r.type
      put_u8 r.done
      put_i32 r.err
      pure tt;
    size = λ r. 4 + 1 + 4;
  }

  instance unfoldable pub multi_header_deserialize : Deserialize MultiHeader
  multi_header_deserialize = record {
    deserialize = do
      type ← get_i32
      done ← get_u8
      err ← get_i32
      pure (record { type = type; done = done; err = err });
  }

  instance unfoldable pub reply_header_serialize : Serialize ReplyHeader
  reply_header_serialize = record {
    serialize_into = λ r. do
      put_i32 r.xid
      put_i64 r.zxid
      put_i32 r.err
      pure tt;
    size = λ r. 4 + 8 + 4;
  }

  instance unfoldable pub reply_header_deserialize : Deserialize ReplyHeader
  reply_header_deserialize = record {
    deserialize = do
      xid ← get_i32
      zxid ← get_i64
      err ← get_i32
      pure (record { xid = xid; zxid = zxid; err = err });
  }

  instance unfoldable pub auth_packet_serialize : Serialize AuthPacket
  auth_packet_serialize = record {
    serialize_into = λ r. do
      put_i32 r.type
      serialize_into r.scheme
      serialize_into r.auth
      pure tt;
    size = λ r. 4 + size r.scheme + size r.auth;
  }

  instance unfoldable pub auth_packet_deserialize : Deserialize AuthPacket
  auth_packet_deserialize = record {
    deserialize = do
      type ← get_i32
      scheme ← deserialize
      auth ← deserialize
      pure (record { type = type; scheme = scheme; auth = auth });
  }

  instance unfoldable pub error_response_serialize : Serialize ErrorResponse
  error_response_serialize = record {
    serialize_into = λ r. do
      put_i32 r.err
      pure tt;
    size = λ r. 4;
  }

  instance unfoldable pub error_response_deserialize : Deserialize ErrorResponse
  error_response_deserialize = record {
    deserialize = do
      err ← get_i32
      pure (record { err = err });
  }

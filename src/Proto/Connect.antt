-- ===== src/Proto/Connect.antt =====
-- proto.rs: the messages that open a session.
pub mod Wire
pub mod Flag
use zksrv.Base.{ℕ, ◌+◌, List, ltb, if◌then◌else◌}
use zksrv.Errors.{ZkError}
use zksrv.Bytes.{ByteOps}
use zksrv.Buf.{Buf, pure, ◌>>=◌, ◌>>◌}
use zksrv.Buf.Ops.{remaining, put_i32, put_i64, put_u8, get_i32, get_i64, get_u8}
use zksrv.Record.{
  Serialize, Deserialize, serialize_into, size, deserialize, bytes_serialize, bytes_deserialize,
}

pub record ConnectRequest : Type 0 where
  pub protocol_version : ℕ
  pub last_zxid_seen : ℕ
  pub time_out : ℕ
  pub session_id : ℕ
  pub passwd : List ℕ
  pub read_only : ℕ

pub record ConnectResponse : Type 0 where
  pub protocol_version : ℕ
  pub time_out : ℕ
  pub session_id : ℕ
  pub passwd : List ℕ
  pub read_only : ℕ

module _ ⦃b : ByteOps⦄ where
  instance unfoldable pub connect_request_serialize : Serialize ConnectRequest
  connect_request_serialize = record {
    serialize_into = λ r. do
      put_i32 r.protocol_version
      put_i64 r.last_zxid_seen
      put_i32 r.time_out
      put_i64 r.session_id
      serialize_into r.passwd
      put_u8 r.read_only
      pure tt;
    size = λ r. 4 + 8 + 4 + 8 + size r.passwd + 1;
  }

  -- `if bytes.len() > 1 { bytes.get_u8() } else { 0 }`
  unfoldable pub get_read_only : Buf ZkError ℕ
  get_read_only = do len ← remaining; if ltb 1 len then get_u8 else pure 0

  instance unfoldable pub connect_request_deserialize : Deserialize ConnectRequest
  unfolding get_read_only
  connect_request_deserialize = record {
    deserialize = do
      protocol_version ← get_i32
      last_zxid_seen ← get_i64
      time_out ← get_i32
      session_id ← get_i64
      passwd ← deserialize
      read_only ← get_read_only
      pure (record {
        protocol_version = protocol_version;
        last_zxid_seen = last_zxid_seen;
        time_out = time_out;
        session_id = session_id;
        passwd = passwd;
        read_only = read_only;
      });
  }

  instance unfoldable pub connect_response_serialize : Serialize ConnectResponse
  connect_response_serialize = record {
    serialize_into = λ r. do
      put_i32 r.protocol_version
      put_i32 r.time_out
      put_i64 r.session_id
      serialize_into r.passwd
      put_u8 r.read_only
      pure tt;
    size = λ r. 4 + 4 + 8 + size r.passwd + 1;
  }

  instance unfoldable pub connect_response_deserialize : Deserialize ConnectResponse
  unfolding get_read_only
  connect_response_deserialize = record {
    deserialize = do
      protocol_version ← get_i32
      time_out ← get_i32
      session_id ← get_i64
      passwd ← deserialize
      read_only ← get_read_only
      pure (record {
        protocol_version = protocol_version;
        time_out = time_out;
        session_id = session_id;
        passwd = passwd;
        read_only = read_only;
      });
  }

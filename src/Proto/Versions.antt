-- ===== src/Proto/Versions.antt =====
-- proto.rs: version checks and syncing.
pub mod Wire
pub mod RoundTrip
use zksrv.Base.{ℕ, ◌+◌}
use zksrv.Text.{String}
use zksrv.Bytes.{ByteOps}
use zksrv.Buf.{pure, ◌>>=◌, ◌>>◌}
use zksrv.Buf.Ops.{get_i32, put_i32}
use zksrv.Record.{
  Deserialize, Serialize, deserialize, serialize_into, size, string_deserialize, string_serialize,
}

pub record CheckVersionRequest : Type 0 where
  pub path : String
  pub version : ℕ

pub record SyncRequest : Type 0 where
  pub path : String

pub record SyncResponse : Type 0 where
  pub path : String

module _ ⦃b : ByteOps⦄ where
  instance unfoldable pub check_version_request_serialize : Serialize CheckVersionRequest
  check_version_request_serialize = record {
    serialize_into = λ r. do
      serialize_into r.path
      put_i32 r.version
      pure tt;
    size = λ r. size r.path + 4;
  }

  instance unfoldable pub check_version_request_deserialize : Deserialize CheckVersionRequest
  check_version_request_deserialize = record {
    deserialize = do
      path ← deserialize
      version ← get_i32
      pure (record { path = path; version = version });
  }

  instance unfoldable pub sync_request_serialize : Serialize SyncRequest
  sync_request_serialize = record {
    serialize_into = λ r. do
      serialize_into r.path
      pure tt;
    size = λ r. size r.path;
  }

  instance unfoldable pub sync_request_deserialize : Deserialize SyncRequest
  sync_request_deserialize = record {
    deserialize = do
      path ← deserialize
      pure (record { path = path });
  }

  instance unfoldable pub sync_response_serialize : Serialize SyncResponse
  sync_response_serialize = record {
    serialize_into = λ r. do
      serialize_into r.path
      pure tt;
    size = λ r. size r.path;
  }

  instance unfoldable pub sync_response_deserialize : Deserialize SyncResponse
  sync_response_deserialize = record {
    deserialize = do
      path ← deserialize
      pure (record { path = path });
  }

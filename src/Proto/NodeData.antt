-- ===== src/Proto/NodeData.antt =====
-- proto.rs: reading and writing the data of a node.
pub mod Wire
pub mod RoundTrip
use zksrv.Base.{ℕ, ◌+◌, List}
use zksrv.Text.{String}
use zksrv.Bytes.{ByteOps}
use zksrv.Buf.{pure, ◌>>=◌, ◌>>◌}
use zksrv.Buf.Ops.{get_i32, get_u8, put_i32, put_u8}
use zksrv.Record.{
  Deserialize, Serialize, bytes_deserialize, bytes_serialize, deserialize, serialize_into, size,
  string_deserialize, string_serialize,
}
use zksrv.Proto.Stats.{Stat, stat_serialize, stat_deserialize}

pub record GetDataRequest : Type 0 where
  pub path : String
  pub watch : ℕ

pub record SetDataRequest : Type 0 where
  pub path : String
  pub data_bytes : List ℕ
  pub version : ℕ

pub record SetDataResponse : Type 0 where
  pub stat : Stat

pub record ExistsRequest : Type 0 where
  pub path : String
  pub watch : ℕ

pub record ExistsResponse : Type 0 where
  pub stat : Stat

pub record GetDataResponse : Type 0 where
  pub data_bytes : List ℕ
  pub stat : Stat

module _ ⦃b : ByteOps⦄ where
  instance unfoldable pub get_data_request_serialize : Serialize GetDataRequest
  get_data_request_serialize = record {
    serialize_into = λ r. do
      serialize_into r.path
      put_u8 r.watch
      pure tt;
    size = λ r. size r.path + 1;
  }

  instance unfoldable pub get_data_request_deserialize : Deserialize GetDataRequest
  get_data_request_deserialize = record {
    deserialize = do
      path ← deserialize
      watch ← get_u8
      pure (record { path = path; watch = watch });
  }

  instance unfoldable pub set_data_request_serialize : Serialize SetDataRequest
  set_data_request_serialize = record {
    serialize_into = λ r. do
      serialize_into r.path
      serialize_into r.data_bytes
      put_i32 r.version
      pure tt;
    size = λ r. size r.path + size r.data_bytes + 4;
  }

  instance unfoldable pub set_data_request_deserialize : Deserialize SetDataRequest
  set_data_request_deserialize = record {
    deserialize = do
      path ← deserialize
      data_bytes ← deserialize
      version ← get_i32
      pure (record { path = path; data_bytes = data_bytes; version = version });
  }

  instance unfoldable pub set_data_response_serialize : Serialize SetDataResponse
  set_data_response_serialize = record {
    serialize_into = λ r. do
      serialize_into r.stat
      pure tt;
    size = λ r. size r.stat;
  }

  instance unfoldable pub set_data_response_deserialize : Deserialize SetDataResponse
  set_data_response_deserialize = record {
    deserialize = do
      stat ← deserialize
      pure (record { stat = stat });
  }

  instance unfoldable pub exists_request_serialize : Serialize ExistsRequest
  exists_request_serialize = record {
    serialize_into = λ r. do
      serialize_into r.path
      put_u8 r.watch
      pure tt;
    size = λ r. size r.path + 1;
  }

  instance unfoldable pub exists_request_deserialize : Deserialize ExistsRequest
  exists_request_deserialize = record {
    deserialize = do
      path ← deserialize
      watch ← get_u8
      pure (record { path = path; watch = watch });
  }

  instance unfoldable pub exists_response_serialize : Serialize ExistsResponse
  exists_response_serialize = record {
    serialize_into = λ r. do
      serialize_into r.stat
      pure tt;
    size = λ r. size r.stat;
  }

  instance unfoldable pub exists_response_deserialize : Deserialize ExistsResponse
  exists_response_deserialize = record {
    deserialize = do
      stat ← deserialize
      pure (record { stat = stat });
  }

  instance unfoldable pub get_data_response_serialize : Serialize GetDataResponse
  get_data_response_serialize = record {
    serialize_into = λ r. do
      serialize_into r.data_bytes
      serialize_into r.stat
      pure tt;
    size = λ r. size r.data_bytes + size r.stat;
  }

  instance unfoldable pub get_data_response_deserialize : Deserialize GetDataResponse
  get_data_response_deserialize = record {
    deserialize = do
      data_bytes ← deserialize
      stat ← deserialize
      pure (record { data_bytes = data_bytes; stat = stat });
  }

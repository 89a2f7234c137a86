-- ===== src/Proto/Limits.antt =====
-- proto.rs: limits on children, and ephemeral nodes.
pub mod Wire
pub mod RoundTrip
use zksrv.Base.{ℕ, ◌+◌, List}
use zksrv.Text.{String}
use zksrv.Bytes.{ByteOps}
use zksrv.Buf.{pure, ◌>>=◌, ◌>>◌}
use zksrv.Buf.Ops.{get_i32, put_i32}
use zksrv.Record.{
  Deserialize, Serialize, deserialize, serialize_into, size, string_deserialize, string_serialize,
  vec_deserialize, vec_serialize,
}

pub record GetMaxChildrenRequest : Type 0 where
  pub path : String

pub record GetMaxChildrenResponse : Type 0 where
  pub max : ℕ

pub record SetMaxChildrenRequest : Type 0 where
  pub path : String
  pub max : ℕ

pub record GetEphemeralsRequest : Type 0 where
  pub prefix_path : String

pub record GetEphemeralsResponse : Type 0 where
  pub ephemerals : List String

module _ ⦃b : ByteOps⦄ where
  instance unfoldable pub get_max_children_request_serialize : Serialize GetMaxChildrenRequest
  get_max_children_request_serialize = record {
    serialize_into = λ r. do
      serialize_into r.path
      pure tt;
    size = λ r. size r.path;
  }

  instance unfoldable pub get_max_children_request_deserialize : Deserialize GetMaxChildrenRequest
  get_max_children_request_deserialize = record {
    deserialize = do
      path ← deserialize
      pure (record { path = path });
  }

  instance unfoldable pub get_max_children_response_serialize : Serialize GetMaxChildrenResponse
  get_max_children_response_serialize = record {
    serialize_into = λ r. do
      put_i32 r.max
      pure tt;
    size = λ r. 4;
  }

  instance unfoldable pub get_max_children_response_deserialize : Deserialize GetMaxChildrenResponse
  get_max_children_response_deserialize = record {
    deserialize = do
      max ← get_i32
      pure (record { max = max });
  }

  instance unfoldable pub set_max_children_request_serialize : Serialize SetMaxChildrenRequest
  set_max_children_request_serialize = record {
    serialize_into = λ r. do
      serialize_into r.path
      put_i32 r.max
      pure tt;
    size = λ r. size r.path + 4;
  }

  instance unfoldable pub set_max_children_request_deserialize : Deserialize SetMaxChildrenRequest
  set_max_children_request_deserialize = record {
    deserialize = do
      path ← deserialize
      max ← get_i32
      pure (record { path = path; max = max });
  }

  instance unfoldable pub get_ephemerals_request_serialize : Serialize GetEphemeralsRequest
  get_ephemerals_request_serialize = record {
    serialize_into = λ r. do
      serialize_into r.prefix_path
      pure tt;
    size = λ r. size r.prefix_path;
  }

  instance unfoldable pub get_ephemerals_request_deserialize : Deserialize GetEphemeralsRequest
  get_ephemerals_request_deserialize = record {
    deserialize = do
      prefix_path ← deserialize
      pure (record { prefix_path = prefix_path });
  }

  instance unfoldable pub get_ephemerals_response_serialize : Serialize GetEphemeralsResponse
  get_ephemerals_response_serialize = record {
    serialize_into = λ r. do
      serialize_into r.ephemerals
      pure tt;
    size = λ r. size r.ephemerals;
  }

  instance unfoldable pub get_ephemerals_response_deserialize : Deserialize GetEphemeralsResponse
  get_ephemerals_response_deserialize = record {
    deserialize = do
      ephemerals ← deserialize
      pure (record { ephemerals = ephemerals });
  }

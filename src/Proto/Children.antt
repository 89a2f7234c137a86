-- ===== src/Proto/Children.antt =====
-- proto.rs: the children of a node.
pub mod Wire
pub mod RoundTrip
use zksrv.Base.{ℕ, ◌+◌, List}
use zksrv.Text.{String}
use zksrv.Bytes.{ByteOps}
use zksrv.Buf.{pure, ◌>>=◌, ◌>>◌}
use zksrv.Buf.Ops.{get_i32, get_u8, put_i32, put_u8}
use zksrv.Record.{
  Deserialize, Serialize, deserialize, serialize_into, size, string_deserialize, string_serialize,
  vec_deserialize, vec_serialize,
}
use zksrv.Proto.Stats.{Stat, stat_serialize, stat_deserialize}

pub record GetChildrenRequest : Type 0 where
  pub path : String
  pub watch : ℕ

pub record GetAllChildrenNumberRequest : Type 0 where
  pub path : String

pub record GetChildren2Request : Type 0 where
  pub path : String
  pub watch : ℕ

pub record GetChildrenResponse : Type 0 where
  pub children : List String

pub record GetAllChildrenNumberResponse : Type 0 where
  pub total_number : ℕ

pub record GetChildren2Response : Type 0 where
  pub children : List String
  pub stat : Stat

module _ ⦃b : ByteOps⦄ where
  instance unfoldable pub get_children_request_serialize : Serialize GetChildrenRequest
  get_children_request_serialize = record {
    serialize_into = λ r. do
      serialize_into r.path
      put_u8 r.watch
      pure tt;
    size = λ r. size r.path + 1;
  }

  instance unfoldable pub get_children_request_deserialize : Deserialize GetChildrenRequest
  get_children_request_deserialize = record {
    deserialize = do
      path ← deserialize
      watch ← get_u8
      pure (record { path = path; watch = watch });
  }

  instance unfoldable pub get_all_children_number_request_serialize :
      Serialize GetAllChildrenNumberRequest
  get_all_children_number_request_serialize = record {
    serialize_into = λ r. do
      serialize_into r.path
      pure tt;
    size = λ r. size r.path;
  }

  instance unfoldable pub get_all_children_number_request_deserialize :
      Deserialize GetAllChildrenNumberRequest
  get_all_children_number_request_deserialize = record {
    deserialize = do
      path ← deserialize
      pure (record { path = path });
  }

  instance unfoldable pub get_children2_request_serialize : Serialize GetChildren2Request
  get_children2_request_serialize = record {
    serialize_into = λ r. do
      serialize_into r.path
      put_u8 r.watch
      pure tt;
    size = λ r. size r.path + 1;
  }

  instance unfoldable pub get_children2_request_deserialize : Deserialize GetChildren2Request
  get_children2_request_deserialize = record {
    deserialize = do
      path ← deserialize
      watch ← get_u8
      pure (record { path = path; watch = watch });
  }

  instance unfoldable pub get_children_response_serialize : Serialize GetChildrenResponse
  get_children_response_serialize = record {
    serialize_into = λ r. do
      serialize_into r.children
      pure tt;
    size = λ r. size r.children;
  }

  instance unfoldable pub get_children_response_deserialize : Deserialize GetChildrenResponse
  get_children_response_deserialize = record {
    deserialize = do
      children ← deserialize
      pure (record { children = children });
  }

  instance unfoldable pub get_all_children_number_response_serialize :
      Serialize GetAllChildrenNumberResponse
  get_all_children_number_response_serialize = record {
    serialize_into = λ r. do
      put_i32 r.total_number
      pure tt;
    size = λ r. 4;
  }

  instance unfoldable pub get_all_children_number_response_deserialize :
      Deserialize GetAllChildrenNumberResponse
  get_all_children_number_response_deserialize = record {
    deserialize = do
      total_number ← get_i32
      pure (record { total_number = total_number });
  }

  instance unfoldable pub get_children2_response_serialize : Serialize GetChildren2Response
  get_children2_response_serialize = record {
    serialize_into = λ r. do
      serialize_into r.children
      serialize_into r.stat
      pure tt;
    size = λ r. size r.children + size r.stat;
  }

  instance unfoldable pub get_children2_response_deserialize : Deserialize GetChildren2Response
  get_children2_response_deserialize = record {
    deserialize = do
      children ← deserialize
      stat ← deserialize
      pure (record { children = children; stat = stat });
  }

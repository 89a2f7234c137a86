-- ===== src/Proto/Create.antt =====
-- proto.rs: creating and deleting nodes.
pub mod Wire
pub mod RoundTrip
use zksrv.Base.{ℕ, as_i32, length, ◌+◌, List}
use zksrv.Text.{String}
use zksrv.Bytes.{ByteOps}
use zksrv.Buf.{pure, ◌>>=◌, ◌>>◌}
use zksrv.Buf.Ops.{get_i32, get_i64, put_i32, put_i64}
use zksrv.Record.{
  Deserialize, Serialize, bytes_deserialize, bytes_serialize, deserialize, for_each, serialize_into,
  size, string_deserialize, string_serialize, vec_deserialize, vec_serialize,
}
use zksrv.Proto.Ids.{Acl, acl_serialize, acl_deserialize}
use zksrv.Proto.Stats.{Stat, stat_serialize, stat_deserialize}

pub record CreateRequest : Type 0 where
  pub path : String
  pub data_bytes : List ℕ
  pub acl : List Acl
  pub flags : ℕ

pub record CreateTtlRequest : Type 0 where
  pub path : String
  pub data_bytes : List ℕ
  pub acl : List Acl
  pub flags : ℕ
  pub ttl : ℕ

pub record DeleteRequest : Type 0 where
  pub path : String
  pub version : ℕ

pub record CreateResponse : Type 0 where
  pub path : String

pub record Create2Response : Type 0 where
  pub path : String
  pub stat : Stat

module _ ⦃b : ByteOps⦄ where
  instance unfoldable pub create_request_serialize : Serialize CreateRequest
  create_request_serialize = record {
    serialize_into = λ r. do
      serialize_into r.path
      serialize_into r.data_bytes
      put_i32 (as_i32 (length r.acl))
      for_each serialize_into r.acl
      put_i32 r.flags
      pure tt;
    size = λ r. size r.path + size r.data_bytes + size r.acl + 4;
  }

  instance unfoldable pub create_request_deserialize : Deserialize CreateRequest
  create_request_deserialize = record {
    deserialize = do
      path ← deserialize
      data_bytes ← deserialize
      acl ← deserialize
      flags ← get_i32
      pure (record { path = path; data_bytes = data_bytes; acl = acl; flags = flags });
  }

  instance unfoldable pub create_ttl_request_serialize : Serialize CreateTtlRequest
  create_ttl_request_serialize = record {
    serialize_into = λ r. do
      serialize_into r.path
      serialize_into r.data_bytes
      put_i32 (as_i32 (length r.acl))
      for_each serialize_into r.acl
      put_i32 r.flags
      put_i64 r.ttl
      pure tt;
    size = λ r. size r.path + size r.data_bytes + size r.acl + 4 + 8;
  }

  instance unfoldable pub create_ttl_request_deserialize : Deserialize CreateTtlRequest
  create_ttl_request_deserialize = record {
    deserialize = do
      path ← deserialize
      data_bytes ← deserialize
      acl ← deserialize
      flags ← get_i32
      ttl ← get_i64
      pure (record { path = path; data_bytes = data_bytes; acl = acl; flags = flags; ttl = ttl });
  }

  instance unfoldable pub delete_request_serialize : Serialize DeleteRequest
  delete_request_serialize = record {
    serialize_into = λ r. do
      serialize_into r.path
      put_i32 r.version
      pure tt;
    size = λ r. size r.path + 4;
  }

  instance unfoldable pub delete_request_deserialize : Deserialize DeleteRequest
  delete_request_deserialize = record {
    deserialize = do
      path ← deserialize
      version ← get_i32
      pure (record { path = path; version = version });
  }

  instance unfoldable pub create_response_serialize : Serialize CreateResponse
  create_response_serialize = record {
    serialize_into = λ r. do
      serialize_into r.path
      pure tt;
    size = λ r. size r.path;
  }

  instance unfoldable pub create_response_deserialize : Deserialize CreateResponse
  create_response_deserialize = record {
    deserialize = do
      path ← deserialize
      pure (record { path = path });
  }

  instance unfoldable pub create2_response_serialize : Serialize Create2Response
  create2_response_serialize = record {
    serialize_into = λ r. do
      serialize_into r.path
      serialize_into r.stat
      pure tt;
    size = λ r. size r.path + size r.stat;
  }

  instance unfoldable pub create2_response_deserialize : Deserialize Create2Response
  create2_response_deserialize = record {
    deserialize = do
      path ← deserialize
      stat ← deserialize
      pure (record { path = path; stat = stat });
  }

-- ===== src/Proto/Acls.antt =====
-- proto.rs: access control lists.
pub mod Wire
pub mod RoundTrip
use zksrv.Base.{ℕ, as_i32, length, ◌+◌, List}
use zksrv.Text.{String}
use zksrv.Bytes.{ByteOps}
use zksrv.Buf.{pure, ◌>>=◌, ◌>>◌}
use zksrv.Buf.Ops.{get_i32, put_i32}
use zksrv.Record.{
  Deserialize, Serialize, deserialize, for_each, serialize_into, size, string_deserialize,
  string_serialize, vec_deserialize, vec_serialize,
}
use zksrv.Proto.Ids.{Acl, acl_serialize, acl_deserialize}
use zksrv.Proto.Stats.{Stat, stat_serialize, stat_deserialize}

pub record GetAclRequest : Type 0 where
  pub path : String

pub record SetAclRequest : Type 0 where
  pub path : String
  pub acl : List Acl
  pub version : ℕ

pub record SetAclResponse : Type 0 where
  pub stat : Stat

pub record GetAclResponse : Type 0 where
  pub acl : List Acl
  pub stat : Stat

module _ ⦃b : ByteOps⦄ where
  instance unfoldable pub get_acl_request_serialize : Serialize GetAclRequest
  get_acl_request_serialize = record {
    serialize_into = λ r. do
      serialize_into r.path
      pure tt;
    size = λ r. size r.path;
  }

  instance unfoldable pub get_acl_request_deserialize : Deserialize GetAclRequest
  get_acl_request_deserialize = record {
    deserialize = do
      path ← deserialize
      pure (record { path = path });
  }

  instance unfoldable pub set_acl_request_serialize : Serialize SetAclRequest
  set_acl_request_serialize = record {
    serialize_into = λ r. do
      serialize_into r.path
      put_i32 (as_i32 (length r.acl))
      for_each serialize_into r.acl
      put_i32 r.version
      pure tt;
    size = λ r. size r.path + size r.acl + 4;
  }

  instance unfoldable pub set_acl_request_deserialize : Deserialize SetAclRequest
  set_acl_request_deserialize = record {
    deserialize = do
      path ← deserialize
      acl ← deserialize
      version ← get_i32
      pure (record { path = path; acl = acl; version = version });
  }

  instance unfoldable pub set_acl_response_serialize : Serialize SetAclResponse
  set_acl_response_serialize = record {
    serialize_into = λ r. do
      serialize_into r.stat
      pure tt;
    size = λ r. size r.stat;
  }

  instance unfoldable pub set_acl_response_deserialize : Deserialize SetAclResponse
  set_acl_response_deserialize = record {
    deserialize = do
      stat ← deserialize
      pure (record { stat = stat });
  }

  instance unfoldable pub get_acl_response_serialize : Serialize GetAclResponse
  get_acl_response_serialize = record {
    serialize_into = λ r. do
      put_i32 (as_i32 (length r.acl))
      for_each serialize_into r.acl
      serialize_into r.stat
      pure tt;
    size = λ r. size r.acl + size r.stat;
  }

  instance unfoldable pub get_acl_response_deserialize : Deserialize GetAclResponse
  get_acl_response_deserialize = record {
    deserialize = do
      acl ← deserialize
      stat ← deserialize
      pure (record { acl = acl; stat = stat });
  }

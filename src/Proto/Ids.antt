-- ===== src/Proto/Ids.antt =====
-- proto.rs: who may do what.
pub mod Wire
pub mod RoundTrip
use zksrv.Base.{ℕ, ◌+◌}
use zksrv.Text.{String}
use zksrv.Bytes.{ByteOps}
use zksrv.Buf.{pure, ◌>>=◌, ◌>>◌}
use zksrv.Buf.Ops.{get_i32, put_i32}
use zksrv.Record.{
  Deserialize, Serialize, deserialize, serialize_into, size, string_deserialize, string_serialize,
}

pub record AuthId : Type 0 where
  pub scheme : String
  pub id : String

pub record Acl : Type 0 where
  pub perms : ℕ
  pub id : AuthId

pub record ClientInfo : Type 0 where
  pub auth_scheme : String
  pub user : String

module _ ⦃b : ByteOps⦄ where
  instance unfoldable pub auth_id_serialize : Serialize AuthId
  auth_id_serialize = record {
    serialize_into = λ r. do
      serialize_into r.scheme
      serialize_into r.id
      pure tt;
    size = λ r. size r.scheme + size r.id;
  }

  instance unfoldable pub auth_id_deserialize : Deserialize AuthId
  auth_id_deserialize = record {
    deserialize = do
      scheme ← deserialize
      id ← deserialize
      pure (record { scheme = scheme; id = id });
  }

  instance unfoldable pub acl_serialize : Serialize Acl
  acl_serialize = record {
    serialize_into = λ r. do
      put_i32 r.perms
      serialize_into r.id
      pure tt;
    size = λ r. 4 + size r.id;
  }

  instance unfoldable pub acl_deserialize : Deserialize Acl
  acl_deserialize = record {
    deserialize = do
      perms ← get_i32
      id ← deserialize
      pure (record { perms = perms; id = id });
  }

  instance unfoldable pub client_info_serialize : Serialize ClientInfo
  client_info_serialize = record {
    serialize_into = λ r. do
      serialize_into r.auth_scheme
      serialize_into r.user
      pure tt;
    size = λ r. size r.auth_scheme + size r.user;
  }

  instance unfoldable pub client_info_deserialize : Deserialize ClientInfo
  client_info_deserialize = record {
    deserialize = do
      auth_scheme ← deserialize
      user ← deserialize
      pure (record { auth_scheme = auth_scheme; user = user });
  }

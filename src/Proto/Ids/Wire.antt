-- ===== src/Proto/Ids/Wire.antt =====
-- proto.rs: the schemas that the records of `Ids` are sent by.
use zksrv.Base.{append_assoc, length-append, length-to_be_bytes}
use zksrv.Text.{String}
use zksrv.Bytes.{ByteOps}
use zksrv.Buf.{pure, bind_assoc, pure-bind}
use zksrv.Buf.Ops.Laws.{put_i32-bind}
use zksrv.Record.{string_deserialize, string_serialize}
use zksrv.Jute.{int, ◌⊗◌}
use zksrv.Jute.Conform.{
  Encodable, Conforms, schema_of, serialize_into-bind, string_conforms, string_encodable, unview_of,
  view_of,
}
use zksrv.Proto.Ids.{
  AuthId, auth_id_serialize, auth_id_deserialize, Acl, acl_serialize, acl_deserialize, ClientInfo,
  client_info_serialize, client_info_deserialize,
}

module _ ⦃b : ByteOps⦄ where
  instance unfoldable pub auth_id_encodable : Encodable AuthId
  unfolding auth_id_serialize pure
  auth_id_encodable = record {
    schema = (schema_of String) ⊗ (schema_of String);
    view = λ r. (view_of r.scheme, view_of r.id);
    serialize_lem = λ r buf. simp (serialize_into-bind, append_assoc);
    size_lem = λ r. simp (length-append, string_encodable.size_lem);
  }

  instance unfoldable pub auth_id_conforms : Conforms AuthId
  unfolding auth_id_encodable auth_id_deserialize
  auth_id_conforms = record {
    unview = λ v. record { scheme = unview_of v.0; id = unview_of v.1 };
    unview-view = λ r. simp string_conforms.unview-view;
    view-unview = λ v. simp string_conforms.view-unview;
    deserialize_lem = simp (string_conforms.deserialize_lem, bind_assoc, pure-bind);
  }

  instance unfoldable pub acl_encodable : Encodable Acl
  unfolding acl_serialize pure
  acl_encodable = record {
    schema = int ⊗ (schema_of AuthId);
    view = λ r. (r.perms, view_of r.id);
    serialize_lem = λ r buf. simp (put_i32-bind, serialize_into-bind, append_assoc);
    size_lem = λ r. simp (length-append, length-to_be_bytes, auth_id_encodable.size_lem);
  }

  instance unfoldable pub acl_conforms : Conforms Acl
  unfolding acl_encodable acl_deserialize
  acl_conforms = record {
    unview = λ v. record { perms = v.0; id = unview_of v.1 };
    unview-view = λ r. simp auth_id_conforms.unview-view;
    view-unview = λ v. simp auth_id_conforms.view-unview;
    deserialize_lem = simp (auth_id_conforms.deserialize_lem, bind_assoc, pure-bind);
  }

  instance unfoldable pub client_info_encodable : Encodable ClientInfo
  unfolding client_info_serialize pure
  client_info_encodable = record {
    schema = (schema_of String) ⊗ (schema_of String);
    view = λ r. (view_of r.auth_scheme, view_of r.user);
    serialize_lem = λ r buf. simp (serialize_into-bind, append_assoc);
    size_lem = λ r. simp (length-append, string_encodable.size_lem);
  }

  instance unfoldable pub client_info_conforms : Conforms ClientInfo
  unfolding client_info_encodable client_info_deserialize
  client_info_conforms = record {
    unview = λ v. record { auth_scheme = unview_of v.0; user = unview_of v.1 };
    unview-view = λ r. simp string_conforms.unview-view;
    view-unview = λ v. simp string_conforms.view-unview;
    deserialize_lem = simp (string_conforms.deserialize_lem, bind_assoc, pure-bind);
  }

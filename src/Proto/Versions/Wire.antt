-- ===== src/Proto/Versions/Wire.antt =====
-- proto.rs: the schemas that the records of `Versions` are sent by.
use zksrv.Base.{append_assoc, length-append, length-to_be_bytes}
use zksrv.Text.{String}
use zksrv.Bytes.{ByteOps}
use zksrv.Buf.{pure, bind_assoc, pure-bind}
use zksrv.Buf.Ops.Laws.{put_i32-bind}
use zksrv.Record.{string_deserialize, string_serialize}
use zksrv.Jute.{int, ◌⊗◌}
use zksrv.Jute.Conform.{
  Encodable, Conforms, schema_of, serialize_into-bind, string_conforms, string_encodable, unview_of,
  view_of,
}
use zksrv.Proto.Versions.{
  CheckVersionRequest, check_version_request_serialize, check_version_request_deserialize,
  SyncRequest, sync_request_serialize, sync_request_deserialize, SyncResponse,
  sync_response_serialize, sync_response_deserialize,
}

module _ ⦃b : ByteOps⦄ where
  instance unfoldable pub check_version_request_encodable : Encodable CheckVersionRequest
  unfolding check_version_request_serialize pure
  check_version_request_encodable = record {
    schema = (schema_of String) ⊗ int;
    view = λ r. (view_of r.path, r.version);
    serialize_lem = λ r buf. simp (serialize_into-bind, put_i32-bind, append_assoc);
    size_lem = λ r. simp (length-append, length-to_be_bytes, string_encodable.size_lem);
  }

  instance unfoldable pub check_version_request_conforms : Conforms CheckVersionRequest
  unfolding check_version_request_encodable check_version_request_deserialize
  check_version_request_conforms = record {
    unview = λ v. record { path = unview_of v.0; version = v.1 };
    unview-view = λ r. simp string_conforms.unview-view;
    view-unview = λ v. simp string_conforms.view-unview;
    deserialize_lem = simp (string_conforms.deserialize_lem, bind_assoc, pure-bind);
  }

  instance unfoldable pub sync_request_encodable : Encodable SyncRequest
  unfolding sync_request_serialize pure
  sync_request_encodable = record {
    schema = schema_of String;
    view = λ r. view_of r.path;
    serialize_lem = λ r buf. simp serialize_into-bind;
    size_lem = λ r. simp string_encodable.size_lem;
  }

  instance unfoldable pub sync_request_conforms : Conforms SyncRequest
  unfolding sync_request_encodable sync_request_deserialize
  sync_request_conforms = record {
    unview = λ v. record { path = unview_of v };
    unview-view = λ r. simp string_conforms.unview-view;
    view-unview = λ v. simp string_conforms.view-unview;
    deserialize_lem = simp (string_conforms.deserialize_lem, bind_assoc, pure-bind);
  }

  instance unfoldable pub sync_response_encodable : Encodable SyncResponse
  unfolding sync_response_serialize pure
  sync_response_encodable = record {
    schema = schema_of String;
    view = λ r. view_of r.path;
    serialize_lem = λ r buf. simp serialize_into-bind;
    size_lem = λ r. simp string_encodable.size_lem;
  }

  instance unfoldable pub sync_response_conforms : Conforms SyncResponse
  unfolding sync_response_encodable sync_response_deserialize
  sync_response_conforms = record {
    unview = λ v. record { path = unview_of v };
    unview-view = λ r. simp string_conforms.unview-view;
    view-unview = λ v. simp string_conforms.view-unview;
    deserialize_lem = simp (string_conforms.deserialize_lem, bind_assoc, pure-bind);
  }

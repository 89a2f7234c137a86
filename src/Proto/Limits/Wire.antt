-- ===== src/Proto/Limits/Wire.antt =====
-- proto.rs: the schemas that the records of `Limits` are sent by.
use zksrv.Base.{List, refl, append_assoc, length-append, length-to_be_bytes}
use zksrv.Text.{String}
use zksrv.Bytes.{ByteOps}
use zksrv.Buf.{pure, bind_assoc, pure-bind}
use zksrv.Buf.Ops.Laws.{put_i32-bind}
use zksrv.Record.{string_deserialize, string_serialize, vec_deserialize, vec_serialize}
use zksrv.Jute.{int, ◌⊗◌}
use zksrv.Jute.Conform.{
  Encodable, Conforms, schema_of, serialize_into-bind, string_conforms, string_encodable, unview_of,
  vec_conforms, vec_encodable, view_of,
}
use zksrv.Proto.Limits.{
  GetMaxChildrenRequest, get_max_children_request_serialize, get_max_children_request_deserialize,
  GetMaxChildrenResponse, get_max_children_response_serialize,
  get_max_children_response_deserialize, SetMaxChildrenRequest, set_max_children_request_serialize,
  set_max_children_request_deserialize, GetEphemeralsRequest, get_ephemerals_request_serialize,
  get_ephemerals_request_deserialize, GetEphemeralsResponse, get_ephemerals_response_serialize,
  get_ephemerals_response_deserialize,
}

module _ ⦃b : ByteOps⦄ where
  instance unfoldable pub get_max_children_request_encodable : Encodable GetMaxChildrenRequest
  unfolding get_max_children_request_serialize pure
  get_max_children_request_encodable = record {
    schema = schema_of String;
    view = λ r. view_of r.path;
    serialize_lem = λ r buf. simp serialize_into-bind;
    size_lem = λ r. simp string_encodable.size_lem;
  }

  instance unfoldable pub get_max_children_request_conforms : Conforms GetMaxChildrenRequest
  unfolding get_max_children_request_encodable get_max_children_request_deserialize
  get_max_children_request_conforms = record {
    unview = λ v. record { path = unview_of v };
    unview-view = λ r. simp string_conforms.unview-view;
    view-unview = λ v. simp string_conforms.view-unview;
    deserialize_lem = simp (string_conforms.deserialize_lem, bind_assoc, pure-bind);
  }

  instance unfoldable pub get_max_children_response_encodable : Encodable GetMaxChildrenResponse
  unfolding get_max_children_response_serialize pure
  get_max_children_response_encodable = record {
    schema = int;
    view = λ r. r.max;
    serialize_lem = λ r buf. simp put_i32-bind;
    size_lem = λ r. simp length-to_be_bytes;
  }

  instance unfoldable pub get_max_children_response_conforms : Conforms GetMaxChildrenResponse
  unfolding get_max_children_response_encodable get_max_children_response_deserialize
  get_max_children_response_conforms = record {
    unview = λ v. record { max = v };
    unview-view = λ r. refl;
    view-unview = λ v. refl;
    deserialize_lem = refl;
  }

  instance unfoldable pub set_max_children_request_encodable : Encodable SetMaxChildrenRequest
  unfolding set_max_children_request_serialize pure
  set_max_children_request_encodable = record {
    schema = (schema_of String) ⊗ int;
    view = λ r. (view_of r.path, r.max);
    serialize_lem = λ r buf. simp (serialize_into-bind, put_i32-bind, append_assoc);
    size_lem = λ r. simp (length-append, length-to_be_bytes, string_encodable.size_lem);
  }

  instance unfoldable pub set_max_children_request_conforms : Conforms SetMaxChildrenRequest
  unfolding set_max_children_request_encodable set_max_children_request_deserialize
  set_max_children_request_conforms = record {
    unview = λ v. record { path = unview_of v.0; max = v.1 };
    unview-view = λ r. simp string_conforms.unview-view;
    view-unview = λ v. simp string_conforms.view-unview;
    deserialize_lem = simp (string_conforms.deserialize_lem, bind_assoc, pure-bind);
  }

  instance unfoldable pub get_ephemerals_request_encodable : Encodable GetEphemeralsRequest
  unfolding get_ephemerals_request_serialize pure
  get_ephemerals_request_encodable = record {
    schema = schema_of String;
    view = λ r. view_of r.prefix_path;
    serialize_lem = λ r buf. simp serialize_into-bind;
    size_lem = λ r. simp string_encodable.size_lem;
  }

  instance unfoldable pub get_ephemerals_request_conforms : Conforms GetEphemeralsRequest
  unfolding get_ephemerals_request_encodable get_ephemerals_request_deserialize
  get_ephemerals_request_conforms = record {
    unview = λ v. record { prefix_path = unview_of v };
    unview-view = λ r. simp string_conforms.unview-view;
    view-unview = λ v. simp string_conforms.view-unview;
    deserialize_lem = simp (string_conforms.deserialize_lem, bind_assoc, pure-bind);
  }

  instance unfoldable pub get_ephemerals_response_encodable : Encodable GetEphemeralsResponse
  unfolding get_ephemerals_response_serialize pure
  get_ephemerals_response_encodable = record {
    schema = schema_of (List String);
    view = λ r. view_of r.ephemerals;
    serialize_lem = λ r buf. simp serialize_into-bind;
    size_lem = λ r. simp ((vec_encodable {A = String}).size_lem);
  }

  instance unfoldable pub get_ephemerals_response_conforms : Conforms GetEphemeralsResponse
  unfolding get_ephemerals_response_encodable get_ephemerals_response_deserialize
  get_ephemerals_response_conforms = record {
    unview = λ v. record { ephemerals = unview_of v };
    unview-view = λ r. simp ((vec_conforms {A = String}).unview-view);
    view-unview = λ v. simp ((vec_conforms {A = String}).view-unview);
    deserialize_lem = simp ((vec_conforms {A = String}).deserialize_lem, bind_assoc, pure-bind);
  }

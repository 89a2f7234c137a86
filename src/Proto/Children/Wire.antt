-- ===== src/Proto/Children/Wire.antt =====
-- proto.rs: the schemas that the records of `Children` are sent by.
use zksrv.Base.{List, refl, append_assoc, length-append, length-to_be_bytes}
use zksrv.Text.{String}
use zksrv.Bytes.{ByteOps}
use zksrv.Buf.{pure, bind_assoc, pure-bind}
use zksrv.Buf.Ops.Laws.{put_i32-bind, put_u8-bind}
use zksrv.Record.{string_deserialize, string_serialize, vec_deserialize, vec_serialize}
use zksrv.Jute.{byte, int, ◌⊗◌}
use zksrv.Jute.Conform.{
  Encodable, Conforms, schema_of, serialize_into-bind, string_conforms, string_encodable, unview_of,
  vec_conforms, vec_encodable, view_of,
}
use zksrv.Proto.Children.{
  GetChildrenRequest, get_children_request_serialize, get_children_request_deserialize,
  GetAllChildrenNumberRequest, get_all_children_number_request_serialize,
  get_all_children_number_request_deserialize, GetChildren2Request, get_children2_request_serialize,
  get_children2_request_deserialize, GetChildrenResponse, get_children_response_serialize,
  get_children_response_deserialize, GetAllChildrenNumberResponse,
  get_all_children_number_response_serialize, get_all_children_number_response_deserialize,
  GetChildren2Response, get_children2_response_serialize, get_children2_response_deserialize,
}
use zksrv.Proto.Stats.Wire.{stat_encodable, stat_conforms}
use zksrv.Proto.Stats.{stat_serialize, stat_deserialize, Stat}

module _ ⦃b : ByteOps⦄ where
  instance unfoldable pub get_children_request_encodable : Encodable GetChildrenRequest
  unfolding get_children_request_serialize pure
  get_children_request_encodable = record {
    schema = (schema_of String) ⊗ byte;
    view = λ r. (view_of r.path, r.watch);
    serialize_lem = λ r buf. simp (serialize_into-bind, put_u8-bind, append_assoc);
    size_lem = λ r. simp (length-append, length-to_be_bytes, string_encodable.size_lem);
  }

  instance unfoldable pub get_children_request_conforms : Conforms GetChildrenRequest
  unfolding get_children_request_encodable get_children_request_deserialize
  get_children_request_conforms = record {
    unview = λ v. record { path = unview_of v.0; watch = v.1 };
    unview-view = λ r. simp string_conforms.unview-view;
    view-unview = λ v. simp string_conforms.view-unview;
    deserialize_lem = simp (string_conforms.deserialize_lem, bind_assoc, pure-bind);
  }

  instance unfoldable pub get_all_children_number_request_encodable :
      Encodable GetAllChildrenNumberRequest
  unfolding get_all_children_number_request_serialize pure
  get_all_children_number_request_encodable = record {
    schema = schema_of String;
    view = λ r. view_of r.path;
    serialize_lem = λ r buf. simp serialize_into-bind;
    size_lem = λ r. simp string_encodable.size_lem;
  }

  instance unfoldable pub get_all_children_number_request_conforms :
      Conforms GetAllChildrenNumberRequest
  unfolding get_all_children_number_request_encodable get_all_children_number_request_deserialize
  get_all_children_number_request_conforms = record {
    unview = λ v. record { path = unview_of v };
    unview-view = λ r. simp string_conforms.unview-view;
    view-unview = λ v. simp string_conforms.view-unview;
    deserialize_lem = simp (string_conforms.deserialize_lem, bind_assoc, pure-bind);
  }

  instance unfoldable pub get_children2_request_encodable : Encodable GetChildren2Request
  unfolding get_children2_request_serialize pure
  get_children2_request_encodable = record {
    schema = (schema_of String) ⊗ byte;
    view = λ r. (view_of r.path, r.watch);
    serialize_lem = λ r buf. simp (serialize_into-bind, put_u8-bind, append_assoc);
    size_lem = λ r. simp (length-append, length-to_be_bytes, string_encodable.size_lem);
  }

  instance unfoldable pub get_children2_request_conforms : Conforms GetChildren2Request
  unfolding get_children2_request_encodable get_children2_request_deserialize
  get_children2_request_conforms = record {
    unview = λ v. record { path = unview_of v.0; watch = v.1 };
    unview-view = λ r. simp string_conforms.unview-view;
    view-unview = λ v. simp string_conforms.view-unview;
    deserialize_lem = simp (string_conforms.deserialize_lem, bind_assoc, pure-bind);
  }

  instance unfoldable pub get_children_response_encodable : Encodable GetChildrenResponse
  unfolding get_children_response_serialize pure
  get_children_response_encodable = record {
    schema = schema_of (List String);
    view = λ r. view_of r.children;
    serialize_lem = λ r buf. simp serialize_into-bind;
    size_lem = λ r. simp ((vec_encodable {A = String}).size_lem);
  }

  instance unfoldable pub get_children_response_conforms : Conforms GetChildrenResponse
  unfolding get_children_response_encodable get_children_response_deserialize
  get_children_response_conforms = record {
    unview = λ v. record { children = unview_of v };
    unview-view = λ r. simp ((vec_conforms {A = String}).unview-view);
    view-unview = λ v. simp ((vec_conforms {A = String}).view-unview);
    deserialize_lem = simp ((vec_conforms {A = String}).deserialize_lem, bind_assoc, pure-bind);
  }

  instance unfoldable pub get_all_children_number_response_encodable :
      Encodable GetAllChildrenNumberResponse
  unfolding get_all_children_number_response_serialize pure
  get_all_children_number_response_encodable = record {
    schema = int;
    view = λ r. r.total_number;
    serialize_lem = λ r buf. simp put_i32-bind;
    size_lem = λ r. simp length-to_be_bytes;
  }

  instance unfoldable pub get_all_children_number_response_conforms :
      Conforms GetAllChildrenNumberResponse
  unfolding get_all_children_number_response_encodable get_all_children_number_response_deserialize
  get_all_children_number_response_conforms = record {
    unview = λ v. record { total_number = v };
    unview-view = λ r. refl;
    view-unview = λ v. refl;
    deserialize_lem = refl;
  }

  instance unfoldable pub get_children2_response_encodable : Encodable GetChildren2Response
  unfolding get_children2_response_serialize pure
  get_children2_response_encodable = record {
    schema = (schema_of (List String)) ⊗ (schema_of Stat);
    view = λ r. (view_of r.children, view_of r.stat);
    serialize_lem = λ r buf. simp (serialize_into-bind, append_assoc);
    size_lem =
        λ r. simp (length-append, (vec_encodable {A = String}).size_lem, stat_encodable.size_lem);
  }

  instance unfoldable pub get_children2_response_conforms : Conforms GetChildren2Response
  unfolding get_children2_response_encodable get_children2_response_deserialize
  get_children2_response_conforms = record {
    unview = λ v. record { children = unview_of v.0; stat = unview_of v.1 };
    unview-view = λ r. simp ((vec_conforms {A = String}).unview-view, stat_conforms.unview-view);
    view-unview = λ v. simp ((vec_conforms {A = String}).view-unview, stat_conforms.view-unview);
    deserialize_lem = simp (
      (vec_conforms {A = String}).deserialize_lem,
      stat_conforms.deserialize_lem,
      bind_assoc,
      pure-bind,
    );
  }

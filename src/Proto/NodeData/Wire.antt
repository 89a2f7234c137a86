-- ===== src/Proto/NodeData/Wire.antt =====
-- proto.rs: the schemas that the records of `NodeData` are sent by.
use zksrv.Base.{ℕ, List, append_assoc, arith, length-append, length-to_be_bytes}
use zksrv.Text.{String}
use zksrv.Bytes.{ByteOps}
use zksrv.Buf.{pure, bind_assoc, pure-bind}
use zksrv.Buf.Ops.Laws.{put_i32-bind, put_u8-bind}
use zksrv.Record.{bytes_deserialize, bytes_serialize, string_deserialize, string_serialize}
use zksrv.Jute.{byte, int, ◌⊗◌}
use zksrv.Jute.Conform.{
  Encodable, Conforms, bytes_conforms, bytes_encodable, schema_of, serialize_into-bind,
  string_conforms, string_encodable, unview_of, view_of,
}
use zksrv.Proto.NodeData.{
  GetDataRequest, get_data_request_serialize, get_data_request_deserialize, SetDataRequest,
  set_data_request_serialize, set_data_request_deserialize, SetDataResponse,
  set_data_response_serialize, set_data_response_deserialize, ExistsRequest,
  exists_request_serialize, exists_request_deserialize, ExistsResponse, exists_response_serialize,
  exists_response_deserialize, GetDataResponse, get_data_response_serialize,
  get_data_response_deserialize,
}
use zksrv.Proto.Stats.Wire.{stat_encodable, stat_conforms}
use zksrv.Proto.Stats.{stat_serialize, stat_deserialize, Stat}

module _ ⦃b : ByteOps⦄ where
  instance unfoldable pub get_data_request_encodable : Encodable GetDataRequest
  unfolding get_data_request_serialize pure
  get_data_request_encodable = record {
    schema = (schema_of String) ⊗ byte;
    view = λ r. (view_of r.path, r.watch);
    serialize_lem = λ r buf. simp (serialize_into-bind, put_u8-bind, append_assoc);
    size_lem = λ r. simp (length-append, length-to_be_bytes, string_encodable.size_lem);
  }

  instance unfoldable pub get_data_request_conforms : Conforms GetDataRequest
  unfolding get_data_request_encodable get_data_request_deserialize
  get_data_request_conforms = record {
    unview = λ v. record { path = unview_of v.0; watch = v.1 };
    unview-view = λ r. simp string_conforms.unview-view;
    view-unview = λ v. simp string_conforms.view-unview;
    deserialize_lem = simp (string_conforms.deserialize_lem, bind_assoc, pure-bind);
  }

  instance unfoldable pub set_data_request_encodable : Encodable SetDataRequest
  unfolding set_data_request_serialize pure
  set_data_request_encodable = record {
    schema = (schema_of String) ⊗ (schema_of (List ℕ)) ⊗ int;
    view = λ r. (view_of r.path, (view_of r.data_bytes, r.version));
    serialize_lem = λ r buf. simp (serialize_into-bind, put_i32-bind, append_assoc);
    size_lem = λ r.
        simp
          (length-append, length-to_be_bytes, string_encodable.size_lem, bytes_encodable.size_lem)
          (omega arith);
  }

  instance unfoldable pub set_data_request_conforms : Conforms SetDataRequest
  unfolding set_data_request_encodable set_data_request_deserialize
  set_data_request_conforms = record {
    unview = λ v. record { path = unview_of v.0; data_bytes = unview_of v.1.0; version = v.1.1 };
    unview-view = λ r. simp (string_conforms.unview-view, bytes_conforms.unview-view);
    view-unview = λ v. simp (string_conforms.view-unview, bytes_conforms.view-unview);
    deserialize_lem =
        simp
          (string_conforms.deserialize_lem, bytes_conforms.deserialize_lem, bind_assoc, pure-bind);
  }

  instance unfoldable pub set_data_response_encodable : Encodable SetDataResponse
  unfolding set_data_response_serialize pure
  set_data_response_encodable = record {
    schema = schema_of Stat;
    view = λ r. view_of r.stat;
    serialize_lem = λ r buf. simp serialize_into-bind;
    size_lem = λ r. simp stat_encodable.size_lem;
  }

  instance unfoldable pub set_data_response_conforms : Conforms SetDataResponse
  unfolding set_data_response_encodable set_data_response_deserialize
  set_data_response_conforms = record {
    unview = λ v. record { stat = unview_of v };
    unview-view = λ r. simp stat_conforms.unview-view;
    view-unview = λ v. simp stat_conforms.view-unview;
    deserialize_lem = simp (stat_conforms.deserialize_lem, bind_assoc, pure-bind);
  }

  instance unfoldable pub exists_request_encodable : Encodable ExistsRequest
  unfolding exists_request_serialize pure
  exists_request_encodable = record {
    schema = (schema_of String) ⊗ byte;
    view = λ r. (view_of r.path, r.watch);
    serialize_lem = λ r buf. simp (serialize_into-bind, put_u8-bind, append_assoc);
    size_lem = λ r. simp (length-append, length-to_be_bytes, string_encodable.size_lem);
  }

  instance unfoldable pub exists_request_conforms : Conforms ExistsRequest
  unfolding exists_request_encodable exists_request_deserialize
  exists_request_conforms = record {
    unview = λ v. record { path = unview_of v.0; watch = v.1 };
    unview-view = λ r. simp string_conforms.unview-view;
    view-unview = λ v. simp string_conforms.view-unview;
    deserialize_lem = simp (string_conforms.deserialize_lem, bind_assoc, pure-bind);
  }

  instance unfoldable pub exists_response_encodable : Encodable ExistsResponse
  unfolding exists_response_serialize pure
  exists_response_encodable = record {
    schema = schema_of Stat;
    view = λ r. view_of r.stat;
    serialize_lem = λ r buf. simp serialize_into-bind;
    size_lem = λ r. simp stat_encodable.size_lem;
  }

  instance unfoldable pub exists_response_conforms : Conforms ExistsResponse
  unfolding exists_response_encodable exists_response_deserialize
  exists_response_conforms = record {
    unview = λ v. record { stat = unview_of v };
    unview-view = λ r. simp stat_conforms.unview-view;
    view-unview = λ v. simp stat_conforms.view-unview;
    deserialize_lem = simp (stat_conforms.deserialize_lem, bind_assoc, pure-bind);
  }

  instance unfoldable pub get_data_response_encodable : Encodable GetDataResponse
  unfolding get_data_response_serialize pure
  get_data_response_encodable = record {
    schema = (schema_of (List ℕ)) ⊗ (schema_of Stat);
    view = λ r. (view_of r.data_bytes, view_of r.stat);
    serialize_lem = λ r buf. simp (serialize_into-bind, append_assoc);
    size_lem = λ r. simp (length-append, bytes_encodable.size_lem, stat_encodable.size_lem);
  }

  instance unfoldable pub get_data_response_conforms : Conforms GetDataResponse
  unfolding get_data_response_encodable get_data_response_deserialize
  get_data_response_conforms = record {
    unview = λ v. record { data_bytes = unview_of v.0; stat = unview_of v.1 };
    unview-view = λ r. simp (bytes_conforms.unview-view, stat_conforms.unview-view);
    view-unview = λ v. simp (bytes_conforms.view-unview, stat_conforms.view-unview);
    deserialize_lem =
        simp (bytes_conforms.deserialize_lem, stat_conforms.deserialize_lem, bind_assoc, pure-bind);
  }

-- ===== src/Proto/Create/Wire.antt =====
-- proto.rs: the schemas that the records of `Create` are sent by.
use zksrv.Base.{ℕ, List, append_assoc, arith, length-append, length-map, length-to_be_bytes}
use zksrv.Text.{String}
use zksrv.Bytes.{ByteOps}
use zksrv.Buf.{pure, bind_assoc, pure-bind}
use zksrv.Buf.Ops.Laws.{put_i32-bind, put_i64-bind}
use zksrv.Record.{
  bytes_deserialize, bytes_serialize, string_deserialize, string_serialize, vec_deserialize,
  vec_serialize,
}
use zksrv.Jute.{int, long, ◌⊗◌}
use zksrv.Jute.Conform.{
  Encodable, Conforms, bytes_conforms, bytes_encodable, for_each-bind, schema_of,
  serialize_into-bind, string_conforms, string_encodable, unview_of, vec_conforms, vec_encodable,
  view_of,
}
use zksrv.Proto.Create.{
  CreateRequest, create_request_serialize, create_request_deserialize, CreateTtlRequest,
  create_ttl_request_serialize, create_ttl_request_deserialize, DeleteRequest,
  delete_request_serialize, delete_request_deserialize, CreateResponse, create_response_serialize,
  create_response_deserialize, Create2Response, create2_response_serialize,
  create2_response_deserialize,
}
use zksrv.Proto.Ids.Wire.{acl_encodable, acl_conforms}
use zksrv.Proto.Ids.{acl_serialize, acl_deserialize, Acl}
use zksrv.Proto.Stats.Wire.{stat_encodable, stat_conforms}
use zksrv.Proto.Stats.{stat_serialize, stat_deserialize, Stat}

module _ ⦃b : ByteOps⦄ where
  instance unfoldable pub create_request_encodable : Encodable CreateRequest
  unfolding create_request_serialize pure vec_encodable vec_serialize
  create_request_encodable = record {
    schema = (schema_of String) ⊗ (schema_of (List ℕ)) ⊗ (schema_of (List Acl)) ⊗ int;
    view = λ r. (view_of r.path, (view_of r.data_bytes, (view_of r.acl, r.flags)));
    serialize_lem =
        λ r buf. simp (serialize_into-bind, put_i32-bind, for_each-bind, append_assoc, length-map);
    size_lem = λ r.
        simp
          (
            length-append,
            length-to_be_bytes,
            string_encodable.size_lem,
            bytes_encodable.size_lem,
            (vec_encodable {A = Acl}).size_lem,
          )
          (omega arith);
  }

  instance unfoldable pub create_request_conforms : Conforms CreateRequest
  unfolding create_request_encodable create_request_deserialize
  create_request_conforms = record {
    unview = λ v. record {
      path = unview_of v.0;
      data_bytes = unview_of v.1.0;
      acl = unview_of v.1.1.0;
      flags = v.1.1.1;
    };
    unview-view = λ r. simp (
      string_conforms.unview-view,
      bytes_conforms.unview-view,
      (vec_conforms {A = Acl}).unview-view,
    );
    view-unview = λ v. simp (
      string_conforms.view-unview,
      bytes_conforms.view-unview,
      (vec_conforms {A = Acl}).view-unview,
    );
    deserialize_lem = simp (
      string_conforms.deserialize_lem,
      bytes_conforms.deserialize_lem,
      (vec_conforms {A = Acl}).deserialize_lem,
      bind_assoc,
      pure-bind,
    );
  }

  instance unfoldable pub create_ttl_request_encodable : Encodable CreateTtlRequest
  unfolding create_ttl_request_serialize pure vec_encodable vec_serialize
  create_ttl_request_encodable = record {
    schema = (schema_of String) ⊗ (schema_of (List ℕ)) ⊗ (schema_of (List Acl)) ⊗ int ⊗ long;
    view = λ r. (view_of r.path, (view_of r.data_bytes, (view_of r.acl, (r.flags, r.ttl))));
    serialize_lem = λ r buf.
        simp (
          serialize_into-bind, put_i32-bind, for_each-bind, put_i64-bind, append_assoc, length-map,
        );
    size_lem = λ r.
        simp
          (
            length-append,
            length-to_be_bytes,
            string_encodable.size_lem,
            bytes_encodable.size_lem,
            (vec_encodable {A = Acl}).size_lem,
          )
          (omega arith);
  }

  instance unfoldable pub create_ttl_request_conforms : Conforms CreateTtlRequest
  unfolding create_ttl_request_encodable create_ttl_request_deserialize
  create_ttl_request_conforms = record {
    unview = λ v. record {
      path = unview_of v.0;
      data_bytes = unview_of v.1.0;
      acl = unview_of v.1.1.0;
      flags = v.1.1.1.0;
      ttl = v.1.1.1.1;
    };
    unview-view = λ r. simp (
      string_conforms.unview-view,
      bytes_conforms.unview-view,
      (vec_conforms {A = Acl}).unview-view,
    );
    view-unview = λ v. simp (
      string_conforms.view-unview,
      bytes_conforms.view-unview,
      (vec_conforms {A = Acl}).view-unview,
    );
    deserialize_lem = simp (
      string_conforms.deserialize_lem,
      bytes_conforms.deserialize_lem,
      (vec_conforms {A = Acl}).deserialize_lem,
      bind_assoc,
      pure-bind,
    );
  }

  instance unfoldable pub delete_request_encodable : Encodable DeleteRequest
  unfolding delete_request_serialize pure
  delete_request_encodable = record {
    schema = (schema_of String) ⊗ int;
    view = λ r. (view_of r.path, r.version);
    serialize_lem = λ r buf. simp (serialize_into-bind, put_i32-bind, append_assoc);
    size_lem = λ r. simp (length-append, length-to_be_bytes, string_encodable.size_lem);
  }

  instance unfoldable pub delete_request_conforms : Conforms DeleteRequest
  unfolding delete_request_encodable delete_request_deserialize
  delete_request_conforms = record {
    unview = λ v. record { path = unview_of v.0; version = v.1 };
    unview-view = λ r. simp string_conforms.unview-view;
    view-unview = λ v. simp string_conforms.view-unview;
    deserialize_lem = simp (string_conforms.deserialize_lem, bind_assoc, pure-bind);
  }

  instance unfoldable pub create_response_encodable : Encodable CreateResponse
  unfolding create_response_serialize pure
  create_response_encodable = record {
    schema = schema_of String;
    view = λ r. view_of r.path;
    serialize_lem = λ r buf. simp serialize_into-bind;
    size_lem = λ r. simp string_encodable.size_lem;
  }

  instance unfoldable pub create_response_conforms : Conforms CreateResponse
  unfolding create_response_encodable create_response_deserialize
  create_response_conforms = record {
    unview = λ v. record { path = unview_of v };
    unview-view = λ r. simp string_conforms.unview-view;
    view-unview = λ v. simp string_conforms.view-unview;
    deserialize_lem = simp (string_conforms.deserialize_lem, bind_assoc, pure-bind);
  }

  instance unfoldable pub create2_response_encodable : Encodable Create2Response
  unfolding create2_response_serialize pure
  create2_response_encodable = record {
    schema = (schema_of String) ⊗ (schema_of Stat);
    view = λ r. (view_of r.path, view_of r.stat);
    serialize_lem = λ r buf. simp (serialize_into-bind, append_assoc);
    size_lem = λ r. simp (length-append, string_encodable.size_lem, stat_encodable.size_lem);
  }

  instance unfoldable pub create2_response_conforms : Conforms Create2Response
  unfolding create2_response_encodable create2_response_deserialize
  create2_response_conforms = record {
    unview = λ v. record { path = unview_of v.0; stat = unview_of v.1 };
    unview-view = λ r. simp (string_conforms.unview-view, stat_conforms.unview-view);
    view-unview = λ v. simp (string_conforms.view-unview, stat_conforms.view-unview);
    deserialize_lem =
        simp
          (string_conforms.deserialize_lem, stat_conforms.deserialize_lem, bind_assoc, pure-bind);
  }

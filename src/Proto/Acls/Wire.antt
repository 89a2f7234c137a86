-- ===== src/Proto/Acls/Wire.antt =====
-- proto.rs: the schemas that the records of `Acls` are sent by.
use zksrv.Base.{List, append_assoc, arith, length-append, length-map, length-to_be_bytes}
use zksrv.Text.{String}
use zksrv.Bytes.{ByteOps}
use zksrv.Buf.{pure, bind_assoc, pure-bind}
use zksrv.Buf.Ops.Laws.{put_i32-bind}
use zksrv.Record.{string_deserialize, string_serialize, vec_deserialize, vec_serialize}
use zksrv.Jute.{int, ◌⊗◌}
use zksrv.Jute.Conform.{
  Encodable, Conforms, for_each-bind, schema_of, serialize_into-bind, string_conforms,
  string_encodable, unview_of, vec_conforms, vec_encodable, view_of,
}
use zksrv.Proto.Acls.{
  GetAclRequest, get_acl_request_serialize, get_acl_request_deserialize, SetAclRequest,
  set_acl_request_serialize, set_acl_request_deserialize, SetAclResponse,
  set_acl_response_serialize, set_acl_response_deserialize, GetAclResponse,
  get_acl_response_serialize, get_acl_response_deserialize,
}
use zksrv.Proto.Ids.Wire.{acl_encodable, acl_conforms}
use zksrv.Proto.Ids.{acl_serialize, acl_deserialize, Acl}
use zksrv.Proto.Stats.Wire.{stat_encodable, stat_conforms}
use zksrv.Proto.Stats.{stat_serialize, stat_deserialize, Stat}

module _ ⦃b : ByteOps⦄ where
  instance unfoldable pub get_acl_request_encodable : Encodable GetAclRequest
  unfolding get_acl_request_serialize pure
  get_acl_request_encodable = record {
    schema = schema_of String;
    view = λ r. view_of r.path;
    serialize_lem = λ r buf. simp serialize_into-bind;
    size_lem = λ r. simp string_encodable.size_lem;
  }

  instance unfoldable pub get_acl_request_conforms : Conforms GetAclRequest
  unfolding get_acl_request_encodable get_acl_request_deserialize
  get_acl_request_conforms = record {
    unview = λ v. record { path = unview_of v };
    unview-view = λ r. simp string_conforms.unview-view;
    view-unview = λ v. simp string_conforms.view-unview;
    deserialize_lem = simp (string_conforms.deserialize_lem, bind_assoc, pure-bind);
  }

  instance unfoldable pub set_acl_request_encodable : Encodable SetAclRequest
  unfolding set_acl_request_serialize pure vec_encodable vec_serialize
  set_acl_request_encodable = record {
    schema = (schema_of String) ⊗ (schema_of (List Acl)) ⊗ int;
    view = λ r. (view_of r.path, (view_of r.acl, r.version));
    serialize_lem =
        λ r buf. simp (serialize_into-bind, put_i32-bind, for_each-bind, append_assoc, length-map);
    size_lem = λ r.
        simp
          (
            length-append,
            length-to_be_bytes,
            string_encodable.size_lem,
            (vec_encodable {A = Acl}).size_lem,
          )
          (omega arith);
  }

  instance unfoldable pub set_acl_request_conforms : Conforms SetAclRequest
  unfolding set_acl_request_encodable set_acl_request_deserialize
  set_acl_request_conforms = record {
    unview = λ v. record { path = unview_of v.0; acl = unview_of v.1.0; version = v.1.1 };
    unview-view = λ r. simp (string_conforms.unview-view, (vec_conforms {A = Acl}).unview-view);
    view-unview = λ v. simp (string_conforms.view-unview, (vec_conforms {A = Acl}).view-unview);
    deserialize_lem = simp (
      string_conforms.deserialize_lem,
      (vec_conforms {A = Acl}).deserialize_lem,
      bind_assoc,
      pure-bind,
    );
  }

  instance unfoldable pub set_acl_response_encodable : Encodable SetAclResponse
  unfolding set_acl_response_serialize pure
  set_acl_response_encodable = record {
    schema = schema_of Stat;
    view = λ r. view_of r.stat;
    serialize_lem = λ r buf. simp serialize_into-bind;
    size_lem = λ r. simp stat_encodable.size_lem;
  }

  instance unfoldable pub set_acl_response_conforms : Conforms SetAclResponse
  unfolding set_acl_response_encodable set_acl_response_deserialize
  set_acl_response_conforms = record {
    unview = λ v. record { stat = unview_of v };
    unview-view = λ r. simp stat_conforms.unview-view;
    view-unview = λ v. simp stat_conforms.view-unview;
    deserialize_lem = simp (stat_conforms.deserialize_lem, bind_assoc, pure-bind);
  }

  instance unfoldable pub get_acl_response_encodable : Encodable GetAclResponse
  unfolding get_acl_response_serialize pure vec_encodable vec_serialize
  get_acl_response_encodable = record {
    schema = (schema_of (List Acl)) ⊗ (schema_of Stat);
    view = λ r. (view_of r.acl, view_of r.stat);
    serialize_lem =
        λ r buf. simp (put_i32-bind, for_each-bind, serialize_into-bind, append_assoc, length-map);
    size_lem =
        λ r. simp (length-append, (vec_encodable {A = Acl}).size_lem, stat_encodable.size_lem);
  }

  instance unfoldable pub get_acl_response_conforms : Conforms GetAclResponse
  unfolding get_acl_response_encodable get_acl_response_deserialize
  get_acl_response_conforms = record {
    unview = λ v. record { acl = unview_of v.0; stat = unview_of v.1 };
    unview-view = λ r. simp ((vec_conforms {A = Acl}).unview-view, stat_conforms.unview-view);
    view-unview = λ v. simp ((vec_conforms {A = Acl}).view-unview, stat_conforms.view-unview);
    deserialize_lem = simp (
      (vec_conforms {A = Acl}).deserialize_lem,
      stat_conforms.deserialize_lem,
      bind_assoc,
      pure-bind,
    );
  }

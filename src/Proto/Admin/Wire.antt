-- ===== src/Proto/Admin/Wire.antt =====
-- proto.rs: the schemas that the records of `Admin` are sent by.
use zksrv.Base.{ℕ, List, append_assoc, arith, length-append, length-map, length-to_be_bytes}
use zksrv.Text.{String}
use zksrv.Bytes.{ByteOps}
use zksrv.Buf.{pure, bind_assoc, pure-bind}
use zksrv.Buf.Ops.Laws.{put_i32-bind, put_i64-bind}
use zksrv.Record.{
  bytes_deserialize, bytes_serialize, string_deserialize, string_serialize, vec_deserialize,
  vec_serialize,
}
use zksrv.Jute.{long, ◌⊗◌}
use zksrv.Jute.Conform.{
  Encodable, Conforms, bytes_conforms, bytes_encodable, for_each-bind, schema_of,
  serialize_into-bind, string_conforms, string_encodable, unview_of, vec_conforms, vec_encodable,
  view_of,
}
use zksrv.Proto.Admin.{
  ReconfigRequest, reconfig_request_serialize, reconfig_request_deserialize, GetSaslRequest,
  get_sasl_request_serialize, get_sasl_request_deserialize, SetSaslRequest,
  set_sasl_request_serialize, set_sasl_request_deserialize, SetSaslResponse,
  set_sasl_response_serialize, set_sasl_response_deserialize, WhoAmIResponse,
  whoami_response_serialize, whoami_response_deserialize,
}
use zksrv.Proto.Ids.Wire.{client_info_encodable, client_info_conforms}
use zksrv.Proto.Ids.{client_info_serialize, client_info_deserialize, ClientInfo}

module _ ⦃b : ByteOps⦄ where
  instance unfoldable pub reconfig_request_encodable : Encodable ReconfigRequest
  unfolding reconfig_request_serialize pure
  reconfig_request_encodable = record {
    schema = (schema_of String) ⊗ (schema_of String) ⊗ (schema_of String) ⊗ long;
    view = λ r. (
      view_of r.joining_servers,
      (view_of r.leaving_servers, (view_of r.new_members, r.cur_config_id)),
    );
    serialize_lem = λ r buf. simp (serialize_into-bind, put_i64-bind, append_assoc);
    size_lem =
        λ r. simp (length-append, length-to_be_bytes, string_encodable.size_lem) (omega arith);
  }

  instance unfoldable pub reconfig_request_conforms : Conforms ReconfigRequest
  unfolding reconfig_request_encodable reconfig_request_deserialize
  reconfig_request_conforms = record {
    unview = λ v. record {
      joining_servers = unview_of v.0;
      leaving_servers = unview_of v.1.0;
      new_members = unview_of v.1.1.0;
      cur_config_id = v.1.1.1;
    };
    unview-view = λ r. simp string_conforms.unview-view;
    view-unview = λ v. simp string_conforms.view-unview;
    deserialize_lem = simp (string_conforms.deserialize_lem, bind_assoc, pure-bind);
  }

  instance unfoldable pub get_sasl_request_encodable : Encodable GetSaslRequest
  unfolding get_sasl_request_serialize pure
  get_sasl_request_encodable = record {
    schema = schema_of (List ℕ);
    view = λ r. view_of r.token;
    serialize_lem = λ r buf. simp serialize_into-bind;
    size_lem = λ r. simp bytes_encodable.size_lem;
  }

  instance unfoldable pub get_sasl_request_conforms : Conforms GetSaslRequest
  unfolding get_sasl_request_encodable get_sasl_request_deserialize
  get_sasl_request_conforms = record {
    unview = λ v. record { token = unview_of v };
    unview-view = λ r. simp bytes_conforms.unview-view;
    view-unview = λ v. simp bytes_conforms.view-unview;
    deserialize_lem = simp (bytes_conforms.deserialize_lem, bind_assoc, pure-bind);
  }

  instance unfoldable pub set_sasl_request_encodable : Encodable SetSaslRequest
  unfolding set_sasl_request_serialize pure
  set_sasl_request_encodable = record {
    schema = schema_of (List ℕ);
    view = λ r. view_of r.token;
    serialize_lem = λ r buf. simp serialize_into-bind;
    size_lem = λ r. simp bytes_encodable.size_lem;
  }

  instance unfoldable pub set_sasl_request_conforms : Conforms SetSaslRequest
  unfolding set_sasl_request_encodable set_sasl_request_deserialize
  set_sasl_request_conforms = record {
    unview = λ v. record { token = unview_of v };
    unview-view = λ r. simp bytes_conforms.unview-view;
    view-unview = λ v. simp bytes_conforms.view-unview;
    deserialize_lem = simp (bytes_conforms.deserialize_lem, bind_assoc, pure-bind);
  }

  instance unfoldable pub set_sasl_response_encodable : Encodable SetSaslResponse
  unfolding set_sasl_response_serialize pure
  set_sasl_response_encodable = record {
    schema = schema_of (List ℕ);
    view = λ r. view_of r.token;
    serialize_lem = λ r buf. simp serialize_into-bind;
    size_lem = λ r. simp bytes_encodable.size_lem;
  }

  instance unfoldable pub set_sasl_response_conforms : Conforms SetSaslResponse
  unfolding set_sasl_response_encodable set_sasl_response_deserialize
  set_sasl_response_conforms = record {
    unview = λ v. record { token = unview_of v };
    unview-view = λ r. simp bytes_conforms.unview-view;
    view-unview = λ v. simp bytes_conforms.view-unview;
    deserialize_lem = simp (bytes_conforms.deserialize_lem, bind_assoc, pure-bind);
  }

  instance unfoldable pub whoami_response_encodable : Encodable WhoAmIResponse
  unfolding whoami_response_serialize pure vec_encodable vec_serialize
  whoami_response_encodable = record {
    schema = schema_of (List ClientInfo);
    view = λ r. view_of r.client_info;
    serialize_lem = λ r buf. simp (put_i32-bind, for_each-bind, append_assoc, length-map);
    size_lem = λ r. simp ((vec_encodable {A = ClientInfo}).size_lem);
  }

  instance unfoldable pub whoami_response_conforms : Conforms WhoAmIResponse
  unfolding whoami_response_encodable whoami_response_deserialize
  whoami_response_conforms = record {
    unview = λ v. record { client_info = unview_of v };
    unview-view = λ r. simp ((vec_conforms {A = ClientInfo}).unview-view);
    view-unview = λ v. simp ((vec_conforms {A = ClientInfo}).view-unview);
    deserialize_lem = simp ((vec_conforms {A = ClientInfo}).deserialize_lem, bind_assoc, pure-bind);
  }

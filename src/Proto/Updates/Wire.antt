-- ===== src/Proto/Updates/Wire.antt =====
-- proto.rs: the schemas that the records of `Updates` are sent by.
use zksrv.Base.{ℕ, List, refl, append_assoc, arith, length-append, length-map, length-to_be_bytes}
use zksrv.Text.{String}
use zksrv.Bytes.{ByteOps}
use zksrv.Buf.{pure, bind_assoc, pure-bind}
use zksrv.Buf.Ops.Laws.{put_i32-bind}
use zksrv.Record.{
  bytes_deserialize, bytes_serialize, string_deserialize, string_serialize, vec_deserialize,
  vec_serialize,
}
use zksrv.Jute.{int, ◌⊗◌}
use zksrv.Jute.Conform.{
  Encodable, Conforms, bytes_conforms, bytes_encodable, for_each-bind, schema_of,
  serialize_into-bind, string_conforms, string_encodable, unview_of, vec_conforms, vec_encodable,
  view_of,
}
use zksrv.Proto.Updates.{
  SetDataTxn, set_data_txn_serialize, set_data_txn_deserialize, CheckVersionTxn,
  check_version_txn_serialize, check_version_txn_deserialize, SetAclTxn, set_acl_txn_serialize,
  set_acl_txn_deserialize, SetMaxChildrenTxn, set_max_children_txn_serialize,
  set_max_children_txn_deserialize, CreateSessionTxn, create_session_txn_serialize,
  create_session_txn_deserialize, CloseSessionTxn, close_session_txn_serialize,
  close_session_txn_deserialize, ErrorTxn, error_txn_serialize, error_txn_deserialize, Txn,
  txn_serialize, txn_deserialize, MultiTxn, multi_txn_serialize, multi_txn_deserialize,
}
use zksrv.Proto.Ids.Wire.{acl_encodable, acl_conforms}
use zksrv.Proto.Ids.{acl_serialize, acl_deserialize, Acl}

module _ ⦃b : ByteOps⦄ where
  instance unfoldable pub set_data_txn_encodable : Encodable SetDataTxn
  unfolding set_data_txn_serialize pure
  set_data_txn_encodable = record {
    schema = (schema_of String) ⊗ (schema_of (List ℕ)) ⊗ int;
    view = λ r. (view_of r.path, (view_of r.data_bytes, r.version));
    serialize_lem = λ r buf. simp (serialize_into-bind, put_i32-bind, append_assoc);
    size_lem = λ r.
        simp
          (length-append, length-to_be_bytes, string_encodable.size_lem, bytes_encodable.size_lem)
          (omega arith);
  }

  instance unfoldable pub set_data_txn_conforms : Conforms SetDataTxn
  unfolding set_data_txn_encodable set_data_txn_deserialize
  set_data_txn_conforms = record {
    unview = λ v. record { path = unview_of v.0; data_bytes = unview_of v.1.0; version = v.1.1 };
    unview-view = λ r. simp (string_conforms.unview-view, bytes_conforms.unview-view);
    view-unview = λ v. simp (string_conforms.view-unview, bytes_conforms.view-unview);
    deserialize_lem =
        simp
          (string_conforms.deserialize_lem, bytes_conforms.deserialize_lem, bind_assoc, pure-bind);
  }

  instance unfoldable pub check_version_txn_encodable : Encodable CheckVersionTxn
  unfolding check_version_txn_serialize pure
  check_version_txn_encodable = record {
    schema = (schema_of String) ⊗ int;
    view = λ r. (view_of r.path, r.version);
    serialize_lem = λ r buf. simp (serialize_into-bind, put_i32-bind, append_assoc);
    size_lem = λ r. simp (length-append, length-to_be_bytes, string_encodable.size_lem);
  }

  instance unfoldable pub check_version_txn_conforms : Conforms CheckVersionTxn
  unfolding check_version_txn_encodable check_version_txn_deserialize
  check_version_txn_conforms = record {
    unview = λ v. record { path = unview_of v.0; version = v.1 };
    unview-view = λ r. simp string_conforms.unview-view;
    view-unview = λ v. simp string_conforms.view-unview;
    deserialize_lem = simp (string_conforms.deserialize_lem, bind_assoc, pure-bind);
  }

  instance unfoldable pub set_acl_txn_encodable : Encodable SetAclTxn
  unfolding set_acl_txn_serialize pure vec_encodable vec_serialize
  set_acl_txn_encodable = record {
    schema = (schema_of String) ⊗ (schema_of (List Acl)) ⊗ int;
    view = λ r. (view_of r.path, (view_of r.acl, r.version));
    serialize_lem =
        λ r buf. simp (serialize_into-bind, put_i32-bind, for_each-bind, append_assoc, length-map);
    size_lem = λ r.
        simp
          (
            length-append,
            length-to_be_bytes,
            string_encodable.size_lem,
            (vec_encodable {A = Acl}).size_lem,
          )
          (omega arith);
  }

  instance unfoldable pub set_acl_txn_conforms : Conforms SetAclTxn
  unfolding set_acl_txn_encodable set_acl_txn_deserialize
  set_acl_txn_conforms = record {
    unview = λ v. record { path = unview_of v.0; acl = unview_of v.1.0; version = v.1.1 };
    unview-view = λ r. simp (string_conforms.unview-view, (vec_conforms {A = Acl}).unview-view);
    view-unview = λ v. simp (string_conforms.view-unview, (vec_conforms {A = Acl}).view-unview);
    deserialize_lem = simp (
      string_conforms.deserialize_lem,
      (vec_conforms {A = Acl}).deserialize_lem,
      bind_assoc,
      pure-bind,
    );
  }

  instance unfoldable pub set_max_children_txn_encodable : Encodable SetMaxChildrenTxn
  unfolding set_max_children_txn_serialize pure
  set_max_children_txn_encodable = record {
    schema = (schema_of String) ⊗ int;
    view = λ r. (view_of r.path, r.max);
    serialize_lem = λ r buf. simp (serialize_into-bind, put_i32-bind, append_assoc);
    size_lem = λ r. simp (length-append, length-to_be_bytes, string_encodable.size_lem);
  }

  instance unfoldable pub set_max_children_txn_conforms : Conforms SetMaxChildrenTxn
  unfolding set_max_children_txn_encodable set_max_children_txn_deserialize
  set_max_children_txn_conforms = record {
    unview = λ v. record { path = unview_of v.0; max = v.1 };
    unview-view = λ r. simp string_conforms.unview-view;
    view-unview = λ v. simp string_conforms.view-unview;
    deserialize_lem = simp (string_conforms.deserialize_lem, bind_assoc, pure-bind);
  }

  instance unfoldable pub create_session_txn_encodable : Encodable CreateSessionTxn
  unfolding create_session_txn_serialize pure
  create_session_txn_encodable = record {
    schema = int;
    view = λ r. r.time_out;
    serialize_lem = λ r buf. simp put_i32-bind;
    size_lem = λ r. simp length-to_be_bytes;
  }

  instance unfoldable pub create_session_txn_conforms : Conforms CreateSessionTxn
  unfolding create_session_txn_encodable create_session_txn_deserialize
  create_session_txn_conforms = record {
    unview = λ v. record { time_out = v };
    unview-view = λ r. refl;
    view-unview = λ v. refl;
    deserialize_lem = refl;
  }

  instance unfoldable pub close_session_txn_encodable : Encodable CloseSessionTxn
  unfolding close_session_txn_serialize pure
  close_session_txn_encodable = record {
    schema = schema_of (List String);
    view = λ r. view_of r.paths2_delete;
    serialize_lem = λ r buf. simp serialize_into-bind;
    size_lem = λ r. simp ((vec_encodable {A = String}).size_lem);
  }

  instance unfoldable pub close_session_txn_conforms : Conforms CloseSessionTxn
  unfolding close_session_txn_encodable close_session_txn_deserialize
  close_session_txn_conforms = record {
    unview = λ v. record { paths2_delete = unview_of v };
    unview-view = λ r. simp ((vec_conforms {A = String}).unview-view);
    view-unview = λ v. simp ((vec_conforms {A = String}).view-unview);
    deserialize_lem = simp ((vec_conforms {A = String}).deserialize_lem, bind_assoc, pure-bind);
  }

  instance unfoldable pub error_txn_encodable : Encodable ErrorTxn
  unfolding error_txn_serialize pure
  error_txn_encodable = record {
    schema = int;
    view = λ r. r.err;
    serialize_lem = λ r buf. simp put_i32-bind;
    size_lem = λ r. simp length-to_be_bytes;
  }

  instance unfoldable pub error_txn_conforms : Conforms ErrorTxn
  unfolding error_txn_encodable error_txn_deserialize
  error_txn_conforms = record {
    unview = λ v. record { err = v };
    unview-view = λ r. refl;
    view-unview = λ v. refl;
    deserialize_lem = refl;
  }

  instance unfoldable pub txn_encodable : Encodable Txn
  unfolding txn_serialize pure
  txn_encodable = record {
    schema = int ⊗ (schema_of (List ℕ));
    view = λ r. (r.type, view_of r.data_bytes);
    serialize_lem = λ r buf. simp (put_i32-bind, serialize_into-bind, append_assoc);
    size_lem = λ r. simp (length-append, length-to_be_bytes, bytes_encodable.size_lem);
  }

  instance unfoldable pub txn_conforms : Conforms Txn
  unfolding txn_encodable txn_deserialize
  txn_conforms = record {
    unview = λ v. record { type = v.0; data_bytes = unview_of v.1 };
    unview-view = λ r. simp bytes_conforms.unview-view;
    view-unview = λ v. simp bytes_conforms.view-unview;
    deserialize_lem = simp (bytes_conforms.deserialize_lem, bind_assoc, pure-bind);
  }

  instance unfoldable pub multi_txn_encodable : Encodable MultiTxn
  unfolding multi_txn_serialize pure vec_encodable vec_serialize
  multi_txn_encodable = record {
    schema = schema_of (List Txn);
    view = λ r. view_of r.txns;
    serialize_lem = λ r buf. simp (put_i32-bind, for_each-bind, append_assoc, length-map);
    size_lem = λ r. simp ((vec_encodable {A = Txn}).size_lem);
  }

  instance unfoldable pub multi_txn_conforms : Conforms MultiTxn
  unfolding multi_txn_encodable multi_txn_deserialize
  multi_txn_conforms = record {
    unview = λ v. record { txns = unview_of v };
    unview-view = λ r. simp ((vec_conforms {A = Txn}).unview-view);
    view-unview = λ v. simp ((vec_conforms {A = Txn}).view-unview);
    deserialize_lem = simp ((vec_conforms {A = Txn}).deserialize_lem, bind_assoc, pure-bind);
  }

-- ===== src/Proto/Txns/Wire.antt =====
-- proto.rs: the schemas that the records of `Txns` are sent by.
use zksrv.Base.{ℕ, List, refl, append_assoc, arith, length-append, length-map, length-to_be_bytes}
use zksrv.Text.{String}
use zksrv.Bytes.{ByteOps}
use zksrv.Buf.{pure, bind_assoc, pure-bind}
use zksrv.Buf.Ops.Laws.{put_i32-bind, put_i64-bind, put_u8-bind}
use zksrv.Record.{
  bytes_deserialize, bytes_serialize, string_deserialize, string_serialize, vec_deserialize,
  vec_serialize,
}
use zksrv.Jute.{byte, int, long, ◌⊗◌}
use zksrv.Jute.Conform.{
  Encodable, Conforms, bytes_conforms, bytes_encodable, for_each-bind, schema_of,
  serialize_into-bind, string_conforms, string_encodable, unview_of, vec_conforms, vec_encodable,
  view_of,
}
use zksrv.Proto.Txns.{
  TxnDigest, txn_digest_serialize, txn_digest_deserialize, TxnHeader, txn_header_serialize,
  txn_header_deserialize, CreateTxnV0, create_txn_v0_serialize, create_txn_v0_deserialize,
  CreateTxn, create_txn_serialize, create_txn_deserialize, CreateTtlTxn, create_ttl_txn_serialize,
  create_ttl_txn_deserialize, CreateContainerTxn, create_container_txn_serialize,
  create_container_txn_deserialize, DeleteTxn, delete_txn_serialize, delete_txn_deserialize,
}
use zksrv.Proto.Ids.Wire.{acl_encodable, acl_conforms}
use zksrv.Proto.Ids.{acl_serialize, acl_deserialize, Acl}

module _ ⦃b : ByteOps⦄ where
  instance unfoldable pub txn_digest_encodable : Encodable TxnDigest
  unfolding txn_digest_serialize pure
  txn_digest_encodable = record {
    schema = int ⊗ long;
    view = λ r. (r.version, r.tree_digest);
    serialize_lem = λ r buf. simp (put_i32-bind, put_i64-bind, append_assoc);
    size_lem = λ r. simp (length-append, length-to_be_bytes);
  }

  instance unfoldable pub txn_digest_conforms : Conforms TxnDigest
  unfolding txn_digest_encodable txn_digest_deserialize
  txn_digest_conforms = record {
    unview = λ v. record { version = v.0; tree_digest = v.1 };
    unview-view = λ r. refl;
    view-unview = λ v. refl;
    deserialize_lem = simp (bind_assoc, pure-bind);
  }

  instance unfoldable pub txn_header_encodable : Encodable TxnHeader
  unfolding txn_header_serialize pure
  txn_header_encodable = record {
    schema = long ⊗ int ⊗ long ⊗ long ⊗ int;
    view = λ r. (r.client_id, (r.cxid, (r.zxid, (r.time, r.type))));
    serialize_lem = λ r buf. simp (put_i64-bind, put_i32-bind, append_assoc);
    size_lem = λ r. simp (length-append, length-to_be_bytes) (omega arith);
  }

  instance unfoldable pub txn_header_conforms : Conforms TxnHeader
  unfolding txn_header_encodable txn_header_deserialize
  txn_header_conforms = record {
    unview = λ v. record {
      client_id = v.0;
      cxid = v.1.0;
      zxid = v.1.1.0;
      time = v.1.1.1.0;
      type = v.1.1.1.1;
    };
    unview-view = λ r. refl;
    view-unview = λ v. refl;
    deserialize_lem = simp (bind_assoc, pure-bind);
  }

  instance unfoldable pub create_txn_v0_encodable : Encodable CreateTxnV0
  unfolding create_txn_v0_serialize pure vec_encodable vec_serialize
  create_txn_v0_encodable = record {
    schema = (schema_of String) ⊗ (schema_of (List ℕ)) ⊗ (schema_of (List Acl)) ⊗ byte;
    view = λ r. (view_of r.path, (view_of r.data_bytes, (view_of r.acl, r.ephemeral)));
    serialize_lem = λ r buf.
        simp
          (serialize_into-bind, put_i32-bind, for_each-bind, put_u8-bind, append_assoc, length-map);
    size_lem = λ r.
        simp
          (
            length-append,
            length-to_be_bytes,
            string_encodable.size_lem,
            bytes_encodable.size_lem,
            (vec_encodable {A = Acl}).size_lem,
          )
          (omega arith);
  }

  instance unfoldable pub create_txn_v0_conforms : Conforms CreateTxnV0
  unfolding create_txn_v0_encodable create_txn_v0_deserialize
  create_txn_v0_conforms = record {
    unview = λ v. record {
      path = unview_of v.0;
      data_bytes = unview_of v.1.0;
      acl = unview_of v.1.1.0;
      ephemeral = v.1.1.1;
    };
    unview-view = λ r. simp (
      string_conforms.unview-view,
      bytes_conforms.unview-view,
      (vec_conforms {A = Acl}).unview-view,
    );
    view-unview = λ v. simp (
      string_conforms.view-unview,
      bytes_conforms.view-unview,
      (vec_conforms {A = Acl}).view-unview,
    );
    deserialize_lem = simp (
      string_conforms.deserialize_lem,
      bytes_conforms.deserialize_lem,
      (vec_conforms {A = Acl}).deserialize_lem,
      bind_assoc,
      pure-bind,
    );
  }

  instance unfoldable pub create_txn_encodable : Encodable CreateTxn
  unfolding create_txn_serialize pure vec_encodable vec_serialize
  create_txn_encodable = record {
    schema = (schema_of String) ⊗ (schema_of (List ℕ)) ⊗ (schema_of (List Acl)) ⊗ byte ⊗ int;
    view = λ r. (
      view_of r.path,
      (view_of r.data_bytes, (view_of r.acl, (r.ephemeral, r.parent_c_version))),
    );
    serialize_lem = λ r buf.
        simp
          (serialize_into-bind, put_i32-bind, for_each-bind, put_u8-bind, append_assoc, length-map);
    size_lem = λ r.
        simp
          (
            length-append,
            length-to_be_bytes,
            string_encodable.size_lem,
            bytes_encodable.size_lem,
            (vec_encodable {A = Acl}).size_lem,
          )
          (omega arith);
  }

  instance unfoldable pub create_txn_conforms : Conforms CreateTxn
  unfolding create_txn_encodable create_txn_deserialize
  create_txn_conforms = record {
    unview = λ v. record {
      path = unview_of v.0;
      data_bytes = unview_of v.1.0;
      acl = unview_of v.1.1.0;
      ephemeral = v.1.1.1.0;
      parent_c_version = v.1.1.1.1;
    };
    unview-view = λ r. simp (
      string_conforms.unview-view,
      bytes_conforms.unview-view,
      (vec_conforms {A = Acl}).unview-view,
    );
    view-unview = λ v. simp (
      string_conforms.view-unview,
      bytes_conforms.view-unview,
      (vec_conforms {A = Acl}).view-unview,
    );
    deserialize_lem = simp (
      string_conforms.deserialize_lem,
      bytes_conforms.deserialize_lem,
      (vec_conforms {A = Acl}).deserialize_lem,
      bind_assoc,
      pure-bind,
    );
  }

  instance unfoldable pub create_ttl_txn_encodable : Encodable CreateTtlTxn
  unfolding create_ttl_txn_serialize pure vec_encodable vec_serialize
  create_ttl_txn_encodable = record {
    schema = (schema_of String) ⊗ (schema_of (List ℕ)) ⊗ (schema_of (List Acl)) ⊗ int ⊗ long;
    view =
        λ r. (view_of r.path, (view_of r.data_bytes, (view_of r.acl, (r.parent_c_version, r.ttl))));
    serialize_lem = λ r buf.
        simp (
          serialize_into-bind, put_i32-bind, for_each-bind, put_i64-bind, append_assoc, length-map,
        );
    size_lem = λ r.
        simp
          (
            length-append,
            length-to_be_bytes,
            string_encodable.size_lem,
            bytes_encodable.size_lem,
            (vec_encodable {A = Acl}).size_lem,
          )
          (omega arith);
  }

  instance unfoldable pub create_ttl_txn_conforms : Conforms CreateTtlTxn
  unfolding create_ttl_txn_encodable create_ttl_txn_deserialize
  create_ttl_txn_conforms = record {
    unview = λ v. record {
      path = unview_of v.0;
      data_bytes = unview_of v.1.0;
      acl = unview_of v.1.1.0;
      parent_c_version = v.1.1.1.0;
      ttl = v.1.1.1.1;
    };
    unview-view = λ r. simp (
      string_conforms.unview-view,
      bytes_conforms.unview-view,
      (vec_conforms {A = Acl}).unview-view,
    );
    view-unview = λ v. simp (
      string_conforms.view-unview,
      bytes_conforms.view-unview,
      (vec_conforms {A = Acl}).view-unview,
    );
    deserialize_lem = simp (
      string_conforms.deserialize_lem,
      bytes_conforms.deserialize_lem,
      (vec_conforms {A = Acl}).deserialize_lem,
      bind_assoc,
      pure-bind,
    );
  }

  instance unfoldable pub create_container_txn_encodable : Encodable CreateContainerTxn
  unfolding create_container_txn_serialize pure vec_encodable vec_serialize
  create_container_txn_encodable = record {
    schema = (schema_of String) ⊗ (schema_of (List ℕ)) ⊗ (schema_of (List Acl)) ⊗ int;
    view = λ r. (view_of r.path, (view_of r.data_bytes, (view_of r.acl, r.parent_c_version)));
    serialize_lem =
        λ r buf. simp (serialize_into-bind, put_i32-bind, for_each-bind, append_assoc, length-map);
    size_lem = λ r.
        simp
          (
            length-append,
            length-to_be_bytes,
            string_encodable.size_lem,
            bytes_encodable.size_lem,
            (vec_encodable {A = Acl}).size_lem,
          )
          (omega arith);
  }

  instance unfoldable pub create_container_txn_conforms : Conforms CreateContainerTxn
  unfolding create_container_txn_encodable create_container_txn_deserialize
  create_container_txn_conforms = record {
    unview = λ v. record {
      path = unview_of v.0;
      data_bytes = unview_of v.1.0;
      acl = unview_of v.1.1.0;
      parent_c_version = v.1.1.1;
    };
    unview-view = λ r. simp (
      string_conforms.unview-view,
      bytes_conforms.unview-view,
      (vec_conforms {A = Acl}).unview-view,
    );
    view-unview = λ v. simp (
      string_conforms.view-unview,
      bytes_conforms.view-unview,
      (vec_conforms {A = Acl}).view-unview,
    );
    deserialize_lem = simp (
      string_conforms.deserialize_lem,
      bytes_conforms.deserialize_lem,
      (vec_conforms {A = Acl}).deserialize_lem,
      bind_assoc,
      pure-bind,
    );
  }

  instance unfoldable pub delete_txn_encodable : Encodable DeleteTxn
  unfolding delete_txn_serialize pure
  delete_txn_encodable = record {
    schema = schema_of String;
    view = λ r. view_of r.path;
    serialize_lem = λ r buf. simp serialize_into-bind;
    size_lem = λ r. simp string_encodable.size_lem;
  }

  instance unfoldable pub delete_txn_conforms : Conforms DeleteTxn
  unfolding delete_txn_encodable delete_txn_deserialize
  delete_txn_conforms = record {
    unview = λ v. record { path = unview_of v };
    unview-view = λ r. simp string_conforms.unview-view;
    view-unview = λ v. simp string_conforms.view-unview;
    deserialize_lem = simp (string_conforms.deserialize_lem, bind_assoc, pure-bind);
  }

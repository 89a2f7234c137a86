-- ===== src/Proto/Watches/Wire.antt =====
-- proto.rs: the schemas that the records of `Watches` are sent by.
use zksrv.Base.{List, append_assoc, arith, length-append, length-to_be_bytes}
use zksrv.Text.{String}
use zksrv.Bytes.{ByteOps}
use zksrv.Buf.{pure, bind_assoc, pure-bind}
use zksrv.Buf.Ops.Laws.{put_i32-bind, put_i64-bind}
use zksrv.Record.{string_deserialize, string_serialize, vec_deserialize, vec_serialize}
use zksrv.Jute.{int, long, ◌⊗◌}
use zksrv.Jute.Conform.{
  Encodable, Conforms, schema_of, serialize_into-bind, string_conforms, string_encodable, unview_of,
  vec_conforms, vec_encodable, view_of,
}
use zksrv.Proto.Watches.{
  SetWatches, set_watches_serialize, set_watches_deserialize, SetWatches2, set_watches2_serialize,
  set_watches2_deserialize, AddWatchRequest, add_watch_request_serialize,
  add_watch_request_deserialize, WatcherEvent, watcher_event_serialize, watcher_event_deserialize,
  CheckWatchesRequest, check_watches_request_serialize, check_watches_request_deserialize,
  RemoveWatchesRequest, remove_watches_request_serialize, remove_watches_request_deserialize,
}

module _ ⦃b : ByteOps⦄ where
  instance unfoldable pub set_watches_encodable : Encodable SetWatches
  unfolding set_watches_serialize pure
  set_watches_encodable = record {
    schema =
        long ⊗ (schema_of (List String)) ⊗ (schema_of (List String)) ⊗ (schema_of (List String));
    view = λ r. (
      r.relative_zxid,
      (view_of r.data_watches, (view_of r.exist_watches, view_of r.child_watches)),
    );
    serialize_lem = λ r buf. simp (put_i64-bind, serialize_into-bind, append_assoc);
    size_lem = λ r.
        simp (length-append, length-to_be_bytes, (vec_encodable {A = String}).size_lem)
          (omega arith);
  }

  instance unfoldable pub set_watches_conforms : Conforms SetWatches
  unfolding set_watches_encodable set_watches_deserialize
  set_watches_conforms = record {
    unview = λ v. record {
      relative_zxid = v.0;
      data_watches = unview_of v.1.0;
      exist_watches = unview_of v.1.1.0;
      child_watches = unview_of v.1.1.1;
    };
    unview-view = λ r. simp ((vec_conforms {A = String}).unview-view);
    view-unview = λ v. simp ((vec_conforms {A = String}).view-unview);
    deserialize_lem = simp ((vec_conforms {A = String}).deserialize_lem, bind_assoc, pure-bind);
  }

  instance unfoldable pub set_watches2_encodable : Encodable SetWatches2
  unfolding set_watches2_serialize pure
  set_watches2_encodable = record {
    schema =
        long
        ⊗ (schema_of (List String))
        ⊗ (schema_of (List String))
        ⊗ (schema_of (List String))
        ⊗ (schema_of (List String))
        ⊗ (schema_of (List String));
    view = λ r. (
      r.relative_zxid,
      (
        view_of r.data_watches,
        (
          view_of r.exist_watches,
          (
            view_of r.child_watches,
            (view_of r.persistent_watches, view_of r.persistent_recursive_watches),
          ),
        ),
      ),
    );
    serialize_lem = λ r buf. simp (put_i64-bind, serialize_into-bind, append_assoc);
    size_lem = λ r.
        simp (length-append, length-to_be_bytes, (vec_encodable {A = String}).size_lem)
          (omega arith);
  }

  instance unfoldable pub set_watches2_conforms : Conforms SetWatches2
  unfolding set_watches2_encodable set_watches2_deserialize
  set_watches2_conforms = record {
    unview = λ v. record {
      relative_zxid = v.0;
      data_watches = unview_of v.1.0;
      exist_watches = unview_of v.1.1.0;
      child_watches = unview_of v.1.1.1.0;
      persistent_watches = unview_of v.1.1.1.1.0;
      persistent_recursive_watches = unview_of v.1.1.1.1.1;
    };
    unview-view = λ r. simp ((vec_conforms {A = String}).unview-view);
    view-unview = λ v. simp ((vec_conforms {A = String}).view-unview);
    deserialize_lem = simp ((vec_conforms {A = String}).deserialize_lem, bind_assoc, pure-bind);
  }

  instance unfoldable pub add_watch_request_encodable : Encodable AddWatchRequest
  unfolding add_watch_request_serialize pure
  add_watch_request_encodable = record {
    schema = (schema_of String) ⊗ int;
    view = λ r. (view_of r.path, r.mode);
    serialize_lem = λ r buf. simp (serialize_into-bind, put_i32-bind, append_assoc);
    size_lem = λ r. simp (length-append, length-to_be_bytes, string_encodable.size_lem);
  }

  instance unfoldable pub add_watch_request_conforms : Conforms AddWatchRequest
  unfolding add_watch_request_encodable add_watch_request_deserialize
  add_watch_request_conforms = record {
    unview = λ v. record { path = unview_of v.0; mode = v.1 };
    unview-view = λ r. simp string_conforms.unview-view;
    view-unview = λ v. simp string_conforms.view-unview;
    deserialize_lem = simp (string_conforms.deserialize_lem, bind_assoc, pure-bind);
  }

  instance unfoldable pub watcher_event_encodable : Encodable WatcherEvent
  unfolding watcher_event_serialize pure
  watcher_event_encodable = record {
    schema = int ⊗ int ⊗ (schema_of String);
    view = λ r. (r.type, (r.state, view_of r.path));
    serialize_lem = λ r buf. simp (put_i32-bind, serialize_into-bind, append_assoc);
    size_lem =
        λ r. simp (length-append, length-to_be_bytes, string_encodable.size_lem) (omega arith);
  }

  instance unfoldable pub watcher_event_conforms : Conforms WatcherEvent
  unfolding watcher_event_encodable watcher_event_deserialize
  watcher_event_conforms = record {
    unview = λ v. record { type = v.0; state = v.1.0; path = unview_of v.1.1 };
    unview-view = λ r. simp string_conforms.unview-view;
    view-unview = λ v. simp string_conforms.view-unview;
    deserialize_lem = simp (string_conforms.deserialize_lem, bind_assoc, pure-bind);
  }

  instance unfoldable pub check_watches_request_encodable : Encodable CheckWatchesRequest
  unfolding check_watches_request_serialize pure
  check_watches_request_encodable = record {
    schema = (schema_of String) ⊗ int;
    view = λ r. (view_of r.path, r.type);
    serialize_lem = λ r buf. simp (serialize_into-bind, put_i32-bind, append_assoc);
    size_lem = λ r. simp (length-append, length-to_be_bytes, string_encodable.size_lem);
  }

  instance unfoldable pub check_watches_request_conforms : Conforms CheckWatchesRequest
  unfolding check_watches_request_encodable check_watches_request_deserialize
  check_watches_request_conforms = record {
    unview = λ v. record { path = unview_of v.0; type = v.1 };
    unview-view = λ r. simp string_conforms.unview-view;
    view-unview = λ v. simp string_conforms.view-unview;
    deserialize_lem = simp (string_conforms.deserialize_lem, bind_assoc, pure-bind);
  }

  instance unfoldable pub remove_watches_request_encodable : Encodable RemoveWatchesRequest
  unfolding remove_watches_request_serialize pure
  remove_watches_request_encodable = record {
    schema = (schema_of String) ⊗ int;
    view = λ r. (view_of r.path, r.type);
    serialize_lem = λ r buf. simp (serialize_into-bind, put_i32-bind, append_assoc);
    size_lem = λ r. simp (length-append, length-to_be_bytes, string_encodable.size_lem);
  }

  instance unfoldable pub remove_watches_request_conforms : Conforms RemoveWatchesRequest
  unfolding remove_watches_request_encodable remove_watches_request_deserialize
  remove_watches_request_conforms = record {
    unview = λ v. record { path = unview_of v.0; type = v.1 };
    unview-view = λ r. simp string_conforms.unview-view;
    view-unview = λ v. simp string_conforms.view-unview;
    deserialize_lem = simp (string_conforms.deserialize_lem, bind_assoc, pure-bind);
  }

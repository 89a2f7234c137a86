-- ===== src/Proto/Watches.antt =====
-- proto.rs: watches and their events.
pub mod Wire
pub mod RoundTrip
use zksrv.Base.{ℕ, ◌+◌, List}
use zksrv.Text.{String}
use zksrv.Bytes.{ByteOps}
use zksrv.Buf.{pure, ◌>>=◌, ◌>>◌}
use zksrv.Buf.Ops.{get_i32, get_i64, put_i32, put_i64}
use zksrv.Record.{
  Deserialize, Serialize, deserialize, serialize_into, size, string_deserialize, string_serialize,
  vec_deserialize, vec_serialize,
}

pub record SetWatches : Type 0 where
  pub relative_zxid : ℕ
  pub data_watches : List String
  pub exist_watches : List String
  pub child_watches : List String

pub record SetWatches2 : Type 0 where
  pub relative_zxid : ℕ
  pub data_watches : List String
  pub exist_watches : List String
  pub child_watches : List String
  pub persistent_watches : List String
  pub persistent_recursive_watches : List String

pub record AddWatchRequest : Type 0 where
  pub path : String
  pub mode : ℕ

pub record WatcherEvent : Type 0 where
  pub type : ℕ
  pub state : ℕ
  pub path : String

pub record CheckWatchesRequest : Type 0 where
  pub path : String
  pub type : ℕ

pub record RemoveWatchesRequest : Type 0 where
  pub path : String
  pub type : ℕ

module _ ⦃b : ByteOps⦄ where
  instance unfoldable pub set_watches_serialize : Serialize SetWatches
  set_watches_serialize = record {
    serialize_into = λ r. do
      put_i64 r.relative_zxid
      serialize_into r.data_watches
      serialize_into r.exist_watches
      serialize_into r.child_watches
      pure tt;
    size = λ r. 8 + size r.data_watches + size r.exist_watches + size r.child_watches;
  }

  instance unfoldable pub set_watches_deserialize : Deserialize SetWatches
  set_watches_deserialize = record {
    deserialize = do
      relative_zxid ← get_i64
      data_watches ← deserialize
      exist_watches ← deserialize
      child_watches ← deserialize
      pure (record {
        relative_zxid = relative_zxid;
        data_watches = data_watches;
        exist_watches = exist_watches;
        child_watches = child_watches;
      });
  }

  instance unfoldable pub set_watches2_serialize : Serialize SetWatches2
  set_watches2_serialize = record {
    serialize_into = λ r. do
      put_i64 r.relative_zxid
      serialize_into r.data_watches
      serialize_into r.exist_watches
      serialize_into r.child_watches
      serialize_into r.persistent_watches
      serialize_into r.persistent_recursive_watches
      pure tt;
    size = λ r.
        8
        + size r.data_watches
        + size r.exist_watches
        + size r.child_watches
        + size r.persistent_watches
        + size r.persistent_recursive_watches;
  }

  instance unfoldable pub set_watches2_deserialize : Deserialize SetWatches2
  set_watches2_deserialize = record {
    deserialize = do
      relative_zxid ← get_i64
      data_watches ← deserialize
      exist_watches ← deserialize
      child_watches ← deserialize
      persistent_watches ← deserialize
      persistent_recursive_watches ← deserialize
      pure (record {
        relative_zxid = relative_zxid;
        data_watches = data_watches;
        exist_watches = exist_watches;
        child_watches = child_watches;
        persistent_watches = persistent_watches;
        persistent_recursive_watches = persistent_recursive_watches;
      });
  }

  instance unfoldable pub add_watch_request_serialize : Serialize AddWatchRequest
  add_watch_request_serialize = record {
    serialize_into = λ r. do
      serialize_into r.path
      put_i32 r.mode
      pure tt;
    size = λ r. size r.path + 4;
  }

  instance unfoldable pub add_watch_request_deserialize : Deserialize AddWatchRequest
  add_watch_request_deserialize = record {
    deserialize = do
      path ← deserialize
      mode ← get_i32
      pure (record { path = path; mode = mode });
  }

  instance unfoldable pub watcher_event_serialize : Serialize WatcherEvent
  watcher_event_serialize = record {
    serialize_into = λ r. do
      put_i32 r.type
      put_i32 r.state
      serialize_into r.path
      pure tt;
    size = λ r. 4 + 4 + size r.path;
  }

  instance unfoldable pub watcher_event_deserialize : Deserialize WatcherEvent
  watcher_event_deserialize = record {
    deserialize = do
      type ← get_i32
      state ← get_i32
      path ← deserialize
      pure (record { type = type; state = state; path = path });
  }

  instance unfoldable pub check_watches_request_serialize : Serialize CheckWatchesRequest
  check_watches_request_serialize = record {
    serialize_into = λ r. do
      serialize_into r.path
      put_i32 r.type
      pure tt;
    size = λ r. size r.path + 4;
  }

  instance unfoldable pub check_watches_request_deserialize : Deserialize CheckWatchesRequest
  check_watches_request_deserialize = record {
    deserialize = do
      path ← deserialize
      type ← get_i32
      pure (record { path = path; type = type });
  }

  instance unfoldable pub remove_watches_request_serialize : Serialize RemoveWatchesRequest
  remove_watches_request_serialize = record {
    serialize_into = λ r. do
      serialize_into r.path
      put_i32 r.type
      pure tt;
    size = λ r. size r.path + 4;
  }

  instance unfoldable pub remove_watches_request_deserialize : Deserialize RemoveWatchesRequest
  remove_watches_request_deserialize = record {
    deserialize = do
      path ← deserialize
      type ← get_i32
      pure (record { path = path; type = type });
  }

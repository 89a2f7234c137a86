-- ===== src/Proto/Updates.antt =====
-- proto.rs: the other transactions.
pub mod Wire
pub mod RoundTrip
use zksrv.Base.{ℕ, ◌+◌, List, as_i32, length}
use zksrv.Text.{String}
use zksrv.Bytes.{ByteOps}
use zksrv.Buf.{pure, ◌>>=◌, ◌>>◌}
use zksrv.Buf.Ops.{get_i32, put_i32}
use zksrv.Record.{
  Deserialize, Serialize, bytes_deserialize, bytes_serialize, deserialize, for_each, serialize_into,
  size, string_deserialize, string_serialize, vec_deserialize, vec_serialize,
}
use zksrv.Proto.Ids.{Acl, acl_serialize, acl_deserialize}

pub record SetDataTxn : Type 0 where
  pub path : String
  pub data_bytes : List ℕ
  pub version : ℕ

pub record CheckVersionTxn : Type 0 where
  pub path : String
  pub version : ℕ

pub record SetAclTxn : Type 0 where
  pub path : String
  pub acl : List Acl
  pub version : ℕ

pub record SetMaxChildrenTxn : Type 0 where
  pub path : String
  pub max : ℕ

pub record CreateSessionTxn : Type 0 where
  pub time_out : ℕ

pub record CloseSessionTxn : Type 0 where
  pub paths2_delete : List String

pub record ErrorTxn : Type 0 where
  pub err : ℕ

pub record Txn : Type 0 where
  pub type : ℕ
  pub data_bytes : List ℕ

pub record MultiTxn : Type 0 where
  pub txns : List Txn

module _ ⦃b : ByteOps⦄ where
  instance unfoldable pub set_data_txn_serialize : Serialize SetDataTxn
  set_data_txn_serialize = record {
    serialize_into = λ r. do
      serialize_into r.path
      serialize_into r.data_bytes
      put_i32 r.version
      pure tt;
    size = λ r. size r.path + size r.data_bytes + 4;
  }

  instance unfoldable pub set_data_txn_deserialize : Deserialize SetDataTxn
  set_data_txn_deserialize = record {
    deserialize = do
      path ← deserialize
      data_bytes ← deserialize
      version ← get_i32
      pure (record { path = path; data_bytes = data_bytes; version = version });
  }

  instance unfoldable pub check_version_txn_serialize : Serialize CheckVersionTxn
  check_version_txn_serialize = record {
    serialize_into = λ r. do
      serialize_into r.path
      put_i32 r.version
      pure tt;
    size = λ r. size r.path + 4;
  }

  instance unfoldable pub check_version_txn_deserialize : Deserialize CheckVersionTxn
  check_version_txn_deserialize = record {
    deserialize = do
      path ← deserialize
      version ← get_i32
      pure (record { path = path; version = version });
  }

  instance unfoldable pub set_acl_txn_serialize : Serialize SetAclTxn
  set_acl_txn_serialize = record {
    serialize_into = λ r. do
      serialize_into r.path
      put_i32 (as_i32 (length r.acl))
      for_each serialize_into r.acl
      put_i32 r.version
      pure tt;
    size = λ r. size r.path + size r.acl + 4;
  }

  instance unfoldable pub set_acl_txn_deserialize : Deserialize SetAclTxn
  set_acl_txn_deserialize = record {
    deserialize = do
      path ← deserialize
      acl ← deserialize
      version ← get_i32
      pure (record { path = path; acl = acl; version = version });
  }

  instance unfoldable pub set_max_children_txn_serialize : Serialize SetMaxChildrenTxn
  set_max_children_txn_serialize = record {
    serialize_into = λ r. do
      serialize_into r.path
      put_i32 r.max
      pure tt;
    size = λ r. size r.path + 4;
  }

  instance unfoldable pub set_max_children_txn_deserialize : Deserialize SetMaxChildrenTxn
  set_max_children_txn_deserialize = record {
    deserialize = do
      path ← deserialize
      max ← get_i32
      pure (record { path = path; max = max });
  }

  instance unfoldable pub create_session_txn_serialize : Serialize CreateSessionTxn
  create_session_txn_serialize = record {
    serialize_into = λ r. do
      put_i32 r.time_out
      pure tt;
    size = λ r. 4;
  }

  instance unfoldable pub create_session_txn_deserialize : Deserialize CreateSessionTxn
  create_session_txn_deserialize = record {
    deserialize = do
      time_out ← get_i32
      pure (record { time_out = time_out });
  }

  instance unfoldable pub close_session_txn_serialize : Serialize CloseSessionTxn
  close_session_txn_serialize = record {
    serialize_into = λ r. do
      serialize_into r.paths2_delete
      pure tt;
    size = λ r. size r.paths2_delete;
  }

  instance unfoldable pub close_session_txn_deserialize : Deserialize CloseSessionTxn
  close_session_txn_deserialize = record {
    deserialize = do
      paths2_delete ← deserialize
      pure (record { paths2_delete = paths2_delete });
  }

  instance unfoldable pub error_txn_serialize : Serialize ErrorTxn
  error_txn_serialize = record {
    serialize_into = λ r. do
      put_i32 r.err
      pure tt;
    size = λ r. 4;
  }

  instance unfoldable pub error_txn_deserialize : Deserialize ErrorTxn
  error_txn_deserialize = record {
    deserialize = do
      err ← get_i32
      pure (record { err = err });
  }

  instance unfoldable pub txn_serialize : Serialize Txn
  txn_serialize = record {
    serialize_into = λ r. do
      put_i32 r.type
      serialize_into r.data_bytes
      pure tt;
    size = λ r. 4 + size r.data_bytes;
  }

  instance unfoldable pub txn_deserialize : Deserialize Txn
  txn_deserialize = record {
    deserialize = do
      type ← get_i32
      data_bytes ← deserialize
      pure (record { type = type; data_bytes = data_bytes });
  }

  instance unfoldable pub multi_txn_serialize : Serialize MultiTxn
  multi_txn_serialize = record {
    serialize_into = λ r. do
      put_i32 (as_i32 (length r.txns))
      for_each serialize_into r.txns
      pure tt;
    size = λ r. size r.txns;
  }

  instance unfoldable pub multi_txn_deserialize : Deserialize MultiTxn
  multi_txn_deserialize = record {
    deserialize = do
      txns ← deserialize
      pure (record { txns = txns });
  }

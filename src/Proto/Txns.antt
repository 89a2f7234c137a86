-- ===== src/Proto/Txns.antt =====
-- proto.rs: transactions that create or delete.
pub mod Wire
pub mod RoundTrip
use zksrv.Base.{ℕ, ◌+◌, as_i32, length, List}
use zksrv.Text.{String}
use zksrv.Bytes.{ByteOps}
use zksrv.Buf.{pure, ◌>>=◌, ◌>>◌}
use zksrv.Buf.Ops.{get_i32, get_i64, get_u8, put_i32, put_i64, put_u8}
use zksrv.Record.{
  Deserialize, Serialize, bytes_deserialize, bytes_serialize, deserialize, for_each, serialize_into,
  size, string_deserialize, string_serialize, vec_deserialize, vec_serialize,
}
use zksrv.Proto.Ids.{Acl, acl_serialize, acl_deserialize}

pub record TxnDigest : Type 0 where
  pub version : ℕ
  pub tree_digest : ℕ

pub record TxnHeader : Type 0 where
  pub client_id : ℕ
  pub cxid : ℕ
  pub zxid : ℕ
  pub time : ℕ
  pub type : ℕ

pub record CreateTxnV0 : Type 0 where
  pub path : String
  pub data_bytes : List ℕ
  pub acl : List Acl
  pub ephemeral : ℕ

pub record CreateTxn : Type 0 where
  pub path : String
  pub data_bytes : List ℕ
  pub acl : List Acl
  pub ephemeral : ℕ
  pub parent_c_version : ℕ

pub record CreateTtlTxn : Type 0 where
  pub path : String
  pub data_bytes : List ℕ
  pub acl : List Acl
  pub parent_c_version : ℕ
  pub ttl : ℕ

pub record CreateContainerTxn : Type 0 where
  pub path : String
  pub data_bytes : List ℕ
  pub acl : List Acl
  pub parent_c_version : ℕ

pub record DeleteTxn : Type 0 where
  pub path : String

module _ ⦃b : ByteOps⦄ where
  instance unfoldable pub txn_digest_serialize : Serialize TxnDigest
  txn_digest_serialize = record {
    serialize_into = λ r. do
      put_i32 r.version
      put_i64 r.tree_digest
      pure tt;
    size = λ r. 4 + 8;
  }

  instance unfoldable pub txn_digest_deserialize : Deserialize TxnDigest
  txn_digest_deserialize = record {
    deserialize = do
      version ← get_i32
      tree_digest ← get_i64
      pure (record { version = version; tree_digest = tree_digest });
  }

  instance unfoldable pub txn_header_serialize : Serialize TxnHeader
  txn_header_serialize = record {
    serialize_into = λ r. do
      put_i64 r.client_id
      put_i32 r.cxid
      put_i64 r.zxid
      put_i64 r.time
      put_i32 r.type
      pure tt;
    size = λ r. 8 + 4 + 8 + 8 + 4;
  }

  instance unfoldable pub txn_header_deserialize : Deserialize TxnHeader
  txn_header_deserialize = record {
    deserialize = do
      client_id ← get_i64
      cxid ← get_i32
      zxid ← get_i64
      time ← get_i64
      type ← get_i32
      pure (record { client_id = client_id; cxid = cxid; zxid = zxid; time = time; type = type });
  }

  instance unfoldable pub create_txn_v0_serialize : Serialize CreateTxnV0
  create_txn_v0_serialize = record {
    serialize_into = λ r. do
      serialize_into r.path
      serialize_into r.data_bytes
      put_i32 (as_i32 (length r.acl))
      for_each serialize_into r.acl
      put_u8 r.ephemeral
      pure tt;
    size = λ r. size r.path + size r.data_bytes + size r.acl + 1;
  }

  instance unfoldable pub create_txn_v0_deserialize : Deserialize CreateTxnV0
  create_txn_v0_deserialize = record {
    deserialize = do
      path ← deserialize
      data_bytes ← deserialize
      acl ← deserialize
      ephemeral ← get_u8
      pure (record { path = path; data_bytes = data_bytes; acl = acl; ephemeral = ephemeral });
  }

  instance unfoldable pub create_txn_serialize : Serialize CreateTxn
  create_txn_serialize = record {
    serialize_into = λ r. do
      serialize_into r.path
      serialize_into r.data_bytes
      put_i32 (as_i32 (length r.acl))
      for_each serialize_into r.acl
      put_u8 r.ephemeral
      put_i32 r.parent_c_version
      pure tt;
    size = λ r. size r.path + size r.data_bytes + size r.acl + 1 + 4;
  }

  instance unfoldable pub create_txn_deserialize : Deserialize CreateTxn
  create_txn_deserialize = record {
    deserialize = do
      path ← deserialize
      data_bytes ← deserialize
      acl ← deserialize
      ephemeral ← get_u8
      parent_c_version ← get_i32
      pure (record {
        path = path;
        data_bytes = data_bytes;
        acl = acl;
        ephemeral = ephemeral;
        parent_c_version = parent_c_version;
      });
  }

  instance unfoldable pub create_ttl_txn_serialize : Serialize CreateTtlTxn
  create_ttl_txn_serialize = record {
    serialize_into = λ r. do
      serialize_into r.path
      serialize_into r.data_bytes
      put_i32 (as_i32 (length r.acl))
      for_each serialize_into r.acl
      put_i32 r.parent_c_version
      put_i64 r.ttl
      pure tt;
    size = λ r. size r.path + size r.data_bytes + size r.acl + 4 + 8;
  }

  instance unfoldable pub create_ttl_txn_deserialize : Deserialize CreateTtlTxn
  create_ttl_txn_deserialize = record {
    deserialize = do
      path ← deserialize
      data_bytes ← deserialize
      acl ← deserialize
      parent_c_version ← get_i32
      ttl ← get_i64
      pure (record {
        path = path;
        data_bytes = data_bytes;
        acl = acl;
        parent_c_version = parent_c_version;
        ttl = ttl;
      });
  }

  instance unfoldable pub create_container_txn_serialize : Serialize CreateContainerTxn
  create_container_txn_serialize = record {
    serialize_into = λ r. do
      serialize_into r.path
      serialize_into r.data_bytes
      put_i32 (as_i32 (length r.acl))
      for_each serialize_into r.acl
      put_i32 r.parent_c_version
      pure tt;
    size = λ r. size r.path + size r.data_bytes + size r.acl + 4;
  }

  instance unfoldable pub create_container_txn_deserialize : Deserialize CreateContainerTxn
  create_container_txn_deserialize = record {
    deserialize = do
      path ← deserialize
      data_bytes ← deserialize
      acl ← deserialize
      parent_c_version ← get_i32
      pure (record {
        path = path;
        data_bytes = data_bytes;
        acl = acl;
        parent_c_version = parent_c_version;
      });
  }

  instance unfoldable pub delete_txn_serialize : Serialize DeleteTxn
  delete_txn_serialize = record {
    serialize_into = λ r. do
      serialize_into r.path
      pure tt;
    size = λ r. size r.path;
  }

  instance unfoldable pub delete_txn_deserialize : Deserialize DeleteTxn
  delete_txn_deserialize = record {
    deserialize = do
      path ← deserialize
      pure (record { path = path });
  }

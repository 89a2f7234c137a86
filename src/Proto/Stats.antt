-- ===== src/Proto/Stats.antt =====
-- proto.rs: the metadata of a node.
pub mod Wire
pub mod RoundTrip
use zksrv.Base.{ℕ, ◌+◌}
use zksrv.Bytes.{ByteOps}
use zksrv.Buf.{pure, ◌>>=◌, ◌>>◌}
use zksrv.Buf.Ops.{get_i32, get_i64, put_i32, put_i64}
use zksrv.Record.{Deserialize, Serialize}

pub record Stat : Type 0 where
  pub czxid : ℕ
  pub mzxid : ℕ
  pub ctime : ℕ
  pub mtime : ℕ
  pub version : ℕ
  pub cversion : ℕ
  pub aversion : ℕ
  pub ephemeral_owner : ℕ
  pub data_length : ℕ
  pub num_children : ℕ
  pub pzxid : ℕ

pub record StatPersisted : Type 0 where
  pub czxid : ℕ
  pub mzxid : ℕ
  pub ctime : ℕ
  pub mtime : ℕ
  pub version : ℕ
  pub cversion : ℕ
  pub aversion : ℕ
  pub ephemeral_owner : ℕ
  pub pzxid : ℕ

module _ ⦃b : ByteOps⦄ where
  instance unfoldable pub stat_serialize : Serialize Stat
  stat_serialize = record {
    serialize_into = λ r. do
      put_i64 r.czxid
      put_i64 r.mzxid
      put_i64 r.ctime
      put_i64 r.mtime
      put_i32 r.version
      put_i32 r.cversion
      put_i32 r.aversion
      put_i64 r.ephemeral_owner
      put_i32 r.data_length
      put_i32 r.num_children
      put_i64 r.pzxid
      pure tt;
    size = λ r. 8 + 8 + 8 + 8 + 4 + 4 + 4 + 8 + 4 + 4 + 8;
  }

  instance unfoldable pub stat_deserialize : Deserialize Stat
  stat_deserialize = record {
    deserialize = do
      czxid ← get_i64
      mzxid ← get_i64
      ctime ← get_i64
      mtime ← get_i64
      version ← get_i32
      cversion ← get_i32
      aversion ← get_i32
      ephemeral_owner ← get_i64
      data_length ← get_i32
      num_children ← get_i32
      pzxid ← get_i64
      pure (record {
        czxid = czxid;
        mzxid = mzxid;
        ctime = ctime;
        mtime = mtime;
        version = version;
        cversion = cversion;
        aversion = aversion;
        ephemeral_owner = ephemeral_owner;
        data_length = data_length;
        num_children = num_children;
        pzxid = pzxid;
      });
  }

  instance unfoldable pub stat_persisted_serialize : Serialize StatPersisted
  stat_persisted_serialize = record {
    serialize_into = λ r. do
      put_i64 r.czxid
      put_i64 r.mzxid
      put_i64 r.ctime
      put_i64 r.mtime
      put_i32 r.version
      put_i32 r.cversion
      put_i32 r.aversion
      put_i64 r.ephemeral_owner
      put_i64 r.pzxid
      pure tt;
    size = λ r. 8 + 8 + 8 + 8 + 4 + 4 + 4 + 8 + 8;
  }

  instance unfoldable pub stat_persisted_deserialize : Deserialize StatPersisted
  stat_persisted_deserialize = record {
    deserialize = do
      czxid ← get_i64
      mzxid ← get_i64
      ctime ← get_i64
      mtime ← get_i64
      version ← get_i32
      cversion ← get_i32
      aversion ← get_i32
      ephemeral_owner ← get_i64
      pzxid ← get_i64
      pure (record {
        czxid = czxid;
        mzxid = mzxid;
        ctime = ctime;
        mtime = mtime;
        version = version;
        cversion = cversion;
        aversion = aversion;
        ephemeral_owner = ephemeral_owner;
        pzxid = pzxid;
      });
  }

-- ===== src/Proto/Stats/Wire.antt =====
-- proto.rs: the schemas that the records of `Stats` are sent by.
use zksrv.Base.{refl, append_assoc, arith, length-append, length-to_be_bytes}
use zksrv.Bytes.{ByteOps}
use zksrv.Buf.{pure, bind_assoc, pure-bind}
use zksrv.Buf.Ops.Laws.{put_i32-bind, put_i64-bind}
use zksrv.Jute.{int, long, ◌⊗◌}
use zksrv.Jute.Conform.{Encodable, Conforms}
use zksrv.Proto.Stats.{
  Stat, stat_serialize, stat_deserialize, StatPersisted, stat_persisted_serialize,
  stat_persisted_deserialize,
}

module _ ⦃b : ByteOps⦄ where
  instance unfoldable pub stat_encodable : Encodable Stat
  unfolding stat_serialize pure
  stat_encodable = record {
    schema = long ⊗ long ⊗ long ⊗ long ⊗ int ⊗ int ⊗ int ⊗ long ⊗ int ⊗ int ⊗ long;
    view = λ r. (
      r.czxid,
      (
        r.mzxid,
        (
          r.ctime,
          (
            r.mtime,
            (
              r.version,
              (
                r.cversion,
                (r.aversion, (r.ephemeral_owner, (r.data_length, (r.num_children, r.pzxid)))),
              ),
            ),
          ),
        ),
      ),
    );
    serialize_lem = λ r buf. simp (put_i64-bind, put_i32-bind, append_assoc);
    size_lem = λ r. simp (length-append, length-to_be_bytes) (omega arith);
  }

  instance unfoldable pub stat_conforms : Conforms Stat
  unfolding stat_encodable stat_deserialize
  stat_conforms = record {
    unview = λ v. record {
      czxid = v.0;
      mzxid = v.1.0;
      ctime = v.1.1.0;
      mtime = v.1.1.1.0;
      version = v.1.1.1.1.0;
      cversion = v.1.1.1.1.1.0;
      aversion = v.1.1.1.1.1.1.0;
      ephemeral_owner = v.1.1.1.1.1.1.1.0;
      data_length = v.1.1.1.1.1.1.1.1.0;
      num_children = v.1.1.1.1.1.1.1.1.1.0;
      pzxid = v.1.1.1.1.1.1.1.1.1.1;
    };
    unview-view = λ r. refl;
    view-unview = λ v. refl;
    deserialize_lem = simp (bind_assoc, pure-bind);
  }

  instance unfoldable pub stat_persisted_encodable : Encodable StatPersisted
  unfolding stat_persisted_serialize pure
  stat_persisted_encodable = record {
    schema = long ⊗ long ⊗ long ⊗ long ⊗ int ⊗ int ⊗ int ⊗ long ⊗ long;
    view = λ r. (
      r.czxid,
      (
        r.mzxid,
        (r.ctime, (r.mtime, (r.version, (r.cversion, (r.aversion, (r.ephemeral_owner, r.pzxid)))))),
      ),
    );
    serialize_lem = λ r buf. simp (put_i64-bind, put_i32-bind, append_assoc);
    size_lem = λ r. simp (length-append, length-to_be_bytes) (omega arith);
  }

  instance unfoldable pub stat_persisted_conforms : Conforms StatPersisted
  unfolding stat_persisted_encodable stat_persisted_deserialize
  stat_persisted_conforms = record {
    unview = λ v. record {
      czxid = v.0;
      mzxid = v.1.0;
      ctime = v.1.1.0;
      mtime = v.1.1.1.0;
      version = v.1.1.1.1.0;
      cversion = v.1.1.1.1.1.0;
      aversion = v.1.1.1.1.1.1.0;
      ephemeral_owner = v.1.1.1.1.1.1.1.0;
      pzxid = v.1.1.1.1.1.1.1.1;
    };
    unview-view = λ r. refl;
    view-unview = λ v. refl;
    deserialize_lem = simp (bind_assoc, pure-bind);
  }

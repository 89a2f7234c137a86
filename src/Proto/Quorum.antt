-- ===== src/Proto/Quorum.antt =====
-- proto.rs: packets between servers.
pub mod Wire
pub mod RoundTrip
use zksrv.Base.{ℕ, ◌+◌, as_i32, length, List}
use zksrv.Bytes.{ByteOps}
use zksrv.Buf.{pure, ◌>>=◌, ◌>>◌}
use zksrv.Buf.Ops.{get_i32, get_i64, put_i32, put_i64}
use zksrv.Record.{
  Deserialize, Serialize, bytes_deserialize, bytes_serialize, deserialize, for_each, serialize_into,
  size, vec_deserialize, vec_serialize,
}
use zksrv.Proto.Ids.{AuthId, auth_id_serialize, auth_id_deserialize}

pub record LearnerInfo : Type 0 where
  pub serverid : ℕ
  pub protocol_version : ℕ
  pub config_version : ℕ

pub record QuorumPacket : Type 0 where
  pub type : ℕ
  pub zxid : ℕ
  pub data_bytes : List ℕ
  pub authinfo : List AuthId

pub record QuorumAuthPacket : Type 0 where
  pub magic : ℕ
  pub status : ℕ
  pub token : List ℕ

pub record FileHeader : Type 0 where
  pub magic : ℕ
  pub version : ℕ
  pub dbid : ℕ

module _ ⦃b : ByteOps⦄ where
  instance unfoldable pub learner_info_serialize : Serialize LearnerInfo
  learner_info_serialize = record {
    serialize_into = λ r. do
      put_i64 r.serverid
      put_i32 r.protocol_version
      put_i64 r.config_version
      pure tt;
    size = λ r. 8 + 4 + 8;
  }

  instance unfoldable pub learner_info_deserialize : Deserialize LearnerInfo
  learner_info_deserialize = record {
    deserialize = do
      serverid ← get_i64
      protocol_version ← get_i32
      config_version ← get_i64
      pure (record {
        serverid = serverid;
        protocol_version = protocol_version;
        config_version = config_version;
      });
  }

  instance unfoldable pub quorum_packet_serialize : Serialize QuorumPacket
  quorum_packet_serialize = record {
    serialize_into = λ r. do
      put_i32 r.type
      put_i64 r.zxid
      serialize_into r.data_bytes
      put_i32 (as_i32 (length r.authinfo))
      for_each serialize_into r.authinfo
      pure tt;
    size = λ r. 4 + 8 + size r.data_bytes + size r.authinfo;
  }

  instance unfoldable pub quorum_packet_deserialize : Deserialize QuorumPacket
  quorum_packet_deserialize = record {
    deserialize = do
      type ← get_i32
      zxid ← get_i64
      data_bytes ← deserialize
      authinfo ← deserialize
      pure (record { type = type; zxid = zxid; data_bytes = data_bytes; authinfo = authinfo });
  }

  instance unfoldable pub quorum_auth_packet_serialize : Serialize QuorumAuthPacket
  quorum_auth_packet_serialize = record {
    serialize_into = λ r. do
      put_i64 r.magic
      put_i32 r.status
      serialize_into r.token
      pure tt;
    size = λ r. 8 + 4 + size r.token;
  }

  instance unfoldable pub quorum_auth_packet_deserialize : Deserialize QuorumAuthPacket
  quorum_auth_packet_deserialize = record {
    deserialize = do
      magic ← get_i64
      status ← get_i32
      token ← deserialize
      pure (record { magic = magic; status = status; token = token });
  }

  instance unfoldable pub file_header_serialize : Serialize FileHeader
  file_header_serialize = record {
    serialize_into = λ r. do
      put_i32 r.magic
      put_i32 r.version
      put_i64 r.dbid
      pure tt;
    size = λ r. 4 + 4 + 8;
  }

  instance unfoldable pub file_header_deserialize : Deserialize FileHeader
  file_header_deserialize = record {
    deserialize = do
      magic ← get_i32
      version ← get_i32
      dbid ← get_i64
      pure (record { magic = magic; version = version; dbid = dbid });
  }

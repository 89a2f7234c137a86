-- ===== src/Proto/Quorum/Wire.antt =====
-- proto.rs: the schemas that the records of `Quorum` are sent by.
use zksrv.Base.{ℕ, List, refl, append_assoc, arith, length-append, length-map, length-to_be_bytes}
use zksrv.Bytes.{ByteOps}
use zksrv.Buf.{pure, bind_assoc, pure-bind}
use zksrv.Buf.Ops.Laws.{put_i32-bind, put_i64-bind}
use zksrv.Record.{bytes_deserialize, bytes_serialize, vec_deserialize, vec_serialize}
use zksrv.Jute.{int, long, ◌⊗◌}
use zksrv.Jute.Conform.{
  Encodable, Conforms, bytes_conforms, bytes_encodable, for_each-bind, schema_of,
  serialize_into-bind, unview_of, vec_conforms, vec_encodable, view_of,
}
use zksrv.Proto.Quorum.{
  LearnerInfo, learner_info_serialize, learner_info_deserialize, QuorumPacket,
  quorum_packet_serialize, quorum_packet_deserialize, QuorumAuthPacket,
  quorum_auth_packet_serialize, quorum_auth_packet_deserialize, FileHeader, file_header_serialize,
  file_header_deserialize,
}
use zksrv.Proto.Ids.Wire.{auth_id_encodable, auth_id_conforms}
use zksrv.Proto.Ids.{auth_id_serialize, auth_id_deserialize, AuthId}

module _ ⦃b : ByteOps⦄ where
  instance unfoldable pub learner_info_encodable : Encodable LearnerInfo
  unfolding learner_info_serialize pure
  learner_info_encodable = record {
    schema = long ⊗ int ⊗ long;
    view = λ r. (r.serverid, (r.protocol_version, r.config_version));
    serialize_lem = λ r buf. simp (put_i64-bind, put_i32-bind, append_assoc);
    size_lem = λ r. simp (length-append, length-to_be_bytes) (omega arith);
  }

  instance unfoldable pub learner_info_conforms : Conforms LearnerInfo
  unfolding learner_info_encodable learner_info_deserialize
  learner_info_conforms = record {
    unview = λ v. record { serverid = v.0; protocol_version = v.1.0; config_version = v.1.1 };
    unview-view = λ r. refl;
    view-unview = λ v. refl;
    deserialize_lem = simp (bind_assoc, pure-bind);
  }

  instance unfoldable pub quorum_packet_encodable : Encodable QuorumPacket
  unfolding quorum_packet_serialize pure vec_encodable vec_serialize
  quorum_packet_encodable = record {
    schema = int ⊗ long ⊗ (schema_of (List ℕ)) ⊗ (schema_of (List AuthId));
    view = λ r. (r.type, (r.zxid, (view_of r.data_bytes, view_of r.authinfo)));
    serialize_lem = λ r buf.
        simp (
          put_i32-bind, put_i64-bind, serialize_into-bind, for_each-bind, append_assoc, length-map,
        );
    size_lem = λ r.
        simp
          (
            length-append,
            length-to_be_bytes,
            bytes_encodable.size_lem,
            (vec_encodable {A = AuthId}).size_lem,
          )
          (omega arith);
  }

  instance unfoldable pub quorum_packet_conforms : Conforms QuorumPacket
  unfolding quorum_packet_encodable quorum_packet_deserialize
  quorum_packet_conforms = record {
    unview = λ v. record {
      type = v.0;
      zxid = v.1.0;
      data_bytes = unview_of v.1.1.0;
      authinfo = unview_of v.1.1.1;
    };
    unview-view = λ r. simp (bytes_conforms.unview-view, (vec_conforms {A = AuthId}).unview-view);
    view-unview = λ v. simp (bytes_conforms.view-unview, (vec_conforms {A = AuthId}).view-unview);
    deserialize_lem = simp (
      bytes_conforms.deserialize_lem,
      (vec_conforms {A = AuthId}).deserialize_lem,
      bind_assoc,
      pure-bind,
    );
  }

  instance unfoldable pub quorum_auth_packet_encodable : Encodable QuorumAuthPacket
  unfolding quorum_auth_packet_serialize pure
  quorum_auth_packet_encodable = record {
    schema = long ⊗ int ⊗ (schema_of (List ℕ));
    view = λ r. (r.magic, (r.status, view_of r.token));
    serialize_lem = λ r buf. simp (put_i64-bind, put_i32-bind, serialize_into-bind, append_assoc);
    size_lem =
        λ r. simp (length-append, length-to_be_bytes, bytes_encodable.size_lem) (omega arith);
  }

  instance unfoldable pub quorum_auth_packet_conforms : Conforms QuorumAuthPacket
  unfolding quorum_auth_packet_encodable quorum_auth_packet_deserialize
  quorum_auth_packet_conforms = record {
    unview = λ v. record { magic = v.0; status = v.1.0; token = unview_of v.1.1 };
    unview-view = λ r. simp bytes_conforms.unview-view;
    view-unview = λ v. simp bytes_conforms.view-unview;
    deserialize_lem = simp (bytes_conforms.deserialize_lem, bind_assoc, pure-bind);
  }

  instance unfoldable pub file_header_encodable : Encodable FileHeader
  unfolding file_header_serialize pure
  file_header_encodable = record {
    schema = int ⊗ int ⊗ long;
    view = λ r. (r.magic, (r.version, r.dbid));
    serialize_lem = λ r buf. simp (put_i32-bind, put_i64-bind, append_assoc);
    size_lem = λ r. simp (length-append, length-to_be_bytes) (omega arith);
  }

  instance unfoldable pub file_header_conforms : Conforms FileHeader
  unfolding file_header_encodable file_header_deserialize
  file_header_conforms = record {
    unview = λ v. record { magic = v.0; version = v.1.0; dbid = v.1.1 };
    unview-view = λ r. refl;
    view-unview = λ v. refl;
    deserialize_lem = simp (bind_assoc, pure-bind);
  }

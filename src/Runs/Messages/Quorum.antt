-- ===== src/Runs/Messages/Quorum.antt =====
-- The messages of `Quorum` at concrete values.
use zksrv.Base.{[], ◌∷◌, refl, arith}
use zksrv.Text.{is_utf8}
use zksrv.Bytes.Concrete.{concrete}
use zksrv.Jute.Conform.{string_encodable, bytes_encodable, vec_encodable}
use zksrv.Jute.Traits.{CanSend, RoundTrips}
use zksrv.Runs.Data.{path}
use zksrv.Proto.Quorum.RoundTrip.{quorum_round_trip}
use zksrv.Proto.Quorum.{
  LearnerInfo, learner_info_serialize, learner_info_deserialize, QuorumPacket,
  quorum_packet_serialize, quorum_packet_deserialize, QuorumAuthPacket,
  quorum_auth_packet_serialize, quorum_auth_packet_deserialize, FileHeader, file_header_serialize,
  file_header_deserialize,
}
use zksrv.Proto.Quorum.Wire.{
  learner_info_encodable, quorum_packet_encodable, quorum_auth_packet_encodable,
  file_header_encodable,
}
use zksrv.Proto.Ids.Wire.{auth_id_encodable}

abbrev learner_info : LearnerInfo
learner_info = record { serverid = 1; protocol_version = 2; config_version = 3 }

learner_info-CanSend : CanSend learner_info
unfolding learner_info_encodable
learner_info-CanSend = (omega arith, (omega arith, omega arith))

abbrev quorum_packet : QuorumPacket
quorum_packet = record {
  type = 4;
  zxid = 5;
  data_bytes = (1 ∷ 2 ∷ []);
  authinfo = (record { scheme = path; id = path } ∷ []);
}

quorum_packet-CanSend : CanSend quorum_packet
unfolding quorum_packet_encodable auth_id_encodable string_encodable is_utf8 bytes_encodable
    vec_encodable
quorum_packet-CanSend = (
  omega arith,
  (
    omega arith,
    (
      (omega arith, (omega arith, (omega arith, tt))),
      (
        omega arith,
        (
          (
            (refl, omega arith, (omega arith, (omega arith, tt))),
            (refl, omega arith, (omega arith, (omega arith, tt))),
          ),
          tt,
        ),
      ),
    ),
  ),
)

abbrev quorum_auth_packet : QuorumAuthPacket
quorum_auth_packet = record { magic = 6; status = 7; token = (1 ∷ 2 ∷ []) }

quorum_auth_packet-CanSend : CanSend quorum_auth_packet
unfolding quorum_auth_packet_encodable bytes_encodable
quorum_auth_packet-CanSend =
    (omega arith, (omega arith, (omega arith, (omega arith, (omega arith, tt)))))

abbrev file_header : FileHeader
file_header = record { magic = 8; version = 9; dbid = 10 }

file_header-CanSend : CanSend file_header
unfolding file_header_encodable
file_header-CanSend = (omega arith, (omega arith, omega arith))

quorum_round_trip_example :
    RoundTrips learner_info (9 ∷ []) (8 ∷ [])
    × RoundTrips quorum_packet (9 ∷ []) (8 ∷ [])
    × RoundTrips quorum_auth_packet (9 ∷ []) (8 ∷ [])
    × RoundTrips file_header (9 ∷ []) (8 ∷ [])
quorum_round_trip_example =
    quorum_round_trip learner_info quorum_packet quorum_auth_packet file_header (9 ∷ []) (8 ∷ [])
      learner_info-CanSend quorum_packet-CanSend quorum_auth_packet-CanSend file_header-CanSend

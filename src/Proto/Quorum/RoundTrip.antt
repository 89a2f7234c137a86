-- ===== src/Proto/Quorum/RoundTrip.antt =====
-- proto.rs: the messages of `Quorum` are written and read back.
use zksrv.Base.{ℕ, List}
use zksrv.Bytes.{ByteOps}
use zksrv.Jute.Traits.{CanSend, RoundTrips, round_trips}
use zksrv.Proto.Quorum.{
  LearnerInfo, learner_info_serialize, learner_info_deserialize, QuorumPacket,
  quorum_packet_serialize, quorum_packet_deserialize, QuorumAuthPacket,
  quorum_auth_packet_serialize, quorum_auth_packet_deserialize, FileHeader, file_header_serialize,
  file_header_deserialize,
}
use zksrv.Proto.Quorum.Wire.{
  learner_info_encodable, learner_info_conforms, quorum_packet_encodable, quorum_packet_conforms,
  quorum_auth_packet_encodable, quorum_auth_packet_conforms, file_header_encodable,
  file_header_conforms,
}

module _ ⦃b : ByteOps⦄ where
  -- Values of `LearnerInfo`, `QuorumPacket`, `QuorumAuthPacket` and `FileHeader` whose integers
  -- fit their widths, whose texts are UTF-8, and whose lengths are below 2 ^ 31, are each
  -- written at the end of any buffer as `size` many bytes, and read back from these bytes
  -- whatever follows them, which is left.
  pub quorum_round_trip :
      (learner_info : LearnerInfo) (quorum_packet : QuorumPacket)
      (quorum_auth_packet : QuorumAuthPacket) (file_header : FileHeader) (out rest : List ℕ)
      → CanSend learner_info
      → CanSend quorum_packet
      → CanSend quorum_auth_packet
      → CanSend file_header
      → RoundTrips learner_info out rest
        × RoundTrips quorum_packet out rest
        × RoundTrips quorum_auth_packet out rest
        × RoundTrips file_header out rest
  quorum_round_trip learner_info quorum_packet quorum_auth_packet file_header out rest h0 h1 h2 h3 =
      (
        round_trips learner_info out rest h0,
        round_trips quorum_packet out rest h1,
        round_trips quorum_auth_packet out rest h2,
        round_trips file_header out rest h3,
      )

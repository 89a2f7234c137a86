-- ===== src/Codec/Stream.antt =====
-- codec.rs: `ServerPacketCodec::decode`, which takes the frames of a client's stream and reads
-- each; and the loop of `UpStreamConnection::pipe` of server.rs, which sends each packet on.
pub mod Relay
use zksrv.Base.{ℕ, ◌≡◌, Option, none, some, List}
use zksrv.Errors.{ZkError, decode_error, Outcome, ok, err, panic, stuck, and_then}
use zksrv.Bytes.{ByteOps}
use zksrv.Buf.{Buf}
use zksrv.Constants.{Codes}
use zksrv.Frame
use zksrv.Frame.{LengthDelimitedCodec, IoError}
use zksrv.Frame.Options.{zk_builder, new_codec}
use zksrv.Codec.Packet.{RequestPacket}
use zksrv.Codec.Server.{decode_inner}
use zksrv.Codec.Client.{DashMap, encode}

pub record ServerPacketCodec : Type 0 where
  pub inner : LengthDelimitedCodec

unfoldable pub new : Option ServerPacketCodec
unfolding zk_builder new_codec
new = elim zk_builder [ some b ↦ some (record { inner = new_codec b }) | none ↦ none ]

-- `map_err(|_| ZkError::DecodeError)`, also as a match.
unfoldable pub or_decode_error {ℓ} : {A : Type ℓ} → Buf IoError A → Buf ZkError A
or_decode_error m buf = elim (m buf) [
  | ok r ↦ ok r
  | err e ↦ err decode_error
  | panic ↦ panic
  | stuck ↦ stuck
]

module _ ⦃b : ByteOps⦄ ⦃c : Codes⦄ where
  -- The bytes of a frame that `decode_inner` leaves are dropped with the frame.
  unfoldable pub decode_found :
      ServerPacketCodec
      → Option (List ℕ × ℕ)
      → Buf ZkError (Option RequestPacket × ServerPacketCodec)
  decode_found codec none rest = ok ((none, codec), rest)
  decode_found codec (some (src, n)) rest =
      and_then (decode_inner src) (λ (packet, _). ok ((packet, codec), rest))

  unfoldable pub decode : ServerPacketCodec → Buf ZkError (Option RequestPacket × ServerPacketCodec)
  unfolding decode_found or_decode_error
  decode codec buf =
      and_then (or_decode_error (Frame.decode codec.inner) buf)
        (λ ((found, inner'), rest). decode_found (record { inner = inner' }) found rest)

  module _ ⦃d : DashMap⦄ where
    -- The client's bytes that have arrived, the bytes sent to the backend, and the map.
    pub record UpStream : Type 0 where
      pub codec : ServerPacketCodec
      pub received : List ℕ
      pub map : d.Map
      pub sent : List ℕ

    -- A round of the loop: a packet is read off the front of what has arrived, and sent.
    pub data Relays : UpStream → UpStream → Type 0 where
      done : (s : UpStream) → Relays s s
      round :
          {s end : UpStream} {p : RequestPacket} {codec' : ServerPacketCodec} {rest : List ℕ}
          {map' : d.Map} {sent' : List ℕ}
          → decode s.codec s.received ≡ ok ((some p, codec'), rest)
          → encode p s.map s.sent ≡ (map', ok (tt, sent'))
          → Relays (record { codec = codec'; received = rest; map = map'; sent = sent' }) end
          → Relays s end

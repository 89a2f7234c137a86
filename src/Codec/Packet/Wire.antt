-- ===== src/Codec/Packet/Wire.antt =====
-- codec.rs: the bytes of a request packet.
use zksrv.Base.{
  ℕ, ◌≡◌, refl, ◌∙◌, Option, none, some, List, [], ◌++◌, append_assoc, append-nil, length,
  length-append, arith,
}
use zksrv.Errors.{ok}
use zksrv.Bytes.{ByteOps}
use zksrv.Buf.{pure, bind-ok}
use zksrv.Record.{serialize_into, size}
use zksrv.Jute.Conform.{encoding}
use zksrv.Proto.Headers.{RequestHeader, request_header_serialize}
use zksrv.Proto.Headers.Wire.{request_header_encodable}
use zksrv.Codec.Request.{request_serialize, serialize_request}
use zksrv.Codec.Request.Wire.{encode_request, serialize_request-encode, size_request-length}
use zksrv.Codec.Packet.{RequestPacket, request_packet_serialize, serialize_header, size_header}

module _ ⦃b : ByteOps⦄ where
  unfoldable pub encode_header : Option RequestHeader → List ℕ
  encode_header (some header) = encoding header
  encode_header none = []

  unfoldable pub encode_packet : RequestPacket → List ℕ
  unfolding encode_header
  encode_packet p = encode_header p.request_header ++ encode_request p.request

  header_lem :
      (h : Option RequestHeader) (buf : List ℕ)
      → serialize_header h buf ≡ ok (tt, buf ++ encode_header h)
  unfolding serialize_header encode_header pure
  header_lem (some h) buf = request_header_encodable.serialize_lem h buf
  header_lem none buf = simp append-nil

  header_size_lem : (h : Option RequestHeader) → size_header h ≡ length (encode_header h)
  unfolding size_header encode_header
  header_size_lem (some h) = request_header_encodable.size_lem h
  header_size_lem none = refl

  -- Writing a packet never fails, and appends the bytes of its header, if it has one, and those of
  -- its request.
  pub serialize_packet-encode :
      (p : RequestPacket) (buf : List ℕ) → serialize_into p buf ≡ ok (tt, buf ++ encode_packet p)
  unfolding request_packet_serialize encode_packet request_serialize pure
  serialize_packet-encode p buf =
      bind-ok (serialize_header p.request_header) _ buf (header_lem p.request_header buf)
      ∙ bind-ok (serialize_request p.request) _ _ (serialize_request-encode p.request _)
      ∙ simp append_assoc

  -- `size` of a packet is the number of the bytes that it is written as.
  pub size_packet-length : (p : RequestPacket) → size p ≡ length (encode_packet p)
  unfolding request_packet_serialize encode_packet request_serialize
  size_packet-length p = omega (
    arith,
    header_size_lem p.request_header,
    size_request-length p.request,
    length-append (encode_header p.request_header) (encode_request p.request),
  )

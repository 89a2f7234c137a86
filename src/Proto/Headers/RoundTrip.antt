-- ===== src/Proto/Headers/RoundTrip.antt =====
-- proto.rs: the messages of `Headers` are written and read back.
use zksrv.Base.{ℕ, List}
use zksrv.Bytes.{ByteOps}
use zksrv.Jute.Traits.{CanSend, RoundTrips, round_trips}
use zksrv.Proto.Headers.{
  RequestHeader, request_header_serialize, request_header_deserialize, MultiHeader,
  multi_header_serialize, multi_header_deserialize, ReplyHeader, reply_header_serialize,
  reply_header_deserialize, AuthPacket, auth_packet_serialize, auth_packet_deserialize,
  ErrorResponse, error_response_serialize, error_response_deserialize,
}
use zksrv.Proto.Headers.Wire.{
  request_header_encodable, request_header_conforms, multi_header_encodable, multi_header_conforms,
  reply_header_encodable, reply_header_conforms, auth_packet_encodable, auth_packet_conforms,
  error_response_encodable, error_response_conforms,
}

module _ ⦃b : ByteOps⦄ where
  -- Values of `RequestHeader`, `MultiHeader`, `ReplyHeader`, `AuthPacket` and `ErrorResponse`
  -- whose integers fit their widths, whose texts are UTF-8, and whose lengths are below 2 ^ 31,
  -- are each written at the end of any buffer as `size` many bytes, and read back from these
  -- bytes whatever follows them, which is left.
  pub headers_round_trip :
      (request_header : RequestHeader) (multi_header : MultiHeader) (reply_header : ReplyHeader)
      (auth_packet : AuthPacket) (error_response : ErrorResponse) (out rest : List ℕ)
      → CanSend request_header
      → CanSend multi_header
      → CanSend reply_header
      → CanSend auth_packet
      → CanSend error_response
      → RoundTrips request_header out rest
        × RoundTrips multi_header out rest
        × RoundTrips reply_header out rest
        × RoundTrips auth_packet out rest
        × RoundTrips error_response out rest
  headers_round_trip request_header multi_header reply_header auth_packet error_response out rest h0
        h1 h2 h3 h4 =
      (
        round_trips request_header out rest h0,
        round_trips multi_header out rest h1,
        round_trips reply_header out rest h2,
        round_trips auth_packet out rest h3,
        round_trips error_response out rest h4,
      )

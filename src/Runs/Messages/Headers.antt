-- ===== src/Runs/Messages/Headers.antt =====
-- The messages of `Headers` at concrete values.
use zksrv.Base.{[], ◌∷◌, refl, arith}
use zksrv.Text.{is_utf8}
use zksrv.Bytes.Concrete.{concrete}
use zksrv.Jute.Conform.{string_encodable, bytes_encodable, vec_encodable}
use zksrv.Jute.Traits.{CanSend, RoundTrips}
use zksrv.Runs.Data.{path}
use zksrv.Proto.Headers.RoundTrip.{headers_round_trip}
use zksrv.Proto.Headers.{
  RequestHeader, request_header_serialize, request_header_deserialize, MultiHeader,
  multi_header_serialize, multi_header_deserialize, ReplyHeader, reply_header_serialize,
  reply_header_deserialize, AuthPacket, auth_packet_serialize, auth_packet_deserialize,
  ErrorResponse, error_response_serialize, error_response_deserialize,
}
use zksrv.Proto.Headers.Wire.{
  request_header_encodable, multi_header_encodable, reply_header_encodable, auth_packet_encodable,
  error_response_encodable,
}

abbrev request_header : RequestHeader
request_header = record { xid = 1; type = 2 }

request_header-CanSend : CanSend request_header
unfolding request_header_encodable
request_header-CanSend = (omega arith, omega arith)

abbrev multi_header : MultiHeader
multi_header = record { type = 3; done = 4; err = 5 }

multi_header-CanSend : CanSend multi_header
unfolding multi_header_encodable
multi_header-CanSend = (omega arith, (omega arith, omega arith))

abbrev reply_header : ReplyHeader
reply_header = record { xid = 6; zxid = 7; err = 8 }

reply_header-CanSend : CanSend reply_header
unfolding reply_header_encodable
reply_header-CanSend = (omega arith, (omega arith, omega arith))

abbrev auth_packet : AuthPacket
auth_packet = record { type = 9; scheme = path; auth = (1 ∷ 2 ∷ []) }

auth_packet-CanSend : CanSend auth_packet
unfolding auth_packet_encodable string_encodable is_utf8 bytes_encodable
auth_packet-CanSend = (
  omega arith,
  (
    (refl, omega arith, (omega arith, (omega arith, tt))),
    (omega arith, (omega arith, (omega arith, tt))),
  ),
)

abbrev error_response : ErrorResponse
error_response = record { err = 10 }

error_response-CanSend : CanSend error_response
unfolding error_response_encodable
error_response-CanSend = omega arith

headers_round_trip_example :
    RoundTrips request_header (9 ∷ []) (8 ∷ [])
    × RoundTrips multi_header (9 ∷ []) (8 ∷ [])
    × RoundTrips reply_header (9 ∷ []) (8 ∷ [])
    × RoundTrips auth_packet (9 ∷ []) (8 ∷ [])
    × RoundTrips error_response (9 ∷ []) (8 ∷ [])
headers_round_trip_example =
    headers_round_trip request_header multi_header reply_header auth_packet error_response (9 ∷ [])
      (8 ∷ []) request_header-CanSend multi_header-CanSend reply_header-CanSend auth_packet-CanSend
      error_response-CanSend

-- ===== src/Runs/Messages/Versions.antt =====
-- The messages of `Versions` at concrete values.
use zksrv.Base.{[], ◌∷◌, refl, arith}
use zksrv.Text.{is_utf8}
use zksrv.Bytes.Concrete.{concrete}
use zksrv.Jute.Conform.{string_encodable, bytes_encodable, vec_encodable}
use zksrv.Jute.Traits.{CanSend, RoundTrips}
use zksrv.Runs.Data.{path}
use zksrv.Proto.Versions.RoundTrip.{versions_round_trip}
use zksrv.Proto.Versions.{
  CheckVersionRequest, check_version_request_serialize, check_version_request_deserialize,
  SyncRequest, sync_request_serialize, sync_request_deserialize, SyncResponse,
  sync_response_serialize, sync_response_deserialize,
}
use zksrv.Proto.Versions.Wire.{
  check_version_request_encodable, sync_request_encodable, sync_response_encodable,
}

abbrev check_version_request : CheckVersionRequest
check_version_request = record { path = path; version = 1 }

check_version_request-CanSend : CanSend check_version_request
unfolding check_version_request_encodable string_encodable is_utf8
check_version_request-CanSend = ((refl, omega arith, (omega arith, (omega arith, tt))), omega arith)

abbrev sync_request : SyncRequest
sync_request = record { path = path }

sync_request-CanSend : CanSend sync_request
unfolding sync_request_encodable string_encodable is_utf8
sync_request-CanSend = (refl, omega arith, (omega arith, (omega arith, tt)))

abbrev sync_response : SyncResponse
sync_response = record { path = path }

sync_response-CanSend : CanSend sync_response
unfolding sync_response_encodable string_encodable is_utf8
sync_response-CanSend = (refl, omega arith, (omega arith, (omega arith, tt)))

versions_round_trip_example :
    RoundTrips check_version_request (9 ∷ []) (8 ∷ [])
    × RoundTrips sync_request (9 ∷ []) (8 ∷ [])
    × RoundTrips sync_response (9 ∷ []) (8 ∷ [])
versions_round_trip_example =
    versions_round_trip check_version_request sync_request sync_response (9 ∷ []) (8 ∷ [])
      check_version_request-CanSend sync_request-CanSend sync_response-CanSend

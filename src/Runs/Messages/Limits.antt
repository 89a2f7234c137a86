-- ===== src/Runs/Messages/Limits.antt =====
-- The messages of `Limits` at concrete values.
use zksrv.Base.{[], ◌∷◌, refl, arith}
use zksrv.Text.{is_utf8}
use zksrv.Bytes.Concrete.{concrete}
use zksrv.Jute.Conform.{string_encodable, bytes_encodable, vec_encodable}
use zksrv.Jute.Traits.{CanSend, RoundTrips}
use zksrv.Runs.Data.{path}
use zksrv.Proto.Limits.RoundTrip.{limits_round_trip}
use zksrv.Proto.Limits.{
  GetMaxChildrenRequest, get_max_children_request_serialize, get_max_children_request_deserialize,
  GetMaxChildrenResponse, get_max_children_response_serialize,
  get_max_children_response_deserialize, SetMaxChildrenRequest, set_max_children_request_serialize,
  set_max_children_request_deserialize, GetEphemeralsRequest, get_ephemerals_request_serialize,
  get_ephemerals_request_deserialize, GetEphemeralsResponse, get_ephemerals_response_serialize,
  get_ephemerals_response_deserialize,
}
use zksrv.Proto.Limits.Wire.{
  get_max_children_request_encodable, get_max_children_response_encodable,
  set_max_children_request_encodable, get_ephemerals_request_encodable,
  get_ephemerals_response_encodable,
}

abbrev get_max_children_request : GetMaxChildrenRequest
get_max_children_request = record { path = path }

get_max_children_request-CanSend : CanSend get_max_children_request
unfolding get_max_children_request_encodable string_encodable is_utf8
get_max_children_request-CanSend = (refl, omega arith, (omega arith, (omega arith, tt)))

abbrev get_max_children_response : GetMaxChildrenResponse
get_max_children_response = record { max = 1 }

get_max_children_response-CanSend : CanSend get_max_children_response
unfolding get_max_children_response_encodable
get_max_children_response-CanSend = omega arith

abbrev set_max_children_request : SetMaxChildrenRequest
set_max_children_request = record { path = path; max = 2 }

set_max_children_request-CanSend : CanSend set_max_children_request
unfolding set_max_children_request_encodable string_encodable is_utf8
set_max_children_request-CanSend =
    ((refl, omega arith, (omega arith, (omega arith, tt))), omega arith)

abbrev get_ephemerals_request : GetEphemeralsRequest
get_ephemerals_request = record { prefix_path = path }

get_ephemerals_request-CanSend : CanSend get_ephemerals_request
unfolding get_ephemerals_request_encodable string_encodable is_utf8
get_ephemerals_request-CanSend = (refl, omega arith, (omega arith, (omega arith, tt)))

abbrev get_ephemerals_response : GetEphemeralsResponse
get_ephemerals_response = record { ephemerals = (path ∷ []) }

get_ephemerals_response-CanSend : CanSend get_ephemerals_response
unfolding get_ephemerals_response_encodable string_encodable is_utf8 vec_encodable
get_ephemerals_response-CanSend =
    (omega arith, ((refl, omega arith, (omega arith, (omega arith, tt))), tt))

limits_round_trip_example :
    RoundTrips get_max_children_request (9 ∷ []) (8 ∷ [])
    × RoundTrips get_max_children_response (9 ∷ []) (8 ∷ [])
    × RoundTrips set_max_children_request (9 ∷ []) (8 ∷ [])
    × RoundTrips get_ephemerals_request (9 ∷ []) (8 ∷ [])
    × RoundTrips get_ephemerals_response (9 ∷ []) (8 ∷ [])
limits_round_trip_example =
    limits_round_trip get_max_children_request get_max_children_response set_max_children_request
      get_ephemerals_request get_ephemerals_response (9 ∷ []) (8 ∷ [])
      get_max_children_request-CanSend get_max_children_response-CanSend
      set_max_children_request-CanSend get_ephemerals_request-CanSend
      get_ephemerals_response-CanSend

-- ===== src/Runs/Messages/Children.antt =====
-- The messages of `Children` at concrete values.
use zksrv.Base.{[], ◌∷◌, refl, arith}
use zksrv.Text.{is_utf8}
use zksrv.Bytes.Concrete.{concrete}
use zksrv.Jute.Conform.{string_encodable, bytes_encodable, vec_encodable}
use zksrv.Jute.Traits.{CanSend, RoundTrips}
use zksrv.Runs.Data.{path}
use zksrv.Proto.Children.RoundTrip.{children_round_trip}
use zksrv.Proto.Children.{
  GetChildrenRequest, get_children_request_serialize, get_children_request_deserialize,
  GetChildren2Request, get_children2_request_serialize, get_children2_request_deserialize,
  GetChildrenResponse, get_children_response_serialize, get_children_response_deserialize,
  GetChildren2Response, get_children2_response_serialize, get_children2_response_deserialize,
}
use zksrv.Proto.Children.Wire.{
  get_children_request_encodable, get_children2_request_encodable, get_children_response_encodable,
  get_children2_response_encodable,
}
use zksrv.Proto.Stats.Wire.{stat_encodable}

abbrev get_children_request : GetChildrenRequest
get_children_request = record { path = path; watch = 1 }

get_children_request-CanSend : CanSend get_children_request
unfolding get_children_request_encodable string_encodable is_utf8
get_children_request-CanSend = ((refl, omega arith, (omega arith, (omega arith, tt))), omega arith)

abbrev get_children2_request : GetChildren2Request
get_children2_request = record { path = path; watch = 2 }

get_children2_request-CanSend : CanSend get_children2_request
unfolding get_children2_request_encodable string_encodable is_utf8
get_children2_request-CanSend = ((refl, omega arith, (omega arith, (omega arith, tt))), omega arith)

abbrev get_children_response : GetChildrenResponse
get_children_response = record { children = (path ∷ []) }

get_children_response-CanSend : CanSend get_children_response
unfolding get_children_response_encodable string_encodable is_utf8 vec_encodable
get_children_response-CanSend =
    (omega arith, ((refl, omega arith, (omega arith, (omega arith, tt))), tt))

abbrev get_children2_response : GetChildren2Response
get_children2_response = record {
  children = (path ∷ []);
  stat = record {
    czxid = 3;
    mzxid = 4;
    ctime = 5;
    mtime = 6;
    version = 7;
    cversion = 8;
    aversion = 9;
    ephemeral_owner = 10;
    data_length = 11;
    num_children = 12;
    pzxid = 13;
  };
}

get_children2_response-CanSend : CanSend get_children2_response
unfolding get_children2_response_encodable stat_encodable string_encodable is_utf8 vec_encodable
get_children2_response-CanSend = (
  (omega arith, ((refl, omega arith, (omega arith, (omega arith, tt))), tt)),
  (
    omega arith,
    (
      omega arith,
      (
        omega arith,
        (
          omega arith,
          (
            omega arith,
            (omega arith, (omega arith, (omega arith, (omega arith, (omega arith, omega arith))))),
          ),
        ),
      ),
    ),
  ),
)

children_round_trip_example :
    RoundTrips get_children_request (9 ∷ []) (8 ∷ [])
    × RoundTrips get_children2_request (9 ∷ []) (8 ∷ [])
    × RoundTrips get_children_response (9 ∷ []) (8 ∷ [])
    × RoundTrips get_children2_response (9 ∷ []) (8 ∷ [])
children_round_trip_example =
    children_round_trip get_children_request get_children2_request get_children_response
      get_children2_response (9 ∷ []) (8 ∷ []) get_children_request-CanSend
      get_children2_request-CanSend get_children_response-CanSend get_children2_response-CanSend

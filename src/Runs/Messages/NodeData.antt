-- ===== src/Runs/Messages/NodeData.antt =====
-- The messages of `NodeData` at concrete values.
use zksrv.Base.{[], ◌∷◌, refl, arith}
use zksrv.Text.{is_utf8}
use zksrv.Bytes.Concrete.{concrete}
use zksrv.Jute.Conform.{string_encodable, bytes_encodable, vec_encodable}
use zksrv.Jute.Traits.{CanSend, RoundTrips}
use zksrv.Runs.Data.{path}
use zksrv.Proto.NodeData.RoundTrip.{node_data_round_trip}
use zksrv.Proto.NodeData.{
  GetDataRequest, get_data_request_serialize, get_data_request_deserialize, SetDataRequest,
  set_data_request_serialize, set_data_request_deserialize, SetDataResponse,
  set_data_response_serialize, set_data_response_deserialize, ExistsRequest,
  exists_request_serialize, exists_request_deserialize, ExistsResponse, exists_response_serialize,
  exists_response_deserialize, GetDataResponse, get_data_response_serialize,
  get_data_response_deserialize,
}
use zksrv.Proto.NodeData.Wire.{
  get_data_request_encodable, set_data_request_encodable, set_data_response_encodable,
  exists_request_encodable, exists_response_encodable, get_data_response_encodable,
}
use zksrv.Proto.Stats.Wire.{stat_encodable}

abbrev get_data_request : GetDataRequest
get_data_request = record { path = path; watch = 1 }

get_data_request-CanSend : CanSend get_data_request
unfolding get_data_request_encodable string_encodable is_utf8
get_data_request-CanSend = ((refl, omega arith, (omega arith, (omega arith, tt))), omega arith)

abbrev set_data_request : SetDataRequest
set_data_request = record { path = path; data_bytes = (1 ∷ 2 ∷ []); version = 2 }

set_data_request-CanSend : CanSend set_data_request
unfolding set_data_request_encodable string_encodable is_utf8 bytes_encodable
set_data_request-CanSend = (
  (refl, omega arith, (omega arith, (omega arith, tt))),
  ((omega arith, (omega arith, (omega arith, tt))), omega arith),
)

abbrev set_data_response : SetDataResponse
set_data_response = record {
  stat = record {
    czxid = 3;
    mzxid = 4;
    ctime = 5;
    mtime = 6;
    version = 7;
    cversion = 8;
    aversion = 9;
    ephemeral_owner = 10;
    data_length = 11;
    num_children = 12;
    pzxid = 13;
  };
}

set_data_response-CanSend : CanSend set_data_response
unfolding set_data_response_encodable stat_encodable
set_data_response-CanSend = (
  omega arith,
  (
    omega arith,
    (
      omega arith,
      (
        omega arith,
        (
          omega arith,
          (omega arith, (omega arith, (omega arith, (omega arith, (omega arith, omega arith))))),
        ),
      ),
    ),
  ),
)

abbrev exists_request : ExistsRequest
exists_request = record { path = path; watch = 14 }

exists_request-CanSend : CanSend exists_request
unfolding exists_request_encodable string_encodable is_utf8
exists_request-CanSend = ((refl, omega arith, (omega arith, (omega arith, tt))), omega arith)

abbrev exists_response : ExistsResponse
exists_response = record {
  stat = record {
    czxid = 15;
    mzxid = 16;
    ctime = 17;
    mtime = 18;
    version = 19;
    cversion = 20;
    aversion = 21;
    ephemeral_owner = 22;
    data_length = 23;
    num_children = 24;
    pzxid = 25;
  };
}

exists_response-CanSend : CanSend exists_response
unfolding exists_response_encodable stat_encodable
exists_response-CanSend = (
  omega arith,
  (
    omega arith,
    (
      omega arith,
      (
        omega arith,
        (
          omega arith,
          (omega arith, (omega arith, (omega arith, (omega arith, (omega arith, omega arith))))),
        ),
      ),
    ),
  ),
)

abbrev get_data_response : GetDataResponse
get_data_response = record {
  data_bytes = (1 ∷ 2 ∷ []);
  stat = record {
    czxid = 26;
    mzxid = 27;
    ctime = 28;
    mtime = 29;
    version = 30;
    cversion = 31;
    aversion = 32;
    ephemeral_owner = 33;
    data_length = 34;
    num_children = 35;
    pzxid = 36;
  };
}

get_data_response-CanSend : CanSend get_data_response
unfolding get_data_response_encodable stat_encodable bytes_encodable
get_data_response-CanSend = (
  (omega arith, (omega arith, (omega arith, tt))),
  (
    omega arith,
    (
      omega arith,
      (
        omega arith,
        (
          omega arith,
          (
            omega arith,
            (omega arith, (omega arith, (omega arith, (omega arith, (omega arith, omega arith))))),
          ),
        ),
      ),
    ),
  ),
)

node_data_round_trip_example :
    RoundTrips get_data_request (9 ∷ []) (8 ∷ [])
    × RoundTrips set_data_request (9 ∷ []) (8 ∷ [])
    × RoundTrips set_data_response (9 ∷ []) (8 ∷ [])
    × RoundTrips exists_request (9 ∷ []) (8 ∷ [])
    × RoundTrips exists_response (9 ∷ []) (8 ∷ [])
    × RoundTrips get_data_response (9 ∷ []) (8 ∷ [])
node_data_round_trip_example =
    node_data_round_trip get_data_request set_data_request set_data_response exists_request
      exists_response get_data_response (9 ∷ []) (8 ∷ []) get_data_request-CanSend
      set_data_request-CanSend set_data_response-CanSend exists_request-CanSend
      exists_response-CanSend get_data_response-CanSend

-- ===== src/Proto/NodeData/RoundTrip.antt =====
-- proto.rs: the messages of `NodeData` are written and read back.
use zksrv.Base.{ℕ, List}
use zksrv.Bytes.{ByteOps}
use zksrv.Jute.Traits.{CanSend, RoundTrips, round_trips}
use zksrv.Proto.NodeData.{
  GetDataRequest, get_data_request_serialize, get_data_request_deserialize, SetDataRequest,
  set_data_request_serialize, set_data_request_deserialize, SetDataResponse,
  set_data_response_serialize, set_data_response_deserialize, ExistsRequest,
  exists_request_serialize, exists_request_deserialize, ExistsResponse, exists_response_serialize,
  exists_response_deserialize, GetDataResponse, get_data_response_serialize,
  get_data_response_deserialize,
}
use zksrv.Proto.NodeData.Wire.{
  get_data_request_encodable, get_data_request_conforms, set_data_request_encodable,
  set_data_request_conforms, set_data_response_encodable, set_data_response_conforms,
  exists_request_encodable, exists_request_conforms, exists_response_encodable,
  exists_response_conforms, get_data_response_encodable, get_data_response_conforms,
}

module _ ⦃b : ByteOps⦄ where
  -- Values of `GetDataRequest`, `SetDataRequest`, `SetDataResponse`, `ExistsRequest`,
  -- `ExistsResponse` and `GetDataResponse` whose integers fit their widths, whose texts are
  -- UTF-8, and whose lengths are below 2 ^ 31, are each written at the end of any buffer as
  -- `size` many bytes, and read back from these bytes whatever follows them, which is left.
  pub node_data_round_trip :
      (get_data_request : GetDataRequest) (set_data_request : SetDataRequest)
      (set_data_response : SetDataResponse) (exists_request : ExistsRequest)
      (exists_response : ExistsResponse) (get_data_response : GetDataResponse) (out rest : List ℕ)
      → CanSend get_data_request
      → CanSend set_data_request
      → CanSend set_data_response
      → CanSend exists_request
      → CanSend exists_response
      → CanSend get_data_response
      → RoundTrips get_data_request out rest
        × RoundTrips set_data_request out rest
        × RoundTrips set_data_response out rest
        × RoundTrips exists_request out rest
        × RoundTrips exists_response out rest
        × RoundTrips get_data_response out rest
  node_data_round_trip get_data_request set_data_request set_data_response exists_request
        exists_response get_data_response out rest h0 h1 h2 h3 h4 h5 =
      (
        round_trips get_data_request out rest h0,
        round_trips set_data_request out rest h1,
        round_trips set_data_response out rest h2,
        round_trips exists_request out rest h3,
        round_trips exists_response out rest h4,
        round_trips get_data_response out rest h5,
      )

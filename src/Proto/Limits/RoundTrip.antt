-- ===== src/Proto/Limits/RoundTrip.antt =====
-- proto.rs: the messages of `Limits` are written and read back.
use zksrv.Base.{ℕ, List}
use zksrv.Bytes.{ByteOps}
use zksrv.Jute.Traits.{CanSend, RoundTrips, round_trips}
use zksrv.Proto.Limits.{
  GetMaxChildrenRequest, get_max_children_request_serialize, get_max_children_request_deserialize,
  GetMaxChildrenResponse, get_max_children_response_serialize,
  get_max_children_response_deserialize, SetMaxChildrenRequest, set_max_children_request_serialize,
  set_max_children_request_deserialize, GetEphemeralsRequest, get_ephemerals_request_serialize,
  get_ephemerals_request_deserialize, GetEphemeralsResponse, get_ephemerals_response_serialize,
  get_ephemerals_response_deserialize,
}
use zksrv.Proto.Limits.Wire.{
  get_max_children_request_encodable, get_max_children_request_conforms,
  get_max_children_response_encodable, get_max_children_response_conforms,
  set_max_children_request_encodable, set_max_children_request_conforms,
  get_ephemerals_request_encodable, get_ephemerals_request_conforms,
  get_ephemerals_response_encodable, get_ephemerals_response_conforms,
}

module _ ⦃b : ByteOps⦄ where
  -- Values of `GetMaxChildrenRequest`, `GetMaxChildrenResponse`, `SetMaxChildrenRequest`,
  -- `GetEphemeralsRequest` and `GetEphemeralsResponse` whose integers fit their widths, whose
  -- texts are UTF-8, and whose lengths are below 2 ^ 31, are each written at the end of any
  -- buffer as `size` many bytes, and read back from these bytes whatever follows them, which is
  -- left.
  pub limits_round_trip :
      (get_max_children_request : GetMaxChildrenRequest)
      (get_max_children_response : GetMaxChildrenResponse)
      (set_max_children_request : SetMaxChildrenRequest)
      (get_ephemerals_request : GetEphemeralsRequest)
      (get_ephemerals_response : GetEphemeralsResponse) (out rest : List ℕ)
      → CanSend get_max_children_request
      → CanSend get_max_children_response
      → CanSend set_max_children_request
      → CanSend get_ephemerals_request
      → CanSend get_ephemerals_response
      → RoundTrips get_max_children_request out rest
        × RoundTrips get_max_children_response out rest
        × RoundTrips set_max_children_request out rest
        × RoundTrips get_ephemerals_request out rest
        × RoundTrips get_ephemerals_response out rest
  limits_round_trip get_max_children_request get_max_children_response set_max_children_request
        get_ephemerals_request get_ephemerals_response out rest h0 h1 h2 h3 h4 =
      (
        round_trips get_max_children_request out rest h0,
        round_trips get_max_children_response out rest h1,
        round_trips set_max_children_request out rest h2,
        round_trips get_ephemerals_request out rest h3,
        round_trips get_ephemerals_response out rest h4,
      )

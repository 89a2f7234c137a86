-- ===== src/Proto/Children/RoundTrip.antt =====
-- proto.rs: the messages of `Children` are written and read back.
use zksrv.Base.{ℕ, List}
use zksrv.Bytes.{ByteOps}
use zksrv.Jute.Traits.{CanSend, RoundTrips, round_trips}
use zksrv.Proto.Children.{
  GetChildrenRequest, get_children_request_serialize, get_children_request_deserialize,
  GetChildren2Request, get_children2_request_serialize, get_children2_request_deserialize,
  GetChildrenResponse, get_children_response_serialize, get_children_response_deserialize,
  GetChildren2Response, get_children2_response_serialize, get_children2_response_deserialize,
}
use zksrv.Proto.Children.Wire.{
  get_children_request_encodable, get_children_request_conforms, get_children2_request_encodable,
  get_children2_request_conforms, get_children_response_encodable, get_children_response_conforms,
  get_children2_response_encodable, get_children2_response_conforms,
}

module _ ⦃b : ByteOps⦄ where
  -- Values of `GetChildrenRequest`, `GetChildren2Request`, `GetChildrenResponse` and
  -- `GetChildren2Response` whose integers fit their widths, whose texts are UTF-8, and whose
  -- lengths are below 2 ^ 31, are each written at the end of any buffer as `size` many bytes,
  -- and read back from these bytes whatever follows them, which is left.
  pub children_round_trip :
      (get_children_request : GetChildrenRequest) (get_children2_request : GetChildren2Request)
      (get_children_response : GetChildrenResponse) (get_children2_response : GetChildren2Response)
      (out rest : List ℕ)
      → CanSend get_children_request
      → CanSend get_children2_request
      → CanSend get_children_response
      → CanSend get_children2_response
      → RoundTrips get_children_request out rest
        × RoundTrips get_children2_request out rest
        × RoundTrips get_children_response out rest
        × RoundTrips get_children2_response out rest
  children_round_trip get_children_request get_children2_request get_children_response
        get_children2_response out rest h0 h1 h2 h3 =
      (
        round_trips get_children_request out rest h0,
        round_trips get_children2_request out rest h1,
        round_trips get_children_response out rest h2,
        round_trips get_children2_response out rest h3,
      )

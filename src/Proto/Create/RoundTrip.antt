-- ===== src/Proto/Create/RoundTrip.antt =====
-- proto.rs: the messages of `Create` are written and read back.
use zksrv.Base.{ℕ, List}
use zksrv.Bytes.{ByteOps}
use zksrv.Jute.Traits.{CanSend, RoundTrips, round_trips}
use zksrv.Proto.Create.{
  CreateRequest, create_request_serialize, create_request_deserialize, CreateTtlRequest,
  create_ttl_request_serialize, create_ttl_request_deserialize, DeleteRequest,
  delete_request_serialize, delete_request_deserialize, CreateResponse, create_response_serialize,
  create_response_deserialize, Create2Response, create2_response_serialize,
  create2_response_deserialize,
}
use zksrv.Proto.Create.Wire.{
  create_request_encodable, create_request_conforms, create_ttl_request_encodable,
  create_ttl_request_conforms, delete_request_encodable, delete_request_conforms,
  create_response_encodable, create_response_conforms, create2_response_encodable,
  create2_response_conforms,
}

module _ ⦃b : ByteOps⦄ where
  -- Values of `CreateRequest`, `CreateTtlRequest`, `DeleteRequest`, `CreateResponse` and
  -- `Create2Response` whose integers fit their widths, whose texts are UTF-8, and whose lengths
  -- are below 2 ^ 31, are each written at the end of any buffer as `size` many bytes, and read
  -- back from these bytes whatever follows them, which is left.
  pub create_round_trip :
      (create_request : CreateRequest) (create_ttl_request : CreateTtlRequest)
      (delete_request : DeleteRequest) (create_response : CreateResponse)
      (create2_response : Create2Response) (out rest : List ℕ)
      → CanSend create_request
      → CanSend create_ttl_request
      → CanSend delete_request
      → CanSend create_response
      → CanSend create2_response
      → RoundTrips create_request out rest
        × RoundTrips create_ttl_request out rest
        × RoundTrips delete_request out rest
        × RoundTrips create_response out rest
        × RoundTrips create2_response out rest
  create_round_trip create_request create_ttl_request delete_request create_response
        create2_response out rest h0 h1 h2 h3 h4 =
      (
        round_trips create_request out rest h0,
        round_trips create_ttl_request out rest h1,
        round_trips delete_request out rest h2,
        round_trips create_response out rest h3,
        round_trips create2_response out rest h4,
      )

-- ===== src/Proto/Acls/RoundTrip.antt =====
-- proto.rs: the messages of `Acls` are written and read back.
use zksrv.Base.{ℕ, List}
use zksrv.Bytes.{ByteOps}
use zksrv.Jute.Traits.{CanSend, RoundTrips, round_trips}
use zksrv.Proto.Acls.{
  GetAclRequest, get_acl_request_serialize, get_acl_request_deserialize, SetAclRequest,
  set_acl_request_serialize, set_acl_request_deserialize, SetAclResponse,
  set_acl_response_serialize, set_acl_response_deserialize, GetAclResponse,
  get_acl_response_serialize, get_acl_response_deserialize,
}
use zksrv.Proto.Acls.Wire.{
  get_acl_request_encodable, get_acl_request_conforms, set_acl_request_encodable,
  set_acl_request_conforms, set_acl_response_encodable, set_acl_response_conforms,
  get_acl_response_encodable, get_acl_response_conforms,
}

module _ ⦃b : ByteOps⦄ where
  -- Values of `GetAclRequest`, `SetAclRequest`, `SetAclResponse` and `GetAclResponse` whose
  -- integers fit their widths, whose texts are UTF-8, and whose lengths are below 2 ^ 31, are
  -- each written at the end of any buffer as `size` many bytes, and read back from these bytes
  -- whatever follows them, which is left.
  pub acls_round_trip :
      (get_acl_request : GetAclRequest) (set_acl_request : SetAclRequest)
      (set_acl_response : SetAclResponse) (get_acl_response : GetAclResponse) (out rest : List ℕ)
      → CanSend get_acl_request
      → CanSend set_acl_request
      → CanSend set_acl_response
      → CanSend get_acl_response
      → RoundTrips get_acl_request out rest
        × RoundTrips set_acl_request out rest
        × RoundTrips set_acl_response out rest
        × RoundTrips get_acl_response out rest
  acls_round_trip get_acl_request set_acl_request set_acl_response get_acl_response out rest h0 h1
        h2 h3 =
      (
        round_trips get_acl_request out rest h0,
        round_trips set_acl_request out rest h1,
        round_trips set_acl_response out rest h2,
        round_trips get_acl_response out rest h3,
      )

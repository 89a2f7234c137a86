-- ===== src/Proto/Admin/RoundTrip.antt =====
-- proto.rs: the messages of `Admin` are written and read back.
use zksrv.Base.{ℕ, List}
use zksrv.Bytes.{ByteOps}
use zksrv.Jute.Traits.{CanSend, RoundTrips, round_trips}
use zksrv.Proto.Admin.{
  ReconfigRequest, reconfig_request_serialize, reconfig_request_deserialize, GetSaslRequest,
  get_sasl_request_serialize, get_sasl_request_deserialize, SetSaslRequest,
  set_sasl_request_serialize, set_sasl_request_deserialize, SetSaslResponse,
  set_sasl_response_serialize, set_sasl_response_deserialize, WhoAmIResponse,
  whoami_response_serialize, whoami_response_deserialize,
}
use zksrv.Proto.Admin.Wire.{
  reconfig_request_encodable, reconfig_request_conforms, get_sasl_request_encodable,
  get_sasl_request_conforms, set_sasl_request_encodable, set_sasl_request_conforms,
  set_sasl_response_encodable, set_sasl_response_conforms, whoami_response_encodable,
  whoami_response_conforms,
}

module _ ⦃b : ByteOps⦄ where
  -- Values of `ReconfigRequest`, `GetSaslRequest`, `SetSaslRequest`, `SetSaslResponse` and
  -- `WhoAmIResponse` whose integers fit their widths, whose texts are UTF-8, and whose lengths
  -- are below 2 ^ 31, are each written at the end of any buffer as `size` many bytes, and read
  -- back from these bytes whatever follows them, which is left.
  pub admin_round_trip :
      (reconfig_request : ReconfigRequest) (get_sasl_request : GetSaslRequest)
      (set_sasl_request : SetSaslRequest) (set_sasl_response : SetSaslResponse)
      (whoami_response : WhoAmIResponse) (out rest : List ℕ)
      → CanSend reconfig_request
      → CanSend get_sasl_request
      → CanSend set_sasl_request
      → CanSend set_sasl_response
      → CanSend whoami_response
      → RoundTrips reconfig_request out rest
        × RoundTrips get_sasl_request out rest
        × RoundTrips set_sasl_request out rest
        × RoundTrips set_sasl_response out rest
        × RoundTrips whoami_response out rest
  admin_round_trip reconfig_request get_sasl_request set_sasl_request set_sasl_response
        whoami_response out rest h0 h1 h2 h3 h4 =
      (
        round_trips reconfig_request out rest h0,
        round_trips get_sasl_request out rest h1,
        round_trips set_sasl_request out rest h2,
        round_trips set_sasl_response out rest h3,
        round_trips whoami_response out rest h4,
      )

-- ===== src/Runs/Messages/Admin.antt =====
-- The messages of `Admin` at concrete values.
use zksrv.Base.{[], ◌∷◌, refl, arith}
use zksrv.Text.{is_utf8}
use zksrv.Bytes.Concrete.{concrete}
use zksrv.Jute.Conform.{string_encodable, bytes_encodable, vec_encodable}
use zksrv.Jute.Traits.{CanSend, RoundTrips}
use zksrv.Runs.Data.{path}
use zksrv.Proto.Admin.RoundTrip.{admin_round_trip}
use zksrv.Proto.Admin.{
  ReconfigRequest, reconfig_request_serialize, reconfig_request_deserialize, GetSaslRequest,
  get_sasl_request_serialize, get_sasl_request_deserialize, SetSaslRequest,
  set_sasl_request_serialize, set_sasl_request_deserialize, SetSaslResponse,
  set_sasl_response_serialize, set_sasl_response_deserialize, WhoAmIResponse,
  whoami_response_serialize, whoami_response_deserialize,
}
use zksrv.Proto.Admin.Wire.{
  reconfig_request_encodable, get_sasl_request_encodable, set_sasl_request_encodable,
  set_sasl_response_encodable, whoami_response_encodable,
}
use zksrv.Proto.Ids.Wire.{client_info_encodable}

abbrev reconfig_request : ReconfigRequest
reconfig_request = record {
  joining_servers = path;
  leaving_servers = path;
  new_members = path;
  cur_config_id = 1;
}

reconfig_request-CanSend : CanSend reconfig_request
unfolding reconfig_request_encodable string_encodable is_utf8
reconfig_request-CanSend = (
  (refl, omega arith, (omega arith, (omega arith, tt))),
  (
    (refl, omega arith, (omega arith, (omega arith, tt))),
    ((refl, omega arith, (omega arith, (omega arith, tt))), omega arith),
  ),
)

abbrev get_sasl_request : GetSaslRequest
get_sasl_request = record { token = (1 ∷ 2 ∷ []) }

get_sasl_request-CanSend : CanSend get_sasl_request
unfolding get_sasl_request_encodable bytes_encodable
get_sasl_request-CanSend = (omega arith, (omega arith, (omega arith, tt)))

abbrev set_sasl_request : SetSaslRequest
set_sasl_request = record { token = (1 ∷ 2 ∷ []) }

set_sasl_request-CanSend : CanSend set_sasl_request
unfolding set_sasl_request_encodable bytes_encodable
set_sasl_request-CanSend = (omega arith, (omega arith, (omega arith, tt)))

abbrev set_sasl_response : SetSaslResponse
set_sasl_response = record { token = (1 ∷ 2 ∷ []) }

set_sasl_response-CanSend : CanSend set_sasl_response
unfolding set_sasl_response_encodable bytes_encodable
set_sasl_response-CanSend = (omega arith, (omega arith, (omega arith, tt)))

abbrev whoami_response : WhoAmIResponse
whoami_response = record { client_info = (record { auth_scheme = path; user = path } ∷ []) }

whoami_response-CanSend : CanSend whoami_response
unfolding whoami_response_encodable client_info_encodable string_encodable is_utf8 vec_encodable
whoami_response-CanSend = (
  omega arith,
  (
    (
      (refl, omega arith, (omega arith, (omega arith, tt))),
      (refl, omega arith, (omega arith, (omega arith, tt))),
    ),
    tt,
  ),
)

admin_round_trip_example :
    RoundTrips reconfig_request (9 ∷ []) (8 ∷ [])
    × RoundTrips get_sasl_request (9 ∷ []) (8 ∷ [])
    × RoundTrips set_sasl_request (9 ∷ []) (8 ∷ [])
    × RoundTrips set_sasl_response (9 ∷ []) (8 ∷ [])
    × RoundTrips whoami_response (9 ∷ []) (8 ∷ [])
admin_round_trip_example =
    admin_round_trip reconfig_request get_sasl_request set_sasl_request set_sasl_response
      whoami_response (9 ∷ []) (8 ∷ []) reconfig_request-CanSend get_sasl_request-CanSend
      set_sasl_request-CanSend set_sasl_response-CanSend whoami_response-CanSend

-- ===== src/Runs/Messages/Acls.antt =====
-- The messages of `Acls` at concrete values.
use zksrv.Base.{[], ◌∷◌, refl, arith}
use zksrv.Text.{is_utf8}
use zksrv.Bytes.Concrete.{concrete}
use zksrv.Jute.Conform.{string_encodable, bytes_encodable, vec_encodable}
use zksrv.Jute.Traits.{CanSend, RoundTrips}
use zksrv.Runs.Data.{path}
use zksrv.Proto.Acls.RoundTrip.{acls_round_trip}
use zksrv.Proto.Acls.{
  GetAclRequest, get_acl_request_serialize, get_acl_request_deserialize, SetAclRequest,
  set_acl_request_serialize, set_acl_request_deserialize, SetAclResponse,
  set_acl_response_serialize, set_acl_response_deserialize, GetAclResponse,
  get_acl_response_serialize, get_acl_response_deserialize,
}
use zksrv.Proto.Acls.Wire.{
  get_acl_request_encodable, set_acl_request_encodable, set_acl_response_encodable,
  get_acl_response_encodable,
}
use zksrv.Proto.Ids.Wire.{acl_encodable, auth_id_encodable}
use zksrv.Proto.Stats.Wire.{stat_encodable}

abbrev get_acl_request : GetAclRequest
get_acl_request = record { path = path }

get_acl_request-CanSend : CanSend get_acl_request
unfolding get_acl_request_encodable string_encodable is_utf8
get_acl_request-CanSend = (refl, omega arith, (omega arith, (omega arith, tt)))

abbrev set_acl_request : SetAclRequest
set_acl_request = record {
  path = path;
  acl = (record { perms = 1; id = record { scheme = path; id = path } } ∷ []);
  version = 2;
}

set_acl_request-CanSend : CanSend set_acl_request
unfolding set_acl_request_encodable acl_encodable auth_id_encodable string_encodable is_utf8
    vec_encodable
set_acl_request-CanSend = (
  (refl, omega arith, (omega arith, (omega arith, tt))),
  (
    (
      omega arith,
      (
        (
          omega arith,
          (
            (refl, omega arith, (omega arith, (omega arith, tt))),
            (refl, omega arith, (omega arith, (omega arith, tt))),
          ),
        ),
        tt,
      ),
    ),
    omega arith,
  ),
)

abbrev set_acl_response : SetAclResponse
set_acl_response = record {
  stat = record {
    czxid = 3;
    mzxid = 4;
    ctime = 5;
    mtime = 6;
    version = 7;
    cversion = 8;
    aversion = 9;
    ephemeral_owner = 10;
    data_length = 11;
    num_children = 12;
    pzxid = 13;
  };
}

set_acl_response-CanSend : CanSend set_acl_response
unfolding set_acl_response_encodable stat_encodable
set_acl_response-CanSend = (
  omega arith,
  (
    omega arith,
    (
      omega arith,
      (
        omega arith,
        (
          omega arith,
          (omega arith, (omega arith, (omega arith, (omega arith, (omega arith, omega arith))))),
        ),
      ),
    ),
  ),
)

abbrev get_acl_response : GetAclResponse
get_acl_response = record {
  acl = (record { perms = 14; id = record { scheme = path; id = path } } ∷ []);
  stat = record {
    czxid = 15;
    mzxid = 16;
    ctime = 17;
    mtime = 18;
    version = 19;
    cversion = 20;
    aversion = 21;
    ephemeral_owner = 22;
    data_length = 23;
    num_children = 24;
    pzxid = 25;
  };
}

get_acl_response-CanSend : CanSend get_acl_response
unfolding get_acl_response_encodable acl_encodable auth_id_encodable stat_encodable string_encodable
    is_utf8 vec_encodable
get_acl_response-CanSend = (
  (
    omega arith,
    (
      (
        omega arith,
        (
          (refl, omega arith, (omega arith, (omega arith, tt))),
          (refl, omega arith, (omega arith, (omega arith, tt))),
        ),
      ),
      tt,
    ),
  ),
  (
    omega arith,
    (
      omega arith,
      (
        omega arith,
        (
          omega arith,
          (
            omega arith,
            (omega arith, (omega arith, (omega arith, (omega arith, (omega arith, omega arith))))),
          ),
        ),
      ),
    ),
  ),
)

acls_round_trip_example :
    RoundTrips get_acl_request (9 ∷ []) (8 ∷ [])
    × RoundTrips set_acl_request (9 ∷ []) (8 ∷ [])
    × RoundTrips set_acl_response (9 ∷ []) (8 ∷ [])
    × RoundTrips get_acl_response (9 ∷ []) (8 ∷ [])
acls_round_trip_example =
    acls_round_trip get_acl_request set_acl_request set_acl_response get_acl_response (9 ∷ [])
      (8 ∷ []) get_acl_request-CanSend set_acl_request-CanSend set_acl_response-CanSend
      get_acl_response-CanSend

-- ===== src/Runs/Messages/Create.antt =====
-- The messages of `Create` at concrete values.
use zksrv.Base.{[], ◌∷◌, refl, arith}
use zksrv.Text.{is_utf8}
use zksrv.Bytes.Concrete.{concrete}
use zksrv.Jute.Conform.{string_encodable, bytes_encodable, vec_encodable}
use zksrv.Jute.Traits.{CanSend, RoundTrips}
use zksrv.Runs.Data.{path}
use zksrv.Proto.Create.RoundTrip.{create_round_trip}
use zksrv.Proto.Create.{
  CreateRequest, create_request_serialize, create_request_deserialize, CreateTtlRequest,
  create_ttl_request_serialize, create_ttl_request_deserialize, DeleteRequest,
  delete_request_serialize, delete_request_deserialize, CreateResponse, create_response_serialize,
  create_response_deserialize, Create2Response, create2_response_serialize,
  create2_response_deserialize,
}
use zksrv.Proto.Create.Wire.{
  create_request_encodable, create_ttl_request_encodable, delete_request_encodable,
  create_response_encodable, create2_response_encodable,
}
use zksrv.Proto.Ids.Wire.{acl_encodable, auth_id_encodable}
use zksrv.Proto.Stats.Wire.{stat_encodable}

abbrev create_request : CreateRequest
create_request = record {
  path = path;
  data_bytes = (1 ∷ 2 ∷ []);
  acl = (record { perms = 1; id = record { scheme = path; id = path } } ∷ []);
  flags = 2;
}

create_request-CanSend : CanSend create_request
unfolding create_request_encodable acl_encodable auth_id_encodable string_encodable is_utf8
    bytes_encodable vec_encodable
create_request-CanSend = (
  (refl, omega arith, (omega arith, (omega arith, tt))),
  (
    (omega arith, (omega arith, (omega arith, tt))),
    (
      (
        omega arith,
        (
          (
            omega arith,
            (
              (refl, omega arith, (omega arith, (omega arith, tt))),
              (refl, omega arith, (omega arith, (omega arith, tt))),
            ),
          ),
          tt,
        ),
      ),
      omega arith,
    ),
  ),
)

abbrev create_ttl_request : CreateTtlRequest
create_ttl_request = record {
  path = path;
  data_bytes = (1 ∷ 2 ∷ []);
  acl = (record { perms = 3; id = record { scheme = path; id = path } } ∷ []);
  flags = 4;
  ttl = 5;
}

create_ttl_request-CanSend : CanSend create_ttl_request
unfolding create_ttl_request_encodable acl_encodable auth_id_encodable string_encodable is_utf8
    bytes_encodable vec_encodable
create_ttl_request-CanSend = (
  (refl, omega arith, (omega arith, (omega arith, tt))),
  (
    (omega arith, (omega arith, (omega arith, tt))),
    (
      (
        omega arith,
        (
          (
            omega arith,
            (
              (refl, omega arith, (omega arith, (omega arith, tt))),
              (refl, omega arith, (omega arith, (omega arith, tt))),
            ),
          ),
          tt,
        ),
      ),
      (omega arith, omega arith),
    ),
  ),
)

abbrev delete_request : DeleteRequest
delete_request = record { path = path; version = 6 }

delete_request-CanSend : CanSend delete_request
unfolding delete_request_encodable string_encodable is_utf8
delete_request-CanSend = ((refl, omega arith, (omega arith, (omega arith, tt))), omega arith)

abbrev create_response : CreateResponse
create_response = record { path = path }

create_response-CanSend : CanSend create_response
unfolding create_response_encodable string_encodable is_utf8
create_response-CanSend = (refl, omega arith, (omega arith, (omega arith, tt)))

abbrev create2_response : Create2Response
create2_response = record {
  path = path;
  stat = record {
    czxid = 7;
    mzxid = 8;
    ctime = 9;
    mtime = 10;
    version = 11;
    cversion = 12;
    aversion = 13;
    ephemeral_owner = 14;
    data_length = 15;
    num_children = 16;
    pzxid = 17;
  };
}

create2_response-CanSend : CanSend create2_response
unfolding create2_response_encodable stat_encodable string_encodable is_utf8
create2_response-CanSend = (
  (refl, omega arith, (omega arith, (omega arith, tt))),
  (
    omega arith,
    (
      omega arith,
      (
        omega arith,
        (
          omega arith,
          (
            omega arith,
            (omega arith, (omega arith, (omega arith, (omega arith, (omega arith, omega arith))))),
          ),
        ),
      ),
    ),
  ),
)

create_round_trip_example :
    RoundTrips create_request (9 ∷ []) (8 ∷ [])
    × RoundTrips create_ttl_request (9 ∷ []) (8 ∷ [])
    × RoundTrips delete_request (9 ∷ []) (8 ∷ [])
    × RoundTrips create_response (9 ∷ []) (8 ∷ [])
    × RoundTrips create2_response (9 ∷ []) (8 ∷ [])
create_round_trip_example =
    create_round_trip create_request create_ttl_request delete_request create_response
      create2_response (9 ∷ []) (8 ∷ []) create_request-CanSend create_ttl_request-CanSend
      delete_request-CanSend create_response-CanSend create2_response-CanSend

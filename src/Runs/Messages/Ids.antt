-- ===== src/Runs/Messages/Ids.antt =====
-- The messages of `Ids` at concrete values.
use zksrv.Base.{[], ◌∷◌, refl, arith}
use zksrv.Text.{is_utf8}
use zksrv.Bytes.Concrete.{concrete}
use zksrv.Jute.Conform.{string_encodable, bytes_encodable, vec_encodable}
use zksrv.Jute.Traits.{CanSend, RoundTrips}
use zksrv.Runs.Data.{path}
use zksrv.Proto.Ids.RoundTrip.{ids_round_trip}
use zksrv.Proto.Ids.{
  AuthId, auth_id_serialize, auth_id_deserialize, Acl, acl_serialize, acl_deserialize, ClientInfo,
  client_info_serialize, client_info_deserialize,
}
use zksrv.Proto.Ids.Wire.{auth_id_encodable, acl_encodable, client_info_encodable}

abbrev auth_id : AuthId
auth_id = record { scheme = path; id = path }

auth_id-CanSend : CanSend auth_id
unfolding auth_id_encodable string_encodable is_utf8
auth_id-CanSend = (
  (refl, omega arith, (omega arith, (omega arith, tt))),
  (refl, omega arith, (omega arith, (omega arith, tt))),
)

abbrev acl : Acl
acl = record { perms = 1; id = record { scheme = path; id = path } }

acl-CanSend : CanSend acl
unfolding acl_encodable auth_id_encodable string_encodable is_utf8
acl-CanSend = (
  omega arith,
  (
    (refl, omega arith, (omega arith, (omega arith, tt))),
    (refl, omega arith, (omega arith, (omega arith, tt))),
  ),
)

abbrev client_info : ClientInfo
client_info = record { auth_scheme = path; user = path }

client_info-CanSend : CanSend client_info
unfolding client_info_encodable string_encodable is_utf8
client_info-CanSend = (
  (refl, omega arith, (omega arith, (omega arith, tt))),
  (refl, omega arith, (omega arith, (omega arith, tt))),
)

ids_round_trip_example :
    RoundTrips auth_id (9 ∷ []) (8 ∷ [])
    × RoundTrips acl (9 ∷ []) (8 ∷ [])
    × RoundTrips client_info (9 ∷ []) (8 ∷ [])
ids_round_trip_example =
    ids_round_trip auth_id acl client_info (9 ∷ []) (8 ∷ []) auth_id-CanSend acl-CanSend
      client_info-CanSend

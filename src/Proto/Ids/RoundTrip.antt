-- ===== src/Proto/Ids/RoundTrip.antt =====
-- proto.rs: the messages of `Ids` are written and read back.
use zksrv.Base.{ℕ, List}
use zksrv.Bytes.{ByteOps}
use zksrv.Jute.Traits.{CanSend, RoundTrips, round_trips}
use zksrv.Proto.Ids.{
  AuthId, auth_id_serialize, auth_id_deserialize, Acl, acl_serialize, acl_deserialize, ClientInfo,
  client_info_serialize, client_info_deserialize,
}
use zksrv.Proto.Ids.Wire.{
  auth_id_encodable, auth_id_conforms, acl_encodable, acl_conforms, client_info_encodable,
  client_info_conforms,
}

module _ ⦃b : ByteOps⦄ where
  -- Values of `AuthId`, `Acl` and `ClientInfo` whose integers fit their widths, whose texts are
  -- UTF-8, and whose lengths are below 2 ^ 31, are each written at the end of any buffer as
  -- `size` many bytes, and read back from these bytes whatever follows them, which is left.
  pub ids_round_trip :
      (auth_id : AuthId) (acl : Acl) (client_info : ClientInfo) (out rest : List ℕ)
      → CanSend auth_id
      → CanSend acl
      → CanSend client_info
      → RoundTrips auth_id out rest × RoundTrips acl out rest × RoundTrips client_info out rest
  ids_round_trip auth_id acl client_info out rest h0 h1 h2 = (
    round_trips auth_id out rest h0,
    round_trips acl out rest h1,
    round_trips client_info out rest h2,
  )

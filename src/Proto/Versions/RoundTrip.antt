-- ===== src/Proto/Versions/RoundTrip.antt =====
-- proto.rs: the messages of `Versions` are written and read back.
use zksrv.Base.{ℕ, List}
use zksrv.Bytes.{ByteOps}
use zksrv.Jute.Traits.{CanSend, RoundTrips, round_trips}
use zksrv.Proto.Versions.{
  CheckVersionRequest, check_version_request_serialize, check_version_request_deserialize,
  SyncRequest, sync_request_serialize, sync_request_deserialize, SyncResponse,
  sync_response_serialize, sync_response_deserialize,
}
use zksrv.Proto.Versions.Wire.{
  check_version_request_encodable, check_version_request_conforms, sync_request_encodable,
  sync_request_conforms, sync_response_encodable, sync_response_conforms,
}

module _ ⦃b : ByteOps⦄ where
  -- Values of `CheckVersionRequest`, `SyncRequest` and `SyncResponse` whose integers fit their
  -- widths, whose texts are UTF-8, and whose lengths are below 2 ^ 31, are each written at the
  -- end of any buffer as `size` many bytes, and read back from these bytes whatever follows
  -- them, which is left.
  pub versions_round_trip :
      (check_version_request : CheckVersionRequest) (sync_request : SyncRequest)
      (sync_response : SyncResponse) (out rest : List ℕ)
      → CanSend check_version_request
      → CanSend sync_request
      → CanSend sync_response
      → RoundTrips check_version_request out rest
        × RoundTrips sync_request out rest
        × RoundTrips sync_response out rest
  versions_round_trip check_version_request sync_request sync_response out rest h0 h1 h2 = (
    round_trips check_version_request out rest h0,
    round_trips sync_request out rest h1,
    round_trips sync_response out rest h2,
  )

-- ===== src/Proto/Watches/RoundTrip.antt =====
-- proto.rs: the messages of `Watches` are written and read back.
use zksrv.Base.{ℕ, List}
use zksrv.Bytes.{ByteOps}
use zksrv.Jute.Traits.{CanSend, RoundTrips, round_trips}
use zksrv.Proto.Watches.{
  SetWatches, set_watches_serialize, set_watches_deserialize, SetWatches2, set_watches2_serialize,
  set_watches2_deserialize, AddWatchRequest, add_watch_request_serialize,
  add_watch_request_deserialize, WatcherEvent, watcher_event_serialize, watcher_event_deserialize,
  CheckWatchesRequest, check_watches_request_serialize, check_watches_request_deserialize,
  RemoveWatchesRequest, remove_watches_request_serialize, remove_watches_request_deserialize,
}
use zksrv.Proto.Watches.Wire.{
  set_watches_encodable, set_watches_conforms, set_watches2_encodable, set_watches2_conforms,
  add_watch_request_encodable, add_watch_request_conforms, watcher_event_encodable,
  watcher_event_conforms, check_watches_request_encodable, check_watches_request_conforms,
  remove_watches_request_encodable, remove_watches_request_conforms,
}

module _ ⦃b : ByteOps⦄ where
  -- Values of `SetWatches`, `SetWatches2`, `AddWatchRequest`, `WatcherEvent`,
  -- `CheckWatchesRequest` and `RemoveWatchesRequest` whose integers fit their widths, whose
  -- texts are UTF-8, and whose lengths are below 2 ^ 31, are each written at the end of any
  -- buffer as `size` many bytes, and read back from these bytes whatever follows them, which is
  -- left.
  pub watches_round_trip :
      (set_watches : SetWatches) (set_watches2 : SetWatches2) (add_watch_request : AddWatchRequest)
      (watcher_event : WatcherEvent) (check_watches_request : CheckWatchesRequest)
      (remove_watches_request : RemoveWatchesRequest) (out rest : List ℕ)
      → CanSend set_watches
      → CanSend set_watches2
      → CanSend add_watch_request
      → CanSend watcher_event
      → CanSend check_watches_request
      → CanSend remove_watches_request
      → RoundTrips set_watches out rest
        × RoundTrips set_watches2 out rest
        × RoundTrips add_watch_request out rest
        × RoundTrips watcher_event out rest
        × RoundTrips check_watches_request out rest
        × RoundTrips remove_watches_request out rest
  watches_round_trip set_watches set_watches2 add_watch_request watcher_event check_watches_request
        remove_watches_request out rest h0 h1 h2 h3 h4 h5 =
      (
        round_trips set_watches out rest h0,
        round_trips set_watches2 out rest h1,
        round_trips add_watch_request out rest h2,
        round_trips watcher_event out rest h3,
        round_trips check_watches_request out rest h4,
        round_trips remove_watches_request out rest h5,
      )

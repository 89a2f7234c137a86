-- ===== src/Runs/Messages/Watches.antt =====
-- The messages of `Watches` at concrete values.
use zksrv.Base.{[], ◌∷◌, refl, arith}
use zksrv.Text.{is_utf8}
use zksrv.Bytes.Concrete.{concrete}
use zksrv.Jute.Conform.{string_encodable, bytes_encodable, vec_encodable}
use zksrv.Jute.Traits.{CanSend, RoundTrips}
use zksrv.Runs.Data.{path}
use zksrv.Proto.Watches.RoundTrip.{watches_round_trip}
use zksrv.Proto.Watches.{
  SetWatches, set_watches_serialize, set_watches_deserialize, SetWatches2, set_watches2_serialize,
  set_watches2_deserialize, AddWatchRequest, add_watch_request_serialize,
  add_watch_request_deserialize, WatcherEvent, watcher_event_serialize, watcher_event_deserialize,
  CheckWatchesRequest, check_watches_request_serialize, check_watches_request_deserialize,
  RemoveWatchesRequest, remove_watches_request_serialize, remove_watches_request_deserialize,
}
use zksrv.Proto.Watches.Wire.{
  set_watches_encodable, set_watches2_encodable, add_watch_request_encodable,
  watcher_event_encodable, check_watches_request_encodable, remove_watches_request_encodable,
}

abbrev set_watches : SetWatches
set_watches = record {
  relative_zxid = 1;
  data_watches = (path ∷ []);
  exist_watches = (path ∷ []);
  child_watches = (path ∷ []);
}

set_watches-CanSend : CanSend set_watches
unfolding set_watches_encodable string_encodable is_utf8 vec_encodable
set_watches-CanSend = (
  omega arith,
  (
    (omega arith, ((refl, omega arith, (omega arith, (omega arith, tt))), tt)),
    (
      (omega arith, ((refl, omega arith, (omega arith, (omega arith, tt))), tt)),
      (omega arith, ((refl, omega arith, (omega arith, (omega arith, tt))), tt)),
    ),
  ),
)

abbrev set_watches2 : SetWatches2
set_watches2 = record {
  relative_zxid = 2;
  data_watches = (path ∷ []);
  exist_watches = (path ∷ []);
  child_watches = (path ∷ []);
  persistent_watches = (path ∷ []);
  persistent_recursive_watches = (path ∷ []);
}

set_watches2-CanSend : CanSend set_watches2
unfolding set_watches2_encodable string_encodable is_utf8 vec_encodable
set_watches2-CanSend = (
  omega arith,
  (
    (omega arith, ((refl, omega arith, (omega arith, (omega arith, tt))), tt)),
    (
      (omega arith, ((refl, omega arith, (omega arith, (omega arith, tt))), tt)),
      (
        (omega arith, ((refl, omega arith, (omega arith, (omega arith, tt))), tt)),
        (
          (omega arith, ((refl, omega arith, (omega arith, (omega arith, tt))), tt)),
          (omega arith, ((refl, omega arith, (omega arith, (omega arith, tt))), tt)),
        ),
      ),
    ),
  ),
)

abbrev add_watch_request : AddWatchRequest
add_watch_request = record { path = path; mode = 3 }

add_watch_request-CanSend : CanSend add_watch_request
unfolding add_watch_request_encodable string_encodable is_utf8
add_watch_request-CanSend = ((refl, omega arith, (omega arith, (omega arith, tt))), omega arith)

abbrev watcher_event : WatcherEvent
watcher_event = record { type = 4; state = 5; path = path }

watcher_event-CanSend : CanSend watcher_event
unfolding watcher_event_encodable string_encodable is_utf8
watcher_event-CanSend =
    (omega arith, (omega arith, (refl, omega arith, (omega arith, (omega arith, tt)))))

abbrev check_watches_request : CheckWatchesRequest
check_watches_request = record { path = path; type = 6 }

check_watches_request-CanSend : CanSend check_watches_request
unfolding check_watches_request_encodable string_encodable is_utf8
check_watches_request-CanSend = ((refl, omega arith, (omega arith, (omega arith, tt))), omega arith)

abbrev remove_watches_request : RemoveWatchesRequest
remove_watches_request = record { path = path; type = 7 }

remove_watches_request-CanSend : CanSend remove_watches_request
unfolding remove_watches_request_encodable string_encodable is_utf8
remove_watches_request-CanSend =
    ((refl, omega arith, (omega arith, (omega arith, tt))), omega arith)

watches_round_trip_example :
    RoundTrips set_watches (9 ∷ []) (8 ∷ [])
    × RoundTrips set_watches2 (9 ∷ []) (8 ∷ [])
    × RoundTrips add_watch_request (9 ∷ []) (8 ∷ [])
    × RoundTrips watcher_event (9 ∷ []) (8 ∷ [])
    × RoundTrips check_watches_request (9 ∷ []) (8 ∷ [])
    × RoundTrips remove_watches_request (9 ∷ []) (8 ∷ [])
watches_round_trip_example =
    watches_round_trip set_watches set_watches2 add_watch_request watcher_event
      check_watches_request remove_watches_request (9 ∷ []) (8 ∷ []) set_watches-CanSend
      set_watches2-CanSend add_watch_request-CanSend watcher_event-CanSend
      check_watches_request-CanSend remove_watches_request-CanSend

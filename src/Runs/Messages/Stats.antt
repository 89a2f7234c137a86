-- ===== src/Runs/Messages/Stats.antt =====
-- The messages of `Stats` at concrete values.
use zksrv.Base.{[], ◌∷◌, arith}
use zksrv.Bytes.Concrete.{concrete}
use zksrv.Jute.Conform.{string_encodable, bytes_encodable, vec_encodable}
use zksrv.Jute.Traits.{CanSend, RoundTrips}
use zksrv.Proto.Stats.RoundTrip.{stats_round_trip}
use zksrv.Proto.Stats.{
  Stat, stat_serialize, stat_deserialize, StatPersisted, stat_persisted_serialize,
  stat_persisted_deserialize,
}
use zksrv.Proto.Stats.Wire.{stat_encodable, stat_persisted_encodable}

abbrev stat : Stat
stat = record {
  czxid = 1;
  mzxid = 2;
  ctime = 3;
  mtime = 4;
  version = 5;
  cversion = 6;
  aversion = 7;
  ephemeral_owner = 8;
  data_length = 9;
  num_children = 10;
  pzxid = 11;
}

stat-CanSend : CanSend stat
unfolding stat_encodable
stat-CanSend = (
  omega arith,
  (
    omega arith,
    (
      omega arith,
      (
        omega arith,
        (
          omega arith,
          (omega arith, (omega arith, (omega arith, (omega arith, (omega arith, omega arith))))),
        ),
      ),
    ),
  ),
)

abbrev stat_persisted : StatPersisted
stat_persisted = record {
  czxid = 12;
  mzxid = 13;
  ctime = 14;
  mtime = 15;
  version = 16;
  cversion = 17;
  aversion = 18;
  ephemeral_owner = 19;
  pzxid = 20;
}

stat_persisted-CanSend : CanSend stat_persisted
unfolding stat_persisted_encodable
stat_persisted-CanSend = (
  omega arith,
  (
    omega arith,
    (
      omega arith,
      (omega arith, (omega arith, (omega arith, (omega arith, (omega arith, omega arith))))),
    ),
  ),
)

stats_round_trip_example :
    RoundTrips stat (9 ∷ []) (8 ∷ []) × RoundTrips stat_persisted (9 ∷ []) (8 ∷ [])
stats_round_trip_example =
    stats_round_trip stat stat_persisted (9 ∷ []) (8 ∷ []) stat-CanSend stat_persisted-CanSend

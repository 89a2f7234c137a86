-- ===== src/Proto/Stats/RoundTrip.antt =====
-- proto.rs: the messages of `Stats` are written and read back.
use zksrv.Base.{ℕ, List}
use zksrv.Bytes.{ByteOps}
use zksrv.Jute.Traits.{CanSend, RoundTrips, round_trips}
use zksrv.Proto.Stats.{
  Stat, stat_serialize, stat_deserialize, StatPersisted, stat_persisted_serialize,
  stat_persisted_deserialize,
}
use zksrv.Proto.Stats.Wire.{
  stat_encodable, stat_conforms, stat_persisted_encodable, stat_persisted_conforms,
}

module _ ⦃b : ByteOps⦄ where
  -- Values of `Stat` and `StatPersisted` whose integers fit their widths, whose texts are UTF-8,
  -- and whose lengths are below 2 ^ 31, are each written at the end of any buffer as `size` many
  -- bytes, and read back from these bytes whatever follows them, which is left.
  pub stats_round_trip :
      (stat : Stat) (stat_persisted : StatPersisted) (out rest : List ℕ)
      → CanSend stat
      → CanSend stat_persisted
      → RoundTrips stat out rest × RoundTrips stat_persisted out rest
  stats_round_trip stat stat_persisted out rest h0 h1 =
      (round_trips stat out rest h0, round_trips stat_persisted out rest h1)

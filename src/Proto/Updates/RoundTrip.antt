-- ===== src/Proto/Updates/RoundTrip.antt =====
-- proto.rs: the messages of `Updates` are written and read back.
use zksrv.Base.{ℕ, List}
use zksrv.Bytes.{ByteOps}
use zksrv.Jute.Traits.{CanSend, RoundTrips, round_trips}
use zksrv.Proto.Updates.{
  SetDataTxn, set_data_txn_serialize, set_data_txn_deserialize, CheckVersionTxn,
  check_version_txn_serialize, check_version_txn_deserialize, SetAclTxn, set_acl_txn_serialize,
  set_acl_txn_deserialize, SetMaxChildrenTxn, set_max_children_txn_serialize,
  set_max_children_txn_deserialize, CreateSessionTxn, create_session_txn_serialize,
  create_session_txn_deserialize, CloseSessionTxn, close_session_txn_serialize,
  close_session_txn_deserialize, ErrorTxn, error_txn_serialize, error_txn_deserialize, Txn,
  txn_serialize, txn_deserialize, MultiTxn, multi_txn_serialize, multi_txn_deserialize,
}
use zksrv.Proto.Updates.Wire.{
  set_data_txn_encodable, set_data_txn_conforms, check_version_txn_encodable,
  check_version_txn_conforms, set_acl_txn_encodable, set_acl_txn_conforms,
  set_max_children_txn_encodable, set_max_children_txn_conforms, create_session_txn_encodable,
  create_session_txn_conforms, close_session_txn_encodable, close_session_txn_conforms,
  error_txn_encodable, error_txn_conforms, txn_encodable, txn_conforms, multi_txn_encodable,
  multi_txn_conforms,
}

module _ ⦃b : ByteOps⦄ where
  -- Values of `SetDataTxn`, `CheckVersionTxn`, `SetAclTxn`, `SetMaxChildrenTxn`,
  -- `CreateSessionTxn`, `CloseSessionTxn`, `ErrorTxn`, `Txn` and `MultiTxn` whose integers fit
  -- their widths, whose texts are UTF-8, and whose lengths are below 2 ^ 31, are each written at
  -- the end of any buffer as `size` many bytes, and read back from these bytes whatever follows
  -- them, which is left.
  pub updates_round_trip :
      (set_data_txn : SetDataTxn) (check_version_txn : CheckVersionTxn) (set_acl_txn : SetAclTxn)
      (set_max_children_txn : SetMaxChildrenTxn) (create_session_txn : CreateSessionTxn)
      (close_session_txn : CloseSessionTxn) (error_txn : ErrorTxn) (txn : Txn)
      (multi_txn : MultiTxn) (out rest : List ℕ)
      → CanSend set_data_txn
      → CanSend check_version_txn
      → CanSend set_acl_txn
      → CanSend set_max_children_txn
      → CanSend create_session_txn
      → CanSend close_session_txn
      → CanSend error_txn
      → CanSend txn
      → CanSend multi_txn
      → RoundTrips set_data_txn out rest
        × RoundTrips check_version_txn out rest
        × RoundTrips set_acl_txn out rest
        × RoundTrips set_max_children_txn out rest
        × RoundTrips create_session_txn out rest
        × RoundTrips close_session_txn out rest
        × RoundTrips error_txn out rest
        × RoundTrips txn out rest
        × RoundTrips multi_txn out rest
  updates_round_trip set_data_txn check_version_txn set_acl_txn set_max_children_txn
        create_session_txn close_session_txn error_txn txn multi_txn out rest h0 h1 h2 h3 h4 h5 h6
        h7 h8 =
      (
        round_trips set_data_txn out rest h0,
        round_trips check_version_txn out rest h1,
        round_trips set_acl_txn out rest h2,
        round_trips set_max_children_txn out rest h3,
        round_trips create_session_txn out rest h4,
        round_trips close_session_txn out rest h5,
        round_trips error_txn out rest h6,
        round_trips txn out rest h7,
        round_trips multi_txn out rest h8,
      )

-- ===== src/Runs/Messages/Updates.antt =====
-- The messages of `Updates` at concrete values.
use zksrv.Base.{[], ◌∷◌, refl, arith}
use zksrv.Text.{is_utf8}
use zksrv.Bytes.Concrete.{concrete}
use zksrv.Jute.Conform.{string_encodable, bytes_encodable, vec_encodable}
use zksrv.Jute.Traits.{CanSend, RoundTrips}
use zksrv.Runs.Data.{path}
use zksrv.Proto.Updates.RoundTrip.{updates_round_trip}
use zksrv.Proto.Updates.{
  SetDataTxn, set_data_txn_serialize, set_data_txn_deserialize, CheckVersionTxn,
  check_version_txn_serialize, check_version_txn_deserialize, SetAclTxn, set_acl_txn_serialize,
  set_acl_txn_deserialize, SetMaxChildrenTxn, set_max_children_txn_serialize,
  set_max_children_txn_deserialize, CreateSessionTxn, create_session_txn_serialize,
  create_session_txn_deserialize, CloseSessionTxn, close_session_txn_serialize,
  close_session_txn_deserialize, ErrorTxn, error_txn_serialize, error_txn_deserialize, Txn,
  txn_serialize, txn_deserialize, MultiTxn, multi_txn_serialize, multi_txn_deserialize,
}
use zksrv.Proto.Updates.Wire.{
  set_data_txn_encodable, check_version_txn_encodable, set_acl_txn_encodable,
  set_max_children_txn_encodable, create_session_txn_encodable, close_session_txn_encodable,
  error_txn_encodable, txn_encodable, multi_txn_encodable,
}
use zksrv.Proto.Ids.Wire.{acl_encodable, auth_id_encodable}

abbrev set_data_txn : SetDataTxn
set_data_txn = record { path = path; data_bytes = (1 ∷ 2 ∷ []); version = 1 }

set_data_txn-CanSend : CanSend set_data_txn
unfolding set_data_txn_encodable string_encodable is_utf8 bytes_encodable
set_data_txn-CanSend = (
  (refl, omega arith, (omega arith, (omega arith, tt))),
  ((omega arith, (omega arith, (omega arith, tt))), omega arith),
)

abbrev check_version_txn : CheckVersionTxn
check_version_txn = record { path = path; version = 2 }

check_version_txn-CanSend : CanSend check_version_txn
unfolding check_version_txn_encodable string_encodable is_utf8
check_version_txn-CanSend = ((refl, omega arith, (omega arith, (omega arith, tt))), omega arith)

abbrev set_acl_txn : SetAclTxn
set_acl_txn = record {
  path = path;
  acl = (record { perms = 3; id = record { scheme = path; id = path } } ∷ []);
  version = 4;
}

set_acl_txn-CanSend : CanSend set_acl_txn
unfolding set_acl_txn_encodable acl_encodable auth_id_encodable string_encodable is_utf8
    vec_encodable
set_acl_txn-CanSend = (
  (refl, omega arith, (omega arith, (omega arith, tt))),
  (
    (
      omega arith,
      (
        (
          omega arith,
          (
            (refl, omega arith, (omega arith, (omega arith, tt))),
            (refl, omega arith, (omega arith, (omega arith, tt))),
          ),
        ),
        tt,
      ),
    ),
    omega arith,
  ),
)

abbrev set_max_children_txn : SetMaxChildrenTxn
set_max_children_txn = record { path = path; max = 5 }

set_max_children_txn-CanSend : CanSend set_max_children_txn
unfolding set_max_children_txn_encodable string_encodable is_utf8
set_max_children_txn-CanSend = ((refl, omega arith, (omega arith, (omega arith, tt))), omega arith)

abbrev create_session_txn : CreateSessionTxn
create_session_txn = record { time_out = 6 }

create_session_txn-CanSend : CanSend create_session_txn
unfolding create_session_txn_encodable
create_session_txn-CanSend = omega arith

abbrev close_session_txn : CloseSessionTxn
close_session_txn = record { paths2_delete = (path ∷ []) }

close_session_txn-CanSend : CanSend close_session_txn
unfolding close_session_txn_encodable string_encodable is_utf8 vec_encodable
close_session_txn-CanSend =
    (omega arith, ((refl, omega arith, (omega arith, (omega arith, tt))), tt))

abbrev error_txn : ErrorTxn
error_txn = record { err = 7 }

error_txn-CanSend : CanSend error_txn
unfolding error_txn_encodable
error_txn-CanSend = omega arith

abbrev txn : Txn
txn = record { type = 8; data_bytes = (1 ∷ 2 ∷ []) }

txn-CanSend : CanSend txn
unfolding txn_encodable bytes_encodable
txn-CanSend = (omega arith, (omega arith, (omega arith, (omega arith, tt))))

abbrev multi_txn : MultiTxn
multi_txn = record { txns = (record { type = 9; data_bytes = (1 ∷ 2 ∷ []) } ∷ []) }

multi_txn-CanSend : CanSend multi_txn
unfolding multi_txn_encodable txn_encodable bytes_encodable vec_encodable
multi_txn-CanSend =
    (omega arith, ((omega arith, (omega arith, (omega arith, (omega arith, tt)))), tt))

updates_round_trip_example :
    RoundTrips set_data_txn (9 ∷ []) (8 ∷ [])
    × RoundTrips check_version_txn (9 ∷ []) (8 ∷ [])
    × RoundTrips set_acl_txn (9 ∷ []) (8 ∷ [])
    × RoundTrips set_max_children_txn (9 ∷ []) (8 ∷ [])
    × RoundTrips create_session_txn (9 ∷ []) (8 ∷ [])
    × RoundTrips close_session_txn (9 ∷ []) (8 ∷ [])
    × RoundTrips error_txn (9 ∷ []) (8 ∷ [])
    × RoundTrips txn (9 ∷ []) (8 ∷ [])
    × RoundTrips multi_txn (9 ∷ []) (8 ∷ [])
updates_round_trip_example =
    updates_round_trip set_data_txn check_version_txn set_acl_txn set_max_children_txn
      create_session_txn close_session_txn error_txn txn multi_txn (9 ∷ []) (8 ∷ [])
      set_data_txn-CanSend check_version_txn-CanSend set_acl_txn-CanSend
      set_max_children_txn-CanSend create_session_txn-CanSend close_session_txn-CanSend
      error_txn-CanSend txn-CanSend multi_txn-CanSend

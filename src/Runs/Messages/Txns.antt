-- ===== src/Runs/Messages/Txns.antt =====
-- The messages of `Txns` at concrete values.
use zksrv.Base.{[], ◌∷◌, refl, arith}
use zksrv.Text.{is_utf8}
use zksrv.Bytes.Concrete.{concrete}
use zksrv.Jute.Conform.{string_encodable, bytes_encodable, vec_encodable}
use zksrv.Jute.Traits.{CanSend, RoundTrips}
use zksrv.Runs.Data.{path}
use zksrv.Proto.Txns.RoundTrip.{txns_round_trip}
use zksrv.Proto.Txns.{
  TxnDigest, txn_digest_serialize, txn_digest_deserialize, TxnHeader, txn_header_serialize,
  txn_header_deserialize, CreateTxnV0, create_txn_v0_serialize, create_txn_v0_deserialize,
  CreateTxn, create_txn_serialize, create_txn_deserialize, CreateTtlTxn, create_ttl_txn_serialize,
  create_ttl_txn_deserialize, CreateContainerTxn, create_container_txn_serialize,
  create_container_txn_deserialize, DeleteTxn, delete_txn_serialize, delete_txn_deserialize,
}
use zksrv.Proto.Txns.Wire.{
  txn_digest_encodable, txn_header_encodable, create_txn_v0_encodable, create_txn_encodable,
  create_ttl_txn_encodable, create_container_txn_encodable, delete_txn_encodable,
}
use zksrv.Proto.Ids.Wire.{acl_encodable, auth_id_encodable}

abbrev txn_digest : TxnDigest
txn_digest = record { version = 1; tree_digest = 2 }

txn_digest-CanSend : CanSend txn_digest
unfolding txn_digest_encodable
txn_digest-CanSend = (omega arith, omega arith)

abbrev txn_header : TxnHeader
txn_header = record { client_id = 3; cxid = 4; zxid = 5; time = 6; type = 7 }

txn_header-CanSend : CanSend txn_header
unfolding txn_header_encodable
txn_header-CanSend = (omega arith, (omega arith, (omega arith, (omega arith, omega arith))))

abbrev create_txn_v0 : CreateTxnV0
create_txn_v0 = record {
  path = path;
  data_bytes = (1 ∷ 2 ∷ []);
  acl = (record { perms = 8; id = record { scheme = path; id = path } } ∷ []);
  ephemeral = 9;
}

create_txn_v0-CanSend : CanSend create_txn_v0
unfolding create_txn_v0_encodable acl_encodable auth_id_encodable string_encodable is_utf8
    bytes_encodable vec_encodable
create_txn_v0-CanSend = (
  (refl, omega arith, (omega arith, (omega arith, tt))),
  (
    (omega arith, (omega arith, (omega arith, tt))),
    (
      (
        omega arith,
        (
          (
            omega arith,
            (
              (refl, omega arith, (omega arith, (omega arith, tt))),
              (refl, omega arith, (omega arith, (omega arith, tt))),
            ),
          ),
          tt,
        ),
      ),
      omega arith,
    ),
  ),
)

abbrev create_txn : CreateTxn
create_txn = record {
  path = path;
  data_bytes = (1 ∷ 2 ∷ []);
  acl = (record { perms = 10; id = record { scheme = path; id = path } } ∷ []);
  ephemeral = 11;
  parent_c_version = 12;
}

create_txn-CanSend : CanSend create_txn
unfolding create_txn_encodable acl_encodable auth_id_encodable string_encodable is_utf8
    bytes_encodable vec_encodable
create_txn-CanSend = (
  (refl, omega arith, (omega arith, (omega arith, tt))),
  (
    (omega arith, (omega arith, (omega arith, tt))),
    (
      (
        omega arith,
        (
          (
            omega arith,
            (
              (refl, omega arith, (omega arith, (omega arith, tt))),
              (refl, omega arith, (omega arith, (omega arith, tt))),
            ),
          ),
          tt,
        ),
      ),
      (omega arith, omega arith),
    ),
  ),
)

abbrev create_ttl_txn : CreateTtlTxn
create_ttl_txn = record {
  path = path;
  data_bytes = (1 ∷ 2 ∷ []);
  acl = (record { perms = 13; id = record { scheme = path; id = path } } ∷ []);
  parent_c_version = 14;
  ttl = 15;
}

create_ttl_txn-CanSend : CanSend create_ttl_txn
unfolding create_ttl_txn_encodable acl_encodable auth_id_encodable string_encodable is_utf8
    bytes_encodable vec_encodable
create_ttl_txn-CanSend = (
  (refl, omega arith, (omega arith, (omega arith, tt))),
  (
    (omega arith, (omega arith, (omega arith, tt))),
    (
      (
        omega arith,
        (
          (
            omega arith,
            (
              (refl, omega arith, (omega arith, (omega arith, tt))),
              (refl, omega arith, (omega arith, (omega arith, tt))),
            ),
          ),
          tt,
        ),
      ),
      (omega arith, omega arith),
    ),
  ),
)

abbrev create_container_txn : CreateContainerTxn
create_container_txn = record {
  path = path;
  data_bytes = (1 ∷ 2 ∷ []);
  acl = (record { perms = 16; id = record { scheme = path; id = path } } ∷ []);
  parent_c_version = 17;
}

create_container_txn-CanSend : CanSend create_container_txn
unfolding create_container_txn_encodable acl_encodable auth_id_encodable string_encodable is_utf8
    bytes_encodable vec_encodable
create_container_txn-CanSend = (
  (refl, omega arith, (omega arith, (omega arith, tt))),
  (
    (omega arith, (omega arith, (omega arith, tt))),
    (
      (
        omega arith,
        (
          (
            omega arith,
            (
              (refl, omega arith, (omega arith, (omega arith, tt))),
              (refl, omega arith, (omega arith, (omega arith, tt))),
            ),
          ),
          tt,
        ),
      ),
      omega arith,
    ),
  ),
)

abbrev delete_txn : DeleteTxn
delete_txn = record { path = path }

delete_txn-CanSend : CanSend delete_txn
unfolding delete_txn_encodable string_encodable is_utf8
delete_txn-CanSend = (refl, omega arith, (omega arith, (omega arith, tt)))

txns_round_trip_example :
    RoundTrips txn_digest (9 ∷ []) (8 ∷ [])
    × RoundTrips txn_header (9 ∷ []) (8 ∷ [])
    × RoundTrips create_txn_v0 (9 ∷ []) (8 ∷ [])
    × RoundTrips create_txn (9 ∷ []) (8 ∷ [])
    × RoundTrips create_ttl_txn (9 ∷ []) (8 ∷ [])
    × RoundTrips create_container_txn (9 ∷ []) (8 ∷ [])
    × RoundTrips delete_txn (9 ∷ []) (8 ∷ [])
txns_round_trip_example =
    txns_round_trip txn_digest txn_header create_txn_v0 create_txn create_ttl_txn
      create_container_txn delete_txn (9 ∷ []) (8 ∷ []) txn_digest-CanSend txn_header-CanSend
      create_txn_v0-CanSend create_txn-CanSend create_ttl_txn-CanSend create_container_txn-CanSend
      delete_txn-CanSend

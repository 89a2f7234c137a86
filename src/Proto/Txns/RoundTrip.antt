-- ===== src/Proto/Txns/RoundTrip.antt =====
-- proto.rs: the messages of `Txns` are written and read back.
use zksrv.Base.{ℕ, List}
use zksrv.Bytes.{ByteOps}
use zksrv.Jute.Traits.{CanSend, RoundTrips, round_trips}
use zksrv.Proto.Txns.{
  TxnDigest, txn_digest_serialize, txn_digest_deserialize, TxnHeader, txn_header_serialize,
  txn_header_deserialize, CreateTxnV0, create_txn_v0_serialize, create_txn_v0_deserialize,
  CreateTxn, create_txn_serialize, create_txn_deserialize, CreateTtlTxn, create_ttl_txn_serialize,
  create_ttl_txn_deserialize, CreateContainerTxn, create_container_txn_serialize,
  create_container_txn_deserialize, DeleteTxn, delete_txn_serialize, delete_txn_deserialize,
}
use zksrv.Proto.Txns.Wire.{
  txn_digest_encodable, txn_digest_conforms, txn_header_encodable, txn_header_conforms,
  create_txn_v0_encodable, create_txn_v0_conforms, create_txn_encodable, create_txn_conforms,
  create_ttl_txn_encodable, create_ttl_txn_conforms, create_container_txn_encodable,
  create_container_txn_conforms, delete_txn_encodable, delete_txn_conforms,
}

module _ ⦃b : ByteOps⦄ where
  -- Values of `TxnDigest`, `TxnHeader`, `CreateTxnV0`, `CreateTxn`, `CreateTtlTxn`,
  -- `CreateContainerTxn` and `DeleteTxn` whose integers fit their widths, whose texts are UTF-8,
  -- and whose lengths are below 2 ^ 31, are each written at the end of any buffer as `size` many
  -- bytes, and read back from these bytes whatever follows them, which is left.
  pub txns_round_trip :
      (txn_digest : TxnDigest) (txn_header : TxnHeader) (create_txn_v0 : CreateTxnV0)
      (create_txn : CreateTxn) (create_ttl_txn : CreateTtlTxn)
      (create_container_txn : CreateContainerTxn) (delete_txn : DeleteTxn) (out rest : List ℕ)
      → CanSend txn_digest
      → CanSend txn_header
      → CanSend create_txn_v0
      → CanSend create_txn
      → CanSend create_ttl_txn
      → CanSend create_container_txn
      → CanSend delete_txn
      → RoundTrips txn_digest out rest
        × RoundTrips txn_header out rest
        × RoundTrips create_txn_v0 out rest
        × RoundTrips create_txn out rest
        × RoundTrips create_ttl_txn out rest
        × RoundTrips create_container_txn out rest
        × RoundTrips delete_txn out rest
  txns_round_trip txn_digest txn_header create_txn_v0 create_txn create_ttl_txn create_container_txn
        delete_txn out rest h0 h1 h2 h3 h4 h5 h6 =
      (
        round_trips txn_digest out rest h0,
        round_trips txn_header out rest h1,
        round_trips create_txn_v0 out rest h2,
        round_trips create_txn out rest h3,
        round_trips create_ttl_txn out rest h4,
        round_trips create_container_txn out rest h5,
        round_trips delete_txn out rest h6,
      )

-- ===== src/Proto/Connect/Wire.antt =====
-- proto.rs: the schemas that the records of `Connect` are sent by, and read by up to the last byte.
use zksrv.Base.{ℕ, List, append_assoc, length-append, length-to_be_bytes, arith, ◌≡◌}
use zksrv.Bytes.{ByteOps}
use zksrv.Buf.{pure, ◌>>=◌, bind_assoc, pure-bind}
use zksrv.Buf.Ops.Laws.{put_i32-bind, put_i64-bind, put_u8-bind}
use zksrv.Record.{bytes_serialize, bytes_deserialize, deserialize}
use zksrv.Jute.{Jute, int, long, byte, ◌⊗◌, Value, reader}
use zksrv.Jute.Conform.{
  Encodable, serialize_into-bind, bytes_encodable, bytes_conforms, schema_of, view_of,
}
use zksrv.Proto.Connect.{
  ConnectRequest, ConnectResponse, connect_request_serialize, connect_request_deserialize,
  connect_response_serialize, connect_response_deserialize, get_read_only,
}

module _ ⦃b : ByteOps⦄ where
  instance unfoldable pub connect_request_encodable : Encodable ConnectRequest
  unfolding connect_request_serialize pure
  connect_request_encodable = record {
    schema = (int ⊗ long ⊗ int ⊗ long ⊗ (schema_of (List ℕ))) ⊗ byte;
    view = λ r. (
      (r.protocol_version, (r.last_zxid_seen, (r.time_out, (r.session_id, view_of r.passwd)))),
      r.read_only,
    );
    serialize_lem =
        λ r buf. simp (put_i32-bind, put_i64-bind, put_u8-bind, serialize_into-bind, append_assoc);
    size_lem =
        λ r. simp (length-append, length-to_be_bytes, bytes_encodable.size_lem) (omega arith);
  }

  instance unfoldable pub connect_response_encodable : Encodable ConnectResponse
  unfolding connect_response_serialize pure
  connect_response_encodable = record {
    schema = (int ⊗ int ⊗ long ⊗ (schema_of (List ℕ))) ⊗ byte;
    view = λ r. ((r.protocol_version, (r.time_out, (r.session_id, view_of r.passwd))), r.read_only);
    serialize_lem =
        λ r buf. simp (put_i32-bind, put_i64-bind, put_u8-bind, serialize_into-bind, append_assoc);
    size_lem =
        λ r. simp (length-append, length-to_be_bytes, bytes_encodable.size_lem) (omega arith);
  }

  -- What stands before the last byte.
  abbrev pub request_head : Jute
  request_head = int ⊗ long ⊗ int ⊗ long ⊗ (schema_of (List ℕ))

  abbrev pub response_head : Jute
  response_head = int ⊗ int ⊗ long ⊗ (schema_of (List ℕ))

  -- A request from what stands before its last byte and a flag.
  abbrev pub connect_request : Value request_head → ℕ → ConnectRequest
  connect_request v flag = record {
    protocol_version = v.0;
    last_zxid_seen = v.1.0;
    time_out = v.1.1.0;
    session_id = v.1.1.1.0;
    passwd = bytes_conforms.unview v.1.1.1.1;
    read_only = flag;
  }

  abbrev pub connect_response : Value response_head → ℕ → ConnectResponse
  connect_response v flag = record {
    protocol_version = v.0;
    time_out = v.1.0;
    session_id = v.1.1.0;
    passwd = bytes_conforms.unview v.1.1.1;
    read_only = flag;
  }

  pub connect_request-reader :
      deserialize {A = ConnectRequest}
      ≡ (reader request_head >>= λ v. get_read_only >>= λ flag. pure (connect_request v flag))
  unfolding connect_request_deserialize
  connect_request-reader = simp (bytes_conforms.deserialize_lem, bind_assoc, pure-bind)

  pub connect_response-reader :
      deserialize {A = ConnectResponse}
      ≡ (reader response_head >>= λ v. get_read_only >>= λ flag. pure (connect_response v flag))
  unfolding connect_response_deserialize
  connect_response-reader = simp (bytes_conforms.deserialize_lem, bind_assoc, pure-bind)

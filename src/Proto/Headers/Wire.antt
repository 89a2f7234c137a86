-- ===== src/Proto/Headers/Wire.antt =====
-- proto.rs: the schemas that the records of `Headers` are sent by.
use zksrv.Base.{ℕ, List, refl, append_assoc, arith, length-append, length-to_be_bytes}
use zksrv.Text.{String}
use zksrv.Bytes.{ByteOps}
use zksrv.Buf.{pure, bind_assoc, pure-bind}
use zksrv.Buf.Ops.Laws.{put_i32-bind, put_i64-bind, put_u8-bind}
use zksrv.Record.{bytes_deserialize, bytes_serialize, string_deserialize, string_serialize}
use zksrv.Jute.{byte, int, long, ◌⊗◌}
use zksrv.Jute.Conform.{
  Encodable, Conforms, bytes_conforms, bytes_encodable, schema_of, serialize_into-bind,
  string_conforms, string_encodable, unview_of, view_of,
}
use zksrv.Proto.Headers.{
  RequestHeader, request_header_serialize, request_header_deserialize, MultiHeader,
  multi_header_serialize, multi_header_deserialize, ReplyHeader, reply_header_serialize,
  reply_header_deserialize, AuthPacket, auth_packet_serialize, auth_packet_deserialize,
  ErrorResponse, error_response_serialize, error_response_deserialize,
}

module _ ⦃b : ByteOps⦄ where
  instance unfoldable pub request_header_encodable : Encodable RequestHeader
  unfolding request_header_serialize pure
  request_header_encodable = record {
    schema = int ⊗ int;
    view = λ r. (r.xid, r.type);
    serialize_lem = λ r buf. simp (put_i32-bind, append_assoc);
    size_lem = λ r. simp (length-append, length-to_be_bytes);
  }

  instance unfoldable pub request_header_conforms : Conforms RequestHeader
  unfolding request_header_encodable request_header_deserialize
  request_header_conforms = record {
    unview = λ v. record { xid = v.0; type = v.1 };
    unview-view = λ r. refl;
    view-unview = λ v. refl;
    deserialize_lem = simp (bind_assoc, pure-bind);
  }

  instance unfoldable pub multi_header_encodable : Encodable MultiHeader
  unfolding multi_header_serialize pure
  multi_header_encodable = record {
    schema = int ⊗ byte ⊗ int;
    view = λ r. (r.type, (r.done, r.err));
    serialize_lem = λ r buf. simp (put_i32-bind, put_u8-bind, append_assoc);
    size_lem = λ r. simp (length-append, length-to_be_bytes) (omega arith);
  }

  instance unfoldable pub multi_header_conforms : Conforms MultiHeader
  unfolding multi_header_encodable multi_header_deserialize
  multi_header_conforms = record {
    unview = λ v. record { type = v.0; done = v.1.0; err = v.1.1 };
    unview-view = λ r. refl;
    view-unview = λ v. refl;
    deserialize_lem = simp (bind_assoc, pure-bind);
  }

  instance unfoldable pub reply_header_encodable : Encodable ReplyHeader
  unfolding reply_header_serialize pure
  reply_header_encodable = record {
    schema = int ⊗ long ⊗ int;
    view = λ r. (r.xid, (r.zxid, r.err));
    serialize_lem = λ r buf. simp (put_i32-bind, put_i64-bind, append_assoc);
    size_lem = λ r. simp (length-append, length-to_be_bytes) (omega arith);
  }

  instance unfoldable pub reply_header_conforms : Conforms ReplyHeader
  unfolding reply_header_encodable reply_header_deserialize
  reply_header_conforms = record {
    unview = λ v. record { xid = v.0; zxid = v.1.0; err = v.1.1 };
    unview-view = λ r. refl;
    view-unview = λ v. refl;
    deserialize_lem = simp (bind_assoc, pure-bind);
  }

  instance unfoldable pub auth_packet_encodable : Encodable AuthPacket
  unfolding auth_packet_serialize pure
  auth_packet_encodable = record {
    schema = int ⊗ (schema_of String) ⊗ (schema_of (List ℕ));
    view = λ r. (r.type, (view_of r.scheme, view_of r.auth));
    serialize_lem = λ r buf. simp (put_i32-bind, serialize_into-bind, append_assoc);
    size_lem = λ r.
        simp
          (length-append, length-to_be_bytes, string_encodable.size_lem, bytes_encodable.size_lem)
          (omega arith);
  }

  instance unfoldable pub auth_packet_conforms : Conforms AuthPacket
  unfolding auth_packet_encodable auth_packet_deserialize
  auth_packet_conforms = record {
    unview = λ v. record { type = v.0; scheme = unview_of v.1.0; auth = unview_of v.1.1 };
    unview-view = λ r. simp (string_conforms.unview-view, bytes_conforms.unview-view);
    view-unview = λ v. simp (string_conforms.view-unview, bytes_conforms.view-unview);
    deserialize_lem =
        simp
          (string_conforms.deserialize_lem, bytes_conforms.deserialize_lem, bind_assoc, pure-bind);
  }

  instance unfoldable pub error_response_encodable : Encodable ErrorResponse
  unfolding error_response_serialize pure
  error_response_encodable = record {
    schema = int;
    view = λ r. r.err;
    serialize_lem = λ r buf. simp put_i32-bind;
    size_lem = λ r. simp length-to_be_bytes;
  }

  instance unfoldable pub error_response_conforms : Conforms ErrorResponse
  unfolding error_response_encodable error_response_deserialize
  error_response_conforms = record {
    unview = λ v. record { err = v };
    unview-view = λ r. refl;
    view-unview = λ v. refl;
    deserialize_lem = refl;
  }

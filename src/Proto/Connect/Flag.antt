-- ===== src/Proto/Connect/Flag.antt =====
-- The last byte of the messages that open a session, `read_only`, which is read only if another
-- byte follows it.
use zksrv.Base.{
  ℕ, [], ◌<◌, ◌≡◌, ◌∙◌, List, ◌∷◌, ◌++◌, append_assoc, length, length-append, length-to_be_bytes,
  to_be_bytes, arith, lt→ltb, ge→ltb,
}
use zksrv.Errors.{ZkError, ok}
use zksrv.Bytes.{ByteOps}
use zksrv.Buf.{Buf, pure, ◌>>=◌, bind-ok}
use zksrv.Buf.Ops.{remaining, get_u8}
use zksrv.Record.{serialize_into, deserialize}
use zksrv.Record.Laws.{fixed-append}
use zksrv.Jute.{Jute, Value, IsSendable, encode, reader}
use zksrv.Jute.RoundTrip.{reader-encode}
use zksrv.Jute.Conform.{encoding, bytes_conforms}
use zksrv.Jute.Traits.{CanSend}
use zksrv.Proto.Connect.{
  ConnectRequest, ConnectResponse, get_read_only, connect_request_serialize,
  connect_request_deserialize, connect_response_serialize, connect_response_deserialize,
}
use zksrv.Proto.Connect.Wire.{
  connect_request_encodable, connect_response_encodable, request_head, response_head,
  connect_request, connect_response, connect_request-reader, connect_response-reader,
}

module _ ⦃b : ByteOps⦄ where
  -- One byte is left where it stands.
  get_read_only-short : (buf : List ℕ) → length buf < 2 → get_read_only buf ≡ ok (0, buf)
  unfolding get_read_only remaining pure ◌>>=◌
  get_read_only-short buf h = rw (ge→ltb 1 (length buf) (omega arith))

  get_read_only-long :
      (v x : ℕ) (rest : List ℕ)
      → v < 256
      → get_read_only (to_be_bytes 1 v ++ (x ∷ rest)) ≡ ok (v, x ∷ rest)
  unfolding get_read_only remaining get_u8 ◌>>=◌
  get_read_only-long v x rest h =
      let long : 1 < length (to_be_bytes 1 v ++ (x ∷ rest)) =
        omega (arith, length-append (to_be_bytes 1 v) (x ∷ rest), length-to_be_bytes 1 v) in
      rw (lt→ltb 1 _ long) (fixed-append 1 b.get_u8 b.get_u8_lem v (x ∷ rest) h)

  short_flag : (v : ℕ) → length (to_be_bytes 1 v) < 2
  short_flag v = omega (arith, length-to_be_bytes 1 v)

  -- A head, then the flag's byte.
  module _ {A : Type 0} (j : Jute) (make : Value j → ℕ → A) (v : Value j)
      (sendable : IsSendable j v) where
    abbrev read_flagged : Buf ZkError A
    read_flagged = reader j >>= λ v. get_read_only >>= λ flag. pure (make v flag)

    flag_ignored :
        (buf : List ℕ) → length buf < 2 → read_flagged (encode j v ++ buf) ≡ ok (make v 0, buf)
    unfolding pure
    flag_ignored buf h =
        bind-ok (reader j) _ _ (reader-encode j v sendable buf)
        ∙ bind-ok get_read_only _ buf (get_read_only-short buf h)

    flag_read :
        (flag x : ℕ) (rest : List ℕ)
        → flag < 256
        → read_flagged (encode j v ++ (to_be_bytes 1 flag ++ (x ∷ rest)))
          ≡ ok (make v flag, x ∷ rest)
    unfolding pure
    flag_read flag x rest h =
        bind-ok (reader j) _ _ (reader-encode j v sendable _)
        ∙ bind-ok get_read_only _ _ (get_read_only-long flag x rest h)

  request_lost :
      (r : ConnectRequest)
      → CanSend r
      → deserialize (encoding r) ≡ ok (record r { read_only = 0 }, to_be_bytes 1 r.read_only)
  unfolding connect_request_encodable
  request_lost r (head, flag) = rw connect_request-reader (
      flag_ignored request_head connect_request _ head (to_be_bytes 1 r.read_only)
        (short_flag r.read_only)
      ∙ rw bytes_conforms.unview-view)

  response_lost :
      (r : ConnectResponse)
      → CanSend r
      → deserialize (encoding r) ≡ ok (record r { read_only = 0 }, to_be_bytes 1 r.read_only)
  unfolding connect_response_encodable
  response_lost r (head, flag) = rw connect_response-reader (
      flag_ignored response_head connect_response _ head (to_be_bytes 1 r.read_only)
        (short_flag r.read_only)
      ∙ rw bytes_conforms.unview-view)

  request_read :
      (r : ConnectRequest) (x : ℕ) (rest : List ℕ)
      → CanSend r
      → deserialize (encoding r ++ (x ∷ rest)) ≡ ok (r, x ∷ rest)
  unfolding connect_request_encodable
  request_read r x rest (head, flag) =
      rw (connect_request-reader, append_assoc)
        (flag_read request_head connect_request _ head r.read_only x rest flag
          ∙ rw bytes_conforms.unview-view)

  -- A request to open a session that can be sent is written to an empty buffer, and is read back from
  -- it with the flag `read_only` cleared, whatever the flag was; the byte of the flag is left unread.
  pub connect_request_flag_lost :
      (r : ConnectRequest)
      → CanSend r
      → (bs : List ℕ) × (serialize_into r [] ≡ ok (tt, bs))
        × (deserialize bs ≡ ok (record r { read_only = 0 }, to_be_bytes 1 r.read_only))
  connect_request_flag_lost r h =
      (encoding r, connect_request_encodable.serialize_lem r [], request_lost r h)

  -- A response that can be sent is written to an empty buffer, and is read back from it with the flag
  -- `read_only` cleared, whatever the flag was; the byte of the flag is left unread.
  pub connect_response_flag_lost :
      (r : ConnectResponse)
      → CanSend r
      → (bs : List ℕ) × (serialize_into r [] ≡ ok (tt, bs))
        × (deserialize bs ≡ ok (record r { read_only = 0 }, to_be_bytes 1 r.read_only))
  connect_response_flag_lost r h =
      (encoding r, connect_response_encodable.serialize_lem r [], response_lost r h)

  -- With another byte behind it, a request that can be sent is written at the end of any buffer and
  -- read back with its flag, and what is behind it is left.
  pub connect_request_flag_read :
      (r : ConnectRequest) (out : List ℕ) (x : ℕ) (rest : List ℕ)
      → CanSend r
      → (bs : List ℕ) × (serialize_into r out ≡ ok (tt, out ++ bs))
        × (deserialize (bs ++ (x ∷ rest)) ≡ ok (r, x ∷ rest))
  connect_request_flag_read r out x rest h =
      (encoding r, connect_request_encodable.serialize_lem r out, request_read r x rest h)

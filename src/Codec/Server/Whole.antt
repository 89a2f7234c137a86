-- ===== src/Codec/Server/Whole.antt =====
-- codec.rs: packets that were written are read back by `decode_inner`.
use zksrv.Base.{
  ℕ, ◌^◌, ◌<◌, ◌≤◌, ◌≡◌, refl, ap, ◌∙◌, Option, none, some, List, [], ◌++◌, append_assoc, length,
  length-append, to_be_bytes, length-to_be_bytes, arith,
}
use zksrv.Errors.{ZkError, ok}
use zksrv.Bytes.{ByteOps}
use zksrv.Buf.{Buf, pure, ◌>>=◌, bind-ok}
use zksrv.Buf.Ops.{get_i32, assert_empty}
use zksrv.Record.{deserialize}
use zksrv.Constants.{Codes, OpCodes, XidCodes, op_number, xid_number}
use zksrv.Jute.Traits.{CanSend}
use zksrv.Proto.Headers.{
  RequestHeader, request_header_serialize, AuthPacket, auth_packet_serialize,
  auth_packet_deserialize,
}
use zksrv.Proto.Headers.Wire.{request_header_encodable, auth_packet_encodable, auth_packet_conforms}
use zksrv.Proto.Watches.{SetWatches, set_watches_serialize, set_watches_deserialize}
use zksrv.Proto.Watches.Wire.{set_watches_encodable, set_watches_conforms}
use zksrv.Codec.Request.{Request}
use zksrv.Codec.Request.Wire.{encode_request}
use zksrv.Codec.Packet.{RequestPacket}
use zksrv.Codec.Packet.Wire.{encode_packet}
use zksrv.Codec.Server.{packet, dispatch, decode_data, decode_xid, decode_inner}
use zksrv.Codec.Server.Header.{
  ensure_min_length_bytes-ok, peek_i32-append, get_i32-append, header_bytes,
}
use zksrv.Codec.Server.Reading.{DataRequest, read_request-encode, message}

-- An xid that is no control xid, or that of a watch, which `decode_inner` treats alike.
abbrev pub IsDataXid : ℕ → Type 0
IsDataXid xid = (x : XidCodes) → xid_number x ≡ xid → x ≡ XidCodes.watch

module _ ⦃b : ByteOps⦄ ⦃c : Codes⦄ where
  -- The packets, but for those that open a session, that the server side of the proxy accepts.
  pub data IsPacket : RequestPacket → Type 0 where
    data_request :
        {h : RequestHeader} {o : OpCodes} {r : Request}
        → CanSend h
        → IsDataXid h.xid
        → op_number o ≡ h.type
        → DataRequest o r
        → IsPacket (record { request_header = some h; request = r })
    ping_request :
        {h : RequestHeader}
        → CanSend h
        → xid_number XidCodes.ping ≡ h.xid
        → IsPacket (record { request_header = some h; request = Request.ping })
    auth_request :
        {h : RequestHeader} {req : AuthPacket}
        → CanSend h
        → xid_number XidCodes.auth ≡ h.xid
        → CanSend req
        → IsPacket (record { request_header = some h; request = Request.auth req })
    set_watches_request :
        {h : RequestHeader} {req : SetWatches}
        → CanSend h
        → xid_number XidCodes.set_watches ≡ h.xid
        → CanSend req
        → IsPacket (record { request_header = some h; request = Request.set_watches req })

  -- The bytes of a packet with a header, from its xid on.
  pub packet_bytes :
      (h : RequestHeader) (r : Request)
      → encode_packet (record { request_header = some h; request = r })
        ≡ to_be_bytes 4 h.xid ++ (to_be_bytes 4 h.type ++ encode_request r)
  unfolding encode_packet
  packet_bytes h r =
      ap (λ bs. bs ++ encode_request r) (header_bytes h) ∙ append_assoc (to_be_bytes 4 h.xid) _ _

  -- The two fields of a header are read off the front.
  two_fields :
      {A : Type 0} (h : RequestHeader) (rest : List ℕ) (f : ℕ → ℕ → Buf ZkError A)
      → CanSend h
      → (get_i32 >>= λ xid. get_i32 >>= λ type. f xid type)
          (to_be_bytes 4 h.xid ++ (to_be_bytes 4 h.type ++ rest))
        ≡ f h.xid h.type rest
  unfolding request_header_encodable
  two_fields h rest f (small, small') =
      bind-ok get_i32 _ _ (get_i32-append h.xid _ small)
      ∙ bind-ok get_i32 _ _ (get_i32-append h.type rest small')

  -- The checks in front pass, and leave the frame to the branch that its xid selects.
  select :
      (h : RequestHeader) (r : Request)
      → CanSend h
      → length (encode_packet (record { request_header = some h; request = r })) < 2 ^ 31
      → decode_inner (encode_packet (record { request_header = some h; request = r }))
        ≡ decode_xid h.xid
            (c.xids.from_i32 h.xid)
            (to_be_bytes 4 h.xid ++ (to_be_bytes 4 h.type ++ encode_request r))
  unfolding decode_inner request_header_encodable
  select h r (small, small') fits =
      let bs = to_be_bytes 4 h.xid ++ (to_be_bytes 4 h.type ++ encode_request r) in
      let long : 8 ≤ length bs = omega (
        arith,
        length-append (to_be_bytes 4 h.xid) (to_be_bytes 4 h.type ++ encode_request r),
        length-append (to_be_bytes 4 h.type) (encode_request r),
        length-to_be_bytes 4 h.xid,
        length-to_be_bytes 4 h.type,
      ) in
      let fits' : length bs < 2 ^ 31 = rw packet_bytes at fits in
      ap decode_inner (packet_bytes h r)
      ∙ bind-ok _ _ bs (ensure_min_length_bytes-ok 8 bs long fits')
      ∙ bind-ok _ _ bs (peek_i32-append h.xid _ small)

  control :
      (x : XidCodes) (h : RequestHeader) → xid_number x ≡ h.xid → c.xids.from_i32 h.xid ≡ some x
  control x h e = (c.xids.from_i32_lem h.xid x).1 e

  data_branch : (xid : ℕ) → IsDataXid xid → decode_xid xid (c.xids.from_i32 xid) ≡ decode_data
  unfolding decode_xid
  data_branch xid h = split (c.xids.from_i32 xid) refl
    where
      split : (o : Option XidCodes) → c.xids.from_i32 xid ≡ o → decode_xid xid o ≡ decode_data
      split none e = refl
      split (some x) e = rw (h x ((c.xids.from_i32_lem xid x).0 e))

  -- A packet that the server side accepts - a data request under the code of its operation, or a
  -- ping, an authentication or a setting of watches under its own xid, with values that can be
  -- sent - is read back by `decode_inner` from the bytes that it is written as, if these are fewer
  -- than 2 ^ 31, and nothing of them is left.
  pub decode_inner-encode :
      {p : RequestPacket}
      → IsPacket p
      → length (encode_packet p) < 2 ^ 31
      → decode_inner (encode_packet p) ≡ ok (some p, [])
  unfolding decode_xid decode_data dispatch assert_empty pure encode_request
  decode_inner-encode (data_request {h = h} {o = o} {r = r} good xid code announced) fits =
      select h r good fits
      ∙ ap
          (λ (m : Buf ZkError (Option RequestPacket)).
            m (to_be_bytes 4 h.xid ++ (to_be_bytes 4 h.type ++ encode_request r)))
          (data_branch h.xid xid)
      ∙ two_fields h _ (λ xid type. dispatch (c.ops.from_i32 type) xid type) good
      ∙ ap (λ o. dispatch o h.xid h.type (encode_request r)) ((c.ops.from_i32_lem h.type o).1 code)
      ∙ bind-ok _ _ _ (read_request-encode announced)
  decode_inner-encode (ping_request {h = h} good xid) fits =
      select h Request.ping good fits
      ∙ ap
          (λ o.
            decode_xid h.xid o
              (to_be_bytes 4 h.xid ++ (to_be_bytes 4 h.type ++ encode_request Request.ping)))
          (control XidCodes.ping h xid)
      ∙ two_fields h (encode_request Request.ping)
          (λ _ type. assert_empty >>= λ _. pure (packet h.xid type Request.ping)) good
      ∙ bind-ok assert_empty _ _ refl
  decode_inner-encode (auth_request {h = h} {req = req} good xid good') fits =
      select h (Request.auth req) good fits
      ∙ ap
          (λ o.
            decode_xid h.xid o
              (to_be_bytes 4 h.xid ++ (to_be_bytes 4 h.type ++ encode_request (Request.auth req))))
          (control XidCodes.auth h xid)
      ∙ two_fields h (encode_request (Request.auth req))
          (λ _ type. deserialize >>= λ req.
            assert_empty >>= λ _. pure (packet h.xid type (Request.auth req)))
          good
      ∙ bind-ok deserialize _ _ (message req good')
      ∙ bind-ok assert_empty _ _ refl
  decode_inner-encode (set_watches_request {h = h} {req = req} good xid good') fits =
      select h (Request.set_watches req) good fits
      ∙ ap
          (λ o. decode_xid h.xid o (
            to_be_bytes 4 h.xid
            ++ (to_be_bytes 4 h.type ++ encode_request (Request.set_watches req))))
          (control XidCodes.set_watches h xid)
      ∙ two_fields h (encode_request (Request.set_watches req))
          (λ _ type. deserialize >>= λ req.
            assert_empty >>= λ _. pure (packet h.xid type (Request.set_watches req)))
          good
      ∙ bind-ok deserialize _ _ (message req good')
      ∙ bind-ok assert_empty _ _ refl

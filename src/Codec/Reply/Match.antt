-- ===== src/Codec/Reply/Match.antt =====
-- codec.rs: a reply is read by the operation of the request that it answers.
use zksrv.Base.{
  ℕ, ◌^◌, ◌<◌, ◌≤◌, ◌≡◌, ◌≢◌, refl, ap, ◌∙◌, subst, none, some, List, ◌++◌, append_assoc, length,
  length-append, length-to_be_bytes, to_be_bytes, ◌==◌, ==_iff, Option-cases, Bool-cases, inl, inr,
  arith,
}
use zksrv.Errors.{decode_error, ok}
use zksrv.Bytes.{ByteOps}
use zksrv.Buf.{pure, bind-ok}
use zksrv.Buf.Ops.{get_i32, get_i64}
use zksrv.Record.Laws.{fixed-append}
use zksrv.Constants.{Codes, OpCodes, XidCodes, op_number, xid_number}
use zksrv.Jute.Conform.{encoding}
use zksrv.Jute.Traits.{CanSend}
use zksrv.Proto.Headers.{RequestHeader, ReplyHeader, reply_header_serialize}
use zksrv.Proto.Headers.Wire.{reply_header_encodable}
use zksrv.Codec.Request.{ok_or}
use zksrv.Codec.Packet.{RequestPacket}
use zksrv.Codec.Server.{ensure_min_length_bytes, peek_i32}
use zksrv.Codec.Server.Header.{ensure_min_length_bytes-ok, peek_i32-append, get_i32-append}
use zksrv.Codec.Client.{DashMap, encode}
use zksrv.Codec.Client.Wire.{encode-get}
use zksrv.Codec.Response.{ZkResponse, empty, read_response}
use zksrv.Codec.Reply.{reply, data_reply, reply_body, headed_reply, reply_in, decode_reply}

module _ ⦃b : ByteOps⦄ ⦃c : Codes⦄ ⦃d : DashMap⦄ where
  no_control : (xid : ℕ) → ((x : XidCodes) → xid_number x ≢ xid) → c.xids.from_i32 xid ≡ none
  no_control xid h = elim (Option-cases (c.xids.from_i32 xid)) [
    | inl e ↦ e
    | inr (x, e) ↦ absurd (h x ((c.xids.from_i32_lem xid x).0 e))
  ]

  -- A reply with no control xid is left to its header.
  data_reply_lem :
      (map : d.Map) (r : ReplyHeader) (bs : List ℕ)
      → CanSend r
      → ((x : XidCodes) → xid_number x ≢ r.xid)
      → length (encoding r ++ bs) < 2 ^ 31
      → decode_reply map (encoding r ++ bs) ≡ data_reply map r bs
  unfolding decode_reply reply_in headed_reply reply_body reply_header_encodable get_i64
  data_reply_lem map r bs (small, (small', small'')) free fits =
      let rest = to_be_bytes 8 r.zxid ++ (to_be_bytes 4 r.err ++ bs) in
      let whole : encoding r ++ bs ≡ to_be_bytes 4 r.xid ++ rest = simp append_assoc in
      let long : 4 ≤ length (to_be_bytes 4 r.xid ++ rest) =
        omega (arith, length-append (to_be_bytes 4 r.xid) rest, length-to_be_bytes 4 r.xid) in
      let fits' : length (to_be_bytes 4 r.xid ++ rest) < 2 ^ 31 =
        subst (λ l. length l < 2 ^ 31) whole fits in
      ap (decode_reply map) whole
      ∙ bind-ok (ensure_min_length_bytes 4) _ _ (ensure_min_length_bytes-ok 4 _ long fits')
      ∙ bind-ok peek_i32 _ _ (peek_i32-append r.xid rest small)
      ∙ ap (λ o. reply_in map o (to_be_bytes 4 r.xid ++ rest)) (no_control r.xid free)
      ∙ bind-ok get_i32 _ _ (get_i32-append r.xid rest small)
      ∙ bind-ok get_i64 _ _ (fixed-append 8 b.get_i64 b.get_i64_lem r.zxid _ small')
      ∙ bind-ok get_i32 _ _ (get_i32-append r.err bs small'')

  -- After a request with a known operation and no control xid has been written, a frame of fewer
  -- than 2 ^ 31 bytes that has a header with its xid and no error, and bytes that are read as a
  -- response to the operation, is read as that response under that header.
  pub decode_reply-encode :
      (p : RequestPacket) (h : RequestHeader) (o : OpCodes) (map : d.Map) (dst : List ℕ)
      (r : ReplyHeader) (resp : ZkResponse) (bs rest : List ℕ)
      → p.request_header ≡ some h
      → op_number o ≡ h.type
      → CanSend r
      → r.xid ≡ h.xid
      → r.err ≡ 0
      → ((x : XidCodes) → xid_number x ≢ r.xid)
      → length (encoding r ++ bs) < 2 ^ 31
      → read_response o bs ≡ ok (resp, rest)
      → decode_reply (encode p map dst).0 (encoding r ++ bs) ≡ ok (reply r resp, rest)
  unfolding data_reply ok_or pure
  decode_reply-encode p h o map dst r resp bs rest header code good same no_err free fits read =
      let found : d.get r.xid (encode p map dst).0 ≡ some o =
        encode-get p h o map dst r.xid header code ∙ rw ((==_iff r.xid h.xid).1 same) refl in
      data_reply_lem (encode p map dst).0 r bs good free fits
      ∙ rw (data_reply, (==_iff r.err 0).1 no_err, found)
          (bind-ok (ok_or (some o) decode_error) _ bs refl ∙ bind-ok (read_response o) _ bs read)

  -- A frame of fewer than 2 ^ 31 bytes with a header that has an error and no control xid is read
  -- as an empty response under that header, whatever the map holds.
  pub decode_reply-error :
      (map : d.Map) (r : ReplyHeader) (bs : List ℕ)
      → CanSend r
      → r.err ≢ 0
      → ((x : XidCodes) → xid_number x ≢ r.xid)
      → length (encoding r ++ bs) < 2 ^ 31
      → decode_reply map (encoding r ++ bs) ≡ ok (reply r empty, bs)
  unfolding data_reply pure
  decode_reply-error map r bs good some_err free fits =
      data_reply_lem map r bs good free fits ∙ elim (Bool-cases (r.err == 0)) [
        | inl e ↦ absurd (some_err ((==_iff r.err 0).0 e))
        | inr e ↦ rw (data_reply, e) refl
      ]

-- ===== src/Codec/Server/Taken.antt =====
-- codec.rs: what `decode_inner` accepts, from its result back to the bytes.
use zksrv.Base.{
  ℕ, ◌≡◌, refl, sym, ap, ◌∙◌, subst, ◌⊎◌, inl, inr, Option, none, some, List, ◌++◌, append_assoc,
  to_be_bytes, All, IsByte,
}
use zksrv.Errors.{ZkError, ok, ok-injective}
use zksrv.Bytes.{ByteOps}
use zksrv.Buf.{Buf, pure, fail, ◌>>=◌, bind-eq-ok}
use zksrv.Buf.Ops.{get_i32, assert_empty}
use zksrv.Record.{Serialize, Deserialize, deserialize}
use zksrv.Constants.{Codes, OpCodes, XidCodes, xid_number}
use zksrv.Jute.Canonical.{rest-IsByte}
use zksrv.Jute.Conform.{Encodable, Conforms, encoding}
use zksrv.Jute.Traits.{CanSend, deserialize-Takes}
use zksrv.Proto.Connect.{ConnectRequest, connect_request_deserialize}
use zksrv.Proto.Headers.{
  RequestHeader, request_header_serialize, auth_packet_serialize, auth_packet_deserialize,
}
use zksrv.Proto.Headers.Wire.{request_header_encodable, auth_packet_encodable, auth_packet_conforms}
use zksrv.Proto.Watches.{set_watches_serialize, set_watches_deserialize}
use zksrv.Proto.Watches.Wire.{set_watches_encodable, set_watches_conforms}
use zksrv.Codec.Request.{Request}
use zksrv.Codec.Request.Wire.{encode_request}
use zksrv.Codec.Packet.{RequestPacket}
use zksrv.Codec.Packet.Wire.{encode_packet}
use zksrv.Codec.Server.{
  packet, read_request, dispatch, decode_data, decode_xid, decode_inner, ensure_min_length_bytes,
  peek_i32,
}
use zksrv.Codec.Server.Header.{
  ensure_min_length_bytes-eq-ok, peek_i32-get_i32, peek_i32-eq-ok, get_i32-eq-ok,
}
use zksrv.Codec.Server.Reading.{read_request-eq-ok, assert_empty-eq-ok}
use zksrv.Codec.Server.Whole.{
  IsDataXid, IsPacket, data_request, ping_request, auth_request, set_watches_request, packet_bytes,
}

module _ ⦃b : ByteOps⦄ ⦃c : Codes⦄ where
  -- A packet that can be sent, whose bytes were taken off the front.
  abbrev pub IsTaken : List ℕ → Option RequestPacket × List ℕ → Type 0
  IsTaken buf (o, rest) =
      (p : RequestPacket) × (o ≡ some p) × IsPacket p × (buf ≡ encode_packet p ++ rest)

  -- A request to open a session, as its own `deserialize` reads it.
  abbrev pub IsConnect : List ℕ → Option RequestPacket × List ℕ → Type 0
  IsConnect buf (o, rest) =
      (r : ConnectRequest) × (o
        ≡ some (record { request_header = none; request = Request.connect r }))
      × (deserialize buf ≡ ok (r, rest))

  taken :
      (buf mid : List ℕ) (h : RequestHeader) (r : Request) (rest : List ℕ)
      → IsPacket (record { request_header = some h; request = r })
      → buf ≡ to_be_bytes 4 h.xid ++ mid
      → mid ≡ to_be_bytes 4 h.type ++ (encode_request r ++ rest)
      → IsTaken buf (packet h.xid h.type r, rest)
  taken buf mid h r rest good front front' = (
    record { request_header = some h; request = r },
    refl,
    good,
    rw (packet_bytes, front, front') (simp append_assoc),
  )

  -- The two fields of a header, and what stands behind them.
  two_fields-eq-ok :
      {A : Type 0} (buf : List ℕ) (f : ℕ → ℕ → Buf ZkError A) (r : A × List ℕ)
      → All IsByte buf
      → (get_i32 >>= λ xid. get_i32 >>= λ type. f xid type) buf ≡ ok r
      → (h : RequestHeader) × (mid : List ℕ) × (rest : List ℕ) × CanSend h
        × (get_i32 {E = ZkError} buf ≡ ok (h.xid, mid))
        × (buf ≡ to_be_bytes 4 h.xid ++ mid)
        × (mid ≡ to_be_bytes 4 h.type ++ rest)
        × All IsByte rest
        × (f h.xid h.type rest ≡ ok r)
  unfolding request_header_encodable
  two_fields-eq-ok buf f r bytes h =
      let (xid, mid, got, h') = bind-eq-ok get_i32 _ buf h in
      let (type, rest, got', h'') = bind-eq-ok get_i32 _ mid h' in
      let (small, front) = get_i32-eq-ok buf bytes got in
      let bytes' = rest-IsByte (to_be_bytes 4 xid) mid bytes front in
      let (small', front') = get_i32-eq-ok mid bytes' got' in
      (
        record { xid = xid; type = type },
        mid,
        rest,
        (small, small'),
        got,
        front,
        front',
        rest-IsByte (to_be_bytes 4 type) rest bytes' front',
        h'',
      )

  decode_data-eq-ok :
      (buf : List ℕ) (r : Option RequestPacket × List ℕ)
      → All IsByte buf
      → ((xid : ℕ) (mid : List ℕ) → get_i32 {E = ZkError} buf ≡ ok (xid, mid) → IsDataXid xid)
      → decode_data buf ≡ ok r
      → IsTaken buf r
  unfolding decode_data dispatch pure fail
  decode_data-eq-ok buf r bytes xids h =
      let (header, mid, rest, good, got, front, front', bytes', h') =
        two_fields-eq-ok buf (λ xid type. dispatch (c.ops.from_i32 type) xid type) r bytes h in
      split header mid rest good (xids header.xid mid got) front front' bytes'
        (c.ops.from_i32 header.type) refl h'
    where
      split :
          (header : RequestHeader) (mid rest : List ℕ)
          → CanSend header
          → IsDataXid header.xid
          → buf ≡ to_be_bytes 4 header.xid ++ mid
          → mid ≡ to_be_bytes 4 header.type ++ rest
          → All IsByte rest
          → (o : Option OpCodes) → c.ops.from_i32 header.type ≡ o
          → dispatch o header.xid header.type rest ≡ ok r
          → IsTaken buf r
      split header mid rest good xid front front' bytes' none e h' = cc
      split header mid rest good xid front front' bytes' (some o) e h' =
          let (request, last, got, same) = bind-eq-ok (read_request o) _ rest h' in
          let (announced, whole) = read_request-eq-ok o rest (request, last) bytes' got in
          let code = (c.ops.from_i32_lem header.type o).0 e in
          subst (IsTaken buf) (ok-injective same) (
            taken buf mid header request last (data_request good xid code announced) front
              (front' ∙ ap (λ bs. to_be_bytes 4 header.type ++ bs) whole))

  -- A control request with a body, told by its xid.
  control_body :
      {A : Type 0} ⦃s : Serialize A⦄ ⦃d : Deserialize A⦄ ⦃e : Encodable A⦄ ⦃k : Conforms A⦄
      (xid : ℕ) (make : A → Request) (buf : List ℕ) (r : Option RequestPacket × List ℕ)
      → ((a : A) → encode_request (make a) ≡ encoding a)
      → ((h : RequestHeader) (a : A)
          → CanSend h
          → xid ≡ h.xid
          → CanSend a
          → IsPacket (record { request_header = some h; request = make a }))
      → All IsByte buf
      → ((x : ℕ) (mid : List ℕ) → get_i32 {E = ZkError} buf ≡ ok (x, mid) → xid ≡ x)
      → (get_i32 >>= λ _. get_i32 >>= λ type.
            d.deserialize >>= λ req. assert_empty >>= λ _. pure (packet xid type (make req)))
          buf
        ≡ ok r
      → IsTaken buf r
  unfolding pure
  control_body xid make buf r same announce bytes seen h =
      let (header, mid, rest, good, got, front, front', bytes', h') =
        two_fields-eq-ok buf
          (λ _ type. deserialize >>= λ req. assert_empty >>= λ _. pure (packet xid type (make req)))
          r bytes h in
      let is_xid = seen header.xid mid got in
      let (a, last, got', h'') = bind-eq-ok deserialize _ rest h' in
      let (u, last', empty, done) = bind-eq-ok assert_empty _ last h'' in
      let (good', whole) = deserialize-Takes rest a last bytes' got' in
      let rest_bytes : rest ≡ encode_request (make a) ++ last' =
        rw (same a, ← assert_empty-eq-ok last empty) whole in
      subst (IsTaken buf)
        (ap (λ x. (packet x header.type (make a), last')) (sym is_xid) ∙ ok-injective done)
        (taken buf mid header (make a) last' (announce header a good is_xid good') front
          (front' ∙ ap (λ bs. to_be_bytes 4 header.type ++ bs) rest_bytes))

  control_ping :
      (xid : ℕ) (buf : List ℕ) (r : Option RequestPacket × List ℕ)
      → xid_number XidCodes.ping ≡ xid
      → All IsByte buf
      → ((x : ℕ) (mid : List ℕ) → get_i32 {E = ZkError} buf ≡ ok (x, mid) → xid ≡ x)
      → (get_i32 {E = ZkError} >>= λ _.
            get_i32 >>= λ type. assert_empty >>= λ _. pure (packet xid type Request.ping))
          buf
        ≡ ok r
      → IsTaken buf r
  unfolding pure encode_request
  control_ping xid buf r is_ping bytes seen h =
      let (header, mid, rest, good, got, front, front', bytes', h') =
        two_fields-eq-ok buf (λ _ type. assert_empty >>= λ _. pure (packet xid type Request.ping)) r
          bytes h in
      let is_xid = seen header.xid mid got in
      let (u, last, empty, done) = bind-eq-ok assert_empty _ rest h' in
      subst (IsTaken buf)
        (ap (λ x. (packet x header.type Request.ping, last)) (sym is_xid) ∙ ok-injective done)
        (taken buf mid header Request.ping last (ping_request good (is_ping ∙ is_xid)) front
          (rw (← assert_empty-eq-ok rest empty) front'))

  decode_xid-eq-ok :
      (xid : ℕ) (o : Option XidCodes) (buf : List ℕ) (r : Option RequestPacket × List ℕ)
      → c.xids.from_i32 xid ≡ o
      → All IsByte buf
      → ((x : ℕ) (mid : List ℕ) → get_i32 {E = ZkError} buf ≡ ok (x, mid) → xid ≡ x)
      → decode_xid xid o buf ≡ ok r
      → IsTaken buf r ⊎ IsConnect buf r
  unfolding decode_xid pure encode_request
  decode_xid-eq-ok xid (some XidCodes.connect) buf r e bytes seen h =
      let (req, rest, got, done) = bind-eq-ok deserialize _ buf h in
      inr (subst (IsConnect buf) (ok-injective done) (req, refl, got))
  decode_xid-eq-ok xid (some XidCodes.ping) buf r e bytes seen h =
      inl (control_ping xid buf r ((c.xids.from_i32_lem xid _).0 e) bytes seen h)
  decode_xid-eq-ok xid (some XidCodes.auth) buf r e bytes seen h = inl (
      control_body xid Request.auth buf r (λ a. refl)
        (λ header a good is_xid good'.
          auth_request good ((c.xids.from_i32_lem xid _).0 e ∙ is_xid) good')
        bytes seen h)
  decode_xid-eq-ok xid (some XidCodes.set_watches) buf r e bytes seen h = inl (
      control_body xid Request.set_watches buf r (λ a. refl)
        (λ header a good is_xid good'.
          set_watches_request good ((c.xids.from_i32_lem xid _).0 e ∙ is_xid) good')
        bytes seen h)
  decode_xid-eq-ok xid (some XidCodes.watch) buf r e bytes seen h =
      inl (decode_data-eq-ok buf r bytes (λ x mid got. only (seen x mid got)) h)
    where
      only : {x : ℕ} → xid ≡ x → IsDataXid x
      only is_xid y n = cc ((c.xids.from_i32_lem xid y).1 (n ∙ sym is_xid))
  decode_xid-eq-ok xid none buf r e bytes seen h =
      inl (decode_data-eq-ok buf r bytes (λ x mid got. only (seen x mid got)) h)
    where
      only : {x : ℕ} → xid ≡ x → IsDataXid x
      only is_xid y n = cc ((c.xids.from_i32_lem xid y).1 (n ∙ sym is_xid))

  -- When `decode_inner` accepts bytes, it returns either a packet that the server side accepts,
  -- whose bytes stood in front of what is left, or the request to open a session that
  -- `ConnectRequest::deserialize` reads from them, with what that leaves.
  pub decode_inner-eq-ok :
      (buf : List ℕ) (r : Option RequestPacket × List ℕ)
      → All IsByte buf
      → decode_inner buf ≡ ok r
      → IsTaken buf r ⊎ IsConnect buf r
  unfolding decode_inner
  decode_inner-eq-ok buf r bytes h =
      let (u, mid, checked, h') = bind-eq-ok (ensure_min_length_bytes 8) _ buf h in
      let (xid, mid', peeked, h'') = bind-eq-ok peek_i32 _ mid h' in
      let same : buf ≡ mid' =
        ensure_min_length_bytes-eq-ok 8 buf checked ∙ peek_i32-eq-ok mid peeked in
      let peeked' : peek_i32 buf ≡ ok (xid, mid') =
        rw (ensure_min_length_bytes-eq-ok 8 buf checked) peeked in
      decode_xid-eq-ok xid (c.xids.from_i32 xid) buf r refl bytes
        (λ x mid got. (peek_i32-get_i32 buf bytes peeked' got).0) (rw (← same) at h'')

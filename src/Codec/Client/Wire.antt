-- ===== src/Codec/Client/Wire.antt =====
-- codec.rs: what `ClientPacketCodec::encode` writes and remembers.
use zksrv.Base.{
  ℕ, ◌≡◌, Bool-cases, inl, inr, ◌==◌, ==_iff, if◌then◌else◌, ap, ◌∙◌, some, List, ◌++◌,
  append_assoc, length, to_be_bytes, as_i32,
}
use zksrv.Errors.{ok}
use zksrv.Bytes.{ByteOps}
use zksrv.Buf.{◌>>=◌, pure, bind-ok}
use zksrv.Buf.Ops.Laws.{put_i32-bind}
use zksrv.Record.{serialize_into, size}
use zksrv.Constants.{Codes, OpCodes, op_number}
use zksrv.Proto.Headers.{RequestHeader}
use zksrv.Codec.Packet.{RequestPacket, request_packet_serialize}
use zksrv.Codec.Packet.Wire.{encode_packet, serialize_packet-encode, size_packet-length}
use zksrv.Codec.Client.{DashMap, remember, remember_code, encode}

module _ ⦃b : ByteOps⦄ where
  -- A packet behind its length.
  unfoldable pub framed : RequestPacket → List ℕ
  framed p = to_be_bytes 4 (as_i32 (length (encode_packet p))) ++ encode_packet p

  module _ ⦃c : Codes⦄ ⦃d : DashMap⦄ where
    pub encode_lem :
        (p : RequestPacket) (map : d.Map) (dst : List ℕ)
        → encode p map dst ≡ (remember p.request_header map, ok (tt, dst ++ framed p))
    unfolding encode framed pure
    encode_lem p map dst =
        ap (λ r. (remember p.request_header map, r))
          (put_i32-bind (λ _. serialize_into p >>= λ _. pure tt) dst (as_i32 (size p))
            ∙ bind-ok (serialize_into p) _ _ (serialize_packet-encode p _)
            ∙ rw (size_packet-length p) (simp append_assoc))

    inserted :
        (k xid : ℕ) (o : OpCodes) (map : d.Map)
        → d.get xid (d.insert k o map) ≡ (if xid == k then some o else d.get xid map)
    inserted k xid o map = elim (Bool-cases (xid == k)) [
      | inl same ↦ rw (same, (==_iff xid k).0 same) (d.insert_lem k o map)
      | inr other ↦ rw other (d.other_lem xid k o map λ e. absurd (cc ((==_iff xid k).1 e)))
    ]

    -- After a request whose header has the code of a known operation has been written, the map
    -- holds the operation under the request's xid, and under every other xid what it held before.
    pub encode-get :
        (p : RequestPacket) (h : RequestHeader) (o : OpCodes) (map : d.Map) (dst : List ℕ) (xid : ℕ)
        → p.request_header ≡ some h
        → op_number o ≡ h.type
        → d.get xid (encode p map dst).0 ≡ (if xid == h.xid then some o else d.get xid map)
    unfolding encode remember remember_code
    encode-get p h o map dst xid e code =
        rw (e, (c.ops.from_i32_lem h.type o).1 code) (inserted h.xid xid o map)

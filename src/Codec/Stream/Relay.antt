-- ===== src/Codec/Stream/Relay.antt =====
-- codec.rs and server.rs: what one side of the proxy writes the other side reads, and sends on.
use zksrv.Base.{
  ℕ, ◌*◌, ◌^◌, ◌≤◌, ◌≡◌, refl, sym, ap, subst, none, some, List, [], ◌∷◌, ◌++◌, append_assoc,
  append-nil, length, to_be_bytes, pos, true, All, arith,
}
use zksrv.Errors.{ok}
use zksrv.Bytes.{ByteOps}
use zksrv.Constants.{Codes}
use zksrv.Frame
use zksrv.Frame.{Builder, LengthDelimitedCodec, unadjust}
use zksrv.Frame.Options.{new_codec}
use zksrv.Frame.RoundTrip.{length_bytes, decode-length_bytes}
use zksrv.Codec.Packet.{RequestPacket}
use zksrv.Codec.Packet.Wire.{encode_packet}
use zksrv.Codec.Server.Whole.{IsPacket, decode_inner-encode}
use zksrv.Codec.Client.{DashMap, encode, remember}
use zksrv.Codec.Client.Wire.{framed, encode_lem}
use zksrv.Codec.Stream.{
  ServerPacketCodec, new, decode, decode_found, or_decode_error, Relays, done, round,
}

-- The settings that the codecs share.
abbrev pub shared : Builder
shared = record {
  max_frame_len = 1 * 1_024 * 1_024;
  length_field_len = 4;
  length_field_offset = 0;
  length_adjustment = pos 0;
  num_skip = none;
  length_field_is_big_endian = true;
}

abbrev pub fresh : ServerPacketCodec
fresh = record { inner = new_codec shared }

new_lem : new ≡ some fresh
unfolding new
new_lem = refl

unadjust_zero : (n : ℕ) → unadjust (pos 0) n ≡ some n
unfolding unadjust
unadjust_zero n = ground arith

module _ ⦃b : ByteOps⦄ where
  framed-length_bytes :
      (p : RequestPacket)
      → length (encode_packet p) ≤ 2 ^ 20
      → length_bytes shared (length (encode_packet p)) ++ encode_packet p ≡ framed p
  unfolding framed length_bytes
  framed-length_bytes p h = ap (λ n. to_be_bytes 4 n ++ encode_packet p) (omega arith)

  -- The shared settings take a frame off a stream.
  frame_lem :
      (p : RequestPacket) (more : List ℕ)
      → length (encode_packet p) ≤ 2 ^ 20
      → Frame.decode (new_codec shared) (framed p ++ more)
        ≡ ok ((some (encode_packet p, length (encode_packet p)), new_codec shared), more)
  frame_lem p more h = rw (← framed-length_bytes p h) (
      decode-length_bytes shared (encode_packet p) more (length (encode_packet p))
        (omega arith, omega arith) refl refl (omega arith)
        (unadjust_zero (length (encode_packet p))) (omega arith) (omega arith))

  module _ ⦃c : Codes⦄ where
    pub decode-framed :
        (p : RequestPacket) (more : List ℕ)
        → IsPacket p
        → length (encode_packet p) ≤ 2 ^ 20
        → decode fresh (framed p ++ more) ≡ ok ((some p, fresh), more)
    unfolding decode decode_found or_decode_error
    decode-framed p more good fits = rw (
      decode,
      or_decode_error,
      frame_lem p more fits,
      decode_found,
      decode_inner-encode good (omega arith),
    )

    module _ ⦃d : DashMap⦄ where
      -- A packet of at most a mebibyte that the server side accepts, when the client side writes
      -- it to any buffer, is the packet that a new server side decodes from the bytes written,
      -- with any bytes behind them left over.
      pub decode-encode_packet :
          (p : RequestPacket) (map : d.Map) (dst more : List ℕ) (codec : ServerPacketCodec)
          → IsPacket p
          → length (encode_packet p) ≤ 2 ^ 20
          → new ≡ some codec
          → (bs : List ℕ) × ((encode p map dst).1 ≡ ok (tt, dst ++ bs))
            × (decode codec (bs ++ more) ≡ ok ((some p, codec), more))
      decode-encode_packet p map dst more codec good fits fresh' =
          let same : fresh ≡ codec = cc (new_lem, fresh') in
          (
            framed p,
            ap (λ r. r.1) (encode_lem p map dst),
            subst (λ k. decode k (framed p ++ more) ≡ ok ((some p, k), more)) same
                (decode-framed p more good fits),
          )

      -- The bytes of a list of packets, and the map after them.
      abbrev pub all_framed : List RequestPacket → List ℕ
      all_framed [] = []
      all_framed (p ∷ ps) = framed p ++ all_framed ps

      abbrev pub all_remembered : List RequestPacket → d.Map → d.Map
      all_remembered [] map = map
      all_remembered (p ∷ ps) map = all_remembered ps (remember p.request_header map)

      abbrev pub IsSmall : RequestPacket → Type 0
      IsSmall p = IsPacket p × (length (encode_packet p) ≤ 2 ^ 20)

      -- When packets of at most a mebibyte each that the server side accepts have arrived at a
      -- new codec, with any bytes behind them, the loop sends on exactly their bytes, remembers
      -- each in turn, and leaves the bytes behind them and the codec as new.
      pub all_framed-Relays :
          (ps : List RequestPacket) (map : d.Map) (sent more : List ℕ) (codec : ServerPacketCodec)
          → All IsSmall ps
          → new ≡ some codec
          → Relays
              (record { codec = codec; received = all_framed ps ++ more; map = map; sent = sent })
              (record {
                codec = codec;
                received = more;
                map = all_remembered ps map;
                sent = sent ++ all_framed ps;
              })
      all_framed-Relays ps map sent more codec small fresh' =
          let same : fresh ≡ codec = cc (new_lem, fresh') in
          subst
            (λ k.
              Relays
                (record { codec = k; received = all_framed ps ++ more; map = map; sent = sent })
                (record {
                  codec = k;
                  received = more;
                  map = all_remembered ps map;
                  sent = sent ++ all_framed ps;
                }))
            same (go ps map sent small)
        where
          go :
              (ps : List RequestPacket) (map : d.Map) (sent : List ℕ)
              → All IsSmall ps
              → Relays
                  (record {
                    codec = fresh;
                    received = all_framed ps ++ more;
                    map = map;
                    sent = sent;
                  })
                  (record {
                    codec = fresh;
                    received = more;
                    map = all_remembered ps map;
                    sent = sent ++ all_framed ps;
                  })
          go [] map sent small =
              subst
                (λ bs.
                  Relays (record { codec = fresh; received = more; map = map; sent = sent })
                    (record { codec = fresh; received = more; map = map; sent = bs }))
                (sym (append-nil sent)) (done _)
          go (p ∷ ps) map sent small =
              let read = decode-framed p (all_framed ps ++ more) small.0.0 small.0.1 in
              let read' : decode fresh ((framed p ++ all_framed ps) ++ more)
                  ≡ ok ((some p, fresh), all_framed ps ++ more) =
                rw (append_assoc (framed p) (all_framed ps) more) read in
              let later = go ps (remember p.request_header map) (sent ++ framed p) small.1 in
              subst
                (λ bs.
                  Relays
                    (record {
                      codec = fresh;
                      received = all_framed (p ∷ ps) ++ more;
                      map = map;
                      sent = sent;
                    })
                    (record {
                      codec = fresh;
                      received = more;
                      map = all_remembered (p ∷ ps) map;
                      sent = bs;
                    }))
                (append_assoc sent (framed p) (all_framed ps))
                (round read' (encode_lem p map sent) later)

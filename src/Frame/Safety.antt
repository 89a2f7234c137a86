-- ===== src/Frame/Safety.antt =====
-- length_codec.rs: `decode` against a description by the settings and the positions in the buffer.
use zksrv.Base.{
  ℕ, ◌^◌, ◌<◌, ◌≤◌, ◌≡◌, refl, sym, ap, ◌∙◌, subst, some, List, ◌++◌, ltb, ltb→lt, ltb→ge,
  Bool-cases, Option-cases, inl, inr, length, take, drop, take-append-drop, length-take_le, arith,
}
use zksrv.Errors.{ok}
use zksrv.Bytes.{ByteOps}
use zksrv.Buf.{pure, fail, ◌>>=◌, bind-ok, bind-eq-ok}
use zksrv.Frame.{
  Builder, LengthDelimitedCodec, DecodeState, head, frame_data, num_head_bytes, make_room,
  decode_head, decode_data, decode_frame, decode_found, decode_in, decode, finish, adjust,
  or_invalid_input,
}
use zksrv.Frame.Room.{cannot_grow_lt, make_room-ok}
use zksrv.Frame.Head.{IsBuilder, after_field, decode_head-short, decode_head-long}
use zksrv.Frame.Parts.{after_field_lem, skip_le, decode_head-eq-ok, found}
use zksrv.Frame.Payload.{decode_data-short, decode_data-long, finish-ok, finish-eq-ok}
use zksrv.Frame.Described.{
  front, skip_of, Shifted, IsBounded, get_num_skip-skip_of, head_le, head_lt, head-bounded,
  adjust-Shifted, adjust-none, Shifted-longest,
}
use zksrv.Frame.Outcomes.{
  field_in, HasHead, DecodesData, no_frame, one_frame, Decodes, no_head, too_long, no_length,
  in_head, in_data,
}

module _ ⦃o : ByteOps⦄ where
  num_head_bytes-bounded : (b : Builder) → IsBounded b → num_head_bytes b < 2 ^ 63
  num_head_bytes-bounded b (small, small', _) = head-bounded b small small'

  decode_frame-DecodesData :
      (codec : LengthDelimitedCodec) (n : ℕ) (buf : List ℕ)
      → num_head_bytes codec.builder < 2 ^ 63
      → DecodesData codec buf n (decode_frame codec n buf)
  unfolding decode_frame finish pure
  decode_frame-DecodesData codec n buf small = elim (Bool-cases (ltb (length buf) n)) [
    | inl less ↦
        let short = ltb→lt (length buf) n less in
        subst (DecodesData codec buf n)
          (sym (bind-ok (decode_data n) (finish codec n) buf (decode_data-short n buf short)))
          (no_frame short)
    | inr more ↦
        let long = ltb→ge (length buf) n more in
        subst (DecodesData codec buf n)
          (sym (
            bind-ok (decode_data n) (finish codec n) buf (decode_data-long n buf long)
            ∙ finish-ok codec n (take n buf) (drop n buf) (cannot_grow_lt _ _ small)))
          (one_frame long)
  ]

  after_field-Decodes :
      (codec : LengthDelimitedCodec) (buf : List ℕ)
      → IsBounded codec.builder
      → num_head_bytes codec.builder ≤ length buf
      → Decodes codec buf head
          ((after_field codec.builder (field_in codec.builder buf) >>= decode_found codec) buf)
  unfolding fail decode_found or_invalid_input ◌>>=◌ pure
  after_field-Decodes codec buf bounded long =
      let b = codec.builder in
      let v = field_in b buf in
      let (small, small', small'') = bounded in
      let (le, le') = head_le b (length buf) (omega arith) long in
      elim (Bool-cases (ltb b.max_frame_len v)) [
        | inl more ↦ rw more (too_long le le' (ltb→lt _ _ more))
        | inr fits ↦
            let within = ltb→ge _ _ fits in
            elim (Option-cases (adjust b.length_adjustment v)) [
              | inl e ↦
                  rw (fits, e)
                    (no_length (le, le', within)
                      (λ n n_small. adjust-none b.length_adjustment v n e n_small))
              | inr (n, e) ↦
                  let shifted = adjust-Shifted b.length_adjustment v n e in
                  let at_most = Shifted-longest b.length_adjustment v _ n within shifted in
                  let skips = get_num_skip-skip_of b (omega arith) in
                  let made =
                    make_room-ok n (drop (skip_of b) buf) (cannot_grow_lt n _ (omega arith)) in
                  let headed : after_field b v buf ≡ ok (some n, drop (skip_of b) buf) =
                    after_field_lem b v n buf (skip_le b buf long) within e
                    ∙ rw skips (bind-ok (make_room n) _ _ made) in
                  subst (Decodes codec buf head)
                    (sym (bind-ok (after_field b v) (decode_found codec) buf headed))
                    (in_head n (le, le', within) shifted
                      (decode_frame-DecodesData _ n _ (num_head_bytes-bounded b bounded)))
            ]
      ]

  decode_in-Decodes :
      (codec : LengthDelimitedCodec) (state : DecodeState) (buf : List ℕ)
      → IsBuilder codec.builder
      → IsBounded codec.builder
      → Decodes codec buf state (decode_in codec state buf)
  unfolding decode_in decode_found pure
  decode_in-Decodes codec (frame_data n) buf good bounded =
      in_data n
        (decode_frame-DecodesData codec n buf (num_head_bytes-bounded codec.builder bounded))
  decode_in-Decodes codec head buf good bounded =
      let b = codec.builder in
      let (small, _, _) = bounded in
      elim (Bool-cases (ltb (length buf) (num_head_bytes b))) [
        | inl less ↦
            let short = ltb→lt _ _ less in
            subst (Decodes codec buf head)
              (sym
                (bind-ok (decode_head b) (decode_found codec) buf (decode_head-short b buf short)))
              (no_head (head_lt b (length buf) (omega arith) short))
        | inr more ↦
            let long = ltb→ge (length buf) (num_head_bytes b) more in
            let (le, _) = head_le b (length buf) (omega arith) long in
            let run : decode_in codec head buf
                ≡ (after_field b (field_in b buf) >>= decode_found codec) buf =
              unfold ◌>>=◌ in rw (decode_head-long b buf good long le) refl in
            subst (Decodes codec buf head) (sym run) (after_field-Decodes codec buf bounded long)
      ]

  -- A codec that has a length field of one to eight bytes, fewer than 2 ^ 63 bytes up to the
  -- field's end and to skip, and a maximum below 2 ^ 63, also with a positive adjustment added to
  -- it, does on every buffer what its state and the buffer ask for. Between two frames: without
  -- all the bytes up to the field's end and to skip it waits; a field above the maximum is invalid
  -- data; when no number of 64 bits is the field with the adjustment added, that is invalid input;
  -- otherwise that number is the length of the frame, and the bytes to skip are dropped. Then, and
  -- when it had the length before: without that many bytes it waits, in the state that keeps the
  -- length; with them it returns them as the frame and leaves the rest, in the state between two
  -- frames. It never panics.
  pub decode-result :
      (codec : LengthDelimitedCodec) (buf : List ℕ)
      → IsBuilder codec.builder
      → IsBounded codec.builder
      → Decodes codec buf codec.state (decode codec buf)
  unfolding decode
  decode-result codec buf good bounded = decode_in-Decodes codec codec.state buf good bounded

  decode_frame-eq-ok :
      (codec codec' : LengthDelimitedCodec) (k n : ℕ) (buf frame rest : List ℕ)
      → decode_frame codec k buf ≡ ok ((some (frame, n), codec'), rest)
      → (buf ≡ frame ++ rest)
        × (length frame ≡ n)
        × (k ≡ n)
        × (codec' ≡ record codec { state = head })
  unfolding decode_frame finish pure
  decode_frame-eq-ok codec codec' k n buf frame rest h = elim (Bool-cases (ltb (length buf) k)) [
    | inl less ↦
        let e =
          bind-ok (decode_data k) (finish codec k) buf
            (decode_data-short k buf (ltb→lt _ _ less)) in
        cc
    | inr more ↦
        let long = ltb→ge (length buf) k more in
        let e = bind-ok (decode_data k) (finish codec k) buf (decode_data-long k buf long) in
        let (_, (same, same')) = finish-eq-ok codec k (take k buf) (drop k buf) (sym e ∙ h) in
        let size = length-take_le k buf long in
        let parts = take-append-drop k buf in
        let whole : buf ≡ frame ++ rest = cc in (whole, cc, cc, cc)
  ]

  -- When a codec with a length field of one to eight bytes, which ends before byte 2 ^ 64, stands
  -- between two frames and returns a frame, then the bytes to skip (`num_skip`, by default those
  -- up to the field's end), the frame and what is left are the buffer; the length field, behind
  -- its offset, is within the maximum, and the length of the frame, the skipped bytes not
  -- counted, is the field with the signed adjustment added; and the codec stands between two
  -- frames again.
  pub decode-frame :
      (codec codec' : LengthDelimitedCodec) (n : ℕ) (buf frame rest : List ℕ)
      → IsBuilder codec.builder
      → front codec.builder < 2 ^ 64
      → codec.state ≡ head
      → decode codec buf ≡ ok ((some (frame, n), codec'), rest)
      → (buf ≡ take (skip_of codec.builder) buf ++ (frame ++ rest))
        × HasHead codec.builder buf
        × (length frame ≡ n)
        × Shifted codec.builder.length_adjustment (field_in codec.builder buf) n
        × (codec' ≡ codec)
  unfolding decode decode_in decode_found pure
  decode-frame codec codec' n buf frame rest good small at_head h =
      let b = codec.builder in
      let h' =
        subst (λ s. decode_in codec s buf ≡ ok ((some (frame, n), codec'), rest)) at_head h in
      let (r, mid, e, k) = bind-eq-ok (decode_head b) (decode_found codec) buf h' in
      elim (decode_head-eq-ok b buf good e) [
        | inl (none', _) ↦ let k' = rw none' at k in cc
        | inr (n', some', found long room fits adj _ behind) ↦
            let (parts, size, same, at_head') =
              decode_frame-eq-ok (record codec { state = frame_data n' }) codec' n' n mid frame rest
                (rw some' at k) in
            let (le, le') = head_le b (length buf) small long in
            let skips = get_num_skip-skip_of b small in
            (
              sym (take-append-drop (skip_of b) buf)
                  ∙ ap (λ bs. take (skip_of b) buf ++ bs)
                      (ap (λ skip. drop skip buf) (sym skips) ∙ sym behind ∙ parts),
              (le, le', fits),
              size,
              subst (λ k. Shifted b.length_adjustment (field_in b buf) k) same
                  (adjust-Shifted b.length_adjustment (field_in b buf) n' adj),
              at_head' ∙ ap (λ s. record codec { state = s }) (sym at_head),
            )
      ]

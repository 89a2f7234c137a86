-- ===== src/Frame/Chunks.antt =====
-- length_codec.rs: the frames of a stream do not depend on how its bytes arrive.
use zksrv.Base.{
  ℕ, ◌≡◌, refl, sym, ◌∙◌, subst, Option, none, some, List, [], ◌∷◌, ◌++◌, Option-cases, inl, inr,
}
use zksrv.Errors.{ok}
use zksrv.Bytes.{ByteOps}
use zksrv.Buf.{pure, bind-ok, bind-eq-ok}
use zksrv.Frame.{
  LengthDelimitedCodec, DecodeState, head, frame_data, decode_head, decode_data, decode_frame,
  decode_found, decode_in, decode, finish,
}
use zksrv.Frame.Head.{IsBuilder}
use zksrv.Frame.Parts.{decode_head-append, decode_head-none}
use zksrv.Frame.Payload.{decode_frame-append_some, decode_frame-none, finish-eq-ok}

module _ ⦃o : ByteOps⦄ where
  in_head :
      (codec : LengthDelimitedCodec) {n : ℕ} (buf : List ℕ) {mid : List ℕ}
      → decode_head codec.builder buf ≡ ok (some n, mid)
      → decode_in codec head buf ≡ decode_frame (record codec { state = frame_data n }) n mid
  unfolding decode_in decode_found
  in_head codec buf e = bind-ok (decode_head codec.builder) (decode_found codec) buf e

  in_head-append_some :
      (codec codec' : LengthDelimitedCodec) (state : DecodeState) (buf more rest : List ℕ)
      (frame : List ℕ × ℕ)
      → IsBuilder codec.builder
      → decode_in codec state buf ≡ ok ((some frame, codec'), rest)
      → decode_in codec state (buf ++ more) ≡ ok ((some frame, codec'), rest ++ more)
  unfolding decode_in decode_found pure
  in_head-append_some codec codec' (frame_data n) buf more rest frame good h =
      decode_frame-append_some codec codec' n buf more rest frame h
  in_head-append_some codec codec' head buf more rest frame good h =
      let (r, mid, e, k) = bind-eq-ok (decode_head codec.builder) (decode_found codec) buf h in
      elim (Option-cases r) [
        | inl none' ↦ let k' = rw none' at k in cc
        | inr (n, some') ↦
            let k' = rw some' at k in
            in_head codec (buf ++ more)
              (decode_head-append codec.builder buf more good (rw some' at e))
            ∙ decode_frame-append_some _ codec' n mid more rest frame k'
      ]

  in_head-append_none :
      (codec codec' : LengthDelimitedCodec) (state : DecodeState) (buf more rest : List ℕ)
      → IsBuilder codec.builder
      → codec.state ≡ state
      → decode_in codec state buf ≡ ok ((none, codec'), rest)
      → decode_in codec state (buf ++ more) ≡ decode codec' (rest ++ more)
  unfolding decode decode_in decode_found pure
  in_head-append_none codec codec' (frame_data n) buf more rest good at_data h =
      let (same, same') = decode_frame-none codec codec' n buf rest h in
      sym (rw (same, same', at_data) refl)
  in_head-append_none codec codec' head buf more rest good at_head h =
      let (r, mid, e, k) = bind-eq-ok (decode_head codec.builder) (decode_found codec) buf h in
      elim (Option-cases r) [
        | inl none' ↦
            let k' = rw none' at k in
            let same = decode_head-none codec.builder buf good (rw none' at e) in
            let same' : codec' ≡ codec = cc in
            let same'' : rest ≡ buf = cc in sym (rw (same', same'', at_head) refl)
        | inr (n, some') ↦
            let k' = rw some' at k in
            let (same, same') =
              decode_frame-none (record codec { state = frame_data n }) codec' n mid rest k' in
            in_head codec (buf ++ more)
              (decode_head-append codec.builder buf more good (rw some' at e))
            ∙ sym (rw (same, same') refl)
      ]

  decode_frame-builder :
      (codec codec' : LengthDelimitedCodec) (n : ℕ) (buf rest : List ℕ) (d : Option (List ℕ × ℕ))
      → decode_frame codec n buf ≡ ok ((d, codec'), rest)
      → codec'.builder ≡ codec.builder
  unfolding decode_frame finish pure
  decode_frame-builder codec codec' n buf rest d h =
      let (r, mid, e, k) = bind-eq-ok (decode_data n) (finish codec n) buf h in
      elim (Option-cases r) [
        | inl none' ↦ let k' = rw none' at k in cc
        | inr (bs, some') ↦ let (_, (same, _)) = finish-eq-ok codec n bs mid (rw some' at k) in cc
      ]

  decode-builder :
      (codec codec' : LengthDelimitedCodec) (state : DecodeState) (buf rest : List ℕ)
      (d : Option (List ℕ × ℕ))
      → decode_in codec state buf ≡ ok ((d, codec'), rest)
      → codec'.builder ≡ codec.builder
  unfolding decode_in decode_found pure
  decode-builder codec codec' (frame_data n) buf rest d h =
      decode_frame-builder codec codec' n buf rest d h
  decode-builder codec codec' head buf rest d h =
      let (r, mid, e, k) = bind-eq-ok (decode_head codec.builder) (decode_found codec) buf h in
      elim (Option-cases r) [
        | inl none' ↦ let k' = rw none' at k in cc
        | inr (n, some') ↦
            decode_frame-builder (record codec { state = frame_data n }) codec' n mid rest d
              (rw some' at k)
      ]

  -- Reading frames until one is not complete: the frames, the codec and the bytes that are left.
  pub data Drained
      : LengthDelimitedCodec
        → List ℕ
        → List (List ℕ × ℕ)
        → LengthDelimitedCodec
        → List ℕ
        → Type 0 where
    waits :
        (codec codec' : LengthDelimitedCodec) (buf rest : List ℕ)
        → decode codec buf ≡ ok ((none, codec'), rest)
        → Drained codec buf [] codec' rest
    yields :
        (codec mid_codec codec' : LengthDelimitedCodec) (buf mid rest : List ℕ) (frame : List ℕ × ℕ)
        (frames : List (List ℕ × ℕ))
        → decode codec buf ≡ ok ((some frame, mid_codec), mid)
        → Drained mid_codec mid frames codec' rest
        → Drained codec buf (frame ∷ frames) codec' rest

  decode-Drained :
      (codec codec' end : LengthDelimitedCodec) (buf buf' rest : List ℕ)
      (frames : List (List ℕ × ℕ))
      → decode codec buf ≡ decode codec' buf'
      → Drained codec' buf' frames end rest
      → Drained codec buf frames end rest
  decode-Drained codec codec' end buf buf' rest frames same (waits _ _ _ _ e) =
      waits codec end buf rest (same ∙ e)
  decode-Drained codec codec' end buf buf' rest frames same
        (yields _ mid _ _ bs _ frame later e d) =
      yields codec mid end buf bs rest frame later (same ∙ e) d

  -- When a codec with a length field of one to eight bytes has taken the complete frames off a
  -- buffer, and then, when more bytes have arrived, off what was left followed by those bytes, it
  -- has the frames, the state and the rest that it gets when all the bytes are there at once.
  pub Drained-append :
      (codec codec' end : LengthDelimitedCodec) (buf more rest rest' : List ℕ)
      (frames frames' : List (List ℕ × ℕ))
      → IsBuilder codec.builder
      → Drained codec buf frames codec' rest
      → Drained codec' (rest ++ more) frames' end rest'
      → Drained codec (buf ++ more) (frames ++ frames') end rest'
  unfolding decode
  Drained-append codec codec' end buf more rest rest' frames frames' good (waits _ _ _ _ e) d' =
      decode-Drained codec codec' end (buf ++ more) (rest ++ more) rest' frames'
        (in_head-append_none codec codec' codec.state buf more rest good refl e) d'
  Drained-append codec codec' end buf more rest rest' frames frames' good
        (yields _ mid _ _ bs _ frame later e d) d' =
      let same = decode-builder codec mid codec.state buf bs (some frame) e in
      yields codec mid end (buf ++ more) (bs ++ more) rest' frame (later ++ frames')
        (in_head-append_some codec mid codec.state buf more bs frame good e)
        (Drained-append mid codec' end bs more rest rest' later frames'
          (subst IsBuilder (sym same) good) d d')

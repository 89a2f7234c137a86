-- ===== src/Frame/Payload.antt =====
-- length_codec.rs: what `decode_data` and what follows it return, and that they do not depend on
-- the bytes behind.
use zksrv.Base.{
  ℕ, ◌<◌, ◌≤◌, ◌≡◌, false, refl, sym, ◌∙◌, subst, none, some, List, ◌++◌, ltb, lt→ltb, ge→ltb,
  ltb→lt, ltb→ge, Bool-cases, Option-cases, inl, inr, length, length-append, take, drop,
  take-append-drop, take-append_le, drop-append_le, length-take_le, arith,
}
use zksrv.Errors.{ok, ok-injective}
use zksrv.Bytes.{ByteOps}
use zksrv.Buf.{pure, ◌>>=◌, bind-ok, bind-eq-ok}
use zksrv.Buf.Ops.{remaining, split_to}
use zksrv.Frame.{
  LengthDelimitedCodec, IoError, num_head_bytes, decode_data, decode_frame, finish, make_room, head,
  Decoded,
}
use zksrv.Frame.Room.{cannot_grow, cannot_grow_mono, make_room-ok, make_room-eq-ok}
use zksrv.Frame.Head.{split_to-append}

module _ ⦃o : ByteOps⦄ where
  -- The data of a frame, if it is all there.
  pub decode_data-short :
      (n : ℕ) (buf : List ℕ) → length buf < n → decode_data n buf ≡ ok (none, buf)
  unfolding decode_data remaining ◌>>=◌ pure
  decode_data-short n buf h = rw (lt→ltb (length buf) n h) refl

  pub decode_data-long :
      (n : ℕ) (buf : List ℕ)
      → n ≤ length buf
      → decode_data n buf ≡ ok (some (take n buf), drop n buf)
  unfolding decode_data remaining pure
  decode_data-long n buf h =
      let split : split_to {E = IoError} n buf ≡ ok (take n buf, drop n buf) =
        subst (λ bs. split_to {E = IoError} n bs ≡ ok (take n buf, drop n buf))
          (take-append-drop n buf)
          (split_to-append n (take n buf) (drop n buf) (length-take_le n buf h)) in
      bind-ok remaining _ _ refl ∙ rw (ge→ltb (length buf) n h) (bind-ok (split_to n) _ _ split)

  decode_data-append :
      (n : ℕ) (buf more : List ℕ) {frame rest : List ℕ}
      → decode_data n buf ≡ ok (some frame, rest)
      → decode_data n (buf ++ more) ≡ ok (some frame, rest ++ more)
  decode_data-append n buf more h = elim (Bool-cases (ltb (length buf) n)) [
    | inl less ↦ let e = decode_data-short n buf (ltb→lt _ _ less) in cc
    | inr whole ↦
        let room = ltb→ge (length buf) n whole in
        let same = ok-injective (sym (decode_data-long n buf room) ∙ h) in
        let run = decode_data-long n (buf ++ more) (omega (arith, length-append buf more)) in
        let run' = rw (take-append_le n buf more room, drop-append_le n buf more room) at run in cc
  ]

  decode_data-none :
      (n : ℕ) (buf : List ℕ) {rest : List ℕ} → decode_data n buf ≡ ok (none, rest) → rest ≡ buf
  decode_data-none n buf h = elim (Bool-cases (ltb (length buf) n)) [
    | inl less ↦ let e = decode_data-short n buf (ltb→lt _ _ less) in cc
    | inr whole ↦ let e = decode_data-long n buf (ltb→ge (length buf) n whole) in cc
  ]

  -- Behind a frame there is room for the next head.
  pub finish-ok :
      (codec : LengthDelimitedCodec) (n : ℕ) (frame buf : List ℕ)
      → cannot_grow (num_head_bytes codec.builder) (length buf) ≡ false
      → finish codec n (some frame) buf ≡ ok ((some (frame, n), record codec { state = head }), buf)
  unfolding finish pure
  finish-ok codec n frame buf e =
      bind-ok (make_room (num_head_bytes codec.builder)) _ buf (make_room-ok _ buf e)

  pub finish-eq-ok :
      (codec : LengthDelimitedCodec) (n : ℕ) (frame buf : List ℕ) {r : Decoded} {rest : List ℕ}
      → finish codec n (some frame) buf ≡ ok (r, rest)
      → (cannot_grow (num_head_bytes codec.builder) (length buf) ≡ false)
        × ((r ≡ (some (frame, n), record codec { state = head })) × (rest ≡ buf))
  unfolding finish pure
  finish-eq-ok codec n frame buf h =
      let (_, mid, made, k) = bind-eq-ok (make_room (num_head_bytes codec.builder)) _ buf h in
      let (grows, same) = make_room-eq-ok _ buf mid made in
      let same' = ok-injective k in (grows, (cc, cc))

  finish-append :
      (codec : LengthDelimitedCodec) (n : ℕ) (frame buf more : List ℕ)
      → cannot_grow (num_head_bytes codec.builder) (length buf) ≡ false
      → finish codec n (some frame) (buf ++ more)
        ≡ ok ((some (frame, n), record codec { state = head }), buf ++ more)
  finish-append codec n frame buf more e =
      finish-ok codec n frame (buf ++ more)
        (cannot_grow_mono _ (length buf) _ (omega (arith, length-append buf more)) e)

  pub decode_frame-append_some :
      (codec codec' : LengthDelimitedCodec) (n : ℕ) (buf more rest : List ℕ) (frame : List ℕ × ℕ)
      → decode_frame codec n buf ≡ ok ((some frame, codec'), rest)
      → decode_frame codec n (buf ++ more) ≡ ok ((some frame, codec'), rest ++ more)
  unfolding decode_frame finish pure
  decode_frame-append_some codec codec' n buf more rest frame h =
      let (d, mid, e, k) = bind-eq-ok (decode_data n) (finish codec n) buf h in
      elim (Option-cases d) [
        | inl none' ↦ let k' = rw none' at k in cc
        | inr (bs, some') ↦
            let k' = rw some' at k in
            let e' = decode_data-append n buf more (rw some' at e) in
            let (same, same') = finish-eq-ok codec n bs mid k' in
            bind-ok (decode_data n) (finish codec n) (buf ++ more) e'
            ∙ finish-append codec n bs mid more same
            ∙ cc
      ]

  pub decode_frame-none :
      (codec codec' : LengthDelimitedCodec) (n : ℕ) (buf rest : List ℕ)
      → decode_frame codec n buf ≡ ok ((none, codec'), rest)
      → (codec' ≡ codec) × (rest ≡ buf)
  unfolding decode_frame finish pure
  decode_frame-none codec codec' n buf rest h =
      let (d, mid, e, k) = bind-eq-ok (decode_data n) (finish codec n) buf h in
      elim (Option-cases d) [
        | inl none' ↦
            let k' = rw none' at k in let same = decode_data-none n buf (rw none' at e) in (cc, cc)
        | inr (bs, some') ↦
            let k' = rw some' at k in let (_, same) = finish-eq-ok codec n bs mid k' in cc
      ]

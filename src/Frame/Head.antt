-- ===== src/Frame/Head.antt =====
-- length_codec.rs: what `decode_head` finds in a buffer that holds a head.
use zksrv.Base.{
  ℕ, ◌+◌, ◌<◌, ◌≤◌, ◌≡◌, refl, ap, ◌∙◌, subst, Option, none, some, List, ◌++◌, ltb, lt→ltb, ge→ltb,
  ltb→lt, ltb→ge, Bool-cases, inl, inr, length, take, drop, take-append-drop, length-take_le,
  length-drop, if◌then◌else◌, from_be_bytes, from_le_bytes, arith,
}
use zksrv.Errors.{ok, panic}
use zksrv.Bytes.{ByteOps}
use zksrv.Buf.{Buf, pure, fail, ◌>>=◌, ◌>>◌, bind-ok, bind-panic}
use zksrv.Buf.Ops.{remaining, advance, split_to}
use zksrv.Buf.Ops.Laws.{or_panic-append, or_panic-short}
use zksrv.Frame.{
  Builder, IoError, invalid_data, num_head_bytes, get_num_skip, get_length, peek_length, make_room,
  decode_head, adjust, or_invalid_input,
}

-- What a length field holds.
abbrev pub field_value : Builder → List ℕ → ℕ
field_value b bs = if b.length_field_is_big_endian then from_be_bytes bs else from_le_bytes bs

-- `length_field_length` makes sure of this.
abbrev pub IsBuilder : Builder → Type 0
IsBuilder b = (1 ≤ b.length_field_len) × (b.length_field_len ≤ 8)

module _ ⦃o : ByteOps⦄ where
  pub get_length-append :
      (b : Builder) (field rest : List ℕ)
      → b.length_field_len ≤ 8
      → length field ≡ b.length_field_len
      → get_length b (field ++ rest) ≡ ok (field_value b field, rest)
  unfolding get_length
  get_length-append b field rest small size = elim (Bool-cases b.length_field_is_big_endian) [
    | inl big ↦
        rw (get_length, big)
          (or_panic-append _ (o.get_uint b.length_field_len) _ (o.get_uint_lem _ small) field rest
            size)
    | inr little ↦
        rw (get_length, little)
          (or_panic-append _ (o.get_uint_le b.length_field_len) _ (o.get_uint_le_lem _ small) field
            rest size)
  ]

  pub advance-append :
      {E : Type 0} (n : ℕ) (bs rest : List ℕ)
      → length bs ≡ n
      → advance {E = E} n (bs ++ rest) ≡ ok (tt, rest)
  unfolding advance
  advance-append n bs rest size = or_panic-append n (o.advance n) _ (o.advance_lem n) bs rest size

  pub split_to-append :
      {E : Type 0} (n : ℕ) (bs rest : List ℕ)
      → length bs ≡ n
      → split_to {E = E} n (bs ++ rest) ≡ ok (bs, rest)
  unfolding split_to
  split_to-append n bs rest size =
      or_panic-append n (o.split_to n) _ (o.split_to_lem n) bs rest size

  -- The length field is looked at behind its offset.
  pub peek_length-append :
      (b : Builder) (front field rest : List ℕ)
      → b.length_field_len ≤ 8
      → length front ≡ b.length_field_offset
      → length field ≡ b.length_field_len
      → peek_length b (front ++ (field ++ rest))
        ≡ ok (field_value b field, front ++ (field ++ rest))
  unfolding peek_length
  peek_length-append b front field rest small size size' =
      let cursor : (advance b.length_field_offset >> get_length b) (front ++ (field ++ rest))
          ≡ ok (field_value b field, rest) =
        bind-ok (advance b.length_field_offset) _ _
          (advance-append b.length_field_offset front _ size)
        ∙ get_length-append b field rest small size' in
      rw (peek_length, cursor)

  get_length-panic :
      (b : Builder) (buf : List ℕ)
      → b.length_field_len ≤ 8
      → length buf < b.length_field_len
      → get_length b buf ≡ panic
  unfolding get_length
  get_length-panic b buf small less = elim (Bool-cases b.length_field_is_big_endian) [
    | inl big ↦
        rw (get_length, big)
          (or_panic-short _ (o.get_uint b.length_field_len) _ (o.get_uint_lem _ small) buf less)
    | inr little ↦
        rw (get_length, little)
          (or_panic-short _ (o.get_uint_le b.length_field_len) _ (o.get_uint_le_lem _ small) buf
            less)
  ]

  -- The cursor panics on a buffer that ends before the field does.
  cursor-panic :
      (b : Builder) (buf : List ℕ)
      → b.length_field_len ≤ 8
      → length buf < b.length_field_offset + b.length_field_len
      → (advance b.length_field_offset >> get_length b) buf ≡ panic
  cursor-panic b buf small less = elim (Bool-cases (ltb (length buf) b.length_field_offset)) [
    | inl short ↦ bind-panic (advance b.length_field_offset) _ buf (
        unfold advance in
        or_panic-short _ (o.advance b.length_field_offset) _ (o.advance_lem _) buf
          (ltb→lt _ _ short))
    | inr long ↦
        let room = ltb→ge (length buf) b.length_field_offset long in
        let skipped : advance {E = IoError} b.length_field_offset buf
            ≡ ok (tt, drop b.length_field_offset buf) =
          subst
            (λ bs.
              advance {E = IoError} b.length_field_offset bs
              ≡ ok (tt, drop b.length_field_offset buf))
            (take-append-drop b.length_field_offset buf)
            (advance-append b.length_field_offset (take b.length_field_offset buf)
              (drop b.length_field_offset buf) (length-take_le b.length_field_offset buf room)) in
        bind-ok (advance b.length_field_offset) _ buf skipped
        ∙ get_length-panic b (drop b.length_field_offset buf) small
            (omega (arith, length-drop b.length_field_offset buf))
  ]

  peek_length-panic :
      (b : Builder) (buf : List ℕ)
      → b.length_field_len ≤ 8
      → length buf < b.length_field_offset + b.length_field_len
      → peek_length b buf ≡ panic
  unfolding peek_length
  peek_length-panic b buf small less = rw (peek_length, cursor-panic b buf small less)

  -- What `decode_head` makes of the field's value.
  abbrev pub after_field : Builder → ℕ → Buf IoError (Option ℕ)
  after_field b n =
      let found : Buf IoError (Option ℕ) = or_invalid_input (adjust b.length_adjustment n) >>= λ n'.
      advance (get_num_skip b) >>= λ _. make_room n' >>= λ _. pure (some n') in
      if ltb b.max_frame_len n then fail invalid_data else found

  pub decode_head-short :
      (b : Builder) (buf : List ℕ)
      → length buf < num_head_bytes b
      → decode_head b buf ≡ ok (none, buf)
  unfolding decode_head remaining ◌>>=◌ pure
  decode_head-short b buf h = rw (lt→ltb (length buf) (num_head_bytes b) h)

  -- The bytes before the field, and the field.
  abbrev pub offset_of : Builder → List ℕ → List ℕ
  offset_of b buf = take b.length_field_offset buf

  abbrev pub field_of : Builder → List ℕ → List ℕ
  field_of b buf = take b.length_field_len (drop b.length_field_offset buf)

  pub decode_head-long :
      (b : Builder) (buf : List ℕ)
      → IsBuilder b
      → num_head_bytes b ≤ length buf
      → b.length_field_offset + b.length_field_len ≤ length buf
      → decode_head b buf ≡ after_field b (field_value b (field_of b buf)) buf
  unfolding decode_head remaining
  decode_head-long b buf (pos, small) long room =
      let rest = drop b.length_field_len (drop b.length_field_offset buf) in
      let size = length-take_le b.length_field_offset buf (omega arith) in
      let size' =
        length-take_le b.length_field_len (drop b.length_field_offset buf)
          (omega (arith, length-drop b.length_field_offset buf)) in
      let parts : offset_of b buf ++ (field_of b buf ++ rest) ≡ buf =
        ap (λ bs. offset_of b buf ++ bs)
          (take-append-drop b.length_field_len (drop b.length_field_offset buf))
        ∙ take-append-drop b.length_field_offset buf in
      let peeked : peek_length b buf ≡ ok (field_value b (field_of b buf), buf) =
        subst (λ bs. peek_length b bs ≡ ok (field_value b (field_of b buf), bs)) parts
          (peek_length-append b (offset_of b buf) (field_of b buf) rest small size size') in
      bind-ok remaining _ buf refl
      ∙ rw (ge→ltb (length buf) (num_head_bytes b) long) (bind-ok (peek_length b) _ buf peeked)

  -- A field that is not there, behind a sum that has wrapped around, is a panic.
  pub decode_head-panic :
      (b : Builder) (buf : List ℕ)
      → IsBuilder b
      → num_head_bytes b ≤ length buf
      → length buf < b.length_field_offset + b.length_field_len
      → decode_head b buf ≡ panic
  unfolding decode_head remaining
  decode_head-panic b buf (_, small) long less =
      bind-ok remaining _ buf refl
      ∙ rw (ge→ltb (length buf) (num_head_bytes b) long)
          (bind-panic (peek_length b) _ buf (peek_length-panic b buf small less))

-- ===== src/Frame/RoundTrip.antt =====
-- length_codec.rs: a frame that `encode` writes is the frame that `decode` reads.
use zksrv.Base.{
  ℕ, ◌^◌, ◌<◌, ◌≤◌, ◌≡◌, refl, sym, ◌∙◌, subst, ℤ, pos, negsuc, none, some, List, [], ◌++◌,
  append_assoc, ge→ltb, Bool-cases, inl, inr, length, length-append, to_be_bytes, to_le_bytes,
  length-to_be_bytes, length-to_le_bytes, from-to_be_bytes, from-to_le_bytes, if◌then◌else◌, arith,
}
use zksrv.Errors.{ok}
use zksrv.Bytes.{ByteOps}
use zksrv.Buf.{pure, bind-ok}
use zksrv.Buf.Ops.{write, remaining, advance, split_to}
use zksrv.Frame.{
  Builder, num_head_bytes, get_num_skip, peek_length, decode_head, decode_data, decode_frame,
  decode_found, decode_in, decode, finish, encode, put_length, adjust, unadjust, or_invalid_input,
  make_room, frame_data,
}
use zksrv.Frame.Options.{new_codec}
use zksrv.Frame.Room.{cannot_grow_le, cannot_grow_lt, make_room-ok}
use zksrv.Frame.Payload.{finish-ok}
use zksrv.Frame.Head.{field_value, IsBuilder, peek_length-append, advance-append, split_to-append}

-- Turning the length of a frame into the field's value and back.
adjust-unadjust : (a : ℤ) (n n' : ℕ) → n < 2 ^ 64 → unadjust a n ≡ some n' → adjust a n' ≡ some n
unfolding adjust unadjust
adjust-unadjust (pos a) n n' h e = ground arith
adjust-unadjust (negsuc a) n n' h e = ground arith

-- The bytes of the length field.
unfoldable pub length_bytes : Builder → ℕ → List ℕ
length_bytes b n =
    if b.length_field_is_big_endian
    then to_be_bytes b.length_field_len n
    else to_le_bytes b.length_field_len n

length-length_bytes : (b : Builder) (n : ℕ) → length (length_bytes b n) ≡ b.length_field_len
unfolding length_bytes
length-length_bytes b n = elim (Bool-cases b.length_field_is_big_endian) [
  | inl big ↦ rw big (length-to_be_bytes b.length_field_len n)
  | inr little ↦ rw little (length-to_le_bytes b.length_field_len n)
]

field_value-length_bytes :
    (b : Builder) (n : ℕ) → n < 256 ^ b.length_field_len → field_value b (length_bytes b n) ≡ n
unfolding length_bytes
field_value-length_bytes b n h = elim (Bool-cases b.length_field_is_big_endian) [
  | inl big ↦ rw big (from-to_be_bytes b.length_field_len n h)
  | inr little ↦ rw little (from-to_le_bytes b.length_field_len n h)
]

module _ ⦃o : ByteOps⦄ where
  put_length_lem :
      (b : Builder) (n : ℕ) (out : List ℕ)
      → b.length_field_len ≤ 8
      → put_length b n out ≡ ok (tt, out ++ length_bytes b n)
  unfolding put_length length_bytes write
  put_length_lem b n out small = elim (Bool-cases b.length_field_is_big_endian) [
    | inl big ↦ rw (big, o.put_uint_lem n _ out small) refl
    | inr little ↦ rw (little, o.put_uint_le_lem n _ out small) refl
  ]

  -- What `encode` writes.
  pub encode_lem :
      (b : Builder) (frame out : List ℕ) (n' : ℕ)
      → IsBuilder b
      → length frame ≤ b.max_frame_len
      → unadjust b.length_adjustment (length frame) ≡ some n'
      → encode b frame out ≡ ok (tt, out ++ (length_bytes b n' ++ frame))
  unfolding encode or_invalid_input pure
  encode_lem b frame out n' (_, small) fits e =
      rw (encode, ge→ltb b.max_frame_len (length frame) fits, e)
        (bind-ok (or_invalid_input (some n')) _ out refl
          ∙ bind-ok (put_length b n') _ _ (put_length_lem b n' out small)
          ∙ (unfold write in
              rw (o.extend_from_slice_lem frame (out ++ length_bytes b n')) (simp append_assoc)))

  decode_head_lem :
      (b : Builder) (field rest : List ℕ) (n n' : ℕ)
      → IsBuilder b
      → b.length_field_offset ≡ 0
      → b.num_skip ≡ none
      → length field ≡ b.length_field_len
      → field_value b field ≡ n'
      → n' ≤ b.max_frame_len
      → adjust b.length_adjustment n' ≡ some n
      → n ≤ length rest
      → decode_head b (field ++ rest) ≡ ok (some n, rest)
  unfolding decode_head remaining or_invalid_input pure
  decode_head_lem b field rest n n' (_, small) at_start no_skip size value fits e there =
      let skip : get_num_skip b ≡ b.length_field_len =
        unfold get_num_skip in rw (no_skip, at_start) (grind arith) in
      let heads : num_head_bytes b ≤ length (field ++ rest) =
        unfold num_head_bytes in rw (no_skip, at_start) (grind (arith, length-append field rest)) in
      let peeked : peek_length b (field ++ rest) ≡ ok (n', field ++ rest) =
        subst (λ v. peek_length b (field ++ rest) ≡ ok (v, field ++ rest)) value
          (peek_length-append b [] field rest small (sym at_start) size) in
      bind-ok remaining _ _ refl
      ∙ rw (ge→ltb (length (field ++ rest)) (num_head_bytes b) heads) (
          bind-ok (peek_length b) _ _ peeked
          ∙ rw (ge→ltb b.max_frame_len n' fits, e)
              (bind-ok (or_invalid_input (some n)) _ (field ++ rest) refl
                ∙ bind-ok (advance (get_num_skip b)) _ _
                    (advance-append (get_num_skip b) field rest (size ∙ sym skip))
                ∙ bind-ok (make_room n) _ _
                    (make_room-ok n rest (cannot_grow_le n (length rest) there))))

  decode_data_lem :
      (frame rest : List ℕ) → decode_data (length frame) (frame ++ rest) ≡ ok (some frame, rest)
  unfolding decode_data remaining pure
  decode_data_lem frame rest =
      bind-ok remaining _ _ refl
      ∙ rw
          (ge→ltb (length (frame ++ rest)) (length frame) (omega (arith, length-append frame rest)))
          (bind-ok (split_to (length frame)) _ _ (split_to-append (length frame) frame rest refl))

  -- A fresh codec on the bytes of a frame.
  pub decode-length_bytes :
      (b : Builder) (frame more : List ℕ) (n' : ℕ)
      → IsBuilder b
      → b.length_field_offset ≡ 0
      → b.num_skip ≡ none
      → length frame < 2 ^ 64
      → unadjust b.length_adjustment (length frame) ≡ some n'
      → n' ≤ b.max_frame_len
      → n' < 256 ^ b.length_field_len
      → decode (new_codec b) ((length_bytes b n' ++ frame) ++ more)
        ≡ ok ((some (frame, length frame), new_codec b), more)
  unfolding decode decode_in decode_found decode_frame new_codec finish pure
  decode-length_bytes b frame more n' good at_start no_skip small e fits' small' =
      let field = length_bytes b n' in
      let headed =
        decode_head_lem b field (frame ++ more) (length frame) n' good at_start no_skip
          (length-length_bytes b n') (field_value-length_bytes b n' small') fits'
          (adjust-unadjust b.length_adjustment (length frame) n' small e)
          (omega (arith, length-append frame more)) in
      let heads : num_head_bytes b < 2 ^ 63 =
        unfold num_head_bytes in rw (no_skip, at_start) (grind arith) in
      rw (append_assoc field frame more) (
        bind-ok (decode_head b) _ _ headed
        ∙ bind-ok (decode_data (length frame)) _ _ (decode_data_lem frame more)
        ∙ finish-ok (record (new_codec b) { state = frame_data (length frame) }) (length frame)
            frame more (cannot_grow_lt _ (length more) heads))

  -- A frame that `encode` writes at the end of any buffer, with a length field of one to eight
  -- bytes at the start and no other number of bytes to skip, is the frame that a fresh codec of
  -- the same settings decodes from the bytes written, whatever follows them; what follows is
  -- left, and the codec is as before. The frame is shorter than 2 ^ 64 bytes, its length is
  -- within the maximum both before and after the adjustment, and the adjusted length fits the
  -- field.
  pub decode-encode :
      (b : Builder) (frame out more : List ℕ) (n' : ℕ)
      → IsBuilder b
      → b.length_field_offset ≡ 0
      → b.num_skip ≡ none
      → length frame ≤ b.max_frame_len
      → length frame < 2 ^ 64
      → unadjust b.length_adjustment (length frame) ≡ some n'
      → n' ≤ b.max_frame_len
      → n' < 256 ^ b.length_field_len
      → (bs : List ℕ) × (encode b frame out ≡ ok (tt, out ++ bs))
        × (decode (new_codec b) (bs ++ more) ≡ ok ((some (frame, length frame), new_codec b), more))
  decode-encode b frame out more n' good at_start no_skip fits small e fits' small' = (
    length_bytes b n' ++ frame,
    encode_lem b frame out n' good fits e,
    decode-length_bytes b frame more n' good at_start no_skip small e fits' small',
  )

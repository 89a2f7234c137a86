-- ===== src/Runs/Frames.antt =====
-- The frames of length_codec.rs at concrete inputs.
use zksrv.Base.{
  ℕ, ◌≡◌, refl, take, length, negsuc, false, from_le_bytes, from_be_bytes, pos, true, ◌-◌, none,
  some, List, [], ◌∷◌, ◌++◌, arith,
}
use zksrv.Errors.{ok, panic}
use zksrv.Bytes.Concrete.{concrete}
use zksrv.Buf.{◌>>=◌, pure}
use zksrv.Buf.Ops.{remaining, advance, or_panic, split_to, reserve}
use zksrv.Frame.{unadjust, Builder, LengthDelimitedCodec, head, frame_data, decode, encode}
use zksrv.Frame.Options.{new_codec}
use zksrv.Frame.Described.{skip_of, Shifted, longest, IsBounded}
use zksrv.Frame.RoundTrip.{decode-encode}
use zksrv.Frame.Chunks.{Drained, waits, yields, Drained-append}
use zksrv.Frame.Outcomes.{Decodes, HasHead, field_in}
use zksrv.Frame.Safety.{decode-result, decode-frame}
use zksrv.Frame.Documented.{head_of, documented, decode-documented}

-- A two-byte length field, the least significant byte first, that counts itself.
abbrev builder : Builder
builder = record {
  max_frame_len = 100;
  length_field_len = 2;
  length_field_offset = 0;
  length_adjustment = negsuc 1;
  num_skip = none;
  length_field_is_big_endian = false;
}

abbrev codec : LengthDelimitedCodec
codec = record { builder = builder; state = head }

abbrev frame : List ℕ
frame = 104 ∷ 101 ∷ 121 ∷ []

abbrev sent : List ℕ
sent = 5 ∷ 0 ∷ frame

decode_sent : decode codec (sent ++ 9 ∷ []) ≡ ok ((some (frame, 3), codec), 9 ∷ [])
unfolding decode ◌>>=◌ remaining advance reserve or_panic from_le_bytes pure split_to
decode_sent = refl

decode_part :
    decode codec (5 ∷ 0 ∷ 104 ∷ []) ≡ ok ((none, record codec { state = frame_data 3 }), 104 ∷ [])
unfolding decode ◌>>=◌ remaining advance reserve or_panic from_le_bytes pure split_to
decode_part = refl

decode_rest :
    decode (record codec { state = frame_data 3 }) (104 ∷ 101 ∷ 121 ∷ 9 ∷ [])
    ≡ ok ((some (frame, 3), codec), 9 ∷ [])
unfolding decode ◌>>=◌ remaining advance reserve or_panic from_le_bytes pure split_to
decode_rest = refl

decode_end : decode codec (9 ∷ []) ≡ ok ((none, codec), 9 ∷ [])
unfolding decode ◌>>=◌ remaining advance reserve or_panic from_le_bytes pure split_to
decode_end = refl

unadjust_sent : unadjust (negsuc 1) 3 ≡ some 5
unfolding unadjust
unadjust_sent = refl

decode-encode_example :
    (bs : List ℕ) × (encode builder frame (1 ∷ []) ≡ ok (tt, (1 ∷ []) ++ bs))
    × (decode (new_codec builder) (bs ++ (9 ∷ []))
        ≡ ok ((some (frame, 3), new_codec builder), 9 ∷ []))
decode-encode_example =
    decode-encode builder frame (1 ∷ []) (9 ∷ []) 5 (omega arith, omega arith) refl refl
      (omega arith) (omega arith) unadjust_sent (omega arith) (omega arith)

builder-IsBounded : IsBounded builder
unfolding skip_of longest
builder-IsBounded = (omega arith, omega arith, omega arith)

decode-result_example : Decodes codec (sent ++ 9 ∷ []) head (decode codec (sent ++ 9 ∷ []))
decode-result_example =
    decode-result codec (sent ++ 9 ∷ []) (omega arith, omega arith) builder-IsBounded

Drained-append_example :
    Drained codec (5 ∷ 0 ∷ 104 ∷ 101 ∷ 121 ∷ 9 ∷ []) ((frame, 3) ∷ []) codec (9 ∷ [])
Drained-append_example =
    Drained-append codec (record codec { state = frame_data 3 }) codec (5 ∷ 0 ∷ 104 ∷ [])
      (101 ∷ 121 ∷ 9 ∷ []) (104 ∷ []) (9 ∷ []) [] ((frame, 3) ∷ []) (omega arith, omega arith)
      (waits codec (record codec { state = frame_data 3 }) (5 ∷ 0 ∷ 104 ∷ []) (104 ∷ [])
        decode_part)
      (yields _ _ _ _ _ _ _ _ decode_rest (waits codec codec (9 ∷ []) (9 ∷ []) decode_end))

decode-frame_example :
    (sent ++ 9 ∷ [] ≡ take (skip_of builder) (sent ++ 9 ∷ []) ++ (frame ++ 9 ∷ []))
    × HasHead builder (sent ++ 9 ∷ [])
    × (length frame ≡ 3)
    × Shifted (negsuc 1) (field_in builder (sent ++ 9 ∷ [])) 3
    × (codec ≡ codec)
decode-frame_example =
    decode-frame codec codec 3 (sent ++ 9 ∷ []) frame (9 ∷ []) (omega arith, omega arith)
      (omega arith) refl decode_sent

-- Example 1 of the documentation: `num_skip(0)`, and a two-byte field at the start, the most
-- significant byte first.
abbrev builder_1 : Builder
builder_1 = record {
  max_frame_len = 8388608;
  length_field_len = 2;
  length_field_offset = 0;
  length_adjustment = pos 0;
  num_skip = some 0;
  length_field_is_big_endian = true;
}

abbrev codec_1 : LengthDelimitedCodec
codec_1 = record { builder = builder_1; state = head }

-- "Hello wor" and "Hello world".
abbrev hello_wor : List ℕ
hello_wor = 72 ∷ 101 ∷ 108 ∷ 108 ∷ 111 ∷ 32 ∷ 119 ∷ 111 ∷ 114 ∷ []

abbrev hello_world : List ℕ
hello_world = hello_wor ++ 108 ∷ 100 ∷ []

decode_1 :
    decode codec_1 (0 ∷ 11 ∷ hello_world)
    ≡ ok ((some (0 ∷ 11 ∷ hello_wor, 11), codec_1), 108 ∷ 100 ∷ [])
unfolding decode ◌>>=◌ remaining advance reserve or_panic from_be_bytes pure split_to
decode_1 = refl

decode-documented_example :
    documented builder_1 11 (0 ∷ 11 ∷ hello_world)
    ≡ (0 ∷ 11 ∷ hello_wor) ++ take (head_of builder_1 - skip_of builder_1) (108 ∷ 100 ∷ [])
decode-documented_example =
    decode-documented codec_1 codec_1 11 (0 ∷ 11 ∷ hello_world) (0 ∷ 11 ∷ hello_wor)
      (108 ∷ 100 ∷ []) (omega arith, omega arith) (omega arith) refl decode_1

-- The frame that the documentation shows for it.
documented_1 : documented builder_1 11 (0 ∷ 11 ∷ hello_world) ≡ 0 ∷ 11 ∷ hello_world
unfolding documented skip_of
documented_1 = refl

-- Example 5 of the documentation, a field within the head, and Example 7, a byte behind the field.
abbrev codec_5 : LengthDelimitedCodec
codec_5 = record {
  builder = record builder_1 {
    length_field_offset = 1;
    length_adjustment = pos 1;
    num_skip = some 3;
  };
  state = head;
}

decode_5 :
    decode codec_5 (202 ∷ 0 ∷ 11 ∷ 254 ∷ hello_world)
    ≡ ok ((some (254 ∷ hello_world, 12), codec_5), [])
unfolding decode ◌>>=◌ remaining advance reserve or_panic from_be_bytes pure split_to
decode_5 = refl

abbrev codec_7 : LengthDelimitedCodec
codec_7 = record {
  builder = record builder_1 { length_field_len = 3; num_skip = some 4 };
  state = head;
}

decode_7 :
    decode codec_7 (0 ∷ 0 ∷ 11 ∷ 255 ∷ hello_world) ≡ ok ((some (hello_world, 11), codec_7), [])
unfolding decode ◌>>=◌ remaining advance reserve or_panic from_be_bytes pure split_to
decode_7 = refl

-- A field whose end is at byte 2 ^ 64, and a frame of 2 ^ 63 bytes: the panics that the bounds on
-- the settings rule out.
abbrev codec_wrapped : LengthDelimitedCodec
codec_wrapped = record {
  builder = record builder_1 { length_field_offset = 18446744073709551614; num_skip = none };
  state = head;
}

decode_wrapped : decode codec_wrapped (0 ∷ 11 ∷ []) ≡ panic
unfolding decode ◌>>=◌ remaining advance reserve or_panic from_be_bytes pure split_to
decode_wrapped = refl

abbrev codec_huge : LengthDelimitedCodec
codec_huge = record {
  builder = record builder_1 { length_adjustment = pos 9223372036854775807; num_skip = none };
  state = head;
}

decode_huge : decode codec_huge (0 ∷ 1 ∷ []) ≡ panic
unfolding decode ◌>>=◌ remaining advance reserve or_panic from_be_bytes pure split_to
decode_huge = refl

-- ===== src/Frame/Outcomes.antt =====
-- length_codec.rs: what a codec is to return, by its settings, its state and the positions in its
-- buffer.
use zksrv.Base.{ℕ, ◌^◌, ◌<◌, ◌≤◌, ◌⊎◌, Option, none, some, List, length, take, drop}
use zksrv.Errors.{Outcome, ok, err}
use zksrv.Frame.{
  Builder, LengthDelimitedCodec, DecodeState, head, frame_data, IoError, invalid_data,
  invalid_input,
}
use zksrv.Frame.Head.{field_value}
use zksrv.Frame.Described.{front, skip_of, Shifted}

-- The value of the length field of a buffer.
abbrev pub field_in : Builder → List ℕ → ℕ
field_in b buf = field_value b (take b.length_field_len (drop b.length_field_offset buf))

abbrev pub Result : Type 0
Result = Outcome IoError ((Option (List ℕ × ℕ) × LengthDelimitedCodec) × List ℕ)

-- A head is there, and its field is within the maximum.
abbrev pub HasHead : Builder → List ℕ → Type 0
HasHead b buf =
    (front b ≤ length buf) × (skip_of b ≤ length buf) × (field_in b buf ≤ b.max_frame_len)

-- What a codec returns that waits for the data of a frame of `n` bytes.
pub data DecodesData (codec : LengthDelimitedCodec) (buf : List ℕ) (n : ℕ) : Result → Type 0 where
  no_frame : length buf < n → DecodesData codec buf n (ok ((none, codec), buf))
  one_frame :
      n ≤ length buf
      → DecodesData codec buf n
          (ok ((some (take n buf, n), record codec { state = head }), drop n buf))

-- What a codec returns, by its state and its buffer.
pub data Decodes (codec : LengthDelimitedCodec) (buf : List ℕ) : DecodeState → Result → Type 0 where
  no_head :
      (length buf < front codec.builder) ⊎ (length buf < skip_of codec.builder)
      → Decodes codec buf head (ok ((none, codec), buf))
  too_long :
      front codec.builder ≤ length buf
      → skip_of codec.builder ≤ length buf
      → codec.builder.max_frame_len < field_in codec.builder buf
      → Decodes codec buf head (err invalid_data)
  no_length :
      HasHead codec.builder buf
      → ((n : ℕ)
          → n < 2 ^ 64
          → ¬ Shifted codec.builder.length_adjustment (field_in codec.builder buf) n)
      → Decodes codec buf head (err invalid_input)
  in_head :
      (n : ℕ) {r : Result}
      → HasHead codec.builder buf
      → Shifted codec.builder.length_adjustment (field_in codec.builder buf) n
      → DecodesData (record codec { state = frame_data n }) (drop (skip_of codec.builder) buf) n r
      → Decodes codec buf head r
  in_data : (n : ℕ) {r : Result} → DecodesData codec buf n r → Decodes codec buf (frame_data n) r

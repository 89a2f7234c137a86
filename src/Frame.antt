-- ===== src/Frame.antt =====
-- length_codec.rs: frames behind their length. `Builder` is the configuration,
-- `LengthDelimitedCodec` the configuration with the state of reading.
pub mod Options
pub mod Room
pub mod Head
pub mod RoundTrip
pub mod Parts
pub mod Payload
pub mod Chunks
pub mod Described
pub mod Outcomes
pub mod Safety
pub mod Documented
use zksrv.Base.{
  ℕ, suc, ◌+◌, ◌-◌, ◌%◌, ◌^◌, ℤ, pos, negsuc, Bool, true, false, Option, none, some, List, ltb, leb,
  length, if◌then◌else◌,
}
use zksrv.Errors.{Outcome, ok, and_then}
use zksrv.Bytes.{ByteOps}
use zksrv.Buf.{Buf, pure, fail, abort, ◌>>=◌, ◌>>◌}
use zksrv.Buf.Ops.{or_panic, write, remaining, split_to, advance, reserve}

pub record Builder : Type 0 where
  pub max_frame_len : ℕ
  pub length_field_len : ℕ
  pub length_field_offset : ℕ
  pub length_adjustment : ℤ
  pub num_skip : Option ℕ
  pub length_field_is_big_endian : Bool

pub data DecodeState : Type 0 where
  head : DecodeState
  frame_data : ℕ → DecodeState

pub record LengthDelimitedCodec : Type 0 where
  pub builder : Builder
  pub state : DecodeState

-- The kinds of the errors that the codec returns.
pub data IoError : Type 0 where
  invalid_data invalid_input : IoError

-- `a.checked_add(b)` and `a.checked_sub(b)` on usize.
abbrev pub checked_add : ℕ → ℕ → Option ℕ
checked_add a b = if ltb (a + b) (2 ^ 64) then some (a + b) else none

abbrev pub checked_sub : ℕ → ℕ → Option ℕ
checked_sub a b = if leb b a then some (a - b) else none

abbrev pub unwrap_or : Option ℕ → ℕ → ℕ
unwrap_or (some n) d = n
unwrap_or none d = d

-- `a + b` on usize, without the overflow check of a debug build.
abbrev pub wrapping_add : ℕ → ℕ → ℕ
wrapping_add a b = (a + b) % 2 ^ 64

unfoldable pub num_head_bytes : Builder → ℕ
num_head_bytes b =
    let num = wrapping_add b.length_field_offset b.length_field_len in
    let skip = unwrap_or b.num_skip 0 in if ltb num skip then skip else num

unfoldable pub get_num_skip : Builder → ℕ
get_num_skip b = unwrap_or b.num_skip (wrapping_add b.length_field_offset b.length_field_len)

-- From the length field to the length of the frame.
unfoldable pub adjust : ℤ → ℕ → Option ℕ
adjust (negsuc a) n = checked_sub n (suc a)
adjust (pos a) n = checked_add n a

-- And back.
unfoldable pub unadjust : ℤ → ℕ → Option ℕ
unadjust (negsuc a) n = checked_add n (suc a)
unadjust (pos a) n = checked_sub n a

unfoldable pub or_invalid_input : Option ℕ → Buf IoError ℕ
or_invalid_input (some n) = pure n
or_invalid_input none = fail invalid_input

module _ ⦃o : ByteOps⦄ where
  unfoldable pub get_length : Builder → Buf IoError ℕ
  get_length b =
      if b.length_field_is_big_endian
      then or_panic (o.get_uint b.length_field_len)
      else or_panic (o.get_uint_le b.length_field_len)

  -- The length field, by a cursor over the buffer: the buffer stays.
  unfoldable pub peek_length : Builder → Buf IoError ℕ
  unfolding get_length
  peek_length b buf =
      and_then ((advance b.length_field_offset >> get_length b) buf) (λ (n, cursor). ok (n, buf))

  -- `src.reserve(n.saturating_sub(src.len()))`
  unfoldable pub make_room : ℕ → Buf IoError (Unit {0})
  make_room n = do len ← remaining; reserve (n - len)

  unfoldable pub decode_head : Builder → Buf IoError (Option ℕ)
  unfolding num_head_bytes get_num_skip peek_length adjust or_invalid_input make_room
  decode_head b = do
    len ← remaining
    let read = do
      n ← peek_length b
      let found = do
        n' ← or_invalid_input (adjust b.length_adjustment n)
        advance (get_num_skip b)
        make_room n'
        pure (some n')
      if ltb b.max_frame_len n then fail invalid_data else found
    if ltb len (num_head_bytes b) then pure none else read

  unfoldable pub decode_data : ℕ → Buf IoError (Option (List ℕ))
  decode_data n = do
    len ← remaining
    let read = do frame ← split_to n; pure (some frame)
    if ltb len n then pure none else read

  -- What `decode` returns: a frame with its length, if one is complete, and the codec's new state.
  abbrev pub Decoded : Type 0
  Decoded = Option (List ℕ × ℕ) × LengthDelimitedCodec

  unfoldable pub finish : LengthDelimitedCodec → ℕ → Option (List ℕ) → Buf IoError Decoded
  unfolding num_head_bytes make_room
  finish codec n (some frame) = do
    make_room (num_head_bytes codec.builder)
    pure (some (frame, n), record codec { state = head })
  finish codec n none = pure (none, codec)

  unfoldable pub decode_frame : LengthDelimitedCodec → ℕ → Buf IoError Decoded
  unfolding decode_data finish
  decode_frame codec n = do frame ← decode_data n; finish codec n frame

  unfoldable pub decode_found : LengthDelimitedCodec → Option ℕ → Buf IoError Decoded
  unfolding decode_frame
  decode_found codec (some n) = decode_frame (record codec { state = frame_data n }) n
  decode_found codec none = pure (none, codec)

  unfoldable pub decode_in : LengthDelimitedCodec → DecodeState → Buf IoError Decoded
  unfolding decode_head decode_found decode_frame
  decode_in codec head = do n ← decode_head codec.builder; decode_found codec n
  decode_in codec (frame_data n) = decode_frame codec n

  unfoldable pub decode : LengthDelimitedCodec → Buf IoError Decoded
  unfolding decode_in
  decode codec = decode_in codec codec.state

  unfoldable pub put_length : Builder → ℕ → Buf IoError (Unit {0})
  put_length b n =
      if b.length_field_is_big_endian
      then write (o.put_uint n b.length_field_len)
      else write (o.put_uint_le n b.length_field_len)

  unfoldable pub encode : Builder → List ℕ → Buf IoError (Unit {0})
  unfolding unadjust or_invalid_input put_length
  encode b frame =
      let n = length frame in
      let send = do
        n' ← or_invalid_input (unadjust b.length_adjustment n)
        put_length b n'
        write (o.extend_from_slice frame)
      in if ltb b.max_frame_len n then fail invalid_input else send

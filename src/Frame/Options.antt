-- ===== src/Frame/Options.antt =====
-- length_codec.rs: `Builder`'s settings.
use zksrv.Base.{ℕ, ◌*◌, ℤ, pos, true, false, Option, none, some, ltb, leb, ◌&&◌, if◌then◌else◌}
use zksrv.Frame.{Builder, LengthDelimitedCodec, head}

unfoldable pub new : Builder
new = record {
  max_frame_len = 8 * 1_024 * 1_024;
  length_field_len = 4;
  length_field_offset = 0;
  length_adjustment = pos 0;
  num_skip = none;
  length_field_is_big_endian = true;
}

unfoldable pub big_endian : Builder → Builder
big_endian b = record b { length_field_is_big_endian = true }

unfoldable pub little_endian : Builder → Builder
little_endian b = record b { length_field_is_big_endian = false }

unfoldable pub max_frame_length : ℕ → Builder → Builder
max_frame_length val b = record b { max_frame_len = val }

-- `none` is a failed assertion.
unfoldable pub length_field_length : ℕ → Builder → Option Builder
length_field_length val b =
    if ltb 0 val && leb val 8 then some (record b { length_field_len = val }) else none

unfoldable pub length_field_offset : ℕ → Builder → Builder
length_field_offset val b = record b { length_field_offset = val }

unfoldable pub length_adjustment : ℤ → Builder → Builder
length_adjustment val b = record b { length_adjustment = val }

unfoldable pub num_skip : ℕ → Builder → Builder
num_skip val b = record b { num_skip = some val }

unfoldable pub new_codec : Builder → LengthDelimitedCodec
new_codec b = record { builder = b; state = head }

-- `set_max_frame_length` of a codec.
unfoldable pub set_max_frame_length : ℕ → LengthDelimitedCodec → LengthDelimitedCodec
unfolding max_frame_length
set_max_frame_length val c = record c { builder = max_frame_length val c.builder }

-- The settings that the proxy's codecs share (`LENGTH_DELIMITED_CODEC` of codec.rs).
unfoldable pub zk_builder : Option Builder
unfolding new big_endian length_adjustment length_field_offset length_field_length max_frame_length
zk_builder = elim (length_field_length 4 (max_frame_length (1 * 1_024 * 1_024) new)) [
  | some b ↦ some (big_endian (length_adjustment (pos 0) (length_field_offset 0 b)))
  | none ↦ none
]

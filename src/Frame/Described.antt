-- ===== src/Frame/Described.antt =====
-- length_codec.rs: the settings of a frame as the comments of the builder's methods describe
-- them, and what the code computes from the settings.
use zksrv.Base.{
  ℕ, suc, ◌+◌, ◌^◌, ◌<◌, ◌≤◌, ◌≡◌, ◌⊎◌, refl, ℤ, pos, negsuc, none, some, Option-cases, inl, inr,
  arith,
}
use zksrv.Frame.{Builder, num_head_bytes, get_num_skip, adjust}

-- The bytes up to the end of the length field.
abbrev pub front : Builder → ℕ
front b = b.length_field_offset + b.length_field_len

-- `num_skip`: the bytes to skip before reading the payload, by default those up to the field's end.
unfoldable pub skip_of : Builder → ℕ
skip_of b = elim b.num_skip [ some skip ↦ skip | none ↦ front b ]

-- `length_adjustment`: `n` is the value `v` of the field with the signed adjustment added.
unfoldable pub Shifted : ℤ → ℕ → ℕ → Type 0
Shifted (pos a) v n = n ≡ v + a
Shifted (negsuc a) v n = n + suc a ≡ v

-- A bound on the payloads that a field of at most `v` announces: a negative adjustment only makes
-- them shorter.
unfoldable pub longest : ℤ → ℕ → ℕ
longest (pos a) v = v + a
longest (negsuc a) v = v

-- Settings that never ask for 2 ^ 63 bytes, which no buffer can hold.
abbrev pub IsBounded : Builder → Type 0
IsBounded b =
    (front b < 2 ^ 63)
    × (skip_of b < 2 ^ 63)
    × (longest b.length_adjustment b.max_frame_len < 2 ^ 63)

pub get_num_skip-skip_of : (b : Builder) → front b < 2 ^ 64 → get_num_skip b ≡ skip_of b
unfolding get_num_skip skip_of
get_num_skip-skip_of b h = elim (Option-cases b.num_skip) [
  | inl e ↦ rw e (grind arith)
  | inr (skip, e) ↦ rw e refl
]

pub head_le :
    (b : Builder) (len : ℕ)
    → front b < 2 ^ 64
    → num_head_bytes b ≤ len
    → (front b ≤ len) × (skip_of b ≤ len)
unfolding num_head_bytes skip_of
head_le b len h le = elim (Option-cases b.num_skip) [
  | inl e ↦ let le' = rw e at le in (grind arith, rw e (grind arith))
  | inr (skip, e) ↦ let le' = rw e at le in (grind arith, rw e (grind arith))
]

pub head_lt :
    (b : Builder) (len : ℕ)
    → front b < 2 ^ 64
    → len < num_head_bytes b
    → (len < front b) ⊎ (len < skip_of b)
unfolding num_head_bytes skip_of
head_lt b len h lt = elim (Option-cases b.num_skip) [
  | inl e ↦ let lt' = rw e at lt in inl (grind arith)
  | inr (skip, e) ↦ let lt' = rw e at lt in rw e (grind arith)
]

pub head-bounded : (b : Builder) → front b < 2 ^ 63 → skip_of b < 2 ^ 63 → num_head_bytes b < 2 ^ 63
unfolding num_head_bytes skip_of
head-bounded b h h' = elim (Option-cases b.num_skip) [
  | inl e ↦ rw e (grind arith)
  | inr (skip, e) ↦ let h'' = rw e at h' in rw e (grind arith)
]

pub adjust-Shifted : (a : ℤ) (v n : ℕ) → adjust a v ≡ some n → Shifted a v n
unfolding adjust Shifted
adjust-Shifted (pos a) v n e = ground arith
adjust-Shifted (negsuc a) v n e = ground arith

pub adjust-none : (a : ℤ) (v n : ℕ) → adjust a v ≡ none → n < 2 ^ 64 → ¬ Shifted a v n
unfolding adjust Shifted
adjust-none (pos a) v n e small = ground arith
adjust-none (negsuc a) v n e small = ground arith

pub Shifted-longest : (a : ℤ) (v v' n : ℕ) → v ≤ v' → Shifted a v n → n ≤ longest a v'
unfolding Shifted longest
Shifted-longest (pos a) v v' n h e = omega arith
Shifted-longest (negsuc a) v v' n h e = omega arith

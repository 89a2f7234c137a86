-- ===== src/Text.antt =====
-- The language's `String`: a sequence of bytes that is valid UTF-8.
use zksrv.Base.{
  ℕ, Bool, true, false, ◌&&◌, Option, none, some, List, [], ◌∷◌, ltb, leb, if◌then◌else◌,
}

pub record String : Type 0 where
  pub as_bytes : List ℕ

-- What may follow a byte that begins a character: a range for each further byte.
lead : ℕ → Option (List (ℕ × ℕ))
lead b =
    let cont : ℕ × ℕ = (0x80, 0xbf) in
    if ltb b 0x80
    then some []
    else if ltb b 0xc2
    then none
    else if ltb b 0xe0
    then some (cont ∷ [])
    else if ltb b 0xe1
    then some ((0xa0, 0xbf) ∷ cont ∷ [])
    else if ltb b 0xed
    then some (cont ∷ cont ∷ [])
    else if ltb b 0xee
    then some ((0x80, 0x9f) ∷ cont ∷ [])
    else if ltb b 0xf0
    then some (cont ∷ cont ∷ [])
    else if ltb b 0xf1
    then some ((0x90, 0xbf) ∷ cont ∷ cont ∷ [])
    else if ltb b 0xf4
    then some (cont ∷ cont ∷ cont ∷ [])
    else if ltb b 0xf5
    then some ((0x80, 0x8f) ∷ cont ∷ cont ∷ [])
    else none

utf8_from : List (ℕ × ℕ) → List ℕ → Bool
unfolding lead
utf8_from [] [] = true
utf8_from (r ∷ rs) [] = false
utf8_from [] (b ∷ bs) = elim (lead b) [ some rs ↦ utf8_from rs bs | none ↦ false ]
utf8_from ((lo, hi) ∷ rs) (b ∷ bs) = leb lo b && leb b hi && utf8_from rs bs

unfoldable pub is_utf8 : List ℕ → Bool
unfolding utf8_from
is_utf8 bs = utf8_from [] bs

-- `String::from_utf8`.
unfoldable pub from_utf8 : List ℕ → Option String
unfolding is_utf8
from_utf8 bs = if is_utf8 bs then some (record { as_bytes = bs }) else none

-- ===== src/Frame/Room.antt =====
-- length_codec.rs: `src.reserve(n.saturating_sub(src.len()))`.
use zksrv.Base.{
  ℕ, ◌+◌, ◌-◌, ◌^◌, ◌≤◌, ◌<◌, ◌≡◌, refl, sym, ◌∙◌, Bool, false, ◌&&◌, Option, none, some, List, ltb,
  leb, Bool-cases, inl, inr, length, if◌then◌else◌, arith,
}
use zksrv.Errors.{ok, panic}
use zksrv.Bytes.{ByteOps}
use zksrv.Buf.{bind-ok}
use zksrv.Buf.Ops.{remaining, reserve, or_panic}
use zksrv.Frame.{IoError, make_room}

-- A buffer of `len` bytes cannot be made to hold `n`.
abbrev pub cannot_grow : ℕ → ℕ → Bool
cannot_grow n len = ltb len n && leb (2 ^ 63) n

-- It can if it holds as many, or if these are fewer than 2 ^ 63.
pub cannot_grow_le : (n len : ℕ) → n ≤ len → cannot_grow n len ≡ false
cannot_grow_le n len h = ground arith

pub cannot_grow_lt : (n len : ℕ) → n < 2 ^ 63 → cannot_grow n len ≡ false
cannot_grow_lt n len h = ground arith

-- A longer buffer can be made to hold `n` if a shorter one can.
pub cannot_grow_mono :
    (n len len' : ℕ) → len ≤ len' → cannot_grow n len ≡ false → cannot_grow n len' ≡ false
cannot_grow_mono n len len' h e = ground arith

module _ ⦃o : ByteOps⦄ where
  over : (n len : ℕ) → (ltb 0 (n - len) && leb (2 ^ 63) (len + (n - len))) ≡ cannot_grow n len
  over n len = ground arith

  or_panic-none :
      {A : Type 0} (f : List ℕ → Option (A × List ℕ)) (buf : List ℕ)
      → f buf ≡ none
      → or_panic {E = IoError} f buf ≡ panic
  unfolding or_panic
  or_panic-none f buf e = rw (or_panic, e) refl

  or_panic-some :
      {A : Type 0} (f : List ℕ → Option (A × List ℕ)) (buf : List ℕ) {r : A × List ℕ}
      → f buf ≡ some r
      → or_panic {E = IoError} f buf ≡ ok r
  unfolding or_panic
  or_panic-some f buf e = rw (or_panic, e) refl

  make_room_lem :
      (n : ℕ) (buf : List ℕ)
      → make_room n buf ≡ (if cannot_grow n (length buf) then panic else ok (tt, buf))
  unfolding make_room remaining reserve
  make_room_lem n buf = elim (Bool-cases (cannot_grow n (length buf))) [
    | inl e ↦
        bind-ok remaining _ buf refl
        ∙ or_panic-none (o.reserve (n - length buf)) buf
            (o.reserve_lem (n - length buf) buf ∙ rw (over n (length buf), e) refl)
        ∙ rw e refl
    | inr e ↦
        bind-ok remaining _ buf refl
        ∙ or_panic-some (o.reserve (n - length buf)) buf {r = (tt, buf)}
            (o.reserve_lem (n - length buf) buf ∙ rw (over n (length buf), e) refl)
        ∙ rw e refl
  ]

  pub make_room-ok :
      (n : ℕ) (buf : List ℕ) → cannot_grow n (length buf) ≡ false → make_room n buf ≡ ok (tt, buf)
  make_room-ok n buf e = make_room_lem n buf ∙ rw e refl

  pub make_room-eq-ok :
      (n : ℕ) (buf rest : List ℕ)
      → make_room n buf ≡ ok (tt, rest)
      → (cannot_grow n (length buf) ≡ false) × (buf ≡ rest)
  make_room-eq-ok n buf rest h = elim (Bool-cases (cannot_grow n (length buf))) [
    | inl e ↦ let h' = rw e at (sym (make_room_lem n buf) ∙ h) in cc
    | inr e ↦ let h' = rw e at (sym (make_room_lem n buf) ∙ h) in (e, cc)
  ]

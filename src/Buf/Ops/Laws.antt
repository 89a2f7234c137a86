-- ===== src/Buf/Ops/Laws.antt =====
-- What each call on a buffer does, from the documentation of the crate `bytes`.
use zksrv.Base.{
  ℕ, ◌^◌, ◌<◌, ◌≡◌, sym, ◌∙◌, Option, List, ◌++◌, ltb, lt→ltb, Bool-cases, inl, inr, length, take,
  drop, take-append-drop, length-take_le, ltb→ge, ltb→lt, to_be_bytes, arith,
}
use zksrv.Errors.{ok, panic}
use zksrv.Bytes.{ByteOps, Takes}
use zksrv.Buf.{Buf, pure, abort, ◌>>=◌}
use zksrv.Buf.Ops.{or_panic, write, alloc, put_u8, put_i32, put_i64, put_slice}

module _ {E A : Type 0} (n : ℕ) (f : List ℕ → Option (A × List ℕ)) (value : List ℕ → A) where
  pub or_panic-append :
      Takes n f value
      → (bs rest : List ℕ) → length bs ≡ n
      → or_panic {E = E} f (bs ++ rest) ≡ ok (value bs, rest)
  unfolding or_panic
  or_panic-append t bs rest e = rw (or_panic, t.takes bs rest e)

  pub or_panic-short :
      Takes n f value → (buf : List ℕ) → length buf < n → or_panic {E = E} f buf ≡ panic
  unfolding or_panic
  or_panic-short t buf h = rw (or_panic, t.short buf h)

  pub or_panic-eq-ok :
      Takes n f value
      → (buf : List ℕ) {a : A} {rest : List ℕ} → or_panic {E = E} f buf ≡ ok (a, rest)
      → (bs : List ℕ) × (length bs ≡ n) × (buf ≡ bs ++ rest) × (a ≡ value bs)
  or_panic-eq-ok t buf {a = a} {rest = rest} h = elim (Bool-cases (ltb (length buf) n)) [
    | inl less ↦ cc (h, or_panic-short t buf (ltb→lt (length buf) n less))
    | inr more ↦
        let size = length-take_le n buf (ltb→ge (length buf) n more) in
        let run = or_panic-append t (take n buf) (drop n buf) size in
        let whole = take-append-drop n buf in
        let run' : or_panic {E = E} f buf ≡ ok (value (take n buf), drop n buf) = rw whole at run in
        let same = sym h ∙ run' in (take n buf, size, cc, cc)
  ]

module _ {ℓ} ⦃b : ByteOps⦄ {E : Type 0} {B : Type ℓ} (f : Unit {0} → Buf E B) (buf : List ℕ) where
  pub put_u8-bind : (v : ℕ) → (put_u8 v >>= f) buf ≡ f tt (buf ++ to_be_bytes 1 v)
  unfolding put_u8 write ◌>>=◌
  put_u8-bind v = rw (b.put_u8_lem v buf)

  pub put_i32-bind : (v : ℕ) → (put_i32 v >>= f) buf ≡ f tt (buf ++ to_be_bytes 4 v)
  unfolding put_i32 write ◌>>=◌
  put_i32-bind v = rw (b.put_i32_lem v buf)

  pub put_i64-bind : (v : ℕ) → (put_i64 v >>= f) buf ≡ f tt (buf ++ to_be_bytes 8 v)
  unfolding put_i64 write ◌>>=◌
  put_i64-bind v = rw (b.put_i64_lem v buf)

  pub put_slice-bind : (bs : List ℕ) → (put_slice bs >>= f) buf ≡ f tt (buf ++ bs)
  unfolding put_slice write ◌>>=◌
  put_slice-bind bs = rw (b.put_slice_lem bs buf)

module _ {E : Type 0} where
  pub alloc-ok : (n : ℕ) (buf : List ℕ) → n < 2 ^ 63 → alloc {E = E} n buf ≡ ok (tt, buf)
  unfolding alloc pure
  alloc-ok n buf h = rw (alloc, lt→ltb n (2 ^ 63) h)

  pub alloc-eq-ok :
      (n : ℕ) (buf rest : List ℕ)
      → alloc {E = E} n buf ≡ ok (tt, rest)
      → (n < 2 ^ 63) × (buf ≡ rest)
  unfolding alloc pure abort
  alloc-eq-ok n buf rest h = ground arith

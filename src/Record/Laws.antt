-- ===== src/Record/Laws.antt =====
-- Reading what the traits of record.rs share: an integer of fixed width, and the length in front of
-- a text, a buffer or a vector.
use zksrv.Base.{
  ℕ, ◌^◌, ◌<◌, ◌≡◌, ap, ◌∙◌, Option, List, ◌++◌, as_i32, as_usize, as_usize-as_i32, to_be_bytes,
  from_be_bytes, arith, IsByte, All, All-append_left, length-to_be_bytes, from-to_be_bytes,
  from_be_bytes-lt, to-from_be_bytes,
}
use zksrv.Errors.{ZkError, ok}
use zksrv.Bytes.{ByteOps, Takes}
use zksrv.Buf.{Buf, ◌>>=◌, ◌>>◌, bind-ok, bind-eq-ok}
use zksrv.Buf.Ops.{or_panic, alloc, get_i32}
use zksrv.Buf.Ops.Laws.{or_panic-append, or_panic-eq-ok, alloc-ok, alloc-eq-ok}

module _ (n : ℕ) (f : List ℕ → Option (ℕ × List ℕ)) (t : Takes n f from_be_bytes) where
  -- An integer that fits is read back.
  pub fixed-append :
      (v : ℕ) (rest : List ℕ)
      → v < 256 ^ n
      → or_panic {E = ZkError} f (to_be_bytes n v ++ rest) ≡ ok (v, rest)
  fixed-append v rest h =
      or_panic-append n f from_be_bytes t (to_be_bytes n v) rest (length-to_be_bytes n v)
      ∙ ap (λ w. ok (w, rest)) (from-to_be_bytes n v h)

  -- Whatever is read fits, and its bytes stood in front.
  pub fixed-eq-ok :
      (buf : List ℕ) {v : ℕ} {rest : List ℕ}
      → All IsByte buf
      → or_panic {E = ZkError} f buf ≡ ok (v, rest)
      → (v < 256 ^ n) × (buf ≡ to_be_bytes n v ++ rest)
  fixed-eq-ok buf {v = v} {rest = rest} bytes h =
      let (bs, size, whole, value) = or_panic-eq-ok n f from_be_bytes t buf h in
      let front : All IsByte bs = All-append_left IsByte bs rest (rw whole at bytes) in
      let bound : from_be_bytes bs < 256 ^ n = rw (← size) (from_be_bytes-lt bs front) in
      let back : to_be_bytes n (from_be_bytes bs) ≡ bs = rw (← size) (to-from_be_bytes bs front) in
      (rw value bound, rw (value, back) whole)

module _ ⦃b : ByteOps⦄ {A : Type 0} (f : ℕ → Buf ZkError A) where
  -- Reading a length and going on with it.
  abbrev pub counted : Buf ZkError A
  counted = do len ← get_i32; alloc (as_usize len); f (as_usize len)

  pub counted-append :
      (n : ℕ) (rest : List ℕ) → n < 2 ^ 31 → counted (to_be_bytes 4 (as_i32 n) ++ rest) ≡ f n rest
  unfolding get_i32
  counted-append n rest h =
      bind-ok get_i32 _ _ (fixed-append 4 b.get_i32 b.get_i32_lem (as_i32 n) rest (omega arith))
      ∙ ap (λ k. (alloc k >> f k) rest) (as_usize-as_i32 n h)
      ∙ bind-ok (alloc n) _ rest (alloc-ok n rest (omega arith))

  pub counted-eq-ok :
      (buf : List ℕ) {a : A} {rest : List ℕ}
      → All IsByte buf
      → counted buf ≡ ok (a, rest)
      → (n : ℕ) × (mid : List ℕ) × (n < 2 ^ 31)
        × (buf ≡ to_be_bytes 4 (as_i32 n) ++ mid)
        × (f n mid ≡ ok (a, rest))
  unfolding get_i32
  counted-eq-ok buf bytes h =
      let (len, mid, got, h') = bind-eq-ok get_i32 _ buf h in
      let (u, mid', room, h'') = bind-eq-ok (alloc (as_usize len)) _ mid h' in
      let (fits, whole) = fixed-eq-ok 4 b.get_i32 b.get_i32_lem buf bytes got in
      let (small, same) = alloc-eq-ok (as_usize len) mid mid' room in
      let low : len < 2 ^ 31 = ground arith in
      let usize : as_usize len ≡ len = ground arith in
      let cast : as_i32 len ≡ len = omega arith in
      (len, mid, low, rw cast whole, rw (usize, ← same) at h'')

-- ===== src/Jute/Canonical.antt =====
-- Whatever a schema's reader accepts is the encoding of the value that it returns: no byte of the
-- input is lost, and no two inputs are read alike.
use zksrv.Base.{
  ℕ, zero, suc, ◌^◌, ◌<◌, ◌≡◌, refl, sym, ap, ◌∙◌, true, List, ◌++◌, append_assoc, length, arith,
  subst, All, All-append_left, All-append_right, IsByte, as_i32, to_be_bytes,
}
use zksrv.Text.{String, is_utf8, from_utf8}
use zksrv.Errors.{ZkError, ok, ok-injective}
use zksrv.Bytes.{ByteOps}
use zksrv.Buf.{Buf, pure, fail, bind-eq-ok}
use zksrv.Buf.Ops.{get_u8, get_i32, get_i64, copy_to_slice}
use zksrv.Buf.Ops.Laws.{or_panic-eq-ok}
use zksrv.Record.{times, string_deserialize, bytes_deserialize, vec_deserialize, checked_utf8}
use zksrv.Record.Laws.{fixed-eq-ok, counted-eq-ok}
use zksrv.Jute.RoundTrip.{read_utf8}
use zksrv.Jute.{
  Jute, byte, int, long, ustring, buffer, vector, ◌⊗◌, encode, encode_items, IsSendable, reader,
}

-- What `m` takes off its input is what `e` makes of the value that it returns, which is `Good`.
abbrev pub Takes {ℓ} : {A : Type ℓ} → Buf ZkError A → (A → List ℕ) → (A → Type 0) → Type ℓ
Takes {A = A} m e Good =
    (buf : List ℕ) (a : A) (rest : List ℕ)
    → All IsByte buf
    → m buf ≡ ok (a, rest)
    → Good a × (buf ≡ e a ++ rest)

-- What is left after a front that was taken.
pub rest-IsByte :
    {buf : List ℕ} (front rest : List ℕ) → All IsByte buf → buf ≡ front ++ rest → All IsByte rest
rest-IsByte front rest bytes whole = All-append_right IsByte front rest (rw whole at bytes)

-- Two fronts, one after the other.
pub joined {ℓ} :
    {A : Type ℓ} {buf mid : List A} (xs ys rest : List A)
    → buf ≡ xs ++ mid
    → mid ≡ ys ++ rest
    → buf ≡ (xs ++ ys) ++ rest
joined xs ys rest p q = p ∙ ap (◌++◌ xs) q ∙ sym (append_assoc xs ys rest)

module _ ⦃b : ByteOps⦄ where
  slice-eq-ok :
      (n : ℕ) (buf : List ℕ) {bs rest : List ℕ}
      → copy_to_slice {E = ZkError} n buf ≡ ok (bs, rest)
      → (length bs ≡ n) × (buf ≡ bs ++ rest)
  unfolding copy_to_slice
  slice-eq-ok n buf h =
      let (front, size, whole, same) =
        or_panic-eq-ok n (b.copy_to_slice n) _ (b.copy_to_slice_lem n) buf h in
      (rw same size, rw same whole)

  checked-eq-ok :
      (bs mid : List ℕ) (s : String) (rest : List ℕ)
      → checked_utf8 (from_utf8 bs) mid ≡ ok (s, rest)
      → (is_utf8 bs ≡ true) × (bs ≡ s.as_bytes) × (mid ≡ rest)
  unfolding checked_utf8 from_utf8 pure fail
  checked-eq-ok bs mid s rest h = ground arith

  utf8-eq-ok :
      (n : ℕ) (buf : List ℕ) (s : String) (rest : List ℕ)
      → read_utf8 n buf ≡ ok (s, rest)
      → (length s.as_bytes ≡ n) × (is_utf8 s.as_bytes ≡ true) × (buf ≡ s.as_bytes ++ rest)
  utf8-eq-ok n buf s rest h =
      let (bs, mid, got, h') = bind-eq-ok (copy_to_slice n) _ buf h in
      let (size, whole) = slice-eq-ok n buf got in
      let (valid, same, last) = checked-eq-ok bs mid s rest h' in
      (rw same at size, rw same at valid, rw (same, last) at whole)

  times-Takes :
      {A : Type 0} (m : Buf ZkError A) (e : A → List ℕ) (Good : A → Type 0)
      → Takes m e Good
      → (n : ℕ) (buf : List ℕ) (xs : List A) (rest : List ℕ) → All IsByte buf
      → times n m buf ≡ ok (xs, rest)
      → (length xs ≡ n) × All Good xs × (buf ≡ encode_items e xs ++ rest)
  unfolding times encode_items pure
  times-Takes m e Good t zero buf xs rest bytes h =
      subst (λ r. (length r.0 ≡ 0) × All Good r.0 × (buf ≡ encode_items e r.0 ++ r.1))
        (ok-injective h) (refl, tt, refl)
  times-Takes m e Good t (suc n) buf xs rest bytes h =
      let (x, mid, got, h') = bind-eq-ok m _ buf h in
      let (ys, mid', got', h'') = bind-eq-ok (times n m) _ mid h' in
      let (good, whole) = t buf x mid bytes got in
      let (size, goods, whole') =
        times-Takes m e Good t n mid ys mid' (rest-IsByte (e x) mid bytes whole) got' in
      subst (λ r. (length r.0 ≡ suc n) × All Good r.0 × (buf ≡ encode_items e r.0 ++ r.1))
        (ok-injective h'')
        (ap suc size, (good, goods), joined (e x) (encode_items e ys) mid' whole whole')

  -- A length that was read, and as many elements behind it.
  counted_front :
      {buf mid : List ℕ} {G : Type 0} (bs rest : List ℕ) (n m : ℕ)
      → n < 2 ^ 31
      → buf ≡ to_be_bytes 4 (as_i32 n) ++ mid
      → m ≡ n
      → mid ≡ bs ++ rest
      → (m < 2 ^ 31 → G)
      → G × (buf ≡ (to_be_bytes 4 (as_i32 m) ++ bs) ++ rest)
  counted_front bs rest n m small whole size whole' g =
      let front = joined (to_be_bytes 4 (as_i32 n)) bs rest whole whole' in
      (g (rw size small), rw size front)

  front-IsByte :
      {buf mid : List ℕ} (n : ℕ) (bs rest : List ℕ)
      → All IsByte buf
      → buf ≡ to_be_bytes 4 (as_i32 n) ++ mid
      → mid ≡ bs ++ rest
      → All IsByte bs
  front-IsByte {mid = mid} n bs rest bytes whole whole' =
      All-append_left IsByte bs rest
        (rw whole' at (rest-IsByte (to_be_bytes 4 (as_i32 n)) mid bytes whole))

  -- A reader takes off the encoding of a value that can be sent.
  pub encode-reader : (j : Jute) → Takes (reader j) (encode j) (IsSendable j)
  unfolding get_u8 get_i32 get_i64 string_deserialize bytes_deserialize vec_deserialize pure
  encode-reader byte buf v rest bytes h = fixed-eq-ok 1 b.get_u8 b.get_u8_lem buf bytes h
  encode-reader int buf v rest bytes h = fixed-eq-ok 4 b.get_i32 b.get_i32_lem buf bytes h
  encode-reader long buf v rest bytes h = fixed-eq-ok 8 b.get_i64 b.get_i64_lem buf bytes h
  encode-reader ustring buf s rest bytes h =
      let (n, mid, small, whole, h') = counted-eq-ok read_utf8 buf bytes h in
      let (size, valid, whole') = utf8-eq-ok n mid s rest h' in
      counted_front s.as_bytes rest n (length s.as_bytes) small whole size whole'
        λ less. (valid, less, front-IsByte n s.as_bytes rest bytes whole whole')
  encode-reader buffer buf bs rest bytes h =
      let (n, mid, small, whole, h') = counted-eq-ok copy_to_slice buf bytes h in
      let (size, whole') = slice-eq-ok n mid h' in
      counted_front bs rest n (length bs) small whole size whole'
        λ less. (less, front-IsByte n bs rest bytes whole whole')
  encode-reader (vector j) buf vs rest bytes h =
      let (n, mid, small, whole, h') = counted-eq-ok (λ n. times n (reader j)) buf bytes h in
      let (size, goods, whole') =
        times-Takes (reader j) (encode j) (IsSendable j) (encode-reader j) n mid vs rest
          (rest-IsByte (to_be_bytes 4 (as_i32 n)) mid bytes whole) h' in
      counted_front (encode_items (encode j) vs) rest n (length vs) small whole size whole'
        λ less. (less, goods)
  encode-reader (j ⊗ k) buf p rest bytes h =
      let (v', mid, got, h') = bind-eq-ok (reader j) _ buf h in
      let (w', mid', got', h'') = bind-eq-ok (reader k) _ mid h' in
      let (good, whole) = encode-reader j buf v' mid bytes got in
      let (good', whole') =
        encode-reader k mid w' mid' (rest-IsByte (encode j v') mid bytes whole) got' in
      subst (λ r. IsSendable (j ⊗ k) r.0 × (buf ≡ encode (j ⊗ k) r.0 ++ r.1)) (ok-injective h'')
        ((good, good'), joined (encode j v') (encode k w') mid' whole whole')

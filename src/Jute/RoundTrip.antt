-- ===== src/Jute/RoundTrip.antt =====
-- What is encoded along a schema is read back, whatever follows it.
use zksrv.Base.{
  ℕ, ◌^◌, ◌<◌, ◌≡◌, refl, ap, ◌∙◌, true, List, [], ◌∷◌, ◌++◌, append_assoc, length, All, as_i32,
  to_be_bytes,
}
use zksrv.Text.{String, is_utf8, from_utf8}
use zksrv.Errors.{ZkError, ok}
use zksrv.Bytes.{ByteOps}
use zksrv.Buf.{Buf, pure, ◌>>=◌, bind-ok}
use zksrv.Buf.Ops.{get_u8, get_i32, get_i64, copy_to_slice}
use zksrv.Buf.Ops.Laws.{or_panic-append}
use zksrv.Record.{times, string_deserialize, bytes_deserialize, vec_deserialize, checked_utf8}
use zksrv.Record.Laws.{fixed-append, counted, counted-append}
use zksrv.Jute.{
  Jute, byte, int, long, ustring, buffer, vector, ◌⊗◌, Value, encode, encode_items, IsSendable,
  reader,
}

-- `m` reads `a` off the front of any input that begins with `bs`.
abbrev pub Reads {ℓ} : {A : Type ℓ} → Buf ZkError A → List ℕ → A → Type ℓ
Reads m bs a = (rest : List ℕ) → m (bs ++ rest) ≡ ok (a, rest)

pub Reads-bind {ℓ κ} :
    {A : Type ℓ} {B : Type κ} (m : Buf ZkError A) (f : A → Buf ZkError B) (bs cs : List ℕ) (a : A)
    (c : B)
    → Reads m bs a
    → Reads (f a) cs c
    → Reads (m >>= f) (bs ++ cs) c
Reads-bind m f bs cs a c h k rest =
    ap (m >>= f) (append_assoc bs cs rest) ∙ bind-ok m f _ (h (cs ++ rest)) ∙ k rest

module _ ⦃b : ByteOps⦄ where
  slice-Reads : (bs : List ℕ) → Reads (copy_to_slice (length bs)) bs bs
  unfolding copy_to_slice
  slice-Reads bs rest =
      or_panic-append _ (b.copy_to_slice (length bs)) _ (b.copy_to_slice_lem (length bs)) bs rest
        refl

  abbrev pub read_utf8 : ℕ → Buf ZkError String
  read_utf8 n = do buf ← copy_to_slice n; checked_utf8 (from_utf8 buf)

  read_utf8-Reads :
      (s : String) → is_utf8 s.as_bytes ≡ true → Reads (read_utf8 (length s.as_bytes)) s.as_bytes s
  unfolding checked_utf8 from_utf8 pure
  read_utf8-Reads s h rest =
      bind-ok (copy_to_slice (length s.as_bytes)) _ _ (slice-Reads s.as_bytes rest)
      ∙ rw (checked_utf8, from_utf8, h)

  times-Reads :
      {A : Type 0} (m : Buf ZkError A) (e : A → List ℕ) (Good : A → Type 0)
      → ((a : A) → Good a → Reads m (e a) a)
      → (xs : List A) → All Good xs
      → Reads (times (length xs) m) (encode_items e xs) xs
  unfolding times encode_items pure
  times-Reads m e Good h [] g = λ rest. refl
  times-Reads m e Good h (x ∷ xs) (g, gs) =
      Reads-bind m _ (e x) (encode_items e xs) x (x ∷ xs) (h x g)
        (λ rest. bind-ok (times (length xs) m) _ _ (times-Reads m e Good h xs gs rest))

  counted-Reads :
      {A : Type 0} (f : ℕ → Buf ZkError A) (n : ℕ) (bs : List ℕ) (a : A)
      → n < 2 ^ 31
      → Reads (f n) bs a
      → Reads (counted f) (to_be_bytes 4 (as_i32 n) ++ bs) a
  counted-Reads f n bs a small h rest =
      ap (counted f) (append_assoc (to_be_bytes 4 (as_i32 n)) bs rest)
      ∙ counted-append f n (bs ++ rest) small
      ∙ h rest

  -- The reader of a schema gives back the value that was encoded, and leaves what follows it.
  pub reader-encode : (j : Jute) (v : Value j) → IsSendable j v → Reads (reader j) (encode j v) v
  unfolding get_u8 get_i32 get_i64 string_deserialize bytes_deserialize vec_deserialize pure
  reader-encode byte v h = λ rest. fixed-append 1 b.get_u8 b.get_u8_lem v rest h
  reader-encode int v h = λ rest. fixed-append 4 b.get_i32 b.get_i32_lem v rest h
  reader-encode long v h = λ rest. fixed-append 8 b.get_i64 b.get_i64_lem v rest h
  reader-encode ustring s (valid, small, bytes) =
      counted-Reads read_utf8 (length s.as_bytes) s.as_bytes s small (read_utf8-Reads s valid)
  reader-encode buffer bs (small, bytes) =
      counted-Reads copy_to_slice (length bs) bs bs small (slice-Reads bs)
  reader-encode (vector j) vs (small, good) =
      counted-Reads (λ n. times n (reader j)) (length vs) (encode_items (encode j) vs) vs small
        (times-Reads (reader j) (encode j) (IsSendable j) (reader-encode j) vs good)
  reader-encode (j ⊗ k) p (g, h) =
      Reads-bind (reader j) _ (encode j p.0) (encode k p.1) p.0 p (reader-encode j p.0 g)
        (λ rest. bind-ok (reader k) _ _ (reader-encode k p.1 h rest))

-- ===== src/Jute/Ends.antt =====
-- Reading along a schema ends: with a value, an error or a panic.
use zksrv.Base.{refl, ℕ, zero, suc, arith, ◌≢◌, Option, List}
use zksrv.Errors.{ZkError, Outcome, ok, err, panic, stuck, and_then}
use zksrv.Text.{String}
use zksrv.Bytes.{ByteOps}
use zksrv.Buf.{Buf, pure, fail, abort, ◌>>=◌}
use zksrv.Buf.Ops.{or_panic, alloc, get_u8, get_i32, get_i64, copy_to_slice}
use zksrv.Record.{
  Serialize, Deserialize, times, checked_utf8, string_deserialize, bytes_deserialize,
  vec_deserialize,
}
use zksrv.Jute.{Jute, byte, int, long, ustring, buffer, vector, ◌⊗◌, reader}
use zksrv.Jute.Conform.{Encodable, Conforms}

-- `m` never runs out of fuel.
abbrev pub Ends {ℓ} : {A : Type ℓ} → Buf ZkError A → Type ℓ
Ends m = (buf : List ℕ) → m buf ≢ stuck

module _ {ℓ κ} {A : Type ℓ} {B : Type κ} where
  pub Ends-bind :
      (m : Buf ZkError A) (f : A → Buf ZkError B) → Ends m → ((a : A) → Ends (f a)) → Ends (m >>= f)
  unfolding ◌>>=◌
  Ends-bind m f hm hf buf = split (m buf) (hm buf)
    where
      split :
          (r : Outcome ZkError (A × List ℕ))
          → r ≢ stuck
          → and_then r (λ (a, rest). f a rest) ≢ stuck
      split (ok (a, rest)) h = hf a rest
      split (err e) h = λ p. cc
      split panic h = λ p. cc
      split stuck h = λ p. h refl

module _ {ℓ} {A : Type ℓ} where
  pub Ends-pure : (a : A) → Ends (pure a)
  unfolding pure
  Ends-pure a buf h = cc

module _ {A : Type 0} where
  Ends-or_panic : (f : List ℕ → Option (A × List ℕ)) → Ends (or_panic f)
  unfolding or_panic
  Ends-or_panic f buf h = ground arith

  Ends-times : (n : ℕ) (m : Buf ZkError A) → Ends m → Ends (times n m)
  unfolding times
  Ends-times zero m h = Ends-pure _
  Ends-times (suc n) m h =
      Ends-bind m _ h (λ x. Ends-bind (times n m) _ (Ends-times n m h) (λ xs. Ends-pure _))

Ends-alloc : (n : ℕ) → Ends (alloc n)
unfolding alloc pure abort
Ends-alloc n buf h = ground arith

Ends-checked_utf8 : (o : Option String) → Ends (checked_utf8 o)
unfolding checked_utf8 pure fail
Ends-checked_utf8 o buf h = ground arith

module _ ⦃b : ByteOps⦄ where
  pub Ends-get_i32 : Ends get_i32
  unfolding get_i32
  Ends-get_i32 = Ends-or_panic b.get_i32

  reader-Ends : (j : Jute) → Ends (reader j)
  unfolding get_u8 get_i32 get_i64 copy_to_slice string_deserialize bytes_deserialize
      vec_deserialize
  reader-Ends byte = Ends-or_panic b.get_u8
  reader-Ends int = Ends-or_panic b.get_i32
  reader-Ends long = Ends-or_panic b.get_i64
  reader-Ends ustring = Ends-bind _ _ (Ends-or_panic b.get_i32) λ n.
      Ends-bind _ _ (Ends-alloc _) λ _. Ends-bind _ _ (Ends-or_panic _) λ bs. Ends-checked_utf8 _
  reader-Ends buffer =
      Ends-bind _ _ (Ends-or_panic b.get_i32) λ n. Ends-bind _ _ (Ends-alloc _) λ _. Ends-or_panic _
  reader-Ends (vector j) =
      Ends-bind _ _ (Ends-or_panic b.get_i32)
        λ n. Ends-bind _ _ (Ends-alloc _) λ _. Ends-times _ (reader j) (reader-Ends j)
  reader-Ends (j ⊗ k) =
      Ends-bind (reader j) _ (reader-Ends j)
        λ v. Ends-bind (reader k) _ (reader-Ends k) λ w. Ends-pure _

  pub deserialize-Ends :
      {A : Type 0} ⦃s : Serialize A⦄ ⦃d : Deserialize A⦄ ⦃e : Encodable A⦄ ⦃c : Conforms A⦄
      → Ends d.deserialize
  deserialize-Ends ⦃e = e⦄ ⦃c = c⦄ =
      rw c.deserialize_lem (Ends-bind (reader e.schema) _ (reader-Ends e.schema) (λ v. Ends-pure _))

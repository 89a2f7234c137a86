-- ===== src/Record.antt =====
-- record.rs: the traits `Serialize` and `Deserialize`; and proto.rs up to line 72: their
-- implementations for `String`, `Vec<T>` and `Vec<u8>`.
pub mod Laws
use zksrv.Base.{
  ℕ, zero, suc, ◌+◌, List, [], ◌∷◌, Option, none, some, length, as_i32, as_usize, if◌then◌else◌,
}
use zksrv.Text.{String, from_utf8}
use zksrv.Errors.{ZkError, invalid_string}
use zksrv.Bytes.{ByteOps}
use zksrv.Buf.{Buf, pure, fail, ◌>>=◌, ◌>>◌}
use zksrv.Buf.Ops.{alloc, put_i32, put_slice, get_i32, copy_to_slice}

pub record Serialize {ℓ} (A : Type ℓ) : Type ℓ where
  pub serialize_into : A → Buf ZkError (Unit {0})
  pub size : A → ℕ

pub record Deserialize {ℓ} (A : Type ℓ) : Type ℓ where
  pub deserialize : Buf ZkError A

abbrev pub serialize_into {ℓ} : {A : Type ℓ} ⦃s : Serialize A⦄ → A → Buf ZkError (Unit {0})
serialize_into ⦃s⦄ = s.serialize_into

abbrev pub size {ℓ} : {A : Type ℓ} ⦃s : Serialize A⦄ → A → ℕ
size ⦃s⦄ = s.size

abbrev pub deserialize {ℓ} : {A : Type ℓ} ⦃d : Deserialize A⦄ → Buf ZkError A
deserialize ⦃d⦄ = d.deserialize

module _ {ℓ} {A : Type ℓ} where
  -- `for it in xs { f(it)?; }`
  unfoldable pub for_each : (A → Buf ZkError (Unit {0})) → List A → Buf ZkError (Unit {0})
  for_each f [] = pure tt
  for_each f (x ∷ xs) = f x >> for_each f xs

  -- `xs.iter().map(f).sum()`
  unfoldable pub sum_of : (A → ℕ) → List A → ℕ
  sum_of f [] = 0
  sum_of f (x ∷ xs) = f x + sum_of f xs

  -- `for _ in 0..n { res.push(d(bytes)?); }`
  unfoldable pub times : ℕ → Buf ZkError A → Buf ZkError (List A)
  times zero d = pure []
  times (suc n) d = do x ← d; xs ← times n d; pure (x ∷ xs)

-- `.map_err(|_| ZkError::InvalidString)?`
unfoldable pub checked_utf8 : Option String → Buf ZkError String
checked_utf8 (some s) = pure s
checked_utf8 none = fail invalid_string

module _ ⦃b : ByteOps⦄ where
  instance unfoldable pub string_serialize : Serialize String
  string_serialize = record {
    serialize_into = λ s. do
      put_i32 (as_i32 (length s.as_bytes))
      put_slice s.as_bytes
      pure tt;
    size = λ s. 4 + length s.as_bytes;
  }

  instance unfoldable pub string_deserialize : Deserialize String
  unfolding checked_utf8
  string_deserialize = record {
    deserialize = do
      len ← get_i32
      alloc (as_usize len)
      buf ← copy_to_slice (as_usize len)
      checked_utf8 (from_utf8 buf);
  }

  instance unfoldable pub bytes_serialize : Serialize (List ℕ)
  bytes_serialize = record {
    serialize_into = λ bs. do
      put_i32 (as_i32 (length bs))
      put_slice bs
      pure tt;
    size = λ bs. 4 + length bs;
  }

  instance unfoldable pub bytes_deserialize : Deserialize (List ℕ)
  bytes_deserialize = record {
    deserialize = do
      len ← get_i32
      alloc (as_usize len)
      copy_to_slice (as_usize len);
  }

module _ ⦃b : ByteOps⦄ {A : Type 0} where
  instance unfoldable pub vec_serialize : ⦃s : Serialize A⦄ → Serialize (List A)
  vec_serialize = record {
    serialize_into = λ xs. do
      put_i32 (as_i32 (length xs))
      for_each serialize_into xs
      pure tt;
    size = λ xs. 4 + sum_of size xs;
  }

  instance unfoldable pub vec_deserialize : ⦃d : Deserialize A⦄ → Deserialize (List A)
  vec_deserialize = record {
    deserialize = do
      len ← get_i32
      alloc (as_usize len)
      times (as_usize len) deserialize;
  }

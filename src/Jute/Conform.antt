-- ===== src/Jute/Conform.antt =====
-- What it takes for the program's implementation of the two traits to follow a schema.
use zksrv.Base.{
  ℕ, ◌≡◌, refl, sym, ap, ◌∙◌, List, [], ◌∷◌, ◌++◌, map, length, length-append, append_assoc,
  append-nil, length-to_be_bytes, length-map, map-map_id, zero, suc, arith,
}
use zksrv.Text.{String}
use zksrv.Errors.{ZkError, ok}
use zksrv.Bytes.{ByteOps}
use zksrv.Buf.{Buf, pure, ◌>>=◌, bind-ok, bind-pure, bind_assoc, pure-bind}
use zksrv.Buf.Ops.Laws.{put_i32-bind, put_slice-bind}
use zksrv.Record.{Serialize, Deserialize, serialize_into, size, deserialize}
use zksrv.Record.{
  string_serialize, bytes_serialize, vec_serialize, string_deserialize, bytes_deserialize,
  vec_deserialize, for_each, sum_of, times,
}
use zksrv.Jute.{Jute, ustring, buffer, vector, Value, encode, encode_items, reader}

-- Serialising appends the encoding of the value along `schema`, and `size` is its length.
pub record Encodable (A : Type 0) ⦃s : Serialize A⦄ : Type 0 where
  pub schema : Jute
  pub view : A → Value schema
  pub serialize_lem :
      (a : A) (buf : List ℕ) → serialize_into a buf ≡ ok (tt, buf ++ encode schema (view a))
  pub size_lem : (a : A) → size a ≡ length (encode schema (view a))

-- Deserialising is reading along the same schema.
pub record Conforms ⦃b : ByteOps⦄ (A : Type 0) ⦃s : Serialize A⦄ ⦃d : Deserialize A⦄
    ⦃e : Encodable A⦄ : Type 0 where
  pub unview : Value e.schema → A
  pub unview-view : (a : A) → unview (e.view a) ≡ a
  pub view-unview : (v : Value e.schema) → e.view (unview v) ≡ v
  pub deserialize_lem : deserialize ≡ (reader e.schema >>= λ v. pure (unview v))

abbrev pub encoding : {A : Type 0} ⦃s : Serialize A⦄ ⦃e : Encodable A⦄ → A → List ℕ
encoding ⦃e = e⦄ a = encode e.schema (e.view a)

module _ {A : Type 0} ⦃s : Serialize A⦄ ⦃e : Encodable A⦄ where
  pub serialize_into-bind {κ} :
      {B : Type κ} (f : Unit {0} → Buf ZkError B) (a : A) (buf : List ℕ)
      → (s.serialize_into a >>= f) buf ≡ f tt (buf ++ encode e.schema (e.view a))
  serialize_into-bind f a buf = bind-ok (s.serialize_into a) f buf (e.serialize_lem a buf)

  pub for_each-encode :
      (xs : List A) (buf : List ℕ)
      → for_each s.serialize_into xs buf
        ≡ ok (tt, buf ++ encode_items (encode e.schema) (map e.view xs))
  unfolding for_each encode_items pure
  for_each-encode [] buf = ap (λ bs. ok (tt, bs)) (sym (append-nil buf))
  for_each-encode (x ∷ xs) buf =
      serialize_into-bind _ x buf
      ∙ for_each-encode xs _
      ∙ ap (λ bs. ok (tt, bs)) (append_assoc buf _ _)

  pub for_each-bind {κ} :
      {B : Type κ} (f : Unit {0} → Buf ZkError B) (xs : List A) (buf : List ℕ)
      → (for_each s.serialize_into xs >>= f) buf
        ≡ f tt (buf ++ encode_items (encode e.schema) (map e.view xs))
  for_each-bind f xs buf = bind-ok (for_each s.serialize_into xs) f buf (for_each-encode xs buf)

  pub sum_of-length :
      (xs : List A) → sum_of s.size xs ≡ length (encode_items (encode e.schema) (map e.view xs))
  unfolding sum_of encode_items
  sum_of-length [] = refl
  sum_of-length (x ∷ xs) = omega (
    arith,
    e.size_lem x,
    sum_of-length xs,
    length-append (encode e.schema (e.view x)) (encode_items (encode e.schema) (map e.view xs)),
  )

module _ ⦃b : ByteOps⦄ where
  instance unfoldable pub string_encodable : Encodable String
  unfolding string_serialize pure
  string_encodable = record {
    schema = ustring;
    view = λ s. s;
    serialize_lem = λ s buf. simp (put_i32-bind, put_slice-bind, append_assoc);
    size_lem = λ s. simp (length-append, length-to_be_bytes);
  }

  instance unfoldable pub bytes_encodable : Encodable (List ℕ)
  unfolding bytes_serialize pure
  bytes_encodable = record {
    schema = buffer;
    view = λ s. s;
    serialize_lem = λ s buf. simp (put_i32-bind, put_slice-bind, append_assoc);
    size_lem = λ s. simp (length-append, length-to_be_bytes);
  }

  instance unfoldable pub vec_encodable :
      {A : Type 0} ⦃s : Serialize A⦄ ⦃e : Encodable A⦄ → Encodable (List A)
  unfolding vec_serialize pure
  vec_encodable ⦃e = e⦄ = record {
    schema = vector e.schema;
    view = map e.view;
    serialize_lem = λ xs buf. simp (put_i32-bind, for_each-bind, append_assoc, length-map);
    size_lem = λ xs. simp (length-append, length-to_be_bytes, sum_of-length, length-map);
  }

module _ {A B : Type 0} where
  pub times-map :
      (n : ℕ) (m : Buf ZkError A) (f : A → B)
      → times n (m >>= λ a. pure (f a)) ≡ (times n m >>= λ xs. pure (map f xs))
  unfolding times
  times-map zero m f = simp pure-bind
  times-map (suc n) m f = simp (times-map n m f, bind_assoc, pure-bind)

module _ ⦃b : ByteOps⦄ where
  instance unfoldable pub string_conforms : Conforms String
  unfolding string_encodable
  string_conforms = record {
    unview = λ s. s;
    unview-view = λ s. refl;
    view-unview = λ s. refl;
    deserialize_lem = sym (bind-pure _);
  }

  instance unfoldable pub bytes_conforms : Conforms (List ℕ)
  unfolding bytes_encodable
  bytes_conforms = record {
    unview = λ s. s;
    unview-view = λ s. refl;
    view-unview = λ s. refl;
    deserialize_lem = sym (bind-pure _);
  }

  instance unfoldable pub vec_conforms :
      {A : Type 0} ⦃s : Serialize A⦄ ⦃d : Deserialize A⦄ ⦃e : Encodable A⦄ ⦃c : Conforms A⦄
      → Conforms (List A)
  unfolding vec_encodable vec_deserialize
  vec_conforms ⦃e = e⦄ ⦃c = c⦄ = record {
    unview = map c.unview;
    unview-view = map-map_id e.view c.unview c.unview-view;
    view-unview = map-map_id c.unview e.view c.view-unview;
    deserialize_lem = simp (c.deserialize_lem, times-map, bind_assoc);
  }

-- The schema, the view and its inverse of a type that has an instance.
module _ ⦃b : ByteOps⦄ (A : Type 0) ⦃s : Serialize A⦄ ⦃e : Encodable A⦄ where
  abbrev pub schema_of : Jute
  schema_of = e.schema

module _ {A : Type 0} ⦃s : Serialize A⦄ ⦃e : Encodable A⦄ where
  abbrev pub view_of : A → Value e.schema
  view_of = e.view

module _ ⦃b : ByteOps⦄ {A : Type 0} ⦃s : Serialize A⦄ ⦃d : Deserialize A⦄ ⦃e : Encodable A⦄
    ⦃c : Conforms A⦄ where
  abbrev pub unview_of : Value e.schema → A
  unview_of = c.unview

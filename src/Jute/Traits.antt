-- ===== src/Jute/Traits.antt =====
-- What follows for every type whose implementation of the traits conforms to a schema.
use zksrv.Base.{ℕ, All, IsByte, List, [], length, ◌≡◌, sym, ap, ◌∙◌, ◌++◌, subst}
use zksrv.Errors.{ZkError, ok, ok-injective}
use zksrv.Bytes.{ByteOps}
use zksrv.Buf.{Buf, pure, bind-ok, bind-eq-ok}
use zksrv.Record.{Serialize, Deserialize, serialize_into, size, deserialize}
use zksrv.Jute.{encode, IsSendable, reader}
use zksrv.Jute.RoundTrip.{Reads, reader-encode}
use zksrv.Jute.Canonical.{Takes, encode-reader}
use zksrv.Jute.Conform.{Encodable, Conforms, encoding}

-- The values that the fields of the program's types can hold, and a length that an i32 can count.
abbrev pub CanSend : {A : Type 0} ⦃s : Serialize A⦄ ⦃e : Encodable A⦄ → A → Type 0
CanSend ⦃e = e⦄ a = IsSendable e.schema (e.view a)

module _ ⦃b : ByteOps⦄ {A : Type 0} ⦃s : Serialize A⦄ ⦃d : Deserialize A⦄ ⦃e : Encodable A⦄
    ⦃c : Conforms A⦄ where
  -- A message that was written is read back, whatever follows it, and that is left.
  pub deserialize-encoding : (a : A) → CanSend a → Reads d.deserialize (encoding a) a
  unfolding pure
  deserialize-encoding a h rest =
      ap (λ (m : Buf ZkError A). m (encoding a ++ rest)) c.deserialize_lem
      ∙ bind-ok (reader e.schema) _ _ (reader-encode e.schema (e.view a) h rest)
      ∙ ap (λ x. ok (x, rest)) (c.unview-view a)

  -- What is read from bytes can be sent, and its encoding is what was taken off.
  pub deserialize-Takes : Takes d.deserialize encoding CanSend
  unfolding pure
  deserialize-Takes buf a rest bytes h =
      let h' = ap (λ (m : Buf ZkError A). m buf) (sym c.deserialize_lem) ∙ h in
      let (v, mid, got, last) = bind-eq-ok (reader e.schema) _ buf h' in
      let same = ok-injective last in
      let taken = encode-reader e.schema buf v mid bytes got in
      let taken' : IsSendable e.schema (e.view (c.unview v))
          × (buf ≡ encode e.schema (e.view (c.unview v)) ++ mid) =
        subst (λ w. IsSendable e.schema w × (buf ≡ encode e.schema w ++ mid))
          (sym (c.view-unview v)) taken in
      subst (λ p. CanSend p.0 × (buf ≡ encoding p.0 ++ p.1)) same taken'

-- `a` is written at the end of `out` as `size` many bytes, and read back from these with `rest`
-- behind them, which is left.
abbrev pub RoundTrips :
    {A : Type 0} ⦃s : Serialize A⦄ ⦃d : Deserialize A⦄ → A → List ℕ → List ℕ → Type 0
RoundTrips a out rest =
    (bs : List ℕ) × (serialize_into a out ≡ ok (tt, out ++ bs))
    × (size a ≡ length bs)
    × (deserialize (bs ++ rest) ≡ ok (a, rest))

module _ ⦃b : ByteOps⦄ {A : Type 0} ⦃s : Serialize A⦄ ⦃d : Deserialize A⦄ ⦃e : Encodable A⦄
    ⦃c : Conforms A⦄ where
  pub round_trips : (a : A) (out rest : List ℕ) → CanSend a → RoundTrips a out rest
  round_trips a out rest h =
      (encoding a, e.serialize_lem a out, e.size_lem a, deserialize-encoding a h rest)

  -- When bytes are read as a message, of any type whose two traits follow a schema, the message can
  -- be sent, and the bytes that were taken are those that it is written as.
  pub canonical :
      (buf : List ℕ) (a : A) (rest : List ℕ)
      → All IsByte buf
      → deserialize buf ≡ ok (a, rest)
      → CanSend a × (bs : List ℕ) × (serialize_into a [] ≡ ok (tt, bs)) × (buf ≡ bs ++ rest)
  canonical buf a rest bytes h =
      let (good, whole) = deserialize-Takes buf a rest bytes h in
      (good, encoding a, e.serialize_lem a [], whole)

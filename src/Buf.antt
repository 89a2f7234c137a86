-- ===== src/Buf.antt =====
-- Calls that work on a `&mut BytesMut`: the buffer goes in, and comes out where the call returns a
-- value. Every caller drops the buffer of a call that failed.
pub mod Ops
use zksrv.Base.{ℕ, ◌≡◌, refl, fun_ext, List}
use zksrv.Errors.{Outcome, ok, err, panic, stuck, and_then}

abbrev pub Buf {ℓ} : Type 0 → Type ℓ → Type ℓ
Buf E A = List ℕ → Outcome E (A × List ℕ)

module _ {ℓ} {E : Type 0} {A : Type ℓ} where
  unfoldable pub pure : A → Buf E A
  pure a buf = ok (a, buf)

  unfoldable pub fail : E → Buf E A
  fail e buf = err e

  unfoldable pub abort : Buf E A
  abort buf = panic

  -- The fuel of a loop has run out.
  unfoldable pub give_up : Buf E A
  give_up buf = stuck

module _ {ℓ κ} {E : Type 0} {A : Type ℓ} {B : Type κ} where
  infixl 5 ◌>>=◌ ◌>>◌
  unfoldable pub ◌>>=◌ : Buf E A → (A → Buf E B) → Buf E B
  ◌>>=◌ m f buf = and_then (m buf) (λ (a, rest). f a rest)

  abbrev pub ◌>>◌ : Buf E A → Buf E B → Buf E B
  m >> n = m >>= λ _. n

  pub pure-bind : (a : A) (f : A → Buf E B) → (pure a >>= f) ≡ f a
  unfolding pure ◌>>=◌
  pure-bind a f = refl

  pub fail-bind : (e : E) (f : A → Buf E B) → (fail e >>= f) ≡ fail e
  unfolding fail ◌>>=◌
  fail-bind e f = refl

  pub abort-bind : (f : A → Buf E B) → (abort >>= f) ≡ abort
  unfolding abort ◌>>=◌
  abort-bind f = refl

  -- Running a step whose outcome is known.
  pub bind-ok :
      (m : Buf E A) (f : A → Buf E B) (buf : List ℕ) {a : A} {rest : List ℕ}
      → m buf ≡ ok (a, rest)
      → (m >>= f) buf ≡ f a rest
  unfolding ◌>>=◌
  bind-ok m f buf h = rw h

  pub bind-panic :
      (m : Buf E A) (f : A → Buf E B) (buf : List ℕ) → m buf ≡ panic → (m >>= f) buf ≡ panic
  unfolding ◌>>=◌
  bind-panic m f buf h = rw h

  -- Inversion of a run that returned.
  pub bind-eq-ok :
      (m : Buf E A) (f : A → Buf E B) (buf : List ℕ) {b : B} {rest : List ℕ}
      → (m >>= f) buf ≡ ok (b, rest)
      → (a : A) × (mid : List ℕ) × (m buf ≡ ok (a, mid)) × (f a mid ≡ ok (b, rest))
  unfolding ◌>>=◌
  bind-eq-ok m f buf {b = b} {rest = rest} h = split (m buf) refl h
    where
      split :
          (r : Outcome E (A × List ℕ))
          → m buf ≡ r
          → and_then r (λ (a, rest'). f a rest') ≡ ok (b, rest)
          → (a : A) × (mid : List ℕ) × (m buf ≡ ok (a, mid)) × (f a mid ≡ ok (b, rest))
      split (ok (a, mid)) e k = (a, mid, e, k)
      split (err x) e k = cc
      split panic e k = cc
      split stuck e k = cc

module _ {ℓ} {E : Type 0} {A : Type ℓ} where
  pub bind-pure : (m : Buf E A) → (m >>= pure) ≡ m
  unfolding pure ◌>>=◌
  bind-pure m = fun_ext λ buf. join (m buf)
    where
      join : (r : Outcome E (A × List ℕ)) → and_then r (λ (a, rest). ok (a, rest)) ≡ r
      join (ok (a, rest)) = refl
      join (err e) = refl
      join panic = refl
      join stuck = refl

module _ {ℓ κ μ} {E : Type 0} {A : Type ℓ} {B : Type κ} {C : Type μ} where
  pub bind_assoc :
      (m : Buf E A) (f : A → Buf E B) (g : B → Buf E C) → (m >>= f >>= g) ≡ (m >>= λ a. f a >>= g)
  unfolding ◌>>=◌
  bind_assoc m f g = fun_ext λ buf. join (m buf)
    where
      join :
          (r : Outcome E (A × List ℕ))
          → and_then (and_then r (λ (a, rest). f a rest)) (λ (b, rest). g b rest)
            ≡ and_then r (λ (a, rest). and_then (f a rest) (λ (b, rest'). g b rest'))
      join (ok (a, rest)) = refl
      join (err e) = refl
      join panic = refl
      join stuck = refl

-- ===== src/Errors.antt =====
-- errors.rs, and the outcome of a call: a value, an error value, or a panic.
use zksrv.Base.{ℕ, ◌≡◌, refl}
use zksrv.Text.{String}

pub data ZkError : Type 0 where
  socket_error : String → ZkError
  invalid_packet_length : ℕ → ZkError
  invalid_op_code : ℕ → ZkError
  decode_error : ZkError
  encode_error : ZkError
  invalid_string : ZkError

-- `Result<A, E>`, and `panic` for a call that does not return: a failed assertion, `unreachable!`,
-- `todo!`, or a panic of a library function. `stuck` is no outcome of the program: the fuel of a
-- loop of the model has run out.
pub data Outcome {ℓ} (E : Type 0) (A : Type ℓ) : Type ℓ where
  ok : A → Outcome E A
  err : E → Outcome E A
  panic : Outcome E A
  stuck : Outcome E A

module _ {ℓ κ} {E : Type 0} {A : Type ℓ} {B : Type κ} where
  -- The `?` operator.
  abbrev pub and_then : Outcome E A → (A → Outcome E B) → Outcome E B
  and_then (ok a) f = f a
  and_then (err e) f = err e
  and_then panic f = panic
  and_then stuck f = stuck

  pub and_then-eq-ok :
      (m : Outcome E A) (f : A → Outcome E B) {b : B}
      → and_then m f ≡ ok b
      → (a : A) × (m ≡ ok a) × (f a ≡ ok b)
  and_then-eq-ok (ok a) f h = (a, refl, h)
  and_then-eq-ok (err e) f h = cc
  and_then-eq-ok panic f h = cc
  and_then-eq-ok stuck f h = cc

pub ok-injective {ℓ} :
    {E : Type 0} {A : Type ℓ} {a b : A} → ◌≡◌ {A = Outcome E A} (ok a) (ok b) → a ≡ b
ok-injective h = cc

-- ===== src/Codec/Server/Header.antt =====
-- codec.rs: the checks on a frame and its header in `decode_inner`.
use zksrv.Base.{
  ℕ, ◌^◌, ◌<◌, ◌≤◌, ◌≡◌, refl, sym, ap, ◌∙◌, List, ◌++◌, length, length-append, take, take-append,
  to_be_bytes, from-to_be_bytes, length-to_be_bytes, arith, All, IsByte, ge→ltb,
}
use zksrv.Errors.{ZkError, ok, ok-injective}
use zksrv.Bytes.{ByteOps}
use zksrv.Buf.{pure, abort, ◌>>=◌}
use zksrv.Buf.Ops.{remaining, get_i32}
use zksrv.Record.Laws.{fixed-append, fixed-eq-ok}
use zksrv.Jute.Conform.{encoding}
use zksrv.Proto.Headers.{RequestHeader, request_header_serialize}
use zksrv.Proto.Headers.Wire.{request_header_encodable}
use zksrv.Codec.Server.{ensure_min_length_bytes, peek_i32}

-- A frame of eight bytes at least, which an i32 can count, passes.
pub ensure_min_length_bytes-ok :
    (n : ℕ) (buf : List ℕ)
    → n ≤ length buf
    → length buf < 2 ^ 31
    → ensure_min_length_bytes n buf ≡ ok (tt, buf)
unfolding ensure_min_length_bytes remaining pure abort ◌>>=◌
ensure_min_length_bytes-ok n buf h small = ground arith

pub ensure_min_length_bytes-eq-ok :
    (n : ℕ) (buf : List ℕ) {u : Unit {0}} {rest : List ℕ}
    → ensure_min_length_bytes n buf ≡ ok (u, rest)
    → buf ≡ rest
unfolding ensure_min_length_bytes remaining pure abort ◌>>=◌
ensure_min_length_bytes-eq-ok n buf h = ground arith

-- The first four bytes are looked at, and stay.
pub peek_i32-append :
    (v : ℕ) (rest : List ℕ)
    → v < 2 ^ 32
    → peek_i32 (to_be_bytes 4 v ++ rest) ≡ ok (v, to_be_bytes 4 v ++ rest)
unfolding peek_i32
peek_i32-append v rest h =
    let size = length-to_be_bytes 4 v in
    let long : 4 ≤ length (to_be_bytes 4 v ++ rest) =
      omega (arith, length-append (to_be_bytes 4 v) rest, size) in
    let front : take 4 (to_be_bytes 4 v ++ rest) ≡ to_be_bytes 4 v =
      ap (λ n. take n (to_be_bytes 4 v ++ rest)) (sym size) ∙ take-append (to_be_bytes 4 v) rest in
    rw (peek_i32, ge→ltb _ 4 long, front, from-to_be_bytes 4 v h)

module _ ⦃b : ByteOps⦄ where
  pub get_i32-append :
      (v : ℕ) (rest : List ℕ)
      → v < 2 ^ 32
      → get_i32 {E = ZkError} (to_be_bytes 4 v ++ rest) ≡ ok (v, rest)
  unfolding get_i32
  get_i32-append v rest h = fixed-append 4 b.get_i32 b.get_i32_lem v rest h

  pub get_i32-eq-ok :
      (buf : List ℕ) {v : ℕ} {rest : List ℕ}
      → All IsByte buf
      → get_i32 {E = ZkError} buf ≡ ok (v, rest)
      → (v < 2 ^ 32) × (buf ≡ to_be_bytes 4 v ++ rest)
  unfolding get_i32
  get_i32-eq-ok buf bytes h = fixed-eq-ok 4 b.get_i32 b.get_i32_lem buf bytes h

  -- What was looked at is what is then read.
  pub peek_i32-get_i32 :
      (buf : List ℕ) {v w : ℕ} {mid rest : List ℕ}
      → All IsByte buf
      → peek_i32 buf ≡ ok (v, mid)
      → get_i32 {E = ZkError} buf ≡ ok (w, rest)
      → (v ≡ w) × (buf ≡ mid)
  peek_i32-get_i32 buf {v = v} {w = w} {mid = mid} {rest = rest} bytes h k =
      let (fits, front) = get_i32-eq-ok buf bytes k in
      let seen = ok-injective (sym h ∙ ap peek_i32 front ∙ peek_i32-append w rest fits) in
      (ap (λ p. p.0) seen, front ∙ sym (ap (λ p. p.1) seen))

  pub peek_i32-eq-ok :
      (buf : List ℕ) {v : ℕ} {mid : List ℕ} → peek_i32 buf ≡ ok (v, mid) → buf ≡ mid
  unfolding peek_i32
  peek_i32-eq-ok buf h = ground arith

  pub header_bytes : (h : RequestHeader) → encoding h ≡ to_be_bytes 4 h.xid ++ to_be_bytes 4 h.type
  unfolding request_header_encodable
  header_bytes h = refl

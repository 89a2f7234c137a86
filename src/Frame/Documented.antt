-- ===== src/Frame/Documented.antt =====
-- length_codec.rs: what `decode` returns against the examples of the file's documentation.
use zksrv.Base.{
  ℕ, suc, zero, ◌+◌, ◌-◌, ◌^◌, ◌<◌, ◌≡◌, ap, ◌∙◌, subst, some, List, [], ◌∷◌, ◌++◌, ltb, length,
  take, drop, drop-append, length-take_le, if◌then◌else◌, arith,
}
use zksrv.Errors.{ok}
use zksrv.Bytes.{ByteOps}
use zksrv.Frame.{Builder, LengthDelimitedCodec, head, decode}
use zksrv.Frame.Head.{IsBuilder}
use zksrv.Frame.Described.{front, skip_of}
use zksrv.Frame.Safety.{decode-frame}

-- The head: the bytes up to the field's end, and those that are skipped.
unfoldable pub head_of : Builder → ℕ
head_of b = if ltb (front b) (skip_of b) then skip_of b else front b

-- "The entire frame": the head and the `n` bytes of the payload, and of these the frame that the
-- examples show is what is behind the bytes to skip.
unfoldable pub documented : Builder → ℕ → List ℕ → List ℕ
unfolding head_of
documented b n buf = drop (skip_of b) (take (head_of b + n) buf)

-- A front that ends in `ys`.
take-append_more {ℓ} :
    {A : Type ℓ} (xs ys : List A) (k d : ℕ)
    → k ≡ length xs + d
    → take k (xs ++ ys) ≡ xs ++ take d ys
take-append_more [] ys k d e = let same : k ≡ d = omega arith in ap (λ i. take i ys) same
take-append_more (x ∷ xs) ys zero d e = absurd (omega arith)
take-append_more (x ∷ xs) ys (suc k) d e = ap (◌∷◌ x) (take-append_more xs ys k d (omega arith))

documented_lem :
    (b : Builder) (n : ℕ) (skipped frame rest : List ℕ)
    → length skipped ≡ skip_of b
    → length frame ≡ n
    → documented b n (skipped ++ (frame ++ rest)) ≡ frame ++ take (head_of b - skip_of b) rest
unfolding documented head_of
documented_lem b n skipped frame rest size size' =
    let d = head_of b - skip_of b in
    let outer : take (head_of b + n) (skipped ++ (frame ++ rest))
        ≡ skipped ++ take (n + d) (frame ++ rest) =
      take-append_more skipped (frame ++ rest) (head_of b + n) (n + d) (ground arith) in
    let inner : take (n + d) (frame ++ rest) ≡ frame ++ take d rest =
      take-append_more frame rest (n + d) d (omega arith) in
    ap (drop (skip_of b)) (outer ∙ ap (λ bs. skipped ++ bs) inner)
    ∙ subst (λ k. drop k (skipped ++ (frame ++ take d rest)) ≡ frame ++ take d rest) size
        (drop-append skipped (frame ++ take d rest))

module _ ⦃o : ByteOps⦄ where
  -- When a codec with a length field of one to eight bytes, which ends before byte 2 ^ 64, stands
  -- between two frames and returns a frame of `n` bytes, then the frame that the examples of the
  -- documentation show, the buffer's head and the `n` bytes behind it without the bytes to skip,
  -- is the returned frame followed by as many of the first bytes that are left as the bytes to
  -- skip fall short of the head (by the whole head for `num_skip(0)`).
  pub decode-documented :
      (codec codec' : LengthDelimitedCodec) (n : ℕ) (buf frame rest : List ℕ)
      → IsBuilder codec.builder
      → front codec.builder < 2 ^ 64
      → codec.state ≡ head
      → decode codec buf ≡ ok ((some (frame, n), codec'), rest)
      → documented codec.builder n buf
        ≡ frame ++ take (head_of codec.builder - skip_of codec.builder) rest
  decode-documented codec codec' n buf frame rest good small at_head h =
      let b = codec.builder in
      let (parts, (_, room, _), size, _, _) =
        decode-frame codec codec' n buf frame rest good small at_head h in
      ap (documented b n) parts
      ∙ documented_lem b n (take (skip_of b) buf) frame rest (length-take_le (skip_of b) buf room)
          size

-- ===== src/Frame/Parts.antt =====
-- length_codec.rs: what `decode_head` returns, and that it does not depend on the bytes behind.
use zksrv.Base.{
  ℕ, ◌+◌, ◌≤◌, ◌≡◌, ◌⊎◌, false, refl, sym, ◌∙◌, subst, Option, none, some, List, ◌++◌, ltb, ge→ltb,
  ltb→lt, ltb→ge, Bool-cases, Option-cases, inl, inr, length, length-append, take, drop,
  take-append-drop, take-append_le, drop-append_le, length-take_le, length-drop, arith,
}
use zksrv.Errors.{ok, ok-injective}
use zksrv.Bytes.{ByteOps}
use zksrv.Buf.{pure, fail, ◌>>=◌, bind-ok, bind-eq-ok}
use zksrv.Buf.Ops.{advance}
use zksrv.Frame.{
  Builder, IoError, num_head_bytes, get_num_skip, decode_head, adjust, or_invalid_input, make_room,
}
use zksrv.Frame.Room.{cannot_grow, cannot_grow_mono, make_room-ok, make_room-eq-ok}
use zksrv.Frame.Head.{
  field_value, IsBuilder, after_field, decode_head-short, decode_head-long, decode_head-panic,
  field_of, advance-append,
}

module _ ⦃o : ByteOps⦄ where
  pub skip_le :
      (b : Builder) (buf : List ℕ) → num_head_bytes b ≤ length buf → get_num_skip b ≤ length buf
  unfolding num_head_bytes get_num_skip
  skip_le b buf h = elim (Option-cases b.num_skip) [
    | inl e ↦ let h' = rw e at h in rw e (grind arith)
    | inr (skip, e) ↦ let h' = rw e at h in rw e (grind arith)
  ]

  field_of-append :
      (b : Builder) (buf more : List ℕ)
      → b.length_field_offset + b.length_field_len ≤ length buf
      → field_of b (buf ++ more) ≡ field_of b buf
  field_of-append b buf more room =
      rw (drop-append_le b.length_field_offset buf more (omega arith)) (
        take-append_le b.length_field_len (drop b.length_field_offset buf) more
          (omega (arith, length-drop b.length_field_offset buf)))

  pub after_field_lem :
      (b : Builder) (v n : ℕ) (buf : List ℕ)
      → get_num_skip b ≤ length buf
      → v ≤ b.max_frame_len
      → adjust b.length_adjustment v ≡ some n
      → after_field b v buf ≡ (make_room n >>= λ _. pure (some n)) (drop (get_num_skip b) buf)
  unfolding or_invalid_input pure
  after_field_lem b v n buf room fits e =
      let skip = get_num_skip b in
      let skipped : advance {E = IoError} skip buf ≡ ok (tt, drop skip buf) =
        subst (λ bs. advance {E = IoError} skip bs ≡ ok (tt, drop skip buf))
          (take-append-drop skip buf)
          (advance-append skip (take skip buf) (drop skip buf) (length-take_le skip buf room)) in
      rw (ge→ltb b.max_frame_len v fits, e)
        (bind-ok (or_invalid_input (some n)) _ buf refl ∙ bind-ok (advance skip) _ buf skipped)

  -- What `after_field` returns when it returns.
  pub after_field-eq-ok :
      (b : Builder) (v : ℕ) (buf : List ℕ) {r : Option ℕ} {rest : List ℕ}
      → get_num_skip b ≤ length buf
      → after_field b v buf ≡ ok (r, rest)
      → (n : ℕ) × (r ≡ some n)
        × (v ≤ b.max_frame_len)
        × (adjust b.length_adjustment v ≡ some n)
        × (cannot_grow n (length (drop (get_num_skip b) buf)) ≡ false)
        × (rest ≡ drop (get_num_skip b) buf)
  unfolding or_invalid_input fail pure ◌>>=◌
  after_field-eq-ok b v buf {r = r} {rest = rest} room h =
      elim (Bool-cases (ltb b.max_frame_len v)) [
        | inl more ↦ let h' = rw more at h in cc
        | inr fits ↦ elim (Option-cases (adjust b.length_adjustment v)) [
          | inl e ↦ let h' = rw (fits, e) at h in cc
          | inr (n, e) ↦
              let fits' = ltb→ge b.max_frame_len v fits in
              let (_, mid, made, k) =
                bind-eq-ok (make_room n) (λ _. pure (some n)) (drop (get_num_skip b) buf)
                  (sym (after_field_lem b v n buf room fits' e) ∙ h) in
              let (grows, same) = make_room-eq-ok n (drop (get_num_skip b) buf) mid made in
              let same' = ok-injective k in (n, cc, fits', e, grows, cc)
        ]
      ]

  -- A head that is found holds its field, and the bytes behind it fit the memory.
  pub data Found (b : Builder) (buf : List ℕ) (n : ℕ) (rest : List ℕ) : Type 0 where
    found :
        num_head_bytes b ≤ length buf
        → b.length_field_offset + b.length_field_len ≤ length buf
        → field_value b (field_of b buf) ≤ b.max_frame_len
        → adjust b.length_adjustment (field_value b (field_of b buf)) ≡ some n
        → cannot_grow n (length (drop (get_num_skip b) buf)) ≡ false
        → rest ≡ drop (get_num_skip b) buf
        → Found b buf n rest

  pub decode_head-eq-ok :
      (b : Builder) (buf : List ℕ) {r : Option ℕ} {rest : List ℕ}
      → IsBuilder b
      → decode_head b buf ≡ ok (r, rest)
      → ((r ≡ none) × (rest ≡ buf)) ⊎ ((n : ℕ) × (r ≡ some n) × Found b buf n rest)
  decode_head-eq-ok b buf good h = elim (Bool-cases (ltb (length buf) (num_head_bytes b))) [
    | inl less ↦ let e = decode_head-short b buf (ltb→lt _ _ less) in inl (cc, cc)
    | inr whole ↦
        elim (Bool-cases (ltb (length buf) (b.length_field_offset + b.length_field_len))) [
          | inl less ↦
              let e = decode_head-panic b buf good (ltb→ge _ _ whole) (ltb→lt _ _ less) in cc
          | inr more ↦
              let long = ltb→ge (length buf) (num_head_bytes b) whole in
              let room = ltb→ge (length buf) (b.length_field_offset + b.length_field_len) more in
              let (n, e, fits, adj, grows, r) =
                after_field-eq-ok b (field_value b (field_of b buf)) buf (skip_le b buf long)
                  (sym (decode_head-long b buf good long room) ∙ h) in
              inr (n, e, found long room fits adj grows r)
        ]
  ]

  decode_head-Found :
      (b : Builder) (buf more : List ℕ) {n : ℕ} {rest : List ℕ}
      → IsBuilder b
      → Found b buf n rest
      → decode_head b (buf ++ more) ≡ ok (some n, rest ++ more)
  unfolding pure
  decode_head-Found b buf more {n = n} {rest = rest} good (found long room fits adj grows r) =
      let skip = skip_le b buf long in
      let size = length-append buf more in
      let behind = drop-append_le (get_num_skip b) buf more skip in
      let longer : length (drop (get_num_skip b) buf) ≤ length (drop (get_num_skip b) buf ++ more) =
        omega (arith, length-append (drop (get_num_skip b) buf) more) in
      decode_head-long b (buf ++ more) good (omega arith) (omega arith)
      ∙ rw (field_of-append b buf more room) (
          after_field_lem b (field_value b (field_of b buf)) n (buf ++ more) (omega arith) fits adj
          ∙ rw (behind, r)
              (bind-ok (make_room n) _ _ (make_room-ok n _ (cannot_grow_mono n _ _ longer grows))))

  -- A head that is there is the same when more bytes follow.
  pub decode_head-append :
      (b : Builder) (buf more : List ℕ) {n : ℕ} {rest : List ℕ}
      → IsBuilder b
      → decode_head b buf ≡ ok (some n, rest)
      → decode_head b (buf ++ more) ≡ ok (some n, rest ++ more)
  decode_head-append b buf more {n = n} {rest = rest} good h =
      elim (decode_head-eq-ok b buf good h) [
        | inl (e, _) ↦ cc
        | inr (n', e, f) ↦
            let same : n' ≡ n = cc in
            decode_head-Found b buf more good (subst (λ k. Found b buf k rest) same f)
      ]

  -- A head that is not there is not read.
  pub decode_head-none :
      (b : Builder) (buf : List ℕ) {rest : List ℕ}
      → IsBuilder b
      → decode_head b buf ≡ ok (none, rest)
      → rest ≡ buf
  decode_head-none b buf good h = elim (decode_head-eq-ok b buf good h) [
    | inl (_, e) ↦ e
    | inr (n, e, _) ↦ cc
  ]

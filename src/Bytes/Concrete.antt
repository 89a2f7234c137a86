-- ===== src/Bytes/Concrete.antt =====
-- Functions on lists that meet what is asked of the crate `bytes`.
use zksrv.Base.{
  ℕ, ◌+◌, ◌^◌, leb, ◌&&◌, refl, ◌++◌, Option, none, some, List, length, take, drop, ltb, lt→ltb,
  ge→ltb, if◌then◌else◌, to_be_bytes, to_le_bytes, from_be_bytes, from_le_bytes, arith,
  length-append, take-append, drop-append,
}
use zksrv.Bytes.{ByteOps, Takes}

module _ {A : Type 0} where
  abbrev pub take_front : ℕ → (List ℕ → A) → List ℕ → Option (A × List ℕ)
  take_front n value buf =
      if ltb (length buf) n then none else some (value (take n buf), drop n buf)

  pub take_front-Takes : (n : ℕ) (value : List ℕ → A) → Takes n (take_front n value) value
  take_front-Takes n value = record {
    short = λ buf h. rw (lt→ltb (length buf) n h);
    takes = λ bs rest e. rw (← e) (
        rw (
          ge→ltb (length (bs ++ rest)) (length bs) (omega (arith, length-append bs rest)),
          take-append bs rest,
          drop-append bs rest,
        ));
  }

instance abbrev pub concrete : ByteOps
concrete = record {
  put_u8 = λ v buf. buf ++ to_be_bytes 1 v;
  put_i32 = λ v buf. buf ++ to_be_bytes 4 v;
  put_i64 = λ v buf. buf ++ to_be_bytes 8 v;
  put_slice = λ bs buf. buf ++ bs;
  extend_from_slice = λ bs buf. buf ++ bs;
  put_uint = λ v n buf. buf ++ to_be_bytes n v;
  put_uint_le = λ v n buf. buf ++ to_le_bytes n v;
  get_u8 = take_front 1 from_be_bytes;
  get_i32 = take_front 4 from_be_bytes;
  get_i64 = take_front 8 from_be_bytes;
  get_uint = λ n. take_front n from_be_bytes;
  get_uint_le = λ n. take_front n from_le_bytes;
  copy_to_slice = λ n. take_front n (λ bs. bs);
  split_to = λ n. take_front n (λ bs. bs);
  advance = λ n. take_front n (λ _. tt);
  reserve = λ n buf. if ltb 0 n && leb (2 ^ 63) (length buf + n) then none else some (tt, buf);
  put_u8_lem = λ v buf. refl;
  put_i32_lem = λ v buf. refl;
  put_i64_lem = λ v buf. refl;
  put_slice_lem = λ bs buf. refl;
  extend_from_slice_lem = λ bs buf. refl;
  put_uint_lem = λ v n buf h. refl;
  put_uint_le_lem = λ v n buf h. refl;
  get_u8_lem = take_front-Takes 1 from_be_bytes;
  get_i32_lem = take_front-Takes 4 from_be_bytes;
  get_i64_lem = take_front-Takes 8 from_be_bytes;
  get_uint_lem = λ n h. take_front-Takes n from_be_bytes;
  get_uint_le_lem = λ n h. take_front-Takes n from_le_bytes;
  copy_to_slice_lem = λ n. take_front-Takes n (λ bs. bs);
  split_to_lem = λ n. take_front-Takes n (λ bs. bs);
  advance_lem = λ n. take_front-Takes n (λ _. tt);
  reserve_lem = λ n buf. refl;
}

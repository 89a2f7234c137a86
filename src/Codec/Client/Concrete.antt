-- ===== src/Codec/Client/Concrete.antt =====
-- A map as a function of the key, which meets what is asked of the crate `dashmap`.
use zksrv.Base.{ℕ, ◌≡◌, ◌≢◌, refl, Option, none, some, ◌==◌, if◌then◌else◌, arith}
use zksrv.Constants.{OpCodes}
use zksrv.Codec.Client.{DashMap}

unfoldable pub insert_at : ℕ → OpCodes → (ℕ → Option OpCodes) → ℕ → Option OpCodes
insert_at k v m l = if l == k then some v else m l

pub insert_at-same : (k : ℕ) (v : OpCodes) (m : ℕ → Option OpCodes) → insert_at k v m k ≡ some v
unfolding insert_at
insert_at-same k v m = ground arith

pub insert_at-other :
    (k l : ℕ) (v : OpCodes) (m : ℕ → Option OpCodes) → k ≢ l → insert_at l v m k ≡ m k
unfolding insert_at
insert_at-other k l v m h = ground arith

instance unfoldable pub concrete_map : DashMap
unfolding insert_at
concrete_map = record {
  Map = ℕ → Option OpCodes;
  new = λ _. none;
  insert = insert_at;
  get = λ k m. m k;
  new_lem = λ k. refl;
  insert_lem = insert_at-same;
  other_lem = insert_at-other;
}

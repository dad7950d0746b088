-- ===== src/Container/DashMap.antt =====
-- src/astra/container/dash_map.hpp: `DashMap`, a wrapper of `absl::flat_hash_map` that counts its
-- entries in a field of its own, and `DashSet` over it. The string overloads of the operations are
-- the same functions at the key type of the bytes.
use astra_db.Prelude.{
  ℕ, ◌+◌, ◌-◌, ◌≡◌, refl, Bool, true, false, not, Option, none, some, is_some, List, map, Eq, ◌==◌,
  nat_eqb, if◌then◌else◌, arith,
}
use astra_db.Abseil.{FlatHashMap}
pub mod Laws

module _ {K V : Type 0} ⦃e : Eq K⦄ (H : FlatHashMap K V) where
  pub record DashMap : Type 0 where
    pub map_ : H.Table
    pub size_ : ℕ

  unfoldable pub init : DashMap
  init = record { map_ = H.empty; size_ = 0 }

  -- The flag says whether a new key was inserted.
  unfoldable pub insert : K → V → DashMap → DashMap × Bool
  insert key value d =
      let inserted = not (is_some (H.find d.map_ key)) in
      (
        record {
          map_ = H.insert_or_assign key value d.map_;
          size_ = if inserted then d.size_ + 1 else d.size_;
        },
        inserted,
      )

  unfoldable pub get : DashMap → K → Option V
  get d key = H.find d.map_ key

  unfoldable pub remove : K → DashMap → DashMap × Bool
  remove key d =
      let erased = is_some (H.find d.map_ key) in
      (
        record { map_ = H.erase key d.map_; size_ = if erased then d.size_ - 1 else d.size_ },
        erased,
      )

  unfoldable pub contains : DashMap → K → Bool
  contains d key = is_some (H.find d.map_ key)

  unfoldable pub size : DashMap → ℕ
  size d = d.size_

  unfoldable pub is_empty : DashMap → Bool
  is_empty d = nat_eqb d.size_ 0

  unfoldable pub clear : DashMap → DashMap
  clear d = record { map_ = H.empty; size_ = 0 }

  unfoldable pub get_all_key_value_pairs : DashMap → List (K × V)
  get_all_key_value_pairs d = H.entries d.map_

  unfoldable pub get_all_keys : DashMap → List K
  get_all_keys d = map (λ p. p.0) (H.entries d.map_)

-- ===== src/Commands/Database/Hashes.antt =====
-- The hash operations of src/astra/commands/database.hpp. `absl::SimpleAtoi` and `absl::StrCat`,
-- by which `HIncrBy` reads and prints a number, are parameters; the sum is formed without regard
-- to overflow, which the source leaves undefined. `HIncrByFloat` is not modelled.
pub mod Laws
use astra_db.Prelude.{
  ℕ, ◌+◌, Bool, true, false, Option, none, some, is_some, List, [], ◌∷◌, map, Eq, if◌then◌else◌,
}
use astra_db.Prelude.Int.{ℤ, pos, ◌+ℤ◌}
use astra_db.Container.DashMap
use astra_db.Container.DashMap.{DashMap}
use astra_db.Storage.Metadata.{KeyType}
use astra_db.Commands.Database.{Tables, Database, register, if_valid}

module _ {S : Type 0} ⦃e : Eq S⦄ (T : Tables S) where
  abbrev pub get_hash : Database T → S → Option (DashMap T.fields)
  get_hash db key = DashMap.get T.hashes db.hashes_ key

  abbrev pub put_hash : S → DashMap T.fields → Database T → Database T
  put_hash key hash db = record db { hashes_ = (DashMap.insert T.hashes key hash db.hashes_).0 }

  -- The hash of a write, created and registered if there is none.
  abbrev pub hash_or_new : S → Database T → DashMap T.fields × Database T
  hash_or_new key db = elim (get_hash db key) [
    | none ↦ (
      DashMap.init T.fields,
      register T key KeyType.hash (put_hash key (DashMap.init T.fields) db),
    )
    | some hash ↦ (hash, db)
  ]

  -- The guards at the head of the other operations.
  abbrev pub on_hash {ℓ} :
      {R : Type ℓ}
      → ℤ
      → S
      → R
      → Database T
      → (DashMap T.fields → Database T → R × Database T)
      → R × Database T
  on_hash now key missing db act =
      if_valid T now key missing db
        (λ db'. elim (get_hash db' key) [ none ↦ (missing, db') | some hash ↦ act hash db' ])

  unfoldable pub h_set : S → S → S → Database T → Bool × Database T
  h_set key field value db =
      let (hash, db') = hash_or_new key db in
      let (written, result) = DashMap.insert T.fields field value hash in
      (result, put_hash key written db')

  unfoldable pub h_get : ℤ → S → S → Database T → Option S × Database T
  h_get now key field db =
      on_hash now key none db (λ hash db'. (DashMap.get T.fields hash field, db'))

  unfoldable pub h_exists : ℤ → S → S → Database T → Bool × Database T
  h_exists now key field db =
      on_hash now key false db (λ hash db'. (DashMap.contains T.fields hash field, db'))

  unfoldable pub h_del : ℤ → S → S → Database T → Bool × Database T
  h_del now key field db = on_hash now key false db (λ hash db'.
      let (left, removed) = DashMap.remove T.fields field hash in (removed, put_hash key left db'))

  unfoldable pub remove_fields : List S → DashMap T.fields → ℕ × DashMap T.fields
  remove_fields [] hash = (0, hash)
  remove_fields (field ∷ fields) hash =
      let (left, removed) = DashMap.remove T.fields field hash in
      let (count, rest) = remove_fields fields left in
      ((if removed then count + 1 else count), rest)

  unfoldable pub h_del_fields : ℤ → S → List S → Database T → ℕ × Database T
  unfolding remove_fields
  h_del_fields now key fields db =
      on_hash now key 0 db (λ hash db'.
        let (count, left) = remove_fields fields hash in (count, put_hash key left db'))

  unfoldable pub h_get_all : ℤ → S → Database T → List (S × S) × Database T
  h_get_all now key db =
      on_hash now key [] db (λ hash db'. (DashMap.get_all_key_value_pairs T.fields hash, db'))

  unfoldable pub h_len : ℤ → S → Database T → ℕ × Database T
  h_len now key db = on_hash now key 0 db (λ hash db'. (DashMap.size T.fields hash, db'))

  unfoldable pub h_set_nx : S → S → S → Database T → Bool × Database T
  h_set_nx key field value db =
      let (hash, db') = hash_or_new key db in
      let written = (DashMap.insert T.fields field value hash).0 in
      if DashMap.contains T.fields hash field
      then (false, db')
      else (true, put_hash key written db')

  unfoldable pub h_m_get : ℤ → S → List S → Database T → List (Option S) × Database T
  h_m_get now key fields db =
      on_hash now key (map (λ field. none) fields) db
        (λ hash db'. (map (DashMap.get T.fields hash) fields, db'))

  module _ (simple_atoi : S → Option ℤ) (str_cat : ℤ → S) where
    unfoldable pub h_incr_by : S → S → ℤ → Database T → ℤ × Database T
    h_incr_by key field increment db =
        let (hash, db') = hash_or_new key db in
        let add : ℤ → ℤ × Database T = λ n. (
          n +ℤ increment,
          put_hash key (DashMap.insert T.fields field (str_cat (n +ℤ increment)) hash).0 db',
        ) in
        elim (DashMap.get T.fields hash field) [
          | none ↦ add (pos 0)
          | some value ↦ elim (simple_atoi value) [ none ↦ (pos 0, db') | some n ↦ add n ]
        ]

-- ===== src/Commands/Database/Lists.antt =====
-- The list operations of src/astra/commands/database.hpp.
pub mod Spec
pub mod Cells
pub mod Guards
pub mod Deleted
pub mod Plain
pub mod Steps
pub mod Calls
pub mod Refines
use astra_db.Prelude.{
  ℕ, Bool, true, false, Option, none, some, is_some, not, ◌||◌, List, [], Eq, if◌then◌else◌,
}
use astra_db.Prelude.Int.{ℤ}
use astra_db.Container.DashMap
use astra_db.Container.LinkedList
use astra_db.Container.LinkedList.{LinkedList}
use astra_db.Storage.Metadata.{KeyType}
use astra_db.Commands.Database.{Tables, Database, register, unregister, if_valid}

module _ {S : Type 0} ⦃e : Eq S⦄ (T : Tables S) where
  abbrev pub get_list : Database T → S → Option (LinkedList S)
  get_list db key = DashMap.get T.lists db.lists_ key

  abbrev pub put_list : S → LinkedList S → Database T → Database T
  put_list key list db = record db { lists_ = (DashMap.insert T.lists key list db.lists_).0 }

  -- `lists_.Remove(key); metadata_manager_.UnregisterKey(key);`
  abbrev pub forget_list : S → Database T → Database T
  forget_list key db =
      unregister T key (record db { lists_ = (DashMap.remove T.lists key db.lists_).0 })

  -- The list of a push, created and registered if there is none.
  abbrev pub list_or_new : S → Database T → LinkedList S × Database T
  list_or_new key db = elim (get_list db key) [
    | none ↦ (LinkedList.empty, register T key KeyType.list (put_list key LinkedList.empty db))
    | some list ↦ (list, db)
  ]

  -- The guards at the head of the other operations.
  abbrev pub on_list {ℓ} :
      {R : Type ℓ}
      → ℤ
      → S
      → R
      → Database T
      → (LinkedList S → Database T → R × Database T)
      → R × Database T
  on_list now key missing db act =
      if_valid T now key missing db
        (λ db'. elim (get_list db' key) [ none ↦ (missing, db') | some list ↦ act list db' ])

  unfoldable pub l_push : S → S → Database T → Bool × Database T
  l_push key value db =
      let (list, db') = list_or_new key db in
      (true, put_list key (LinkedList.push_left value list) db')

  unfoldable pub r_push : S → S → Database T → Bool × Database T
  r_push key value db =
      let (list, db') = list_or_new key db in
      (true, put_list key (LinkedList.push_right value list) db')

  -- `auto value = list->PopLeft(); if (!value.has_value() || list->Empty()) { … }`
  abbrev pub pop_with :
      (LinkedList S → Option S × LinkedList S)
      → S
      → LinkedList S
      → Database T
      → Option S × Database T
  pop_with pop key list db =
      let (value, popped) = pop list in
      let db' = put_list key popped db in
      (
        value,
        if not (is_some value) || LinkedList.is_empty popped then forget_list key db' else db',
      )

  -- A change of the list, after which an empty one goes with its key.
  abbrev pub shrink_with {ℓ} :
      {R : Type ℓ}
      → (LinkedList S → LinkedList S × R)
      → S
      → LinkedList S
      → Database T
      → R × Database T
  shrink_with change key list db =
      let (changed, result) = change list in
      let db' = put_list key changed db in
      (result, if LinkedList.is_empty changed then forget_list key db' else db')

  abbrev pub change_with :
      (LinkedList S → LinkedList S × Bool) → S → LinkedList S → Database T → Bool × Database T
  change_with change key list db =
      let (changed, done) = change list in (done, put_list key changed db)

  abbrev pub read_with {ℓ} :
      {R : Type ℓ} → (LinkedList S → R) → LinkedList S → Database T → R × Database T
  read_with read list db = (read list, db)

  unfoldable pub l_pop : ℤ → S → Database T → Option S × Database T
  l_pop now key db = on_list now key none db (pop_with LinkedList.pop_left key)

  unfoldable pub r_pop : ℤ → S → Database T → Option S × Database T
  r_pop now key db = on_list now key none db (pop_with LinkedList.pop_right key)

  unfoldable pub l_len : ℤ → S → Database T → ℕ × Database T
  l_len now key db = on_list now key 0 db (read_with LinkedList.size)

  unfoldable pub l_index : ℤ → S → ℤ → Database T → Option S × Database T
  l_index now key index db =
      on_list now key none db (read_with (λ list. LinkedList.index list index))

  unfoldable pub l_set : ℤ → S → ℤ → S → Database T → Bool × Database T
  l_set now key index value db =
      on_list now key false db (change_with (λ list. LinkedList.set_at list index value) key)

  unfoldable pub l_range : ℤ → S → ℤ → ℤ → Database T → List S × Database T
  l_range now key start stop db =
      on_list now key [] db (read_with (λ list. LinkedList.range list start stop))

  unfoldable pub l_trim : ℤ → S → ℤ → ℤ → Database T → Bool × Database T
  l_trim now key start stop db =
      on_list now key false db (shrink_with (λ list. (LinkedList.trim list start stop, true)) key)

  unfoldable pub l_rem : ℤ → S → S → ℤ → Database T → ℕ × Database T
  l_rem now key value count db =
      on_list now key 0 db (shrink_with (λ list. LinkedList.remove list value count) key)

  unfoldable pub l_insert : ℤ → S → ℤ → S → Bool → Database T → Bool × Database T
  l_insert now key pivot_index value before db =
      on_list now key false db
        (change_with (λ list. LinkedList.insert list pivot_index value before) key)

  unfoldable pub r_pop_l_push : ℤ → S → S → Database T → Option S × Database T
  unfolding r_pop r_push
  r_pop_l_push now source destination db =
      let (value, popped) = r_pop now source db in
      elim value [ none ↦ (none, popped) | some v ↦ (some v, (r_push destination v popped).1) ]

-- ===== src/Commands/Database/Deletion.antt =====
-- `Del` of src/astra/commands/database.hpp. The removals are joined by `||`: the first table that
-- holds the key ends them. `Del` of several keys is the sequential loop; for more than a hundred
-- keys the source runs the same calls in parallel.
use astra_db.Prelude.{ℕ, ◌+◌, Bool, true, false, List, [], ◌∷◌, Eq, if◌then◌else◌}
use astra_db.Container.DashMap
use astra_db.Commands.Database.{Tables, Database, unregister}

module _ {S : Type 0} ⦃e : Eq S⦄ (T : Tables S) where
  abbrev remove_string : S → Database T → Database T × Bool
  remove_string key db =
      let (table, removed) = DashMap.remove T.strings key db.strings_ in
      (record db { strings_ = table }, removed)

  abbrev remove_hash : S → Database T → Database T × Bool
  remove_hash key db =
      let (table, removed) = DashMap.remove T.hashes key db.hashes_ in
      (record db { hashes_ = table }, removed)

  abbrev remove_set : S → Database T → Database T × Bool
  remove_set key db =
      let (table, removed) = DashMap.remove T.sets key db.sets_ in
      (record db { sets_ = table }, removed)

  abbrev remove_zset : S → Database T → Database T × Bool
  remove_zset key db =
      let (table, removed) = DashMap.remove T.zsets key db.zsets_ in
      (record db { zsets_ = table }, removed)

  abbrev remove_list : S → Database T → Database T × Bool
  remove_list key db =
      let (table, removed) = DashMap.remove T.lists key db.lists_ in
      (record db { lists_ = table }, removed)

  abbrev remove_stream : S → Database T → Database T × Bool
  remove_stream key db =
      let (table, removed) = DashMap.remove T.streams key db.streams_ in
      (record db { streams_ = table }, removed)

  abbrev remove_vector : S → Database T → Database T × Bool
  remove_vector key db =
      let (table, removed) = DashMap.remove T.vectors key db.vectors_ in
      (record db { vectors_ = table }, removed)

  abbrev remove_json : S → Database T → Database T × Bool
  remove_json key db =
      let (table, removed) = DashMap.remove T.jsons key db.jsons_ in
      (record db { jsons_ = table }, removed)

  -- `first || second || …`
  abbrev first_of : List (S → Database T → Database T × Bool) → S → Database T → Database T × Bool
  first_of [] key db = (db, false)
  first_of (remove ∷ removes) key db =
      let (db', removed) = remove key db in
      let rest = first_of removes key db' in if removed then (db', true) else rest

  unfoldable pub del : S → Database T → Bool × Database T
  del key db = let (db', removed) = first_of removals key db in (removed, unregister T key db')
    where
      removals : List (S → Database T → Database T × Bool)
      removals =
          remove_string ∷ remove_hash ∷ remove_set ∷ remove_zset ∷ remove_list ∷ remove_stream
          ∷ remove_vector ∷ remove_json ∷ []

  unfoldable pub del_keys : List S → Database T → ℕ × Database T
  del_keys [] db = (0, db)
  del_keys (key ∷ keys) db =
      let (removed, db') = del key db in
      let (count, db'') = del_keys keys db' in ((if removed then count + 1 else count), db'')

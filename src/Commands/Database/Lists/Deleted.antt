-- ===== src/Commands/Database/Lists/Deleted.antt =====
-- `Del` (src/astra/commands/database.hpp) in a database whose keys hold lists.
use astra_db.Prelude.{
  ◌≡◌, inl, inr, refl, Bool, true, false, Option, none, some, is_some, is_nil, not, List, [], Eq,
  arith, ==_refl,
}
use astra_db.Abseil.{FlatHashMap}
use astra_db.Container.DashMap
use astra_db.Container.DashMap.{DashMap}
use astra_db.Container.DashMap.Laws.{get-remove}
use astra_db.Commands.Database.{Tables, Database, unregister}
use astra_db.Commands.Database.Deletion.{del}
use astra_db.Commands.Database.Lists.Spec.{write}
use astra_db.Commands.Database.Keys.{find-unregister}
use astra_db.Commands.Database.Lists.Cells.{Stands, change-Stands, list_cases}

module _ {K V : Type 0} ⦃e : Eq K⦄ (H : FlatHashMap K V) (d : DashMap H) (k : K) where
  -- What `Remove` reports.
  remove_flag : (o : Option V) → DashMap.get H d k ≡ o → (DashMap.remove H k d).1 ≡ is_some o
  unfolding DashMap.remove DashMap.get
  remove_flag o h = rw h refl

  removed_none :
      (j : K) → DashMap.get H d j ≡ none → DashMap.get H (DashMap.remove H k d).0 j ≡ none
  removed_none j h = rw (get-remove H k d j, h) (ground arith)

module _ {S : Type 0} ⦃e : Eq S⦄ (T : Tables S) (m : S → List S) (db : Database T)
    (s : Stands T m db) (k : S) where
  -- The tables up to that of the lists lose the key, and the others have none of the keys.
  gone-Stands :
      (streams : DashMap T.streams) (vectors : DashMap T.vectors) (jsons : DashMap T.jsons)
      → ((j : S) → DashMap.get T.streams streams j ≡ none)
      → ((j : S) → DashMap.get T.vectors vectors j ≡ none)
      → ((j : S) → DashMap.get T.jsons jsons j ≡ none)
      → Stands T (write m k []) (
          unregister T k (record db {
            strings_ = (DashMap.remove T.strings k db.strings_).0;
            hashes_ = (DashMap.remove T.hashes k db.hashes_).0;
            sets_ = (DashMap.remove T.sets k db.sets_).0;
            zsets_ = (DashMap.remove T.zsets k db.zsets_).0;
            lists_ = (DashMap.remove T.lists k db.lists_).0;
            streams_ = streams;
            vectors_ = vectors;
            jsons_ = jsons;
          }))
  gone-Stands streams vectors jsons no_stream no_vector no_json =
      change-Stands T m db _ k [] s
        (
          rw (get-remove T.lists k db.lists_ k, ==_refl k) refl,
          rw (find-unregister T k db k, ==_refl k) refl,
        )
        (λ j other. (
          rw (get-remove T.lists k db.lists_ j, other) refl,
          rw (find-unregister T k db j, other) refl,
        ))
        (λ j.
          let h = s.list_key j in
          record {
            no_string = removed_none T.strings db.strings_ k j h.no_string;
            no_hash = removed_none T.hashes db.hashes_ k j h.no_hash;
            no_set = removed_none T.sets db.sets_ k j h.no_set;
            no_zset = removed_none T.zsets db.zsets_ k j h.no_zset;
            no_stream = no_stream j;
            no_vector = no_vector j;
            no_json = no_json j;
          })

  no_string_flag : (DashMap.remove T.strings k db.strings_).1 ≡ false
  no_string_flag = remove_flag T.strings db.strings_ k none (s.list_key k).no_string

  no_hash_flag : (DashMap.remove T.hashes k db.hashes_).1 ≡ false
  no_hash_flag = remove_flag T.hashes db.hashes_ k none (s.list_key k).no_hash

  no_set_flag : (DashMap.remove T.sets k db.sets_).1 ≡ false
  no_set_flag = remove_flag T.sets db.sets_ k none (s.list_key k).no_set

  no_zset_flag : (DashMap.remove T.zsets k db.zsets_).1 ≡ false
  no_zset_flag = remove_flag T.zsets db.zsets_ k none (s.list_key k).no_zset

  -- Only the table of the lists may have the key.
  del_lem :
      (found : Bool)
      → (DashMap.remove T.lists k db.lists_).1 ≡ found
      → ((del T k db).0 ≡ found) × Stands T (write m k []) (del T k db).1
  unfolding del
  del_lem true h =
      rw (no_string_flag, no_hash_flag, no_set_flag, no_zset_flag, h)
        (
          refl,
          gone-Stands db.streams_ db.vectors_ db.jsons_ (λ j. (s.list_key j).no_stream)
              (λ j. (s.list_key j).no_vector) (λ j. (s.list_key j).no_json),
        )
  del_lem false h =
      rw
        (
          no_string_flag,
          no_hash_flag,
          no_set_flag,
          no_zset_flag,
          h,
          remove_flag T.streams db.streams_ k none (s.list_key k).no_stream,
          remove_flag T.vectors db.vectors_ k none (s.list_key k).no_vector,
          remove_flag T.jsons db.jsons_ k none (s.list_key k).no_json,
        )
        (
          refl,
          gone-Stands _ _ _ (λ j. removed_none T.streams db.streams_ k j (s.list_key j).no_stream)
              (λ j. removed_none T.vectors db.vectors_ k j (s.list_key j).no_vector)
              (λ j. removed_none T.jsons db.jsons_ k j (s.list_key j).no_json),
        )

  -- What `Del` returns, and what it leaves.
  pub del-Stands : ((del T k db).0 ≡ not (is_nil (m k))) × Stands T (write m k []) (del T k db).1
  del-Stands = elim (list_cases T m db k s) [
    | inl (none_k, missing, unknown) ↦
        rw none_k (del_lem false (remove_flag T.lists db.lists_ k none missing))
    | inr p ↦ rw p.here (del_lem true (remove_flag T.lists db.lists_ k (some p.list) p.found))
  ]

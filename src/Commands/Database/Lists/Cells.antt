-- ===== src/Commands/Database/Lists/Cells.antt =====
-- How a list stands in a database (src/astra/commands/database.hpp) in which keys hold lists alone
-- and none of them expires, and what the steps that the list operations share do to it.
use astra_db.Prelude.{
  ◌≡◌, ◌⊎◌, inl, inr, refl, false, Option, none, some, List, [], ◌∷◌, Eq, ◌==◌, Bool-cases, ==_refl,
}
use astra_db.Container.DashMap
use astra_db.Container.DashMap.{DashMap}
use astra_db.Container.DashMap.Laws.{get-insert, get-remove}
use astra_db.Container.LinkedList
use astra_db.Container.LinkedList.{LinkedList}
use astra_db.Container.LinkedList.Spec.{IsValid, items}
use astra_db.Storage.Metadata.{KeyType, KeyMetadata}
use astra_db.Storage.Manager
use astra_db.Storage.Manager.{KeyMetadataManager}
use astra_db.Storage.Manager.Reads.{registered}
use astra_db.Commands.Database
use astra_db.Commands.Database.{Tables, Database, metadata_of, register}
use astra_db.Commands.Database.Keys.{find-register, find-unregister}
use astra_db.Commands.Database.Lists.{get_list, put_list, forget_list}
use astra_db.Commands.Database.Lists.Spec.{write}

module _ {S : Type 0} ⦃e : Eq S⦄ (T : Tables S) where
  -- No other table holds the key.
  pub record IsListKey (db : Database T) (k : S) : Type 0 where
    pub no_string : DashMap.get T.strings db.strings_ k ≡ none
    pub no_hash : DashMap.get T.hashes db.hashes_ k ≡ none
    pub no_set : DashMap.get T.sets db.sets_ k ≡ none
    pub no_zset : DashMap.get T.zsets db.zsets_ k ≡ none
    pub no_stream : DashMap.get T.streams db.streams_ k ≡ none
    pub no_vector : DashMap.get T.vectors db.vectors_ k ≡ none
    pub no_json : DashMap.get T.jsons db.jsons_ k ≡ none

  -- How a list stands in the database: an empty one not at all, another one in the table of the
  -- lists and, with no time to expire, in the metadata.
  abbrev pub Cell : List S → Option (LinkedList S) → Option KeyMetadata → Type 0
  Cell [] list metadata = (list ≡ none) × (metadata ≡ none)
  Cell (x ∷ xs) list metadata =
      (l : LinkedList S) × (d : KeyMetadata) × (list ≡ some l)
      × IsValid l
      × (items l ≡ x ∷ xs)
      × (metadata ≡ some d)
      × (d.expire_time_ms ≡ none)

  pub record Stands (m : S → List S) (db : Database T) : Type 0 where
    pub cell : (k : S) → Cell (m k) (get_list T db k) (metadata_of T db k)
    pub list_key : (k : S) → IsListKey db k

  pub init-Stands : Stands (λ k. []) (Database.init T)
  unfolding Database.init Manager.init DashMap.init DashMap.get
  init-Stands = record {
    cell = λ k. (T.lists.find-empty k, T.metadata.find-empty k);
    list_key = λ k. record {
      no_string = T.strings.find-empty k;
      no_hash = T.hashes.find-empty k;
      no_set = T.sets.find-empty k;
      no_zset = T.zsets.find-empty k;
      no_stream = T.streams.find-empty k;
      no_vector = T.vectors.find-empty k;
      no_json = T.jsons.find-empty k;
    };
  }

  -- A change of one key: the cell of that key stands for the new list, and the others are as before.
  pub change-Stands :
      (m : S → List S) (db db' : Database T) (k : S) (xs : List S)
      → Stands m db
      → Cell xs (get_list T db' k) (metadata_of T db' k)
      → ((j : S)
          → (k == j) ≡ false
          → (get_list T db' j ≡ get_list T db j) × (metadata_of T db' j ≡ metadata_of T db j))
      → ((j : S) → IsListKey db' j)
      → Stands (write m k xs) db'
  change-Stands m db db' k xs s here there keys = record {
    cell = λ j. elim (Bool-cases (k == j)) [
      | inl same ↦ rw (same, ← (e.beq_iff k j).0 same) here
      | inr other ↦ rw (other, (there j other).0, (there j other).1) (s.cell j)
    ];
    list_key = keys;
  }

  -- A change of the lists and of the metadata alone.
  local-Stands :
      (m : S → List S) (db : Database T) (lists : DashMap T.lists)
      (manager : KeyMetadataManager T.metadata) (k : S) (xs : List S)
      → Stands m db
      → Cell xs (DashMap.get T.lists lists k) (Manager.find T.metadata manager k)
      → ((j : S)
          → (k == j) ≡ false
          → (DashMap.get T.lists lists j ≡ get_list T db j)
            × (Manager.find T.metadata manager j ≡ metadata_of T db j))
      → Stands (write m k xs) (record db { lists_ = lists; metadata_manager_ = manager })
  local-Stands m db lists manager k xs s here there =
      change-Stands m db (record db { lists_ = lists; metadata_manager_ = manager }) k xs s here
        there
        (λ j.
          let h = s.list_key j in
          record {
            no_string = h.no_string;
            no_hash = h.no_hash;
            no_set = h.no_set;
            no_zset = h.no_zset;
            no_stream = h.no_stream;
            no_vector = h.no_vector;
            no_json = h.no_json;
          })

  -- A list written under a key that has one.
  pub put-Stands :
      (m : S → List S) (db : Database T) (k : S) (l : LinkedList S) (d : KeyMetadata) (x : S)
      (xs : List S)
      → Stands m db
      → IsValid l
      → items l ≡ x ∷ xs
      → metadata_of T db k ≡ some d
      → d.expire_time_ms ≡ none
      → Stands (write m k (x ∷ xs)) (put_list T k l db)
  put-Stands m db k l d x xs s v same known lasting =
      local-Stands m db _ _ k (x ∷ xs) s
        (l, d, rw (get-insert T.lists k l db.lists_ k, ==_refl k) refl, v, same, known, lasting)
        (λ j other. (rw (get-insert T.lists k l db.lists_ j, other) refl, refl))

  -- The first list written under a key.
  pub new-Stands :
      (m : S → List S) (db : Database T) (k : S) (l : LinkedList S) (x : S) (xs : List S)
      → Stands m db
      → IsValid l
      → items l ≡ x ∷ xs
      → metadata_of T db k ≡ none
      → Stands
          (write m k (x ∷ xs))
          (put_list T k l (register T k KeyType.list (put_list T k LinkedList.empty db)))
  new-Stands m db k l x xs s v same unknown =
      let created = (DashMap.insert T.lists k LinkedList.empty db.lists_).0 in
      local-Stands m db _ _ k (x ∷ xs) s
        (
          l,
          registered KeyType.list none,
          rw (get-insert T.lists k l created k, ==_refl k) refl,
          v,
          same,
          rw (find-register T k KeyType.list db k, ==_refl k, unknown) refl,
          refl,
        )
        (λ j other. (
          rw
              (
                get-insert T.lists k l created j,
                get-insert T.lists k LinkedList.empty db.lists_ j,
                other,
              )
              refl,
          rw (find-register T k KeyType.list db j, other) refl,
        ))

  -- A list written and removed with its key.
  pub forget-Stands :
      (m : S → List S) (db : Database T) (k : S) (l : LinkedList S)
      → Stands m db
      → Stands (write m k []) (forget_list T k (put_list T k l db))
  forget-Stands m db k l s =
      let changed = (DashMap.insert T.lists k l db.lists_).0 in
      local-Stands m db _ _ k [] s
        (
          rw (get-remove T.lists k changed k, ==_refl k) refl,
          rw (find-unregister T k db k, ==_refl k) refl,
        )
        (λ j other. (
          rw (get-remove T.lists k changed j, get-insert T.lists k l db.lists_ j, other) refl,
          rw (find-unregister T k db j, other) refl,
        ))

  -- A write of what is there.
  pub same-Stands :
      (m : S → List S) (db : Database T) (k : S) (xs : List S)
      → Stands m db
      → m k ≡ xs
      → Stands (write m k xs) db
  same-Stands m db k xs s same =
      local-Stands m db _ _ k xs s (rw (← same) (s.cell k)) (λ j other. (refl, refl))

  -- What a list that is there comes with.
  pub record Present (m : S → List S) (db : Database T) (k : S) : Type 0 where
    pub list : LinkedList S
    pub valid : IsValid list
    pub first : S
    pub rest : List S
    pub same : items list ≡ first ∷ rest
    pub here : m k ≡ first ∷ rest
    pub found : get_list T db k ≡ some list
    pub metadata : KeyMetadata
    pub known : metadata_of T db k ≡ some metadata
    pub lasting : metadata.expire_time_ms ≡ none

  pub list_cases :
      (m : S → List S) (db : Database T) (k : S)
      → Stands m db
      → ((m k ≡ []) × (get_list T db k ≡ none) × (metadata_of T db k ≡ none)) ⊎ Present m db k
  list_cases m db k s = by_list (m k) refl (s.cell k)
    where
      by_list :
          (xs : List S)
          → m k ≡ xs
          → Cell xs (get_list T db k) (metadata_of T db k)
          → ((m k ≡ []) × (get_list T db k ≡ none) × (metadata_of T db k ≡ none)) ⊎ Present m db k
      by_list [] at (missing, unknown) = inl (at, missing, unknown)
      by_list (x ∷ xs) at (l, d, found, v, same, known, lasting) = inr (record {
        list = l;
        valid = v;
        first = x;
        rest = xs;
        same = same;
        here = at;
        found = found;
        metadata = d;
        known = known;
        lasting = lasting;
      })

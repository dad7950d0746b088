-- ===== src/Commands/Database/Lists/Guards.antt =====
-- The guards and the creation of a list (src/astra/commands/database.hpp), on a key with no list
-- and on one with a list.
use astra_db.Prelude.{◌≡◌, refl, ap, ◌∙◌, Bool, none, some, Eq, if◌then◌else◌}
use astra_db.Prelude.Int.{ℤ}
use astra_db.Container.LinkedList
use astra_db.Container.LinkedList.{LinkedList}
use astra_db.Storage.Metadata.{KeyType, KeyMetadata}
use astra_db.Commands.Database.{Tables, Database, metadata_of, register}
use astra_db.Commands.Database.Keys.{exists-absent, exists-present}
use astra_db.Commands.Database.Lists.{get_list, put_list, on_list, list_or_new}

module _ {S : Type 0} ⦃e : Eq S⦄ (T : Tables S) where
  module _ {ℓ} {R : Type ℓ} (now : ℤ) (k : S) (missing : R) (db : Database T)
      (act : LinkedList S → Database T → R × Database T) where
    pub on_list-absent : metadata_of T db k ≡ none → on_list T now k missing db act ≡ (missing, db)
    on_list-absent unknown = rw (exists-absent T now k db unknown) refl

    pub on_list-present :
        (l : LinkedList S) (d : KeyMetadata)
        → get_list T db k ≡ some l
        → metadata_of T db k ≡ some d
        → d.expire_time_ms ≡ none
        → on_list T now k missing db act ≡ act l db
    on_list-present l d found known lasting =
        let go : Bool × Database T → R × Database T = λ r.
          if r.0
          then elim (get_list T r.1 k) [ none ↦ (missing, r.1) | some list ↦ act list r.1 ]
          else (missing, r.1) in
        ap go (exists-present T now k db d known lasting) ∙ rw found refl

  pub list_or_new-absent :
      (k : S) (db : Database T)
      → get_list T db k ≡ none
      → list_or_new T k db
        ≡ (LinkedList.empty, register T k KeyType.list (put_list T k LinkedList.empty db))
  list_or_new-absent k db missing = rw (missing, list_or_new) refl

  pub list_or_new-present :
      (k : S) (db : Database T) (l : LinkedList S)
      → get_list T db k ≡ some l
      → list_or_new T k db ≡ (l, db)
  list_or_new-present k db l found = rw (found, list_or_new) refl

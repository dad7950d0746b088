-- ===== src/Commands/Database/Keys.antt =====
-- What registering, removing, versioning and looking for a key do to the metadata of a database
-- (src/astra/commands/database.hpp).
use astra_db.Prelude.{
  ℕ, not, ◌+◌, ◌%◌, ◌^◌, arith, false, true, ◌≡◌, refl, Bool, true, false, Option, none, some, Eq,
  ◌==◌, if◌then◌else◌, arith,
}
use astra_db.Prelude.Int.{ℤ}
use astra_db.Storage.Metadata
use astra_db.Storage.Metadata.{KeyType, KeyMetadata}
use astra_db.Storage.Manager
use astra_db.Storage.Manager.{KeyMetadataManager}
use astra_db.Storage.Manager.Reads
use astra_db.Storage.Manager.Reads.{change, find-call, registered}
use astra_db.Commands.Database
use astra_db.Commands.Database.{Tables, Database, metadata_of, register}

-- The version that WATCH reads, from the metadata.
abbrev pub version : Option KeyMetadata → ℕ
version none = 0
version (some d) = d.version

-- Whether a key is valid, from its metadata.
abbrev pub fresh_flag : ℤ → Option KeyMetadata → Bool
fresh_flag now none = false
fresh_flag now (some d) = not (Metadata.is_expired now d)

pub fresh-registered :
    (now : ℤ) (t : KeyType) (o : Option KeyMetadata) → fresh_flag now (some (registered t o)) ≡ true
unfolding Metadata.is_expired
fresh-registered now t none = refl
fresh-registered now t (some d) = refl

module _ {S : Type 0} ⦃e : Eq S⦄ (T : Tables S) where
  pub find-register :
      (k : S) (t : KeyType) (db : Database T) (j : S)
      → metadata_of T (register T k t db) j
        ≡ (if k == j then some (registered t (metadata_of T db j)) else metadata_of T db j)
  find-register k t db j =
      unfold Reads.call Reads.after in
      find-call T.metadata db.metadata_manager_ (Reads.register_key k t) j

  pub find-unregister :
      (k : S) (db : Database T) (j : S)
      → metadata_of T (Database.unregister T k db) j ≡ (if k == j then none else metadata_of T db j)
  find-unregister k db j =
      unfold Reads.call Reads.after in
      find-call T.metadata db.metadata_manager_ (Reads.unregister_key k) j

  pub find-bump :
      (k : S) (db : Database T) (j : S)
      → Manager.find T.metadata (Manager.increment_key_version T.metadata k db.metadata_manager_) j
        ≡ (if k == j
            then change (metadata_of T db j) (λ x. record x { version = (x.version + 1) % 2 ^ 64 })
            else metadata_of T db j)
  find-bump k db j =
      unfold Reads.call Reads.after in
      find-call T.metadata db.metadata_manager_ (Reads.increment_key_version k) j

  pub exists-absent :
      (now : ℤ) (k : S) (db : Database T)
      → metadata_of T db k ≡ none
      → Database.exists T now k db ≡ (false, db)
  unfolding Database.exists Manager.is_valid
  exists-absent now k db unknown = ground arith

  pub exists-present :
      (now : ℤ) (k : S) (db : Database T) (d : KeyMetadata)
      → metadata_of T db k ≡ some d
      → d.expire_time_ms ≡ none
      → Database.exists T now k db ≡ (true, db)
  unfolding Database.exists Manager.is_valid Metadata.is_expired
  exists-present now k db d known lasting = ground arith

  pub exists_flag :
      (now : ℤ) (k : S) (db : Database T)
      → (Database.exists T now k db).0 ≡ fresh_flag now (metadata_of T db k)
  unfolding Database.exists Manager.is_valid
  exists_flag now k db = ground arith

  pub get_key_version_lem :
      (db : Database T) (k : S) → Database.get_key_version T db k ≡ version (metadata_of T db k)
  unfolding Database.get_key_version Manager.get_key_version
  get_key_version_lem db k = ground arith

-- ===== src/Commands/Database.antt =====
-- The class `Database` of src/astra/commands/database.hpp in the storage mode kRedis, with no RocksDB
-- adapter. Left out are the memory tracker that a shard sets, which counts bytes and keeps estimated
-- sizes in the metadata, the eviction manager, and the batch callback that a worker sets, which only
-- `SInter` calls. A table holds shared pointers to its values, which the
-- database alone keeps: a change of the value in place is a write of the new value under the same
-- key. The clock is an argument, `now`. Strings are used through their equality, but in Strings.
pub mod Keys
pub mod Strings
pub mod Hashes
pub mod Sets
pub mod Lists
pub mod Deletion
use astra_db.Prelude.{
  ℕ, ◌+◌, Bool, true, false, Option, none, some, is_some, List, [], ◌∷◌, Eq, if◌then◌else◌,
}
use astra_db.Prelude.Int.{ℤ}
use astra_db.Abseil.{FlatHashMap}
use astra_db.Container.DashMap
use astra_db.Container.DashMap.{DashMap}
use astra_db.Container.LinkedList.{LinkedList}
use astra_db.Storage.Metadata.{KeyType, KeyMetadata}
use astra_db.Storage.Manager
use astra_db.Storage.Manager.{KeyMetadataManager}

-- The hash tables under the members of the class. What a sorted set, a stream, a vector and a
-- document are is left open.
pub record Tables (S : Type 0) ⦃e : Eq S⦄ : Type 1 where
  pub ZSet : Type 0
  pub Stream : Type 0
  pub Vector : Type 0
  pub Json : Type 0
  pub strings : FlatHashMap S S
  pub fields : FlatHashMap S S
  pub members : FlatHashMap S (Unit {0})
  pub hashes : FlatHashMap S (DashMap fields)
  pub sets : FlatHashMap S (DashMap members)
  pub zsets : FlatHashMap S ZSet
  pub lists : FlatHashMap S (LinkedList S)
  pub streams : FlatHashMap S Stream
  pub vectors : FlatHashMap S Vector
  pub jsons : FlatHashMap S Json
  pub metadata : FlatHashMap S KeyMetadata

module _ {S : Type 0} ⦃e : Eq S⦄ (T : Tables S) where
  pub record Database : Type 0 where
    pub strings_ : DashMap T.strings
    pub hashes_ : DashMap T.hashes
    pub sets_ : DashMap T.sets
    pub zsets_ : DashMap T.zsets
    pub lists_ : DashMap T.lists
    pub streams_ : DashMap T.streams
    pub vectors_ : DashMap T.vectors
    pub jsons_ : DashMap T.jsons
    pub metadata_manager_ : KeyMetadataManager T.metadata

  unfoldable pub init : Database
  init = record {
    strings_ = DashMap.init T.strings;
    hashes_ = DashMap.init T.hashes;
    sets_ = DashMap.init T.sets;
    zsets_ = DashMap.init T.zsets;
    lists_ = DashMap.init T.lists;
    streams_ = DashMap.init T.streams;
    vectors_ = DashMap.init T.vectors;
    jsons_ = DashMap.init T.jsons;
    metadata_manager_ = Manager.init T.metadata;
  }

  abbrev pub metadata_of : Database → S → Option KeyMetadata
  metadata_of db key = Manager.find T.metadata db.metadata_manager_ key

  -- `metadata_manager_.RegisterKey` and `UnregisterKey`
  abbrev pub register : S → KeyType → Database → Database
  register key type db = record db {
    metadata_manager_ = Manager.register_key T.metadata key type db.metadata_manager_;
  }

  abbrev pub unregister : S → Database → Database
  unregister key db = record db {
    metadata_manager_ = Manager.unregister_key T.metadata key db.metadata_manager_;
  }

  unfoldable pub exists : ℤ → S → Database → Bool × Database
  exists now key db =
      let (valid, manager) = Manager.is_valid T.metadata now key db.metadata_manager_ in
      (valid, record db { metadata_manager_ = manager })

  -- The guard at the head of the readers, `if (!metadata_manager_.IsValid(key)) return missing;`
  abbrev pub if_valid {ℓ} :
      {R : Type ℓ} → ℤ → S → R → Database → (Database → R × Database) → R × Database
  if_valid now key missing db act =
      let (valid, db') = exists now key db in if valid then act db' else (missing, db')

  unfoldable pub get_key_version : Database → S → ℕ
  get_key_version db key = Manager.get_key_version T.metadata db.metadata_manager_ key

  unfoldable pub get_type : ℤ → S → Database → Option KeyType × Database
  get_type now key db =
      let (type, manager) = Manager.get_key_type T.metadata now key db.metadata_manager_ in
      (type, record db { metadata_manager_ = manager })

  unfoldable pub set_expire_ms : S → ℤ → Database → Bool × Database
  set_expire_ms key ms db =
      let (done, manager) = Manager.set_expire_ms T.metadata key ms db.metadata_manager_ in
      (done, record db { metadata_manager_ = manager })

  unfoldable pub persist : S → Database → Bool × Database
  persist key db =
      let (done, manager) = Manager.persist T.metadata key db.metadata_manager_ in
      (done, record db { metadata_manager_ = manager })

  unfoldable pub get_ttl_ms : ℤ → Database → S → ℤ
  get_ttl_ms now db key = Manager.get_ttl_ms T.metadata now db.metadata_manager_ key

  unfoldable pub get_all_keys : Database → List S
  get_all_keys db = Manager.get_all_keys T.metadata db.metadata_manager_

  unfoldable pub db_size : Database → ℕ
  db_size db = Manager.size T.metadata db.metadata_manager_

  unfoldable pub size : Database → ℕ
  size db = DashMap.size T.strings db.strings_

  unfoldable pub get_key_count : Database → ℕ
  get_key_count db =
      DashMap.size T.strings db.strings_
      + DashMap.size T.hashes db.hashes_
      + DashMap.size T.lists db.lists_
      + DashMap.size T.sets db.sets_
      + DashMap.size T.zsets db.zsets_
      + DashMap.size T.streams db.streams_

  unfoldable pub clear : Database → Database
  clear db = record db {
    strings_ = DashMap.clear T.strings db.strings_;
    hashes_ = DashMap.clear T.hashes db.hashes_;
    sets_ = DashMap.clear T.sets db.sets_;
    zsets_ = DashMap.clear T.zsets db.zsets_;
    lists_ = DashMap.clear T.lists db.lists_;
    metadata_manager_ = Manager.clear T.metadata db.metadata_manager_;
  }

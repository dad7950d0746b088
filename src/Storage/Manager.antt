-- ===== src/Storage/Manager.antt =====
-- The class `KeyMetadataManager` of src/astra/storage/key_metadata.hpp: the metadata of every key
-- of a database, in a `DashMap`. The clock is an argument, `now`, the value that
-- `GetCurrentTimeMs` returns during the call. Keys are used through their equality alone.
-- `GetExpiredKeys` and `DecayLFUCounters`, which do nothing in the source, are left out.
pub mod Reads
pub mod Expiry
pub mod Version
pub mod Access
use astra_db.Prelude.{
  ℕ, ◌+◌, ◌%◌, ◌^◌, Bool, true, false, Option, none, some, is_some, List, map, foldl, Eq,
  if◌then◌else◌,
}
use astra_db.Prelude.Int.{ℤ, pos, negsuc, is_neg, ◌+ℤ◌, scale, quotient}
use astra_db.Abseil.{FlatHashMap}
use astra_db.Container.DashMap
use astra_db.Container.DashMap.{DashMap}
use astra_db.Storage.Metadata
use astra_db.Storage.Metadata.{KeyType, KeyMetadata, of_type}

module _ {K : Type 0} ⦃e : Eq K⦄ (H : FlatHashMap K KeyMetadata) where
  pub record KeyMetadataManager : Type 0 where
    pub metadata_map_ : DashMap H
    pub next_scan_time_ : ℤ

  abbrev pub find : KeyMetadataManager → K → Option KeyMetadata
  find m key = DashMap.get H m.metadata_map_ key

  abbrev pub store : K → KeyMetadata → KeyMetadataManager → KeyMetadataManager
  store key metadata m = record m {
    metadata_map_ = (DashMap.insert H key metadata m.metadata_map_).0;
  }

  abbrev pub drop : K → KeyMetadataManager → KeyMetadataManager
  drop key m = record m { metadata_map_ = (DashMap.remove H key m.metadata_map_).0 }

  unfoldable pub init : KeyMetadataManager
  init = record { metadata_map_ = DashMap.init H; next_scan_time_ = pos 0 }

  -- `uint64_t` versions wrap.
  unfoldable pub register_key : K → KeyType → KeyMetadataManager → KeyMetadataManager
  register_key key type m =
      let new_version : ℕ = elim (find m key) [
        | none ↦ 1
        | some existing ↦ (existing.version + 1) % 2 ^ 64
      ] in
      store key (record (of_type type) { version = new_version }) m

  unfoldable pub unregister_key : K → KeyMetadataManager → KeyMetadataManager
  unregister_key key m = drop key m

  -- A key that has expired is dropped by the read that finds it.
  unfoldable pub is_valid : ℤ → K → KeyMetadataManager → Bool × KeyMetadataManager
  is_valid now key m = elim (find m key) [
    | none ↦ (false, m)
    | some metadata ↦ if Metadata.is_expired now metadata then (false, drop key m) else (true, m)
  ]

  unfoldable pub get_key_type : ℤ → K → KeyMetadataManager → Option KeyType × KeyMetadataManager
  get_key_type now key m = elim (find m key) [
    | none ↦ (none, m)
    | some metadata ↦
        if Metadata.is_expired now metadata then (none, drop key m) else (some metadata.type, m)
  ]

  -- The setters that read a key's metadata, change it, and write it back.
  abbrev pub update :
      K → (KeyMetadata → KeyMetadata) → KeyMetadataManager → Bool × KeyMetadataManager
  update key change m = elim (find m key) [
    | none ↦ (false, m)
    | some metadata ↦ (true, store key (change metadata) m)
  ]

  unfoldable pub set_expire_ms : K → ℤ → KeyMetadataManager → Bool × KeyMetadataManager
  set_expire_ms key expire_time_ms m = update key (Metadata.set_expire_ms expire_time_ms) m

  unfoldable pub set_expire_seconds : ℤ → K → ℤ → KeyMetadataManager → Bool × KeyMetadataManager
  unfolding set_expire_ms
  set_expire_seconds now key seconds m = set_expire_ms key (now +ℤ scale 1000 seconds) m

  unfoldable pub get_ttl_ms : ℤ → KeyMetadataManager → K → ℤ
  get_ttl_ms now m key = elim (find m key) [
    | none ↦ negsuc 1
    | some metadata ↦
        if Metadata.is_expired now metadata then negsuc 1 else elim metadata.expire_time_ms [
          | none ↦ negsuc 0
          | some _ ↦ elim (Metadata.get_ttl_ms now metadata) [ none ↦ negsuc 0 | some ms ↦ ms ]
        ]
  ]

  unfoldable pub get_ttl_seconds : ℤ → KeyMetadataManager → K → ℤ
  unfolding get_ttl_ms
  get_ttl_seconds now m key =
      let ttl_ms = get_ttl_ms now m key in if is_neg ttl_ms then ttl_ms else quotient ttl_ms 1000

  unfoldable pub get_expire_time_ms : ℤ → KeyMetadataManager → K → Option ℤ
  get_expire_time_ms now m key = elim (find m key) [
    | none ↦ none
    | some metadata ↦ if Metadata.is_expired now metadata then none else metadata.expire_time_ms
  ]

  unfoldable pub persist : K → KeyMetadataManager → Bool × KeyMetadataManager
  persist key m = update key (λ metadata. record metadata { expire_time_ms = none }) m

  unfoldable pub size : KeyMetadataManager → ℕ
  size m = DashMap.size H m.metadata_map_

  unfoldable pub get_all_keys : KeyMetadataManager → List K
  get_all_keys m = DashMap.get_all_keys H m.metadata_map_

  unfoldable pub get_key_version : KeyMetadataManager → K → ℕ
  get_key_version m key = elim (find m key) [ none ↦ 0 | some metadata ↦ metadata.version ]

  unfoldable pub increment_key_version : K → KeyMetadataManager → KeyMetadataManager
  increment_key_version key m =
      (update key (λ metadata. record metadata { version = (metadata.version + 1) % 2 ^ 64 }) m).1

  unfoldable pub clear : KeyMetadataManager → KeyMetadataManager
  clear m = record m { metadata_map_ = DashMap.clear H m.metadata_map_ }

  unfoldable pub update_access_info : ℤ → K → KeyMetadataManager → Bool × KeyMetadataManager
  update_access_info now key m = update key (Metadata.update_access now) m

  unfoldable pub get_access_time : KeyMetadataManager → K → ℕ
  get_access_time m key = elim (find m key) [ none ↦ 0 | some metadata ↦ metadata.access_time_ms ]

  unfoldable pub get_lfu_counter : KeyMetadataManager → K → ℕ
  get_lfu_counter m key = elim (find m key) [ none ↦ 0 | some metadata ↦ metadata.lfu_counter ]

  unfoldable pub update_estimated_size : K → ℕ → KeyMetadataManager → Bool × KeyMetadataManager
  update_estimated_size key size m = update key (Metadata.set_estimated_size size) m

  unfoldable pub add_estimated_size : K → ℤ → KeyMetadataManager → Bool × KeyMetadataManager
  add_estimated_size key delta m = update key (Metadata.add_estimated_size delta) m

  unfoldable pub get_estimated_size : KeyMetadataManager → K → ℕ
  get_estimated_size m key = elim (find m key) [
    | none ↦ 0
    | some metadata ↦ metadata.estimated_size
  ]

  unfoldable pub get_total_estimated_memory : KeyMetadataManager → ℕ
  get_total_estimated_memory m =
      foldl (λ total p. (total + p.1.estimated_size) % 2 ^ 64) 0
        (DashMap.get_all_key_value_pairs H m.metadata_map_)

  unfoldable pub has_ttl : KeyMetadataManager → K → Bool
  has_ttl m key = elim (find m key) [
    | none ↦ false
    | some metadata ↦ is_some metadata.expire_time_ms
  ]

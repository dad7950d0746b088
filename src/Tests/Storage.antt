-- ===== src/Tests/Storage.antt =====
-- Runs of the key metadata.
use astra_db.Prelude.{
  ℕ, ◌+◌, ◌%◌, ◌^◌, ◌<◌, ◌≡◌, ◌↔◌, refl, false, not, none, some, is_some, List, [], ◌∷◌, length,
  foldl, nat_eq, nat_eqb, ltb, if◌then◌else◌, arith,
}
use astra_db.Prelude.Int.{pos, negsuc, ◌-ℤ◌}
use astra_db.Abseil.{FlatHashMap, lookup, lookup-nil}
use astra_db.Abseil.Model.{model}
use astra_db.Storage.Metadata
use astra_db.Storage.Metadata.{KeyType, KeyMetadata, of_type}
use astra_db.Storage.Manager
use astra_db.Storage.Manager.{KeyMetadataManager, find}
use astra_db.Storage.Manager.Reads.{Call, call}
use astra_db.Container.DashMap
use astra_db.Storage.Manager.Version
use astra_db.Storage.Manager.Version.{version_of, writes, Keeps, version_counts}
use astra_db.Storage.Manager.Expiry.{ttl_after_set, reads_agree}
use astra_db.Storage.Manager.Access.{accesses, counter_wraps}

abbrev table : FlatHashMap ℕ KeyMetadata
table = model ℕ KeyMetadata

-- A string under the key 1, about to expire at 500, with 255 accesses counted.
abbrev metadata : KeyMetadata
metadata = record (of_type KeyType.string) {
  expire_time_ms = some (pos 500);
  version = 4;
  lfu_counter = 255;
}

abbrev manager : KeyMetadataManager table
manager = record {
  metadata_map_ = record {
    map_ = record { rows = (1, metadata) ∷ []; distinct = (lookup-nil 1, tt) };
    size_ = 1;
  };
  next_scan_time_ = pos 0;
}

there : find table manager 1 ≡ some metadata
unfolding DashMap.get lookup
there = refl

abbrev calls : List (Call ℕ)
calls =
    Call.register_key 1 KeyType.hash
    ∷ Call.set_expire_ms 1 (pos 900)
    ∷ Call.increment_key_version 1
    ∷ Call.unregister_key 2
    ∷ []

version_there : version_of (find table manager 1) ≡ some 4
unfolding DashMap.get lookup
version_there = refl

kept : Keeps 1 calls
unfolding Version.may_drop
kept = (refl, (refl, (refl, (refl, tt))))

few : writes 1 calls < 2 ^ 64
unfolding writes
few = omega arith

version_counts_example :
    (Manager.get_key_version table (foldl (call table) manager calls) 1
      ≡ (4 + writes 1 calls) % 2 ^ 64)
    × ((Manager.get_key_version table (foldl (call table) manager calls) 1 ≡ 4)
        ↔ (writes 1 calls ≡ 0))
version_counts_example = version_counts table manager calls 1 4 version_there (omega arith) kept few

-- At its expiry time the key is valid and its time to live reads as that of a key that never expires.
ttl_after_set_example :
    (Manager.get_ttl_ms table (pos 700) (Manager.set_expire_ms table 1 (pos 700) manager).1 1 ≡ (
      if ltb 700 700 then negsuc 1 else if nat_eqb 700 700 then negsuc 0 else pos 700 -ℤ pos 700))
    × ((Manager.is_valid table (pos 700) 1 (Manager.set_expire_ms table 1 (pos 700) manager).1).0
        ≡ not (ltb 700 700))
ttl_after_set_example = ttl_after_set table manager 1 700 700 there (omega arith)

reads_agree_example :
    (is_some (Manager.get_key_type table (pos 501) 1 manager).0
      ≡ (Manager.is_valid table (pos 501) 1 manager).0)
    × ((Manager.get_ttl_ms table (pos 501) manager 1 ≡ negsuc 1)
        ↔ ((Manager.is_valid table (pos 501) 1 manager).0 ≡ false))
    × (find table (Manager.is_valid table (pos 501) 1 manager).1 1 ≡ (
        if nat_eqb 1 1
        then (if (Manager.is_valid table (pos 501) 1 manager).0 then find table manager 1 else none)
        else find table manager 1))
    × (find table (Manager.get_key_type table (pos 501) 1 manager).1 1 ≡ (
        if nat_eqb 1 1
        then (if (Manager.is_valid table (pos 501) 1 manager).0 then find table manager 1 else none)
        else find table manager 1))
reads_agree_example = reads_agree table manager 1 1 (pos 501)

invalid : (Manager.is_valid table (pos 501) 1 manager).0 ≡ false
unfolding Manager.is_valid Metadata.is_expired DashMap.get lookup
invalid = refl

-- The 256th access takes the counter from 255 to 0.
counter_wraps_example :
    Manager.get_lfu_counter table (accesses table 1 (pos 600 ∷ []) manager) 1
    ≡ (255 + length (pos 600 ∷ [])) % 256
counter_wraps_example = counter_wraps table 1 (pos 600 ∷ []) manager there (omega arith)

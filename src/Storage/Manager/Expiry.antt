-- ===== src/Storage/Manager/Expiry.antt =====
-- Times to live (src/astra/storage/key_metadata.hpp).
use astra_db.Prelude.{
  ℕ, ◌<◌, ◌≡◌, ◌↔◌, false, not, none, some, is_some, Eq, ◌==◌, ltb, nat_eqb, if◌then◌else◌, arith,
}
use astra_db.Prelude.Int.{ℤ, pos, negsuc, ◌-ℤ◌, ◌≤ℤ◌}
use astra_db.Abseil.{FlatHashMap}
use astra_db.Container.DashMap.Laws.{get-insert, get-remove}
use astra_db.Storage.Metadata
use astra_db.Storage.Metadata.{KeyMetadata}
use astra_db.Storage.Manager
use astra_db.Storage.Manager.{KeyMetadataManager, find}

module _ {K : Type 0} ⦃e : Eq K⦄ (H : FlatHashMap K KeyMetadata) where
  -- A key that is there and is given the expiry time t > 0 (in ms) reads as follows at the time
  -- `now`. After t it is not valid and its time to live is -2; before t it is valid and its time
  -- to live is t - now; at t itself it is still valid, and its time to live reads -1, the answer
  -- for a key that never expires.
  pub ttl_after_set :
      (m : KeyMetadataManager H) (k : K) (t now : ℕ) {x : KeyMetadata}
      → find H m k ≡ some x
      → 0 < t
      → let m' = (Manager.set_expire_ms H k (pos t) m).1 in
        (Manager.get_ttl_ms H (pos now) m' k
          ≡ (if ltb t now then negsuc 1 else if nat_eqb t now then negsuc 0 else pos t -ℤ pos now))
        × ((Manager.is_valid H (pos now) k m').0 ≡ not (ltb t now))
  unfolding Manager.set_expire_ms Manager.get_ttl_ms Manager.is_valid Metadata.set_expire_ms
      Metadata.get_ttl_ms Metadata.is_expired
  ttl_after_set m k t now {x} there positive =
      let stored = get-insert H k (record x { expire_time_ms = some (pos t) }) m.metadata_map_ k in
      ground (arith, stored, e.beq_iff k k)

  -- The reads agree on whether a key is there at `now`: it has a type exactly when it is valid,
  -- and its time to live is -2 exactly when it is not. The reads of its validity and of its type
  -- drop the key if they find it expired, so that nothing is found under it afterwards, keep it if
  -- not, and touch no other key.
  pub reads_agree :
      (m : KeyMetadataManager H) (k j : K) (now : ℤ)
      → let valid = (Manager.is_valid H now k m).0 in
        let m' = (Manager.is_valid H now k m).1 in
        let m'' = (Manager.get_key_type H now k m).1 in
        (is_some (Manager.get_key_type H now k m).0 ≡ valid)
        × ((Manager.get_ttl_ms H now m k ≡ negsuc 1) ↔ (valid ≡ false))
        × (find H m' j ≡ (if k == j then (if valid then find H m k else none) else find H m j))
        × (find H m'' j ≡ (if k == j then (if valid then find H m k else none) else find H m j))
  unfolding Manager.get_ttl_ms Manager.is_valid Manager.get_key_type Metadata.get_ttl_ms
      Metadata.is_expired
  reads_agree m k j now = (
    ground arith,
    ground arith,
    ground (arith, get-remove H k m.metadata_map_ j, e.beq_iff k j),
    ground (arith, get-remove H k m.metadata_map_ j, e.beq_iff k j),
  )

  -- A key that is not valid at some time is not valid at any later time either, whether or not the
  -- first read dropped it.
  stays_expired :
      (m : KeyMetadataManager H) (k : K) (now later : ℤ)
      → now ≤ℤ later
      → (Manager.is_valid H now k m).0 ≡ false
      → ((Manager.is_valid H later k m).0 ≡ false)
        × ((Manager.is_valid H later k (Manager.is_valid H now k m).1).0 ≡ false)
  unfolding Manager.is_valid Metadata.is_expired
  stays_expired m k now later h invalid =
      (ground arith, ground (arith, get-remove H k m.metadata_map_ k, e.beq_iff k k))

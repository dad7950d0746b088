-- ===== src/Storage/Manager/Access.antt =====
-- Access data for eviction (src/astra/storage/key_metadata.hpp).
use astra_db.Prelude.{◌+◌, ◌%◌, ◌<◌, ◌≡◌, ◌∙◌, some, Eq, arith, List, [], ◌∷◌, length}
use astra_db.Prelude.Int.{ℤ}
use astra_db.Abseil.{FlatHashMap}
use astra_db.Container.DashMap.Laws.{get-insert}
use astra_db.Storage.Metadata
use astra_db.Storage.Metadata.{KeyMetadata}
use astra_db.Storage.Manager
use astra_db.Storage.Manager.{KeyMetadataManager, find}

module _ {K : Type 0} ⦃e : Eq K⦄ (H : FlatHashMap K KeyMetadata) (k : K) where
  -- One access of the key at each of the times.
  unfoldable pub accesses : List ℤ → KeyMetadataManager H → KeyMetadataManager H
  accesses [] m = m
  accesses (now ∷ times) m = accesses times (Manager.update_access_info H now k m).1

  access_lem :
      (now : ℤ) (m : KeyMetadataManager H) {x : KeyMetadata}
      → find H m k ≡ some x
      → find H (Manager.update_access_info H now k m).1 k ≡ some (Metadata.update_access now x)
  unfolding Manager.update_access_info
  access_lem now m {x} there =
      ground (arith, e.beq_iff k k, get-insert H k (Metadata.update_access now x) m.metadata_map_ k)

  -- The counter of a key that is there counts its accesses modulo 256: after any sequence of them
  -- it is what it was plus their number, modulo 256. It does not stop at 255.
  pub counter_wraps :
      (times : List ℤ) (m : KeyMetadataManager H) {x : KeyMetadata}
      → find H m k ≡ some x
      → x.lfu_counter < 256
      → Manager.get_lfu_counter H (accesses times m) k ≡ (x.lfu_counter + length times) % 256
  unfolding accesses
  counter_wraps [] m {x} there b = unfold Manager.get_lfu_counter in ground arith
  counter_wraps (now ∷ times) m {x} there b =
      let y = Metadata.update_access now x in
      let step : y.lfu_counter ≡ (x.lfu_counter + 1) % 256 =
        unfold Metadata.update_access in omega arith in
      let ih =
        counter_wraps times (Manager.update_access_info H now k m).1 {x = y}
          (access_lem now m there) (omega arith) in
      ih ∙ omega arith

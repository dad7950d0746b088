-- ===== src/Storage/Manager/Reads.antt =====
-- The calls of `KeyMetadataManager` (src/astra/storage/key_metadata.hpp) as data, and what each
-- does to the metadata found under a key.
use astra_db.Prelude.{
  ℕ, ◌+◌, ◌%◌, ◌^◌, ◌≡◌, Option, none, some, Eq, ◌==◌, if◌then◌else◌, arith, Option-cases, inl, inr,
}
use astra_db.Prelude.Int.{ℤ}
use astra_db.Abseil.{FlatHashMap}
use astra_db.Container.DashMap.Laws.{get-insert, get-remove, get-clear}
use astra_db.Storage.Metadata
use astra_db.Storage.Metadata.{KeyType, KeyMetadata, of_type}
use astra_db.Storage.Manager
use astra_db.Storage.Manager.{KeyMetadataManager, find, store, drop, update}

pub data Call (K : Type 0) : Type 0 where
  register_key : K → KeyType → Call K
  unregister_key : K → Call K
  is_valid get_key_type : ℤ → K → Call K
  set_expire_ms : K → ℤ → Call K
  persist increment_key_version : K → Call K
  clear : Call K
  update_access_info : ℤ → K → Call K
  update_estimated_size : K → ℕ → Call K
  add_estimated_size : K → ℤ → Call K

module _ {K : Type 0} ⦃e : Eq K⦄ (H : FlatHashMap K KeyMetadata) where
  unfoldable pub call : KeyMetadataManager H → Call K → KeyMetadataManager H
  call m (register_key k t) = Manager.register_key H k t m
  call m (unregister_key k) = Manager.unregister_key H k m
  call m (is_valid now k) = (Manager.is_valid H now k m).1
  call m (get_key_type now k) = (Manager.get_key_type H now k m).1
  call m (set_expire_ms k t) = (Manager.set_expire_ms H k t m).1
  call m (persist k) = (Manager.persist H k m).1
  call m (increment_key_version k) = Manager.increment_key_version H k m
  call m clear = Manager.clear H m
  call m (update_access_info now k) = (Manager.update_access_info H now k m).1
  call m (update_estimated_size k n) = (Manager.update_estimated_size H k n m).1
  call m (add_estimated_size k d) = (Manager.add_estimated_size H k d m).1

-- What a read at `now` leaves of the metadata of its key.
abbrev pub fresh : ℤ → KeyMetadata → Option KeyMetadata
fresh now x = if Metadata.is_expired now x then none else some x

abbrev pub change : Option KeyMetadata → (KeyMetadata → KeyMetadata) → Option KeyMetadata
change none f = none
change (some x) f = some (f x)

abbrev pub registered : KeyType → Option KeyMetadata → KeyMetadata
registered t none = record (of_type t) { version = 1 }
registered t (some x) = record (of_type t) { version = (x.version + 1) % 2 ^ 64 }

module _ {K : Type 0} ⦃e : Eq K⦄ where
  -- The metadata under `j` after a call, from what was there before.
  unfoldable pub after : K → Option KeyMetadata → Call K → Option KeyMetadata
  after j o (register_key k t) = if k == j then some (registered t o) else o
  after j o (unregister_key k) = if k == j then none else o
  after j o (is_valid now k) = if k == j then elim o [ none ↦ none | some x ↦ fresh now x ] else o
  after j o (get_key_type now k) =
      if k == j then elim o [ none ↦ none | some x ↦ fresh now x ] else o
  after j o (set_expire_ms k t) = if k == j then change o (Metadata.set_expire_ms t) else o
  after j o (persist k) = if k == j then change o (λ x. record x { expire_time_ms = none }) else o
  after j o (increment_key_version k) =
      if k == j then change o (λ x. record x { version = (x.version + 1) % 2 ^ 64 }) else o
  after j o clear = none
  after j o (update_access_info now k) = if k == j then change o (Metadata.update_access now) else o
  after j o (update_estimated_size k n) =
      if k == j then change o (Metadata.set_estimated_size n) else o
  after j o (add_estimated_size k d) =
      if k == j then change o (Metadata.add_estimated_size d) else o

module _ {K : Type 0} ⦃e : Eq K⦄ (H : FlatHashMap K KeyMetadata) where
  find-update :
      (k j : K) (f : KeyMetadata → KeyMetadata) (m : KeyMetadataManager H)
      → find H (update H k f m).1 j ≡ (if k == j then change (find H m j) f else find H m j)
  find-update k j f m = elim (Option-cases (find H m k)) [
    | inl none_k ↦ ground (arith, e.beq_iff k j)
    | inr (x, some_k) ↦ ground (arith, e.beq_iff k j, get-insert H k (f x) m.metadata_map_ j)
  ]

  find-register :
      (k j : K) (t : KeyType) (m : KeyMetadataManager H)
      → find H (Manager.register_key H k t m) j
        ≡ (if k == j then some (registered t (find H m j)) else find H m j)
  unfolding Manager.register_key
  find-register k j t m = elim (Option-cases (find H m k)) [
    | inl none_k ↦
        ground (arith, e.beq_iff k j, get-insert H k (registered t none) m.metadata_map_ j)
    | inr (x, some_k) ↦
        ground (arith, e.beq_iff k j, get-insert H k (registered t (some x)) m.metadata_map_ j)
  ]

  find-is_valid :
      (k j : K) (now : ℤ) (m : KeyMetadataManager H)
      → find H (Manager.is_valid H now k m).1 j
        ≡ (if k == j then elim (find H m j) [ none ↦ none | some x ↦ fresh now x ] else find H m j)
  unfolding Manager.is_valid
  find-is_valid k j now m = ground (arith, e.beq_iff k j, get-remove H k m.metadata_map_ j)

  find-get_key_type :
      (k j : K) (now : ℤ) (m : KeyMetadataManager H)
      → find H (Manager.get_key_type H now k m).1 j
        ≡ (if k == j then elim (find H m j) [ none ↦ none | some x ↦ fresh now x ] else find H m j)
  unfolding Manager.get_key_type
  find-get_key_type k j now m = ground (arith, e.beq_iff k j, get-remove H k m.metadata_map_ j)

  -- A call changes the metadata of its own key alone, and in the way that `after` says.
  pub find-call :
      (m : KeyMetadataManager H) (c : Call K) (j : K)
      → find H (call H m c) j ≡ after j (find H m j) c
  unfolding call after
  find-call m (register_key k t) j = find-register k j t m
  find-call m (unregister_key k) j =
      unfold Manager.unregister_key in get-remove H k m.metadata_map_ j
  find-call m (is_valid now k) j = find-is_valid k j now m
  find-call m (get_key_type now k) j = find-get_key_type k j now m
  find-call m (set_expire_ms k t) j =
      unfold Manager.set_expire_ms in find-update k j (Metadata.set_expire_ms t) m
  find-call m (persist k) j = unfold Manager.persist in find-update k j _ m
  find-call m (increment_key_version k) j =
      unfold Manager.increment_key_version in find-update k j _ m
  find-call m clear j = unfold Manager.clear in get-clear H m.metadata_map_ j
  find-call m (update_access_info now k) j =
      unfold Manager.update_access_info in find-update k j _ m
  find-call m (update_estimated_size k n) j =
      unfold Manager.update_estimated_size in find-update k j _ m
  find-call m (add_estimated_size k d) j = unfold Manager.add_estimated_size in find-update k j _ m

-- ===== src/Storage/Manager/Version.antt =====
-- Versions, on which WATCH rests (src/astra/storage/key_metadata.hpp).
use astra_db.Prelude.{
  ℕ, ◌+◌, ◌%◌, ◌^◌, ◌<◌, ◌≡◌, ◌↔◌, refl, ap, ◌∙◌, Bool, true, false, Option, none, some, List, [],
  ◌∷◌, foldl, Eq, ◌==◌, if◌then◌else◌, arith,
}
use astra_db.Abseil.{FlatHashMap}
use astra_db.Storage.Metadata
use astra_db.Storage.Metadata.{KeyType, KeyMetadata}
use astra_db.Storage.Manager
use astra_db.Storage.Manager.{KeyMetadataManager, find}
use astra_db.Storage.Manager.Reads.{
  Call, register_key, unregister_key, is_valid, get_key_type, set_expire_ms, increment_key_version,
  clear, update_access_info, update_estimated_size, add_estimated_size, call, after, find-call,
}

module _ {K : Type 0} ⦃e : Eq K⦄ where
  -- How often a sequence of calls writes to `j`.
  unfoldable pub writes : K → List (Call K) → ℕ
  writes j [] = 0
  writes j (register_key k t ∷ calls) = (if k == j then 1 else 0) + writes j calls
  writes j (increment_key_version k ∷ calls) = (if k == j then 1 else 0) + writes j calls
  writes j (c ∷ calls) = writes j calls

  -- The calls that may drop `j`: its removal, and a read, which drops a key that has expired.
  unfoldable pub may_drop : K → Call K → Bool
  may_drop j (unregister_key k) = k == j
  may_drop j (is_valid now k) = k == j
  may_drop j (get_key_type now k) = k == j
  may_drop j clear = true
  may_drop j c = false

  abbrev pub Keeps : K → List (Call K) → Type 0
  Keeps j [] = Unit {0}
  Keeps j (c ∷ calls) = (may_drop j c ≡ false) × Keeps j calls

abbrev pub version_of : Option KeyMetadata → Option ℕ
version_of none = none
version_of (some x) = some x.version

module _ {K : Type 0} ⦃e : Eq K⦄ (j : K) where
  -- How often one call writes to `j`.
  abbrev write : Call K → ℕ
  write c = writes j (c ∷ [])

  -- One call adds its writes to the version.
  version-after :
      (c : Call K) (x : KeyMetadata)
      → may_drop j c ≡ false
      → x.version < 2 ^ 64
      → version_of (after j (some x) c) ≡ some ((x.version + write c) % 2 ^ 64)
  unfolding after may_drop writes
  version-after (register_key k t) x h b = ground arith
  version-after (set_expire_ms k t) x h b = unfold Metadata.set_expire_ms in ground arith
  version-after (update_access_info now k) x h b = unfold Metadata.update_access in ground arith
  version-after (update_estimated_size k n) x h b =
      unfold Metadata.set_estimated_size in ground arith
  version-after (add_estimated_size k d) x h b = unfold Metadata.add_estimated_size in ground arith
  version-after c x h b = ground arith

  writes-cons :
      (c : Call K) (calls : List (Call K)) → writes j (c ∷ calls) ≡ write c + writes j calls
  unfolding writes
  writes-cons (register_key k t) calls = omega arith
  writes-cons c calls = omega arith

  version-run :
      (calls : List (Call K)) (o : Option KeyMetadata) (v : ℕ)
      → version_of o ≡ some v
      → v < 2 ^ 64
      → Keeps j calls
      → version_of (foldl (after j) o calls) ≡ some ((v + writes j calls) % 2 ^ 64)
  unfolding writes
  version-run [] o v h b keeps = h ∙ ap some (omega arith)
  version-run (c ∷ calls) none v h b keeps = cc
  version-run (c ∷ calls) (some x) v h b keeps =
      let w = (v + write c) % 2 ^ 64 in
      let step : version_of (after j (some x) c) ≡ some w = ground (arith, version-after c x) in
      let ih = version-run calls (after j (some x) c) w step (omega arith) keeps.1 in
      ih ∙ ap some (omega (arith, writes-cons c calls))

module _ {K : Type 0} ⦃e : Eq K⦄ (H : FlatHashMap K KeyMetadata) where
  pub find-run :
      (calls : List (Call K)) (m : KeyMetadataManager H) (j : K)
      → find H (foldl (call H) m calls) j ≡ foldl (after j) (find H m j) calls
  find-run [] m j = refl
  find-run (c ∷ calls) m j = rw (← find-call H m c j) (find-run calls (call H m c) j)

  get_key_version_lem :
      (m : KeyMetadataManager H) (j : K) {v : ℕ}
      → version_of (find H m j) ≡ some v
      → Manager.get_key_version H m j ≡ v
  unfolding Manager.get_key_version
  get_key_version_lem m j h = ground arith

  -- For a key that is there with version v, and over any calls that cannot drop it, with fewer
  -- than 2^64 writes among them: the version is v plus the number of the key's own registrations
  -- and increments, modulo 2^64, and so it reads v again exactly when there was no such write.
  -- Calls for other keys, and those that set a time to live, sizes or access data, do not count.
  pub version_counts :
      (m : KeyMetadataManager H) (calls : List (Call K)) (j : K) (v : ℕ)
      → version_of (find H m j) ≡ some v
      → v < 2 ^ 64
      → Keeps j calls
      → writes j calls < 2 ^ 64
      → (Manager.get_key_version H (foldl (call H) m calls) j ≡ (v + writes j calls) % 2 ^ 64)
        × ((Manager.get_key_version H (foldl (call H) m calls) j ≡ v) ↔ (writes j calls ≡ 0))
  version_counts m calls j v h b keeps few =
      let ran = ap version_of (find-run calls m j) ∙ version-run j calls (find H m j) v h b keeps in
      let e = get_key_version_lem (foldl (call H) m calls) j ran in
      (e, (λ p. omega arith, λ p. omega arith))

  -- Whatever the version of a key was, to unregister the key and to register it again gives it the
  -- version 1: a key at version 1 that is deleted and created again has the version that it had.
  recreated :
      (m : KeyMetadataManager H) (j : K) (t : KeyType)
      → Manager.get_key_version H (Manager.register_key H j t (Manager.unregister_key H j m)) j ≡ 1
  unfolding call
  recreated m j t =
      let gone : find H (Manager.unregister_key H j m) j ≡ none =
        find-call H m (unregister_key j) j ∙ after_unregister (find H m j) in
      get_key_version_lem (Manager.register_key H j t (Manager.unregister_key H j m)) j (
        ap version_of (find-call H (Manager.unregister_key H j m) (register_key j t) j)
        ∙ ap (λ o. version_of (after j o (register_key j t))) gone
        ∙ after_register)
    where
      after_unregister : (o : Option KeyMetadata) → after j o (unregister_key j) ≡ none
      after_unregister o = unfold after in ground (arith, e.beq_iff j j)

      after_register : version_of (after j none (register_key j t)) ≡ some 1
      after_register = unfold after in ground (arith, e.beq_iff j j)

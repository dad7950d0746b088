-- ===== src/Commands/Database/Sets/Visible.antt =====
-- The set that a guarded read of src/astra/commands/database.hpp sees under a key: none where the key
-- has no metadata, or has expired. A read of any key leaves what is seen as it was.
use astra_db.Prelude.{
  ◌≡◌, refl, inl, inr, Option, none, some, Eq, ◌==◌, if◌then◌else◌, arith, Option-cases,
}
use astra_db.Prelude.Int.{ℤ}
use astra_db.Storage.Metadata
use astra_db.Storage.Metadata.{KeyMetadata}
use astra_db.Storage.Manager
use astra_db.Storage.Manager.Reads
use astra_db.Storage.Manager.Reads.{fresh, find-call}
use astra_db.Commands.Database.{Tables, Database, metadata_of, exists}
use astra_db.Commands.Database.Sets.{SetType, get_set, on_set}

module _ {S : Type 0} ⦃e : Eq S⦄ (T : Tables S) (now : ℤ) where
  unfoldable pub visible : Database T → S → Option (SetType T)
  visible db key = elim (metadata_of T db key) [
    | none ↦ none
    | some d ↦ if Metadata.is_expired now d then none else get_set T db key
  ]

  exists_flag :
      (db : Database T) (k : S)
      → visible db k ≡ (if (exists T now k db).0 then get_set T db k else none)
  unfolding visible exists Manager.is_valid
  exists_flag db k = ground arith

  get_set-exists : (db : Database T) (k j : S) → get_set T (exists T now k db).1 j ≡ get_set T db j
  unfolding exists
  get_set-exists db k j = refl

  metadata-exists :
      (db : Database T) (k j : S)
      → metadata_of T (exists T now k db).1 j ≡ (
          if k == j
          then elim (metadata_of T db j) [ none ↦ none | some x ↦ fresh now x ]
          else metadata_of T db j)
  unfolding exists
  metadata-exists db k j =
      unfold Reads.call Reads.after in
      find-call T.metadata db.metadata_manager_ (Reads.is_valid now k) j

  pub visible-exists : (db : Database T) (k j : S) → visible (exists T now k db).1 j ≡ visible db j
  unfolding visible
  visible-exists db k j = elim (Option-cases (metadata_of T db j)) [
    | inl unknown ↦ ground (arith, metadata-exists db k j)
    | inr (d, known) ↦ ground (arith, metadata-exists db k j, get_set-exists db k j)
  ]

  -- A guarded operation sees the visible set.
  pub on_set-visible {ℓ} :
      {R : Type ℓ} (k : S) (missing : R) (db : Database T)
      (act : SetType T → Database T → R × Database T)
      → on_set T now k missing db act ≡ elim (visible db k) [
        | none ↦ (missing, (exists T now k db).1)
        | some set ↦ act set (exists T now k db).1
      ]
  on_set-visible k missing db act = ground (arith, exists_flag db k, get_set-exists db k k)

-- ===== src/Container/DashMap/Laws.antt =====
-- What a client of `DashMap` (src/astra/container/dash_map.hpp) relies on: lookups after writes,
-- and a count that never drifts from the table.
use astra_db.Prelude.{
  ◌+◌, ◌≡◌, refl, sym, ◌∙◌, not, Option, none, some, List, [], ◌∷◌, length, Eq, ◌==◌, if◌then◌else◌,
  arith, foldl,
}
use astra_db.Abseil.{FlatHashMap}
use astra_db.Container.DashMap
use astra_db.Container.DashMap.{DashMap}

-- The calls that change a map, and what each does to what a client sees under the key `j`.
pub data Call (K V : Type 0) : Type 0 where
  insert : K → V → Call K V
  remove : K → Call K V
  clear : Call K V

unfoldable pub spec : {K V : Type 0} ⦃e : Eq K⦄ → K → Option V → Call K V → Option V
spec j o (insert k v) = if k == j then some v else o
spec j o (remove k) = if k == j then none else o
spec j o clear = none

module _ {K V : Type 0} ⦃e : Eq K⦄ (H : FlatHashMap K V) where
  -- The count is the number of entries of the table.
  pub record IsCounted (d : DashMap H) : Type 0 where
    pub counted : d.size_ ≡ H.size d.map_

  unfoldable pub call : DashMap H → Call K V → DashMap H
  call d (insert k v) = (DashMap.insert H k v d).0
  call d (remove k) = (DashMap.remove H k d).0
  call d clear = DashMap.clear H d

  pub call-IsCounted : (d : DashMap H) (c : Call K V) → IsCounted d → IsCounted (call d c)
  unfolding call DashMap.insert DashMap.remove DashMap.clear
  call-IsCounted d (insert k v) h = record { counted = ground (arith, H.size-insert k v d.map_) }
  call-IsCounted d (remove k) h = record { counted = ground (arith, H.size-erase k d.map_) }
  call-IsCounted d clear h = record { counted = sym H.size-empty }

  pub get-insert :
      (k : K) (v : V) (d : DashMap H) (j : K)
      → DashMap.get H (DashMap.insert H k v d).0 j ≡ (if k == j then some v else DashMap.get H d j)
  unfolding DashMap.insert DashMap.get
  get-insert k v d j = H.find-insert k v d.map_ j

  pub get-remove :
      (k : K) (d : DashMap H) (j : K)
      → DashMap.get H (DashMap.remove H k d).0 j ≡ (if k == j then none else DashMap.get H d j)
  unfolding DashMap.remove DashMap.get
  get-remove k d j = H.find-erase k d.map_ j

  pub get-clear : (d : DashMap H) (j : K) → DashMap.get H (DashMap.clear H d) j ≡ none
  unfolding DashMap.clear DashMap.get
  get-clear d j = H.find-empty j

  pub get-call :
      (d : DashMap H) (c : Call K V) (j : K)
      → DashMap.get H (call d c) j ≡ spec j (DashMap.get H d j) c
  unfolding call spec DashMap.insert DashMap.remove DashMap.clear DashMap.get
  get-call d (insert k v) j = H.find-insert k v d.map_ j
  get-call d (remove k) j = H.find-erase k d.map_ j
  get-call d clear j = H.find-empty j

  run-refines :
      (calls : List (Call K V)) (d : DashMap H)
      → IsCounted d
      → (DashMap.size H (foldl call d calls)
          ≡ length (DashMap.get_all_key_value_pairs H (foldl call d calls)))
        × ((j : K)
            → DashMap.get H (foldl call d calls) j ≡ foldl (spec j) (DashMap.get H d j) calls)
  unfolding DashMap.size DashMap.get_all_key_value_pairs
  run-refines [] d h = (h.counted ∙ sym (H.length-entries d.map_), λ j. refl)
  run-refines (c ∷ calls) d h =
      let ih = run-refines calls (call d c) (call-IsCounted d c h) in
      (ih.0, λ j. rw (← get-call d c j) (ih.1 j))

  -- After any sequence of calls on a new map, `Size` is the number of entries that an iteration
  -- visits, and `Get` finds under each key what the calls in their order left there.
  pub history :
      (calls : List (Call K V))
      → (DashMap.size H (foldl call (DashMap.init H) calls)
          ≡ length (DashMap.get_all_key_value_pairs H (foldl call (DashMap.init H) calls)))
        × ((j : K)
            → DashMap.get H (foldl call (DashMap.init H) calls) j ≡ foldl (spec j) none calls)
  unfolding DashMap.init DashMap.get
  history calls =
      let h = run-refines calls (DashMap.init H) (record { counted = sym H.size-empty }) in
      (h.0, λ j. rw (← H.find-empty j) (h.1 j))

  -- What the flags of `Insert` and `Remove` say: `Insert` reports that the key was new, `Remove`
  -- that it was there, and each changes the count by exactly that.
  flags :
      (d : DashMap H) (k : K) (v : V)
      → IsCounted d
      → ((DashMap.insert H k v d).1 ≡ not (DashMap.contains H d k))
        × ((DashMap.remove H k d).1 ≡ DashMap.contains H d k)
        × (DashMap.size H (DashMap.insert H k v d).0
            ≡ DashMap.size H d + (if DashMap.contains H d k then 0 else 1))
        × (DashMap.size H (DashMap.remove H k d).0 + (if DashMap.contains H d k then 1 else 0)
            ≡ DashMap.size H d)
  unfolding DashMap.insert DashMap.remove DashMap.contains DashMap.size
  flags d k v h = (refl, refl, ground arith, ground (arith, H.size-erase k d.map_, h.counted))

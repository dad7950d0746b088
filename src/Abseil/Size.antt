-- ===== src/Abseil/Size.antt =====
-- Sizes and iteration of a table, from the interface's laws.
use astra_db.Prelude.{◌<◌, ◌≡◌, ◌∙◌, some, List, [], ◌∷◌, length, Eq, arith}
use astra_db.Abseil.Assoc.{lookup}
use astra_db.Abseil.{FlatHashMap}

module _ {K V : Type 0} ⦃e : Eq K⦄ (H : FlatHashMap K V) where
  length_pos : (k : K) (l : List (K × V)) {v : V} → lookup k l ≡ some v → 0 < length l
  unfolding lookup
  length_pos k [] h = cc
  length_pos k (p ∷ l) h = omega arith

  -- A table that holds a key is not empty, and so is one into which a key was written.
  pub size_pos : (t : H.Table) (k : K) {v : V} → H.find t k ≡ some v → 0 < H.size t
  size_pos t k h =
      omega (arith, length_pos k (H.entries t) (H.lookup-entries t k ∙ h), H.length-entries t)

  pub size-insert_pos : (k : K) (v : V) (t : H.Table) → 0 < H.size (H.insert_or_assign k v t)
  size-insert_pos k v t =
      let t' = H.insert_or_assign k v t in
      size_pos t' k {v = v} (ground (arith, H.find-insert k v t k, e.beq_iff k k))

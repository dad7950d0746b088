-- ===== src/Cluster/Shards/Loop.antt =====
-- The loop of `Init` (src/astra/cluster/shard_manager.hpp) from any shard on.
use astra_db.Prelude.{
  ℕ, zero, suc, ◌+◌, ◌-◌, ◌%◌, ◌^◌, ◌≤◌, ◌<◌, ◌≡◌, inl, inr, refl, ap, ◌∙◌, some, List, [], ◌∷◌,
  get_elem?, Eq, nat_eq, nat_eqb, nat_eqb_iff, ltb, leb, if◌then◌else◌, arith, Bool-cases,
}
use astra_db.Abseil.{FlatHashMap}
use astra_db.Cluster.Slots.{hash_slot_count}
use astra_db.Cluster.Shards.{State, ShardConfig, assign, init_loop}
use astra_db.Cluster.Shards.Bounds.{bound, bound_mono}

module _ {N : Type 0} ⦃e : Eq N⦄ (no_node : N) (H : FlatHashMap ℕ ℕ) where
  find-assign :
      (count slot shard : ℕ) (table : H.Table) (s : ℕ)
      → slot + count ≤ hash_slot_count
      → H.find (assign no_node H count slot shard table) s ≡ (
          if leb slot s
          then (if ltb s (slot + count) then some shard else H.find table s)
          else H.find table s)
  unfolding assign
  find-assign zero slot shard table s h = ground arith
  find-assign (suc count) slot shard table s h =
      let e : (slot + 1) % 2 ^ 16 ≡ slot + 1 = omega arith in
      rw e (
        ground (
          arith,
          find-assign count (slot + 1) shard (H.insert_or_assign slot shard table) s,
          H.find-insert slot shard table s,
        ))

  module _ (self_id : N) (per rest : ℕ) (some_slots : 1 ≤ per) where
    -- The configuration of shard `j`.
    unfoldable pub config : ℕ → ShardConfig N
    config j = record {
      id = j;
      slot_start = bound per rest j;
      slot_end = bound per rest (suc j) - 1;
      primary_node = self_id;
      replicas = [];
      state = State.stable;
      migration_target = no_node;
    }

    -- The loop from shard `i` on.
    unfoldable pub loop : ℕ → ℕ → H.Table → List (ShardConfig N) × H.Table
    loop count i table = init_loop no_node H self_id per count i (rest - i) (bound per rest i) table

    loop_step :
        (count i : ℕ) (table : H.Table)
        → bound per rest (suc i) ≤ hash_slot_count
        → let size = bound per rest (suc i) - bound per rest i in
          let r = loop count (suc i) (assign no_node H size (bound per rest i) i table) in
          loop (suc count) i table ≡ (config i ∷ r.0, r.1)
    unfolding loop config init_loop
    loop_step count i table h =
        let slots = if ltb 0 (rest - i) then per + 1 else per in
        let next : bound per rest (suc i) ≡ bound per rest i + slots =
          unfold bound in ground arith in
        let last : (bound per rest i + slots - 1) % 2 ^ 16 ≡ bound per rest (suc i) - 1 =
          ground arith in
        let follows : (bound per rest (suc i) - 1 + 1) % 2 ^ 16 ≡ bound per rest (suc i) =
          ground arith in
        let size : bound per rest (suc i) - 1 + 1 - bound per rest i
            ≡ bound per rest (suc i) - bound per rest i =
          ground arith in
        let left : rest - i - 1 ≡ rest - suc i = omega arith in
        let number : i + 1 ≡ suc i = omega arith in rw (last, follows, size, left, number) refl

    pub bound_step : (i : ℕ) → bound per rest i < bound per rest (suc i)
    unfolding bound
    bound_step i = ground arith

    fits_lem :
        (count i : ℕ)
        → bound per rest (suc count + i) ≤ hash_slot_count
        → bound per rest (suc i) ≤ hash_slot_count
    fits_lem count i h = omega (arith, bound_mono per rest (suc i) (suc count + i) (omega arith))

    pub shards_lem :
        (count i k : ℕ) (table : H.Table)
        → bound per rest (count + i) ≤ hash_slot_count
        → k < count
        → get_elem? (loop count i table).0 k ≡ some (config (k + i))
    shards_lem zero i k table h lt = absurd (omega arith)
    shards_lem (suc count) i zero table h lt =
        ap (λ r. get_elem? r.0 0) (loop_step count i table (fits_lem count i h))
        ∙ ap (λ n. some (config n)) (omega arith)
    shards_lem (suc count) i (suc k) table h lt =
        let size = bound per rest (suc i) - bound per rest i in
        let shift : suc count + i ≡ count + suc i = omega arith in
        ap (λ r. get_elem? r.0 (suc k)) (loop_step count i table (fits_lem count i h))
        ∙ shards_lem count (suc i) k (assign no_node H size (bound per rest i) i table)
            (rw (← shift) h) (omega arith)
        ∙ ap (λ n. some (config n)) (omega arith)

    -- The slots in front of the loop keep their shard.
    keep_lem :
        (count i : ℕ) (table : H.Table) (s : ℕ)
        → bound per rest (count + i) ≤ hash_slot_count
        → s < bound per rest i
        → H.find (loop count i table).1 s ≡ H.find table s
    unfolding loop init_loop
    keep_lem zero i table s h lt = refl
    keep_lem (suc count) i table s h lt =
        let size = bound per rest (suc i) - bound per rest i in
        let table' = assign no_node H size (bound per rest i) i table in
        let shift : suc count + i ≡ count + suc i = omega arith in
        ap (λ r. H.find r.1 s) (loop_step count i table (fits_lem count i h))
        ∙ keep_lem count (suc i) table' s (rw (← shift) h) (omega (arith, bound_step i))
        ∙ ground
            (arith, bound_step i, fits_lem count i h, find-assign size (bound per rest i) i table s)

    -- Each slot of a shard of the loop leads to that shard.
    pub owner_lem :
        (count i : ℕ) (table : H.Table) (s j : ℕ)
        → bound per rest (count + i) ≤ hash_slot_count
        → i ≤ j
        → j < count + i
        → bound per rest j ≤ s
        → s < bound per rest (suc j)
        → H.find (loop count i table).1 s ≡ some j
    owner_lem zero i table s j h from to first last = absurd (omega arith)
    owner_lem (suc count) i table s j h from to first last =
        let size = bound per rest (suc i) - bound per rest i in
        let table' = assign no_node H size (bound per rest i) i table in
        let shift : suc count + i ≡ count + suc i = omega arith in
        let h' : bound per rest (count + suc i) ≤ hash_slot_count = rw (← shift) h in
        ap (λ r. H.find r.1 s) (loop_step count i table (fits_lem count i h))
        ∙ elim (Bool-cases (nat_eqb i j)) [
          | inl same ↦
              let e : i ≡ j = (nat_eqb_iff i j).0 same in
              let here : bound per rest i ≤ s = rw e first in
              let there : s < bound per rest (suc i) = rw e last in
              keep_lem count (suc i) table' s h' there
              ∙ ground (
                arith,
                bound_step i,
                fits_lem count i h,
                find-assign size (bound per rest i) i table s,
              )
          | inr other ↦
              owner_lem count (suc i) table' s j h' (ground arith) (omega arith) first last
        ]

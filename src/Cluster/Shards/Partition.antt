-- ===== src/Cluster/Shards/Partition.antt =====
-- `Init` of src/astra/cluster/shard_manager.hpp divides the slots among the shards.
use astra_db.Prelude.{
  ℕ, suc, ◌+◌, ◌-◌, ◌/◌, ◌%◌, ◌≤◌, ◌<◌, ◌≡◌, ◌↔◌, ◌⊎◌, refl, ap, ◌∙◌, true, false, ◌||◌, some, List,
  get_elem?, Eq, nat_eq, nat_eqb, ltb, arith,
}
use astra_db.Abseil.{FlatHashMap}
use astra_db.Cluster.Slots.{hash_slot_count}
use astra_db.Cluster.Shards.{
  ShardConfig, ShardManager, init, get_shard_for_slot, get_slot_range, get_slot_count,
}
use astra_db.Cluster.Shards.Bounds.{bound, bound_whole, locate, located_once, per_positive}
use astra_db.Cluster.Shards.Loop.{config, loop, shards_lem, owner_lem, bound_step}

module _ {N : Type 0} ⦃e : Eq N⦄ (no_node : N) (H : FlatHashMap ℕ ℕ) (c : ℕ) (self_id : N)
    (m : ShardManager no_node H) (some_shards : 1 ≤ c) (most : c ≤ hash_slot_count) where
  per : ℕ
  per = hash_slot_count / c

  rest : ℕ
  rest = hash_slot_count % c

  positive : 1 ≤ per
  unfolding per
  positive = per_positive c some_shards most

  shards : List (ShardConfig N) × H.Table
  shards = loop no_node H self_id per rest positive c 0 m.slot_to_shard_

  init_lem : init no_node H c self_id m ≡ (
    true,
    record {
      self_id_ = self_id;
      shard_count_ = c;
      shards_ = shards.0;
      slot_to_shard_ = shards.1;
      initialized_ = true;
    },
  )
  unfolding init shards per rest loop bound
  init_lem =
      let allowed : (nat_eqb c 0 || ltb hash_slot_count c) ≡ false = ground arith in
      let all : hash_slot_count % c - 0 ≡ hash_slot_count % c = omega arith in
      rw (allowed, all) refl

  fits : bound per rest (c + 0) ≤ hash_slot_count
  unfolding per rest
  fits =
      let none_left : c + 0 ≡ c = omega arith in
      rw none_left (omega (arith, bound_whole c some_shards))

  find_slot :
      (s j : ℕ)
      → j < c
      → bound per rest j ≤ s
      → s < bound per rest (suc j)
      → get_shard_for_slot no_node H (init no_node H c self_id m).1 s ≡ j
  unfolding get_shard_for_slot shards
  find_slot s j lt first last =
      ap (λ r. get_shard_for_slot no_node H r.1 s) init_lem
      ∙ rw
          (
            owner_lem no_node H self_id per rest positive c 0 m.slot_to_shard_ s j fits
                (omega arith) (omega arith) first last,
            get_shard_for_slot,
          )
          refl

  find_shard :
      (i : ℕ)
      → i < c
      → get_elem? (init no_node H c self_id m).1.shards_ i
        ≡ some (config no_node H self_id per rest positive i)
  unfolding shards
  find_shard i lt =
      ap (λ r. get_elem? r.1.shards_ i) init_lem
      ∙ shards_lem no_node H self_id per rest positive c 0 i m.slot_to_shard_ fits lt
      ∙ ap (λ n. some (config no_node H self_id per rest positive n)) (omega arith)

  range_lem :
      (i : ℕ)
      → i < c
      → get_slot_range no_node H (init no_node H c self_id m).1 i
        ≡ (bound per rest i, bound per rest (suc i) - 1)
  unfolding get_slot_range config
  range_lem i lt = rw (find_shard i lt, get_slot_range) refl

  count_lem :
      (i : ℕ)
      → i < c
      → get_slot_count no_node H (init no_node H c self_id m).1 i
        ≡ bound per rest (suc i) - 1 + 1 - bound per rest i
  unfolding get_slot_count config
  count_lem i lt = rw (find_shard i lt, get_slot_count) refl

  sizes :
      (i : ℕ)
      → (bound per rest (suc i) - 1 + 1 - bound per rest i ≡ per)
        ⊎ (bound per rest (suc i) - 1 + 1 - bound per rest i ≡ per + 1)
  unfolding bound
  sizes i = ground (arith, positive)

module _ {N : Type 0} ⦃e : Eq N⦄ (no_node : N) (H : FlatHashMap ℕ ℕ) where
  -- `Init` with 1 to 16384 shards succeeds, whatever was there before. Then every slot leads to one
  -- of the shards, it lies in the range of that shard and of no other, and the numbers of slots of
  -- the shards differ by one at most.
  pub partition :
      (c : ℕ) (self_id : N) (m : ShardManager no_node H) (s i : ℕ)
      → 1 ≤ c
      → c ≤ hash_slot_count
      → s < hash_slot_count
      → i < c
      → let (done, m') = init no_node H c self_id m in
        let j = get_shard_for_slot no_node H m' s in
        let (first, last) = get_slot_range no_node H m' i in
        (done ≡ true)
        × (j < c)
        × (((first ≤ s) × (s ≤ last)) ↔ (i ≡ j))
        × ((get_slot_count no_node H m' i ≡ hash_slot_count / c)
            ⊎ (get_slot_count no_node H m' i ≡ hash_slot_count / c + 1))
  unfolding per rest
  partition c self_id m s i some_shards most slot shard =
      let p = per no_node H c self_id m some_shards most in
      let r = rest no_node H c self_id m some_shards most in
      let (j, lt, first, last) = locate p r c s (omega (arith, bound_whole c some_shards)) in
      let at = find_slot no_node H c self_id m some_shards most s j lt first last in
      let range = range_lem no_node H c self_id m some_shards most i shard in
      let count = count_lem no_node H c self_id m some_shards most i shard in
      let done = ap (λ r. r.0) (init_lem no_node H c self_id m some_shards most) in
      rw (done, at, range, count)
        (
          refl,
          lt,
          (
            λ within. located_once p r s i j first last within.0 (
                omega (
                  arith,
                  within.1,
                  bound_step no_node H self_id p r (positive no_node H c self_id m some_shards most)
                      i,
                )),
            λ same. rw same (first, omega (arith, last)),
          ),
          sizes no_node H c self_id m some_shards most i,
        )

-- ===== src/Cluster/Shards.antt =====
-- `ShardManager` of src/astra/cluster/shard_manager.hpp. Node identifiers, which a library outside of the
-- repository defines, are a type with equality and the value `NodeId{}`. `uint16_t` slots wrap.
pub mod Bounds
pub mod Loop
pub mod Partition
pub mod Migration
use astra_db.Prelude.{
  ℕ, zero, suc, ◌+◌, ◌-◌, ◌/◌, ◌%◌, ◌^◌, Bool, true, false, ◌||◌, Option, none, some, List, [], ◌∷◌,
  ◌++◌, length, get_elem?, set, Eq, ◌==◌, nat_eq, nat_eqb, ltb, leb, if◌then◌else◌, Bytes,
}
use astra_db.Abseil.{FlatHashMap}
use astra_db.Cluster.Slots.{hash_slot_count, calculate_with_tag}

pub data State : Type 0 where
  stable migrating importing : State

pub record ShardConfig (N : Type 0) : Type 0 where
  pub id : ℕ
  pub slot_start : ℕ
  pub slot_end : ℕ
  pub primary_node : N
  pub replicas : List N
  pub state : State
  pub migration_target : N

module _ {N : Type 0} ⦃e : Eq N⦄ (no_node : N) (H : FlatHashMap ℕ ℕ) where
  pub record ShardManager : Type 0 where
    pub self_id_ : N
    pub shard_count_ : ℕ
    pub shards_ : List (ShardConfig N)
    pub slot_to_shard_ : H.Table
    pub initialized_ : Bool

  -- `for (slot = slot; count more; ++slot) slot_to_shard_[slot] = shard;`
  unfoldable pub assign : ℕ → ℕ → ℕ → H.Table → H.Table
  assign zero slot shard table = table
  assign (suc count) slot shard table =
      assign count ((slot + 1) % 2 ^ 16) shard (H.insert_or_assign slot shard table)

  -- The loop over the shards from `i` on, of which there are `count`.
  unfoldable pub init_loop : N → ℕ → ℕ → ℕ → ℕ → ℕ → H.Table → List (ShardConfig N) × H.Table
  unfolding assign
  init_loop self_id slots_per_shard zero i remaining_slots current_slot table = ([], table)
  init_loop self_id slots_per_shard (suc count) i remaining_slots current_slot table =
      let slots = if ltb 0 remaining_slots then slots_per_shard + 1 else slots_per_shard in
      let slot_end = (current_slot + slots - 1) % 2 ^ 16 in
      let config : ShardConfig N = record {
        id = i;
        slot_start = current_slot;
        slot_end = slot_end;
        primary_node = self_id;
        replicas = [];
        state = State.stable;
        migration_target = no_node;
      } in
      let (shards, table') =
        init_loop self_id slots_per_shard count (i + 1) (remaining_slots - 1)
          ((slot_end + 1) % 2 ^ 16) (assign (slot_end + 1 - current_slot) current_slot i table) in
      (config ∷ shards, table')

  unfoldable pub init : ℕ → N → ShardManager → Bool × ShardManager
  unfolding init_loop
  init shard_count self_id m =
      let (shards, table) =
        init_loop self_id (hash_slot_count / shard_count) shard_count 0
          (hash_slot_count % shard_count) 0 m.slot_to_shard_ in
      if nat_eqb shard_count 0 || ltb hash_slot_count shard_count then (false, m) else (
        true,
        record {
          self_id_ = self_id;
          shard_count_ = shard_count;
          shards_ = shards;
          slot_to_shard_ = table;
          initialized_ = true;
        },
      )

  unfoldable pub get_shard_for_slot : ShardManager → ℕ → ℕ
  get_shard_for_slot m slot = elim (H.find m.slot_to_shard_ slot) [ none ↦ 0 | some shard ↦ shard ]

  unfoldable pub get_shard_for_key : ShardManager → Bytes → ℕ
  unfolding get_shard_for_slot
  get_shard_for_key m key = get_shard_for_slot m (calculate_with_tag key)

  unfoldable pub get_shard : ShardManager → ℕ → Option (ShardConfig N)
  get_shard m shard = get_elem? m.shards_ shard

  unfoldable pub get_primary_node : ShardManager → ℕ → N
  get_primary_node m shard = elim (get_elem? m.shards_ shard) [
    | none ↦ m.self_id_
    | some config ↦ config.primary_node
  ]

  unfoldable pub get_node_for_key : ShardManager → Bytes → N
  unfolding get_primary_node get_shard_for_key
  get_node_for_key m key = get_primary_node m (get_shard_for_key m key)

  unfoldable pub owns_shard : ShardManager → ℕ → Bool
  owns_shard m shard = elim (get_elem? m.shards_ shard) [
    | none ↦ false
    | some config ↦ config.primary_node == m.self_id_
  ]

  unfoldable pub owns_slot : ShardManager → ℕ → Bool
  unfolding owns_shard get_shard_for_slot
  owns_slot m slot = owns_shard m (get_shard_for_slot m slot)

  -- `if (shard >= shards_.size()) return false; … shards_[shard] … return true;`
  abbrev pub update_shard : ℕ → (ShardConfig N → ShardConfig N) → ShardManager → Bool × ShardManager
  update_shard shard change m = elim (get_elem? m.shards_ shard) [
    | none ↦ (false, m)
    | some config ↦ (true, record m { shards_ = set m.shards_ shard (change config) })
  ]

  unfoldable pub start_migration : ℕ → N → ShardManager → Bool × ShardManager
  start_migration shard target m =
      update_shard shard
        (λ config. record config { state = State.migrating; migration_target = target }) m

  unfoldable pub complete_migration : ℕ → ShardManager → Bool × ShardManager
  complete_migration shard m =
      update_shard shard
        (λ config. record config {
          primary_node = config.migration_target;
          state = State.stable;
          migration_target = no_node;
        })
        m

  unfoldable pub cancel_migration : ℕ → ShardManager → Bool × ShardManager
  cancel_migration shard m =
      update_shard shard
        (λ config. record config { state = State.stable; migration_target = no_node }) m

  unfoldable pub start_import : ℕ → N → ShardManager → Bool × ShardManager
  start_import shard source m =
      update_shard shard
        (λ config. record config { state = State.importing; migration_target = source }) m

  unfoldable pub complete_import : ℕ → ShardManager → Bool × ShardManager
  complete_import shard m =
      update_shard shard
        (λ config. record config { state = State.stable; migration_target = no_node }) m

  abbrev is_state : State → State → Bool
  is_state State.migrating State.migrating = true
  is_state State.importing State.importing = true
  is_state State.stable State.stable = true
  is_state _ _ = false

  unfoldable pub is_migrating : ShardManager → ℕ → Bool
  is_migrating m shard = elim (get_elem? m.shards_ shard) [
    | none ↦ false
    | some config ↦ is_state config.state State.migrating
  ]

  unfoldable pub is_importing : ShardManager → ℕ → Bool
  is_importing m shard = elim (get_elem? m.shards_ shard) [
    | none ↦ false
    | some config ↦ is_state config.state State.importing
  ]

  unfoldable pub get_migration_target : ShardManager → ℕ → N
  get_migration_target m shard = elim (get_elem? m.shards_ shard) [
    | none ↦ no_node
    | some config ↦ config.migration_target
  ]

  unfoldable pub contains : List N → N → Bool
  contains [] node = false
  contains (x ∷ xs) node = x == node || contains xs node

  -- `replicas.erase(it)` at the first occurrence
  unfoldable pub erase_first : List N → N → List N
  erase_first [] node = []
  erase_first (x ∷ xs) node = let rest = erase_first xs node in if x == node then xs else x ∷ rest

  unfoldable pub add_replica : ℕ → N → ShardManager → Bool × ShardManager
  unfolding contains
  add_replica shard replica m =
      update_shard shard
        (λ config. record config {
          replicas =
              if contains config.replicas replica
              then config.replicas
              else config.replicas ++ replica ∷ [];
        })
        m

  unfoldable pub remove_replica : ℕ → N → ShardManager → Bool × ShardManager
  unfolding erase_first
  remove_replica shard replica m =
      update_shard shard
        (λ config. record config { replicas = erase_first config.replicas replica }) m

  unfoldable pub get_slot_range : ShardManager → ℕ → ℕ × ℕ
  get_slot_range m shard = elim (get_elem? m.shards_ shard) [
    | none ↦ (0, 0)
    | some config ↦ (config.slot_start, config.slot_end)
  ]

  unfoldable pub get_slot_count : ShardManager → ℕ → ℕ
  get_slot_count m shard = elim (get_elem? m.shards_ shard) [
    | none ↦ 0
    | some config ↦ config.slot_end + 1 - config.slot_start
  ]

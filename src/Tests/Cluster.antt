-- ===== src/Tests/Cluster.antt =====
-- Runs of the slots and of the shard manager.
use astra_db.Prelude.{
  ℕ, ◌+◌, ◌*◌, ◌/◌, ◌%◌, ◌≤◌, ◌<◌, ◌≡◌, ◌↔◌, ◌⊎◌, refl, true, false, List, [], ◌∷◌, ◌++◌, foldl,
  bytes, nat_eq, arith,
}
use astra_db.Abseil.{FlatHashMap}
use astra_db.Abseil.Model.{model}
use astra_db.Cluster.Slots.{
  hash_slot_count, table_entry, calculate, calculate_with_tag, open_brace, close_brace, crc16,
  crc16_step,
}
use astra_db.Cluster.Slots.Tags.{slot_of_tag}
use astra_db.Cluster.Slots.Checksum.{entry, low, made_step, made_loop, table_lem}
use astra_db.Cluster.Shards
use astra_db.Cluster.Shards.{
  State, ShardConfig, ShardManager, init, get_shard_for_slot, get_slot_range, get_slot_count,
  get_primary_node, is_migrating,
}
use astra_db.Cluster.Shards.Partition.{partition}
use astra_db.Cluster.Shards.Migration.{Call, call, routing_kept, hand_over}

slot_of_tag_example :
    let key = bytes "user" ++ open_brace ∷ (bytes "42" ++ close_brace ∷ bytes ".name") in
    let key' = bytes "" ++ open_brace ∷ (bytes "42" ++ close_brace ∷ bytes "") in
    (calculate_with_tag key ≡ calculate_with_tag key')
    × (calculate_with_tag key ≡ calculate (bytes "42"))
    × (calculate_with_tag (bytes "user") ≡ calculate (bytes "user"))
    × (calculate_with_tag (bytes "a{}") < hash_slot_count)
slot_of_tag_example =
    slot_of_tag (bytes "a{}") (bytes "user") (bytes "2") (bytes ".name") (bytes "") (bytes "") 0x34
      refl refl refl

foo_low : low 0 (bytes "foo") ≡ true
unfolding low made_step entry
foo_low = refl

table_lem_example :
    ((table_entry 200 ≡ entry 200) ↔ (200 < 208))
    × (calculate (bytes "foo") ≡ made_loop 0 (bytes "foo") % 16384)
table_lem_example = table_lem 200 (bytes "foo") (omega arith) foo_low

-- A key whose slot is not that of the polynomial's checksum.
hello_slots : (calculate (bytes "hello") ≡ 7049) × (made_loop 0 (bytes "hello") % 16384 ≡ 866)
unfolding calculate crc16 made_loop crc16_step made_step entry
hello_slots = (refl, refl)

abbrev table : FlatHashMap ℕ ℕ
table = model ℕ ℕ

abbrev no_node : ℕ
no_node = 0

abbrev manager : ShardManager {N = ℕ} no_node table
manager = record {
  self_id_ = 7;
  shard_count_ = 0;
  shards_ = [];
  slot_to_shard_ = record { rows = []; distinct = tt };
  initialized_ = false;
}

partition_example :
    let (done, m') = init no_node table 3 7 manager in
    let j = get_shard_for_slot no_node table m' 5462 in
    let (first, last) = get_slot_range no_node table m' 1 in
    (done ≡ true)
    × (j < 3)
    × (((first ≤ 5462) × (5462 ≤ last)) ↔ (1 ≡ j))
    × ((get_slot_count no_node table m' 1 ≡ hash_slot_count / 3)
        ⊎ (get_slot_count no_node table m' 1 ≡ hash_slot_count / 3 + 1))
partition_example =
    partition no_node table 3 7 manager 5462 1 (omega arith) (omega arith) (omega arith)
      (omega arith)

abbrev shard : ℕ → ShardConfig ℕ
shard i = record {
  id = i;
  slot_start = i * 100;
  slot_end = i * 100 + 99;
  primary_node = 7;
  replicas = [];
  state = State.stable;
  migration_target = 0;
}

abbrev two_shards : ShardManager {N = ℕ} no_node table
two_shards = record manager { shards_ = shard 0 ∷ shard 1 ∷ [] }

abbrev elsewhere : List (Call ℕ)
elsewhere = Call.start_import 0 9 ∷ Call.add_replica 0 8 ∷ Call.complete_import 0 ∷ []

routing_kept_example :
    (get_shard_for_slot no_node table (foldl (call no_node table) two_shards elsewhere) 150
      ≡ get_shard_for_slot no_node table two_shards 150)
    × (get_slot_range no_node table (foldl (call no_node table) two_shards elsewhere) 1
        ≡ get_slot_range no_node table two_shards 1)
routing_kept_example = routing_kept no_node table elsewhere two_shards 150 1

hand_over_example :
    let during =
      foldl
        (call no_node table)
        (call no_node table two_shards (Call.start_migration 1 9))
        elsewhere in
    let completed = call no_node table during (Call.complete_migration 1) in
    let cancelled = call no_node table during (Call.cancel_migration 1) in
    (is_migrating no_node table during 1 ≡ true)
    × (get_primary_node no_node table during 1 ≡ 7)
    × (get_primary_node no_node table completed 1 ≡ 9)
    × (is_migrating no_node table completed 1 ≡ false)
    × (get_primary_node no_node table cancelled 1 ≡ 7)
    × (is_migrating no_node table cancelled 1 ≡ false)
hand_over_example =
    hand_over no_node table two_shards 1 9 elsewhere (shard 1) refl (refl, (refl, (refl, tt)))

-- An import that is completed leaves the shard with its old primary; a migration that is completed
-- without having been started leaves it with no node.
loose_ends :
    (get_primary_node no_node table (foldl (call no_node table) two_shards elsewhere) 0 ≡ 7)
    × (get_primary_node no_node table (call no_node table two_shards (Call.complete_migration 1)) 1
        ≡ 0)
unfolding get_primary_node call Shards.start_import Shards.add_replica Shards.complete_import
    Shards.complete_migration
loose_ends = (refl, refl)

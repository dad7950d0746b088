-- ===== src/Cluster/Shards/Migration.antt =====
-- Migration, import and replicas (src/astra/cluster/shard_manager.hpp): sequences of calls, and what they
-- do to one shard.
use astra_db.Prelude.{
  ℕ, zero, suc, ◌≡◌, refl, ap, ◌∙◌, inl, inr, true, false, Option, none, some, List, [], ◌∷◌, ◌++◌,
  foldl, get_elem?, set, Eq, nat_eq, nat_eqb, nat_eqb_iff, if◌then◌else◌, arith, Option-cases,
}
use astra_db.Abseil.{FlatHashMap}
use astra_db.Cluster.Shards
use astra_db.Cluster.Shards.{
  State, ShardConfig, ShardManager, contains, erase_first, get_shard_for_slot, get_slot_range,
  get_primary_node, is_migrating, update_shard,
}

pub data Call (N : Type 0) : Type 0 where
  start_migration start_import add_replica remove_replica : ℕ → N → Call N
  complete_migration cancel_migration complete_import : ℕ → Call N

abbrev pub shard_of : {N : Type 0} → Call N → ℕ
shard_of (start_migration k n) = k
shard_of (start_import k n) = k
shard_of (add_replica k n) = k
shard_of (remove_replica k n) = k
shard_of (complete_migration k) = k
shard_of (cancel_migration k) = k
shard_of (complete_import k) = k

get_elem?-set :
    {A : Type 0} (xs : List A) (k j : ℕ) (v : A)
    → get_elem? (set xs k v) j ≡ (
        if nat_eqb k j
        then elim (get_elem? xs j) [ none ↦ none | some x ↦ some v ]
        else get_elem? xs j)
get_elem?-set [] k j v = ground arith
get_elem?-set (x ∷ xs) zero zero v = refl
get_elem?-set (x ∷ xs) zero (suc j) v = ground arith
get_elem?-set (x ∷ xs) (suc k) zero v = ground arith
get_elem?-set (x ∷ xs) (suc k) (suc j) v = ground (arith, get_elem?-set xs k j v)

module _ {N : Type 0} ⦃e : Eq N⦄ (no_node : N) (H : FlatHashMap ℕ ℕ) where
  unfoldable pub call : ShardManager no_node H → Call N → ShardManager no_node H
  call m (start_migration k n) = (Shards.start_migration no_node H k n m).1
  call m (start_import k n) = (Shards.start_import no_node H k n m).1
  call m (add_replica k n) = (Shards.add_replica no_node H k n m).1
  call m (remove_replica k n) = (Shards.remove_replica no_node H k n m).1
  call m (complete_migration k) = (Shards.complete_migration no_node H k m).1
  call m (cancel_migration k) = (Shards.cancel_migration no_node H k m).1
  call m (complete_import k) = (Shards.complete_import no_node H k m).1

  -- What a call does to its shard.
  effect : Call N → ShardConfig N → ShardConfig N
  effect (start_migration k n) config = record config {
    state = State.migrating;
    migration_target = n;
  }
  effect (start_import k n) config = record config { state = State.importing; migration_target = n }
  effect (add_replica k n) config = record config {
    replicas =
        if contains no_node H config.replicas n then config.replicas else config.replicas ++ n ∷ [];
  }
  effect (remove_replica k n) config = record config {
    replicas = erase_first no_node H config.replicas n;
  }
  effect (complete_migration k) config = record config {
    primary_node = config.migration_target;
    state = State.stable;
    migration_target = no_node;
  }
  effect (cancel_migration k) config = record config {
    state = State.stable;
    migration_target = no_node;
  }
  effect (complete_import k) config = record config {
    state = State.stable;
    migration_target = no_node;
  }

  call_lem :
      (m : ShardManager no_node H) (c : Call N)
      → call m c ≡ (update_shard no_node H (shard_of c) (effect c) m).1
  unfolding call effect Shards.start_migration Shards.start_import Shards.add_replica
      Shards.remove_replica Shards.complete_migration Shards.cancel_migration Shards.complete_import
  call_lem m (start_migration k n) = refl
  call_lem m (start_import k n) = refl
  call_lem m (add_replica k n) = refl
  call_lem m (remove_replica k n) = refl
  call_lem m (complete_migration k) = refl
  call_lem m (cancel_migration k) = refl
  call_lem m (complete_import k) = refl

  abbrev change : (ShardConfig N → ShardConfig N) → Option (ShardConfig N) → Option (ShardConfig N)
  change f none = none
  change f (some config) = some (f config)

  update_lem :
      (m : ShardManager no_node H) (k j : ℕ) (f : ShardConfig N → ShardConfig N)
      → get_elem? (update_shard no_node H k f m).1.shards_ j
        ≡ (if nat_eqb k j then change f (get_elem? m.shards_ j) else get_elem? m.shards_ j)
  update_lem m k j f = elim (Option-cases (get_elem? m.shards_ k)) [
    | inl missing ↦ ground (arith, nat_eqb_iff k j)
    | inr (config, found) ↦ ground (arith, nat_eqb_iff k j, get_elem?-set m.shards_ k j (f config))
  ]

  at-call :
      (m : ShardManager no_node H) (c : Call N) (j : ℕ)
      → get_elem? (call m c).shards_ j ≡ (
          if nat_eqb (shard_of c) j
          then change (effect c) (get_elem? m.shards_ j)
          else get_elem? m.shards_ j)
  at-call m c j =
      ap (λ m'. get_elem? m'.shards_ j) (call_lem m c) ∙ update_lem m (shard_of c) j (effect c)

  table-call :
      (m : ShardManager no_node H) (c : Call N) → (call m c).slot_to_shard_ ≡ m.slot_to_shard_
  table-call m c = ap (λ m'. m'.slot_to_shard_) (call_lem m c) ∙ ground arith

  effect_slots :
      (c : Call N) (config : ShardConfig N)
      → ((effect c config).slot_start ≡ config.slot_start)
        × ((effect c config).slot_end ≡ config.slot_end)
  unfolding effect
  effect_slots (start_migration k n) config = (refl, refl)
  effect_slots (start_import k n) config = (refl, refl)
  effect_slots (add_replica k n) config = (refl, refl)
  effect_slots (remove_replica k n) config = (refl, refl)
  effect_slots (complete_migration k) config = (refl, refl)
  effect_slots (cancel_migration k) config = (refl, refl)
  effect_slots (complete_import k) config = (refl, refl)

  get_slot_range-call :
      (m : ShardManager no_node H) (c : Call N) (i : ℕ)
      → get_slot_range no_node H (call m c) i ≡ get_slot_range no_node H m i
  unfolding get_slot_range
  get_slot_range-call m c i = elim (Option-cases (get_elem? m.shards_ i)) [
    | inl missing ↦ ground (arith, at-call m c i)
    | inr (config, found) ↦ ground (arith, at-call m c i, effect_slots c config)
  ]

  -- No sequence of migrations, imports and changes of replicas moves a slot to another shard, or
  -- changes the range of a shard.
  pub routing_kept :
      (calls : List (Call N)) (m : ShardManager no_node H) (s i : ℕ)
      → (get_shard_for_slot no_node H (foldl call m calls) s ≡ get_shard_for_slot no_node H m s)
        × (get_slot_range no_node H (foldl call m calls) i ≡ get_slot_range no_node H m i)
  unfolding get_shard_for_slot
  routing_kept [] m s i = (refl, refl)
  routing_kept (c ∷ calls) m s i =
      let (slot, range) = routing_kept calls (call m c) s i in
      (slot ∙ rw (table-call m c) refl, range ∙ get_slot_range-call m c i)

  -- Calls on shards other than `i`.
  abbrev pub Elsewhere : ℕ → List (Call N) → Type 0
  Elsewhere i [] = Unit {0}
  Elsewhere i (c ∷ calls) = (nat_eqb (shard_of c) i ≡ false) × Elsewhere i calls

  at-others :
      (calls : List (Call N)) (m : ShardManager no_node H) (i : ℕ)
      → Elsewhere i calls
      → get_elem? (foldl call m calls).shards_ i ≡ get_elem? m.shards_ i
  at-others [] m i h = refl
  at-others (c ∷ calls) m i h = at-others calls (call m c) i h.1 ∙ at-call m c i ∙ rw h.0 refl

  at-same :
      (m : ShardManager no_node H) (c : Call N) (config : ShardConfig N)
      → get_elem? m.shards_ (shard_of c) ≡ some config
      → get_elem? (call m c).shards_ (shard_of c) ≡ some (effect c config)
  at-same m c config found =
      at-call m c (shard_of c) ∙ rw (found, (nat_eqb_iff (shard_of c) (shard_of c)).1 refl) refl

  -- A migration of a shard, with any calls on other shards in between: while it lasts the shard has
  -- its old primary and is migrating; completed, it gives the shard to the target, and cancelled, it
  -- leaves it with its old primary; either way the shard is no longer migrating.
  pub hand_over :
      (m : ShardManager no_node H) (i : ℕ) (target : N) (calls : List (Call N))
      (config : ShardConfig N)
      → get_elem? m.shards_ i ≡ some config
      → Elsewhere i calls
      → let during = foldl call (call m (start_migration i target)) calls in
        let completed = call during (complete_migration i) in
        let cancelled = call during (cancel_migration i) in
        (is_migrating no_node H during i ≡ true)
        × (get_primary_node no_node H during i ≡ config.primary_node)
        × (get_primary_node no_node H completed i ≡ target)
        × (is_migrating no_node H completed i ≡ false)
        × (get_primary_node no_node H cancelled i ≡ config.primary_node)
        × (is_migrating no_node H cancelled i ≡ false)
  unfolding is_migrating get_primary_node effect
  hand_over m i target calls config found others =
      let start = start_migration i target in
      let started = at-same m start config found in
      let kept = at-others calls (call m start) i others ∙ started in
      let during = foldl call (call m start) calls in
      let completed = at-same during (complete_migration i) (effect start config) kept in
      let cancelled = at-same during (cancel_migration i) (effect start config) kept in
      (
        rw (kept, is_migrating) refl,
        rw (kept, get_primary_node) refl,
        rw (completed, get_primary_node) refl,
        rw (completed, is_migrating) refl,
        rw (cancelled, get_primary_node) refl,
        rw (cancelled, is_migrating) refl,
      )

-- ===== src/Cluster/Shards/Bounds.antt =====
-- The first slots of the shards (src/astra/cluster/shard_manager.hpp, `Init`).
use astra_db.Prelude.{
  ℕ, zero, suc, ◌+◌, ◌*◌, ◌/◌, ◌%◌, ◌≤◌, ◌<◌, ◌≡◌, inl, inr, ◌∙◌, min, nat_eq, ltb, ltb→lt, leb,
  if◌then◌else◌, arith, Bool-cases,
}
use native.Mathlib.Nat.{div-add-mod, mod-lt, le-div_iff_mul-le}
use astra_db.Cluster.Slots.{hash_slot_count}

-- The first slot of shard `j`, where each shard has `per` slots and the first `rest` have one more.
unfoldable pub bound : ℕ → ℕ → ℕ → ℕ
bound per rest zero = 0
bound per rest (suc j) = bound per rest j + (if ltb j rest then per + 1 else per)

bound_lem : (per rest j : ℕ) → bound per rest j ≡ j * per + min j rest
unfolding bound
bound_lem per rest zero = omega arith
bound_lem per rest (suc j) = ground (arith, bound_lem per rest j)

pub bound_mono : (per rest i j : ℕ) → i ≤ j → bound per rest i ≤ bound per rest j
unfolding bound
bound_mono per rest i zero h = ground arith
bound_mono per rest i (suc j) h = elim (Bool-cases (leb i j)) [
  | inl below ↦ ground (arith, bound_mono per rest i j)
  | inr above ↦ let e : i ≡ suc j = ground arith in rw e (omega arith)
]

-- The shard of a slot.
pub locate :
    (per rest c s : ℕ)
    → s < bound per rest c
    → (j : ℕ) × (j < c) × (bound per rest j ≤ s) × (s < bound per rest (suc j))
unfolding bound
locate per rest zero s h = absurd (omega arith)
locate per rest (suc c) s h = elim (Bool-cases (ltb s (bound per rest c))) [
  | inl below ↦
      let (j, lt, first, last) = locate per rest c s (ltb→lt s (bound per rest c) below) in
      (j, omega arith, first, last)
  | inr above ↦ (c, omega arith, ground arith, h)
]

pub bound_whole :
    (c : ℕ) → 1 ≤ c → bound (hash_slot_count / c) (hash_slot_count % c) c ≡ hash_slot_count
bound_whole c h =
    let small : hash_slot_count % c < c = mod-lt hash_slot_count h in
    bound_lem (hash_slot_count / c) (hash_slot_count % c) c
    ∙ omega (arith, div-add-mod hash_slot_count c, small)

pub per_positive : (c : ℕ) → 1 ≤ c → c ≤ hash_slot_count → 1 ≤ hash_slot_count / c
per_positive c h h' = (le-div_iff_mul-le {k = c} {x = 1} {y = hash_slot_count} h).1 (omega arith)

-- A slot lies in one shard only.
pub located_once :
    (per rest s i j : ℕ)
    → bound per rest j ≤ s
    → s < bound per rest (suc j)
    → bound per rest i ≤ s
    → s < bound per rest (suc i)
    → i ≡ j
located_once per rest s i j first last first' last' = elim (Bool-cases (ltb i j)) [
  | inl below ↦ absurd (omega (arith, bound_mono per rest (suc i) j (ground arith)))
  | inr above ↦ elim (Bool-cases (ltb j i)) [
    | inl below ↦ absurd (omega (arith, bound_mono per rest (suc j) i (ground arith)))
    | inr equal ↦ ground arith
  ]
]

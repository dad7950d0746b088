-- ===== src/Eviction.antt =====
-- `EvictionStrategy2Q` of src/astra/core/memory/eviction_strategy_2q.hpp: a queue of new keys and a
-- queue of keys that were used again. `share` is the product of a number of keys and
-- `probationary_ratio_`, a `double`, as `static_cast<size_t>` truncates it; `no_key` is the empty
-- string. The mutex makes each method one step.
pub mod Places
pub mod Runs
use astra_db.Prelude.{
  ℕ, ◌+◌, ◌-◌, ◌%◌, ◌^◌, min, Bool, true, false, not, ◌||◌, Option, none, some, List, [], ◌∷◌, ◌++◌,
  length, ltb, leb, Eq, ◌==◌, if◌then◌else◌,
}
use astra_db.Abseil.{FlatHashMap}

pub data KeyState : Type 0 where
  probationary : KeyState
  protected : KeyState

module _ {S : Type 0} ⦃e : Eq S⦄ where
  -- `erase` of `std::remove`
  unfoldable pub remove_all : S → List S → List S
  remove_all key [] = []
  remove_all key (x ∷ xs) = let rest = remove_all key xs in if x == key then rest else x ∷ rest

  -- `erase` of `std::find`
  unfoldable pub remove_first : S → List S → List S
  remove_first key [] = []
  remove_first key (x ∷ xs) = let rest = remove_first key xs in if x == key then xs else x ∷ rest

  unfoldable pub contains : S → List S → Bool
  contains key [] = false
  contains key (x ∷ xs) = x == key || contains key xs

module _ {S : Type 0} ⦃e : Eq S⦄ (H : FlatHashMap S KeyState) where
  pub record EvictionStrategy2Q : Type 0 where
    pub probationary_queue_ : List S
    pub protected_queue_ : List S
    pub key_state_ : H.Table

  unfoldable pub init : EvictionStrategy2Q
  init = record { probationary_queue_ = []; protected_queue_ = []; key_state_ = H.empty }

  unfoldable pub promote_to_protected : (ℕ → ℕ) → S → EvictionStrategy2Q → EvictionStrategy2Q
  promote_to_protected share key s =
      let probationary_queue = remove_all key s.probationary_queue_ in
      let key_state = H.insert_or_assign key protected s.key_state_ in
      let total_keys = H.size key_state in
      let protected_max = (2 ^ 64 + total_keys - share total_keys) % 2 ^ 64 in
      elim s.protected_queue_ [
        | [] ↦ record {
          probationary_queue_ = probationary_queue;
          protected_queue_ = key ∷ [];
          key_state_ = key_state;
        }
        | demoted ∷ queue ↦
            if leb protected_max (length (demoted ∷ queue))
            then record {
              probationary_queue_ = probationary_queue ++ demoted ∷ [];
              protected_queue_ = queue ++ key ∷ [];
              key_state_ = H.insert_or_assign demoted probationary key_state;
            }
            else record {
              probationary_queue_ = probationary_queue;
              protected_queue_ = (demoted ∷ queue) ++ key ∷ [];
              key_state_ = key_state;
            }
      ]

  unfoldable pub record_access : (ℕ → ℕ) → S → Bool → EvictionStrategy2Q → EvictionStrategy2Q
  unfolding promote_to_protected remove_first contains
  record_access share key false s = record s {
    probationary_queue_ = s.probationary_queue_ ++ key ∷ [];
    key_state_ = H.insert_or_assign key probationary s.key_state_;
  }
  record_access share key true s = elim (H.find s.key_state_ key) [
    | none ↦ s
    | some probationary ↦ promote_to_protected share key s
    | some protected ↦
        if contains key s.protected_queue_
        then record s { protected_queue_ = remove_first key s.protected_queue_ ++ key ∷ [] }
        else s
  ]

  -- The part of `GetVictim` behind the probationary queue.
  unfoldable pub get_protected_victim : S → EvictionStrategy2Q → S × EvictionStrategy2Q
  get_protected_victim no_key s = elim s.protected_queue_ [
    | [] ↦ (no_key, s)
    | victim ∷ queue ↦
        (victim, record s { protected_queue_ = queue; key_state_ = H.erase victim s.key_state_ })
  ]

  unfoldable pub get_victim : (ℕ → ℕ) → S → ℕ → EvictionStrategy2Q → S × EvictionStrategy2Q
  unfolding get_protected_victim
  get_victim share no_key total_keys s = elim s.probationary_queue_ [
    | [] ↦ get_protected_victim no_key s
    | victim ∷ queue ↦
        if ltb 0 (min (share total_keys) (length (victim ∷ queue)))
        then (
          victim,
          record s { probationary_queue_ = queue; key_state_ = H.erase victim s.key_state_ },
        )
        else get_protected_victim no_key s
  ]

  unfoldable pub remove_key : S → EvictionStrategy2Q → EvictionStrategy2Q
  unfolding remove_all
  remove_key key s = elim (H.find s.key_state_ key) [
    | none ↦ s
    | some probationary ↦ record s {
      probationary_queue_ = remove_all key s.probationary_queue_;
      key_state_ = H.erase key s.key_state_;
    }
    | some protected ↦ record s {
      protected_queue_ = remove_all key s.protected_queue_;
      key_state_ = H.erase key s.key_state_;
    }
  ]

  unfoldable pub get_probationary_size : EvictionStrategy2Q → ℕ
  get_probationary_size s = length s.probationary_queue_

  unfoldable pub get_protected_size : EvictionStrategy2Q → ℕ
  get_protected_size s = length s.protected_queue_

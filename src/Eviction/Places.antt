-- ===== src/Eviction/Places.antt =====
-- Where the keys of `EvictionStrategy2Q` stand (src/astra/core/memory/eviction_strategy_2q.hpp).
use astra_db.Prelude.{
  ℕ, ◌+◌, ◌-◌, ◌≡◌, true, false, Option, none, some, is_some, List, [], ◌∷◌, ◌++◌, Eq, ◌==◌, arith,
  if◌then◌else◌, Option-cases, inl, inr,
}
use astra_db.Abseil.{FlatHashMap}
use astra_db.Eviction.{
  KeyState, probationary, protected, EvictionStrategy2Q, remove_all, remove_first, init,
  record_access, promote_to_protected, get_victim, get_protected_victim, remove_key,
}

module _ {S : Type 0} ⦃e : Eq S⦄ where
  -- How often a key stands in a queue.
  unfoldable pub count : S → List S → ℕ
  count j [] = 0
  count j (x ∷ xs) = let rest = count j xs in if x == j then rest + 1 else rest

  count-append : (j : S) (xs ys : List S) → count j (xs ++ ys) ≡ count j xs + count j ys
  unfolding count
  count-append j [] ys = omega arith
  count-append j (x ∷ xs) ys = ground (arith, count-append j xs ys)

  count-remove_all :
      (j key : S) (xs : List S) → count j (remove_all key xs) ≡ (if key == j then 0 else count j xs)
  unfolding count remove_all
  count-remove_all j key [] = ground arith
  count-remove_all j key (x ∷ xs) =
      ground (arith, count-remove_all j key xs, e.beq_iff key j, e.beq_iff x key, e.beq_iff x j)

  count-remove_first :
      (j key : S) (xs : List S)
      → count j (remove_first key xs) ≡ (if key == j then count j xs - 1 else count j xs)
  unfolding count remove_first
  count-remove_first j key [] = ground arith
  count-remove_first j key (x ∷ xs) =
      ground (arith, count-remove_first j key xs, e.beq_iff key j, e.beq_iff x key, e.beq_iff x j)

abbrev pub in_probationary : Option KeyState → ℕ
in_probationary none = 0
in_probationary (some probationary) = 1
in_probationary (some protected) = 0

abbrev pub in_protected : Option KeyState → ℕ
in_protected none = 0
in_protected (some probationary) = 0
in_protected (some protected) = 1

module _ {S : Type 0} ⦃e : Eq S⦄ (H : FlatHashMap S KeyState) where
  -- Each key stands once in the queue of its state, and in no other.
  pub record IsPlaced (s : EvictionStrategy2Q H) : Type 0 where
    pub first : (j : S) → count j s.probationary_queue_ ≡ in_probationary (H.find s.key_state_ j)
    pub second : (j : S) → count j s.protected_queue_ ≡ in_protected (H.find s.key_state_ j)

  pub init-IsPlaced : IsPlaced (init H)
  unfolding init count
  init-IsPlaced = record {
    first = λ j. ground (arith, H.find-empty j);
    second = λ j. ground (arith, H.find-empty j);
  }

  pub record_access_new :
      (share : ℕ → ℕ) (key : S) (s : EvictionStrategy2Q H)
      → is_some (H.find s.key_state_ key) ≡ false
      → IsPlaced s
      → IsPlaced (record_access H share key false s)
  unfolding record_access count
  record_access_new share key s new h = record {
    first = λ j. ground (
      arith,
      h.first j,
      count-append j s.probationary_queue_ (key ∷ []),
      H.find-insert key probationary s.key_state_ j,
      e.beq_iff key j,
    );
    second = λ j.
        ground (arith, h.second j, H.find-insert key probationary s.key_state_ j, e.beq_iff key j);
  }

  pub remove_key-IsPlaced :
      (key : S) (s : EvictionStrategy2Q H) → IsPlaced s → IsPlaced (remove_key H key s)
  unfolding remove_key
  remove_key-IsPlaced key s h = record {
    first = λ j. ground (
      arith,
      h.first j,
      count-remove_all j key s.probationary_queue_,
      H.find-erase key s.key_state_ j,
      e.beq_iff key j,
    );
    second = λ j. ground (
      arith,
      h.second j,
      count-remove_all j key s.protected_queue_,
      H.find-erase key s.key_state_ j,
      e.beq_iff key j,
    );
  }

  abbrev state : List S → List S → H.Table → EvictionStrategy2Q H
  state first second states = record {
    probationary_queue_ = first;
    protected_queue_ = second;
    key_state_ = states;
  }

  promote-IsPlaced :
      (share : ℕ → ℕ) (key : S) (first second : List S) (states : H.Table)
      → H.find states key ≡ some probationary
      → IsPlaced (state first second states)
      → IsPlaced (promote_to_protected H share key (state first second states))
  unfolding promote_to_protected count
  promote-IsPlaced share key first [] states known h = record {
    first = λ j. ground (
      arith,
      h.first j,
      count-remove_all j key first,
      H.find-insert key protected states j,
      e.beq_iff key j,
    );
    second = λ j. ground (arith, h.second j, H.find-insert key protected states j, e.beq_iff key j);
  }
  promote-IsPlaced share key first (demoted ∷ queue) states known h =
      let states' = H.insert_or_assign key protected states in
      record {
        first = λ j. ground (
          arith,
          h.first j,
          h.second j,
          h.second key,
          count-remove_all j key first,
          count-append j (remove_all key first) (demoted ∷ []),
          H.find-insert key protected states j,
          H.find-insert demoted probationary states' j,
          e.beq_iff key j,
          e.beq_iff demoted j,
          e.beq_iff demoted key,
        );
        second = λ j. ground (
          arith,
          h.second j,
          h.second key,
          count-append j queue (key ∷ []),
          H.find-insert key protected states j,
          H.find-insert demoted probationary states' j,
          e.beq_iff key j,
          e.beq_iff demoted j,
          e.beq_iff demoted key,
        );
      }

  pub record_access_known :
      (share : ℕ → ℕ) (key : S) (s : EvictionStrategy2Q H)
      → IsPlaced s
      → IsPlaced (record_access H share key true s)
  unfolding record_access count
  record_access_known share key s h = elim (Option-cases (H.find s.key_state_ key)) [
    | inl absent ↦ rw (record_access, absent) h
    | inr (probationary, found) ↦
        rw (record_access, found)
          (promote-IsPlaced share key s.probationary_queue_ s.protected_queue_ s.key_state_ found h)
    | inr (protected, found) ↦ record {
      first = λ j. ground (arith, found, h.first j);
      second = λ j. ground (
        arith,
        found,
        h.second j,
        h.second key,
        count-append j (remove_first key s.protected_queue_) (key ∷ []),
        count-remove_first j key s.protected_queue_,
        e.beq_iff key j,
      );
    }
  ]

  protected_victim-IsPlaced :
      (no_key : S) (first second : List S) (states : H.Table)
      → IsPlaced (state first second states)
      → IsPlaced (get_protected_victim H no_key (state first second states)).1
  unfolding get_protected_victim count
  protected_victim-IsPlaced no_key first [] states h = h
  protected_victim-IsPlaced no_key first (victim ∷ queue) states h = record {
    first = λ j.
        ground (arith, h.first j, h.second j, H.find-erase victim states j, e.beq_iff victim j);
    second = λ j. ground (arith, h.second j, H.find-erase victim states j, e.beq_iff victim j);
  }

  pub victim-IsPlaced :
      (share : ℕ → ℕ) (no_key : S) (total_keys : ℕ) (first second : List S) (states : H.Table)
      → IsPlaced (state first second states)
      → IsPlaced (get_victim H share no_key total_keys (state first second states)).1
  unfolding get_victim count
  victim-IsPlaced share no_key total_keys [] second states h =
      protected_victim-IsPlaced no_key [] second states h
  victim-IsPlaced share no_key total_keys (victim ∷ queue) second states h =
      let kept = protected_victim-IsPlaced no_key (victim ∷ queue) second states h in
      record {
        first = λ j.
            ground
              (arith, h.first j, kept.first j, H.find-erase victim states j, e.beq_iff victim j);
        second = λ j. ground (
          arith,
          h.first j,
          h.second j,
          kept.second j,
          H.find-erase victim states j,
          e.beq_iff victim j,
        );
      }

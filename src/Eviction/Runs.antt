-- ===== src/Eviction/Runs.antt =====
-- Sequences of calls of `EvictionStrategy2Q` (src/astra/core/memory/eviction_strategy_2q.hpp).
use astra_db.Prelude.{ℕ, ◌≡◌, Bool, true, false, not, ◌&&◌, is_some, List, [], ◌∷◌, Eq, arith}
use astra_db.Abseil.{FlatHashMap}
use astra_db.Eviction.{KeyState, EvictionStrategy2Q, init, record_access, get_victim, remove_key}
use astra_db.Eviction.Places.{
  count, in_probationary, in_protected, IsPlaced, init-IsPlaced, record_access_new,
  record_access_known, victim-IsPlaced, remove_key-IsPlaced,
}

pub data Call (S : Type 0) : Type 0 where
  access : S → Bool → Call S
  victim : ℕ → Call S
  remove : S → Call S

module _ {S : Type 0} ⦃e : Eq S⦄ (H : FlatHashMap S KeyState) (share : ℕ → ℕ) (no_key : S) where
  unfoldable pub call : Call S → EvictionStrategy2Q H → EvictionStrategy2Q H
  unfolding record_access get_victim remove_key
  call (access key key_exists) s = record_access H share key key_exists s
  call (victim total_keys) s = (get_victim H share no_key total_keys s).1
  call (remove key) s = remove_key H key s

  unfoldable pub run : List (Call S) → EvictionStrategy2Q H → EvictionStrategy2Q H
  unfolding call
  run [] s = s
  run (c ∷ cs) s = run cs (call c s)

  -- Whether a call that reports a key as new reports one that has no state.
  unfoldable pub honest : Call S → EvictionStrategy2Q H → Bool
  honest (access key false) s = not (is_some (H.find s.key_state_ key))
  honest (access key true) s = true
  honest (victim total_keys) s = true
  honest (remove key) s = true

  unfoldable pub all_honest : List (Call S) → EvictionStrategy2Q H → Bool
  unfolding honest call
  all_honest [] s = true
  all_honest (c ∷ cs) s = honest c s && all_honest cs (call c s)

  call-IsPlaced :
      (c : Call S) (s : EvictionStrategy2Q H)
      → honest c s ≡ true
      → IsPlaced H s
      → IsPlaced H (call c s)
  unfolding honest call
  call-IsPlaced (access key false) s new h = record_access_new H share key s (ground arith) h
  call-IsPlaced (access key true) s new h = record_access_known H share key s h
  call-IsPlaced (victim total_keys) s new h =
      victim-IsPlaced H share no_key total_keys s.probationary_queue_ s.protected_queue_
        s.key_state_ h
  call-IsPlaced (remove key) s new h = remove_key-IsPlaced H key s h

  run-IsPlaced :
      (cs : List (Call S)) (s : EvictionStrategy2Q H)
      → all_honest cs s ≡ true
      → IsPlaced H s
      → IsPlaced H (run cs s)
  unfolding all_honest run
  run-IsPlaced [] s honest_calls h = h
  run-IsPlaced (c ∷ cs) s honest_calls h =
      run-IsPlaced cs (call c s) (ground arith) (call-IsPlaced c s (ground arith) h)

  -- From the empty strategy on, whatever keys are accessed, evicted and removed, and whatever the
  -- share of the probationary queue: if every key that is reported as new has no state, then each
  -- key stands exactly once in the queue that its state names, and in no other.
  pub places :
      (cs : List (Call S)) (key : S)
      → all_honest cs (init H) ≡ true
      → let s = run cs (init H) in
        (count key s.probationary_queue_ ≡ in_probationary (H.find s.key_state_ key))
        × (count key s.protected_queue_ ≡ in_protected (H.find s.key_state_ key))
  places cs key honest_calls =
      let h = run-IsPlaced cs (init H) honest_calls (init-IsPlaced H) in (h.first key, h.second key)

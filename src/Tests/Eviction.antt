-- ===== src/Tests/Eviction.antt =====
-- Runs of the two queues of keys.
use astra_db.Prelude.{ℕ, ◌/◌, ◌≡◌, refl, true, false, List, [], ◌∷◌, nat_eq}
use astra_db.Abseil.{FlatHashMap, lookup, insert, without}
use astra_db.Abseil.Model.{model}
use astra_db.Eviction.{
  KeyState, init, record_access, promote_to_protected, get_victim, get_protected_victim, remove_key,
  remove_all, remove_first, contains, get_probationary_size, get_protected_size,
}
use astra_db.Eviction.Places.{count, in_probationary, in_protected}
use astra_db.Eviction.Runs.{Call, access, victim, remove, run, call, all_honest, honest, places}

abbrev table : FlatHashMap ℕ KeyState
table = model ℕ KeyState

-- A third of the keys.
abbrev third : ℕ → ℕ
third n = n / 3

abbrev calls : List (Call ℕ)
calls =
    access 1 false
    ∷ access 2 false
    ∷ access 3 false
    ∷ access 1 true
    ∷ access 3 true
    ∷ access 1 true
    ∷ victim 3
    ∷ access 4 false
    ∷ remove 3
    ∷ []

places_example :
    let s = run table third 0 calls (init table) in
    (count 1 s.probationary_queue_ ≡ in_probationary (table.find s.key_state_ 1))
    × (count 1 s.protected_queue_ ≡ in_protected (table.find s.key_state_ 1))
unfolding all_honest honest call record_access get_victim remove_key init promote_to_protected
    remove_all remove_first contains get_protected_victim lookup insert without
places_example = places table third 0 calls 1 refl

left :
    (get_probationary_size table (run table third 0 calls (init table)) ≡ 1)
    × (get_protected_size table (run table third 0 calls (init table)) ≡ 1)
unfolding run call record_access get_victim remove_key init promote_to_protected remove_all
    remove_first contains get_protected_victim lookup insert without get_probationary_size
    get_protected_size
left = (refl, refl)

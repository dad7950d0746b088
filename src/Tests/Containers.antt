-- ===== src/Tests/Containers.antt =====
-- Runs of the containers.
use astra_db.Prelude.{
  ℕ, ◌≡◌, refl, true, false, none, some, List, [], ◌∷◌, length, foldl, nat_eq, arith,
}
use astra_db.Prelude.Int.{pos, negsuc}
use astra_db.Abseil.{FlatHashMap}
use astra_db.Abseil.Model.{model}
use astra_db.Container.DashMap
use astra_db.Container.DashMap.{DashMap}
use astra_db.Container.DashMap.Laws.{Call, call, spec, history}
use astra_db.Container.LinkedList
use astra_db.Container.LinkedList.{LinkedList}
use astra_db.Container.LinkedList.Spec
use astra_db.Container.LinkedList.Spec.{IsValid, items, window, position}
use astra_db.Container.LinkedList.Refines.{run-Stands}
use astra_db.Container.LinkedList.Ranges.{range-window}

abbrev table : FlatHashMap ℕ ℕ
table = model ℕ ℕ

abbrev calls : List (Call ℕ ℕ)
calls = Call.insert 1 10 ∷ Call.insert 2 20 ∷ Call.remove 1 ∷ Call.insert 2 21 ∷ []

history_example :
    (DashMap.size table (foldl (call table) (DashMap.init table) calls)
      ≡ length
          (DashMap.get_all_key_value_pairs table (foldl (call table) (DashMap.init table) calls)))
    × ((j : ℕ)
        → DashMap.get table (foldl (call table) (DashMap.init table) calls) j
          ≡ foldl (spec j) none calls)
history_example = history table calls

abbrev three : LinkedList ℕ
three = record { use_vector_ = true; vector_ = 10 ∷ 11 ∷ 10 ∷ []; deque_ = [] }

three-IsValid : IsValid three
three-IsValid = record { short = λ _. omega arith; no_deque = λ _. refl; no_vector = λ p. cc }

abbrev script : List (Spec.Call ℕ)
script =
    Spec.Call.push_left 9
    ∷ Spec.Call.set_at (negsuc 0) 12
    ∷ Spec.Call.trim (pos 1) (negsuc 0)
    ∷ Spec.Call.pop_right
    ∷ []

run-Stands_example :
    IsValid (foldl Spec.call three script)
    × (items (foldl Spec.call three script) ≡ foldl Spec.spec (items three) script)
run-Stands_example = run-Stands script three three-IsValid

range-window_example :
    (LinkedList.range three (negsuc 1) (pos 7) ≡ window (negsuc 1) (pos 7) (items three))
    × (items (LinkedList.trim three (negsuc 1) (pos 7)) ≡ LinkedList.range three (negsuc 1) (pos 7))
range-window_example = range-window three (negsuc 1) (pos 7)

-- An index far before the start reads the first element, and cannot be written.
before_the_start :
    (LinkedList.index three (negsuc 5) ≡ some 10)
    × ((LinkedList.set_at three (negsuc 5) 1).1 ≡ false)
unfolding LinkedList.index LinkedList.set_at
before_the_start = (refl, refl)

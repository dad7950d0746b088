-- ===== src/Commands/Database/Lists/Spec.antt =====
-- What a list database (src/astra/commands/database.hpp) promises: a list under every key, the
-- empty one where there is no key, and each call on plain lists.
use astra_db.Prelude.{
  ℕ, suc, ◌-◌, Bool, true, not, Option, none, some, is_some, is_nil, List, [], ◌∷◌, ◌++◌, length,
  get_elem?, take, drop, Eq, ◌==◌, if◌then◌else◌,
}
use astra_db.Prelude.Int.{ℤ, pos, negsuc}
use astra_db.Container.LinkedList.Spec
use astra_db.Container.LinkedList.Spec.{position, window}
use astra_db.Container.LinkedList.Removal.{quota, occurrences, without_first}
use astra_db.Commands.Database
use astra_db.Commands.Database.{Tables, Database}
use astra_db.Commands.Database.Deletion
use astra_db.Commands.Database.Lists

pub data Call (S : Type 0) : Type 0 where
  l_push r_push : S → S → Call S
  l_pop r_pop l_len exists del : S → Call S
  l_index : S → ℤ → Call S
  l_set : S → ℤ → S → Call S
  l_range l_trim : S → ℤ → ℤ → Call S
  l_rem : S → S → ℤ → Call S
  l_insert : S → ℤ → S → Bool → Call S
  r_pop_l_push : S → S → Call S

pub data Reply (S : Type 0) : Type 0 where
  flag : Bool → Reply S
  element : Option S → Reply S
  count : ℕ → Reply S
  elements : List S → Reply S

-- The element at an index that may count from the end; from before the start it is the first.
abbrev pub at {ℓ} : {A : Type ℓ} → List A → ℤ → Option A
at xs (pos k) = get_elem? xs k
at xs (negsuc k) = get_elem? xs (length xs - suc k)

module _ {S : Type 0} ⦃e : Eq S⦄ where
  abbrev pub write : (S → List S) → S → List S → S → List S
  write m k xs j = if k == j then xs else m j

  unfoldable pub spec : (S → List S) → Call S → Reply S × (S → List S)
  spec m (l_push k x) = (flag true, write m k (x ∷ m k))
  spec m (r_push k x) = (flag true, write m k (m k ++ x ∷ []))
  spec m (l_pop k) = (element (get_elem? (m k) 0), write m k (drop 1 (m k)))
  spec m (r_pop k) =
      (element (get_elem? (m k) (length (m k) - 1)), write m k (take (length (m k) - 1) (m k)))
  spec m (l_len k) = (count (length (m k)), m)
  spec m (exists k) = (flag (not (is_nil (m k))), m)
  spec m (del k) = (flag (not (is_nil (m k))), write m k [])
  spec m (l_index k i) = (element (at (m k) i), m)
  spec m (l_set k i x) =
      (flag (is_some (position (length (m k)) i)), write m k (Spec.spec (m k) (Spec.set_at i x)))
  spec m (l_range k start stop) = (elements (window start stop (m k)), m)
  spec m (l_trim k start stop) = (flag (not (is_nil (m k))), write m k (window start stop (m k)))
  spec m (l_rem k x c) =
      let n = quota c (occurrences x (m k)) in (count n, write m k (without_first n x (m k)))
  spec m (l_insert k i x before) = (
    flag (is_some (position (length (m k)) i)),
    write m k (Spec.spec (m k) (Spec.insert i x before)),
  )
  spec m (r_pop_l_push source destination) =
      let popped = write m source (take (length (m source) - 1) (m source)) in
      elim (get_elem? (m source) (length (m source) - 1)) [
        | none ↦ (element none, popped)
        | some x ↦ (element (some x), write popped destination (popped destination ++ x ∷ []))
      ]

  -- The replies to a sequence of calls.
  unfoldable pub spec_run : (S → List S) → List (ℤ × Call S) → List (Reply S) × (S → List S)
  spec_run m [] = ([], m)
  spec_run m ((now, c) ∷ calls) =
      let (reply, m') = spec m c in let (replies, m'') = spec_run m' calls in (reply ∷ replies, m'')

module _ {S : Type 0} ⦃e : Eq S⦄ (T : Tables S) where
  abbrev pub on_reply {ℓ} : {R : Type ℓ} → (R → Reply S) → R × Database T → Reply S × Database T
  on_reply f (r, db) = (f r, db)

  unfoldable pub call : ℤ → Database T → Call S → Reply S × Database T
  call now db (l_push k x) = on_reply flag (Lists.l_push T k x db)
  call now db (r_push k x) = on_reply flag (Lists.r_push T k x db)
  call now db (l_pop k) = on_reply element (Lists.l_pop T now k db)
  call now db (r_pop k) = on_reply element (Lists.r_pop T now k db)
  call now db (l_len k) = on_reply count (Lists.l_len T now k db)
  call now db (exists k) = on_reply flag (Database.exists T now k db)
  call now db (del k) = on_reply flag (Deletion.del T k db)
  call now db (l_index k i) = on_reply element (Lists.l_index T now k i db)
  call now db (l_set k i x) = on_reply flag (Lists.l_set T now k i x db)
  call now db (l_range k start stop) = on_reply elements (Lists.l_range T now k start stop db)
  call now db (l_trim k start stop) = on_reply flag (Lists.l_trim T now k start stop db)
  call now db (l_rem k x c) = on_reply count (Lists.l_rem T now k x c db)
  call now db (l_insert k i x before) = on_reply flag (Lists.l_insert T now k i x before db)
  call now db (r_pop_l_push source destination) =
      on_reply element (Lists.r_pop_l_push T now source destination db)

  unfoldable pub run : Database T → List (ℤ × Call S) → List (Reply S) × Database T
  run db [] = ([], db)
  run db ((now, c) ∷ calls) =
      let (reply, db') = call now db c in
      let (replies, db'') = run db' calls in (reply ∷ replies, db'')

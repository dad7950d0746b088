-- ===== src/Commands/ListCommands/Inserting.antt =====
-- LINSERT (src/astra/commands/redis/list_commands.cpp) on the lists that a client sees.
use astra_db.Prelude.{
  ℕ, suc, ◌+◌, ◌-◌, ◌≡◌, refl, ap, ◌∙◌, Bool, true, Option, none, some, List, [], ◌∷◌, ◌++◌, Bytes,
  bytes, bytes_eq, ==_refl, length, length-append, take_of_length-le, ltb, is_some, inl, inr,
  Bool-cases, if◌then◌else◌, arith,
}
use mathlib.Core.Path.{subst}
use astra_db.Prelude.Int.{ℤ, pos, negsuc}
use astra_db.Protocol.Types
use astra_db.Protocol.Types.{RespValue, CommandArg}
use astra_db.Server.Transactions.{CommandResult, response}
use astra_db.Container.LinkedList
use astra_db.Container.LinkedList.Spec as Plain
use astra_db.Container.LinkedList.Spec.{window, position}
use astra_db.Container.LinkedList.Removal.{occurrences}
use astra_db.Commands.Database.{Tables, Database}
use astra_db.Commands.Database.Lists.Spec.{spec, write}
use astra_db.Commands.Database.Lists.Cells.{Stands}
use astra_db.Commands.ListCommands.{handle_l_insert, pivot_index_from, insert_at}
use astra_db.Commands.ListCommands.Stores.{database_store, database_simulates}
use astra_db.Commands.ListCommands.Replies.{Answers, number, arg}

pivot_found :
    (i : ℕ) (pivot : Bytes) (xs ys : List Bytes)
    → occurrences pivot xs ≡ 0
    → pivot_index_from i pivot (xs ++ pivot ∷ ys) ≡ some (i + length xs)
unfolding pivot_index_from occurrences
pivot_found i pivot [] ys h = ground (arith, ==_refl pivot)
pivot_found i pivot (x ∷ xs) ys h = ground (arith, pivot_found (suc i) pivot xs ys)

pivot_missed :
    (i : ℕ) (pivot : Bytes) (xs : List Bytes)
    → occurrences pivot xs ≡ 0
    → pivot_index_from i pivot xs ≡ none
unfolding pivot_index_from occurrences
pivot_missed i pivot [] h = refl
pivot_missed i pivot (x ∷ xs) h = ground (arith, pivot_missed (suc i) pivot xs)

whole : (xs : List Bytes) → window (pos 0) (negsuc 0) xs ≡ xs
whole xs = take_of_length-le (length xs - 0) xs (omega arith)

-- The list with the value next to the pivot behind `xs`.
abbrev pub beside : List Bytes → Bytes → List Bytes → Bytes → Bool → List Bytes
beside xs pivot ys value before =
    if before then xs ++ value ∷ pivot ∷ ys else xs ++ pivot ∷ value ∷ ys

insert_at_end :
    (xs zs : List Bytes) (v : Bytes) → LinkedList.insert_at (length xs) v (xs ++ zs) ≡ xs ++ v ∷ zs
insert_at_end [] zs v = refl
insert_at_end (x ∷ xs) zs v = ap (λ l. x ∷ l) (insert_at_end xs zs v)

insert_behind :
    (xs ys : List Bytes) (p v : Bytes)
    → LinkedList.insert_at (length xs + 1) v (xs ++ p ∷ ys) ≡ xs ++ p ∷ v ∷ ys
insert_behind [] ys p v = refl
insert_behind (x ∷ xs) ys p v =
    let e : suc (length xs) + 1 ≡ suc (length xs + 1) = omega arith in
    rw e (ap (λ l. x ∷ l) (insert_behind xs ys p v))

inserted_there :
    (xs ys : List Bytes) (pivot value : Bytes) (before : Bool)
    → Plain.spec (xs ++ pivot ∷ ys) (Plain.insert (pos (length xs)) value before)
      ≡ beside xs pivot ys value before
unfolding Plain.spec
inserted_there xs ys pivot value before =
    let inside : ltb (length xs) (length (xs ++ pivot ∷ ys)) ≡ true =
      ground (arith, length-append xs (pivot ∷ ys)) in
    elim (Bool-cases before) [
      | inl front ↦ rw (Plain.spec, inside, front) (insert_at_end xs (pivot ∷ ys) value)
      | inr behind ↦ rw (Plain.spec, inside, behind) (insert_behind xs ys pivot value)
    ]

length-beside :
    (xs ys : List Bytes) (pivot value : Bytes) (before : Bool)
    → length (beside xs pivot ys value before) ≡ length (xs ++ pivot ∷ ys) + 1
length-beside xs ys pivot value before = ground (
  arith,
  length-append xs (value ∷ pivot ∷ ys),
  length-append xs (pivot ∷ value ∷ ys),
  length-append xs (pivot ∷ ys),
)

module _ (F : Type 0) (strtoll : Bytes → Option ℤ) (T : Tables Bytes) (now : ℤ) where
  abbrev pub minus_one : CommandResult F
  minus_one = response (RespValue.integer (negsuc 0))

  inserted :
      (key pivot value : Bytes) (before : Bool) (xs ys : List Bytes) (m : Bytes → List Bytes)
      (db : Database T)
      → Stands T m db
      → m key ≡ xs ++ pivot ∷ ys
      → Answers F strtoll T now
          (insert_at F strtoll (database_store T now) key value before (some (length xs)) db)
          (number F strtoll T now (length (m key) + 1))
          (write m key (beside xs pivot ys value before))
  unfolding insert_at spec
  inserted key pivot value before xs ys m db s there =
      let sim = database_simulates T now in
      let (done, stands) = sim.l_insert_sim key (pos (length xs)) value before db m s in
      let after = (database_store T now).l_insert key (pos (length xs)) value before db in
      let l = beside xs pivot ys value before in
      let inside : is_some (position (length (m key)) (pos (length xs))) ≡ true =
        ground (arith, ap (λ (l : List Bytes). length l) there, length-append xs (pivot ∷ ys)) in
      let done' : after.0 ≡ true = done ∙ inside in
      let changed : Plain.spec (m key) (Plain.insert (pos (length xs)) value before) ≡ l =
        rw there (inserted_there xs ys pivot value before) in
      let held : Stands T (write m key l) after.1 =
        subst (λ (l : List Bytes). Stands T (write m key l) after.1) changed stands in
      let (len, measured) = sim.l_len_sim key after.1 (write m key l) held in
      let size : length (write m key l key) ≡ length (m key) + 1 =
        rw (==_refl key, there) (length-beside xs ys pivot value before) in
      rw done' (ap (number F strtoll T now) (len ∙ size), measured)

  abbrev pub l_insert : Bytes → Bool → Bytes → Bytes → Database T → CommandResult F × Database T
  l_insert key before pivot value db =
      let place = if before then bytes "BEFORE" else bytes "AFTER" in
      let text = arg F strtoll T now in
      handle_l_insert F strtoll (database_store T now)
        (text key ∷ text place ∷ text pivot ∷ text value ∷ []) db

  handled :
      (key pivot value : Bytes) (before : Bool) (m : Bytes → List Bytes) (db : Database T)
      → Stands T m db
      → l_insert key before pivot value db
        ≡ insert_at F strtoll
            (database_store T now)
            key
            value
            before
            (pivot_index_from 0 pivot (m key))
            ((database_store T now).l_range key (pos 0) (negsuc 0) db).1
  unfolding handle_l_insert Types.is_bulk_string spec
  handled key pivot value before m db s =
      let (range, ranged) = (database_simulates T now).l_range_sim key (pos 0) (negsuc 0) db m s in
      let values : ((database_store T now).l_range key (pos 0) (negsuc 0) db).0 ≡ m key =
        range ∙ whole (m key) in
      elim (Bool-cases before) [
        | inl front ↦ rw (front, values) refl
        | inr behind ↦ rw (behind, values) refl
      ]

  -- LINSERT of well-formed arguments. If the pivot is in the list, behind the elements xs, none of
  -- which is the pivot, the value comes to stand right before or behind it, whatever follows, and the
  -- reply is the new length. On a list without the pivot the reply is -1, and no list changes.
  pub insert_replies :
      (key other pivot value : Bytes) (before : Bool) (xs ys : List Bytes) (m : Bytes → List Bytes)
      (db : Database T)
      → Stands T m db
      → m key ≡ xs ++ pivot ∷ ys
      → occurrences pivot xs ≡ 0
      → occurrences pivot (m other) ≡ 0
      → Answers F strtoll T now
          (l_insert key before pivot value db)
          (number F strtoll T now (length (m key) + 1))
          (write m key (beside xs pivot ys value before))
        × Answers F strtoll T now (l_insert other before pivot value db) minus_one m
  unfolding insert_at spec
  insert_replies key other pivot value before xs ys m db s there first missing =
      let sim = database_simulates T now in
      let index : pivot_index_from 0 pivot (m key) ≡ some (length xs) =
        rw there (pivot_found 0 pivot xs ys first ∙ ap (λ n. some n) (omega arith)) in
      let db' = ((database_store T now).l_range key (pos 0) (negsuc 0) db).1 in
      let hit = handled key pivot value before m db s in
      let miss = handled other pivot value before m db s in
      (
        rw (hit, index)
            (inserted key pivot value before xs ys m db'
              (sim.l_range_sim key (pos 0) (negsuc 0) db m s).1 there),
        rw (miss, pivot_missed 0 pivot (m other) missing)
            (refl, (sim.l_range_sim other (pos 0) (negsuc 0) db m s).1),
      )

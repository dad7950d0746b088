-- ===== src/Commands/Database/Lists/Calls.antt =====
-- Each list operation of src/astra/commands/database.hpp against the same call on plain lists.
use astra_db.Prelude.{
  ◌-◌, ◌≡◌, inl, inr, refl, sym, ap, ◌∙◌, Bool, true, false, Option, none, some, List, [], ◌∷◌,
  ◌++◌, length, get_elem?, take, drop, Eq, arith,
}
use astra_db.Prelude.Int.{ℤ}
use astra_db.Container.LinkedList
use astra_db.Container.LinkedList.{LinkedList}
use astra_db.Container.LinkedList.Spec.{window}
use astra_db.Container.LinkedList.Ranges
use astra_db.Container.LinkedList.Refines
use astra_db.Container.LinkedList.Removal
use astra_db.Container.LinkedList.Removal.{quota, occurrences, without_first}
use astra_db.Commands.Database.{Tables, Database}
use astra_db.Commands.Database.Lists
use astra_db.Commands.Database.Lists.{
  get_list, put_list, forget_list, list_or_new, on_list, pop_with, shrink_with, change_with,
  read_with,
}
use astra_db.Commands.Database.Lists.Cells.{Stands, same-Stands, list_cases}
use astra_db.Commands.Database.Keys.{exists-absent, exists-present}
use astra_db.Commands.Database.Lists.Plain.{
  quota-zero, position-zero, index-at, at-nil, window-nil, occurrences-nil, without_first-nil,
  set_at-nil, insert-nil, length-set_at, length-insert, get_elem?-is_some,
}
use astra_db.Commands.Database.Lists.Steps.{
  push-Stands, Meets, guarded, pop_lem, shrink_lem, change_lem, whole,
}
use astra_db.Commands.Database.Lists.Deleted.{del-Stands}
use astra_db.Commands.Database.Lists.Spec.{
  Call, Reply, flag, element, count, elements, write, spec, call, l_push, r_push, l_pop, r_pop,
  l_len, exists, del, l_index, l_set, l_range, l_trim, l_rem, l_insert, r_pop_l_push,
}

module _ {S : Type 0} ⦃e : Eq S⦄ (T : Tables S) where
  abbrev reply_element : Reply S → Option S
  reply_element (element o) = o
  reply_element r = none

  module _ (m : S → List S) (db : Database T) (now : ℤ) (s : Stands T m db) where
    l_push_lem : (k x : S) → Meets T m (l_push k x) (call T now db (l_push k x))
    unfolding call spec Lists.l_push
    l_push_lem k x = (
      refl,
      push-Stands T m db k (LinkedList.push_left x) (λ xs. x ∷ xs) s
          (λ l v. Refines.push_left_lem l v x) (λ xs. (x, xs, refl)),
    )

    r_push_lem : (k x : S) → Meets T m (r_push k x) (call T now db (r_push k x))
    unfolding call spec Lists.r_push
    r_push_lem k x = (
      refl,
      push-Stands T m db k (LinkedList.push_right x) (λ xs. xs ++ x ∷ []) s
          (λ l v. Refines.push_right_lem l v x) ends,
    )
      where
        ends : (xs : List S) → (y : S) × (ys : List S) × (xs ++ x ∷ [] ≡ y ∷ ys)
        ends [] = (x, [], refl)
        ends (y ∷ ys) = (y, ys ++ x ∷ [], refl)

    l_pop_lem : (k : S) → Meets T m (l_pop k) (call T now db (l_pop k))
    unfolding call spec Lists.l_pop
    l_pop_lem k =
        guarded T m db now s (l_pop k) k element none (pop_with T LinkedList.pop_left k)
          (λ none_k. rw none_k (refl, same-Stands T m db k [] s none_k))
          (λ p.
            let (left, popped) = Refines.pop_left_lem p.list p.valid in
            let (reply, stands) =
              pop_lem T m db now s k LinkedList.pop_left (get_elem? (m k) 0) (drop 1 (m k)) p
                (rw (← whole T m db now s p) left) (rw (← whole T m db now s p) popped)
                (rw p.here refl) in
            (ap element reply, stands))

    r_pop_lem : (k : S) → Meets T m (r_pop k) (call T now db (r_pop k))
    unfolding call spec Lists.r_pop
    r_pop_lem k =
        guarded T m db now s (r_pop k) k element none (pop_with T LinkedList.pop_right k)
          (λ none_k. rw none_k (refl, same-Stands T m db k [] s none_k))
          (λ p.
            let (left, popped) = Refines.pop_right_lem p.list p.valid in
            let n = length (m k) - 1 in
            let (reply, stands) =
              pop_lem T m db now s k LinkedList.pop_right (get_elem? (m k) n) (take n (m k)) p
                (rw (← whole T m db now s p) left) (rw (← whole T m db now s p) popped)
                (get_elem?-is_some (m k) n (omega (arith, ap length p.here))) in
            (ap element reply, stands))

    l_len_lem : (k : S) → Meets T m (l_len k) (call T now db (l_len k))
    unfolding call spec Lists.l_len
    l_len_lem k =
        guarded T m db now s (l_len k) k count 0 (read_with T LinkedList.size)
          (λ none_k. rw none_k (refl, s))
          (λ p. (ap count (rw (← whole T m db now s p) (Ranges.size_lem p.list)), s))

    l_index_lem : (k : S) (i : ℤ) → Meets T m (l_index k i) (call T now db (l_index k i))
    unfolding call spec Lists.l_index
    l_index_lem k i =
        guarded T m db now s (l_index k i) k element none
          (read_with T (λ list. LinkedList.index list i))
          (λ none_k. rw none_k (ap element (at-nil i), s))
          (λ p. (ap element (rw (← whole T m db now s p) (index-at p.list i)), s))

    l_range_lem : (k : S) (a b : ℤ) → Meets T m (l_range k a b) (call T now db (l_range k a b))
    unfolding call spec Lists.l_range
    l_range_lem k a b =
        guarded T m db now s (l_range k a b) k elements []
          (read_with T (λ list. LinkedList.range list a b))
          (λ none_k. rw none_k (ap elements (sym (window-nil a b)), s))
          (λ p. (ap elements (rw (← whole T m db now s p) (Ranges.range-window p.list a b).0), s))

    l_trim_lem : (k : S) (a b : ℤ) → Meets T m (l_trim k a b) (call T now db (l_trim k a b))
    unfolding call spec Lists.l_trim
    l_trim_lem k a b =
        guarded T m db now s (l_trim k a b) k flag false
          (shrink_with T (λ list. (LinkedList.trim list a b, true)) k)
          (λ none_k. rw none_k (refl, same-Stands T m db k _ s (none_k ∙ sym (window-nil a b))))
          (λ p.
            let (kept, trimmed) = Ranges.range-window p.list a b in
            (
              rw p.here refl,
              shrink_lem T m db now s k (λ list. (LinkedList.trim list a b, true))
                  (window a b (m k)) p
                  (
                    Refines.trim-IsValid p.list p.valid a b,
                    rw (← whole T m db now s p) (trimmed ∙ kept),
                  ),
            ))

    l_rem_lem : (k x : S) (c : ℤ) → Meets T m (l_rem k x c) (call T now db (l_rem k x c))
    unfolding call spec Lists.l_rem
    l_rem_lem k x c =
        guarded T m db now s (l_rem k x c) k count 0
          (shrink_with T (λ list. LinkedList.remove list x c) k)
          (λ none_k. rw none_k (
            ap count (sym (ap (quota c) (occurrences-nil x) ∙ quota-zero c)),
            same-Stands T m db k _ s (none_k ∙ sym (without_first-nil _ x)),
          ))
          (λ p.
            let (left, removed, sum) = Removal.remove_lem p.list x c in
            (
              ap count (rw (← whole T m db now s p) removed),
              shrink_lem T m db now s k (λ list. LinkedList.remove list x c) _ p
                  (Removal.remove-IsValid p.list x c p.valid, rw (← whole T m db now s p) left),
            ))

    l_set_lem : (k : S) (i : ℤ) (x : S) → Meets T m (l_set k i x) (call T now db (l_set k i x))
    unfolding call spec Lists.l_set
    l_set_lem k i x =
        guarded T m db now s (l_set k i x) k flag false
          (change_with T (λ list. LinkedList.set_at list i x) k)
          (λ none_k. rw none_k (
            ap flag (sym (position-zero i)),
            same-Stands T m db k _ s (none_k ∙ sym (set_at-nil i x)),
          ))
          (λ p.
            let (set, done) = Refines.set_at_lem p.list p.valid i x in
            (
              ap flag (rw (← whole T m db now s p) done),
              change_lem T m db now s k (λ list. LinkedList.set_at list i x) _ p
                  (rw (← whole T m db now s p) set) (length-set_at (m k) i x),
            ))

    l_insert_lem :
        (k : S) (i : ℤ) (x : S) (before : Bool)
        → Meets T m (l_insert k i x before) (call T now db (l_insert k i x before))
    unfolding call spec Lists.l_insert
    l_insert_lem k i x before =
        guarded T m db now s (l_insert k i x before) k flag false
          (change_with T (λ list. LinkedList.insert list i x before) k)
          (λ none_k. rw none_k (
            ap flag (sym (position-zero i)),
            same-Stands T m db k _ s (none_k ∙ sym (insert-nil i x before)),
          ))
          (λ p.
            let (set, done) = Refines.insert_lem p.list p.valid i x before in
            (
              ap flag (rw (← whole T m db now s p) done),
              change_lem T m db now s k (λ list. LinkedList.insert list i x before) _ p
                  (rw (← whole T m db now s p) set) (length-insert (m k) i x before),
            ))

    exists_lem : (k : S) → Meets T m (exists k) (call T now db (exists k))
    unfolding call spec
    exists_lem k = elim (list_cases T m db k s) [
      | inl (none_k, missing, unknown) ↦
          let e = exists-absent T now k db unknown in rw (e, none_k) (refl, s)
      | inr p ↦
          let e = exists-present T now k db p.metadata p.known p.lasting in rw (e, p.here) (refl, s)
    ]

  pushed_lem :
      (m : S → List S) (now : ℤ) (j : S) (r : Option S × Database T) (o : Option S)
      → r.0 ≡ o
      → Stands T m r.1
      → let after : Option S × Database T = elim r.0 [
        | none ↦ (none, r.1)
        | some v ↦ (some v, (Lists.r_push T j v r.1).1)
      ] in
        let specified : Reply S × (S → List S) = elim o [
          | none ↦ (element none, m)
          | some x ↦ (element (some x), write m j (m j ++ x ∷ []))
        ] in
        (element after.0 ≡ specified.0) × Stands T specified.1 after.1
  pushed_lem m now j r none h s = rw h (refl, s)
  pushed_lem m now j r (some x) h s =
      rw h (refl, unfold call spec in (r_push_lem m r.1 now s j x).1)

  module _ (m : S → List S) (db : Database T) (now : ℤ) (s : Stands T m db) where
    r_pop_l_push_lem : (k j : S) → Meets T m (r_pop_l_push k j) (call T now db (r_pop_l_push k j))
    unfolding call spec Lists.r_pop_l_push
    r_pop_l_push_lem k j =
        let (reply, stands) = r_pop_lem m db now s k in
        pushed_lem _ now j (Lists.r_pop T now k db) _ (ap reply_element reply) stands

    del_lem : (k : S) → Meets T m (del k) (call T now db (del k))
    unfolding call spec
    del_lem k = let (reply, stands) = del-Stands T m db s k in (ap flag reply, stands)

    -- Each call does and returns what the specification says.
    pub call_lem : (c : Call S) → Meets T m c (call T now db c)
    call_lem (l_push k x) = l_push_lem m db now s k x
    call_lem (r_push k x) = r_push_lem m db now s k x
    call_lem (l_pop k) = l_pop_lem m db now s k
    call_lem (r_pop k) = r_pop_lem m db now s k
    call_lem (l_len k) = l_len_lem m db now s k
    call_lem (exists k) = exists_lem m db now s k
    call_lem (del k) = del_lem k
    call_lem (l_index k i) = l_index_lem m db now s k i
    call_lem (l_set k i x) = l_set_lem m db now s k i x
    call_lem (l_range k a b) = l_range_lem m db now s k a b
    call_lem (l_trim k a b) = l_trim_lem m db now s k a b
    call_lem (l_rem k x c) = l_rem_lem m db now s k x c
    call_lem (l_insert k i x before) = l_insert_lem m db now s k i x before
    call_lem (r_pop_l_push k j) = r_pop_l_push_lem k j

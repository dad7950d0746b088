-- ===== src/Commands/Database/Lists/Steps.antt =====
-- The steps that the list operations of src/astra/commands/database.hpp share: a push, a change of
-- a list behind the guards, and the removal of a list that is left empty.
use astra_db.Prelude.{
  ◌≤◌, ◌≡◌, inl, inr, refl, sym, ap, ◌∙◌, Bool, true, Option, is_some, is_nil, List, [], ◌∷◌,
  length, Eq, if◌then◌else◌, arith,
}
use astra_db.Prelude.Int.{ℤ}
use mathlib.Core.Path.{subst}
use astra_db.Container.LinkedList
use astra_db.Container.LinkedList.{LinkedList}
use astra_db.Container.LinkedList.Spec.{IsValid, items}
use astra_db.Container.LinkedList.Refines
use astra_db.Commands.Database.{Tables, Database}
use astra_db.Commands.Database.Lists.{
  put_list, forget_list, list_or_new, on_list, pop_with, shrink_with, change_with,
}
use astra_db.Commands.Database.Lists.Cells.{
  Stands, Present, put-Stands, new-Stands, forget-Stands, list_cases,
}
use astra_db.Commands.Database.Lists.Guards.{
  on_list-absent, on_list-present, list_or_new-absent, list_or_new-present,
}
use astra_db.Commands.Database.Lists.Spec.{Call, Reply, write, spec, on_reply}

module _ {S : Type 0} ⦃e : Eq S⦄ (T : Tables S) where
  empty-IsValid : IsValid {A = S} LinkedList.empty
  empty-IsValid = record { short = λ h. omega arith; no_deque = λ h. refl; no_vector = λ h. refl }

  -- A push, at either end.
  pub push-Stands :
      (m : S → List S) (db : Database T) (k : S) (f : LinkedList S → LinkedList S)
      (g : List S → List S)
      → Stands T m db
      → ((l : LinkedList S) → IsValid l → Refines.Stands (g (items l)) (f l))
      → ((xs : List S) → (y : S) × (ys : List S) × (g xs ≡ y ∷ ys))
      → let (list, db') = list_or_new T k db in
        Stands T (write m k (g (m k))) (put_list T k (f list) db')
  push-Stands m db k f g s pushes fills =
      let Pushed : LinkedList S × Database T → Type 0 =
        λ r. Stands T (write m k (g (m k))) (put_list T k (f r.0) r.1) in
      elim (list_cases T m db k s) [
        | inl (none_k, missing, unknown) ↦
            let (y, ys, filled) = fills [] in
            let (v, same) = pushes LinkedList.empty empty-IsValid in
            subst Pushed (sym (list_or_new-absent T k db missing))
              (rw (none_k, filled) (new-Stands T m db k _ y ys s v (same ∙ filled) unknown))
        | inr p ↦
            let (y, ys, filled) = fills (p.first ∷ p.rest) in
            let (v, same) = pushes p.list p.valid in
            subst Pushed (sym (list_or_new-present T k db p.list p.found)) (
              rw (p.here, filled)
                (put-Stands T m db k _ p.metadata y ys s v (same ∙ ap g p.same ∙ filled) p.known
                  p.lasting))
      ]

  -- A list that has lost elements stays if some are left, and goes with its key if none is.
  settle-Stands :
      (m : S → List S) (db : Database T) (k : S) (l : LinkedList S) (gone : Bool)
      → Stands T m db
      → Present T m db k
      → IsValid l
      → gone ≡ is_nil (items l)
      → Stands T
          (write m k (items l))
          (if gone then forget_list T k (put_list T k l db) else put_list T k l db)
  settle-Stands m db k l gone s p v h = by_items (items l) refl
    where
      by_items :
          (xs : List S)
          → items l ≡ xs
          → Stands T
              (write m k (items l))
              (if gone then forget_list T k (put_list T k l db) else put_list T k l db)
      by_items [] same = rw (h, same) (forget-Stands T m db k l s)
      by_items (x ∷ xs) same =
          rw (h, same) (put-Stands T m db k l p.metadata x xs s v same p.known p.lasting)

  -- The reply and the lists after a call are those of the specification.
  abbrev pub Meets : (S → List S) → Call S → Reply S × Database T → Type 0
  Meets m c r = (r.0 ≡ (spec m c).0) × Stands T (spec m c).1 r.1

  is_empty-is_nil : (l : LinkedList S) → LinkedList.is_empty l ≡ is_nil (items l)
  unfolding LinkedList.is_empty
  is_empty-is_nil l = ground arith

  module _ (m : S → List S) (db : Database T) (now : ℤ) (s : Stands T m db) where
    -- The operations behind the guards: on a key with no list, and on one with a list.
    pub guarded :
        {R : Type 0} (c : Call S) (k : S) (reply : R → Reply S) (missing : R)
        (act : LinkedList S → Database T → R × Database T)
        → (m k ≡ [] → Meets m c (reply missing, db))
        → ((p : Present T m db k) → Meets m c (on_reply T reply (act p.list db)))
        → Meets m c (on_reply T reply (on_list T now k missing db act))
    guarded c k reply missing act without with_list =
        let Fine : _ = λ r. Meets m c (on_reply T reply r) in
        elim (list_cases T m db k s) [
          | inl (none_k, absent, unknown) ↦
              subst Fine (sym (on_list-absent T now k missing db act unknown)) (without none_k)
          | inr p ↦
              subst Fine
                (sym (
                  on_list-present T now k missing db act p.list p.metadata p.found p.known
                    p.lasting))
                (with_list p)
        ]

    -- A pop of `o`, which is an element, that leaves `xs`.
    pub pop_lem :
        (k : S) (pop : LinkedList S → Option S × LinkedList S) (o : Option S) (xs : List S)
        (p : Present T m db k)
        → Refines.Stands xs (pop p.list).1
        → (pop p.list).0 ≡ o
        → is_some o ≡ true
        → ((pop_with T pop k p.list db).0 ≡ o)
          × Stands T (write m k xs) (pop_with T pop k p.list db).1
    pop_lem k pop o xs p (v, left) popped an_element = (
      popped,
      rw (popped, an_element, ← left)
          (settle-Stands m db k (pop p.list).1 _ s p v (is_empty-is_nil (pop p.list).1)),
    )

    pub shrink_lem :
        {R : Type 0} (k : S) (change : LinkedList S → LinkedList S × R) (xs : List S)
        (p : Present T m db k)
        → Refines.Stands xs (change p.list).0
        → Stands T (write m k xs) (shrink_with T change k p.list db).1
    shrink_lem k change xs p (v, left) =
        rw (← left)
          (settle-Stands m db k (change p.list).0 _ s p v (is_empty-is_nil (change p.list).0))

    -- A change that leaves as many elements or more.
    pub change_lem :
        (k : S) (change : LinkedList S → LinkedList S × Bool) (xs : List S) (p : Present T m db k)
        → Refines.Stands xs (change p.list).0
        → length (m k) ≤ length xs
        → Stands T (write m k xs) (change_with T change k p.list db).1
    change_lem k change [] p (v, left) longer = absurd (omega (arith, ap length p.here))
    change_lem k change (x ∷ xs) p (v, left) longer =
        put-Stands T m db k _ p.metadata x xs s v left p.known p.lasting

    pub whole : {k : S} (p : Present T m db k) → items p.list ≡ m k
    whole p = p.same ∙ sym p.here

-- ===== src/Container/LinkedList/Refines.antt =====
-- Every operation of src/astra/container/linked_list.hpp keeps the representation invariant, and
-- does to the list that it stands for what the operation on plain lists does.
use astra_db.Prelude.{
  ℕ, zero, suc, ◌+◌, ◌-◌, ◌≤◌, ◌≡◌, ◌⊎◌, refl, ap, ◌∙◌, Bool, none, some, List, [], ◌∷◌, ◌++◌,
  length, take, drop, arith, length-append, length-set, length-take, length-drop, foldl, is_some,
  get_elem?, inl, inr, Option-cases,
}
use astra_db.Prelude.Int.{ℤ}
use astra_db.Container.LinkedList
use astra_db.Container.LinkedList.{LinkedList, pop_back, insert_at, bounds}
use astra_db.Container.LinkedList.Spec.{
  IsValid, items, position, Call, push_left, push_right, pop_left, pop_right, clear, set_at, insert,
  trim, spec, call,
}
use astra_db.Container.LinkedList.Ranges.{refused_lem, position_lem, range-window}

-- The new representation is valid, and stands for `xs`.
abbrev pub Stands : {A : Type 0} → List A → LinkedList A → Type 0
Stands xs l = IsValid l × (items l ≡ xs)

module _ {A : Type 0} where
  pop_back_lem :
      (x : A) (xs : List A)
      → (z : A) × (pop_back (x ∷ xs) ≡ some (z, take (length xs) (x ∷ xs)))
        × (get_elem? (x ∷ xs) (length xs) ≡ some z)
  unfolding pop_back
  pop_back_lem x [] = (x, refl, refl)
  pop_back_lem x (y ∷ ys) = let (z, popped, last) = pop_back_lem y ys in (z, rw popped, last)

  pop_back_nil : pop_back {A = A} [] ≡ none
  unfolding pop_back
  pop_back_nil = refl

  -- What `pop_back` leaves and returns, as a test on the list.
  pop_back_cases :
      (xs : List A)
      → ((xs ≡ []) × (pop_back xs ≡ none))
        ⊎ ((z : A) × (pop_back xs ≡ some (z, take (length xs - 1) xs))
            × (get_elem? xs (length xs - 1) ≡ some z)
            × (length (take (length xs - 1) xs) ≤ length xs))
  pop_back_cases [] = inl (refl, pop_back_nil)
  pop_back_cases (x ∷ xs) =
      let (z, popped, last) = pop_back_lem x xs in
      let e : suc (length xs) - 1 ≡ length xs = omega arith in
      inr (z, rw e popped, rw e last, omega (arith, length-take (suc (length xs) - 1) (x ∷ xs)))

  pub length-insert_at : (n : ℕ) (x : A) (xs : List A) → length (insert_at n x xs) ≡ suc (length xs)
  length-insert_at zero x xs = refl
  length-insert_at (suc n) x [] = refl
  length-insert_at (suc n) x (y ∷ ys) = ap suc (length-insert_at n x ys)

module _ {A : Type 0} (l : LinkedList A) (v : IsValid l) where
  pub push_left_lem : (x : A) → Stands (x ∷ items l) (LinkedList.push_left x l)
  unfolding LinkedList.push_left
  push_left_lem x = (ground arith, ground arith)

  pub push_right_lem : (x : A) → Stands (items l ++ x ∷ []) (LinkedList.push_right x l)
  unfolding LinkedList.push_right
  push_right_lem x = (ground (arith, length-append l.vector_ (x ∷ [])), ground arith)

  pub pop_left_lem :
      Stands (drop 1 (items l)) (LinkedList.pop_left l).1
      × ((LinkedList.pop_left l).0 ≡ get_elem? (items l) 0)
  unfolding LinkedList.pop_left
  pop_left_lem = (ground arith, ground arith)

  pub pop_right_lem :
      Stands (take (length (items l) - 1) (items l)) (LinkedList.pop_right l).1
      × ((LinkedList.pop_right l).0 ≡ get_elem? (items l) (length (items l) - 1))
  unfolding LinkedList.pop_right
  pop_right_lem =
      (ground (arith, pop_back_cases (items l)), ground (arith, pop_back_cases (items l)))

  clear_lem : Stands [] (LinkedList.clear l)
  unfolding LinkedList.clear
  clear_lem = (ground arith, ground arith)

  pub set_at_lem :
      (i : ℤ) (x : A)
      → Stands (spec (items l) (set_at i x)) (LinkedList.set_at l i x).0
        × ((LinkedList.set_at l i x).1 ≡ is_some (position (length (items l)) i))
  unfolding LinkedList.set_at spec
  set_at_lem i x =
      let n = length (items l) in
      elim (Option-cases (position n i)) [
        | inl e ↦ ground (arith, refused_lem n i)
        | inr (k, e) ↦ ground (arith, position_lem n i e, length-set l.vector_ k x)
      ]

  pub insert_lem :
      (i : ℤ) (x : A) (before : Bool)
      → Stands (spec (items l) (insert i x before)) (LinkedList.insert l i x before).0
        × ((LinkedList.insert l i x before).1 ≡ is_some (position (length (items l)) i))
  unfolding LinkedList.insert spec
  insert_lem i x before =
      let n = length (items l) in
      elim (Option-cases (position n i)) [
        | inl e ↦ ground (arith, refused_lem n i)
        | inr (k, e) ↦ ground (
          arith,
          position_lem n i e,
          length-insert_at k x l.vector_,
          length-insert_at (k + 1) x l.vector_,
        )
      ]

  pub trim-IsValid : (start stop : ℤ) → IsValid (LinkedList.trim l start stop)
  unfolding LinkedList.trim
  trim-IsValid start stop = elim (Option-cases (bounds (LinkedList.size l) start stop)) [
    | inl e ↦ ground arith
    | inr (p, e) ↦
        ground (arith, length-drop p.0 (take (p.1 + 1) l.vector_), length-take (p.1 + 1) l.vector_)
  ]

  call-Stands : (c : Call A) → Stands (spec (items l) c) (call l c)
  unfolding call spec
  call-Stands (push_left x) = push_left_lem x
  call-Stands (push_right x) = push_right_lem x
  call-Stands pop_left = pop_left_lem.0
  call-Stands pop_right = pop_right_lem.0
  call-Stands clear = clear_lem
  call-Stands (set_at i x) = unfold spec in (set_at_lem i x).0
  call-Stands (insert i x before) = (insert_lem i x before).0
  call-Stands (trim start stop) =
      let (whole, kept) = range-window l start stop in (trim-IsValid start stop, kept ∙ whole)

module _ {A : Type 0} where
  -- From a valid list, any sequence of pushes, pops, writes, insertions, trims and clears leads
  -- to a valid list, and leaves the elements that the same sequence leaves on a plain list: where
  -- the elements are held, and when they move to the deque, cannot be seen.
  pub run-Stands :
      (calls : List (Call A)) (l : LinkedList A)
      → IsValid l
      → IsValid (foldl call l calls) × (items (foldl call l calls) ≡ foldl spec (items l) calls)
  run-Stands [] l v = (v, refl)
  run-Stands (c ∷ calls) l v =
      let (v', e) = call-Stands l v c in
      let (valid, same) = run-Stands calls (call l c) v' in (valid, rw (← e) same)

  -- What the calls return: a pop the element at its end of the list, or nothing if the list is
  -- empty; `Set` and `Insert` whether the index, which may count from the end, lies in the list.
  results :
      (l : LinkedList A) (i : ℤ) (x : A) (before : Bool)
      → IsValid l
      → ((LinkedList.pop_left l).0 ≡ get_elem? (items l) 0)
        × ((LinkedList.pop_right l).0 ≡ get_elem? (items l) (length (items l) - 1))
        × ((LinkedList.set_at l i x).1 ≡ is_some (position (length (items l)) i))
        × ((LinkedList.insert l i x before).1 ≡ is_some (position (length (items l)) i))
  results l i x before v = (
    (pop_left_lem l v).1,
    (pop_right_lem l v).1,
    (set_at_lem l v i x).1,
    (insert_lem l v i x before).1,
  )

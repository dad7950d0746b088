-- ===== src/Container/LinkedList/Removal.antt =====
-- `Remove` of src/astra/container/linked_list.hpp.
use astra_db.Prelude.{
  ℕ, zero, suc, ◌+◌, ◌≤◌, min, ◌≡◌, refl, sym, ap, true, false, List, [], ◌∷◌, length, Eq, ◌==◌,
  Bool-cases, inl, inr, if◌then◌else◌, arith,
}
use astra_db.Prelude.Int.{ℤ, pos, negsuc, ltb_ℤ}
use astra_db.Container.LinkedList.{LinkedList, remove, remove_loop}
use astra_db.Container.LinkedList.Spec.{IsValid, items}

-- How many of `found` occurrences a call with `count` takes out.
abbrev pub quota : ℤ → ℕ → ℕ
quota (pos zero) found = found
quota (pos (suc c)) found = min (suc c) found
quota (negsuc c) found = found

quota-le : (count : ℤ) (found : ℕ) → quota count found ≤ found
quota-le (pos zero) found = omega arith
quota-le (pos (suc c)) found = omega arith
quota-le (negsuc c) found = omega arith

module _ {A : Type 0} ⦃e : Eq A⦄ where
  unfoldable pub occurrences : A → List A → ℕ
  occurrences a [] = 0
  occurrences a (x ∷ xs) = if x == a then suc (occurrences a xs) else occurrences a xs

  -- The list without the first `n` occurrences of `a`.
  unfoldable pub without_first : ℕ → A → List A → List A
  without_first n a [] = []
  without_first zero a (x ∷ xs) = x ∷ xs
  without_first (suc n) a (x ∷ xs) =
      let less = without_first n a xs in
      let same = without_first (suc n) a xs in if x == a then less else x ∷ same

  without_first_zero : (a : A) (xs : List A) → without_first 0 a xs ≡ xs
  unfolding without_first
  without_first_zero a [] = refl
  without_first_zero a (x ∷ xs) = refl

  without_first_hit :
      (a x : A) (xs : List A) (n : ℕ)
      → (x == a) ≡ true
      → without_first (suc n) a (x ∷ xs) ≡ without_first n a xs
  unfolding without_first
  without_first_hit a x xs n h = rw h

  without_first_miss :
      (a x : A) (xs : List A) (n : ℕ)
      → (x == a) ≡ false
      → without_first n a (x ∷ xs) ≡ x ∷ without_first n a xs
  unfolding without_first
  without_first_miss a x xs zero h = ap (◌∷◌ x) (sym (without_first_zero a xs))
  without_first_miss a x xs (suc n) h = rw h

  loop_all :
      (a : A) (count : ℤ) (xs : List A) (r : ℕ)
      → ltb_ℤ (pos 0) count ≡ false
      → remove_loop a count r xs ≡ (without_first (occurrences a xs) a xs, r + occurrences a xs)
  unfolding remove_loop occurrences
  loop_all a count [] r h = ground (arith, without_first_zero a [])
  loop_all a count (x ∷ xs) r h = elim (Bool-cases (x == a)) [
    | inl p ↦
        ground (arith, loop_all a count xs (r + 1) h, without_first_hit a x xs (occurrences a xs) p)
    | inr p ↦
        ground (arith, loop_all a count xs r h, without_first_miss a x xs (occurrences a xs) p)
  ]

  loop_some :
      (a : A) (xs : List A) (c r m : ℕ)
      → c ≡ r + suc m
      → remove_loop a (pos c) r xs
        ≡ (without_first (min (suc m) (occurrences a xs)) a xs, r + min (suc m) (occurrences a xs))
  unfolding remove_loop occurrences
  loop_some a [] c r m h = ground (arith, without_first_zero a [])
  loop_some a (x ∷ xs) c r zero h = elim (Bool-cases (x == a)) [
    | inl p ↦
        let one : min 1 (suc (occurrences a xs)) ≡ suc 0 = omega arith in
        rw (p, one) (ground (arith, without_first_hit a x xs 0 p, without_first_zero a xs))
    | inr p ↦
        let k = min 1 (occurrences a xs) in
        ground (arith, loop_some a xs c r 0 h, without_first_miss a x xs k p)
  ]
  loop_some a (x ∷ xs) c r (suc m) h = elim (Bool-cases (x == a)) [
    | inl p ↦
        let k = min (suc m) (occurrences a xs) in
        let more : min (suc (suc m)) (suc (occurrences a xs)) ≡ suc k = omega arith in
        rw (p, more)
          (ground (arith, loop_some a xs c (r + 1) m (omega arith), without_first_hit a x xs k p))
    | inr p ↦
        let k = min (suc (suc m)) (occurrences a xs) in
        ground (arith, loop_some a xs c r (suc m) h, without_first_miss a x xs k p)
  ]

  remove_loop_lem :
      (a : A) (count : ℤ) (xs : List A)
      → remove_loop a count 0 xs
        ≡ (without_first (quota count (occurrences a xs)) a xs, quota count (occurrences a xs))
  remove_loop_lem a (pos zero) xs = ground (arith, loop_all a (pos 0) xs 0 refl)
  remove_loop_lem a (pos (suc c)) xs = ground (arith, loop_some a xs (suc c) 0 c (omega arith))
  remove_loop_lem a (negsuc c) xs = ground (arith, loop_all a (negsuc c) xs 0 (ground arith))

  length-without_first :
      (n : ℕ) (a : A) (xs : List A)
      → n ≤ occurrences a xs
      → length (without_first n a xs) + n ≡ length xs
  unfolding occurrences
  length-without_first n a [] h = ground (arith, without_first_zero a [])
  length-without_first zero a (x ∷ xs) h = rw without_first_zero (omega arith)
  length-without_first (suc n) a (x ∷ xs) h = elim (Bool-cases (x == a)) [
    | inl p ↦ ground (arith, without_first_hit a x xs n p, length-without_first n a xs)
    | inr p ↦ ground (arith, without_first_miss a x xs (suc n) p, length-without_first (suc n) a xs)
  ]

  -- `Remove` takes out the first `count` occurrences of the value if `count` is positive, and all
  -- of them otherwise, a negative count included; it leaves every other element in its place,
  -- returns how many it took out, and the size falls by that number.
  pub remove_lem :
      (l : LinkedList A) (a : A) (count : ℤ)
      → let n = quota count (occurrences a (items l)) in
        (items (remove l a count).0 ≡ without_first n a (items l))
        × ((remove l a count).1 ≡ n)
        × (length (items (remove l a count).0) + n ≡ length (items l))
  unfolding remove
  remove_lem l a count =
      let n = quota count (occurrences a (items l)) in
      ground (
        arith,
        remove_loop_lem a count (items l),
        length-without_first n a (items l) (quota-le count (occurrences a (items l))),
      )

  pub remove-IsValid :
      (l : LinkedList A) (a : A) (count : ℤ) → IsValid l → IsValid (remove l a count).0
  unfolding remove
  remove-IsValid l a count v =
      let n = quota count (occurrences a (items l)) in
      ground (
        arith,
        remove_loop_lem a count (items l),
        length-without_first n a (items l) (quota-le count (occurrences a (items l))),
      )

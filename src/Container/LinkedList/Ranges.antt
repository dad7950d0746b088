-- ===== src/Container/LinkedList/Ranges.antt =====
-- The index arithmetic of `Index`, `Set`, `Insert`, `Range` and `Trim` of
-- src/astra/container/linked_list.hpp.
use astra_db.Prelude.{
  ℕ, zero, suc, ◌+◌, ◌-◌, ◌<◌, min, ◌≡◌, refl, sym, ◌∙◌, ap, false, none, some, is_some, not, List,
  [], ◌∷◌, length, get_elem?, take, drop, ltb, leb, if◌then◌else◌, arith, inl, inr, Bool-cases,
  length-take, drop_of_length-le, take_of_length-le, get_elem?-none_of_length-le,
}
use astra_db.Prelude.Int.{ℤ, pos, negsuc, pos_part}
use astra_db.Container.LinkedList.{
  LinkedList, wrap, refused, bounds, slice, size, range, index, trim,
}
use astra_db.Container.LinkedList.Spec.{position, lower, upper, items, window}

pub refused_lem : (n : ℕ) (i : ℤ) → refused n i ≡ not (is_some (position n i))
refused_lem n (pos k) = ground arith
refused_lem n (negsuc k) = ground arith

pub position_lem :
    (n : ℕ) (i : ℤ) {k : ℕ}
    → position n i ≡ some k
    → (pos_part (wrap n (negsuc 0) i) ≡ k) × (k < n) × (refused n i ≡ false)
position_lem n (pos j) h = ground arith
position_lem n (negsuc j) h = ground arith

pub bounds_lem :
    (n : ℕ) (start stop : ℤ)
    → bounds n start stop ≡ (
        if ltb (lower n start) (min (upper n stop) n)
        then some (lower n start, min (upper n stop) n - 1)
        else none)
bounds_lem n (pos a) (pos b) = ground arith
bounds_lem n (pos a) (negsuc b) = ground arith
bounds_lem n (negsuc a) (pos b) = ground arith
bounds_lem n (negsuc a) (negsuc b) = ground arith

module _ {A : Type 0} where
  take-nil : (b : ℕ) → take {A = A} b [] ≡ []
  take-nil zero = refl
  take-nil (suc b) = refl

  pub slice-drop : (a b : ℕ) (xs : List A) → slice a b xs ≡ drop a (take b xs)
  slice-drop zero b xs = let e : b - 0 ≡ b = omega arith in rw e
  slice-drop (suc a) b [] = rw (take-nil, take-nil)
  slice-drop (suc a) zero (x ∷ xs) = let e : 0 - suc a ≡ 0 = omega arith in rw e
  slice-drop (suc a) (suc b) (x ∷ xs) =
      let e : suc b - suc a ≡ b - a = omega arith in rw e (slice-drop a b xs)

  pub take-min : (n : ℕ) (xs : List A) → take (min n (length xs)) xs ≡ take n xs
  take-min n xs = elim (Bool-cases (leb n (length xs))) [
    | inl h ↦ let e : min n (length xs) ≡ n = ground arith in rw e
    | inr h ↦
        let e : min n (length xs) ≡ length xs = ground arith in
        rw e (
          take_of_length-le (length xs) xs (omega arith)
          ∙ sym (take_of_length-le n xs (ground arith)))
  ]

  -- Both bounds applied: the early returns leave exactly the empty windows.
  pub window_lem :
      (start stop : ℤ) (xs : List A)
      → elim (bounds (length xs) start stop) [ none ↦ [] | some (a, b) ↦ slice a (b + 1) xs ]
        ≡ window start stop xs
  window_lem start stop xs =
      let n = length xs in
      let a = lower n start in
      let b = min (upper n stop) n in
      rw bounds_lem (elim (Bool-cases (ltb a b)) [
        | inl h ↦
            let e : b - 1 + 1 ≡ b = ground arith in
            rw (h, e)
              (slice-drop a b xs ∙ ap (λ (t : List A). drop a t) (take-min (upper n stop) xs))
        | inr h ↦ rw h (
            sym (
              drop_of_length-le a (take (upper n stop) xs)
                (ground (arith, length-take (upper n stop) xs))))
      ])

  pub size_lem : (l : LinkedList A) → size l ≡ length (items l)
  unfolding size
  size_lem l = ground arith

  range_lem : (l : LinkedList A) (start stop : ℤ) → range l start stop ≡ window start stop (items l)
  unfolding range
  range_lem l start stop = ground (arith, window_lem start stop (items l))

  -- The two `erase` calls keep what `Range` copies.
  erase_lem :
      (start stop : ℤ) (xs : List A)
      → elim (bounds (length xs) start stop) [ none ↦ [] | some (a, b) ↦ drop a (take (b + 1) xs) ]
        ≡ window start stop xs
  erase_lem start stop xs =
      let n = length xs in
      let a = lower n start in
      let b = min (upper n stop) n in
      rw bounds_lem (elim (Bool-cases (ltb a b)) [
        | inl h ↦
            let e : b - 1 + 1 ≡ b = ground arith in
            rw (h, e) (ap (λ (t : List A). drop a t) (take-min (upper n stop) xs))
        | inr h ↦ rw h (
            sym (
              drop_of_length-le a (take (upper n stop) xs)
                (ground (arith, length-take (upper n stop) xs))))
      ])

  trim_lem :
      (l : LinkedList A) (start stop : ℤ) → items (trim l start stop) ≡ window start stop (items l)
  unfolding trim
  trim_lem l start stop = ground (arith, erase_lem start stop (items l))

  -- `Range` returns the window of the list between its bounds, whichever representation holds it,
  -- and `Trim` keeps exactly what `Range` with the same bounds returns.
  pub range-window :
      (l : LinkedList A) (start stop : ℤ)
      → (range l start stop ≡ window start stop (items l))
        × (items (trim l start stop) ≡ range l start stop)
  range-window l start stop =
      (range_lem l start stop, trim_lem l start stop ∙ sym (range_lem l start stop))

  -- `Index` at k ≥ 0 is the element at k; at -k it is the element k places before the end, and
  -- the first element of a list that is not empty where the list is shorter than k.
  pub index_lem :
      (l : LinkedList A) (k : ℕ)
      → (index l (pos k) ≡ get_elem? (items l) k)
        × (index l (negsuc k) ≡ get_elem? (items l) (length (items l) - suc k))
  unfolding index size
  index_lem l k = (
    ground (arith, get_elem?-none_of_length-le (items l) k),
    ground (arith, get_elem?-none_of_length-le (items l) (length (items l) - suc k)),
  )

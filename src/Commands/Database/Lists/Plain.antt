-- ===== src/Commands/Database/Lists/Plain.antt =====
-- What the list operations (src/astra/commands/database.hpp) do to plain lists, the empty one
-- included.
use astra_db.Prelude.{
  ℕ, zero, suc, ◌+◌, ◌≤◌, ◌<◌, ◌≡◌, inl, inr, refl, Bool, true, false, none, is_some, List, [], ◌∷◌,
  length, get_elem?, take, drop, Eq, arith, Option-cases, length-set,
}
use astra_db.Prelude.Int.{ℤ, pos, negsuc}
use astra_db.Container.LinkedList
use astra_db.Container.LinkedList.{LinkedList}
use astra_db.Container.LinkedList.Spec.{IsValid, items, position, window, lower, upper}
use astra_db.Container.LinkedList.Ranges
use astra_db.Container.LinkedList.Refines
use astra_db.Container.LinkedList.Removal.{quota, occurrences, without_first}
use astra_db.Commands.Database.Lists.Spec.{at}

-- The other operations on an empty list.
pub quota-zero : (c : ℤ) → quota c 0 ≡ 0
quota-zero (pos zero) = refl
quota-zero (pos (suc c)) = omega arith
quota-zero (negsuc c) = refl

pub position-zero : (i : ℤ) → is_some (position 0 i) ≡ false
position-zero (pos k) = ground arith
position-zero (negsuc k) = ground arith

module _ {S : Type 0} ⦃e : Eq S⦄ where
  pub index-at : (l : LinkedList S) (i : ℤ) → LinkedList.index l i ≡ at (items l) i
  index-at l (pos k) = (Ranges.index_lem l k).0
  index-at l (negsuc k) = (Ranges.index_lem l k).1

  pub at-nil : (i : ℤ) → none ≡ at {A = S} [] i
  at-nil (pos k) = refl
  at-nil (negsuc k) = refl

  pub take-nil : (n : ℕ) → take {A = S} n [] ≡ []
  take-nil zero = refl
  take-nil (suc n) = refl

  pub drop-nil : (n : ℕ) → drop {A = S} n [] ≡ []
  drop-nil zero = refl
  drop-nil (suc n) = refl

  pub window-nil : (a b : ℤ) → window {A = S} a b [] ≡ []
  window-nil a b = rw (take-nil (upper 0 b), drop-nil (lower 0 a)) refl

  pub occurrences-nil : (x : S) → occurrences x [] ≡ 0
  unfolding occurrences
  occurrences-nil x = refl

  pub without_first-nil : (n : ℕ) (x : S) → without_first n x [] ≡ []
  unfolding without_first
  without_first-nil n x = refl

  pub set_at-nil : (i : ℤ) (x : S) → LinkedList.Spec.spec [] (LinkedList.Spec.set_at i x) ≡ []
  unfolding LinkedList.Spec.spec
  set_at-nil i x = ground (arith, position-zero i)

  pub insert-nil :
      (i : ℤ) (x : S) (before : Bool)
      → LinkedList.Spec.spec [] (LinkedList.Spec.insert i x before) ≡ []
  unfolding LinkedList.Spec.spec
  insert-nil i x before = ground (arith, position-zero i)

  pub length-set_at :
      (xs : List S) (i : ℤ) (x : S)
      → length xs ≤ length (LinkedList.Spec.spec xs (LinkedList.Spec.set_at i x))
  unfolding LinkedList.Spec.spec
  length-set_at xs i x = elim (Option-cases (position (length xs) i)) [
    | inl e ↦ ground arith
    | inr (k, e) ↦ ground (arith, length-set xs k x)
  ]

  pub length-insert :
      (xs : List S) (i : ℤ) (x : S) (before : Bool)
      → length xs ≤ length (LinkedList.Spec.spec xs (LinkedList.Spec.insert i x before))
  unfolding LinkedList.Spec.spec
  length-insert xs i x before = elim (Option-cases (position (length xs) i)) [
    | inl e ↦ ground arith
    | inr (k, e) ↦
        ground (arith, Refines.length-insert_at k x xs, Refines.length-insert_at (k + 1) x xs)
  ]

  pub get_elem?-is_some : (xs : List S) (i : ℕ) → i < length xs → is_some (get_elem? xs i) ≡ true
  get_elem?-is_some [] i h = absurd (omega arith)
  get_elem?-is_some (x ∷ xs) zero h = refl
  get_elem?-is_some (x ∷ xs) (suc i) h = get_elem?-is_some xs i (omega arith)

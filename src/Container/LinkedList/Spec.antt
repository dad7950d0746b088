-- ===== src/Container/LinkedList/Spec.antt =====
-- The list that a `LinkedList` (src/astra/container/linked_list.hpp) stands for, its
-- representation invariant, and each operation on plain lists, indices included, with no regard
-- to the two representations.
use astra_db.Prelude.{
  ℕ, suc, ◌+◌, ◌-◌, ◌≤◌, ◌≡◌, Bool, true, false, Option, none, some, List, [], ◌∷◌, ◌++◌, length,
  set, take, drop, ltb, if◌then◌else◌,
}
use astra_db.Prelude.Int.{ℤ, pos, negsuc}
use astra_db.Container.LinkedList
use astra_db.Container.LinkedList.{LinkedList, list_vector_threshold, insert_at}

-- Where an index that may count from the end points.
abbrev pub position : ℕ → ℤ → Option ℕ
position n (pos k) = if ltb k n then some k else none
position n (negsuc k) = if ltb k n then some (n - suc k) else none

-- The first position from `start` on, and the first behind `stop`.
abbrev pub lower : ℕ → ℤ → ℕ
lower n (pos k) = k
lower n (negsuc k) = n - suc k

abbrev pub upper : ℕ → ℤ → ℕ
upper n (pos k) = suc k
upper n (negsuc k) = n - k

module _ {A : Type 0} where
  abbrev pub items : LinkedList A → List A
  items l = if l.use_vector_ then l.vector_ else l.deque_

  pub record IsValid (l : LinkedList A) : Type 0 where
    pub short : l.use_vector_ ≡ true → length l.vector_ ≤ list_vector_threshold
    pub no_deque : l.use_vector_ ≡ true → l.deque_ ≡ []
    pub no_vector : l.use_vector_ ≡ false → l.vector_ ≡ []

  -- The elements from `start` to `stop`.
  abbrev pub window : ℤ → ℤ → List A → List A
  window start stop xs = drop (lower (length xs) start) (take (upper (length xs) stop) xs)

pub data Call (A : Type 0) : Type 0 where
  push_left push_right : A → Call A
  pop_left pop_right clear : Call A
  set_at : ℤ → A → Call A
  insert : ℤ → A → Bool → Call A
  trim : ℤ → ℤ → Call A

module _ {A : Type 0} where
  unfoldable pub spec : List A → Call A → List A
  spec xs (push_left x) = x ∷ xs
  spec xs (push_right x) = xs ++ x ∷ []
  spec xs pop_left = drop 1 xs
  spec xs pop_right = take (length xs - 1) xs
  spec xs clear = []
  spec xs (set_at i x) = elim (position (length xs) i) [ none ↦ xs | some k ↦ set xs k x ]
  spec xs (insert i x before) = elim (position (length xs) i) [
    | none ↦ xs
    | some k ↦ insert_at (if before then k else k + 1) x xs
  ]
  spec xs (trim start stop) = window start stop xs

  unfoldable pub call : LinkedList A → Call A → LinkedList A
  call l (push_left x) = LinkedList.push_left x l
  call l (push_right x) = LinkedList.push_right x l
  call l pop_left = (LinkedList.pop_left l).1
  call l pop_right = (LinkedList.pop_right l).1
  call l clear = LinkedList.clear l
  call l (set_at i x) = (LinkedList.set_at l i x).0
  call l (insert i x before) = (LinkedList.insert l i x before).0
  call l (trim start stop) = LinkedList.trim l start stop

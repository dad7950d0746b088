-- ===== src/Container/LinkedList.antt =====
-- src/astra/container/linked_list.hpp: a list that lives in a `std::vector` while it is short and
-- in a `std::deque` once it has passed the threshold. An `int64_t` index is an integer; `size +
-- index` is formed for negative indices alone, so it does not overflow. `MemoryUsage`, which
-- reads the vector's capacity, is not modelled.
pub mod Spec
pub mod Refines
pub mod Ranges
pub mod Removal
use astra_db.Prelude.{
  ℕ, zero, suc, ◌+◌, ◌-◌, Bool, true, false, ◌&&◌, Option, none, some, List, [], ◌∷◌, ◌++◌, length,
  get_elem?, set, take, drop, Eq, ◌==◌, ltb, leb, nat_eqb, if◌then◌else◌,
}
use astra_db.Prelude.Int.{ℤ, pos, negsuc, pos_part, is_neg, ◌+ℤ◌, ltb_ℤ, leb_ℤ}

abbrev pub list_vector_threshold : ℕ
list_vector_threshold = 256

pub record LinkedList (A : Type 0) : Type 0 where
  pub use_vector_ : Bool
  pub vector_ : List A
  pub deque_ : List A

-- `if (index < 0) { index = size + index; if (index < 0) index = below; }`
abbrev pub wrap : ℕ → ℤ → ℤ → ℤ
wrap size below index =
    if is_neg index then (let j = pos size +ℤ index in if is_neg j then below else j) else index

-- A negative index that is still negative after the size is added is refused.
abbrev pub refused : ℕ → ℤ → Bool
refused n i =
    if nat_eqb n 0
    then true
    else if is_neg (wrap n (negsuc 0) i)
    then true
    else leb_ℤ (pos n) (wrap n (negsuc 0) i)

-- The bounds that `Range` and `Trim` compute; `none` where they return early.
abbrev pub bounds : ℕ → ℤ → ℤ → Option (ℕ × ℕ)
bounds n start stop =
    let a = wrap n (pos 0) start in
    let b = wrap n (negsuc 0) stop in
    let b' = if leb_ℤ (pos n) b then pos (n - 1) else b in
    if nat_eqb n 0
    then none
    else if leb_ℤ (pos n) a
    then none
    else if ltb_ℤ b' a
    then none
    else some (pos_part a, pos_part b')

module _ {A : Type 0} where
  abbrev pub empty : LinkedList A
  empty = record { use_vector_ = true; vector_ = []; deque_ = [] }

  -- `std::vector::pop_back` with `back`
  unfoldable pub pop_back : List A → Option (A × List A)
  pop_back [] = none
  pop_back (x ∷ []) = some (x, [])
  pop_back (x ∷ y ∷ ys) = elim (pop_back (y ∷ ys)) [ none ↦ none | some (z, zs) ↦ some (z, x ∷ zs) ]

  unfoldable pub pop_front : List A → Option (A × List A)
  pop_front [] = none
  pop_front (x ∷ xs) = some (x, xs)

  -- `insert(begin() + n, value)`
  abbrev pub insert_at : ℕ → A → List A → List A
  insert_at zero v xs = v ∷ xs
  insert_at (suc n) v [] = v ∷ []
  insert_at (suc n) v (x ∷ xs) = x ∷ insert_at n v xs

  unfoldable pub check_convert_to_deque : LinkedList A → LinkedList A
  check_convert_to_deque l =
      if l.use_vector_ && ltb list_vector_threshold (length l.vector_)
      then record { use_vector_ = false; vector_ = []; deque_ = l.deque_ ++ l.vector_ }
      else l

  unfoldable pub push_left : A → LinkedList A → LinkedList A
  unfolding check_convert_to_deque
  push_left value l =
      if l.use_vector_
      then check_convert_to_deque (record l { vector_ = value ∷ l.vector_ })
      else record l { deque_ = value ∷ l.deque_ }

  unfoldable pub push_right : A → LinkedList A → LinkedList A
  unfolding check_convert_to_deque
  push_right value l =
      if l.use_vector_
      then check_convert_to_deque (record l { vector_ = l.vector_ ++ value ∷ [] })
      else record l { deque_ = l.deque_ ++ value ∷ [] }

  store : LinkedList A → Bool → Option (A × List A) → Option A × LinkedList A
  store l use_vector none = (none, l)
  store l true (some (x, xs)) = (some x, record l { vector_ = xs })
  store l false (some (x, xs)) = (some x, record l { deque_ = xs })

  unfoldable pub pop_left : LinkedList A → Option A × LinkedList A
  unfolding store pop_front
  pop_left l = store l l.use_vector_ (pop_front (if l.use_vector_ then l.vector_ else l.deque_))

  unfoldable pub pop_right : LinkedList A → Option A × LinkedList A
  unfolding store
  pop_right l = store l l.use_vector_ (pop_back (if l.use_vector_ then l.vector_ else l.deque_))

  unfoldable pub size : LinkedList A → ℕ
  size l = if l.use_vector_ then length l.vector_ else length l.deque_

  unfoldable pub is_empty : LinkedList A → Bool
  is_empty l = nat_eqb (if l.use_vector_ then length l.vector_ else length l.deque_) 0

  unfoldable pub clear : LinkedList A → LinkedList A
  clear l = if l.use_vector_ then record l { vector_ = [] } else record l { deque_ = [] }

  unfoldable pub index : LinkedList A → ℤ → Option A
  unfolding size
  index l i =
      let n = size l in
      let k = wrap n (pos 0) i in
      if nat_eqb n 0
      then none
      else if leb_ℤ (pos n) k
      then none
      else if l.use_vector_
      then get_elem? l.vector_ (pos_part k)
      else get_elem? l.deque_ (pos_part k)

  unfoldable pub set_at : LinkedList A → ℤ → A → LinkedList A × Bool
  unfolding size
  set_at l i value =
      let k = pos_part (wrap (size l) (negsuc 0) i) in
      if refused (size l) i
      then (l, false)
      else if l.use_vector_
      then (record l { vector_ = set l.vector_ k value }, true)
      else (record l { deque_ = set l.deque_ k value }, true)

  unfoldable pub insert : LinkedList A → ℤ → A → Bool → LinkedList A × Bool
  unfolding size check_convert_to_deque
  insert l pivot_index value before =
      let k = pos_part (wrap (size l) (negsuc 0) pivot_index) in
      let at = if before then k else k + 1 in
      if refused (size l) pivot_index
      then (l, false)
      else if l.use_vector_
      then (check_convert_to_deque (record l { vector_ = insert_at at value l.vector_ }), true)
      else (record l { deque_ = insert_at at value l.deque_ }, true)

  -- `[begin() + first, begin() + last)`
  abbrev pub slice : ℕ → ℕ → List A → List A
  slice first last xs = take (last - first) (drop first xs)

  unfoldable pub range : LinkedList A → ℤ → ℤ → List A
  unfolding size
  range l start stop = elim (bounds (size l) start stop) [
    | none ↦ []
    | some (a, b) ↦ if l.use_vector_ then slice a (b + 1) l.vector_ else slice a (b + 1) l.deque_
  ]

  -- On an empty list `Trim` returns at once; there `Clear` changes nothing either.
  unfoldable pub trim : LinkedList A → ℤ → ℤ → LinkedList A
  unfolding size clear
  trim l start stop = elim (bounds (size l) start stop) [
    | none ↦ if nat_eqb (size l) 0 then l else clear l
    | some (a, b) ↦
        if l.use_vector_
        then record l { vector_ = drop a (take (b + 1) l.vector_) }
        else record l { deque_ = drop a (take (b + 1) l.deque_) }
  ]

module _ {A : Type 0} ⦃e : Eq A⦄ where
  -- The loop of `Remove`, with the number removed so far; what is left of the elements behind it.
  unfoldable pub remove_loop : A → ℤ → ℕ → List A → List A × ℕ
  remove_loop value count removed [] = ([], removed)
  remove_loop value count removed (x ∷ xs) =
      let erased = remove_loop value count (removed + 1) xs in
      let kept = remove_loop value count removed xs in
      if x == value
      then (if ltb_ℤ (pos 0) count && leb_ℤ count (pos (removed + 1))
          then (xs, removed + 1)
          else erased)
      else (x ∷ kept.0, kept.1)

  unfoldable pub remove : LinkedList A → A → ℤ → LinkedList A × ℕ
  unfolding remove_loop
  remove l value count =
      if l.use_vector_
      then (let r = remove_loop value count 0 l.vector_ in (record l { vector_ = r.0 }, r.1))
      else (let r = remove_loop value count 0 l.deque_ in (record l { deque_ = r.0 }, r.1))

-- ===== src/Abseil/Assoc.antt =====
-- Association lists with each key once, by which the interface of the tables is read and met.
use astra_db.Prelude.{
  ◌+◌, ◌≡◌, refl, Option, none, some, is_some, List, [], ◌∷◌, Eq, ◌==◌, length, if◌then◌else◌,
  arith,
}

module _ {K V : Type 0} ⦃e : Eq K⦄ where
  unfoldable pub lookup : K → List (K × V) → Option V
  lookup k [] = none
  lookup k ((j, v) ∷ l) = if j == k then some v else lookup k l

  unfoldable pub insert : K → V → List (K × V) → List (K × V)
  insert k v [] = (k, v) ∷ []
  insert k v ((j, w) ∷ l) = if j == k then (k, v) ∷ l else (j, w) ∷ insert k v l

  unfoldable pub without : K → List (K × V) → List (K × V)
  without k [] = []
  without k ((j, v) ∷ l) = let rest = without k l in if j == k then rest else (j, v) ∷ rest

  pub lookup-nil : (j : K) → lookup j [] ≡ none
  unfolding lookup
  lookup-nil j = refl

  pub lookup-insert :
      (k : K) (v : V) (l : List (K × V)) (j : K)
      → lookup j (insert k v l) ≡ (if k == j then some v else lookup j l)
  unfolding lookup insert
  lookup-insert k v [] j = refl
  lookup-insert k v ((i, w) ∷ l) j =
      ground (arith, e.beq_iff k j, e.beq_iff i k, e.beq_iff i j, lookup-insert k v l j)

  pub lookup-without :
      (k : K) (l : List (K × V)) (j : K)
      → lookup j (without k l) ≡ (if k == j then none else lookup j l)
  unfolding lookup without
  lookup-without k [] j = ground arith
  lookup-without k ((i, w) ∷ l) j =
      ground (arith, e.beq_iff k j, e.beq_iff i k, e.beq_iff i j, lookup-without k l j)

  pub length-insert :
      (k : K) (v : V) (l : List (K × V))
      → length (insert k v l) ≡ (if is_some (lookup k l) then length l else length l + 1)
  unfolding lookup insert
  length-insert k v [] = omega arith
  length-insert k v ((i, w) ∷ l) = ground (arith, length-insert k v l)

  -- Each key at most once.
  abbrev pub Distinct : List (K × V) → Type 0
  Distinct [] = Unit {0}
  Distinct ((k, v) ∷ l) = (lookup k l ≡ none) × Distinct l

  pub Distinct-insert : (k : K) (v : V) (l : List (K × V)) → Distinct l → Distinct (insert k v l)
  unfolding insert lookup
  Distinct-insert k v [] d = (refl, tt)
  Distinct-insert k v ((i, w) ∷ l) d =
      ground (arith, e.beq_iff i k, e.beq_iff k i, lookup-insert k v l i, Distinct-insert k v l)

  pub Distinct-without : (k : K) (l : List (K × V)) → Distinct l → Distinct (without k l)
  unfolding without lookup
  Distinct-without k [] d = tt
  Distinct-without k ((i, w) ∷ l) d = ground (arith, lookup-without k l i, Distinct-without k l)

  without_absent : (k : K) (l : List (K × V)) → lookup k l ≡ none → without k l ≡ l
  unfolding without lookup
  without_absent k [] h = refl
  without_absent k ((i, w) ∷ l) h = ground (arith, without_absent k l)

  pub length-without :
      (k : K) (l : List (K × V))
      → Distinct l
      → length (without k l) + (if is_some (lookup k l) then 1 else 0) ≡ length l
  unfolding without lookup
  length-without k [] d = omega arith
  length-without k ((i, w) ∷ l) d =
      ground (arith, e.beq_iff i k, without_absent i l, length-without k l)

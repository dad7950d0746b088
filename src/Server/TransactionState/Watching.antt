-- ===== src/Server/TransactionState/Watching.antt =====
-- What WATCH records and how a change is noticed (src/astra/server/transaction_state.cpp).
use astra_db.Prelude.{
  ℕ, ◌≡◌, ◌↔◌, refl, sym, false, Option, some, List, [], ◌∷◌, Bytes, bytes_eq, nat_eq, nat_eqb_iff,
  ◌==◌, arith, Option-cases, Bool-cases, inl, inr, list_beq_iff,
}
use mathlib.Core.Path.{subst, fun_ext}
use astra_db.Abseil.{FlatHashMap, lookup}
use astra_db.Server.TransactionState
use astra_db.Server.TransactionState.{TransactionState, TransactionStateStore, find, any_modified}

module _ (S : FlatHashMap Bytes (Unit {0})) (W : FlatHashMap Bytes ℕ)
    (get_version : Bytes → ℕ) where
  -- Every key of `keys` has the version that `versions` recorded for it, if it recorded one.
  abbrev pub Unchanged : W.Table → (Bytes → Option (Unit {0})) → Type 0
  Unchanged versions watched =
      (k : Bytes) (v : ℕ) → watched k ≡ some tt → W.find versions k ≡ some v → get_version k ≡ v

  lookup_head :
      (k : Bytes) (u : Unit {0}) (l : List (Bytes × Unit {0})) → lookup k ((k, u) ∷ l) ≡ some tt
  unfolding lookup
  lookup_head k u l = ground (arith, list_beq_iff k k)

  lookup_tail :
      (k j : Bytes) (u : Unit {0}) (l : List (Bytes × Unit {0}))
      → lookup k l ≡ some tt
      → lookup k ((j, u) ∷ l) ≡ some tt
  unfolding lookup
  lookup_tail k j u l h = ground (arith, list_beq_iff k k)

  Unchanged-of :
      (versions : W.Table) (l : List (Bytes × Unit {0}))
      → any_modified S W get_version versions l ≡ false
      → Unchanged versions (λ k. lookup k l)
  unfolding any_modified lookup
  Unchanged-of versions [] h k v w r = cc
  Unchanged-of versions ((j, u) ∷ l) h k v w r = elim (Bool-cases (j == k)) [
    | inl p ↦ ground (arith, list_beq_iff j k, nat_eqb_iff (get_version j) v)
    | inr p ↦
        Unchanged-of versions l (ground (arith, Option-cases (W.find versions j))) k v
          (ground arith) r
  ]

  any_of :
      (versions : W.Table) (l : List (Bytes × Unit {0}))
      → Unchanged versions (λ k. lookup k l)
      → any_modified S W get_version versions l ≡ false
  unfolding any_modified
  any_of versions [] h = refl
  any_of versions ((j, u) ∷ l) h =
      let ih = any_of versions l (λ k v w r. h k v (lookup_tail k j u l w) r) in
      elim (Option-cases (W.find versions j)) [
        | inl e ↦ ground arith
        | inr (v, e) ↦ ground (arith, h j v (lookup_head j u l) e, nat_eqb_iff (get_version j) v)
      ]

  -- `IsWatchedKeyModified` answers false exactly when every key that the connection watches, and
  -- for which a version was recorded, still has that version.
  pub unmodified_iff :
      (T : FlatHashMap ℕ (TransactionState S W)) (s : TransactionStateStore S W T) (c : ℕ)
      (x : TransactionState S W)
      → find S W T s c ≡ some x
      → (TransactionState.is_watched_key_modified S W T s c get_version ≡ false)
        ↔ Unchanged x.watched_key_versions (S.find x.watched_keys)
  unfolding TransactionState.is_watched_key_modified
  unmodified_iff T s c x there =
      let entries = S.entries x.watched_keys in
      let versions = x.watched_key_versions in
      let same : (λ k. lookup k entries) ≡ S.find x.watched_keys =
        fun_ext (S.lookup-entries x.watched_keys) in
      rw (there, TransactionState.is_watched_key_modified)
        (
          (λ h. subst (Unchanged versions) same (Unchanged-of versions entries h)),
          (λ h. any_of versions entries (subst (Unchanged versions) (sym same) h)),
        )

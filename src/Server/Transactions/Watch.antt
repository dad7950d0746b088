-- ===== src/Server/Transactions/Watch.antt =====
-- What the loop of WATCH (`HandleWatch`, src/astra/commands/redis/transaction_commands.cpp) leaves
-- in the state of the connection.
use mathlib.Core.Path.{subst}
use astra_db.Prelude.{
  ℕ, ◌≡◌, refl, Bool, false, ◌||◌, some, List, [], ◌∷◌, Bytes, bytes_eq, nat_eq, ◌==◌, list_beq_iff,
  if◌then◌else◌, arith, Bool-cases, inl, inr,
}
use astra_db.Abseil.{FlatHashMap}
use astra_db.Protocol.Types
use astra_db.Protocol.Types.{Command, CommandArg}
use astra_db.Server.TransactionState
use astra_db.Server.TransactionState.{TransactionState, TransactionStateStore, find, at, fresh}
use astra_db.Server.Transactions.{watch_all}

-- Whether WATCH with these arguments watches `k`: the arguments that are bulk strings count.
abbrev pub watches : Bytes → List CommandArg → Bool
watches k [] = false
watches k (arg ∷ args) =
    (if Types.is_bulk_string arg then arg.value_ == k else false) || watches k args

module _ (F : Type 0) (S : FlatHashMap Bytes (Unit {0})) (W : FlatHashMap Bytes ℕ)
    (T : FlatHashMap ℕ (TransactionState S W)) where
  -- What the loop of WATCH leaves in the state of the connection, from the state `y`.
  pub record Watched (version : Bytes → ℕ) (args : List CommandArg) (y z : TransactionState S W)
      : Type 0 where
    pub mode : z.in_transaction ≡ y.in_transaction
    pub keys :
        (k : Bytes)
        → S.find z.watched_keys k ≡ (if watches k args then some tt else S.find y.watched_keys k)
    pub versions :
        (k : Bytes)
        → W.find z.watched_key_versions k
          ≡ (if watches k args then some (version k) else W.find y.watched_key_versions k)

  at-watch_key :
      (s : TransactionStateStore S W T) (c : ℕ) (k : Bytes) (v : ℕ)
      → at S W T (TransactionState.watch_key S W T c k v s) c ≡ record (at S W T s c) {
        watched_keys = S.insert_or_assign k tt (at S W T s c).watched_keys;
        watched_key_versions = W.insert_or_assign k v (at S W T s c).watched_key_versions;
      }
  unfolding TransactionState.watch_key
  at-watch_key s c k v =
      let x = record (at S W T s c) {
        watched_keys = S.insert_or_assign k tt (at S W T s c).watched_keys;
        watched_key_versions = W.insert_or_assign k v (at S W T s c).watched_key_versions;
      } in
      ground (arith, T.find-insert c x s.states_ c)

  pub watch_all_lem :
      (version : Bytes → ℕ) (c : ℕ) (args : List CommandArg) (s : TransactionStateStore S W T)
      → Watched version args (at S W T s c) (at S W T (watch_all F S W T version c args s) c)
  unfolding watch_all
  watch_all_lem version c [] s = record { mode = refl; keys = λ k. refl; versions = λ k. refl }
  watch_all_lem version c (arg ∷ args) s = elim (Bool-cases (Types.is_bulk_string arg)) [
    | inl bulk ↦
        let k₀ = arg.value_ in
        let s' = TransactionState.watch_key S W T c k₀ (version k₀) s in
        let y = at S W T s c in
        let ih =
          subst (λ y'. Watched version args y' (at S W T (watch_all F S W T version c args s') c))
            (at-watch_key s c k₀ (version k₀)) (watch_all_lem version c args s') in
        rw bulk (record {
          mode = ih.mode;
          keys = λ k. ground (arith, bulk, ih.keys k, S.find-insert k₀ tt y.watched_keys k);
          versions = λ k. ground (
            arith,
            bulk,
            ih.versions k,
            list_beq_iff k₀ k,
            W.find-insert k₀ (version k₀) y.watched_key_versions k,
          );
        })
    | inr other ↦
        let ih = watch_all_lem version c args s in
        rw other (record {
          mode = ih.mode;
          keys = λ k. ground (arith, other, ih.keys k);
          versions = λ k. ground (arith, other, ih.versions k);
        })
  ]

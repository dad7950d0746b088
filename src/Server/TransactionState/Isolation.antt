-- ===== src/Server/TransactionState/Isolation.antt =====
-- Connections do not see one another, and the store keeps nothing of an idle connection
-- (src/astra/server/transaction_state.cpp).
use astra_db.Prelude.{
  ℕ, ◌≡◌, refl, sym, ap, ◌∙◌, true, false, Option, none, some, List, [], ◌∷◌, ◌++◌, is_nil, foldl,
  Bytes, bytes_eq, nat_eq, nat_eqb, nat_eqb_iff, if◌then◌else◌, arith, Option-cases, Bool-cases,
  inl, inr,
}
use astra_db.Abseil.{FlatHashMap}
use astra_db.Abseil.Size.{size-insert_pos}
use mathlib.Core.Path.{subst}
use astra_db.Protocol.Types.{Command}
use astra_db.Server.TransactionState
use astra_db.Server.TransactionState.{
  TransactionState, TransactionStateStore, find, fresh, is_vacant,
}

-- The calls that change the store, for one connection.
pub data Call : Type 0 where
  begin_transaction clear_queued_commands discard_transaction : Call
  queue_command : Command → Call
  watch_key : Bytes → ℕ → Call
  clear_watched_keys clear_connection_state : Call

module _ (S : FlatHashMap Bytes (Unit {0})) (W : FlatHashMap Bytes ℕ)
    (T : FlatHashMap ℕ (TransactionState S W)) where
  unfoldable pub call : TransactionStateStore S W T → ℕ × Call → TransactionStateStore S W T
  call s (c, begin_transaction) = TransactionState.begin_transaction S W T c s
  call s (c, queue_command cmd) = TransactionState.queue_command S W T c cmd s
  call s (c, clear_queued_commands) = TransactionState.clear_queued_commands S W T c s
  call s (c, discard_transaction) = TransactionState.discard_transaction S W T c s
  call s (c, watch_key key version) = TransactionState.watch_key S W T c key version s
  call s (c, clear_watched_keys) = TransactionState.clear_watched_keys S W T c s
  call s (c, clear_connection_state) = TransactionState.clear_connection_state S W T c s

  -- What is stored for a connection after a call for it.
  abbrev vacate : TransactionState S W → Option (TransactionState S W)
  vacate x = if is_vacant S W T x then none else some x

  abbrev or_fresh : Option (TransactionState S W) → TransactionState S W
  or_fresh none = fresh S W
  or_fresh (some x) = x

  unfoldable pub after : Option (TransactionState S W) → Call → Option (TransactionState S W)
  after o begin_transaction =
      some (record (or_fresh o) { in_transaction = true; queued_commands = [] })
  after o (queue_command cmd) =
      some (record (or_fresh o) { queued_commands = (or_fresh o).queued_commands ++ cmd ∷ [] })
  after none clear_queued_commands = none
  after (some x) clear_queued_commands = vacate (record x { queued_commands = [] })
  after o discard_transaction = none
  after o (watch_key key version) = some (record (or_fresh o) {
    watched_keys = S.insert_or_assign key tt (or_fresh o).watched_keys;
    watched_key_versions = W.insert_or_assign key version (or_fresh o).watched_key_versions;
  })
  after none clear_watched_keys = none
  after (some x) clear_watched_keys =
      vacate (record x { watched_keys = S.empty; watched_key_versions = W.empty })
  after o clear_connection_state = none

  find-write :
      (s : TransactionStateStore S W T) (c d : ℕ) (x : TransactionState S W)
      → find S W T (TransactionState.write S W T c x s) d
        ≡ (if nat_eqb c d then some x else find S W T s d)
  find-write s c d x = T.find-insert c x s.states_ d

  find-maybe_erase :
      (s : TransactionStateStore S W T) (c d : ℕ) (x : TransactionState S W)
      → find S W T (TransactionState.maybe_erase S W T c (TransactionState.write S W T c x s)) d
        ≡ (if nat_eqb c d then vacate x else find S W T s d)
  unfolding TransactionState.maybe_erase
  find-maybe_erase s c d x =
      let t = T.insert_or_assign c x s.states_ in
      ground
        (arith, T.find-insert c x s.states_ c, T.find-insert c x s.states_ d, T.find-erase c t d)

  own :
      (s : TransactionStateStore S W T) (c d : ℕ) (o : Option (TransactionState S W)) (k : Call)
      → find S W T s c ≡ o
      → find S W T (call s (c, k)) d ≡ (if nat_eqb c d then after o k else find S W T s d)
  unfolding call after
  own s c d none begin_transaction e =
      let x = record (fresh S W) { in_transaction = true; queued_commands = [] } in
      unfold TransactionState.begin_transaction in ground (arith, find-write s c d x)
  own s c d (some y) begin_transaction e =
      let x = record y { in_transaction = true; queued_commands = [] } in
      unfold TransactionState.begin_transaction in ground (arith, find-write s c d x)
  own s c d none (queue_command cmd) e =
      let x = record (fresh S W) { queued_commands = cmd ∷ [] } in
      unfold TransactionState.queue_command in ground (arith, find-write s c d x)
  own s c d (some y) (queue_command cmd) e =
      let x = record y { queued_commands = y.queued_commands ++ cmd ∷ [] } in
      unfold TransactionState.queue_command in ground (arith, find-write s c d x)
  own s c d none clear_queued_commands e =
      unfold TransactionState.clear_queued_commands in ground (arith, nat_eqb_iff c d)
  own s c d (some y) clear_queued_commands e =
      let x = record y { queued_commands = [] } in
      unfold TransactionState.clear_queued_commands in ground (arith, find-maybe_erase s c d x)
  own s c d none discard_transaction e =
      unfold TransactionState.discard_transaction in ground (arith, nat_eqb_iff c d)
  own s c d (some y) discard_transaction e =
      unfold TransactionState.discard_transaction in ground (arith, T.find-erase c s.states_ d)
  own s c d none (watch_key key version) e =
      let x = record (fresh S W) {
        watched_keys = S.insert_or_assign key tt S.empty;
        watched_key_versions = W.insert_or_assign key version W.empty;
      } in
      unfold TransactionState.watch_key in ground (arith, find-write s c d x)
  own s c d (some y) (watch_key key version) e =
      let x = record y {
        watched_keys = S.insert_or_assign key tt y.watched_keys;
        watched_key_versions = W.insert_or_assign key version y.watched_key_versions;
      } in
      unfold TransactionState.watch_key in ground (arith, find-write s c d x)
  own s c d none clear_watched_keys e =
      unfold TransactionState.clear_watched_keys in ground (arith, nat_eqb_iff c d)
  own s c d (some y) clear_watched_keys e =
      let x = record y { watched_keys = S.empty; watched_key_versions = W.empty } in
      unfold TransactionState.clear_watched_keys in ground (arith, find-maybe_erase s c d x)
  own s c d o clear_connection_state e =
      unfold TransactionState.clear_connection_state in T.find-erase c s.states_ d

  pub find-call :
      (s : TransactionStateStore S W T) (c d : ℕ) (k : Call)
      → find S W T (call s (c, k)) d
        ≡ (if nat_eqb c d then after (find S W T s d) k else find S W T s d)
  find-call s c d k = elim (Bool-cases (nat_eqb c d)) [
    | inl same ↦ ground (arith, nat_eqb_iff c d, own s c d (find S W T s c) k refl)
    | inr other ↦ ground (arith, own s c d (find S W T s c) k refl)
  ]

  -- The calls of a sequence that are for the connection `d`.
  unfoldable pub calls_of : ℕ → List (ℕ × Call) → List Call
  calls_of d [] = []
  calls_of d ((c, k) ∷ calls) =
      let rest = calls_of d calls in if nat_eqb c d then k ∷ rest else rest

  -- What is stored for a connection after any interleaving of the calls of all connections is what
  -- its own calls make of it, in their order: the other connections leave no trace in it.
  pub isolation :
      (calls : List (ℕ × Call)) (s : TransactionStateStore S W T) (d : ℕ)
      → find S W T (foldl call s calls) d ≡ foldl after (find S W T s d) (calls_of d calls)
  unfolding calls_of
  isolation [] s d = refl
  isolation ((c, k) ∷ calls) s d =
      ground (arith, isolation calls (call s (c, k)) d, find-call s c d k)

  abbrev Busy : Option (TransactionState S W) → Type 0
  Busy none = Unit {0}
  Busy (some x) = is_vacant S W T x ≡ false

  append-not_nil : (xs : List Command) (c : Command) → is_nil (xs ++ c ∷ []) ≡ false
  append-not_nil [] c = refl
  append-not_nil (x ∷ xs) c = refl

  vacate-Busy : (x : TransactionState S W) → Busy (vacate x)
  vacate-Busy x = elim (Bool-cases (is_vacant S W T x)) [ inl h ↦ rw h tt | inr h ↦ rw h h ]

  after-Busy : (o : Option (TransactionState S W)) (k : Call) → Busy (after o k)
  unfolding after
  after-Busy o begin_transaction = refl
  after-Busy o (queue_command cmd) = ground (arith, append-not_nil (or_fresh o).queued_commands cmd)
  after-Busy none clear_queued_commands = tt
  after-Busy (some x) clear_queued_commands = vacate-Busy (record x { queued_commands = [] })
  after-Busy o discard_transaction = tt
  after-Busy o (watch_key key version) =
      ground (arith, size-insert_pos S key tt (or_fresh o).watched_keys)
  after-Busy none clear_watched_keys = tt
  after-Busy (some x) clear_watched_keys =
      vacate-Busy (record x { watched_keys = S.empty; watched_key_versions = W.empty })
  after-Busy o clear_connection_state = tt

  run-Busy :
      (calls : List Call) (o : Option (TransactionState S W)) → Busy o → Busy (foldl after o calls)
  run-Busy [] o h = h
  run-Busy (k ∷ calls) o h = run-Busy calls (after o k) (after-Busy o k)

  abbrev pub reached : List (ℕ × Call) → TransactionStateStore S W T
  reached calls = foldl call (TransactionState.init S W T) calls

  -- From an empty store, after any calls of any connections, a connection that is not in a
  -- transaction, has no queued command and watches no key has no entry in the store at all.
  idle_is_forgotten :
      (calls : List (ℕ × Call)) (d : ℕ)
      → TransactionState.is_in_transaction S W T (reached calls) d ≡ false
      → TransactionState.get_queued_commands S W T (reached calls) d ≡ []
      → S.size (TransactionState.get_watched_keys S W T (reached calls) d) ≡ 0
      → find S W T (reached calls) d ≡ none
  unfolding TransactionState.is_in_transaction TransactionState.get_queued_commands
      TransactionState.get_watched_keys
  idle_is_forgotten calls d out no_queue no_watch =
      let s = foldl call (TransactionState.init S W T) calls in
      let from : find S W T s d ≡ foldl after none (calls_of d calls) =
        isolation calls (TransactionState.init S W T) d
        ∙ ap (λ o. foldl after o (calls_of d calls)) (T.find-empty d) in
      elim (Option-cases (find S W T s d)) [
        | inl gone ↦ gone
        | inr (x, there) ↦
            let busy : Busy (some x) =
              subst Busy (sym from ∙ there) (run-Busy (calls_of d calls) none tt) in
            ground arith
      ]

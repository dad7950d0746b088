-- ===== src/Server/Worker/Session.antt =====
-- A whole optimistic transaction of one connection: WATCH, MULTI, commands, EXEC
-- (`Worker::ExecutorLoop`, src/astra/server/worker.hpp). Between these calls the database may be
-- changed by others in any way.
use mathlib.Core.Path.{subst}
use mathlib.Core.List.{append-nil, append_assoc}
use astra_db.Prelude.{
  ℕ, ◌≡◌, ◌≢◌, refl, ap, ◌∙◌, true, false, Option, nat_eqb, none, some, List, [], ◌∷◌, ◌++◌, foldl,
  Bytes, bytes_eq, nat_eq, if◌then◌else◌, arith, is_nil,
}
use astra_db.Abseil.{FlatHashMap}
use astra_db.Protocol.Types.{Command}
use astra_db.Server.TransactionState
use astra_db.Server.TransactionState.{TransactionState, TransactionStateStore, find, at, fresh}
use astra_db.Server.Transactions
use astra_db.Server.Transactions.{watch_all}
use astra_db.Server.Worker.{
  Shard, Worker, exec_array, null_array, control_of, Control, is_first_key_local,
  are_watch_keys_local, execute_all, process, refusal, handle_control,
}
use astra_db.Server.Worker.Exec.{exec_decides, enqueue_step}
use astra_db.Server.Transactions.Watch.{watches, Watched, watch_all_lem}

-- The commands that MULTI queues: no control commands, with their first key on this worker.
abbrev pub Queueable : {D : Type 0} → Shard D → List Command → Type 0
Queueable sh [] = Unit {0}
Queueable sh (command ∷ commands) =
    (control_of sh command.name ≡ none)
    × (is_first_key_local sh command ≡ true)
    × Queueable sh commands

-- The commands one after the other on the database, with their replies in order.
abbrev pub in_order : {D : Type 0} → Shard D → List Command → D → List Bytes × D
in_order sh [] db = ([], db)
in_order sh (command ∷ commands) db =
    let later = in_order sh commands (sh.execute command db).1 in
    ((sh.execute command db).0 ∷ later.0, later.1)

execute_all_lem :
    {D : Type 0} (sh : Shard D) (q : List Command) (db : D)
    → Queueable sh q
    → execute_all sh q db ≡ in_order sh q db
unfolding execute_all
execute_all_lem sh [] db ok = refl
execute_all_lem sh (command ∷ q) db ok =
    rw (ok.1, execute_all_lem sh q (sh.execute command db).1 ok.2)

module _ {D : Type 0} (F : Type 0) (sh : Shard D) (S : FlatHashMap Bytes (Unit {0}))
    (W : FlatHashMap Bytes ℕ) (T : FlatHashMap ℕ (TransactionState S W)) (c : ℕ) where
  abbrev pub step : Worker D S W T → Command → Worker D S W T
  step w command = (process F sh S W T c w command).1

  queue_lem :
      (q : List Command) (w : Worker D S W T) (x : TransactionState S W)
      → Queueable sh q
      → find S W T w.store c ≡ some x
      → x.in_transaction ≡ true
      → find S W T (foldl step w q).store c
        ≡ some (record x { queued_commands = x.queued_commands ++ q })
  queue_lem [] w x ok there inside = rw append-nil there
  queue_lem (command ∷ q) w x ok there inside =
      let y = record x { queued_commands = x.queued_commands ++ command ∷ [] } in
      let added = (enqueue_step F sh S W T c w command x ok.0 ok.1 there inside).2 c in
      let ih = queue_lem q (step w command) y ok.2 (added ∙ ground arith) inside in
      ih
      ∙ ap (λ (l : List Command). some (record x { queued_commands = l }))
          (append_assoc x.queued_commands (command ∷ []) q)

  watch-step :
      (w : Worker D S W T) (command : Command)
      → control_of sh command.name ≡ some Control.watch
      → are_watch_keys_local sh command.args ≡ true
      → is_nil command.args ≡ false
      → refusal F sh S W T Control.watch command ≡ none
      → find S W T w.store c ≡ none
      → step w command
        ≡ record w { store = watch_all F S W T (sh.version w.db) c command.args w.store }
  unfolding process handle_control Transactions.handle_watch TransactionState.is_in_transaction
  watch-step w command is_watch here args let_in new = ground arith

  multi-step :
      (w : Worker D S W T) (command : Command)
      → control_of sh command.name ≡ some Control.multi
      → refusal F sh S W T Control.multi command ≡ none
      → (at S W T w.store c).in_transaction ≡ false
      → find S W T (step w command).store c
        ≡ some (record (at S W T w.store c) { in_transaction = true; queued_commands = [] })
  unfolding process handle_control Transactions.handle_multi TransactionState.is_in_transaction
      TransactionState.begin_transaction
  multi-step w command is_multi let_in outside =
      let x = record (at S W T w.store c) { in_transaction = true; queued_commands = [] } in
      ground (arith, T.find-insert c x w.store.states_ c)

  -- The state of the worker after WATCH on the database of `w`, MULTI on the database db₁ and the
  -- commands q, when the database has become db₂.
  abbrev pub session : Worker D S W T → Command → Command → List Command → D → D → Worker D S W T
  session w watch multi q db₁ db₂ =
      record (foldl step (step (record (step w watch) { db = db₁ }) multi) q) { db = db₂ }

  -- The state that the transaction has when EXEC arrives: z is what WATCH left.
  session_state :
      (w : Worker D S W T) (watch multi : Command) (q : List Command) (db₁ db₂ : D)
      → control_of sh watch.name ≡ some Control.watch
      → refusal F sh S W T Control.watch watch ≡ none
      → are_watch_keys_local sh watch.args ≡ true
      → is_nil watch.args ≡ false
      → control_of sh multi.name ≡ some Control.multi
      → refusal F sh S W T Control.multi multi ≡ none
      → Queueable sh q
      → find S W T w.store c ≡ none
      → (z : TransactionState S W) × Watched F S W T (sh.version w.db) watch.args (fresh S W) z
        × (find S W T (session w watch multi q db₁ db₂).store c
            ≡ some (record z { in_transaction = true; queued_commands = q }))
  session_state w watch multi q db₁ db₂ is_watch in_watch here args is_multi in_multi ok new =
      let s₁ = watch_all F S W T (sh.version w.db) c watch.args w.store in
      let z = at S W T s₁ c in
      let clean : at S W T w.store c ≡ fresh S W = ground arith in
      let watched =
        subst (λ y. Watched F S W T (sh.version w.db) watch.args y z) clean
          (watch_all_lem F S W T (sh.version w.db) c watch.args w.store) in
      let first = watch-step w watch is_watch here args in_watch new in
      let w₁ : Worker D S W T = record { db = db₁; store = s₁ } in
      let x = record z { in_transaction = true; queued_commands = [] } in
      let begun = multi-step w₁ multi is_multi in_multi watched.mode in
      let filled = queue_lem q (step w₁ multi) x ok begun refl in (z, watched, rw first filled)

  forgotten :
      {here : Option (TransactionState S W)} (there : Option (TransactionState S W))
      → here ≡ (if nat_eqb c c then none else there)
      → here ≡ none
  forgotten there h = ground arith

  -- A connection with no state sends WATCH (with at least one key) and MULTI, which are not refused
  -- for their arguments, the permissions of the user or the cluster, the commands q and EXEC, all for
  -- keys of its worker. Whatever the database has become meanwhile, if every watched
  -- key has at EXEC the version that it had at WATCH, EXEC executes the commands q one after the
  -- other on the database as it is, sends their replies in order, and the connection has no state
  -- again.
  pub optimistic_commit :
      (w : Worker D S W T) (watch multi exec : Command) (q : List Command) (db₁ db₂ : D)
      → control_of sh watch.name ≡ some Control.watch
      → refusal F sh S W T Control.watch watch ≡ none
      → are_watch_keys_local sh watch.args ≡ true
      → is_nil watch.args ≡ false
      → control_of sh multi.name ≡ some Control.multi
      → refusal F sh S W T Control.multi multi ≡ none
      → Queueable sh q
      → control_of sh exec.name ≡ some Control.exec
      → find S W T w.store c ≡ none
      → ((k : Bytes) → watches k watch.args ≡ true → sh.version db₂ k ≡ sh.version w.db k)
      → let done = process F sh S W T c (session w watch multi q db₁ db₂) exec in
        (done.0 ≡ exec_array (in_order sh q db₂).0)
        × (done.1.db ≡ (in_order sh q db₂).1)
        × (find S W T done.1.store c ≡ none)
  optimistic_commit w watch multi exec q db₁ db₂ is_watch in_watch here args is_multi in_multi ok
        is_exec new same =
      let (z, watched, there) =
        session_state w watch multi q db₁ db₂ is_watch in_watch here args is_multi in_multi ok
          new in
      let x = record z { in_transaction = true; queued_commands = q } in
      let w' = session w watch multi q db₁ db₂ in
      let decided = exec_decides F sh S W T c w' exec x is_exec there refl in
      let ran = decided.0.0 (λ k v in_set recorded.
        ground (arith, S.find-empty k, watched.keys k, watched.versions k, same k)) in
      let plain = execute_all_lem sh q db₂ ok in
      (
        ran.0 ∙ ap (λ r. exec_array r.0) plain,
        ran.1 ∙ ap (λ r. r.1) plain,
        forgotten _ (decided.1 c),
      )

  -- In the same exchange, if some watched key has at EXEC another version than it had at WATCH,
  -- EXEC executes nothing, leaves the database alone, sends the null array, and the connection has
  -- no state again.
  pub optimistic_abort :
      (w : Worker D S W T) (watch multi exec : Command) (q : List Command) (db₁ db₂ : D) (k : Bytes)
      → control_of sh watch.name ≡ some Control.watch
      → refusal F sh S W T Control.watch watch ≡ none
      → are_watch_keys_local sh watch.args ≡ true
      → is_nil watch.args ≡ false
      → control_of sh multi.name ≡ some Control.multi
      → refusal F sh S W T Control.multi multi ≡ none
      → Queueable sh q
      → control_of sh exec.name ≡ some Control.exec
      → find S W T w.store c ≡ none
      → watches k watch.args ≡ true
      → sh.version db₂ k ≢ sh.version w.db k
      → let done = process F sh S W T c (session w watch multi q db₁ db₂) exec in
        (done.0 ≡ null_array) × (done.1.db ≡ db₂) × (find S W T done.1.store c ≡ none)
  optimistic_abort w watch multi exec q db₁ db₂ k is_watch in_watch here args is_multi in_multi ok
        is_exec new in_set changed =
      let (z, watched, there) =
        session_state w watch multi q db₁ db₂ is_watch in_watch here args is_multi in_multi ok
          new in
      let x = record z { in_transaction = true; queued_commands = q } in
      let w' = session w watch multi q db₁ db₂ in
      let decided = exec_decides F sh S W T c w' exec x is_exec there refl in
      let kept = decided.0.1 (λ unchanged. changed (
        unchanged k (sh.version w.db k) (ground (arith, watched.keys k))
          (ground (arith, watched.versions k)))) in
      (kept.0, kept.1, forgotten _ (decided.1 c))

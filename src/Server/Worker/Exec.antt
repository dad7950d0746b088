-- ===== src/Server/Worker/Exec.antt =====
-- Transactions as a client sees them (`Worker::ExecutorLoop`, src/astra/server/worker.hpp, with the
-- handlers of src/astra/commands/redis/transaction_commands.cpp).
use astra_db.Prelude.{
  ℕ, ◌≡◌, refl, true, none, some, [], ◌∷◌, ◌++◌, Bytes, bytes_eq, nat_eq, nat_eqb, if◌then◌else◌,
  arith, Bool-cases, inl, inr,
}
use astra_db.Abseil.{FlatHashMap}
use astra_db.Protocol.Types.{Command}
use astra_db.Server.TransactionState
use astra_db.Server.TransactionState.{TransactionState, TransactionStateStore, find}
use astra_db.Server.TransactionState.Watching.{Unchanged, unmodified_iff}
use astra_db.Server.Worker.{
  Shard, Worker, exec_array, null_array, queued, control_of, Control, is_first_key_local,
  execute_all, process,
}

module _ {D : Type 0} (F : Type 0) (sh : Shard D) (S : FlatHashMap Bytes (Unit {0}))
    (W : FlatHashMap Bytes ℕ) (T : FlatHashMap ℕ (TransactionState S W)) where
  exec_step :
      (c : ℕ) (w : Worker D S W T) (command : Command) (x : TransactionState S W)
      → control_of sh command.name ≡ some Control.exec
      → find S W T w.store c ≡ some x
      → x.in_transaction ≡ true
      → process F sh S W T c w command ≡ (
          if TransactionState.is_watched_key_modified S W T w.store c (sh.version w.db)
          then (null_array, record w { store = record { states_ = T.erase c w.store.states_ } })
          else (
            exec_array (execute_all sh x.queued_commands w.db).0,
            record {
              db = (execute_all sh x.queued_commands w.db).1;
              store = record { states_ = T.erase c w.store.states_ };
            },
          ))
  unfolding process TransactionState.is_in_transaction TransactionState.discard_transaction
      TransactionState.get_queued_commands
  exec_step c w command x is_exec there inside = ground arith

  -- EXEC by a connection in a transaction, with the queued commands q and the watched keys of its
  -- state. If every watched key still has its recorded version, all of q is executed on the
  -- database in its order and the replies are sent as an array; if not, the database is left alone
  -- and the null array is sent. Either way nothing is kept of the connection, and the states of all
  -- other connections are as they were.
  pub exec_decides :
      (c : ℕ) (w : Worker D S W T) (command : Command) (x : TransactionState S W)
      → control_of sh command.name ≡ some Control.exec
      → find S W T w.store c ≡ some x
      → x.in_transaction ≡ true
      → (let run = execute_all sh x.queued_commands w.db in
          let unchanged =
            Unchanged S W (sh.version w.db) x.watched_key_versions (S.find x.watched_keys) in
          (unchanged
            → ((process F sh S W T c w command).0 ≡ exec_array run.0)
              × ((process F sh S W T c w command).1.db ≡ run.1))
          × (¬ unchanged
              → ((process F sh S W T c w command).0 ≡ null_array)
                × ((process F sh S W T c w command).1.db ≡ w.db)))
        × ((d : ℕ)
            → find S W T (process F sh S W T c w command).1.store d
              ≡ (if nat_eqb c d then none else find S W T w.store d))
  exec_decides c w command x is_exec there inside =
      let same = unmodified_iff S W (sh.version w.db) T w.store c x there in
      let step = exec_step c w command x is_exec there inside in
      let test = TransactionState.is_watched_key_modified S W T w.store c (sh.version w.db) in
      rw step (elim (Bool-cases test) [
        | inl changed ↦
            rw changed
              (((λ u. cc (same.1 u)), (λ n. (refl, refl))), λ d. T.find-erase c w.store.states_ d)
        | inr kept ↦ rw kept (
          ((λ u. (refl, refl)), (λ n. absurd (n (same.0 kept)))),
          λ d. T.find-erase c w.store.states_ d,
        )
      ])

  -- A command of a connection in a transaction, other than a control command, whose first key is
  -- on this worker: it is queued behind the others, the database is not touched, and the states of
  -- all other connections are as they were.
  pub enqueue_step :
      (c : ℕ) (w : Worker D S W T) (command : Command) (x : TransactionState S W)
      → control_of sh command.name ≡ none
      → is_first_key_local sh command ≡ true
      → find S W T w.store c ≡ some x
      → x.in_transaction ≡ true
      → ((process F sh S W T c w command).0 ≡ queued)
        × ((process F sh S W T c w command).1.db ≡ w.db)
        × ((d : ℕ)
            → find S W T (process F sh S W T c w command).1.store d ≡ (
                if nat_eqb c d
                then some (record x { queued_commands = x.queued_commands ++ command ∷ [] })
                else find S W T w.store d))
  unfolding process TransactionState.is_in_transaction TransactionState.queue_command
  enqueue_step c w command x plain here there inside =
      let y = record x { queued_commands = x.queued_commands ++ command ∷ [] } in
      (ground arith, ground arith, λ d. ground (arith, T.find-insert c y w.store.states_ d))

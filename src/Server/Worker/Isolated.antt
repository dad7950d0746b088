-- ===== src/Server/Worker/Isolated.antt =====
-- A command of one connection (`Worker::ExecutorLoop`, src/astra/server/worker.hpp) and the states
-- of the others.
use astra_db.Prelude.{
  ℕ, ◌≡◌, refl, ◌∙◌, false, List, [], ◌∷◌, Bytes, bytes_eq, nat_eq, nat_eqb, arith, Option-cases,
  Bool-cases, inl, inr,
}
use astra_db.Abseil.{FlatHashMap}
use astra_db.Protocol.Types
use astra_db.Protocol.Types.{Command, CommandArg}
use astra_db.Server.TransactionState
use astra_db.Server.TransactionState.Isolation
use astra_db.Server.TransactionState.Isolation.{Call, find-call}
use astra_db.Server.TransactionState.{TransactionState, TransactionStateStore, find}
use astra_db.Server.Transactions
use astra_db.Server.Transactions.{watch_all}
use astra_db.Server.Worker.{
  Shard, Worker, Control, multi, exec, discard, watch, unwatch, control_of, process,
  control_command, execute_control, handle_control, refusal, enqueue, dispatch, execute_local,
  run_exec,
}

module _ (F : Type 0) (S : FlatHashMap Bytes (Unit {0})) (W : FlatHashMap Bytes ℕ)
    (T : FlatHashMap ℕ (TransactionState S W)) (c d : ℕ) (other : nat_eqb c d ≡ false) where
  call_keeps :
      (k : Call) (s : TransactionStateStore S W T)
      → find S W T (Isolation.call S W T s (c, k)) d ≡ find S W T s d
  call_keeps k s = ground (arith, find-call S W T s c d k)

  begin_keeps :
      (s : TransactionStateStore S W T)
      → find S W T (TransactionState.begin_transaction S W T c s) d ≡ find S W T s d
  unfolding Isolation.call
  begin_keeps = call_keeps Call.begin_transaction

  queue_keeps :
      (k : Command) (s : TransactionStateStore S W T)
      → find S W T (TransactionState.queue_command S W T c k s) d ≡ find S W T s d
  unfolding Isolation.call
  queue_keeps k = call_keeps (Call.queue_command k)

  discard_keeps :
      (s : TransactionStateStore S W T)
      → find S W T (TransactionState.discard_transaction S W T c s) d ≡ find S W T s d
  unfolding Isolation.call
  discard_keeps = call_keeps Call.discard_transaction

  clear_queue_keeps :
      (s : TransactionStateStore S W T)
      → find S W T (TransactionState.clear_queued_commands S W T c s) d ≡ find S W T s d
  unfolding Isolation.call
  clear_queue_keeps = call_keeps Call.clear_queued_commands

  unwatch_keeps :
      (s : TransactionStateStore S W T)
      → find S W T (TransactionState.clear_watched_keys S W T c s) d ≡ find S W T s d
  unfolding Isolation.call
  unwatch_keeps = call_keeps Call.clear_watched_keys

  watch_keeps :
      (version : Bytes → ℕ) (args : List CommandArg) (s : TransactionStateStore S W T)
      → find S W T (watch_all F S W T version c args s) d ≡ find S W T s d
  unfolding watch_all Isolation.call
  watch_keeps version [] s = refl
  watch_keeps version (arg ∷ args) s = elim (Bool-cases (Types.is_bulk_string arg)) [
    | inl p ↦
        rw (p, watch_all)
          (watch_keeps version args
              (TransactionState.watch_key S W T c arg.value_ (version arg.value_) s)
            ∙ call_keeps (Call.watch_key arg.value_ (version arg.value_)) s)
    | inr p ↦ rw (p, watch_all) (watch_keeps version args s)
  ]

  module _ {D : Type 0} (sh : Shard D) where
    handle_keeps :
        (k : Control) (command : Command) (w : Worker D S W T)
        → find S W T (handle_control F sh S W T k command c w).1.store d ≡ find S W T w.store d
    unfolding handle_control Transactions.handle_multi Transactions.handle_exec
        Transactions.handle_discard Transactions.handle_watch Transactions.handle_unwatch
    handle_keeps multi command w = ground (arith, begin_keeps w.store)
    handle_keeps exec command w =
        let s₁ = TransactionState.clear_queued_commands S W T c w.store in
        let s₂ = TransactionState.clear_watched_keys S W T c s₁ in
        ground (arith, discard_keeps s₂, unwatch_keeps s₁, clear_queue_keeps w.store)
    handle_keeps discard command w = ground (arith, discard_keeps w.store)
    handle_keeps watch command w =
        ground (arith, watch_keeps (sh.version w.db) command.args w.store)
    handle_keeps unwatch command w = unwatch_keeps w.store

    execute_keeps :
        (k : Control) (command : Command) (w : Worker D S W T)
        → find S W T (execute_control F sh S W T k command c w).1.store d ≡ find S W T w.store d
    unfolding execute_control
    execute_keeps k command w = elim (Option-cases (refusal F sh S W T k command)) [
      | inl let_in ↦ rw (execute_control, let_in) (handle_keeps k command w)
      | inr (answer, refused) ↦ rw (execute_control, refused) refl
    ]

    control_keeps :
        (k : Control) (command : Command) (w : Worker D S W T)
        → find S W T (control_command F sh S W T k command c w).1.store d ≡ find S W T w.store d
    unfolding control_command run_exec
    control_keeps multi command w = execute_keeps multi command w
    control_keeps exec command w =
        ground (arith, discard_keeps w.store, execute_keeps exec command w)
    control_keeps discard command w = execute_keeps discard command w
    control_keeps watch command w = ground (arith, execute_keeps watch command w)
    control_keeps unwatch command w = execute_keeps unwatch command w

    dispatch_keeps :
        (command : Command) (w : Worker D S W T) → (dispatch F sh S W T command w).1.store ≡ w.store
    unfolding dispatch execute_local
    dispatch_keeps command w = ground arith

    enqueue_keeps :
        (command : Command) (w : Worker D S W T)
        → find S W T (enqueue F sh S W T command c w).1.store d ≡ find S W T w.store d
    unfolding enqueue
    enqueue_keeps command w = ground (arith, queue_keeps command w.store)

    -- A command of the connection c, whatever it is, leaves the transaction state of every other
    -- connection d as it was.
    pub others_untouched :
        (w : Worker D S W T) (command : Command)
        → find S W T (process F sh S W T c w command).1.store d ≡ find S W T w.store d
    unfolding process
    others_untouched w command = elim (Option-cases (control_of sh command.name)) [
      | inr (k, e) ↦ rw (e, process) (control_keeps k command w)
      | inl e ↦ elim (Bool-cases (TransactionState.is_in_transaction S W T w.store c)) [
        | inl p ↦ rw (e, p, process) (enqueue_keeps command w)
        | inr p ↦ rw (e, p, process) (rw (dispatch_keeps command w) refl)
      ]
    ]

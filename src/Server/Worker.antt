-- ===== src/Server/Worker.antt =====
-- The executor of a worker (`Worker::ExecutorLoop`, src/astra/server/worker.hpp): what it does
-- with one command of a client. The parts that it calls are parameters: `same_name` is
-- `absl::EqualsIgnoreCase`; `routed` says of a command's name whether the registry routes it by
-- key, and `route` sends a key to a worker; `moved` is `CheckClusterSlot`, which refuses
-- nothing if there is no cluster, and `denied` the test of permissions of `CommandRegistry::Execute`,
-- which refuses nothing if there is no ACL manager; `execute` is the data shard's `Execute` for a command
-- that is not a transaction command, on the database `D`, and `version` its `GetKeyVersion`.
-- Timers, logging and replication to slaves are left out; they do not change the state.
pub mod Exec
pub mod Isolated
pub mod Session
use astra_db.Prelude.{
  ℕ, zero, suc, Bool, true, false, ◌&&◌, ◌||◌, not, Option, none, some, List, [], ◌∷◌, ◌++◌, Bytes,
  bytes, bytes_eq, nat_eq, nat_eqb, leb, length, if◌then◌else◌,
}
use astra_db.Abseil.{FlatHashMap}
use astra_db.Protocol.Types
use astra_db.Protocol.Types.{Command, CommandArg}
use astra_db.Server.TransactionState
use astra_db.Server.TransactionState.{TransactionState, TransactionStateStore}
use astra_db.Server.Transactions
use astra_db.Server.Transactions.{CommandResult}

pub data Control : Type 0 where
  multi exec discard watch unwatch : Control

-- What the client is sent, or where the command goes.
pub data Outcome (F : Type 0) : Type 0 where
  error : Bytes → Outcome F
  queued null_array : Outcome F
  exec_array : List Bytes → Outcome F
  result : CommandResult F → Outcome F
  executed : Bytes → Outcome F
  forwarded : ℕ → Outcome F

pub record Shard (D : Type 0) : Type 0 where
  pub worker_id : ℕ
  pub same_name : Bytes → Bytes → Bool
  pub routed : Bytes → Bool
  pub route : Bytes → ℕ
  pub moved : Command → Option Bytes
  pub denied : Command → Option Bytes
  pub execute : Command → D → Bytes × D
  pub version : D → Bytes → ℕ

abbrev pub crossslot_commands : Bytes
crossslot_commands = bytes "CROSSSLOT transaction commands must stay on one worker"

-- `RespBuilder::BuildError`
abbrev pub build_error : Bytes → Bytes
build_error msg = b'-' ∷ (msg ++ 13 ∷ 10 ∷ [])

module _ {D : Type 0} (sh : Shard D) where
  -- `is_transaction_control`, with the word that the name is
  unfoldable pub control_of : Bytes → Option Control
  control_of name =
      if sh.same_name name (bytes "MULTI")
      then some multi
      else if sh.same_name name (bytes "EXEC")
      then some exec
      else if sh.same_name name (bytes "DISCARD")
      then some discard
      else if sh.same_name name (bytes "WATCH")
      then some watch
      else if sh.same_name name (bytes "UNWATCH")
      then some unwatch
      else none

  -- The arity with which a control command is registered: the number of its arguments and one, or
  -- minus the least such number.
  abbrev pub arity_met : Control → ℕ → Bool
  arity_met watch n = leb 1 n
  arity_met k n = nat_eqb n 0

  abbrev pub name_of : Control → Bytes
  name_of multi = bytes "MULTI"
  name_of exec = bytes "EXEC"
  name_of discard = bytes "DISCARD"
  name_of watch = bytes "WATCH"
  name_of unwatch = bytes "UNWATCH"

  abbrev pub is_text : CommandArg → Bool
  is_text arg = Types.is_bulk_string arg || Types.is_simple_string arg

  unfoldable pub first_key : Command → Option Bytes
  first_key command = elim command.args [
    | [] ↦ none
    | arg ∷ _ ↦ if sh.routed command.name && is_text arg then some arg.value_ else none
  ]

  unfoldable pub is_first_key_local : Command → Bool
  unfolding first_key
  is_first_key_local command = elim (first_key command) [
    | none ↦ true
    | some key ↦ nat_eqb (sh.route key) sh.worker_id
  ]

  -- The loop of `are_watch_keys_local`.
  unfoldable pub are_watch_keys_local : List CommandArg → Bool
  are_watch_keys_local [] = true
  are_watch_keys_local (arg ∷ args) =
      let rest = are_watch_keys_local args in
      if is_text arg
      then (if nat_eqb (sh.route arg.value_) sh.worker_id then rest else false)
      else rest

  -- The loop of EXEC over the queued commands.
  unfoldable pub execute_all : List Command → D → List Bytes × D
  unfolding is_first_key_local
  execute_all [] db = ([], db)
  execute_all (command ∷ commands) db =
      let here =
        if is_first_key_local command
        then sh.execute command db
        else (build_error crossslot_commands, db) in
      let later = execute_all commands here.1 in (here.0 ∷ later.0, later.1)

-- The database of the shard and the transaction states of its connections.
pub record Worker (D : Type 0) (S : FlatHashMap Bytes (Unit {0})) (W : FlatHashMap Bytes ℕ)
    (T : FlatHashMap ℕ (TransactionState S W)) : Type 0 where
  pub db : D
  pub store : TransactionStateStore S W T

module _ {D : Type 0} (F : Type 0) (sh : Shard D) (S : FlatHashMap Bytes (Unit {0}))
    (W : FlatHashMap Bytes ℕ) (T : FlatHashMap ℕ (TransactionState S W)) where
  abbrev pub Step : Type 0
  Step = Outcome F × Worker D S W T

  abbrev pub handled : Worker D S W T → CommandResult F × TransactionStateStore S W T → Step
  handled w r = (result r.0, record w { store = r.1 })

  -- What `Execute` answers to a transaction command that does not reach its handler.
  unfoldable pub refusal : Control → Command → Option (Outcome F)
  refusal k command = elim (sh.moved command) [
    | some reply ↦ some (executed reply)
    | none ↦
        if arity_met sh k (length command.args)
        then elim (sh.denied command) [ none ↦ none | some message ↦ some (error message) ]
        else some (
            error
              (bytes "ERR wrong number of arguments for '" ++ name_of sh k ++ bytes "' command"))
  ]

  -- The handler of a transaction command.
  unfoldable pub handle_control : Control → Command → ℕ → Worker D S W T → Step
  handle_control multi command c w = handled w (Transactions.handle_multi F S W T c w.store)
  handle_control exec command c w = handled w (Transactions.handle_exec F S W T c w.store)
  handle_control discard command c w = handled w (Transactions.handle_discard F S W T c w.store)
  handle_control watch command c w =
      handled w (Transactions.handle_watch F S W T (some (sh.version w.db)) command c w.store)
  handle_control unwatch command c w = handled w (Transactions.handle_unwatch F S W T c w.store)

  -- `DataShard::Execute` and `CommandRegistry::Execute` of a transaction command. These commands are
  -- registered with the routing strategy `kNone` and are never forwarded.
  unfoldable pub execute_control : Control → Command → ℕ → Worker D S W T → Step
  unfolding refusal handle_control
  execute_control k command c w = elim (refusal k command) [
    | some answer ↦ (answer, w)
    | none ↦ handle_control k command c w
  ]

  unfoldable pub execute_local : Command → Worker D S W T → Step
  execute_local command w =
      let (reply, db') = sh.execute command w.db in (executed reply, record w { db = db' })

  -- A command outside of a transaction: on this worker, or forwarded by its first key.
  unfoldable pub dispatch : Command → Worker D S W T → Step
  unfolding execute_local first_key
  dispatch command w = elim (first_key sh command) [
    | none ↦ execute_local command w
    | some key ↦
        if nat_eqb (sh.route key) sh.worker_id
        then execute_local command w
        else (forwarded (sh.route key), w)
  ]

  -- A command of a connection that is in a transaction, other than the control commands.
  unfoldable pub enqueue : Command → ℕ → Worker D S W T → Step
  unfolding is_first_key_local
  enqueue command c w =
      if is_first_key_local sh command
      then (queued, record w { store = TransactionState.queue_command S W T c command w.store })
      else (error crossslot_commands, w)

  -- EXEC in a transaction.
  unfoldable pub run_exec : ℕ → Worker D S W T → Step
  unfolding execute_all
  run_exec c w =
      let store' = TransactionState.discard_transaction S W T c w.store in
      let commands = TransactionState.get_queued_commands S W T w.store c in
      let (replies, db') = execute_all sh commands w.db in
      if TransactionState.is_watched_key_modified S W T w.store c (sh.version w.db)
      then (null_array, record w { store = store' })
      else (exec_array replies, record { db = db'; store = store' })

  unfoldable pub control_command : Control → Command → ℕ → Worker D S W T → Step
  unfolding execute_control run_exec are_watch_keys_local
  control_command watch command c w =
      if are_watch_keys_local sh command.args
      then execute_control watch command c w
      else (error (bytes "CROSSSLOT WATCH keys must stay on one worker"), w)
  control_command exec command c w =
      if TransactionState.is_in_transaction S W T w.store c
      then run_exec c w
      else execute_control exec command c w
  control_command k command c w = execute_control k command c w

  -- One command of the connection `c`.
  unfoldable pub process : ℕ → Worker D S W T → Command → Step
  unfolding control_of control_command enqueue dispatch
  process c w command = elim (control_of sh command.name) [
    | some k ↦ control_command k command c w
    | none ↦
        if TransactionState.is_in_transaction S W T w.store c
        then enqueue command c w
        else dispatch command w
  ]

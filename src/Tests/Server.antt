-- ===== src/Tests/Server.antt =====
-- Runs of transactions on a worker whose database is a counter.
use astra_db.Prelude.{
  ℕ, ◌+◌, ◌≡◌, ◌↔◌, refl, true, false, none, some, List, [], ◌∷◌, foldl, Bytes, bytes, bytes_eq,
  nat_eq, list_beq, arith,
}
use astra_db.Abseil.{FlatHashMap, lookup, insert, without}
use astra_db.Abseil.Model.{model}
use astra_db.Protocol.Types
use astra_db.Protocol.Types.{Command, of_string}
use astra_db.Server.TransactionState
use astra_db.Server.TransactionState.{TransactionState, TransactionStateStore, find, init}
use astra_db.Server.TransactionState.Isolation
use astra_db.Server.TransactionState.Isolation.{Call, calls_of, isolation, reached}
use astra_db.Server.TransactionState.Watching.{Unchanged, unmodified_iff}
use astra_db.Server.Worker.{
  Shard, Worker, exec_array, null_array, control_of, Control, refusal, is_first_key_local,
  are_watch_keys_local, process,
}
use astra_db.Server.Transactions.Watch.{watches}
use astra_db.Server.Worker.Isolated.{others_untouched}
use astra_db.Server.Worker.Session.{
  in_order, Queueable, session, optimistic_commit, optimistic_abort,
}

abbrev keys : FlatHashMap Bytes (Unit {0})
keys = model Bytes (Unit {0})

abbrev versions : FlatHashMap Bytes ℕ
versions = model Bytes ℕ

abbrev states : FlatHashMap ℕ (TransactionState keys versions)
states = model ℕ (TransactionState keys versions)

-- Every command adds one to the database, which is the version of every key.
abbrev shard : Shard ℕ
shard = record {
  worker_id = 0;
  same_name = list_beq;
  routed = λ name. true;
  route = λ key. 0;
  moved = λ command. none;
  denied = λ command. none;
  execute = λ command db. (command.name, db + 1);
  version = λ db key. db;
}

abbrev idle : Worker ℕ keys versions states
idle = record { db = 5; store = init keys versions states }

abbrev command : Bytes → Command
command name = record { name = name; args = of_string (bytes "k") ∷ [] }

abbrev watch : Command
watch = command (bytes "WATCH")

abbrev multi : Command
multi = record { name = bytes "MULTI"; args = [] }

abbrev exec : Command
exec = record { name = bytes "EXEC"; args = [] }

abbrev queue : List Command
queue = command (bytes "INCR") ∷ command (bytes "SET") ∷ []

is_watch : control_of shard watch.name ≡ some Control.watch
unfolding control_of
is_watch = refl

is_multi : control_of shard multi.name ≡ some Control.multi
unfolding control_of
is_multi = refl

is_exec : control_of shard exec.name ≡ some Control.exec
unfolding control_of
is_exec = refl

in_watch : refusal Bytes shard keys versions states Control.watch watch ≡ none
unfolding refusal
in_watch = refl

in_multi : refusal Bytes shard keys versions states Control.multi multi ≡ none
unfolding refusal
in_multi = refl

here : are_watch_keys_local shard watch.args ≡ true
unfolding are_watch_keys_local Types.is_bulk_string
here = refl

queueable : Queueable shard queue
unfolding control_of is_first_key_local Types.is_bulk_string
queueable = (refl, refl, (refl, refl, tt))

new : find keys versions states idle.store 1 ≡ none
new = states.find-empty 1

watched : watches (bytes "k") watch.args ≡ true
unfolding Types.is_bulk_string
watched = refl

optimistic_commit_example :
    let done =
      process Bytes shard keys versions states 1
        (session Bytes shard keys versions states 1 idle watch multi queue 6 5)
        exec in
    (done.0 ≡ exec_array (in_order shard queue 5).0)
    × (done.1.db ≡ (in_order shard queue 5).1)
    × (find keys versions states done.1.store 1 ≡ none)
optimistic_commit_example =
    optimistic_commit Bytes shard keys versions states 1 idle watch multi exec queue 6 5 is_watch
      in_watch here refl is_multi in_multi queueable is_exec new (λ k in_set. refl)

optimistic_abort_example :
    let done =
      process Bytes shard keys versions states 1
        (session Bytes shard keys versions states 1 idle watch multi queue 6 7)
        exec in
    (done.0 ≡ null_array) × (done.1.db ≡ 7) × (find keys versions states done.1.store 1 ≡ none)
optimistic_abort_example =
    optimistic_abort Bytes shard keys versions states 1 idle watch multi exec queue 6 7 (bytes "k")
      is_watch in_watch here refl is_multi in_multi queueable is_exec new watched (omega arith)

abbrev interleaved : List (ℕ × Call)
interleaved =
    (1, Call.watch_key (bytes "k") 5)
    ∷ (2, Call.begin_transaction)
    ∷ (2, Call.queue_command exec)
    ∷ (1, Call.clear_watched_keys)
    ∷ []

isolation_example :
    find keys versions states
      (foldl (Isolation.call keys versions states) (init keys versions states) interleaved)
      1
    ≡ foldl
        (Isolation.after keys versions states)
        (find keys versions states (init keys versions states) 1)
        (calls_of keys versions states 1 interleaved)
isolation_example = isolation keys versions states interleaved (init keys versions states) 1

abbrev closed : List (ℕ × Call)
closed = (1, Call.watch_key (bytes "k") 5) ∷ (1, Call.clear_watched_keys) ∷ []

program : Unit {0}
unfolding Isolation.call TransactionState.watch_key TransactionState.clear_watched_keys
    TransactionState.queue_command TransactionState.begin_transaction
    TransactionState.is_in_transaction TransactionState.get_queued_commands
    TransactionState.get_watched_keys lookup insert without Types.is_bulk_string
program = tt

outside :
    TransactionState.is_in_transaction keys versions states (reached keys versions states closed) 1
    ≡ false
unfolding program
outside = refl

no_queue :
    TransactionState.get_queued_commands keys versions states
      (reached keys versions states closed)
      1
    ≡ []
unfolding program
no_queue = refl

no_watch :
    keys.size (
      TransactionState.get_watched_keys keys versions states
        (reached keys versions states closed)
        1)
    ≡ 0
unfolding program
no_watch = refl

abbrev waiting : TransactionState keys versions
waiting = record {
  in_transaction = true;
  queued_commands = [];
  watched_keys = keys.insert_or_assign (bytes "k") tt keys.empty;
  watched_key_versions = versions.insert_or_assign (bytes "k") 5 versions.empty;
}

abbrev busy : Worker ℕ keys versions states
busy = record {
  db = 6;
  store = record { states_ = states.insert_or_assign 1 waiting states.empty };
}

waits : find keys versions states busy.store 1 ≡ some waiting
unfolding program
waits = refl

unmodified_iff_example :
    (TransactionState.is_watched_key_modified keys versions states busy.store 1 (shard.version 6)
      ≡ false)
    ↔ Unchanged keys versions
        (shard.version 6)
        waiting.watched_key_versions
        (keys.find waiting.watched_keys)
unmodified_iff_example =
    unmodified_iff keys versions (shard.version 6) states busy.store 1 waiting waits

abbrev set_k : Command
set_k = command (bytes "SET")

plain : control_of shard set_k.name ≡ none
unfolding control_of
plain = refl

local : is_first_key_local shard set_k ≡ true
unfolding is_first_key_local Types.is_bulk_string
local = refl

others_untouched_example :
    find keys versions states (process Bytes shard keys versions states 1 idle watch).1.store 2
    ≡ find keys versions states idle.store 2
others_untouched_example = others_untouched Bytes keys versions states 1 2 refl shard idle watch

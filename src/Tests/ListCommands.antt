-- ===== src/Tests/ListCommands.antt =====
-- Runs of the list commands and of clients that wait.
use astra_db.Prelude.{
  ℕ, ◌≡◌, refl, ◌-◌, ◌+◌, false, Option, none, some, List, [], ◌∷◌, length, Bytes, bytes, bytes_eq,
  nat_eq, ltb,
}
use astra_db.Prelude.Int.{ℤ, pos}
use astra_db.Abseil.{FlatHashMap, lookup}
use astra_db.Abseil.Model.{model}
use astra_db.Protocol.Types
use astra_db.Protocol.Types.{RespValue, CommandArg}
use astra_db.Server.Transactions.{response}
use astra_db.Commands.Blocking
use astra_db.Commands.Blocking.{BlockedClient, BlockingManager, add_blocked_client}
use astra_db.Commands.Database
use astra_db.Commands.Database.{Tables, Database}
use astra_db.Commands.Database.Lists.Spec.{spec, write}
use astra_db.Commands.Database.Lists.Cells.{Stands, init-Stands}
use astra_db.Commands.ListCommands.Stores.{database_store, database_simulates}
use astra_db.Commands.ListCommands.Pushes.{
  Callback, Timeouts, Context, blocking, handle_r_push, handle_b_r_pop, timeout_of,
}
use astra_db.Commands.ListCommands.Exchange.{brpop_missed}
use astra_db.Commands.ListCommands.Replies.{Replied, Answers, number, replies_to}
use astra_db.Commands.ListCommands.Inserting.{l_insert, beside, minus_one, insert_replies}
use astra_db.Container.LinkedList.Removal.{occurrences}
use astra_db.Tests.Database.{named}

-- A timeout is the length of its text.
abbrev seconds : Timeouts
seconds = record {
  Double = ℕ;
  stod = λ t. some (length t);
  of_integer = length;
  is_positive = ltb 0;
}

abbrev queues : FlatHashMap Bytes (List (BlockedClient Callback))
queues = model Bytes (List (BlockedClient Callback))

abbrev timers : FlatHashMap ℕ ℕ
timers = model ℕ ℕ

abbrev nobody : BlockingManager queues timers
nobody = Blocking.init queues timers

abbrev server :
    BlockingManager queues timers → Context (Unit {0}) seconds queues timers (Database named)
server m = record { store = Database.init named; manager = some m; handed = [] }

abbrev pushed : List CommandArg
pushed = Types.of_string (bytes "l") ∷ Types.of_string (bytes "x") ∷ []

abbrev timeout : CommandArg
timeout = Types.of_string (bytes "1")

-- The string that was moved from is empty.
brpop_missed_example :
    let (outcome, c) =
      handle_b_r_pop
        (Unit {0})
        seconds
        queues
        timers
        (database_store named (pos 5))
        (λ k. [])
        7
        (Types.of_string (bytes "l") ∷ timeout ∷ [])
        (server nobody) in
    let (reply, c') =
      handle_r_push (Unit {0}) seconds queues timers (database_store named (pos 9)) pushed c in
    (outcome ≡ blocking)
    × (reply ≡ response (RespValue.integer (pos 1)))
    × (c'.handed ≡ [])
    × Stands named (write (λ k. []) (bytes "l") (bytes "x" ∷ [])) c'.store
unfolding Blocking.init lookup timeout_of
brpop_missed_example =
    brpop_missed (Unit {0}) seconds queues timers named (pos 5) (pos 9) (λ k. []) 7 (bytes "l")
      (bytes "x") timeout 1 (λ k. []) nobody (server nobody) (init-Stands named) refl refl refl refl
      refl refl

-- One digit.
abbrev digit : Bytes → Option ℤ
digit (n ∷ []) = some (pos (n - 48))
digit t = none

abbrev lists : Bytes → List Bytes
lists = write (λ k. []) (bytes "l") (bytes "x" ∷ [])

abbrev one_pushed : Database named
one_pushed = ((database_store named (pos 1)).r_push (bytes "l") (bytes "x") (Database.init named)).1

pushed-Stands : Stands named lists one_pushed
unfolding spec
pushed-Stands =
    ((database_simulates named (pos 1)).r_push_sim (bytes "l") (bytes "x") (Database.init named)
      (λ k. []) (init-Stands named)).1

replies_to_example :
    Replied
      (Unit {0})
      digit
      named
      (pos 5)
      (bytes "l")
      (bytes "x")
      (bytes "0")
      (bytes "1")
      (pos 0)
      (pos 1)
      lists
      one_pushed
replies_to_example =
    replies_to (Unit {0}) digit named (pos 5) (bytes "l") (bytes "x") (bytes "0") (bytes "1")
      (pos 0) (pos 1) lists one_pushed pushed-Stands refl refl

insert_replies_example :
    Answers
      (Unit {0})
      digit
      named
      (pos 5)
      (l_insert (Unit {0}) digit named (pos 5) (bytes "l") false (bytes "x") (bytes "y") one_pushed)
      (number (Unit {0}) digit named (pos 5) (length (lists (bytes "l")) + 1))
      (write lists (bytes "l") (beside [] (bytes "x") [] (bytes "y") false))
    × Answers
        (Unit {0})
        digit
        named
        (pos 5)
        (l_insert
          (Unit {0})
          digit
          named
          (pos 5)
          (bytes "m")
          false
          (bytes "x")
          (bytes "y")
          one_pushed)
        (minus_one (Unit {0}) digit named (pos 5))
        lists
unfolding occurrences
insert_replies_example =
    insert_replies (Unit {0}) digit named (pos 5) (bytes "l") (bytes "m") (bytes "x") (bytes "y")
      false [] [] lists one_pushed pushed-Stands refl refl refl

-- ===== src/Commands/ListCommands/Pushes.antt =====
-- The handlers of src/astra/commands/redis/list_commands.cpp that wake clients, LPUSH and RPUSH, and
-- those that may wait, BLPOP and BRPOP, with `ProcessBlockedCommand` of
-- src/astra/commands/blocking_manager.cpp. A client that waits has a connection.
use astra_db.Prelude.{
  ℕ, Bool, true, false, not, Option, none, some, List, [], ◌∷◌, ◌++◌, length, Bytes, bytes,
  bytes_eq, nat_eq, if◌then◌else◌,
}
use mathlib.Core.List.{reverse}
use astra_db.Prelude.Int.{pos}
use astra_db.Abseil.{FlatHashMap}
use astra_db.Protocol.Types
use astra_db.Protocol.Types.{RespType, RespValue, Values, CommandArg}
use astra_db.Server.Transactions.{CommandResult, response, failure}
use astra_db.Commands.Blocking.{
  BlockedClient, BlockingManager, add_blocked_client, wake_up_blocked_clients,
}
use astra_db.Commands.ListCommands.{ListStore}

-- What the callback of a waiting client captures: the key and the end that it pops from.
pub data Callback : Type 0 where
  pop_left pop_right : Bytes → Callback

-- What BLPOP and BRPOP return: `blocking` is `CommandResult::Blocking()`.
pub data Outcome (F : Type 0) : Type 0 where
  done : CommandResult F → Outcome F
  blocking : Outcome F

-- The `CommandResult` that `Execute` makes a reply of. A blocking result is the default one with a mark
-- that no worker looks at: its client gets the null bulk string at once.
unfoldable pub answer : {F : Type 0} → Outcome F → CommandResult F
answer (done result) = result
answer blocking = response RespValue.null_bulk_string

-- The double of a timeout: `std::stod`, the conversion of an integer argument, and `timeout > 0`.
pub record Timeouts : Type 1 where
  pub Double : Type 0
  pub stod : Bytes → Option Double
  pub of_integer : Bytes → Double
  pub is_positive : Double → Bool

-- The database and the blocking manager of a worker, and what `ProcessBlockedCommand` has handed to
-- `Send` of the connection that a client saved, with the client's id. What comes of these calls is
-- left open: in a worker the saved pointer is one to an object of another class.
module _ (F : Type 0) (D : Timeouts) (Q : FlatHashMap Bytes (List (BlockedClient Callback)))
    (H : FlatHashMap ℕ D.Double) where
  pub record Context (State : Type 0) : Type 0 where
    pub store : State
    pub manager : Option (BlockingManager Q H)
    pub handed : List (ℕ × RespValue F)

module _ (F : Type 0) (D : Timeouts) (Q : FlatHashMap Bytes (List (BlockedClient Callback)))
    (H : FlatHashMap ℕ D.Double) (E : ListStore) where
  abbrev pub Setting : Type 0
  Setting = Context F D Q H E.State

  -- The reply of BLPOP and BRPOP: the key and the element.
  abbrev pub popped : Bytes → Option Bytes → RespValue F
  popped key none = RespValue.null_bulk_string
  popped key (some v) =
      RespValue.array
        (Values.cons (RespValue.bulk_string key) (Values.cons (RespValue.bulk_string v) Values.nil))

  unfoldable pub call_back : Callback → E.State → RespValue F × E.State
  call_back (pop_left key) s = let (value, s') = E.l_pop key s in (popped key value, s')
  call_back (pop_right key) s = let (value, s') = E.r_pop key s in (popped key value, s')

  unfoldable pub process_blocked_command : BlockedClient Callback → Setting → Setting
  unfolding call_back
  process_blocked_command client c =
      let (reply, s) = call_back client.work c.store in
      record c { store = s; handed = c.handed ++ (client.client_id, reply) ∷ [] }

  -- `if (blocking_manager) blocking_manager->WakeUpBlockedClients(key);`
  unfoldable pub wake : Bytes → Setting → Setting
  unfolding process_blocked_command
  wake key c = elim c.manager [
    | none ↦ c
    | some m ↦
        let (client, m') = wake_up_blocked_clients Q H key m in
        let c' : Setting = record c { manager = some m' } in
        elim client [ none ↦ c' | some waiting ↦ process_blocked_command waiting c' ]
  ]

  -- The loop over the values of a push: whether all were strings.
  unfoldable pub push_all :
      (Bytes → E.State → Bool × E.State) → List CommandArg → E.State → Bool × E.State
  push_all push [] s = (true, s)
  push_all push (arg ∷ args) s =
      let rest = push_all push args (push arg.value_ s).1 in
      if Types.is_bulk_string arg then rest else (false, s)

  -- The bodies of LPUSH and RPUSH, which differ in the order of the loop and the push.
  unfoldable pub push_with :
      (Bytes → Bytes → E.State → Bool × E.State)
      → CommandArg
      → List CommandArg
      → ℕ
      → Setting
      → CommandResult F × Setting
  unfolding push_all wake
  push_with push key_arg values count c =
      if not (Types.is_bulk_string key_arg)
      then (failure (bytes "ERR wrong type of key argument"), c)
      else (let (all, s) = push_all (push key_arg.value_) values c.store in
          let c' : Setting = record c { store = s } in
          if all
          then (response (RespValue.integer (pos count)), wake key_arg.value_ c')
          else (failure (bytes "ERR wrong type of value argument"), c'))

  unfoldable pub handle_l_push : List CommandArg → Setting → CommandResult F × Setting
  unfolding push_with
  handle_l_push [] c = (failure (bytes "ERR wrong number of arguments for 'LPUSH' command"), c)
  handle_l_push (key_arg ∷ values) c = push_with E.l_push key_arg (reverse values) (length values) c

  unfoldable pub handle_r_push : List CommandArg → Setting → CommandResult F × Setting
  unfolding push_with
  handle_r_push [] c = (failure (bytes "ERR wrong number of arguments for 'RPUSH' command"), c)
  handle_r_push (key_arg ∷ values) c = push_with E.r_push key_arg values (length values) c

  unfoldable pub timeout_of : CommandArg → Option D.Double
  timeout_of arg = elim arg.type_ [
    | RespType.integer ↦ some (D.of_integer arg.value_)
    | RespType.bulk_string ↦ D.stod arg.value_
    | _ ↦ none
  ]

  -- The loop over the keys: an error, an element that was popped, or nothing.
  unfoldable pub first_popped :
      (Bytes → E.State → Option Bytes × E.State)
      → List CommandArg
      → E.State
      → Option (CommandResult F) × E.State
  first_popped pop [] s = (none, s)
  first_popped pop (key_arg ∷ keys) s =
      let (value, s') = pop key_arg.value_ s in
      let rest = first_popped pop keys s' in
      if not (Types.is_bulk_string key_arg)
      then (some (failure (bytes "ERR wrong type of key argument")), s)
      else elim value [
        | none ↦ rest
        | some v ↦ (some (response (popped key_arg.value_ (some v))), s')
      ]

  -- `command[ArgCount() - 1]`, and the arguments before it.
  unfoldable pub split_last : CommandArg → List CommandArg → List CommandArg × CommandArg
  split_last a [] = ([], a)
  split_last a (b ∷ bs) = let (before, last) = split_last b bs in (a ∷ before, last)

  -- The bodies of BLPOP and BRPOP, which differ in the pop, in their names, and in the key that they
  -- hand to `AddBlockedClient`.
  unfoldable pub blocking_pop :
      (Bytes → E.State → Option Bytes × E.State)
      → (Bytes → Callback)
      → (Bytes → Bytes)
      → Bytes
      → ℕ
      → List CommandArg
      → Setting
      → Outcome F × Setting
  unfolding timeout_of first_popped split_last
  blocking_pop pop callback wait_key name client_id (first_arg ∷ second_arg ∷ args) c =
      let (keys, timeout_arg) = split_last first_arg (second_arg ∷ args) in
      elim (timeout_of timeout_arg) [
        | none ↦ (done (failure (bytes "ERR timeout is not a float or out of range")), c)
        | some timeout ↦
            let (found, s) = first_popped pop keys c.store in
            let c' : Setting = record c { store = s } in
            elim found [
              | some result ↦ (done result, c')
              | none ↦
                  let nil = done (response RespValue.null_bulk_string) in
                  if D.is_positive timeout
                  then elim c.manager [
                    | none ↦ (nil, c')
                    | some m ↦
                        let client : BlockedClient Callback = record {
                          client_id = client_id;
                          work = callback first_arg.value_;
                        } in
                        (
                          blocking,
                          record c' {
                            manager = some (
                                add_blocked_client Q H (wait_key first_arg.value_) client timeout
                                  m);
                          },
                        )
                  ]
                  else (nil, c')
            ]
      ]
  blocking_pop pop callback wait_key name client_id _ c =
      (done (failure (bytes "ERR wrong number of arguments for '" ++ name ++ bytes "' command")), c)

  unfoldable pub handle_b_l_pop : ℕ → List CommandArg → Setting → Outcome F × Setting
  unfolding blocking_pop
  handle_b_l_pop = blocking_pop E.l_pop pop_left (λ key. key) (bytes "BLPOP")

  -- BRPOP passes `blocked_client.key` by reference and moves `blocked_client` in the same call:
  -- `moved_from` is what is left of a string that was moved, which the standard does not say.
  unfoldable pub handle_b_r_pop :
      (Bytes → Bytes) → ℕ → List CommandArg → Setting → Outcome F × Setting
  unfolding blocking_pop
  handle_b_r_pop moved_from = blocking_pop E.r_pop pop_right moved_from (bytes "BRPOP")

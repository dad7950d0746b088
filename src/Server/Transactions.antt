-- ===== src/Server/Transactions.antt =====
-- src/astra/commands/redis/transaction_commands.cpp: the handlers of MULTI, EXEC, DISCARD, WATCH
-- and UNWATCH, over the transaction state of one connection.
pub mod Watch
use astra_db.Prelude.{
  ℕ, Option, none, some, List, [], ◌∷◌, is_nil, Bytes, bytes, bytes_eq, nat_eq, if◌then◌else◌,
}
use astra_db.Abseil.{FlatHashMap}
use astra_db.Protocol.Types
use astra_db.Protocol.Types.{RespValue, Command, CommandArg}
use astra_db.Server.TransactionState
use astra_db.Server.TransactionState.{TransactionState, TransactionStateStore}

-- `CommandResult`: a response, or `CommandResult(false, message)`.
pub data CommandResult (F : Type 0) : Type 0 where
  response : RespValue F → CommandResult F
  failure : Bytes → CommandResult F

abbrev pub ok_reply : {F : Type 0} → CommandResult F
ok_reply = response (RespValue.simple_string (bytes "OK"))

module _ (F : Type 0) (S : FlatHashMap Bytes (Unit {0})) (W : FlatHashMap Bytes ℕ)
    (T : FlatHashMap ℕ (TransactionState S W)) where
  abbrev pub Handler : Type 0
  Handler = TransactionStateStore S W T → CommandResult F × TransactionStateStore S W T

  unfoldable pub handle_multi : ℕ → Handler
  handle_multi connection_id s =
      if TransactionState.is_in_transaction S W T s connection_id
      then (failure (bytes "ERR MULTI calls can not be nested"), s)
      else (ok_reply, TransactionState.begin_transaction S W T connection_id s)

  -- The fallback for paths that do not execute the queue themselves.
  unfoldable pub handle_exec : ℕ → Handler
  handle_exec connection_id s =
      if TransactionState.is_in_transaction S W T s connection_id
      then (let s₁ = TransactionState.clear_queued_commands S W T connection_id s in
          let s₂ = TransactionState.clear_watched_keys S W T connection_id s₁ in
          (
            response (RespValue.array Types.Values.nil),
            TransactionState.discard_transaction S W T connection_id s₂,
          ))
      else (failure (bytes "ERR EXEC without MULTI"), s)

  unfoldable pub handle_discard : ℕ → Handler
  handle_discard connection_id s =
      if TransactionState.is_in_transaction S W T s connection_id
      then (ok_reply, TransactionState.discard_transaction S W T connection_id s)
      else (failure (bytes "ERR DISCARD without MULTI"), s)

  -- The loop over the arguments of WATCH.
  unfoldable pub watch_all :
      (Bytes → ℕ) → ℕ → List CommandArg → TransactionStateStore S W T → TransactionStateStore S W T
  watch_all version connection_id [] s = s
  watch_all version connection_id (arg ∷ args) s = watch_all version connection_id args (
      if Types.is_bulk_string arg
      then TransactionState.watch_key S W T connection_id arg.value_ (version arg.value_) s
      else s)

  -- `db` is `GetKeyVersion` of the connection's database, if it has one.
  unfoldable pub handle_watch : Option (Bytes → ℕ) → Command → ℕ → Handler
  unfolding watch_all
  handle_watch db command connection_id s =
      if is_nil command.args
      then (failure (bytes "ERR wrong number of arguments for 'watch' command"), s)
      else if TransactionState.is_in_transaction S W T s connection_id
      then (failure (bytes "ERR WATCH inside MULTI is not allowed"), s)
      else elim db [
        | none ↦ (failure (bytes "ERR no database available"), s)
        | some version ↦ (ok_reply, watch_all version connection_id command.args s)
      ]

  unfoldable pub handle_unwatch : ℕ → Handler
  handle_unwatch connection_id s =
      (ok_reply, TransactionState.clear_watched_keys S W T connection_id s)

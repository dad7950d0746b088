-- ===== src/Commands/ListCommands.antt =====
-- The handlers of src/astra/commands/redis/list_commands.cpp on one list. They use the list
-- operations of a database through an interface, which the database and plain lists meet
-- (Stores.antt). The connection has a database.
pub mod Stores
pub mod Pushes
pub mod Waking
pub mod Exchange
pub mod Replies
pub mod Inserting
use astra_db.Prelude.{
  ℕ, suc, ◌+◌, Bool, true, false, not, Option, none, some, List, [], ◌∷◌, ◌++◌, Bytes, bytes,
  bytes_eq, ◌==◌, if◌then◌else◌, ◌||◌,
}
use astra_db.Prelude.Int.{ℤ, pos, negsuc}
use astra_db.Protocol.Types
use astra_db.Protocol.Types.{RespValue, Values, CommandArg}
use astra_db.Server.Transactions.{CommandResult, response, failure, ok_reply}

-- The list operations of class `Database` that the handlers call.
pub record ListStore : Type 1 where
  pub State : Type 0
  pub l_push : Bytes → Bytes → State → Bool × State
  pub r_push : Bytes → Bytes → State → Bool × State
  pub l_pop : Bytes → State → Option Bytes × State
  pub r_pop : Bytes → State → Option Bytes × State
  pub l_len : Bytes → State → ℕ × State
  pub l_index : Bytes → ℤ → State → Option Bytes × State
  pub l_set : Bytes → ℤ → Bytes → State → Bool × State
  pub l_range : Bytes → ℤ → ℤ → State → List Bytes × State
  pub l_trim : Bytes → ℤ → ℤ → State → Bool × State
  pub l_rem : Bytes → Bytes → ℤ → State → ℕ × State
  pub l_insert : Bytes → ℤ → Bytes → Bool → State → Bool × State
  pub r_pop_l_push : Bytes → Bytes → State → Option Bytes × State

-- The loop of LINSERT that looks for the pivot.
unfoldable pub pivot_index_from : ℕ → Bytes → List Bytes → Option ℕ
pivot_index_from i pivot [] = none
pivot_index_from i pivot (v ∷ vs) =
    let rest = pivot_index_from (suc i) pivot vs in if v == pivot then some i else rest

abbrev pub bulk_strings : {F : Type 0} → List Bytes → Values F
bulk_strings [] = Values.nil
bulk_strings (v ∷ vs) = Values.cons (RespValue.bulk_string v) (bulk_strings vs)

-- `strtoll` is `std::strtoll` in base 10 on a text that it reads to its end, and none at another.
module _ (F : Type 0) (strtoll : Bytes → Option ℤ) (E : ListStore) where
  abbrev pub Result : Type 0
  Result = CommandResult F × E.State

  abbrev pub fail : Bytes → E.State → Result
  fail message s = (failure message, s)

  abbrev pub wrong_arity : Bytes → E.State → Result
  wrong_arity name s =
      fail (bytes "ERR wrong number of arguments for '" ++ name ++ bytes "' command") s

  -- `if (!arg.IsBulkString()) return CommandResult(false, "ERR wrong type of … argument");`
  abbrev pub with_bulk : Bytes → CommandArg → E.State → (Bytes → Result) → Result
  with_bulk what arg s next =
      if Types.is_bulk_string arg
      then next arg.value_
      else fail (bytes "ERR wrong type of " ++ what ++ bytes " argument") s

  abbrev pub with_integer : Bytes → E.State → (ℤ → Result) → Result
  with_integer text s next = elim (strtoll text) [
    | none ↦ fail (bytes "ERR value is not an integer or out of range") s
    | some i ↦ next i
  ]

  abbrev pub element : Option Bytes × E.State → Result
  element (o, s) = (
    response (elim o [ none ↦ RespValue.null_bulk_string | some v ↦ RespValue.bulk_string v ]),
    s,
  )

  abbrev pub integer : ℕ × E.State → Result
  integer (n, s) = (response (RespValue.integer (pos n)), s)

  abbrev pub ok_or : Bytes → Bool × E.State → Result
  ok_or message (done, s) = ((if done then ok_reply else failure message), s)

  unfoldable pub handle_l_pop : List CommandArg → E.State → Result
  handle_l_pop (key_arg ∷ []) s = with_bulk (bytes "key") key_arg s λ key. element (E.l_pop key s)
  handle_l_pop _ s = wrong_arity (bytes "LPOP") s

  unfoldable pub handle_r_pop : List CommandArg → E.State → Result
  handle_r_pop (key_arg ∷ []) s = with_bulk (bytes "key") key_arg s λ key. element (E.r_pop key s)
  handle_r_pop _ s = wrong_arity (bytes "RPOP") s

  unfoldable pub handle_l_len : List CommandArg → E.State → Result
  handle_l_len (key_arg ∷ []) s = with_bulk (bytes "key") key_arg s λ key. integer (E.l_len key s)
  handle_l_len _ s = wrong_arity (bytes "LLEN") s

  unfoldable pub handle_l_index : List CommandArg → E.State → Result
  handle_l_index (key_arg ∷ index_arg ∷ []) s = with_bulk (bytes "key") key_arg s λ key.
      with_bulk (bytes "index") index_arg s
        λ index_str. with_integer index_str s λ index. element (E.l_index key index s)
  handle_l_index _ s = wrong_arity (bytes "LINDEX") s

  unfoldable pub handle_l_set : List CommandArg → E.State → Result
  handle_l_set (key_arg ∷ index_arg ∷ value_arg ∷ []) s = with_bulk (bytes "key") key_arg s λ key.
      with_bulk (bytes "index") index_arg s λ index_str.
        with_bulk (bytes "value") value_arg s λ value.
          with_integer index_str s λ index.
            ok_or (bytes "ERR no such key or index out of range") (E.l_set key index value s)
  handle_l_set _ s = wrong_arity (bytes "LSET") s

  unfoldable pub handle_l_range : List CommandArg → E.State → Result
  handle_l_range (key_arg ∷ start_arg ∷ stop_arg ∷ []) s = with_bulk (bytes "key") key_arg s λ key.
      with_bulk (bytes "start") start_arg s λ start_str.
        with_bulk (bytes "stop") stop_arg s λ stop_str. with_integer start_str s λ start.
          with_integer stop_str s λ stop.
            let (values, s') = E.l_range key start stop s in
            (response (RespValue.array (bulk_strings values)), s')
  handle_l_range _ s = wrong_arity (bytes "LRANGE") s

  unfoldable pub handle_l_trim : List CommandArg → E.State → Result
  handle_l_trim (key_arg ∷ start_arg ∷ stop_arg ∷ []) s = with_bulk (bytes "key") key_arg s λ key.
      with_bulk (bytes "start") start_arg s λ start_str.
        with_bulk (bytes "stop") stop_arg s λ stop_str. with_integer start_str s λ start.
          with_integer stop_str s
            λ stop. ok_or (bytes "ERR no such key") (E.l_trim key start stop s)
  handle_l_trim _ s = wrong_arity (bytes "LTRIM") s

  unfoldable pub handle_l_rem : List CommandArg → E.State → Result
  handle_l_rem (key_arg ∷ count_arg ∷ value_arg ∷ []) s = with_bulk (bytes "key") key_arg s λ key.
      with_bulk (bytes "count") count_arg s λ count_str.
        with_bulk (bytes "value") value_arg s
          λ value. with_integer count_str s λ count. integer (E.l_rem key value count s)
  handle_l_rem _ s = wrong_arity (bytes "LREM") s

  abbrev pub minus_one : E.State → Result
  minus_one s = (response (RespValue.integer (negsuc 0)), s)

  unfoldable pub insert_at : Bytes → Bytes → Bool → Option ℕ → E.State → Result
  insert_at key value before none s = minus_one s
  insert_at key value before (some i) s =
      let (success, s') = E.l_insert key (pos i) value before s in
      if success then integer (E.l_len key s') else minus_one s'

  unfoldable pub handle_l_insert : List CommandArg → E.State → Result
  unfolding pivot_index_from insert_at
  handle_l_insert (key_arg ∷ where_arg ∷ pivot_arg ∷ value_arg ∷ []) s =
      with_bulk (bytes "key") key_arg s λ key. with_bulk (bytes "where") where_arg s λ place.
        with_bulk (bytes "pivot") pivot_arg s λ pivot.
          with_bulk (bytes "value") value_arg s λ value.
            if not (place == bytes "BEFORE" || place == bytes "AFTER")
            then fail (bytes "ERR syntax error") s
            else (let (values, s') = E.l_range key (pos 0) (negsuc 0) s in
                insert_at key value (place == bytes "BEFORE") (pivot_index_from 0 pivot values) s')
  handle_l_insert _ s = wrong_arity (bytes "LINSERT") s

  unfoldable pub handle_r_pop_l_push : List CommandArg → E.State → Result
  handle_r_pop_l_push (source_arg ∷ dest_arg ∷ []) s =
      with_bulk (bytes "source") source_arg s λ source.
        with_bulk (bytes "destination") dest_arg s λ dest. element (E.r_pop_l_push source dest s)
  handle_r_pop_l_push _ s = wrong_arity (bytes "RPOPLPUSH") s

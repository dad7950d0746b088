-- ===== src/Protocol/Parser/Request.antt =====
-- `ToCommandArg`, `ParseCommand` and `ParseCommandFromArray` of
-- src/astra/protocol/resp/resp_parser.cpp: requests of clients.
use astra_db.Prelude.{
  ℕ, zero, suc, ◌+◌, Bool, true, false, ◌&&◌, Option, none, some, ◌>>=◌, List, [], ◌∷◌, length,
  get_elem?, take, drop, Bytes, ltb, nat_eqb, if◌then◌else◌,
}
use astra_db.Prelude.Int.{ℤ, pos, negsuc}
use astra_db.Protocol.Builder.{Formats}
use astra_db.Protocol.Parser.{parse, parse_int_line_fast, max_int32}
use astra_db.Protocol.Types
use astra_db.Protocol.Types.{RespType, RespValue, Values, CommandArg, Command, cons}

abbrev pub byte_is : ℕ → Option ℕ → Bool
byte_is b none = false
byte_is b (some c) = nat_eqb c b

-- The part of the fast path behind '$': the payload, `none` inside for the null bulk string.
unfoldable pub bulk_text : ℤ → Bytes → Option (Option Bytes × Bytes)
bulk_text (pos len) working =
    if ltb (length working) (len + 2)
    then none
    else if byte_is 13 (get_elem? working len) && byte_is 10 (get_elem? working (len + 1))
    then some (some (take len working), drop (len + 2) working)
    else none
bulk_text (negsuc zero) working = some (none, working)
bulk_text (negsuc (suc n)) working = none

unfoldable pub fast_bulk : Bytes → Option (Option Bytes × Bytes)
unfolding bulk_text
fast_bulk working = do (len, rest) ← parse_int_line_fast true working; bulk_text len rest

module _ (fmt : Formats) (find : Bytes → Option ℕ) where
  unfoldable pub to_command_arg : RespValue fmt.F → Option CommandArg
  to_command_arg (RespValue.bulk_string s) = some (Types.of_string s)
  to_command_arg (RespValue.simple_string s) =
      some (record { type_ = RespType.simple_string; value_ = s })
  to_command_arg (RespValue.integer n) =
      some (record { type_ = RespType.integer; value_ = fmt.of_integer n })
  to_command_arg RespValue.null_bulk_string = some (Types.of_type RespType.null_bulk_string)
  to_command_arg RespValue.null_array = some (Types.of_type RespType.null_bulk_string)
  to_command_arg RespValue.null = some (Types.of_type RespType.null_bulk_string)
  to_command_arg (RespValue.bare RespType.null_bulk_string) =
      some (Types.of_type RespType.null_bulk_string)
  to_command_arg (RespValue.bare RespType.null_array) =
      some (Types.of_type RespType.null_bulk_string)
  to_command_arg (RespValue.bare RespType.null) = some (Types.of_type RespType.null_bulk_string)
  to_command_arg v = none

  unfoldable pub to_command_args : Values fmt.F → Option (List CommandArg)
  unfolding to_command_arg
  to_command_args Values.nil = some []
  to_command_args (cons v vs) = do
    arg ← to_command_arg v
    args ← to_command_args vs
    some (arg ∷ args)

  unfoldable pub parse_command : RespValue fmt.F → Option Command
  unfolding to_command_args
  parse_command (RespValue.array (cons (RespValue.bulk_string name) vs)) = do
    args ← to_command_args vs
    some (record { name = name; args = args })
  parse_command v = none

  -- The first element of a request, the command's name.
  unfoldable pub parse_name : Bytes → Option (Bytes × Bytes)
  unfolding fast_bulk
  parse_name [] = none
  parse_name (c ∷ rest) =
      if nat_eqb c b'$'
      then (do
        (text, rest') ← fast_bulk rest
        elim text [ none ↦ none | some name ↦ some (name, rest') ])
      else (do
        (value, rest') ← parse fmt find (length (c ∷ rest)) (c ∷ rest)
        elim value [ RespValue.bulk_string name ↦ some (name, rest') | _ ↦ none ])

  -- Any later element.
  unfoldable pub parse_arg : Bytes → Option (CommandArg × Bytes)
  unfolding fast_bulk to_command_arg
  parse_arg [] = none
  parse_arg (c ∷ rest) =
      if nat_eqb c b'$'
      then (do
        (text, rest') ← fast_bulk rest
        elim text [
          | none ↦ some (Types.of_type RespType.null_bulk_string, rest')
          | some s ↦ some (Types.of_string s, rest')
        ])
      else (do
        (value, rest') ← parse fmt find (length (c ∷ rest)) (c ∷ rest)
        arg ← to_command_arg value
        some (arg, rest'))

  unfoldable pub parse_args : ℕ → Bytes → Option (List CommandArg × Bytes)
  unfolding parse_arg
  parse_args zero working = some ([], working)
  parse_args (suc n) working = do
    (arg, rest) ← parse_arg working
    (args, rest') ← parse_args n rest
    some (arg ∷ args, rest')

  unfoldable pub parse_request : ℤ → Bytes → Option (Command × Bytes)
  unfolding parse_name parse_args
  parse_request (pos (suc n)) working = if ltb max_int32 (suc n) then none else (do
    (name, rest) ← parse_name working
    (args, rest') ← parse_args n rest
    some (record { name = name; args = args }, rest'))
  parse_request count working = none

  unfoldable pub parse_command_from_array : Bytes → Option (Command × Bytes)
  unfolding parse_request
  parse_command_from_array [] = none
  parse_command_from_array (c ∷ rest) =
      if nat_eqb c b'*'
      then (do (count, working) ← parse_int_line_fast false rest; parse_request count working)
      else none

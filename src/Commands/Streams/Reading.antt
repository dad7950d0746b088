-- ===== src/Commands/Streams/Reading.antt =====
-- The handlers of src/astra/commands/redis/stream_commands.cpp that read: XRANGE, XREVRANGE, XREAD.
use astra_db.Prelude.{
  ℕ, ◌⊎◌, inl, inr, ◌-◌, ◌/◌, ◌%◌, ◌^◌, true, false, not, Option, none, some, List, [], ◌∷◌, map,
  length, is_nil, ltb, nat_eqb, Bytes, bytes, bytes_eq, ◌==◌, if◌then◌else◌, get_elem?, drop, take,
  ◌>>=◌,
}
use mathlib.Core.List.{reverse}
use astra_db.Prelude.Int.{low_bits}
use astra_db.Container.Streams
use astra_db.Container.Streams.{
  StreamId, StreamEntry, StreamConsumerGroup, StreamData, stream_id, lt, le, PendingEntry,
}
use astra_db.Protocol.Types.{RespValue, Values}
use astra_db.Commands.Streams as Commands
use astra_db.Commands.Streams.{Setting}
use astra_db.Commands.Streams.Entries.{in_range_loop, in_reverse_loop}

module _ (E : Setting) where
  unfoldable pub count_option : List Bytes → Option ℕ
  count_option (_ ∷ _ ∷ _ ∷ word ∷ number ∷ _) =
      if word == bytes "COUNT" then E.stoull number else some 0
  count_option _ = some 0

  unfoldable pub handle_x_range : Commands.Handler E
  unfolding in_range_loop count_option
  handle_x_range args t =
      if ltb (length args) 3
      then Commands.fail E (bytes "ERR wrong number of arguments for 'xrange' command") t
      else do
        key ← get_elem? args 0
        start_str ← get_elem? args 1
        end_str ← get_elem? args 2
        let start : StreamId = if start_str == bytes "-" then stream_id 0 0 else E.parse start_str
        let end : StreamId =
            if end_str == bytes "+" then stream_id (2 ^ 64 - 1) (2 ^ 64 - 1) else E.parse end_str
        count ← count_option args
        Commands.reply E
            (elim (Commands.get_stream E t key) [
              | none ↦ RespValue.array Values.nil
              | some s ↦ RespValue.array (
                  Commands.values E (
                    map (Commands.stream_entry_to_resp E)
                      (in_range_loop start end count 0 s.entries)))
            ])
            t

  -- The options COUNT of XREAD and XREADGROUP: the last count, and the arguments behind them.
  unfoldable pub count_options : ℕ → List Bytes → Option (ℕ × List Bytes)
  count_options count [] = some (count, [])
  count_options count (word ∷ []) = if word == bytes "COUNT" then none else some (count, word ∷ [])
  count_options count (word ∷ number ∷ rest) =
      if word == bytes "COUNT"
      then (do n ← E.stoull number; count_options n rest)
      else some (count, word ∷ number ∷ rest)

  -- The reply for one stream: its key and the entries read.
  unfoldable pub stream_result : Bytes → List StreamEntry → RespValue E.F
  stream_result key entries = RespValue.array (
      Commands.values E (
        RespValue.bulk_string key
        ∷ RespValue.array (Commands.values E (map (Commands.stream_entry_to_resp E) entries))
        ∷ []))

  abbrev pub results : List (RespValue E.F) → RespValue E.F
  results rs = if is_nil rs then RespValue.null else RespValue.array (Commands.values E rs)

  unfoldable pub read_streams :
      ℕ → List (Bytes × StreamId) → Commands.Table E → List (RespValue E.F)
  unfolding stream_result
  read_streams count [] t = []
  read_streams count ((key, id) ∷ pairs) t =
      let rest = read_streams count pairs t in
      elim (Commands.get_stream E t key) [
        | none ↦ rest
        | some s ↦
            let entries = Streams.read E.C E.G id count true s in
            if is_nil entries then rest else stream_result key entries ∷ rest
      ]

  abbrev pub zip : List Bytes → List StreamId → List (Bytes × StreamId)
  zip (a ∷ xs) (b ∷ ys) = (a, b) ∷ zip xs ys
  zip _ _ = []

  -- "$" stands for an id behind all; `SimpleAtoi` reads its two numbers as `int64_t`.
  abbrev read_from : Bytes → StreamId
  read_from id_str =
      E.parse
        (if id_str == bytes "$" then bytes "18446744073709551615-18446744073709551615" else id_str)

  unfoldable pub handle_x_read : Commands.Handler E
  unfolding count_options read_streams
  handle_x_read args t =
      if ltb (length args) 3
      then Commands.fail E (bytes "ERR wrong number of arguments for 'xread' command") t
      else do
        (count, rest) ← count_options 1 args
        word ← get_elem? rest 0
        let behind = drop 1 rest
        if not (word == bytes "STREAMS")
            then Commands.fail E (bytes "ERR syntax error") t
            else if not (nat_eqb (length behind % 2) 0)
            then Commands.fail E
                (bytes
                  "ERR Unbalanced XREAD list of streams: for each stream key an ID or '$' must be specified")
                t
            else (let half = length behind / 2 in
                let pairs = zip (take half behind) (map read_from (drop half behind)) in
                Commands.reply E (results (read_streams count pairs t)) t)

  -- The options of XREVRANGE: the message of an error, or the count; other arguments are passed over.
  unfoldable pub reverse_count : ℕ → List Bytes → Bytes ⊎ ℕ
  reverse_count count [] = inr count
  reverse_count count (arg ∷ []) =
      if E.upper arg == bytes "COUNT" then inl (bytes "ERR syntax error") else inr count
  reverse_count count (arg ∷ number ∷ args) = elim (E.upper arg == bytes "COUNT") [
    | true ↦ elim (E.simple_atoi number) [
      | none ↦ inl (bytes "ERR invalid count")
      | some n ↦ reverse_count (low_bits n (2 ^ 64)) args
    ]
    | false ↦ reverse_count count (number ∷ args)
  ]

  unfoldable pub handle_x_rev_range : Commands.Handler E
  unfolding reverse_count
  handle_x_rev_range args t =
      if ltb (length args) 3
      then Commands.fail E (bytes "ERR wrong number of arguments for 'XREVRANGE' command") t
      else do
        key ← get_elem? args 0
        end_str ← get_elem? args 1
        start_str ← get_elem? args 2
        elim (reverse_count (2 ^ 64 - 1) (drop 3 args)) [
          | inl message ↦ Commands.fail E message t
          | inr count ↦
              Commands.reply E
                (elim (Commands.get_stream E t key) [
                  | none ↦ RespValue.array Values.nil
                  | some s ↦
                      let found =
                        in_reverse_loop (E.parse start_str) (E.parse end_str) count 0
                          (reverse s.entries) in
                      RespValue.array
                        (Commands.values E (map (Commands.stream_entry_to_resp E) found))
                ])
                t
        ]

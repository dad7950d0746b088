-- ===== src/Commands/Streams/GroupCommands.antt =====
-- The handlers of src/astra/commands/redis/stream_commands.cpp for consumer groups, XGROUP,
-- XREADGROUP and XACK, and XSETID.
use astra_db.Prelude.{
  ℕ, ◌+◌, ◌/◌, ◌%◌, Bool, false, not, ◌&&◌, none, some, is_some, List, [], ◌∷◌, length, is_nil, ltb,
  nat_eqb, Bytes, bytes, bytes_eq, ◌==◌, if◌then◌else◌, get_elem?, drop, take, ◌>>=◌,
}
use astra_db.Prelude.Int.{ℤ}
use astra_db.Container.Streams
use astra_db.Container.Streams.{StreamId, StreamConsumerGroup, StreamData, PendingEntry}
use astra_db.Protocol.Types.{RespValue}
use astra_db.Server.Transactions.{ok_reply}
use astra_db.Commands.Streams as Commands
use astra_db.Commands.Streams.{Setting}
use astra_db.Commands.Streams.Entries.{erase_pending}
use astra_db.Commands.Streams.Reading.{count_options, stream_result, results}

module _ (E : Setting) where
  unfoldable pub handle_x_group : Commands.Handler E
  handle_x_group args t =
      if ltb (length args) 4
      then Commands.fail E (bytes "ERR wrong number of arguments for 'xgroup' command") t
      else do
        subcmd ← get_elem? args 0
        key ← get_elem? args 1
        group_name ← get_elem? args 2
        fourth ← get_elem? args 3
        let mkstream : Bool = elim (get_elem? args 4) [
          | none ↦ false
          | some w ↦ w == bytes "MKSTREAM"
        ]
        if E.lower subcmd == bytes "create"
            then (if not (is_some (Commands.get_stream E t key)) && not mkstream
                then Commands.fail E (bytes "ERR no such key") t
                else (let (stream, t') = Commands.get_or_create_stream E key t in
                    let (created, stream') =
                      Streams.create_group E.C E.G group_name (E.parse fourth) stream in
                    if created
                    then some (ok_reply, Commands.put_stream E key stream' t')
                    else Commands.fail E (bytes "ERR BUSYGROUP Consumer Group name already exists")
                        t'))
            else if E.lower subcmd == bytes "destroy"
            then elim (Commands.get_stream E t key) [
              | none ↦ Commands.reply E (Commands.integer E 0) t
              | some s ↦
                  if is_some (E.G.find s.groups group_name)
                  then Commands.reply E (Commands.integer E 1) (
                      Commands.put_stream E key
                        (record s { groups = E.G.erase group_name s.groups }) t)
                  else Commands.reply E (Commands.integer E 0) t
            ]
            else Commands.fail E (bytes "ERR unknown subcommand") t

  -- The loop of XREADGROUP over the keys.
  unfoldable pub read_groups :
      ℤ
      → Bytes
      → Bytes
      → ℕ
      → List Bytes
      → Commands.Table E
      → List (RespValue E.F) × Commands.Table E
  read_groups now group_name consumer count [] t = ([], t)
  read_groups now group_name consumer count (key ∷ keys) t =
      let skipped = read_groups now group_name consumer count keys t in
      elim (Commands.get_stream E t key) [
        | none ↦ skipped
        | some s ↦
            let (entries, s') = Streams.read_group E.C E.G now group_name consumer count s in
            let rest =
              read_groups now group_name consumer count keys (Commands.put_stream E key s' t) in
            if is_nil entries then rest else (stream_result E key entries ∷ rest.0, rest.1)
      ]

  unfoldable pub handle_x_read_group : ℤ → Commands.Handler E
  unfolding read_groups
  handle_x_read_group now args t =
      let wrong =
        Commands.fail E (bytes "ERR wrong number of arguments for 'xreadgroup' command") t in
      if ltb (length args) 6 then wrong else do
        group_word ← get_elem? args 0
        if not (group_word == bytes "GROUP") then wrong else (do
          group_name ← get_elem? args 1
          consumer ← get_elem? args 2
          (count, rest) ← count_options E 1 (drop 3 args)
          word ← get_elem? rest 0
          let behind = drop 1 rest
          if not (word == bytes "STREAMS")
              then Commands.fail E (bytes "ERR syntax error") t
              else if not (nat_eqb (length behind % 2) 0)
              then Commands.fail E (bytes "ERR Unbalanced list") t
              else (let keys = take (length behind / 2) behind in
                  let (found, t') = read_groups now group_name consumer count keys t in
                  Commands.reply E (results E found) t'))

  -- The entries that are still pending, and how many were acknowledged.
  unfoldable pub acknowledge :
      List Bytes → List (StreamId × PendingEntry) → List (StreamId × PendingEntry) × ℕ
  unfolding erase_pending
  acknowledge [] pending = (pending, 0)
  acknowledge (arg ∷ args) pending =
      let (left, erased) = erase_pending (E.parse arg) pending in
      let rest = acknowledge args left in if erased then (rest.0, rest.1 + 1) else rest

  unfoldable pub handle_x_ack : Commands.Handler E
  unfolding acknowledge
  handle_x_ack args t =
      if ltb (length args) 3
      then Commands.fail E (bytes "ERR wrong number of arguments for 'xack' command") t
      else do
        key ← get_elem? args 0
        group_name ← get_elem? args 1
        elim (Commands.get_stream E t key) [
          | none ↦ Commands.reply E (Commands.integer E 0) t
          | some s ↦ elim (E.G.find s.groups group_name) [
            | none ↦ Commands.reply E (Commands.integer E 0) t
            | some g ↦
                let (left, acked) = acknowledge (drop 2 args) g.pending_entries in
                let g' : StreamConsumerGroup E.C = record g { pending_entries = left } in
                let s' : StreamData E.C E.G = record s {
                  groups = E.G.insert_or_assign group_name g' s.groups;
                } in
                Commands.reply E (Commands.integer E acked) (Commands.put_stream E key s' t)
          ]
        ]

  unfoldable pub handle_x_set_id : Commands.Handler E
  handle_x_set_id args t =
      if ltb (length args) 2
      then Commands.fail E (bytes "ERR wrong number of arguments for 'XSETID' command") t
      else do
        key ← get_elem? args 0
        last_id ← get_elem? args 1
        elim (Commands.get_stream E t key) [
          | none ↦ Commands.fail E (bytes "ERR no such key") t
          | some s ↦
              some (ok_reply, Commands.put_stream E key (record s { last_id = E.parse last_id }) t)
        ]

-- ===== src/Server/Connection.antt =====
-- What a connection does with the bytes that it receives (`Connection::ProcessCommands`,
-- src/astra/server/worker.hpp): it parses as many commands as there are, puts them on the queue of
-- its worker's executor, and keeps the bytes that are left. Logs and metrics are left out.
pub mod Pipeline
pub mod Rounds
pub mod Reads
use astra_db.Prelude.{
  ℕ, zero, suc, ◌+◌, ◌-◌, ◌*◌, Bool, true, false, ◌&&◌, not, Option, none, some, List, [], ◌∷◌,
  ◌++◌, length, drop, is_nil, Bytes, bytes, leb, nat_eqb, if◌then◌else◌,
}
use astra_db.Protocol.Builder.{Formats}
use astra_db.Protocol.Parser.{parse, has_complete_value}
use astra_db.Protocol.Parser.Request.{parse_command, parse_command_from_array}
use astra_db.Protocol.Types.{Command}

pub record Connection : Type 0 where
  pub receive_buffer_ : Bytes
  pub receive_buffer_offset_ : ℕ

-- What one call puts on the queues of commands and of responses, and what it has consumed.
pub record Batch : Type 0 where
  pub commands : List Command
  pub responses : List Bytes
  pub total_consumed : ℕ
  pub protocol_error : Bool

abbrev pub receive_buffer_compact_threshold : ℕ
receive_buffer_compact_threshold = 8192

abbrev pub nothing_read : Batch
nothing_read = record { commands = []; responses = []; total_consumed = 0; protocol_error = false }

abbrev pub enqueue_command : ℕ → Command → Batch → Batch
enqueue_command consumed command b = record b {
  commands = command ∷ b.commands;
  total_consumed = consumed + b.total_consumed;
}

abbrev pub send_response : ℕ → Bytes → Batch → Batch
send_response consumed response b = record b {
  responses = response ∷ b.responses;
  total_consumed = consumed + b.total_consumed;
}

-- What becomes of the buffer once `offset` bytes of it are consumed.
unfoldable pub compact : Bool → ℕ → Bytes → Connection
compact protocol_error offset buffer =
    if protocol_error
    then record { receive_buffer_ = []; receive_buffer_offset_ = 0 }
    else if nat_eqb offset (length buffer)
    then record { receive_buffer_ = []; receive_buffer_offset_ = 0 }
    else if leb receive_buffer_compact_threshold offset && leb (length buffer) (offset * 2)
    then record { receive_buffer_ = drop offset buffer; receive_buffer_offset_ = 0 }
    else record { receive_buffer_ = buffer; receive_buffer_offset_ = offset }

module _ (fmt : Formats) (find : Bytes → Option ℕ) where
  -- The loop over `remaining`. Each round consumes at least one byte, so that the number of bytes
  -- is enough fuel.
  unfoldable pub read_loop : ℕ → Bytes → Batch
  unfolding parse_command_from_array parse parse_command has_complete_value
  read_loop zero remaining = nothing_read
  read_loop (suc fuel) [] = nothing_read
  read_loop (suc fuel) (c ∷ t) = elim (parse_command_from_array fmt find (c ∷ t)) [
    | some (command, rest) ↦
        enqueue_command (length (c ∷ t) - length rest) command (read_loop fuel rest)
    | none ↦ elim (parse fmt find (length (c ∷ t)) (c ∷ t)) [
      | none ↦
          if has_complete_value fmt find (c ∷ t)
          then record nothing_read {
            responses = bytes "ERR invalid RESP protocol" ∷ [];
            protocol_error = true;
          }
          else nothing_read
      | some (value, rest) ↦ elim (parse_command fmt find value) [
        | none ↦
            send_response (length (c ∷ t) - length rest) (bytes "ERR invalid command format")
              (read_loop fuel rest)
        | some command ↦
            enqueue_command (length (c ∷ t) - length rest) command (read_loop fuel rest)
      ]
    ]
  ]

  unfoldable pub process_commands : Connection → Batch × Connection
  unfolding read_loop compact
  process_commands c =
      let remaining = drop c.receive_buffer_offset_ c.receive_buffer_ in
      let b = read_loop (length remaining) remaining in
      if leb (length c.receive_buffer_) c.receive_buffer_offset_
      then (nothing_read, record { receive_buffer_ = []; receive_buffer_offset_ = 0 })
      else (
        b,
        compact b.protocol_error (c.receive_buffer_offset_ + b.total_consumed) c.receive_buffer_,
      )

  -- One read of the socket: what is consumed is compacted, the new bytes are appended and
  -- processed.
  unfoldable pub receive : Bytes → Connection → Batch × Connection
  unfolding process_commands compact
  receive chunk c =
      let kept = compact false c.receive_buffer_offset_ c.receive_buffer_ in
      process_commands (record kept { receive_buffer_ = kept.receive_buffer_ ++ chunk })

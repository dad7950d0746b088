-- ===== src/Tests/Connection.antt =====
-- Runs of a connection: requests that are cut in the middle, and bytes that are not a request.
use astra_db.Tests.Protocol.Decimal.{decimal, decimal-IsDecimal}
use astra_db.Tests.Protocol.{formats}
use astra_db.Prelude.{map, ◌≤◌, ◌≡◌, refl, false, [], ◌∷◌, ◌++◌, length, drop, Bytes, bytes, arith}
use astra_db.Protocol.Builder.{build_array, build_bulk_strings, build_bulk_string}
use astra_db.Protocol.FindCrlf.{find_crlf}
use astra_db.Protocol.Parser.{parse, by_type, parse_int_line_fast}
use astra_db.Protocol.Parser.Request.{parse_command_from_array}
use astra_db.Protocol.Parser.Fuel.{parse_fuel}
use astra_db.Server.Connection.{Connection, read_loop, receive}
use astra_db.Server.Connection.Pipeline.{pending}
use astra_db.Server.Connection.Reads.{
  Read, IsIncomplete, Cut, receive_all, all_asked, left_by, pipelined,
}
use astra_db.Server.Connection.Rounds.{loop_ends, receive_keeps}

abbrev connection : Connection
connection = record { receive_buffer_ = bytes "zz*2\r\n$3\r\nG"; receive_buffer_offset_ = 2 }

abbrev chunk : Bytes
chunk = bytes "ET\r\n$1\r\nk\r\n*1\r\n$4\r\nPING\r\n"

-- The first read ends within the second request, which the second read completes.
abbrev first_read : Read
first_read = record {
  requests = (bytes "GET", bytes "k" ∷ []) ∷ [];
  chunk = bytes "ET\r\n$1\r\nk\r\n*1\r\n$4\r\nPI";
  tail = bytes "*1\r\n$4\r\nPI";
}

abbrev second_read : Read
second_read = record { requests = (bytes "PING", []) ∷ []; chunk = bytes "NG\r\n"; tail = [] }

cut_short : IsIncomplete formats find_crlf first_read.tail
unfolding parse_command_from_array parse_int_line_fast parse
cut_short = (refl, refl)

nothing_left : IsIncomplete formats find_crlf []
unfolding parse_command_from_array parse
nothing_left = (refl, refl)

cut : Cut formats find_crlf decimal-IsDecimal (pending connection) (first_read ∷ second_read ∷ [])
unfolding build_array build_bulk_strings build_bulk_string decimal
cut = (
  ((omega arith, (omega arith, tt)), omega arith, tt),
  cut_short,
  refl,
  (((omega arith, tt), omega arith, tt), nothing_left, refl, tt),
)

pipelined_example :
    let reads = first_read ∷ second_read ∷ [] in
    let ((commands, responses), c') =
      receive_all formats find_crlf (map (λ r. r.chunk) reads) connection in
    (commands ≡ all_asked formats find_crlf decimal-IsDecimal reads)
    × (responses ≡ [])
    × (pending c' ≡ left_by formats find_crlf decimal-IsDecimal (pending connection) reads)
    × (c'.receive_buffer_offset_ ≤ length c'.receive_buffer_)
pipelined_example =
    pipelined formats find_crlf decimal-IsDecimal (first_read ∷ second_read ∷ []) connection
      (omega arith) cut

receive_keeps_example :
    let there = pending connection ++ bytes "ET\r\n!" in
    let r = receive formats find_crlf (bytes "ET\r\n!") connection in
    (r.0 ≡ read_loop formats find_crlf (length there) there)
    × (r.0.total_consumed ≤ length there)
    × (r.0.protocol_error ≡ false)
    × (pending r.1 ≡ drop r.0.total_consumed there)
    × (r.1.receive_buffer_offset_ ≤ length r.1.receive_buffer_)
receive_keeps_example = receive_keeps formats find_crlf connection (bytes "ET\r\n!") (omega arith)

loop_ends_example :
    (read_loop formats find_crlf 100 chunk ≡ read_loop formats find_crlf 30 chunk)
    × ((read_loop formats find_crlf 100 chunk).total_consumed ≤ length chunk)
loop_ends_example = loop_ends formats find_crlf 100 30 chunk (omega arith) (omega arith)

parse_fuel_example :
    (parse formats find_crlf 9 (bytes "*1\r\n:5\r\n")
      ≡ parse formats find_crlf 8 (bytes "*1\r\n:5\r\n"))
    × (parse formats find_crlf 9 (bytes "*1\r\n:5\r\n")
        ≡ by_type formats find_crlf
            (λ u. parse formats find_crlf (length u) u)
            b'*'
            (bytes "1\r\n:5\r\n"))
parse_fuel_example = parse_fuel formats find_crlf 9 b'*' (bytes "1\r\n:5\r\n") (omega arith)

-- ===== src/Server/Connection/Reads.antt =====
-- Requests that arrive in several reads of a connection (`Connection::ProcessCommands`,
-- src/astra/server/worker.hpp).
use mathlib.Core.List.{append_assoc}
use mathlib.Core.Path.{subst}
use astra_db.Prelude.{
  ℕ, zero, suc, ◌≤◌, ◌≡◌, refl, ap, sym, ◌∙◌, false, none, Option, List, [], ◌∷◌, ◌++◌, map, length,
  drop, length-append, Bytes, arith,
}
use astra_db.Protocol.Builder.{Formats, build_array}
use astra_db.Protocol.Parser.{parse, has_complete_value}
use astra_db.Protocol.Parser.Request.{parse_command_from_array}
use astra_db.Protocol.Parser.RoundTrip.{IsDecimal, written, request_round_trip}
use astra_db.Protocol.Types.{Command}
use astra_db.Prelude.Int.{pos}
use astra_db.Server.Connection.{Connection, Batch, read_loop, receive}
use astra_db.Server.Connection.Pipeline.{pending, stream, Writable, asked}
use astra_db.Server.Connection.Rounds.{receive_keeps}

-- What one read completes: these requests, by this chunk of bytes, with these bytes left.
pub record Read : Type 0 where
  pub requests : List (Bytes × List Bytes)
  pub chunk : Bytes
  pub tail : Bytes

drop_prefix : (xs ys : Bytes) → drop (length xs) (xs ++ ys) ≡ ys
drop_prefix [] ys = refl
drop_prefix (x ∷ xs) ys = drop_prefix xs ys

module _ (fmt : Formats) (find : Bytes → Option ℕ) where
  -- Neither parser finds a value at the start of these bytes.
  abbrev pub IsIncomplete : Bytes → Type 0
  IsIncomplete t =
      (parse_command_from_array fmt find t ≡ none) × (parse fmt find (length t) t ≡ none)

  -- The reads of a socket, one after the other: the commands and the responses in their order.
  unfoldable pub receive_all : List Bytes → Connection → (List Command × List Bytes) × Connection
  unfolding receive
  receive_all [] c = (([], []), c)
  receive_all (chunk ∷ chunks) c =
      let (b, c') = receive fmt find chunk c in
      let (later, c'') = receive_all chunks c' in
      ((b.commands ++ later.0, b.responses ++ later.1), c'')

  module _ (decimal : (n : ℕ) → IsDecimal n (fmt.of_integer (pos n))) where
    abbrev read_all : List (Bytes × List Bytes) → ℕ → Batch
    read_all requests n = record {
      commands = asked fmt find decimal requests;
      responses = [];
      total_consumed = n;
      protocol_error = false;
    }

    read_tail :
        (tail : Bytes) (fuel : ℕ) → IsIncomplete tail → read_loop fmt find fuel tail ≡ read_all [] 0
    unfolding read_loop
    read_tail [] zero waits = refl
    read_tail [] (suc fuel) waits = refl
    read_tail (c ∷ t) zero waits = refl
    read_tail (c ∷ t) (suc fuel) (no_command, no_value) =
        let no : has_complete_value fmt find (c ∷ t) ≡ false =
          rw (no_value, has_complete_value) refl in
        rw (no_command, no_value, no, read_loop) refl

    read_stream :
        (requests : List (Bytes × List Bytes)) (tail : Bytes) (fuel : ℕ)
        → length (stream fmt find decimal requests ++ tail) ≤ fuel
        → Writable fmt find decimal requests
        → IsIncomplete tail
        → read_loop fmt find fuel (stream fmt find decimal requests ++ tail)
          ≡ read_all requests (length (stream fmt find decimal requests))
    unfolding read_loop build_array
    read_stream [] tail fuel h ok waits = read_tail tail fuel waits
    read_stream ((name, args) ∷ requests) tail zero h ok waits = absurd (omega arith)
    read_stream ((name, args) ∷ requests) tail (suc fuel) h ok waits =
        let more = stream fmt find decimal requests in
        let this = written fmt find decimal name args in
        let shape = append_assoc this more tail in
        let parsed = request_round_trip fmt find decimal name args (more ++ tail) ok.0 ok.1 in
        let size = length-append this (more ++ tail) in
        let size' = length-append this more in
        let later =
          read_stream requests tail fuel
            (omega (arith, h, size, ap (λ (l : Bytes). length l) shape)) ok.2 waits in
        rw shape (
          rw (parsed, read_loop)
            (rw later (
              ap (read_all ((name, args) ∷ requests))
                (omega (arith, size, size', length-append more tail)))))

    one_read :
        (r : Read) (c : Connection)
        → c.receive_buffer_offset_ ≤ length c.receive_buffer_
        → Writable fmt find decimal r.requests
        → IsIncomplete r.tail
        → pending c ++ r.chunk ≡ stream fmt find decimal r.requests ++ r.tail
        → let (b, c') = receive fmt find r.chunk c in
          (b.commands ≡ asked fmt find decimal r.requests)
          × (b.responses ≡ [])
          × (pending c' ≡ r.tail)
          × (c'.receive_buffer_offset_ ≤ length c'.receive_buffer_)
    one_read r c h ok waits whole =
        let (read, within, fine, left, bounded) = receive_keeps fmt find c r.chunk h in
        let s = stream fmt find decimal r.requests in
        let there = pending c ++ r.chunk in
        let loop : read_loop fmt find (length there) there ≡ read_all r.requests (length s) =
          rw whole (read_stream r.requests r.tail (length (s ++ r.tail)) (omega arith) ok waits) in
        let batch = read ∙ loop in
        (
          ap (λ (b : Batch). b.commands) batch,
          ap (λ (b : Batch). b.responses) batch,
          left
              ∙ ap (λ (b : Batch). drop b.total_consumed there) batch
              ∙ ap (λ (l : Bytes). drop (length s) l) whole
              ∙ drop_prefix s r.tail,
          bounded,
        )

    -- How the reads cut what arrives behind the bytes t that are kept.
    abbrev pub Cut : Bytes → List Read → Type 0
    Cut t [] = Unit {0}
    Cut t (r ∷ reads) =
        Writable fmt find decimal r.requests
        × IsIncomplete r.tail
        × (t ++ r.chunk ≡ stream fmt find decimal r.requests ++ r.tail)
        × Cut r.tail reads

    abbrev pub all_asked : List Read → List Command
    all_asked [] = []
    all_asked (r ∷ reads) = asked fmt find decimal r.requests ++ all_asked reads

    abbrev pub left_by : Bytes → List Read → Bytes
    left_by t [] = t
    left_by t (r ∷ reads) = left_by r.tail reads

    -- Requests written as arrays of bulk strings arrive in any number of reads. Each read completes
    -- some of them, maybe none, and may end within a request, at a place where the parsers find no
    -- value in the part that has come. Then the requests go to the executor whole, each once and in
    -- their order, no read makes a response, and the part of the last request that has come is kept.
    pub pipelined :
        (reads : List Read) (c : Connection)
        → c.receive_buffer_offset_ ≤ length c.receive_buffer_
        → Cut (pending c) reads
        → let ((commands, responses), c') = receive_all (map (λ r. r.chunk) reads) c in
          (commands ≡ all_asked reads)
          × (responses ≡ [])
          × (pending c' ≡ left_by (pending c) reads)
          × (c'.receive_buffer_offset_ ≤ length c'.receive_buffer_)
    unfolding receive_all
    pipelined [] c h cut = (refl, refl, refl, h)
    pipelined (r ∷ reads) c h (ok, waits, whole, cut) =
        let (commands, responses, kept, bounded) = one_read r c h ok waits whole in
        let c' = (receive fmt find r.chunk c).1 in
        let rest = subst (λ (t : Bytes). Cut t reads) (sym kept) cut in
        let (commands', responses', kept', bounded') = pipelined reads c' bounded rest in
        (
          rw (commands, commands') refl,
          rw (responses, responses') refl,
          kept' ∙ ap (λ (t : Bytes). left_by t reads) kept,
          bounded',
        )

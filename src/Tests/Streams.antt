-- ===== src/Tests/Streams.antt =====
-- Runs of streams and their groups.
use astra_db.Prelude.{
  ℕ, ◌%◌, ◌^◌, ◌<◌, ◌≡◌, ◌⊎◌, refl, List, [], ◌∷◌, ◌++◌, take, length, Bytes, bytes, bytes_eq,
  arith,
}
use astra_db.Prelude.Int.{pos}
use astra_db.Abseil.{FlatHashMap, lookup, insert}
use astra_db.Abseil.Model.{model}
use astra_db.Container.Streams.{
  StreamId, StreamEntry, StreamConsumerGroup, StreamData, stream_id, parse_id, init, add_entry,
  create_group, read_group, next_id, append_entry,
}
use astra_db.Container.Streams.Order.{Increasing, after}
use astra_db.Commands.Streams.Growth.{IsValid, Refused, Added}
use astra_db.Commands.Streams.Ids
use astra_db.Commands.Streams.Ids.{run, ids_grow}
use astra_db.Commands.Streams.Groups.{quota, position}
use astra_db.Commands.Streams.Delivery
use astra_db.Commands.Streams.Delivery.{serve, delivered_once}

abbrev consumers : FlatHashMap Bytes StreamId
consumers = model Bytes StreamId

abbrev groups : FlatHashMap Bytes (StreamConsumerGroup consumers)
groups = model Bytes (StreamConsumerGroup consumers)

-- Every text stands for a number in one part.
abbrev parse : Bytes → StreamId
parse = parse_id (λ t. t ∷ []) (λ t. length t % 2 ^ 63)

small : (t : Bytes) → ((parse t).ms < 2 ^ 63) × ((parse t).seq < 2 ^ 63)
unfolding parse_id
small t = (ground arith, ground arith)

abbrev calls : List Ids.Call
calls =
    Ids.Call.add 5 [] (bytes "*") 0
    ∷ Ids.Call.add 5 [] (bytes "*") 0
    ∷ Ids.Call.create_group (bytes "g") (stream_id 0 0)
    ∷ Ids.Call.read_group (pos 6) (bytes "g") (bytes "ann") 1
    ∷ Ids.Call.trim 1
    ∷ Ids.Call.add 3 [] (bytes "*") 2
    ∷ []

ids_grow_example :
    let s = run consumers groups parse calls (init consumers groups) in
    let r = add_entry consumers groups parse (pos 9) [] (bytes "abc") 0 s in
    Increasing s.entries × (Refused consumers groups s r ⊎ Added consumers groups [] s r)
ids_grow_example =
    ids_grow consumers groups parse small calls 9 [] (bytes "abc") 0 (omega arith) (omega arith)
      (omega arith)

-- The clock stands still or goes back: the sequence number goes on.
kept_ids :
    (run consumers groups parse calls (init consumers groups)).entries
    ≡ record { id = stream_id 5 1; fields = [] } ∷ record { id = stream_id 5 2; fields = [] } ∷ []
unfolding run Ids.call add_entry init next_id append_entry read_group lookup insert create_group
kept_ids = refl

abbrev group : StreamConsumerGroup consumers
group = record {
  name = bytes "g";
  last_delivered_id = stream_id 1 0;
  consumers = consumers.empty;
  pending_entries = [];
}

abbrev entry : ℕ → StreamEntry
entry n = record { id = stream_id n 0; fields = [] }

abbrev stream : StreamData consumers groups
stream = record {
  entries = entry 1 ∷ entry 2 ∷ entry 4 ∷ [];
  last_generated_ms = 4;
  last_generated_seq = 0;
  last_id = stream_id 0 0;
  groups = groups.insert_or_assign (bytes "g") group groups.empty;
  max_len = 0;
}

stream-IsValid : IsValid consumers groups 0 stream
stream-IsValid = record {
  increasing = ((refl, (refl, tt)), ((refl, tt), (tt, tt)));
  within = (refl, (refl, (refl, tt)));
  ms_room = omega arith;
  seq_room = omega arith;
}

abbrev steps : List Delivery.Step
steps =
    Delivery.Step.read (pos 0) (bytes "a") 1
    ∷ Delivery.Step.add 6 [] (bytes "*")
    ∷ Delivery.Step.read (pos 0) (bytes "b") 1
    ∷ []

delivered_once_example :
    let (found, s') = serve consumers groups parse (bytes "g") steps stream in
    let left = after (position consumers groups (bytes "g") s') s'.entries in
    (found ++ left ≡ after (stream_id 1 0) s'.entries)
    × ((more : List StreamEntry) × (s'.entries ≡ stream.entries ++ more))
    × ((read_group consumers groups (pos 1) (bytes "g") (bytes "a") 7 s').0 ≡ take (quota 7 0) left)
unfolding lookup insert
delivered_once_example =
    delivered_once consumers groups parse (bytes "g") small 0 steps stream (pos 1) (bytes "a") 7
      group (omega arith) (omega arith) refl stream-IsValid

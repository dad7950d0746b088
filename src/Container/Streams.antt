-- ===== src/Container/Streams.antt =====
-- src/astra/container/stream_data.hpp: streams, their entries and consumer groups, with the
-- operators of `StreamId` (src/astra/commands/redis/stream_commands.cpp). The clock, in
-- milliseconds, is an argument `now`. A `std::map` is a list that is sorted by its keys.
pub mod Order
use astra_db.Prelude.{
  ℕ, ◌+◌, ◌-◌, ◌%◌, ◌^◌, Bool, true, false, not, ◌&&◌, Option, none, some, is_some, List, [], ◌∷◌,
  ◌++◌, length, is_nil, ltb, leb, nat_eqb, Bytes, bytes, bytes_eq, ◌==◌, if◌then◌else◌,
}
use astra_db.Prelude.Int.{ℤ, pos, negsuc, ltb_ℤ, leb_ℤ, low_bits}
use astra_db.Abseil.{FlatHashMap}

pub record StreamId : Type 0 where
  pub ms : ℕ
  pub seq : ℕ

abbrev pub stream_id : ℕ → ℕ → StreamId
stream_id m s = record { ms = m; seq = s }

-- `operator<`, `operator<=` and `operator==`
abbrev pub lt : StreamId → StreamId → Bool
lt a b = if not (nat_eqb a.ms b.ms) then ltb a.ms b.ms else ltb a.seq b.seq

abbrev pub le : StreamId → StreamId → Bool
le a b = not (lt b a)

abbrev pub eqb : StreamId → StreamId → Bool
eqb a b = nat_eqb a.ms b.ms && nat_eqb a.seq b.seq

-- `StreamId(const std::string&)`. `split` is `absl::StrSplit` at the dashes, and `number` is what
-- `absl::SimpleAtoi` leaves in a field.
unfoldable pub parse_id : (Bytes → List Bytes) → (Bytes → ℕ) → Bytes → StreamId
parse_id split number str = if str == bytes "*" then stream_id 0 0 else elim (split str) [
  | first ∷ [] ↦ stream_id (number first) 0
  | first ∷ second ∷ [] ↦ stream_id (number first) (number second)
  | _ ↦ stream_id 0 0
]

pub record StreamEntry : Type 0 where
  pub id : StreamId
  pub fields : List (Bytes × Bytes)

pub record PendingEntry : Type 0 where
  pub entry : StreamEntry
  pub consumer : Bytes
  pub delivery_count : ℤ
  pub last_delivered : ℤ

-- `pending_entries[id] = pending`
unfoldable pub assign :
    StreamId → PendingEntry → List (StreamId × PendingEntry) → List (StreamId × PendingEntry)
assign id p [] = (id, p) ∷ []
assign id p ((j, q) ∷ rest) =
    let later = assign id p rest in
    if lt id j then (id, p) ∷ (j, q) ∷ rest else if lt j id then (j, q) ∷ later else (id, p) ∷ rest

-- `static_cast<int64_t>`
abbrev pub to_int64 : ℕ → ℤ
to_int64 n = if ltb n (2 ^ 63) then pos n else negsuc (2 ^ 64 - 1 - n)

-- `entries.back()`
unfoldable pub back : List StreamEntry → Option StreamEntry
back [] = none
back (x ∷ []) = some x
back (x ∷ y ∷ ys) = back (y ∷ ys)

-- `while (entries.size() > max_len) entries.pop_front();`
unfoldable pub pop_to : ℕ → List StreamEntry → List StreamEntry
pop_to max_len [] = []
pop_to max_len (x ∷ xs) =
    let rest = pop_to max_len xs in if ltb max_len (length (x ∷ xs)) then rest else x ∷ xs

-- The loop of `Read`; `size` is that of the result so far.
unfoldable pub read_loop : StreamId → ℕ → Bool → ℕ → List StreamEntry → List StreamEntry
read_loop start count exclusive size [] = []
read_loop start count exclusive size (entry ∷ entries) =
    let skipped = read_loop start count exclusive size entries in
    let more = read_loop start count exclusive (size + 1) entries in
    if (if exclusive then le entry.id start else lt entry.id start)
    then skipped
    else if leb count (size + 1)
    then entry ∷ []
    else entry ∷ more

-- The loop of `ReadGroup`: the result and the pending entries.
unfoldable pub group_loop :
    ℤ
    → Bytes
    → ℕ
    → StreamId
    → ℕ
    → List (StreamId × PendingEntry)
    → List StreamEntry
    → List StreamEntry × List (StreamId × PendingEntry)
group_loop now consumer count last size pending [] = ([], pending)
group_loop now consumer count last size pending (entry ∷ entries) =
    let delivered : PendingEntry = record {
      entry = entry;
      consumer = consumer;
      delivery_count = pos 1;
      last_delivered = now;
    } in
    let pending' = assign entry.id delivered pending in
    let skipped = group_loop now consumer count last size pending entries in
    let more = group_loop now consumer count last (size + 1) pending' entries in
    if le entry.id last
    then skipped
    else if leb count (size + 1)
    then (entry ∷ [], pending')
    else (entry ∷ more.0, more.1)

module _ (C : FlatHashMap Bytes StreamId) where
  pub record StreamConsumerGroup : Type 0 where
    pub name : Bytes
    pub last_delivered_id : StreamId
    pub consumers : C.Table
    pub pending_entries : List (StreamId × PendingEntry)

module _ (C : FlatHashMap Bytes StreamId) (G : FlatHashMap Bytes (StreamConsumerGroup C)) where
  pub record StreamData : Type 0 where
    pub entries : List StreamEntry
    pub last_generated_ms : ℕ
    pub last_generated_seq : ℕ
    pub last_id : StreamId
    pub groups : G.Table
    pub max_len : ℕ

  unfoldable pub init : StreamData
  init = record {
    entries = [];
    last_generated_ms = 0;
    last_generated_seq = 0;
    last_id = stream_id 0 0;
    groups = G.empty;
    max_len = 0;
  }

  -- The branch of `AddEntry` for the id "*".
  unfoldable pub next_id : ℤ → StreamData → StreamId
  next_id now s =
      let last = to_int64 s.last_generated_ms in
      let ms : ℤ = if ltb_ℤ now last then last else now in
      if leb_ℤ ms last && leb_ℤ last ms
      then stream_id s.last_generated_ms ((s.last_generated_seq + 1) % 2 ^ 64)
      else stream_id (low_bits ms (2 ^ 64)) 0

  -- The end of `AddEntry`: the entry is added under the id.
  unfoldable pub append_entry : StreamId → List (Bytes × Bytes) → ℕ → StreamData → StreamData
  unfolding pop_to
  append_entry id fields max_len_val s =
      let entries = s.entries ++ record { id = id; fields = fields } ∷ [] in
      record s {
        last_generated_ms = id.ms;
        last_generated_seq = id.seq;
        entries = if ltb 0 max_len_val then pop_to max_len_val entries else entries;
        max_len = max_len_val;
      }

  -- `parse` is the constructor of `StreamId`.
  unfoldable pub add_entry :
      (Bytes → StreamId) → ℤ → List (Bytes × Bytes) → Bytes → ℕ → StreamData → StreamId × StreamData
  unfolding next_id back append_entry
  add_entry parse now fields id_spec max_len_val s =
      if id_spec == bytes "*"
      then (next_id now s, append_entry (next_id now s) fields max_len_val s)
      else elim (back s.entries) [
        | none ↦ (parse id_spec, append_entry (parse id_spec) fields max_len_val s)
        | some last ↦
            if le (parse id_spec) last.id
            then (stream_id 0 0, s)
            else (parse id_spec, append_entry (parse id_spec) fields max_len_val s)
      ]

  unfoldable pub read : StreamId → ℕ → Bool → StreamData → List StreamEntry
  unfolding read_loop
  read start count exclusive s = read_loop start count exclusive 0 s.entries

  unfoldable pub create_group : Bytes → StreamId → StreamData → Bool × StreamData
  create_group group_name start_id s =
      if is_some (G.find s.groups group_name) then (false, s) else (
        true,
        record s {
          groups =
              G.insert_or_assign group_name
                (record {
                  name = group_name;
                  last_delivered_id = start_id;
                  consumers = C.empty;
                  pending_entries = [];
                })
                s.groups;
        },
      )

  unfoldable pub read_group : ℤ → Bytes → Bytes → ℕ → StreamData → List StreamEntry × StreamData
  unfolding group_loop back
  read_group now group_name consumer count s = elim (G.find s.groups group_name) [
    | none ↦ ([], s)
    | some group ↦
        let (result, pending) =
          group_loop now consumer count group.last_delivered_id 0 group.pending_entries s.entries in
        let group' : StreamConsumerGroup C = elim (back result) [
          | none ↦ record group { pending_entries = pending }
          | some last ↦ record group {
            pending_entries = pending;
            last_delivered_id = last.id;
            consumers = C.insert_or_assign consumer last.id group.consumers;
          }
        ] in
        (result, record s { groups = G.insert_or_assign group_name group' s.groups })
  ]

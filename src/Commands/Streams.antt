-- ===== src/Commands/Streams.antt =====
-- The handlers of src/astra/commands/redis/stream_commands.cpp that read and change entries and
-- groups: XADD, XREAD, XRANGE, XLEN, XDEL, XTRIM, XGROUP, XREADGROUP, XACK, XREVRANGE and XSETID.
-- `none` stands for a handler that does not return: `std::stoull` throws at a text that is no
-- number, or an argument is read that is not there. The connection has a database. The state is the
-- table `streams_` of the database and the metadata of its keys.
pub mod Entries
pub mod Reading
pub mod GroupCommands
pub mod Growth
pub mod Groups
pub mod Delivery
pub mod Ids
use astra_db.Prelude.{
  ℕ, suc, ◌+◌, ◌-◌, ◌%◌, ◌^◌, Bool, true, false, not, ◌&&◌, ◌||◌, Option, none, some, is_some, List,
  [], ◌∷◌, ◌++◌, map, length, is_nil, ltb, leb, nat_eqb, Bytes, bytes, bytes_eq, ◌==◌,
  if◌then◌else◌, get_elem?, drop, take, ◌>>=◌,
}
use astra_db.Prelude.Int.{ℤ, pos}
use astra_db.Abseil.{FlatHashMap}
use astra_db.Container.DashMap
use astra_db.Container.DashMap.{DashMap}
use astra_db.Container.Streams
use astra_db.Container.Streams.{
  StreamId, StreamEntry, StreamConsumerGroup, StreamData, stream_id, lt, le, PendingEntry,
}
use astra_db.Storage.Metadata.{KeyType, KeyMetadata}
use astra_db.Storage.Manager
use astra_db.Storage.Manager.{KeyMetadataManager}
use astra_db.Protocol.Types.{RespValue, Values, CommandArg}
use astra_db.Server.Transactions.{CommandResult, response, failure, ok_reply}
use astra_db.Commands.Streams.Entries.{erase_entry, in_range_loop, erase_pending}

-- The replies' type of doubles, the tables, the constructor of `StreamId` from a text, `ToString`,
-- `std::stoull`, `absl::SimpleAtoi` and `absl::AsciiStrToLower` and `Upper`.
pub record Setting : Type 1 where
  pub F : Type 0
  pub C : FlatHashMap Bytes StreamId
  pub G : FlatHashMap Bytes (StreamConsumerGroup C)
  pub D : FlatHashMap Bytes (StreamData C G)
  pub M : FlatHashMap Bytes KeyMetadata
  pub parse : Bytes → StreamId
  pub text : StreamId → Bytes
  pub stoull : Bytes → Option ℕ
  pub simple_atoi : Bytes → Option ℤ
  pub lower : Bytes → Bytes
  pub upper : Bytes → Bytes

module _ (E : Setting) where
  -- The members of class `Database` that the handlers use.
  pub record Table : Type 0 where
    pub streams_ : DashMap E.D
    pub metadata_manager_ : KeyMetadataManager E.M

  abbrev pub Handler : Type 0
  Handler = List Bytes → Table → Option (CommandResult E.F × Table)

  abbrev pub fail : Bytes → Table → Option (CommandResult E.F × Table)
  fail message t = some (failure message, t)

  abbrev pub reply : RespValue E.F → Table → Option (CommandResult E.F × Table)
  reply value t = some (response value, t)

  abbrev pub integer : ℕ → RespValue E.F
  integer n = RespValue.integer (pos n)

  abbrev pub values : List (RespValue E.F) → Values E.F
  values [] = Values.nil
  values (v ∷ vs) = Values.cons v (values vs)

  unfoldable pub field_values : List (Bytes × Bytes) → Values E.F
  field_values [] = Values.nil
  field_values ((field, value) ∷ fields) =
      Values.cons (RespValue.bulk_string field)
        (Values.cons (RespValue.bulk_string value) (field_values fields))

  unfoldable pub stream_entry_to_resp : StreamEntry → RespValue E.F
  unfolding field_values
  stream_entry_to_resp e =
      RespValue.array (
        values (RespValue.bulk_string (E.text e.id) ∷ RespValue.array (field_values e.fields) ∷ []))

  unfoldable pub get_stream : Table → Bytes → Option (StreamData E.C E.G)
  get_stream t key = DashMap.get E.D t.streams_ key

  -- A change of the stream behind its shared pointer.
  abbrev pub put_stream : Bytes → StreamData E.C E.G → Table → Table
  put_stream key stream t = record t { streams_ = (DashMap.insert E.D key stream t.streams_).0 }

  unfoldable pub get_or_create_stream : Bytes → Table → StreamData E.C E.G × Table
  get_or_create_stream key t = elim (DashMap.get E.D t.streams_ key) [
    | some stream ↦ (stream, t)
    | none ↦ (
      Streams.init E.C E.G,
      record {
        streams_ = (DashMap.insert E.D key (Streams.init E.C E.G) t.streams_).0;
        metadata_manager_ = Manager.register_key E.M key KeyType.string t.metadata_manager_;
      },
    )
  ]

  -- The pairs of fields and values of XADD.
  unfoldable pub field_pairs : List Bytes → List (Bytes × Bytes)
  field_pairs (field ∷ value ∷ rest) = (field, value) ∷ field_pairs rest
  field_pairs _ = []

  -- The option MAXLEN of XADD: the limit, and the index behind it.
  unfoldable pub max_len_option : List Bytes → Option (ℕ × ℕ)
  max_len_option args = do
    first ← get_elem? args 1
    if ltb 3 (length args) && (first == bytes "MAXLEN")
        then (do
          second ← get_elem? args 2
          let i : ℕ = if second == bytes "~" then 3 else 2
          limit ← get_elem? args i
          max_len ← E.stoull limit
          some (max_len, i + 1))
        else some (0, 1)

  unfoldable pub handle_x_add : ℤ → Handler
  unfolding max_len_option field_pairs get_or_create_stream
  handle_x_add now args t =
      if ltb (length args) 4
      then fail (bytes "ERR wrong number of arguments for 'xadd' command") t
      else do
        key ← get_elem? args 0
        option ← max_len_option args
        id_spec ← get_elem? args option.1
        let fields = field_pairs (drop (option.1 + 1) args)
        let found = get_or_create_stream key t
        let (id, stream) = Streams.add_entry E.C E.G E.parse now fields id_spec option.0 found.0
        let t' = put_stream key stream found.1
        if nat_eqb id.ms 0 && nat_eqb id.seq 0 && not (id_spec == bytes "*")
            then fail
                (bytes
                  "ERR The ID specified in XADD is equal or smaller than the target stream top item")
                t'
            else reply (RespValue.bulk_string (E.text id)) t'

  -- `std::vector::erase` over the arguments of XDEL: the entries that are left, and how many were
  -- erased.
  unfoldable pub erase_all : List Bytes → List StreamEntry → List StreamEntry × ℕ
  unfolding erase_entry
  erase_all [] entries = (entries, 0)
  erase_all (arg ∷ args) entries =
      let (left, erased) = erase_entry (E.parse arg) entries in
      let rest = erase_all args left in if erased then (rest.0, rest.1 + 1) else rest

  unfoldable pub handle_x_len : Handler
  unfolding get_stream
  handle_x_len args t =
      if not (nat_eqb (length args) 1)
      then fail (bytes "ERR wrong number of arguments for 'xlen' command") t
      else do
        key ← get_elem? args 0
        reply (integer (elim (get_stream t key) [ none ↦ 0 | some s ↦ length s.entries ])) t

  unfoldable pub handle_x_del : Handler
  unfolding get_stream erase_all
  handle_x_del args t =
      if ltb (length args) 2
      then fail (bytes "ERR wrong number of arguments for 'xdel' command") t
      else do
        key ← get_elem? args 0
        elim (get_stream t key) [
          | none ↦ reply (integer 0) t
          | some s ↦
              let (left, deleted) = erase_all (drop 1 args) s.entries in
              reply (integer deleted) (put_stream key (record s { entries = left }) t)
        ]

  unfoldable pub handle_x_trim : Handler
  unfolding get_stream
  handle_x_trim args t =
      if ltb (length args) 3
      then fail (bytes "ERR wrong number of arguments for 'xtrim' command") t
      else do
        key ← get_elem? args 0
        word ← get_elem? args 1
        if not (word == bytes "MAXLEN") then fail (bytes "ERR syntax error") t else (do
          second ← get_elem? args 2
          limit ← get_elem? args (if second == bytes "~" then 3 else 2)
          max_len ← E.stoull limit
          elim (get_stream t key) [
            | none ↦ reply (integer 0) t
            | some s ↦
                let left = Streams.pop_to max_len s.entries in
                reply (integer (length s.entries - length left))
                  (put_stream key (record s { entries = left }) t)
          ])

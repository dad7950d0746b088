-- ===== src/Commands/ListCommands/Replies.antt =====
-- What the handlers of src/astra/commands/redis/list_commands.cpp reply, and what they leave, in terms
-- of the lists that a client sees.
use astra_db.Prelude.{
  ℕ, ◌-◌, ◌≡◌, ap, Bool, not, Option, none, some, is_some, is_nil, List, [], ◌∷◌, Bytes, bytes,
  bytes_eq, length, take, drop, get_elem?, if◌then◌else◌,
}
use astra_db.Prelude.Int.{ℤ, pos}
use astra_db.Protocol.Types
use astra_db.Protocol.Types.{RespValue, CommandArg}
use astra_db.Server.Transactions.{CommandResult, response, failure}
use astra_db.Container.LinkedList.Spec as Plain
use astra_db.Container.LinkedList.Spec.{position, window}
use astra_db.Container.LinkedList.Removal.{quota, occurrences, without_first}
use astra_db.Commands.Database.{Tables, Database}
use astra_db.Commands.Database.Lists.Spec.{spec, write, at}
use astra_db.Commands.Database.Lists.Cells.{Stands}
use astra_db.Commands.ListCommands
use astra_db.Commands.ListCommands.{bulk_strings}
use astra_db.Commands.ListCommands.Stores.{database_store, database_simulates}

module _ (F : Type 0) (strtoll : Bytes → Option ℤ) (T : Tables Bytes) (now : ℤ) where
  -- A handler has answered with this result, and the lists are these.
  abbrev pub Answers :
      CommandResult F × Database T → CommandResult F → (Bytes → List Bytes) → Type 0
  Answers (result, db) expected m = (result ≡ expected) × Stands T m db

  abbrev pub bulk : Option Bytes → CommandResult F
  bulk o =
      response (elim o [ none ↦ RespValue.null_bulk_string | some v ↦ RespValue.bulk_string v ])

  abbrev pub ok_if : Bool → Bytes → CommandResult F
  ok_if done message =
      if done then response (RespValue.simple_string (bytes "OK")) else failure message

  abbrev pub number : ℕ → CommandResult F
  number n = response (RespValue.integer (pos n))

  abbrev pub arg : Bytes → CommandArg
  arg t = Types.of_string t

  -- The eight handlers answer on `db` as the lists `m` say.
  abbrev pub Replied :
      (key value first second : Bytes) → ℤ → ℤ → (Bytes → List Bytes) → Database T → Type 0
  Replied key value first second i j m db =
      let E = database_store T now in
      let xs = m key in
      let window_of = window i j xs in
      let n = quota i (occurrences value xs) in
      Answers (ListCommands.handle_l_pop F strtoll E (arg key ∷ []) db) (bulk (get_elem? xs 0))
        (write m key (drop 1 xs))
      × Answers (ListCommands.handle_r_pop F strtoll E (arg key ∷ []) db)
          (bulk (get_elem? xs (length xs - 1))) (write m key (take (length xs - 1) xs))
      × Answers (ListCommands.handle_l_len F strtoll E (arg key ∷ []) db) (number (length xs)) m
      × Answers (ListCommands.handle_l_index F strtoll E (arg key ∷ arg first ∷ []) db)
          (bulk (at xs i)) m
      × Answers (ListCommands.handle_l_set F strtoll E (arg key ∷ arg first ∷ arg value ∷ []) db)
          (ok_if (is_some (position (length xs) i)) (bytes "ERR no such key or index out of range"))
          (write m key (Plain.spec xs (Plain.set_at i value)))
      × Answers (ListCommands.handle_l_range F strtoll E (arg key ∷ arg first ∷ arg second ∷ []) db)
          (response (RespValue.array (bulk_strings window_of))) m
      × Answers (ListCommands.handle_l_trim F strtoll E (arg key ∷ arg first ∷ arg second ∷ []) db)
          (ok_if (not (is_nil xs)) (bytes "ERR no such key")) (write m key window_of)
      × Answers (ListCommands.handle_l_rem F strtoll E (arg key ∷ arg first ∷ arg value ∷ []) db)
          (number n) (write m key (without_first n value xs))

  -- On a database in which every key holds the list that `m` gives it (none of them expiring), with the
  -- texts `first` and `second` for the integers i and j: what LPOP, RPOP, LLEN, LINDEX, LSET, LRANGE,
  -- LTRIM and LREM of a key reply, in terms of its list, and the lists that they leave. LINDEX reads
  -- the first element at an index before the start, LREM takes out the first i occurrences, or all
  -- of them if i is not positive, and LTRIM of an empty list is an error.
  pub replies_to :
      (key value first second : Bytes) (i j : ℤ) (m : Bytes → List Bytes) (db : Database T)
      → Stands T m db
      → strtoll first ≡ some i
      → strtoll second ≡ some j
      → Replied key value first second i j m db
  unfolding ListCommands.handle_l_pop ListCommands.handle_r_pop ListCommands.handle_l_len
      ListCommands.handle_l_index ListCommands.handle_l_set ListCommands.handle_l_range
      ListCommands.handle_l_trim ListCommands.handle_l_rem Types.is_bulk_string spec
  replies_to key value first second i j m db s read_i read_j =
      let sim = database_simulates T now in
      let (pop, popped) = sim.l_pop_sim key db m s in
      let (rpop, rpopped) = sim.r_pop_sim key db m s in
      let (len, measured) = sim.l_len_sim key db m s in
      let (index, indexed) = sim.l_index_sim key i db m s in
      let (set, written) = sim.l_set_sim key i value db m s in
      let (range, ranged) = sim.l_range_sim key i j db m s in
      let (trim, trimmed) = sim.l_trim_sim key i j db m s in
      let (rem, removed) = sim.l_rem_sim key value i db m s in
      (
        (ap bulk pop, popped),
        (ap bulk rpop, rpopped),
        (ap number len, measured),
        rw (ListCommands.with_integer, read_i) (ap bulk index, indexed),
        rw (ListCommands.with_integer, read_i)
            (ap (λ b. ok_if b (bytes "ERR no such key or index out of range")) set, written),
        rw (ListCommands.with_integer, read_i, read_j)
            (ap (λ vs. response (RespValue.array (bulk_strings vs))) range, ranged),
        rw (ListCommands.with_integer, read_i, read_j)
            (ap (λ b. ok_if b (bytes "ERR no such key")) trim, trimmed),
        rw (ListCommands.with_integer, read_i) (ap number rem, removed),
      )

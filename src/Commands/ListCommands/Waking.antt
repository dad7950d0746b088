-- ===== src/Commands/ListCommands/Waking.antt =====
-- Clients that wait for an element and are served by a push
-- (src/astra/commands/redis/list_commands.cpp and src/astra/commands/blocking_manager.cpp).
use astra_db.Prelude.{
  ℕ, ◌≡◌, ◌⊎◌, refl, ap, sym, ◌∙◌, inl, inr, some, List, [], ◌∷◌, ◌++◌, drop, get_elem?, Bytes,
  bytes_eq, ◌==◌, ==_refl, ==_iff, length, take, ◌-◌, Bool-cases, nat_eq,
}
use mathlib.Core.Path.{subst, fun_ext}
use astra_db.Prelude.Int.{ℤ, pos}
use astra_db.Abseil.{FlatHashMap}
use astra_db.Protocol.Types
use astra_db.Protocol.Types.{RespValue, CommandArg}
use astra_db.Server.Transactions.{response}
use astra_db.Commands.Blocking.{BlockedClient, BlockingManager, wake_up_blocked_clients, queue_of}
use astra_db.Commands.Blocking.Fifo.{woken_found, find-waiting}
use astra_db.Commands.Database.{Tables, Database}
use astra_db.Commands.Database.Lists.Spec.{spec, write}
use astra_db.Commands.Database.Lists.Cells.{Stands}
use astra_db.Commands.ListCommands.{ListStore}
use astra_db.Commands.ListCommands.Stores.{database_store, database_simulates}
use astra_db.Commands.ListCommands.Pushes.{
  Callback, pop_left, pop_right, Timeouts, Context, handle_r_push, wake, process_blocked_command,
  call_back, popped,
}

module _ (F : Type 0) (D : Timeouts) (Q : FlatHashMap Bytes (List (BlockedClient Callback)))
    (H : FlatHashMap ℕ D.Double) (T : Tables Bytes) (now : ℤ) where
  abbrev Store : ListStore
  Store = database_store T now

  -- A callback that pops from this key, at either end.
  abbrev pub PopsFrom : Bytes → Callback → Type 0
  PopsFrom key work = (work ≡ pop_left key) ⊎ (work ≡ pop_right key)

  -- The lists with one element under a key.
  abbrev pub with_one : Bytes → Bytes → (Bytes → List Bytes) → Bytes → List Bytes
  with_one key value m = write m key (value ∷ [])

  pub restored :
      (key value : Bytes) (m : Bytes → List Bytes) (xs : List Bytes)
      → m key ≡ []
      → xs ≡ []
      → write (with_one key value m) key xs ≡ m
  restored key value m xs empty none_left = fun_ext λ j. elim (Bool-cases (key == j)) [
    | inl same ↦ rw (same, none_left) (sym (ap m (sym ((==_iff key j).0 same)) ∙ empty))
    | inr apart ↦ rw (apart) refl
  ]

  -- A key that holds one element and is popped is empty again.
  emptied :
      (key value : Bytes) (m : Bytes → List Bytes) (work : Callback) (db : Database T)
      → m key ≡ []
      → PopsFrom key work
      → Stands T (with_one key value m) db
      → let (reply, db') = call_back F D Q H Store work db in
        (reply ≡ popped F D Q H Store key (some value)) × Stands T m db'
  unfolding call_back spec
  emptied key value m work db empty (inl left) s =
      let sim = database_simulates T now in
      let held : with_one key value m key ≡ value ∷ [] = rw (==_refl key) refl in
      let (got, stands) = sim.l_pop_sim key db (with_one key value m) s in
      rw left (
        ap (popped F D Q H Store key) (got ∙ ap (λ (l : List Bytes). get_elem? l 0) held),
        subst (λ (n : Bytes → List Bytes). Stands T n (Store.l_pop key db).1)
            (restored key value m _ empty (ap (drop 1) held)) stands,
      )
  emptied key value m work db empty (inr right) s =
      let sim = database_simulates T now in
      let held : with_one key value m key ≡ value ∷ [] = rw (==_refl key) refl in
      let (got, stands) = sim.r_pop_sim key db (with_one key value m) s in
      rw right (
        ap (popped F D Q H Store key)
            (got ∙ ap (λ (l : List Bytes). get_elem? l (length l - 1)) held),
        subst (λ (n : Bytes → List Bytes). Stands T n (Store.r_pop key db).1)
            (restored key value m _ empty (ap (λ (l : List Bytes). take (length l - 1) l) held))
            stands,
      )

  pub wake_lem :
      (key : Bytes) (c : Context F D Q H (Database T)) (mgr : BlockingManager Q H)
      (client : BlockedClient Callback)
      → c.manager ≡ some mgr
      → (wake_up_blocked_clients Q H key mgr).0 ≡ some client
      → wake F D Q H Store key c
        ≡ process_blocked_command F D Q H Store client
            (record c { manager = some (wake_up_blocked_clients Q H key mgr).1 })
  unfolding wake
  wake_lem key c mgr client managed woken = rw (wake, managed, woken) refl

  -- A push of one element to an empty key for which a client waits: the reply is 1, the client that
  -- waited longest is handed the key and the element, the others go on waiting, and the lists are
  -- what they were.
  pub push_serves :
      (key value : Bytes) (m : Bytes → List Bytes) (mgr : BlockingManager Q H)
      (client : BlockedClient Callback) (queue : List (BlockedClient Callback))
      (c : Context F D Q H (Database T))
      → Stands T m c.store
      → m key ≡ []
      → c.manager ≡ some mgr
      → queue_of Q H mgr key ≡ client ∷ queue
      → PopsFrom key client.work
      → let args = Types.of_string key ∷ Types.of_string value ∷ [] in
        let (reply, c') = handle_r_push F D Q H Store args c in
        (reply ≡ response (RespValue.integer (pos 1)))
        × (c'.handed ≡ c.handed ++ (client.client_id, popped F D Q H Store key (some value)) ∷ [])
        × Stands T m c'.store
        × ((mgr' : BlockingManager Q H) × (c'.manager ≡ some mgr')
            × (queue_of Q H mgr' key ≡ queue))
  unfolding handle_r_push Types.is_bulk_string spec
  push_serves key value m mgr client queue c s empty managed waiting pops =
      let db = (Store.r_push key value c.store).1 in
      let (pushed, stands) = (database_simulates T now).r_push_sim key value c.store m s in
      let one : Stands T (with_one key value m) db =
        subst (λ (xs : List Bytes). Stands T (write m key (xs ++ value ∷ [])) db) empty stands in
      let c₁ : Context F D Q H (Database T) = record c { store = db } in
      let mgr' = (wake_up_blocked_clients Q H key mgr).1 in
      let (woken, left) =
        woken_found Q H key mgr client queue (find-waiting Q H key mgr client queue waiting) in
      let woke = wake_lem key c₁ mgr client managed woken in
      let (reply, stands') = emptied key value m client.work db empty pops one in
      rw woke (
        refl,
        ap (λ (r : RespValue F). c.handed ++ (client.client_id, r) ∷ []) reply,
        stands',
        (mgr', refl, left),
      )

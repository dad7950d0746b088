-- ===== src/Commands/ListCommands/Exchange.antt =====
-- A client that waits for an element and another one that pushes it
-- (src/astra/commands/redis/list_commands.cpp and src/astra/commands/blocking_manager.cpp).
use astra_db.Prelude.{
  ℕ, ◌≡◌, refl, ap, sym, ◌∙◌, inl, inr, true, false, Option, none, some, List, [], ◌∷◌, ◌++◌,
  get_elem?, Bytes, bytes, bytes_eq, ◌==◌, ==_iff, length, take, ◌-◌, Bool-cases, nat_eq,
}
use mathlib.Core.Path.{subst, fun_ext}
use astra_db.Prelude.Int.{ℤ, pos}
use astra_db.Abseil.{FlatHashMap}
use astra_db.Protocol.Types
use astra_db.Protocol.Types.{RespValue, CommandArg}
use astra_db.Server.Transactions.{CommandResult, response}
use astra_db.Commands.Blocking.{
  BlockedClient, BlockingManager, add_blocked_client, wake_up_blocked_clients, queue_of,
}
use astra_db.Commands.Blocking.Fifo.{queue-add, nobody_woken}
use astra_db.Commands.Database.{Tables, Database}
use astra_db.Commands.Database.Lists.Spec.{spec, write}
use astra_db.Commands.Database.Lists.Cells.{Stands}
use astra_db.Commands.ListCommands.Stores.{database_store, database_simulates}
use astra_db.Commands.ListCommands.Pushes.{
  Callback, pop_right, Timeouts, Context, handle_r_push, handle_b_r_pop, blocking_pop, first_popped,
  split_last, timeout_of, Outcome, blocking, wake,
}

module _ (F : Type 0) (D : Timeouts) (Q : FlatHashMap Bytes (List (BlockedClient Callback)))
    (H : FlatHashMap ℕ D.Double) (T : Tables Bytes) where
  abbrev Server : Type 0
  Server = Context F D Q H (Database T)

  -- A pop of an empty list changes no list.
  unchanged :
      (key : Bytes) (m : Bytes → List Bytes) (xs : List Bytes) (db : Database T)
      → m key ≡ []
      → xs ≡ []
      → Stands T (write m key xs) db
      → Stands T m db
  unchanged key m xs db empty none_left s =
      let same : write m key xs ≡ m = fun_ext λ j. elim (Bool-cases (key == j)) [
        | inl here ↦ rw (here, none_left) (sym (ap m (sym ((==_iff key j).0 here)) ∙ empty))
        | inr apart ↦ rw (apart) refl
      ] in
      subst (λ (n : Bytes → List Bytes). Stands T n db) same s

  nothing_popped :
      (now : ℤ) (pop : Bytes → Database T → Option Bytes × Database T) (key : Bytes)
      (db : Database T)
      → (pop key db).0 ≡ none
      → first_popped F D Q H (database_store T now) pop (Types.of_string key ∷ []) db
        ≡ (none, (pop key db).1)
  unfolding first_popped Types.is_bulk_string
  nothing_popped now pop key db nothing = rw (nothing) refl

  -- A blocking pop of one empty key, with a positive timeout.
  waits :
      (now : ℤ) (pop : Bytes → Database T → Option Bytes × Database T) (callback : Bytes → Callback)
      (wait_key : Bytes → Bytes) (name : Bytes) (id : ℕ) (key : Bytes) (timeout_arg : CommandArg)
      (timeout : D.Double) (m : Bytes → List Bytes) (mgr : BlockingManager Q H) (c : Server)
      → (pop key c.store).0 ≡ none
      → Stands T m (pop key c.store).1
      → c.manager ≡ some mgr
      → timeout_of F D Q H (database_store T now) timeout_arg ≡ some timeout
      → D.is_positive timeout ≡ true
      → let args = Types.of_string key ∷ timeout_arg ∷ [] in
        let r = blocking_pop F D Q H (database_store T now) pop callback wait_key name id args c in
        let client : BlockedClient Callback = record { client_id = id; work = callback key } in
        r ≡ (
          blocking,
          record {
            store = (pop key c.store).1;
            manager = some (add_blocked_client Q H (wait_key key) client timeout mgr);
            handed = c.handed;
          },
        )
  unfolding blocking_pop split_last
  waits now pop callback wait_key name id key timeout_arg timeout m mgr c nothing s managed set
        positive =
      let found = nothing_popped now pop key c.store nothing in
      let mgr' =
        add_blocked_client Q H (wait_key key) (record { client_id = id; work = callback key })
          timeout mgr in
      let stored : Database T → Outcome F × Server =
        λ db. (blocking, record { store = db; manager = some mgr'; handed = c.handed }) in
      rw (set, found, positive, managed)
        (ap (λ (r : Option (CommandResult F) × Database T). stored r.1) found)

  no_wake :
      (now : ℤ) (key : Bytes) (c : Server) (mgr : BlockingManager Q H)
      → c.manager ≡ some mgr
      → queue_of Q H mgr key ≡ []
      → wake F D Q H (database_store T now) key c
        ≡ record c { manager = some (wake_up_blocked_clients Q H key mgr).1 }
  unfolding wake
  no_wake now key c mgr managed alone =
      let woken = nobody_woken Q H key mgr alone in rw (wake, managed, woken) refl

  -- A push for which nobody waits.
  unheard :
      (now : ℤ) (key value : Bytes) (m : Bytes → List Bytes) (mgr : BlockingManager Q H)
      (c : Server)
      → Stands T m c.store
      → m key ≡ []
      → c.manager ≡ some mgr
      → queue_of Q H mgr key ≡ []
      → let args = Types.of_string key ∷ Types.of_string value ∷ [] in
        let (reply, c') = handle_r_push F D Q H (database_store T now) args c in
        (reply ≡ response (RespValue.integer (pos 1)))
        × (c'.handed ≡ c.handed)
        × Stands T (write m key (value ∷ [])) c'.store
  unfolding handle_r_push Types.is_bulk_string spec
  unheard now key value m mgr c s empty managed alone =
      let E = database_store T now in
      let (pushed, stands) = (database_simulates T now).r_push_sim key value c.store m s in
      let one : Stands T (write m key (value ∷ [])) (E.r_push key value c.store).1 =
        subst
          (λ (xs : List Bytes).
            Stands T (write m key (xs ++ value ∷ [])) (E.r_push key value c.store).1)
          empty stands in
      let c₁ : Server = record c { store = (E.r_push key value c.store).1 } in
      let same = no_wake now key c₁ mgr managed alone in rw same (refl, refl, one)

  -- The same exchange with BRPOP, when the string that its key was moved from is not the key any
  -- more: RPUSH has its reply, but nothing is handed to a client, and the value stays in the list.
  pub brpop_missed :
      (now later : ℤ) (moved_from : Bytes → Bytes) (id : ℕ) (key value : Bytes)
      (timeout_arg : CommandArg) (timeout : D.Double) (m : Bytes → List Bytes)
      (mgr : BlockingManager Q H) (c : Server)
      → Stands T m c.store
      → m key ≡ []
      → c.manager ≡ some mgr
      → queue_of Q H mgr key ≡ []
      → timeout_of F D Q H (database_store T now) timeout_arg ≡ some timeout
      → D.is_positive timeout ≡ true
      → (moved_from key == key) ≡ false
      → let (outcome, c') =
          handle_b_r_pop F D Q H
            (database_store T now)
            moved_from
            id
            (Types.of_string key ∷ timeout_arg ∷ [])
            c in
        let (reply, c'') =
          handle_r_push F D Q H
            (database_store T later)
            (Types.of_string key ∷ Types.of_string value ∷ [])
            c' in
        (outcome ≡ blocking)
        × (reply ≡ response (RespValue.integer (pos 1)))
        × (c''.handed ≡ c.handed)
        × Stands T (write m key (value ∷ [])) c''.store
  unfolding handle_b_r_pop spec
  brpop_missed now later moved_from id key value timeout_arg timeout m mgr c s empty managed alone
        set positive moved =
      let E = database_store T now in
      let (got, stands) = (database_simulates T now).r_pop_sim key c.store m s in
      let nothing = got ∙ ap (λ (l : List Bytes). get_elem? l (length l - 1)) empty in
      let left =
        unchanged key m (take (length (m key) - 1) (m key)) (E.r_pop key c.store).1 empty
          (ap (λ (l : List Bytes). take (length l - 1) l) empty) stands in
      let waiting =
        waits now E.r_pop pop_right moved_from (bytes "BRPOP") id key timeout_arg timeout m mgr c
          nothing left managed set positive in
      let client : BlockedClient Callback = record { client_id = id; work = pop_right key } in
      let mgr' = add_blocked_client Q H (moved_from key) client timeout mgr in
      let db = (E.r_pop key c.store).1 in
      let joined : queue_of Q H mgr' key ≡ [] =
        queue-add Q H (moved_from key) key client timeout mgr ∙ rw (moved, alone) refl in
      let c₁ : Server = record { store = db; manager = some mgr'; handed = c.handed } in
      let (reply, handed, held) = unheard later key value m mgr' c₁ left empty refl joined in
      rw waiting (refl, reply, handed, held)

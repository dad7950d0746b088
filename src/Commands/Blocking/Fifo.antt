-- ===== src/Commands/Blocking/Fifo.antt =====
-- The order in which waiting clients are woken (src/astra/commands/blocking_manager.cpp).
use astra_db.Prelude.{
  ℕ, suc, ◌≤◌, ◌≡◌, refl, sym, ap, ◌∙◌, inl, inr, Bool, true, false, Option, none, some, List, [],
  ◌∷◌, ◌++◌, length, Eq, ◌==◌, nat_eq, if◌then◌else◌, arith, Option-cases, Bool-cases, ==_refl,
}
use mathlib.Core.List.{append-nil, append_assoc}
use astra_db.Abseil.{FlatHashMap}
use astra_db.Commands.Blocking.{
  BlockedClient, BlockingManager, queue_of, add_blocked_client, wake_up_blocked_clients,
}

-- The calls by which clients come to wait and are served.
pub data Call (S W Timer : Type 0) : Type 0 where
  add : S → BlockedClient W → Timer → Call S W Timer
  wake_up : S → Call S W Timer

module _ {S W Timer : Type 0} ⦃e : Eq S⦄ (Q : FlatHashMap S (List (BlockedClient W)))
    (H : FlatHashMap ℕ Timer) where
  abbrev Manager : Type 0
  Manager = BlockingManager Q H

  -- The clients woken for the key `j`, in order, and the state, after a sequence of calls.
  abbrev prepend : Bool → Option (BlockedClient W) → List (BlockedClient W) → List (BlockedClient W)
  prepend true (some client) woken = client ∷ woken
  prepend here client woken = woken

  unfoldable pub run : S → Manager → List (Call S W Timer) → List (BlockedClient W) × Manager
  run j m [] = ([], m)
  run j m (add key client timer ∷ calls) = run j (add_blocked_client Q H key client timer m) calls
  run j m (wake_up key ∷ calls) =
      let (client, m') = wake_up_blocked_clients Q H key m in
      let (woken, m'') = run j m' calls in (prepend (key == j) client woken, m'')

  -- The clients that come to wait on the key `j`.
  unfoldable pub added : S → List (Call S W Timer) → List (BlockedClient W)
  added j [] = []
  added j (add key client timer ∷ calls) =
      let rest = added j calls in if key == j then client ∷ rest else rest
  added j (wake_up key ∷ calls) = added j calls

  pub queue-add :
      (key j : S) (client : BlockedClient W) (timer : Timer) (m : Manager)
      → queue_of Q H (add_blocked_client Q H key client timer m) j
        ≡ (if key == j then queue_of Q H m j ++ client ∷ [] else queue_of Q H m j)
  unfolding add_blocked_client
  queue-add key j client timer m = ground (
    arith,
    e.beq_iff key j,
    Q.find-insert key (queue_of Q H m key ++ client ∷ []) m.wait_queues_ j,
  )

  abbrev Kept : S → S → Manager → Type 0
  Kept key j m =
      let (client, m') = wake_up_blocked_clients Q H key m in
      prepend (key == j) client (queue_of Q H m' j) ≡ queue_of Q H m j

  wake_up_found :
      (key j : S) (m : Manager) (queue : List (BlockedClient W))
      → Q.find m.wait_queues_ key ≡ some queue
      → Kept key j m
  unfolding wake_up_blocked_clients
  wake_up_found key j m [] found = ground (arith, found, e.beq_iff key j)
  wake_up_found key j m (client ∷ []) found =
      ground (arith, found, e.beq_iff key j, Q.find-erase key m.wait_queues_ j)
  wake_up_found key j m (client ∷ next ∷ queue) found =
      ground (arith, found, e.beq_iff key j, Q.find-insert key (next ∷ queue) m.wait_queues_ j)

  queue-wake_up : (key j : S) (m : Manager) → Kept key j m
  unfolding wake_up_blocked_clients
  queue-wake_up key j m = elim (Option-cases (Q.find m.wait_queues_ key)) [
    | inl absent ↦ ground (arith, absent, e.beq_iff key j)
    | inr (queue, found) ↦ wake_up_found key j m queue found
  ]

  prepend-append :
      (here : Bool) (client : Option (BlockedClient W)) (xs ys : List (BlockedClient W))
      → prepend here client xs ++ ys ≡ prepend here client (xs ++ ys)
  prepend-append true (some client) xs ys = refl
  prepend-append true none xs ys = refl
  prepend-append false client xs ys = refl

  -- Over any sequence of clients that come to wait and of wake-ups, on this key or on others, in which
  -- no client times out or is removed: the clients that were woken for a key, and then those that
  -- still wait on it, are those that waited at first and then those that came, in this order.
  fifo :
      (j : S) (m : Manager) (calls : List (Call S W Timer))
      → (run j m calls).0 ++ queue_of Q H (run j m calls).1 j ≡ queue_of Q H m j ++ added j calls
  unfolding run added
  fifo j m [] = sym (append-nil (queue_of Q H m j))
  fifo j m (add key client timer ∷ calls) = ground (
    arith,
    fifo j (add_blocked_client Q H key client timer m) calls,
    queue-add key j client timer m,
    append_assoc (queue_of Q H m j) (client ∷ []) (added j calls),
  )
  fifo j m (wake_up key ∷ calls) =
      let (client, m') = wake_up_blocked_clients Q H key m in
      let (woken, m'') = run j m' calls in
      prepend-append (key == j) client woken (queue_of Q H m'' j)
      ∙ ap (prepend (key == j) client) (fifo j m' calls)
      ∙ sym (prepend-append (key == j) client (queue_of Q H m' j) (added j calls))
      ∙ ap (λ waiting. waiting ++ added j calls) (queue-wake_up key j m)

  -- How often the key `j` is served.
  unfoldable pub wakes : S → List (Call S W Timer) → ℕ
  wakes j [] = 0
  wakes j (add key client timer ∷ calls) = wakes j calls
  wakes j (wake_up key ∷ calls) = let rest = wakes j calls in if key == j then suc rest else rest

  pub find-waiting :
      (j : S) (m : Manager) (client : BlockedClient W) (queue : List (BlockedClient W))
      → queue_of Q H m j ≡ client ∷ queue
      → Q.find m.wait_queues_ j ≡ some (client ∷ queue)
  find-waiting j m client queue waiting = elim (Option-cases (Q.find m.wait_queues_ j)) [
    | inl absent ↦ ground (arith, absent)
    | inr (there, found) ↦ ground (arith, found)
  ]

  pub woken_found :
      (j : S) (m : Manager) (client : BlockedClient W) (queue : List (BlockedClient W))
      → Q.find m.wait_queues_ j ≡ some (client ∷ queue)
      → let (woken, m') = wake_up_blocked_clients Q H j m in
        (woken ≡ some client) × (queue_of Q H m' j ≡ queue)
  unfolding wake_up_blocked_clients
  woken_found j m client [] found =
      (ground (arith, found), ground (arith, found, ==_refl j, Q.find-erase j m.wait_queues_ j))
  woken_found j m client (next ∷ queue) found = (
    ground (arith, found),
    ground (arith, found, ==_refl j, Q.find-insert j (next ∷ queue) m.wait_queues_ j),
  )

  pub nobody_woken :
      (j : S) (m : Manager) → queue_of Q H m j ≡ [] → (wake_up_blocked_clients Q H j m).0 ≡ none
  unfolding wake_up_blocked_clients
  nobody_woken j m alone = elim (Option-cases (Q.find m.wait_queues_ j)) [
    | inl absent ↦ ground (arith, absent)
    | inr ([], found) ↦ ground (arith, found)
    | inr (client ∷ queue, found) ↦ ground (arith, found)
  ]

  -- The clients that wait on a key are woken in their order once the key has been served as many
  -- times as there are clients before and with them, whoever joins in between and whatever other keys
  -- are served, as long as no client times out or is removed.
  pub served :
      (j : S) (first later : List (BlockedClient W)) (m : Manager) (calls : List (Call S W Timer))
      → queue_of Q H m j ≡ first ++ later
      → length first ≤ wakes j calls
      → (rest : List (BlockedClient W)) × ((run j m calls).0 ≡ first ++ rest)
  unfolding run wakes
  served j [] later m calls waiting enough = ((run j m calls).0, refl)
  served j (client ∷ first) later m [] waiting enough = absurd (omega (arith, enough))
  served j (client ∷ first) later m (add key other timer ∷ calls) waiting enough =
      let m' = add_blocked_client Q H key other timer m in
      elim (Bool-cases (key == j)) [
        | inl here ↦
            served j (client ∷ first) (later ++ other ∷ []) m' calls
              (ground (arith, queue-add key j other timer m, append_assoc first later (other ∷ [])))
              enough
        | inr elsewhere ↦
            served j (client ∷ first) later m' calls (ground (arith, queue-add key j other timer m))
              enough
      ]
  served j (client ∷ first) later m (wake_up key ∷ calls) waiting enough =
      let m' = (wake_up_blocked_clients Q H key m).1 in
      elim (Bool-cases (key == j)) [
        | inl here ↦
            let same : key ≡ j = ground (arith, e.beq_iff key j) in
            let (woken, left) =
              woken_found key m client (first ++ later)
                (find-waiting key m client (first ++ later) (ground arith)) in
            let (rest, e') = served j first later m' calls (ground (arith, left)) (ground arith) in
            (rest, ground (arith, woken, e'))
        | inr elsewhere ↦
            let (rest, e') =
              served j (client ∷ first) later m' calls (ground (arith, queue-wake_up key j m))
                (ground arith) in
            (rest, ground (arith, e'))
      ]

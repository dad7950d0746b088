-- ===== src/Tests/Blocking.antt =====
-- Runs of the clients that wait on keys.
use astra_db.Prelude.{ℕ, ◌≡◌, refl, false, none, some, List, [], ◌∷◌, ◌++◌, nat_eq, nat_eqb, arith}
use astra_db.Abseil.{FlatHashMap, lookup, insert, without}
use astra_db.Abseil.Model.{model}
use astra_db.Commands.Blocking.{
  BlockedClient, BlockingManager, init, queue_of, add_blocked_client, wake_up_blocked_clients,
  remove_blocked_client, handle_timeout, clean_expired_requests, get_blocked_client_count,
  is_client_blocked, has_client, queue_with, without_client, without_first_client, total,
  clean_queues, split_expired, erase_timers,
}
use astra_db.Commands.Blocking.Fifo.{Call, add, wake_up, run, wakes, served}

abbrev Client : Type 0
Client = BlockedClient ℕ

abbrev client : ℕ → Client
client id = record { client_id = id; work = 0 }

abbrev queues : FlatHashMap ℕ (List Client)
queues = model ℕ (List Client)

abbrev timers : FlatHashMap ℕ ℕ
timers = model ℕ ℕ

abbrev two_wait : BlockingManager queues timers
two_wait =
    add_blocked_client queues timers 5 (client 2) 0
      (add_blocked_client queues timers 5 (client 1) 0 (init queues timers))

abbrev calls : List (Call ℕ ℕ ℕ)
calls = add 6 (client 3) 0 ∷ wake_up 5 ∷ add 5 (client 4) 0 ∷ wake_up 6 ∷ wake_up 5 ∷ wake_up 6 ∷ []

served_example :
    (rest : List Client) × ((run queues timers 5 two_wait calls).0
      ≡ (client 1 ∷ client 2 ∷ []) ++ rest)
unfolding add_blocked_client init wakes insert lookup
served_example =
    served queues timers 5 (client 1 ∷ client 2 ∷ []) [] two_wait calls refl (omega arith)

woken_in_order : (run queues timers 5 two_wait calls).0 ≡ client 1 ∷ client 2 ∷ []
unfolding run add_blocked_client wake_up_blocked_clients init lookup insert without
woken_in_order = refl

timed_out :
    (is_client_blocked queues timers 1 (handle_timeout queues timers 1 two_wait) ≡ false)
    × (get_blocked_client_count queues timers (handle_timeout queues timers 1 two_wait) ≡ 1)
unfolding handle_timeout add_blocked_client init is_client_blocked get_blocked_client_count insert
    lookup has_client queue_with without_first_client total without
timed_out = (refl, refl)

-- A client that is removed leaves an empty queue, one that times out does not.
removed :
    let one = add_blocked_client queues timers 5 (client 1) 0 (init queues timers) in
    (queues.find (remove_blocked_client queues timers 1 one).wait_queues_ 5 ≡ some [])
    × (queues.find (handle_timeout queues timers 1 one).wait_queues_ 5 ≡ none)
unfolding handle_timeout remove_blocked_client add_blocked_client init lookup insert without
    has_client queue_with without_client without_first_client
removed = (refl, refl)

cleaned :
    let m = clean_expired_requests queues timers (λ c. nat_eqb c.client_id 1) two_wait in
    (queue_of queues timers m 5 ≡ client 2 ∷ []) × (timers.find m.timeout_timers_ 1 ≡ none)
unfolding clean_expired_requests clean_queues split_expired erase_timers add_blocked_client init
    lookup insert without
cleaned = (refl, refl)

-- ===== src/Commands/Blocking.antt =====
-- `BlockingManager` of src/astra/commands/blocking_manager.cpp: the clients that wait on a key, in the
-- order in which they came, and their timers. What a timer is, and the command and callback of a
-- client, are left open; sending is the caller's, which is given the client. Whether a client has
-- waited for too long is a test of two `double`s, which is left open.
pub mod Fifo
use astra_db.Prelude.{
  ℕ, ◌+◌, Bool, true, false, ◌||◌, Option, none, some, is_nil, List, [], ◌∷◌, ◌++◌, length, Eq,
  nat_eq, nat_eqb, if◌then◌else◌,
}
use astra_db.Abseil.{FlatHashMap}

pub record BlockedClient (W : Type 0) : Type 0 where
  pub client_id : ℕ
  pub work : W

module _ {S W Timer : Type 0} ⦃e : Eq S⦄ (Q : FlatHashMap S (List (BlockedClient W)))
    (H : FlatHashMap ℕ Timer) where
  pub record BlockingManager : Type 0 where
    pub wait_queues_ : Q.Table
    pub timeout_timers_ : H.Table

  unfoldable pub init : BlockingManager
  init = record { wait_queues_ = Q.empty; timeout_timers_ = H.empty }

  -- `wait_queues_[key]`, which creates an empty queue.
  abbrev pub queue_of : BlockingManager → S → List (BlockedClient W)
  queue_of m key = elim (Q.find m.wait_queues_ key) [ none ↦ [] | some queue ↦ queue ]

  unfoldable pub add_blocked_client :
      S → BlockedClient W → Timer → BlockingManager → BlockingManager
  add_blocked_client key client timer m = record {
    wait_queues_ = Q.insert_or_assign key (queue_of m key ++ client ∷ []) m.wait_queues_;
    timeout_timers_ = H.insert_or_assign client.client_id timer m.timeout_timers_;
  }

  -- The client that is woken, if there is one.
  unfoldable pub wake_up_blocked_clients :
      S → BlockingManager → Option (BlockedClient W) × BlockingManager
  wake_up_blocked_clients key m = elim (Q.find m.wait_queues_ key) [
    | none ↦ (none, m)
    | some [] ↦ (none, m)
    | some (client ∷ queue) ↦ (
      some client,
      record {
        wait_queues_ =
            if is_nil queue
            then Q.erase key m.wait_queues_
            else Q.insert_or_assign key queue m.wait_queues_;
        timeout_timers_ = H.erase client.client_id m.timeout_timers_;
      },
    )
  ]

  unfoldable pub has_client : ℕ → List (BlockedClient W) → Bool
  has_client id [] = false
  has_client id (c ∷ cs) = nat_eqb c.client_id id || has_client id cs

  -- `std::remove_if`
  unfoldable pub without_client : ℕ → List (BlockedClient W) → List (BlockedClient W)
  without_client id [] = []
  without_client id (c ∷ cs) =
      let rest = without_client id cs in if nat_eqb c.client_id id then rest else c ∷ rest

  -- `std::find_if` and `erase`
  unfoldable pub without_first_client : ℕ → List (BlockedClient W) → List (BlockedClient W)
  without_first_client id [] = []
  without_first_client id (c ∷ cs) =
      let rest = without_first_client id cs in if nat_eqb c.client_id id then cs else c ∷ rest

  -- The first queue, in the order of the table, in which the client waits.
  unfoldable pub queue_with :
      ℕ → List (S × List (BlockedClient W)) → Option (S × List (BlockedClient W))
  queue_with id [] = none
  queue_with id ((key, queue) ∷ queues) =
      let rest = queue_with id queues in if has_client id queue then some (key, queue) else rest

  unfoldable pub remove_blocked_client : ℕ → BlockingManager → BlockingManager
  unfolding queue_with without_client
  remove_blocked_client id m = record {
    wait_queues_ = elim (queue_with id (Q.entries m.wait_queues_)) [
      | none ↦ m.wait_queues_
      | some (key, queue) ↦ Q.insert_or_assign key (without_client id queue) m.wait_queues_
    ];
    timeout_timers_ = H.erase id m.timeout_timers_;
  }

  -- The client that gets the nil reply, if it still waits.
  unfoldable pub handle_timeout : ℕ → BlockingManager → BlockingManager
  unfolding queue_with without_first_client
  handle_timeout id m = record {
    wait_queues_ = elim (queue_with id (Q.entries m.wait_queues_)) [
      | none ↦ m.wait_queues_
      | some (key, queue) ↦
          let left = without_first_client id queue in
          if is_nil left
          then Q.erase key m.wait_queues_
          else Q.insert_or_assign key left m.wait_queues_
    ];
    timeout_timers_ = H.erase id m.timeout_timers_;
  }

  -- The loop of `CleanExpiredRequests` over one queue: the clients that get the nil reply, and those
  -- that stay.
  unfoldable pub split_expired :
      (BlockedClient W → Bool)
      → List (BlockedClient W)
      → List (BlockedClient W) × List (BlockedClient W)
  split_expired expired [] = ([], [])
  split_expired expired (c ∷ cs) =
      let (gone, kept) = split_expired expired cs in
      if expired c then (c ∷ gone, kept) else (gone, c ∷ kept)

  unfoldable pub erase_timers : List (BlockedClient W) → H.Table → H.Table
  erase_timers [] timers = timers
  erase_timers (c ∷ cs) timers = erase_timers cs (H.erase c.client_id timers)

  unfoldable pub clean_queues :
      (BlockedClient W → Bool)
      → List (S × List (BlockedClient W))
      → BlockingManager
      → BlockingManager
  unfolding split_expired erase_timers
  clean_queues expired [] m = m
  clean_queues expired ((key, queue) ∷ queues) m =
      let (gone, kept) = split_expired expired queue in
      clean_queues expired queues (record {
        wait_queues_ = Q.insert_or_assign key kept m.wait_queues_;
        timeout_timers_ = erase_timers gone m.timeout_timers_;
      })

  -- Empty queues stay.
  unfoldable pub clean_expired_requests :
      (BlockedClient W → Bool) → BlockingManager → BlockingManager
  unfolding clean_queues
  clean_expired_requests expired m = clean_queues expired (Q.entries m.wait_queues_) m

  unfoldable pub total : List (S × List (BlockedClient W)) → ℕ
  total [] = 0
  total ((key, queue) ∷ queues) = length queue + total queues

  unfoldable pub get_blocked_client_count : BlockingManager → ℕ
  unfolding total
  get_blocked_client_count m = total (Q.entries m.wait_queues_)

  unfoldable pub is_client_blocked : ℕ → BlockingManager → Bool
  unfolding queue_with
  is_client_blocked id m = elim (queue_with id (Q.entries m.wait_queues_)) [
    | none ↦ false
    | some _ ↦ true
  ]

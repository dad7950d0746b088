-- ===== src/Server/TransactionState.antt =====
-- src/astra/server/transaction_state.hpp and .cpp: the queued commands and the watched keys of
-- every connection of a worker. The sets and maps of the source are `absl` tables: `S` the set of
-- watched keys, `W` the versions at which they were watched, `T` the states of the connections.
pub mod Isolation
pub mod Watching
use astra_db.Prelude.{
  ℕ, ◌≡◌, Bool, true, false, ◌&&◌, ◌||◌, not, Option, none, some, List, [], ◌∷◌, ◌++◌, is_nil,
  Bytes, bytes_eq, nat_eq, nat_eqb, if◌then◌else◌,
}
use astra_db.Abseil.{FlatHashMap}
use astra_db.Protocol.Types.{Command}

module _ (S : FlatHashMap Bytes (Unit {0})) (W : FlatHashMap Bytes ℕ) where
  pub record TransactionState : Type 0 where
    pub in_transaction : Bool
    pub queued_commands : List Command
    pub watched_keys : S.Table
    pub watched_key_versions : W.Table

  abbrev pub fresh : TransactionState
  fresh = record {
    in_transaction = false;
    queued_commands = [];
    watched_keys = S.empty;
    watched_key_versions = W.empty;
  }

  -- The loop over `watched_keys` of `IsWatchedKeyModified`.
  unfoldable pub any_modified : (Bytes → ℕ) → W.Table → List (Bytes × Unit {0}) → Bool
  any_modified get_version versions [] = false
  any_modified get_version versions ((key, _) ∷ keys) = elim (W.find versions key) [
    | none ↦ any_modified get_version versions keys
    | some version ↦
        if nat_eqb (get_version key) version then any_modified get_version versions keys else true
  ]

  module _ (T : FlatHashMap ℕ TransactionState) where
    pub record TransactionStateStore : Type 0 where
      pub states_ : T.Table

    abbrev pub find : TransactionStateStore → ℕ → Option TransactionState
    find s connection_id = T.find s.states_ connection_id

    -- `states_[connection_id]`, which creates what is not there
    abbrev pub at : TransactionStateStore → ℕ → TransactionState
    at s connection_id = elim (find s connection_id) [ none ↦ fresh | some state ↦ state ]

    abbrev pub write : ℕ → TransactionState → TransactionStateStore → TransactionStateStore
    write connection_id state s = record s {
      states_ = T.insert_or_assign connection_id state s.states_;
    }

    abbrev pub erase : ℕ → TransactionStateStore → TransactionStateStore
    erase connection_id s = record s { states_ = T.erase connection_id s.states_ }

    abbrev pub init : TransactionStateStore
    init = record { states_ = T.empty }

    unfoldable pub is_in_transaction : TransactionStateStore → ℕ → Bool
    is_in_transaction s connection_id = elim (find s connection_id) [
      | none ↦ false
      | some state ↦ state.in_transaction
    ]

    unfoldable pub begin_transaction : ℕ → TransactionStateStore → TransactionStateStore
    begin_transaction connection_id s =
        write connection_id
          (record (at s connection_id) { in_transaction = true; queued_commands = [] }) s

    unfoldable pub queue_command : ℕ → Command → TransactionStateStore → TransactionStateStore
    queue_command connection_id cmd s =
        let state = at s connection_id in
        write connection_id (record state { queued_commands = state.queued_commands ++ cmd ∷ [] }) s

    unfoldable pub get_queued_commands : TransactionStateStore → ℕ → List Command
    get_queued_commands s connection_id = elim (find s connection_id) [
      | none ↦ []
      | some state ↦ state.queued_commands
    ]

    abbrev pub is_vacant : TransactionState → Bool
    is_vacant state =
        not state.in_transaction
        && (is_nil state.queued_commands && nat_eqb (S.size state.watched_keys) 0)

    unfoldable pub maybe_erase : ℕ → TransactionStateStore → TransactionStateStore
    maybe_erase connection_id s = elim (find s connection_id) [
      | none ↦ s
      | some state ↦ if is_vacant state then erase connection_id s else s
    ]

    unfoldable pub clear_queued_commands : ℕ → TransactionStateStore → TransactionStateStore
    unfolding maybe_erase
    clear_queued_commands connection_id s = elim (find s connection_id) [
      | none ↦ s
      | some state ↦
          maybe_erase connection_id (write connection_id (record state { queued_commands = [] }) s)
    ]

    unfoldable pub discard_transaction : ℕ → TransactionStateStore → TransactionStateStore
    discard_transaction connection_id s = elim (find s connection_id) [
      | none ↦ s
      | some state ↦ erase connection_id s
    ]

    unfoldable pub watch_key : ℕ → Bytes → ℕ → TransactionStateStore → TransactionStateStore
    watch_key connection_id key version s =
        let state = at s connection_id in
        write connection_id
          (record state {
            watched_keys = S.insert_or_assign key tt state.watched_keys;
            watched_key_versions = W.insert_or_assign key version state.watched_key_versions;
          })
          s

    unfoldable pub get_watched_keys : TransactionStateStore → ℕ → S.Table
    get_watched_keys s connection_id = elim (find s connection_id) [
      | none ↦ S.empty
      | some state ↦ state.watched_keys
    ]

    unfoldable pub is_watched_key_modified : TransactionStateStore → ℕ → (Bytes → ℕ) → Bool
    is_watched_key_modified s connection_id get_version = elim (find s connection_id) [
      | none ↦ false
      | some state ↦
          any_modified get_version state.watched_key_versions (S.entries state.watched_keys)
    ]

    unfoldable pub clear_watched_keys : ℕ → TransactionStateStore → TransactionStateStore
    unfolding maybe_erase
    clear_watched_keys connection_id s = elim (find s connection_id) [
      | none ↦ s
      | some state ↦ maybe_erase connection_id (
          write connection_id
            (record state { watched_keys = S.empty; watched_key_versions = W.empty }) s)
    ]

    unfoldable pub clear_connection_state : ℕ → TransactionStateStore → TransactionStateStore
    clear_connection_state connection_id s = erase connection_id s

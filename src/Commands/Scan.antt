-- ===== src/Commands/Scan.antt =====
-- src/astra/commands/scan_manager.hpp: the sessions of SCAN. Each call holds the manager's mutex,
-- so that calls are atomic.
pub mod Complete
use astra_db.Prelude.{
  ℕ, ◌+◌, ◌-◌, ◌%◌, ◌^◌, min, Bool, Option, none, some, List, [], length, take, drop, nat_eq, ltb,
  leb, nat_eqb, if◌then◌else◌,
}
use astra_db.Abseil.{FlatHashMap}

pub record ScanState (K : Type 0) : Type 0 where
  pub all_keys : List K
  pub current_position : ℕ
  pub scan_id : ℕ

module _ {K : Type 0} (H : FlatHashMap ℕ (ScanState K)) where
  pub record ScanStateManager : Type 0 where
    pub next_scan_id_ : ℕ
    pub scan_states_ : H.Table

  unfoldable pub start_scan : List K → ScanStateManager → ℕ × ScanStateManager
  start_scan keys m =
      let scan_id = (m.next_scan_id_ + 1) % 2 ^ 64 in
      let state : ScanState K = record {
        all_keys = keys;
        current_position = 0;
        scan_id = scan_id;
      } in
      (
        scan_id,
        record {
          next_scan_id_ = scan_id;
          scan_states_ = H.insert_or_assign scan_id state m.scan_states_;
        },
      )

  abbrev erase : ℕ → ScanStateManager → ScanStateManager
  erase cursor m = record m { scan_states_ = H.erase cursor m.scan_states_ }

  -- The part of `GetNextBatch` for a session that has keys left.
  unfoldable pub advance : ℕ → ℕ → ScanState K → ScanStateManager → (ℕ × List K) × ScanStateManager
  advance cursor count state m =
      let size = length state.all_keys in
      let end_idx = min ((state.current_position + count) % 2 ^ 64) size in
      let batch =
        take (end_idx - state.current_position) (drop state.current_position state.all_keys) in
      let moved = record state { current_position = end_idx } in
      let new_cursor = if ltb end_idx size then state.scan_id else 0 in
      let kept = record m { scan_states_ = H.insert_or_assign cursor moved m.scan_states_ } in
      ((new_cursor, batch), (if nat_eqb new_cursor 0 then erase cursor kept else kept))

  unfoldable pub get_next_batch : ℕ → ℕ → ScanStateManager → (ℕ × List K) × ScanStateManager
  unfolding advance
  get_next_batch cursor count m = elim (H.find m.scan_states_ cursor) [
    | none ↦ ((0, []), m)
    | some state ↦
        if leb (length state.all_keys) state.current_position
        then ((0, []), erase cursor m)
        else advance cursor count state m
  ]

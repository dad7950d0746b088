-- ===== src/Tests/Commands.antt =====
-- Runs of SCAN sessions.
use astra_db.Prelude.{ℕ, ◌≡◌, true, none, List, [], ◌∷◌, nat_eq, arith}
use astra_db.Abseil.{FlatHashMap}
use astra_db.Abseil.Model.{model}
use astra_db.Commands.Scan.{ScanState, ScanStateManager, start_scan}
use astra_db.Commands.Scan.Complete.{drain, scan_completes}

abbrev table : FlatHashMap ℕ (ScanState ℕ)
table = model ℕ (ScanState ℕ)

abbrev manager : ScanStateManager table
manager = record { next_scan_id_ = 0; scan_states_ = record { rows = []; distinct = tt } }

abbrev keys : List ℕ
keys = 5 ∷ 6 ∷ 7 ∷ []

abbrev started : ℕ × ScanStateManager table
started = start_scan table keys manager

scan_completes_example :
    ((drain table 2 4 started.0 started.1).0.0 ≡ keys)
    × ((drain table 2 4 started.0 started.1).0.1 ≡ true)
    × (table.find (drain table 2 4 started.0 started.1).1.scan_states_ started.0 ≡ none)
scan_completes_example =
    scan_completes table 2 keys manager 4 (omega arith) (omega arith) (omega arith) (omega arith)

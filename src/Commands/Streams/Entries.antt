-- ===== src/Commands/Streams/Entries.antt =====
-- The loops over entries in the handlers of src/astra/commands/redis/stream_commands.cpp.
use astra_db.Prelude.{ℕ, ◌+◌, Bool, true, false, ◌&&◌, ◌||◌, List, [], ◌∷◌, ltb, leb, if◌then◌else◌}
use astra_db.Container.Streams.{StreamId, StreamEntry, PendingEntry, lt, eqb}

-- `find_if` and `erase` of XDEL: the entries that are left, and whether one was erased.
unfoldable pub erase_entry : StreamId → List StreamEntry → List StreamEntry × Bool
erase_entry id [] = ([], false)
erase_entry id (e ∷ es) =
    let rest = erase_entry id es in if eqb e.id id then (es, true) else (e ∷ rest.0, rest.1)

-- The loop of XRANGE; `found` counts the result so far, and a `count` of 0 stands for no limit.
unfoldable pub in_range_loop : StreamId → StreamId → ℕ → ℕ → List StreamEntry → List StreamEntry
in_range_loop start end count found [] = []
in_range_loop start end count found (e ∷ es) =
    let skipped = in_range_loop start end count found es in
    let more = in_range_loop start end count (found + 1) es in
    if lt e.id start || lt end e.id
    then skipped
    else if ltb 0 count && leb count found
    then []
    else e ∷ more

-- `pending_entries.erase(id)`
unfoldable pub erase_pending :
    StreamId → List (StreamId × PendingEntry) → List (StreamId × PendingEntry) × Bool
erase_pending id [] = ([], false)
erase_pending id ((j, p) ∷ rest) =
    let later = erase_pending id rest in
    if eqb j id then (rest, true) else ((j, p) ∷ later.0, later.1)

-- The loop of XREVRANGE, over the entries from the last on.
unfoldable pub in_reverse_loop : StreamId → StreamId → ℕ → ℕ → List StreamEntry → List StreamEntry
in_reverse_loop start end count processed [] = []
in_reverse_loop start end count processed (e ∷ es) =
    let skipped = in_reverse_loop start end count processed es in
    let more = in_reverse_loop start end count (processed + 1) es in
    if leb count processed then [] else if lt e.id start || lt end e.id then skipped else e ∷ more

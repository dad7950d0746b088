-- ===== src/Commands/Streams/Ids.antt =====
-- The ids of a stream over any sequence of changes (src/astra/container/stream_data.hpp and
-- src/astra/commands/redis/stream_commands.cpp).
use astra_db.Prelude.{
  ℕ, suc, ◌+◌, ◌-◌, ◌^◌, ◌<◌, ◌≡◌, ◌⊎◌, List, [], ◌∷◌, length, Bytes, bytes_eq, arith, Option-cases,
  inl, inr, true, is_some, Bool-cases,
}
use astra_db.Prelude.Int.{ℤ, pos}
use mathlib.Core.Path.{subst}
use astra_db.Abseil.{FlatHashMap}
use astra_db.Container.Streams
use astra_db.Container.Streams.{
  StreamId, StreamEntry, StreamConsumerGroup, StreamData, lt, le, pop_to, init, add_entry,
}
use astra_db.Container.Streams.Order.{Increasing}
use astra_db.Commands.Streams.Entries.{erase_entry}
use astra_db.Commands.Streams.Growth.{
  IsValid, Refused, Added, add_entry_step, weaken, last_generated, All-erase_entry, All-pop_to,
  Increasing-pop_to, Increasing-erase_entry,
}

-- What changes a stream: `AddEntry`, the removal of one entry by XDEL, XTRIM, `CreateGroup` and
-- `ReadGroup`.
pub data Call : Type 0 where
  add : ℕ → List (Bytes × Bytes) → Bytes → ℕ → Call
  delete : StreamId → Call
  trim : ℕ → Call
  create_group : Bytes → StreamId → Call
  read_group : ℤ → Bytes → Bytes → ℕ → Call

-- The clock is that of an `int64_t`.
abbrev pub Timely : List Call → Type 0
Timely [] = Unit {0}
Timely (Call.add now fields spec max_len ∷ calls) = (now < 2 ^ 63) × Timely calls
Timely (Call.delete id ∷ calls) = Timely calls
Timely (Call.trim n ∷ calls) = Timely calls
Timely (Call.create_group name start ∷ calls) = Timely calls
Timely (Call.read_group now name consumer count ∷ calls) = Timely calls

module _ (C : FlatHashMap Bytes StreamId) (G : FlatHashMap Bytes (StreamConsumerGroup C))
    (parse : Bytes → StreamId) where
  unfoldable pub call : Call → StreamData C G → StreamData C G
  call (Call.add now fields spec max_len) s =
      (add_entry C G parse (pos now) fields spec max_len s).1
  call (Call.delete id) s = record s { entries = (erase_entry id s.entries).0 }
  call (Call.trim n) s = record s { entries = pop_to n s.entries }
  call (Call.create_group name start) s = (Streams.create_group C G name start s).1
  call (Call.read_group now name consumer count) s =
      (Streams.read_group C G now name consumer count s).1

  unfoldable pub run : List Call → StreamData C G → StreamData C G
  run [] s = s
  run (c ∷ cs) s = run cs (call c s)

  module _ (small : (t : Bytes) → ((parse t).ms < 2 ^ 63) × ((parse t).seq < 2 ^ 63)) where
    pub read_group-IsValid :
        (n : ℕ) (now : ℤ) (name consumer : Bytes) (count : ℕ) (s : StreamData C G)
        → IsValid C G n s
        → IsValid C G n (Streams.read_group C G now name consumer count s).1
    unfolding Streams.read_group
    read_group-IsValid n now name consumer count s v = elim (Option-cases (G.find s.groups name)) [
      | inl absent ↦ rw (Streams.read_group, absent) v
      | inr (group, found) ↦
          rw (Streams.read_group, found)
            (record {
              increasing = v.increasing;
              within = v.within;
              ms_room = v.ms_room;
              seq_room = v.seq_room;
            })
    ]

    create_group-IsValid :
        (n : ℕ) (name : Bytes) (start : StreamId) (s : StreamData C G)
        → IsValid C G n s
        → IsValid C G n (Streams.create_group C G name start s).1
    unfolding Streams.create_group
    create_group-IsValid n name start s v = elim (Bool-cases (is_some (G.find s.groups name))) [
      | inl there ↦ rw (Streams.create_group, there) v
      | inr new ↦
          rw (Streams.create_group, new)
            (record {
              increasing = v.increasing;
              within = v.within;
              ms_room = v.ms_room;
              seq_room = v.seq_room;
            })
    ]

    run-IsValid :
        (n m : ℕ) (calls : List Call) (s : StreamData C G)
        → Timely calls
        → n + length calls ≡ m
        → m < 2 ^ 63
        → IsValid C G n s
        → IsValid C G m (run calls s)
    unfolding run call
    run-IsValid n m [] s timely e few v =
        let e' : n ≡ m = omega (arith, e) in subst (λ (k : ℕ). IsValid C G k s) e' v
    run-IsValid n m (Call.add now fields spec max_len ∷ calls) s (timely, later) e few v =
        run-IsValid (suc n) m calls (call (Call.add now fields spec max_len) s) later
          (omega (arith, e)) few
          (add_entry_step C G parse small n now fields spec max_len s v (omega (arith, e, few))
            timely).0
    run-IsValid n m (Call.delete id ∷ calls) s timely e few v =
        run-IsValid (suc n) m calls (call (Call.delete id) s) timely (omega (arith, e)) few (
          weaken C G n (call (Call.delete id) s) (record {
            increasing = Increasing-erase_entry id s.entries v.increasing;
            within =
                All-erase_entry (λ x. le x.id (last_generated C G s) ≡ true) id s.entries v.within;
            ms_room = v.ms_room;
            seq_room = v.seq_room;
          }))
    run-IsValid n m (Call.trim size ∷ calls) s timely e few v =
        run-IsValid (suc n) m calls (call (Call.trim size) s) timely (omega (arith, e)) few (
          weaken C G n (call (Call.trim size) s) (record {
            increasing = Increasing-pop_to size s.entries v.increasing;
            within =
                All-pop_to (λ x. le x.id (last_generated C G s) ≡ true) size s.entries v.within;
            ms_room = v.ms_room;
            seq_room = v.seq_room;
          }))
    run-IsValid n m (Call.create_group name start ∷ calls) s timely e few v =
        let s' = call (Call.create_group name start) s in
        run-IsValid (suc n) m calls s' timely (omega (arith, e)) few
          (weaken C G n s' (create_group-IsValid n name start s v))
    run-IsValid n m (Call.read_group now name consumer count ∷ calls) s timely e few v =
        let s' = call (Call.read_group now name consumer count) s in
        run-IsValid (suc n) m calls s' timely (omega (arith, e)) few
          (weaken C G n s' (read_group-IsValid n now name consumer count s v))

    -- After any sequence of additions, deletions, trims, creations of groups and reads by them on an
    -- empty stream, with fewer than 2^63 - 1 calls, clocks below 2^63 and texts that are read as ids with numbers below
    -- 2^63: the ids of the entries increase, and a further addition either answers 0-0 and leaves
    -- the stream as it is, or answers an id above those of all entries and makes the new entry the
    -- last one.
    pub ids_grow :
        (calls : List Call) (now : ℕ) (fields : List (Bytes × Bytes)) (spec : Bytes) (max_len : ℕ)
        → Timely calls
        → now < 2 ^ 63
        → length calls < 2 ^ 63 - 1
        → let s = run calls (init C G) in
          let r = add_entry C G parse (pos now) fields spec max_len s in
          Increasing s.entries × (Refused C G s r ⊎ Added C G fields s r)
    ids_grow calls now fields spec max_len timely in_time few =
        let n = length calls in
        let v = run-IsValid 0 n calls (init C G) timely (omega arith) (omega (arith, few)) (
          unfold init in
          (record {
            increasing = tt;
            within = tt;
            ms_room = omega arith;
            seq_room = omega arith;
          })) in
        (
          v.increasing,
          (add_entry_step C G parse small n now fields spec max_len (run calls (init C G)) v few
              in_time).1,
        )

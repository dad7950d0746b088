-- ===== src/Commands/Streams/Groups.antt =====
-- What a consumer group reads of a stream (src/astra/container/stream_data.hpp).
use astra_db.Prelude.{
  ℕ, zero, suc, ◌+◌, ◌-◌, ◌≡◌, refl, sym, ap, ◌∙◌, inl, inr, false, Option, none, some, List, [],
  ◌∷◌, ◌++◌, take, leb, Bytes, bytes_eq, if◌then◌else◌, arith, Bool-cases, ==_refl,
}
use astra_db.Prelude.Int.{ℤ, pos}
use astra_db.Abseil.{FlatHashMap}
use astra_db.Container.Streams
use astra_db.Container.Streams.{
  StreamId, StreamEntry, StreamConsumerGroup, StreamData, PendingEntry, stream_id, lt, le, back,
  group_loop, read_group, add_entry, append_entry, next_id,
}
use astra_db.Container.Streams.Order.{after}

-- How many entries a read still takes: its count, and one at least.
abbrev pub quota : ℕ → ℕ → ℕ
quota count size = if leb count (size + 1) then 1 else count - size

pub after-append :
    (d : StreamId) (xs ys : List StreamEntry) → after d (xs ++ ys) ≡ after d xs ++ after d ys
unfolding after
after-append d [] ys = refl
after-append d (x ∷ xs) ys = elim (Bool-cases (lt d x.id)) [
  | inl further ↦ rw (further, after-append d xs ys)
  | inr passed ↦ rw (passed, after-append d xs ys)
]

take-nil : (n : ℕ) → take {A = StreamEntry} n [] ≡ []
take-nil zero = refl
take-nil (suc n) = refl

quota_more :
    (count size : ℕ) → leb count (size + 1) ≡ false → count - size ≡ suc (quota count (size + 1))
quota_more count size h = ground arith

group_loop_lem :
    (now : ℤ) (consumer : Bytes) (count : ℕ) (last : StreamId) (size : ℕ)
    (pending : List (StreamId × PendingEntry)) (es : List StreamEntry)
    → (group_loop now consumer count last size pending es).0
      ≡ take (quota count size) (after last es)
unfolding group_loop after
group_loop_lem now consumer count last size pending [] = sym (take-nil (quota count size))
group_loop_lem now consumer count last size pending (e ∷ es) =
    let p : PendingEntry = record {
      entry = e;
      consumer = consumer;
      delivery_count = pos 1;
      last_delivered = now;
    } in
    let pending' = Streams.assign e.id p pending in
    elim (Bool-cases (lt last e.id)) [
      | inr passed ↦ rw passed (group_loop_lem now consumer count last size pending es)
      | inl further ↦ rw further (elim (Bool-cases (leb count (size + 1))) [
        | inl full ↦ rw full refl
        | inr room ↦
            rw (room, quota_more count size room)
              (ap (◌∷◌ e) (group_loop_lem now consumer count last (size + 1) pending' es))
      ])
    ]

module _ (C : FlatHashMap Bytes StreamId) (G : FlatHashMap Bytes (StreamConsumerGroup C))
    (name : Bytes) where
  -- The id up to which the group has read.
  abbrev pub position : StreamData C G → StreamId
  position s = elim (G.find s.groups name) [ none ↦ stream_id 0 0 | some g ↦ g.last_delivered_id ]

  abbrev pub Found : StreamData C G → Type 0
  Found s = (g : StreamConsumerGroup C) × (G.find s.groups name ≡ some g)

  -- The position after a read with this last entry.
  abbrev pub moved : StreamId → Option StreamEntry → StreamId
  moved d o = elim o [ none ↦ d | some last ↦ last.id ]

  -- The group after a read with this last entry.
  abbrev served :
      Bytes
      → List (StreamId × PendingEntry)
      → StreamConsumerGroup C
      → Option StreamEntry
      → StreamConsumerGroup C
  served consumer pending g o = elim o [
    | none ↦ record g { pending_entries = pending }
    | some last ↦ record g {
      pending_entries = pending;
      last_delivered_id = last.id;
      consumers = C.insert_or_assign consumer last.id g.consumers;
    }
  ]

  served_position :
      (consumer : Bytes) (pending : List (StreamId × PendingEntry)) (g : StreamConsumerGroup C)
      (o : Option StreamEntry)
      → (served consumer pending g o).last_delivered_id ≡ moved g.last_delivered_id o
  served_position consumer pending g none = refl
  served_position consumer pending g (some last) = refl

  pub position_found :
      (s : StreamData C G) (g : StreamConsumerGroup C)
      → G.find s.groups name ≡ some g
      → position s ≡ g.last_delivered_id
  position_found s g found = rw (position, found) refl

  pub read_step :
      (now : ℤ) (consumer : Bytes) (count : ℕ) (s : StreamData C G)
      → Found s
      → let r = read_group C G now name consumer count s in
        (r.0 ≡ take (quota count 0) (after (position s) s.entries))
        × (r.1.entries ≡ s.entries)
        × Found r.1
        × (position r.1 ≡ moved (position s) (back r.0))
  unfolding read_group
  read_step now consumer count s (g, found) =
      let result =
        group_loop now consumer count g.last_delivered_id 0 g.pending_entries s.entries in
      let g' = served consumer result.1 g (back result.0) in
      let s' : StreamData C G = record s { groups = G.insert_or_assign name g' s.groups } in
      let found' : G.find s'.groups name ≡ some g' =
        G.find-insert name g' s.groups name ∙ rw (==_refl name) refl in
      let e = position_found s g found in
      let e' = position_found s' g' found' in
      rw (read_group, found)
        (
          rw e
              (group_loop_lem now consumer count g.last_delivered_id 0 g.pending_entries s.entries),
          refl,
          (g', found'),
          rw (e, e') (served_position consumer result.1 g (back result.0)),
        )

-- ===== src/Commands/Streams/Growth.antt =====
-- The ids of a stream only grow (src/astra/container/stream_data.hpp and
-- src/astra/commands/redis/stream_commands.cpp).
use astra_db.Prelude.{
  ℕ, suc, ◌+◌, ◌-◌, ◌^◌, ◌<◌, ◌≡◌, ◌⊎◌, inl, inr, refl, true, false, Option, none, some, List, [],
  ◌∷◌, ◌++◌, length, Bytes, bytes, bytes_eq, ◌==◌, if◌then◌else◌, arith, Bool-cases, ltb,
}
use astra_db.Prelude.Int.{ℤ, pos}
use astra_db.Abseil.{FlatHashMap}
use astra_db.Container.Streams
use astra_db.Container.Streams.{
  StreamId, StreamEntry, StreamConsumerGroup, StreamData, stream_id, lt, le, back, pop_to, next_id,
  append_entry, add_entry,
}
use astra_db.Container.Streams.Order.{
  All, Within, Increasing, Increasing-append, Within-append, le-lt, back-append, Within-last,
  back-none,
}
use astra_db.Commands.Streams.Entries.{erase_entry}

-- Parts of a list keep what holds of its entries.
pub All-pop_to :
    (P : StreamEntry → Type 0) (n : ℕ) (xs : List StreamEntry) → All P xs → All P (pop_to n xs)
unfolding pop_to
All-pop_to P n [] h = tt
All-pop_to P n (x ∷ xs) (h, hs) = elim (Bool-cases (ltb n (length (x ∷ xs)))) [
  | inl more ↦ rw more (All-pop_to P n xs hs)
  | inr enough ↦ rw enough (h, hs)
]

pub All-erase_entry :
    (P : StreamEntry → Type 0) (id : StreamId) (xs : List StreamEntry)
    → All P xs
    → All P (erase_entry id xs).0
unfolding erase_entry
All-erase_entry P id [] h = tt
All-erase_entry P id (x ∷ xs) (h, hs) = elim (Bool-cases (Streams.eqb x.id id)) [
  | inl found ↦ rw found hs
  | inr other ↦ rw other (h, All-erase_entry P id xs hs)
]

pub Increasing-pop_to : (n : ℕ) (xs : List StreamEntry) → Increasing xs → Increasing (pop_to n xs)
unfolding pop_to
Increasing-pop_to n [] h = tt
Increasing-pop_to n (x ∷ xs) (h, hs) = elim (Bool-cases (ltb n (length (x ∷ xs)))) [
  | inl more ↦ rw more (Increasing-pop_to n xs hs)
  | inr enough ↦ rw enough (h, hs)
]

pub Increasing-erase_entry :
    (id : StreamId) (xs : List StreamEntry) → Increasing xs → Increasing (erase_entry id xs).0
unfolding erase_entry
Increasing-erase_entry id [] h = tt
Increasing-erase_entry id (x ∷ xs) (h, hs) = elim (Bool-cases (Streams.eqb x.id id)) [
  | inl found ↦ rw found hs
  | inr other ↦
      rw other (All-erase_entry (λ e. lt x.id e.id ≡ true) id xs h, Increasing-erase_entry id xs hs)
]

back-pop_to : (n : ℕ) (xs : List StreamEntry) → 0 < n → back (pop_to n xs) ≡ back xs
unfolding pop_to back
back-pop_to n [] h = refl
back-pop_to n (x ∷ []) h = ground arith
back-pop_to n (x ∷ y ∷ ys) h = elim (Bool-cases (ltb n (length (x ∷ y ∷ ys)))) [
  | inl more ↦ rw more (back-pop_to n (y ∷ ys) h)
  | inr enough ↦ rw enough refl
]

module _ (C : FlatHashMap Bytes StreamId) (G : FlatHashMap Bytes (StreamConsumerGroup C)) where
  abbrev pub last_generated : StreamData C G → StreamId
  last_generated s = stream_id s.last_generated_ms s.last_generated_seq

  -- After n calls at most.
  pub record IsValid (n : ℕ) (s : StreamData C G) : Type 0 where
    pub increasing : Increasing s.entries
    pub within : Within (last_generated s) s.entries
    pub ms_room : s.last_generated_ms < 2 ^ 63
    pub seq_room : s.last_generated_seq < 2 ^ 63 + n

  next_id_lem :
      (n now : ℕ) (s : StreamData C G)
      → IsValid n s
      → n < 2 ^ 63 - 1
      → now < 2 ^ 63
      → (lt (last_generated s) (next_id C G (pos now) s) ≡ true)
        × ((next_id C G (pos now) s).ms < 2 ^ 63)
        × ((next_id C G (pos now) s).seq < 2 ^ 63 + suc n)
  unfolding next_id
  next_id_lem n now s v few timely = (
    ground (arith, v.ms_room, v.seq_room),
    ground (arith, v.ms_room, v.seq_room),
    ground (arith, v.ms_room, v.seq_room),
  )

  limited_keep :
      (P : List StreamEntry → Type 0) (max_len : ℕ) (xs : List StreamEntry)
      → P xs
      → P (pop_to max_len xs)
      → P (if ltb 0 max_len then pop_to max_len xs else xs)
  limited_keep P max_len xs h k = elim (Bool-cases (ltb 0 max_len)) [
    | inl limited ↦ rw limited k
    | inr unlimited ↦ rw unlimited h
  ]

  -- What an entry is added to, and how the stream ends then.
  append_entry-IsValid :
      (n : ℕ) (s : StreamData C G) (id : StreamId) (fields : List (Bytes × Bytes)) (max_len : ℕ)
      → let e : StreamEntry = record { id = id; fields = fields } in
        Increasing (s.entries ++ e ∷ [])
        → Within id (s.entries ++ e ∷ [])
        → id.ms < 2 ^ 63
        → id.seq < 2 ^ 63 + n
        → IsValid n (append_entry C G id fields max_len s)
          × (back (append_entry C G id fields max_len s).entries ≡ some e)
  unfolding append_entry
  append_entry-IsValid n s id fields max_len inc within ms seq =
      let e : StreamEntry = record { id = id; fields = fields } in
      let es = s.entries ++ e ∷ [] in
      (
        record {
          increasing = limited_keep Increasing max_len es inc (Increasing-pop_to max_len es inc);
          within =
              limited_keep (Within id) max_len es within
                (All-pop_to (λ x. le x.id id ≡ true) max_len es within);
          ms_room = ms;
          seq_room = seq;
        },
        ground (arith, back-append s.entries e, back-pop_to max_len es),
      )

  -- An entry is refused, and the stream is as it was, or it is the last, with a greater id than all.
  abbrev pub Refused : StreamData C G → StreamId × StreamData C G → Type 0
  Refused s r = r ≡ (stream_id 0 0, s)

  abbrev pub Added : List (Bytes × Bytes) → StreamData C G → StreamId × StreamData C G → Type 0
  Added fields s (id, s') =
      All (λ e. lt e.id id ≡ true) s.entries
      × (back s'.entries ≡ some (record { id = id; fields = fields }))

  All-lt :
      (d id : StreamId) (xs : List StreamEntry)
      → Within d xs
      → lt d id ≡ true
      → All (λ e. lt e.id id ≡ true) xs
  All-lt d id [] w h = tt
  All-lt d id (x ∷ xs) (w, ws) h = (le-lt x.id d id w h, All-lt d id xs ws h)

  add_above :
      (n : ℕ) (s : StreamData C G) (d id : StreamId) (fields : List (Bytes × Bytes)) (max_len : ℕ)
      → IsValid n s
      → Within d s.entries
      → lt d id ≡ true
      → id.ms < 2 ^ 63
      → id.seq < 2 ^ 63 + suc n
      → IsValid (suc n) (append_entry C G id fields max_len s)
        × Added fields s (id, append_entry C G id fields max_len s)
  add_above n s d id fields max_len v w h ms seq =
      let e : StreamEntry = record { id = id; fields = fields } in
      let (valid, last) =
        append_entry-IsValid (suc n) s id fields max_len
          (Increasing-append d s.entries e v.increasing w h) (Within-append d s.entries e w h) ms
          seq in
      (valid, (All-lt d id s.entries w h, last))

  -- The room grows.
  pub weaken : (n : ℕ) (s : StreamData C G) → IsValid n s → IsValid (suc n) s
  weaken n s v = record {
    increasing = v.increasing;
    within = v.within;
    ms_room = v.ms_room;
    seq_room = omega (arith, v.seq_room);
  }

  module _ (parse : Bytes → StreamId)
      (small : (t : Bytes) → ((parse t).ms < 2 ^ 63) × ((parse t).seq < 2 ^ 63)) where
    add_explicit :
        (n : ℕ) (now : ℤ) (fields : List (Bytes × Bytes)) (spec : Bytes) (max_len : ℕ)
        (s : StreamData C G) (last : Option StreamEntry)
        → back s.entries ≡ last
        → (spec == bytes "*") ≡ false
        → IsValid n s
        → let r = add_entry C G parse now fields spec max_len s in
          IsValid (suc n) r.1 × (Refused s r ⊎ Added fields s r)
    unfolding add_entry
    add_explicit n now fields spec max_len s none ends explicit v =
        let id = parse spec in
        let e : StreamEntry = record { id = id; fields = fields } in
        let empty : s.entries ≡ [] = back-none s.entries ends in
        let (valid, last) =
          append_entry-IsValid (suc n) s id fields max_len (rw empty (tt, tt))
            (rw empty (ground arith, tt)) (small spec).0 (omega (arith, (small spec).1)) in
        rw (explicit, ends) (valid, inr (rw empty tt, last))
    add_explicit n now fields spec max_len s (some last) ends explicit v =
        elim (Bool-cases (le (parse spec) last.id)) [
          | inl old ↦ rw (explicit, ends, old) (weaken n s v, inl refl)
          | inr new ↦
              let (valid, added) =
                add_above n s last.id (parse spec) fields max_len v
                  (Within-last s.entries last v.increasing ends) (ground arith) (small spec).0
                  (omega (arith, (small spec).1)) in
              rw (explicit, ends, new) (valid, inr added)
        ]

    pub add_entry_step :
        (n now : ℕ) (fields : List (Bytes × Bytes)) (spec : Bytes) (max_len : ℕ)
        (s : StreamData C G)
        → IsValid n s
        → n < 2 ^ 63 - 1
        → now < 2 ^ 63
        → let r = add_entry C G parse (pos now) fields spec max_len s in
          IsValid (suc n) r.1 × (Refused s r ⊎ Added fields s r)
    unfolding add_entry
    add_entry_step n now fields spec max_len s v few timely =
        elim (Bool-cases (spec == bytes "*")) [
          | inl auto ↦
              let (above, ms, seq) = next_id_lem n now s v few timely in
              let (valid, added) =
                add_above n s (last_generated s) (next_id C G (pos now) s) fields max_len v v.within
                  above ms seq in
              rw auto (valid, inr added)
          | inr explicit ↦
              add_explicit n (pos now) fields spec max_len s (back s.entries) refl explicit v
        ]

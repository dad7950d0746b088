-- ===== src/Commands/Streams/Delivery.antt =====
-- What the consumers of a group get of a stream, over any sequence of reads and additions
-- (src/astra/container/stream_data.hpp).
use astra_db.Prelude.{
  ℕ, suc, ◌+◌, ◌^◌, ◌<◌, ◌≡◌, refl, sym, ap, ◌∙◌, inl, inr, Option, none, some, List, [], ◌∷◌, ◌++◌,
  length, take, drop, take-append-drop, Bytes, bytes, bytes_eq, ◌==◌, arith, Bool-cases,
  Option-cases,
}
use mathlib.Core.List.{append-nil, append_assoc}
use mathlib.Core.Path.{subst}
use astra_db.Prelude.Int.{ℤ, pos}
use astra_db.Abseil.{FlatHashMap}
use astra_db.Container.Streams.{
  StreamId, StreamEntry, StreamConsumerGroup, StreamData, le, back, read_group, add_entry,
  append_entry,
}
use astra_db.Container.Streams.Order.{Increasing, after, after_last, back_lem, back-none}
use astra_db.Commands.Streams.Growth.{IsValid, add_entry_step, weaken}
use astra_db.Commands.Streams.Groups.{
  quota, after-append, Found, moved, position, position_found, read_step,
}
use astra_db.Commands.Streams.Ids.{read_group-IsValid}

-- The calls that a group sees: a consumer reads, or an entry is added without a limit of the length.
pub data Step : Type 0 where
  read : ℤ → Bytes → ℕ → Step
  add : ℕ → List (Bytes × Bytes) → Bytes → Step

abbrev pub Timely : List Step → Type 0
Timely [] = Unit {0}
Timely (Step.read now consumer count ∷ steps) = Timely steps
Timely (Step.add now fields spec ∷ steps) = (now < 2 ^ 63) × Timely steps

module _ (C : FlatHashMap Bytes StreamId) (G : FlatHashMap Bytes (StreamConsumerGroup C))
    (parse : Bytes → StreamId) (name : Bytes) where
  -- The entries that the consumers of the group got, in order, and the stream afterwards.
  unfoldable pub serve : List Step → StreamData C G → List StreamEntry × StreamData C G
  serve [] s = ([], s)
  serve (Step.read now consumer count ∷ steps) s =
      let (found, s') = read_group C G now name consumer count s in
      let (more, s'') = serve steps s' in (found ++ more, s'')
  serve (Step.add now fields spec ∷ steps) s =
      serve steps (add_entry C G parse (pos now) fields spec 0 s).1

  -- Going on from where a result ends gives what the result left.
  resume :
      (d : StreamId) (es found tail : List StreamEntry) (o : Option StreamEntry)
      → back found ≡ o
      → Increasing es
      → after d es ≡ found ++ tail
      → found ++ after (moved C G name d o) es ≡ after d es
  resume d es found tail none ends inc split = rw (back-none found ends) refl
  resume d es found tail (some x) ends inc split =
      let (ys, e) = back_lem found x ends in
      let split' : after d es ≡ ys ++ x ∷ tail =
        split ∙ ap (λ (l : List StreamEntry). l ++ tail) e ∙ append_assoc ys (x ∷ []) tail in
      rw (after_last d es ys x tail inc split') (sym split)

  add_step :
      (now : ℤ) (fields : List (Bytes × Bytes)) (spec : Bytes) (s : StreamData C G)
      → let s' = (add_entry C G parse now fields spec 0 s).1 in
        (more : List StreamEntry) × (s'.entries ≡ s.entries ++ more) × (s'.groups ≡ s.groups)
  unfolding add_entry append_entry
  add_step now fields spec s = elim (Bool-cases (spec == bytes "*")) [
    | inl auto ↦ rw (add_entry, auto) (_, refl, refl)
    | inr explicit ↦ elim (Option-cases (back s.entries)) [
      | inl empty ↦ rw (add_entry, explicit, empty) (_, refl, refl)
      | inr (last, ends) ↦ elim (Bool-cases (le (parse spec) last.id)) [
        | inl old ↦ rw (add_entry, explicit, ends, old) ([], sym (append-nil s.entries), refl)
        | inr new ↦ rw (add_entry, explicit, ends, new) (_, refl, refl)
      ]
    ]
  ]

  module _ (small : (t : Bytes) → ((parse t).ms < 2 ^ 63) × ((parse t).seq < 2 ^ 63)) where
    abbrev Outcome : ℕ → StreamData C G → List StreamEntry × StreamData C G → Type 0
    Outcome m s (found, s') =
        IsValid C G m s'
        × Found C G name s'
        × ((more : List StreamEntry) × (s'.entries ≡ s.entries ++ more))
        × (found ++ after (position C G name s') s'.entries
            ≡ after (position C G name s) s'.entries)

    serve_lem :
        (n m : ℕ) (steps : List Step) (s : StreamData C G)
        → Timely steps
        → n + length steps ≡ m
        → m < 2 ^ 63
        → Found C G name s
        → IsValid C G n s
        → Outcome m s (serve steps s)
    unfolding serve
    serve_lem n m [] s timely e few found v =
        let e' : n ≡ m = omega (arith, e) in
        (subst (λ (k : ℕ). IsValid C G k s) e' v, found, ([], sym (append-nil s.entries)), refl)
    serve_lem n m (Step.add now fields spec ∷ steps) s (timely, later) e few (g, found) v =
        let s₁ = (add_entry C G parse (pos now) fields spec 0 s).1 in
        let (more, grown, same) = add_step (pos now) fields spec s in
        let found' : G.find s₁.groups name ≡ some g = rw same found in
        let stays : position C G name s₁ ≡ position C G name s =
          position_found C G name s₁ g found' ∙ sym (position_found C G name s g found) in
        let (valid, kept, (more', grown'), rest) =
          serve_lem (suc n) m steps s₁ later (omega (arith, e)) few (g, found')
            (add_entry_step C G parse small n now fields spec 0 s v (omega (arith, e, few))
              timely).0 in
        (
          valid,
          kept,
          (more ++ more', grown' ∙ rw grown (append_assoc s.entries more more')),
          rest ∙ ap (λ (d : StreamId). after d (serve steps s₁).1.entries) stays,
        )
    serve_lem n m (Step.read now consumer count ∷ steps) s timely e few found v =
        let (result, s₁) = read_group C G now name consumer count s in
        let (taken, same, found', moved') = read_step C G name now consumer count s found in
        let (valid, kept, (more', grown'), rest) =
          serve_lem (suc n) m steps s₁ timely (omega (arith, e)) few found'
            (weaken C G n s₁ (read_group-IsValid C G parse small n now name consumer count s v)) in
        let es = (serve steps s₁).1.entries in
        let d = position C G name s in
        let k = quota count 0 in
        let left = after d s.entries in
        let tail = drop k left ++ after d more' in
        let grown : es ≡ s.entries ++ more' =
          grown' ∙ ap (λ (l : List StreamEntry). l ++ more') same in
        let split : after d es ≡ result ++ tail =
          ap (after d) grown
          ∙ after-append d s.entries more'
          ∙ ap (λ (l : List StreamEntry). l ++ after d more') (sym (take-append-drop k left))
          ∙ append_assoc (take k left) (drop k left) (after d more')
          ∙ ap (λ (l : List StreamEntry). l ++ tail) (sym taken) in
        (
          valid,
          kept,
          (more', grown),
          append_assoc result (serve steps s₁).0 (after (position C G name (serve steps s₁).1) es)
              ∙ ap (λ (l : List StreamEntry). result ++ l) rest
              ∙ ap (λ (p : StreamId). result ++ after p es) moved'
              ∙ resume d es result tail (back result) refl valid.increasing split,
        )

    -- From a stream whose ids increase, with a group of this name, after any sequence of reads by
    -- consumers of the group and of additions without a limit of the length: the entries that the
    -- consumers got, in order, and then those that are still beyond the group's position, are
    -- exactly the entries beyond the position at first, each once; the stream has only grown; and a
    -- further read gets the first of those that are left, as many as its count, and one at least.
    pub delivered_once :
        (n : ℕ) (steps : List Step) (s : StreamData C G) (now : ℤ) (consumer : Bytes) (count : ℕ)
        (g : StreamConsumerGroup C)
        → Timely steps
        → n + length steps < 2 ^ 63
        → G.find s.groups name ≡ some g
        → IsValid C G n s
        → let (found, s') = serve steps s in
          let left = after (position C G name s') s'.entries in
          (found ++ left ≡ after g.last_delivered_id s'.entries)
          × ((more : List StreamEntry) × (s'.entries ≡ s.entries ++ more))
          × ((read_group C G now name consumer count s').0 ≡ take (quota count 0) left)
    delivered_once n steps s now consumer count g timely few found v =
        let (valid, kept, grown, once) =
          serve_lem n (n + length steps) steps s timely refl few (g, found) v in
        (
          once ∙ rw (position_found C G name s g found) refl,
          grown,
          (read_step C G name now consumer count (serve steps s).1 kept).0,
        )

-- ===== src/Cluster/Slots/Tags.antt =====
-- Hash tags (src/astra/cluster/shard_manager.hpp, `CalculateWithTag`).
use astra_db.Prelude.{
  ℕ, ◌<◌, ◌≡◌, refl, sym, ◌∙◌, Bool, false, ◌||◌, none, some, [], ◌∷◌, ◌++◌, Bytes, nat_eqb, arith,
}
use astra_db.Cluster.Slots.{
  hash_slot_count, calculate, memchr, open_brace, close_brace, calculate_with_tag,
}

abbrev pub occurs : ℕ → Bytes → Bool
occurs c [] = false
occurs c (x ∷ xs) = nat_eqb x c || occurs c xs

memchr-append :
    (c : ℕ) (before behind : Bytes)
    → occurs c before ≡ false
    → memchr c (before ++ c ∷ behind) ≡ some (before, behind)
unfolding memchr
memchr-append c [] behind h = ground arith
memchr-append c (x ∷ before) behind h = ground (arith, memchr-append c before behind)

memchr-none : (c : ℕ) (xs : Bytes) → occurs c xs ≡ false → memchr c xs ≡ none
unfolding memchr
memchr-none c [] h = refl
memchr-none c (x ∷ xs) h = ground (arith, memchr-none c xs)

calculate-lt : (key : Bytes) → calculate key < hash_slot_count
unfolding calculate
calculate-lt key = omega arith

with_tag_lem :
    (key before behind tag rest : Bytes) (x : ℕ)
    → memchr open_brace key ≡ some (before, behind)
    → memchr close_brace behind ≡ some (x ∷ tag, rest)
    → calculate_with_tag key ≡ calculate (x ∷ tag)
unfolding calculate_with_tag
with_tag_lem key before behind tag rest x h h' = rw (h, h', calculate_with_tag) refl

no_tag_lem : (key : Bytes) → memchr open_brace key ≡ none → calculate_with_tag key ≡ calculate key
unfolding calculate_with_tag
no_tag_lem key h = rw (h, calculate_with_tag) refl

any_slot : (key : Bytes) → calculate_with_tag key < hash_slot_count
unfolding calculate_with_tag calculate
any_slot key = ground arith

-- Every key has one of the 16384 slots. A key with a tag, that is a text with no closing brace
-- between the first opening brace and the next closing one, and not empty, has the slot of its
-- tag, whatever stands around it, so that two keys with the same tag have the same slot; a key
-- without an opening brace has the slot of the whole key.
pub slot_of_tag :
    (any before tag behind before' behind' : Bytes) (x : ℕ)
    → occurs open_brace before ≡ false
    → occurs open_brace before' ≡ false
    → occurs close_brace (x ∷ tag) ≡ false
    → let key = before ++ open_brace ∷ (x ∷ tag ++ close_brace ∷ behind) in
      let key' = before' ++ open_brace ∷ (x ∷ tag ++ close_brace ∷ behind') in
      (calculate_with_tag key ≡ calculate_with_tag key')
      × (calculate_with_tag key ≡ calculate (x ∷ tag))
      × (calculate_with_tag before ≡ calculate before)
      × (calculate_with_tag any < hash_slot_count)
slot_of_tag any before tag behind before' behind' x h h' t =
    let slot : (b r : Bytes)
        → occurs open_brace b ≡ false
        → calculate_with_tag (b ++ open_brace ∷ (x ∷ tag ++ close_brace ∷ r))
          ≡ calculate (x ∷ tag) =
      λ b r free.
        with_tag_lem _ b (x ∷ tag ++ close_brace ∷ r) tag r x
          (memchr-append open_brace b (x ∷ tag ++ close_brace ∷ r) free)
          (memchr-append close_brace (x ∷ tag) r t) in
    let here = slot before behind h in
    (
      here ∙ sym (slot before' behind' h'),
      here,
      no_tag_lem before (memchr-none open_brace before h),
      any_slot any,
    )

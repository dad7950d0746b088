-- ===== src/Container/Streams/Order.antt =====
-- The order of stream ids, and lists of entries that increase in it
-- (src/astra/container/stream_data.hpp).
use astra_db.Prelude.{
  ◌≡◌, refl, sym, ap, ◌∙◌, inl, inr, true, false, none, some, List, [], ◌∷◌, ◌++◌, arith,
  if◌then◌else◌, Bool-cases,
}
use mathlib.Core.Path.{subst}
use astra_db.Container.Streams.{StreamId, StreamEntry, lt, le, back}

pub lt_trans : (a b c : StreamId) → lt a b ≡ true → lt b c ≡ true → lt a c ≡ true
lt_trans a b c h k = ground arith

pub le-lt : (a b c : StreamId) → le a b ≡ true → lt b c ≡ true → lt a c ≡ true
le-lt a b c h k = ground arith

lt_irrefl : (a : StreamId) → lt a a ≡ false
lt_irrefl a = ground arith

lt_asymm : (a b : StreamId) → lt a b ≡ true → lt b a ≡ false
lt_asymm a b h = ground arith

abbrev pub All : (StreamEntry → Type 0) → List StreamEntry → Type 0
All P [] = Unit {0}
All P (x ∷ xs) = P x × All P xs

-- Every entry has a greater id.
abbrev pub Above : StreamId → List StreamEntry → Type 0
Above d xs = All (λ x. lt d x.id ≡ true) xs

-- Every entry has this id at most.
abbrev pub Within : StreamId → List StreamEntry → Type 0
Within d xs = All (λ x. le x.id d ≡ true) xs

abbrev pub Increasing : List StreamEntry → Type 0
Increasing [] = Unit {0}
Increasing (x ∷ xs) = Above x.id xs × Increasing xs

pub Above-trans : (c d : StreamId) (xs : List StreamEntry) → lt c d ≡ true → Above d xs → Above c xs
Above-trans c d [] h k = tt
Above-trans c d (x ∷ xs) h (k, ks) = (lt_trans c d x.id h k, Above-trans c d xs h ks)

pub Above-append :
    (d : StreamId) (xs : List StreamEntry) (x : StreamEntry)
    → Above d xs
    → lt d x.id ≡ true
    → Above d (xs ++ x ∷ [])
Above-append d [] x h k = (k, tt)
Above-append d (y ∷ ys) x (h, hs) k = (h, Above-append d ys x hs k)

pub Increasing-append :
    (d : StreamId) (xs : List StreamEntry) (x : StreamEntry)
    → Increasing xs
    → Within d xs
    → lt d x.id ≡ true
    → Increasing (xs ++ x ∷ [])
Increasing-append d [] x h w k = (tt, tt)
Increasing-append d (y ∷ ys) x (h, hs) (w, ws) k =
    (Above-append y.id ys x h (le-lt y.id d x.id w k), Increasing-append d ys x hs ws k)

pub Within-append :
    (d : StreamId) (xs : List StreamEntry) (x : StreamEntry)
    → Within d xs
    → lt d x.id ≡ true
    → Within x.id (xs ++ x ∷ [])
Within-append d [] x w k = (ground arith, tt)
Within-append d (y ∷ ys) x (w, ws) k = (ground arith, Within-append d ys x ws k)

-- The entries beyond an id.
unfoldable pub after : StreamId → List StreamEntry → List StreamEntry
after d [] = []
after d (x ∷ xs) = let rest = after d xs in if lt d x.id then x ∷ rest else rest

after_of_Above : (d : StreamId) (xs : List StreamEntry) → Above d xs → after d xs ≡ xs
unfolding after
after_of_Above d [] h = refl
after_of_Above d (x ∷ xs) (h, hs) = rw (h, after_of_Above d xs hs)

-- What stands behind an id is above what all entries are above of.
member-Above :
    (b d : StreamId) (xs ys : List StreamEntry) (y : StreamEntry) (zs : List StreamEntry)
    → Above b xs
    → after d xs ≡ ys ++ y ∷ zs
    → lt b y.id ≡ true
unfolding after
member-Above b d [] [] y zs h e = cc
member-Above b d [] (w ∷ ys) y zs h e = cc
member-Above b d (x ∷ xs) [] y zs (h, hs) e = elim (Bool-cases (lt d x.id)) [
  | inl further ↦ let e' : x ∷ after d xs ≡ y ∷ zs = sym (rw further) ∙ e in cc
  | inr passed ↦ member-Above b d xs [] y zs hs (sym (rw passed) ∙ e)
]
member-Above b d (x ∷ xs) (w ∷ ys) y zs (h, hs) e = elim (Bool-cases (lt d x.id)) [
  | inl further ↦
      let e' : x ∷ after d xs ≡ w ∷ ys ++ y ∷ zs = sym (rw further) ∙ e in
      member-Above b d xs ys y zs hs (cc)
  | inr passed ↦ member-Above b d xs (w ∷ ys) y zs hs (sym (rw passed) ∙ e)
]

-- Reading on from an entry that was read gives what came behind it.
pub after_last :
    (d : StreamId) (xs ys : List StreamEntry) (y : StreamEntry) (zs : List StreamEntry)
    → Increasing xs
    → after d xs ≡ ys ++ y ∷ zs
    → after y.id xs ≡ zs
unfolding after
after_last d [] [] y zs h e = cc
after_last d [] (w ∷ ys) y zs h e = cc
after_last d (x ∷ xs) [] y zs (h, hs) e = elim (Bool-cases (lt d x.id)) [
  | inl further ↦
      let e' : x ∷ after d xs ≡ y ∷ zs = sym (rw further) ∙ e in
      let same : x ≡ y = cc in
      let above : Above y.id xs = subst (λ (z : StreamEntry). Above z.id xs) same h in
      let above' : Above d xs = Above-trans d x.id xs further h in
      let rest : after d xs ≡ zs = cc in
      ground (
        arith,
        after_of_Above d xs above',
        after_of_Above y.id xs above,
        rest,
        same,
        lt_irrefl x.id,
      )
  | inr passed ↦
      let e' : after d xs ≡ y ∷ zs = sym (rw passed) ∙ e in
      ground (
        arith,
        lt_asymm x.id y.id,
        member-Above x.id d xs [] y zs h e',
        after_last d xs [] y zs hs e',
      )
]
after_last d (x ∷ xs) (w ∷ ys) y zs (h, hs) e = elim (Bool-cases (lt d x.id)) [
  | inl further ↦
      let e' : x ∷ after d xs ≡ w ∷ ys ++ y ∷ zs = sym (rw further) ∙ e in
      let rest : after d xs ≡ ys ++ y ∷ zs = cc in
      ground (
        arith,
        lt_asymm x.id y.id,
        member-Above x.id d xs ys y zs h rest,
        after_last d xs ys y zs hs rest,
      )
  | inr passed ↦
      let e' : after d xs ≡ w ∷ ys ++ y ∷ zs = sym (rw passed) ∙ e in
      ground (
        arith,
        lt_asymm x.id y.id,
        member-Above x.id d xs (w ∷ ys) y zs h e',
        after_last d xs (w ∷ ys) y zs hs e',
      )
]

-- The last entry of a list, and those before it.
pub back_lem :
    (xs : List StreamEntry) (x : StreamEntry)
    → back xs ≡ some x
    → (ys : List StreamEntry) × (xs ≡ ys ++ x ∷ [])
unfolding back
back_lem [] x e = cc
back_lem (y ∷ []) x e = ([], cc)
back_lem (y ∷ z ∷ zs) x e = let (ys, e') = back_lem (z ∷ zs) x e in (y ∷ ys, ap (◌∷◌ y) e')

pub back-none : (xs : List StreamEntry) → back xs ≡ none → xs ≡ []
unfolding back
back-none [] e = refl
back-none (y ∷ []) e = cc
back-none (y ∷ z ∷ zs) e = let h = back-none (z ∷ zs) e in cc

pub back-append : (xs : List StreamEntry) (x : StreamEntry) → back (xs ++ x ∷ []) ≡ some x
unfolding back
back-append [] x = refl
back-append (y ∷ []) x = refl
back-append (y ∷ z ∷ zs) x = back-append (z ∷ zs) x

-- All entries are within the last of a list that increases.
pub Within-last :
    (xs : List StreamEntry) (x : StreamEntry) → Increasing xs → back xs ≡ some x → Within x.id xs
unfolding back
Within-last [] x h e = tt
Within-last (y ∷ []) x h e = ground arith
Within-last (y ∷ z ∷ zs) x ((h, hs), h') e =
    let rest = Within-last (z ∷ zs) x h' e in (ground arith, rest)

-- ===== src/Security/Acl/Patterns.antt =====
-- The key patterns of a user (src/astra/security/acl_manager.hpp).
use astra_db.Prelude.{
  ℕ, zero, suc, ◌+◌, ◌-◌, ◌≤◌, ◌≡◌, ◌≢◌, ◌↔◌, refl, sym, ap, ◌∙◌, inl, inr, Bool, true, false, ◌&&◌,
  none, some, [], ◌∷◌, ◌++◌, length, take, drop, leb, nat_eqb, Bytes, bytes, bytes_eq, ◌==◌, ==_iff,
  ==_refl, arith, Bool-cases, take-append, drop-append, take-append-drop, length-append,
}
use mathlib.Core.List.{append_assoc, append-nil}
use astra_db.Security.Acl.{split_star, matches}

-- A text without '*'.
abbrev pub StarFree : Bytes → Type 0
StarFree [] = Unit {0}
StarFree (c ∷ cs) = (nat_eqb c b'*' ≡ false) × StarFree cs

split_star-none : (p : Bytes) → StarFree p → split_star p ≡ none
unfolding split_star
split_star-none [] h = refl
split_star-none (c ∷ cs) (h, hs) = rw (h, split_star-none cs hs) refl

split_star-some : (p s : Bytes) → StarFree p → split_star (p ++ b'*' ∷ s) ≡ some (p, s)
unfolding split_star
split_star-some [] s h = refl
split_star-some (c ∷ cs) s (h, hs) = rw (h, split_star-some cs s hs) refl

drop-nil : (n : ℕ) → drop {A = ℕ} n [] ≡ []
drop-nil zero = refl
drop-nil (suc n) = refl

drop-drop : (m n : ℕ) (xs : Bytes) → drop n (drop m xs) ≡ drop (m + n) xs
drop-drop zero n xs = let e : 0 + n ≡ n = omega arith in rw e refl
drop-drop (suc m) n [] = drop-nil n ∙ sym (drop-nil (suc m + n))
drop-drop (suc m) n (x ∷ xs) =
    let e : suc m + n ≡ suc (m + n) = omega arith in rw e (drop-drop m n xs)

-- A text that begins with one text and ends with another, without an overlap, has a middle.
middle_lem :
    (p s key : Bytes)
    → length p + length s ≤ length key
    → take (length p) key ≡ p
    → drop (length key - length s) key ≡ s
    → (middle : Bytes) × (key ≡ p ++ middle ++ s)
middle_lem p s key room starts ends =
    let n = length key - length s - length p in
    let behind = drop (length p) key in
    let whole : key ≡ p ++ behind =
      sym (take-append-drop (length p) key) ∙ ap (λ (t : Bytes). t ++ behind) starts in
    let sum : length p + n ≡ length key - length s = omega (arith, room) in
    let last : drop n behind ≡ s =
      drop-drop (length p) n key ∙ ap (λ (k : ℕ). drop k key) sum ∙ ends in
    let cut : behind ≡ take n behind ++ s =
      sym (take-append-drop n behind) ∙ ap (λ (t : Bytes). take n behind ++ t) last in
    (take n behind, whole ∙ ap (λ (t : Bytes). p ++ t) cut ∙ sym (append_assoc p (take n behind) s))

around :
    (p middle s : Bytes)
    → let key = p ++ middle ++ s in
      (leb (length p + length s) (length key)
        && (take (length p) key == p)
        && (drop (length key - length s) key == s))
      ≡ true
around p middle s =
    let key = p ++ middle ++ s in
    let n : length key - length s ≡ length (p ++ middle) =
      omega (arith, length-append (p ++ middle) s) in
    let starts : take (length p) key ≡ p =
      ap (take (length p)) (append_assoc p middle s) ∙ take-append p (middle ++ s) in
    let ends : drop (length key - length s) key ≡ s =
      ap (λ (k : ℕ). drop k key) n ∙ drop-append (p ++ middle) s in
    let room : leb (length p + length s) (length key) ≡ true =
      ground (arith, length-append (p ++ middle) s, length-append p middle) in
    rw (room, starts, ends, ==_refl p, ==_refl s) refl

only_star : (p s : Bytes) → StarFree p → p ++ b'*' ∷ s ≡ bytes "*" → (p ≡ []) × (s ≡ [])
only_star [] s h e = (refl, cc)
only_star (c ∷ cs) s (h, hs) e = let same : c ≡ b'*' = cc in absurd (ground (arith, same, h))

not_star : (p : Bytes) → StarFree p → p ≢ bytes "*"
not_star [] h e = cc
not_star (c ∷ cs) (h, hs) e = let same : c ≡ b'*' = cc in absurd (ground (arith, same, h))

-- The test behind a split pattern.
abbrev fits : Bytes → Bytes → Bytes → Bool
fits p s key =
    leb (length p + length s) (length key)
    && (take (length p) key == p)
    && (drop (length key - length s) key == s)

and_split : (a b c : Bool) → (a && b && c) ≡ true → (a ≡ true) × (b ≡ true) × (c ≡ true)
and_split a b c h = ground arith

-- A pattern without '*' matches the text that it is and no other. One with a '*', which is the first,
-- matches exactly the texts that begin with what stands before it and end with what stands behind
-- it, whatever is in between; a further '*' stands for itself.
pub matches_lem :
    (p s key : Bytes)
    → StarFree p
    → ((matches (p ++ b'*' ∷ s) key ≡ true) ↔ ((middle : Bytes) × (key ≡ p ++ middle ++ s)))
      × ((matches p key ≡ true) ↔ (key ≡ p))
unfolding matches
matches_lem p s key free = ((forth, back), exact)
  where
    forth : matches (p ++ b'*' ∷ s) key ≡ true → (middle : Bytes) × (key ≡ p ++ middle ++ s)
    forth h = elim (Bool-cases ((p ++ b'*' ∷ s) == bytes "*")) [
      | inl whole ↦
          let (before, behind) =
            only_star p s free ((==_iff (p ++ b'*' ∷ s) (bytes "*")).0 whole) in
          (key, rw (before, behind) (sym (append-nil key)))
      | inr part ↦
          let e : matches (p ++ b'*' ∷ s) key ≡ fits p s key =
            rw (matches, part, split_star-some p s free) refl in
          let (room, starts, ends) =
            and_split (leb (length p + length s) (length key)) (take (length p) key == p)
              (drop (length key - length s) key == s) (sym e ∙ h) in
          middle_lem p s key (ground (arith, room)) ((==_iff (take (length p) key) p).0 starts)
            ((==_iff (drop (length key - length s) key) s).0 ends)
    ]

    back : (middle : Bytes) × (key ≡ p ++ middle ++ s) → matches (p ++ b'*' ∷ s) key ≡ true
    back (middle, e) = elim (Bool-cases ((p ++ b'*' ∷ s) == bytes "*")) [
      | inl whole ↦ rw (matches, whole) refl
      | inr part ↦ rw (matches, part, split_star-some p s free, e) (around p middle s)
    ]

    exact : (matches p key ≡ true) ↔ (key ≡ p)
    exact = elim (Bool-cases (p == bytes "*")) [
      | inl whole ↦ absurd (not_star p free ((==_iff p (bytes "*")).0 whole))
      | inr part ↦
          let e : matches p key ≡ (key == p) = rw (matches, part, split_star-none p free) refl in
          (λ h. (==_iff key p).0 (sym e ∙ h), λ same. e ∙ (==_iff key p).1 same)
    ]

-- ===== src/Commands/Database/Sets/Algebra.antt =====
-- SINTER, SUNION and SDIFF of src/astra/commands/database.hpp by the membership of one element.
use astra_db.Prelude.{
  ◌≡◌, refl, ap, ◌∙◌, inl, inr, Bool, true, false, not, ◌&&◌, ◌||◌, Option, none, some, is_some,
  is_nil, List, [], ◌∷◌, map, Eq, if◌then◌else◌, arith, Option-cases,
}
use astra_db.Prelude.Int.{ℤ}
use astra_db.Abseil.{lookup}
use astra_db.Container.DashMap
use astra_db.Commands.Database.{Tables, Database, exists}
use astra_db.Commands.Database.Sets.{
  SetType, get_set, among, common, without_members, insert_all, s_inter_loop, s_inter, s_diff_loop,
  s_diff, s_union_loop, s_union,
}
use astra_db.Commands.Database.Sets.Visible.{visible, visible-exists, on_set-visible}

module _ {S : Type 0} ⦃e : Eq S⦄ (T : Tables S) (x : S) where
  abbrev pub has : Option (SetType T) → Bool
  has none = false
  has (some set) = DashMap.contains T.members set x

  abbrev pub in_all : (S → Option (SetType T)) → List S → Bool
  in_all sets [] = true
  in_all sets (k ∷ keys) = has (sets k) && in_all sets keys

  abbrev pub in_any : (S → Option (SetType T)) → List S → Bool
  in_any sets [] = false
  in_any sets (k ∷ keys) = has (sets k) || in_any sets keys

  among-common : (xs ys : List S) → among T (common T xs ys) x ≡ (among T xs x && among T ys x)
  unfolding common
  among-common [] ys = refl
  among-common (y ∷ xs) ys = ground (arith, e.beq_iff y x, among-common xs ys)

  among-without :
      (xs ys : List S) → among T (without_members T xs ys) x ≡ (among T xs x && not (among T ys x))
  unfolding without_members
  among-without [] ys = refl
  among-without (y ∷ xs) ys = ground (arith, e.beq_iff y x, among-without xs ys)

  among-keys :
      (rows : List (S × Unit {0})) → among T (map (λ p. p.0) rows) x ≡ is_some (lookup x rows)
  unfolding lookup
  among-keys [] = refl
  among-keys ((y, u) ∷ rows) = ground (arith, among-keys rows)

  among-members :
      (set : SetType T)
      → among T (DashMap.get_all_keys T.members set) x ≡ DashMap.contains T.members set x
  unfolding DashMap.get_all_keys DashMap.contains
  among-members set =
      among-keys (T.members.entries set.map_) ∙ ap is_some (T.members.lookup-entries set.map_ x)

  find-insert_all :
      (xs : List S) (table : T.members.Table)
      → is_some (T.members.find (insert_all T xs table) x)
        ≡ (among T xs x || is_some (T.members.find table x))
  find-insert_all [] table = refl
  find-insert_all (y ∷ xs) table =
      find-insert_all xs (T.members.insert_or_assign y tt table)
      ∙ ground (arith, T.members.find-insert y tt table x)

  among-is_nil : (xs : List S) → is_nil xs ≡ true → among T xs x ≡ false
  among-is_nil [] h = refl
  among-is_nil (y ∷ xs) h = ground arith

  module _ (now : ℤ) (sets : S → Option (SetType T)) where
    -- The database shows `sets`.
    abbrev Shows : Database T → Type 0
    Shows db = (k : S) → visible T now db k ≡ sets k

    Shows-exists : (db : Database T) (k : S) → Shows db → Shows (exists T now k db).1
    Shows-exists db k s j = visible-exists T now db k j ∙ s j

    among-inter :
        (keys result : List S) (db : Database T)
        → Shows db
        → among T (s_inter_loop T now result keys db).0 x ≡ (among T result x && in_all sets keys)
    unfolding s_inter_loop
    among-inter [] result db s = ground arith
    among-inter (k ∷ keys) result db s =
        let act : SetType T → Database T → List S × Database T = λ current_set db'.
          let temp = common T result (DashMap.get_all_keys T.members current_set) in
          let rest = s_inter_loop T now temp keys db' in if is_nil temp then ([], db') else rest in
        ap (λ r. among T r.0 x) (on_set-visible T now k [] db act) ∙ elim (Option-cases (sets k)) [
          | inl unseen ↦ rw (s k, unseen) (ground arith)
          | inr (set, seen) ↦
              let temp = common T result (DashMap.get_all_keys T.members set) in
              rw (s k, seen)
                (ground (
                  arith,
                  among-inter keys temp (exists T now k db).1 (Shows-exists db k s),
                  among-common result (DashMap.get_all_keys T.members set),
                  among-members set,
                  among-is_nil temp,
                ))
        ]

    among-diff :
        (keys result : List S) (db : Database T)
        → Shows db
        → among T (s_diff_loop T now result keys db).0 x
          ≡ (among T result x && not (in_any sets keys))
    unfolding s_diff_loop
    among-diff [] result db s = ground arith
    among-diff (k ∷ keys) result db s =
        let act : SetType T → Database T → List S × Database T = λ current_set db'.
          (without_members T result (DashMap.get_all_keys T.members current_set), db') in
        ap (λ r. among T (s_diff_loop T now r.0 keys r.1).0 x)
          (on_set-visible T now k result db act)
        ∙ elim (Option-cases (sets k)) [
          | inl unseen ↦
              rw (s k, unseen) (among-diff keys result (exists T now k db).1 (Shows-exists db k s))
          | inr (set, seen) ↦
              let left = without_members T result (DashMap.get_all_keys T.members set) in
              rw (s k, seen)
                (ground (
                  arith,
                  among-diff keys left (exists T now k db).1 (Shows-exists db k s),
                  among-without result (DashMap.get_all_keys T.members set),
                  among-members set,
                ))
        ]

    find-union :
        (keys : List S) (table : T.members.Table) (db : Database T)
        → Shows db
        → is_some (T.members.find (s_union_loop T now table keys db).0 x)
          ≡ (is_some (T.members.find table x) || in_any sets keys)
    unfolding s_union_loop
    find-union [] table db s = ground arith
    find-union (k ∷ keys) table db s =
        let act : SetType T → Database T → T.members.Table × Database T =
          λ set db'. (insert_all T (DashMap.get_all_keys T.members set) table, db') in
        ap (λ r. is_some (T.members.find (s_union_loop T now r.0 keys r.1).0 x))
          (on_set-visible T now k table db act)
        ∙ elim (Option-cases (sets k)) [
          | inl unseen ↦
              rw (s k, unseen) (find-union keys table (exists T now k db).1 (Shows-exists db k s))
          | inr (set, seen) ↦
              let gathered = insert_all T (DashMap.get_all_keys T.members set) table in
              rw (s k, seen)
                (ground (
                  arith,
                  find-union keys gathered (exists T now k db).1 (Shows-exists db k s),
                  find-insert_all (DashMap.get_all_keys T.members set) table,
                  among-members set,
                ))
        ]

  -- At one time, an element is in the union exactly if it is in one of the sets that the keys
  -- show, where a key shows no set once it has expired; it is in the intersection, or in the
  -- difference, exactly if it is in the set under the first key, expired or not, and in each of
  -- the sets, or in none of the sets, that the other keys show.
  pub algebra :
      (now : ℤ) (db : Database T) (key : S) (keys : List S)
      → (among T (s_union T now keys db).0 x ≡ in_any (visible T now db) keys)
        × (among T (s_inter T now (key ∷ keys) db).0 x
            ≡ (has (get_set T db key) && in_all (visible T now db) keys))
        × (among T (s_diff T now (key ∷ keys) db).0 x
            ≡ (has (get_set T db key) && not (in_any (visible T now db) keys)))
  unfolding s_union s_inter s_diff
  algebra now db key keys =
      let sets = visible T now db in
      (
        among-keys _
            ∙ ap is_some (T.members.lookup-entries _ x)
            ∙ find-union now sets keys T.members.empty db (λ k. refl)
            ∙ rw (T.members.find-empty x) refl,
        elim (Option-cases (get_set T db key)) [
          | inl missing ↦ rw (missing, s_inter) refl
          | inr (set, found) ↦
              rw (found, s_inter)
                (among-inter now sets keys (DashMap.get_all_keys T.members set) db (λ k. refl)
                  ∙ rw (among-members set) refl)
        ],
        elim (Option-cases (get_set T db key)) [
          | inl missing ↦ rw (missing, s_diff) refl
          | inr (set, found) ↦
              rw (found, s_diff)
                (among-diff now sets keys (DashMap.get_all_keys T.members set) db (λ k. refl)
                  ∙ rw (among-members set) refl)
        ],
      )

-- ===== src/Commands/Database/Sets.antt =====
-- The set operations of src/astra/commands/database.hpp; `DashSet` (src/astra/container/dash_map.hpp)
-- is a `DashMap` to an empty struct, to which it passes its calls on. The index that `SPop` and
-- `SRandMember` draw is an argument. `s_inter` is `SInterLocal`, which a worker runs for the keys of its shard; the
-- aggregation over workers in the batch callback of `SInter` is left out.
pub mod Visible
pub mod Algebra
use astra_db.Prelude.{
  ℕ, ◌+◌, Bool, true, false, not, Option, none, some, is_some, is_nil, List, [], ◌∷◌, length,
  get_elem?, Eq, ◌==◌, map, if◌then◌else◌, foldl,
}
use astra_db.Prelude.Int.{ℤ}
use astra_db.Container.DashMap
use astra_db.Container.DashMap.{DashMap}
use astra_db.Storage.Metadata.{KeyType}
use astra_db.Commands.Database.{Tables, Database, register, if_valid}

module _ {S : Type 0} ⦃e : Eq S⦄ (T : Tables S) where
  abbrev pub SetType : Type 0
  SetType = DashMap T.members

  abbrev pub get_set : Database T → S → Option SetType
  get_set db key = DashMap.get T.sets db.sets_ key

  abbrev pub put_set : S → SetType → Database T → Database T
  put_set key set db = record db { sets_ = (DashMap.insert T.sets key set db.sets_).0 }

  abbrev pub set_or_new : S → Database T → SetType × Database T
  set_or_new key db = elim (get_set db key) [
    | none ↦ (
      DashMap.init T.members,
      register T key KeyType.set (put_set key (DashMap.init T.members) db),
    )
    | some set ↦ (set, db)
  ]

  abbrev pub on_set {ℓ} :
      {R : Type ℓ}
      → ℤ
      → S
      → R
      → Database T
      → (SetType → Database T → R × Database T)
      → R × Database T
  on_set now key missing db act =
      if_valid T now key missing db
        (λ db'. elim (get_set db' key) [ none ↦ (missing, db') | some set ↦ act set db' ])

  unfoldable pub s_add : S → S → Database T → Bool × Database T
  s_add key member db =
      let (set, db') = set_or_new key db in
      let (added, result) = DashMap.insert T.members member tt set in
      (result, put_set key added db')

  unfoldable pub s_rem : ℤ → S → S → Database T → Bool × Database T
  s_rem now key member db = on_set now key false db (λ set db'.
      let (left, removed) = DashMap.remove T.members member set in (removed, put_set key left db'))

  unfoldable pub s_is_member : ℤ → S → S → Database T → Bool × Database T
  s_is_member now key member db =
      on_set now key false db (λ set db'. (DashMap.contains T.members set member, db'))

  unfoldable pub s_members : ℤ → S → Database T → List S × Database T
  s_members now key db = on_set now key [] db (λ set db'. (DashMap.get_all_keys T.members set, db'))

  unfoldable pub s_card : ℤ → S → Database T → ℕ × Database T
  s_card now key db = on_set now key 0 db (λ set db'. (DashMap.size T.members set, db'))

  unfoldable pub s_rand_member : ℤ → ℕ → S → Database T → Option S × Database T
  s_rand_member now idx key db = on_set now key none db (λ set db'. (
    if DashMap.is_empty T.members set
        then none
        else get_elem? (DashMap.get_all_keys T.members set) idx,
    db',
  ))

  unfoldable pub s_pop : ℤ → ℕ → S → Database T → Option S × Database T
  s_pop now idx key db = on_set now key none db (λ set db'.
      elim (if DashMap.is_empty T.members set
        then none
        else get_elem? (DashMap.get_all_keys T.members set) idx) [
          | none ↦ (none, db')
          | some member ↦ (some member, put_set key (DashMap.remove T.members member set).0 db')
        ])

  unfoldable pub s_move : ℤ → S → S → S → Database T → Bool × Database T
  s_move now source destination member db = on_set now source false db (λ source_set db'.
      let taken = put_set source (DashMap.remove T.members member source_set).0 db' in
      let (dest_set, db'') = set_or_new destination taken in
      if DashMap.contains T.members source_set member
      then (true, put_set destination (DashMap.insert T.members member tt dest_set).0 db'')
      else (false, db'))

  -- `absl::flat_hash_set` of the members, in which each is looked up.
  abbrev pub among : List S → S → Bool
  among [] x = false
  among (y ∷ ys) x = if y == x then true else among ys x

  unfoldable pub common : List S → List S → List S
  common [] current = []
  common (x ∷ result) current =
      let rest = common result current in if among current x then x ∷ rest else rest

  -- The loop over the sets behind the first.
  unfoldable pub s_inter_loop : ℤ → List S → List S → Database T → List S × Database T
  s_inter_loop now result [] db = (result, db)
  s_inter_loop now result (key ∷ keys) db = on_set now key [] db (λ current_set db'.
      let temp = common result (DashMap.get_all_keys T.members current_set) in
      let rest = s_inter_loop now temp keys db' in if is_nil temp then ([], db') else rest)

  unfoldable pub s_inter : ℤ → List S → Database T → List S × Database T
  unfolding s_inter_loop
  s_inter now [] db = ([], db)
  s_inter now (key ∷ keys) db = elim (get_set db key) [
    | none ↦ ([], db)
    | some first_set ↦ s_inter_loop now (DashMap.get_all_keys T.members first_set) keys db
  ]

  unfoldable pub without_members : List S → List S → List S
  without_members [] current = []
  without_members (x ∷ result) current =
      let rest = without_members result current in if among current x then rest else x ∷ rest

  unfoldable pub s_diff_loop : ℤ → List S → List S → Database T → List S × Database T
  s_diff_loop now result [] db = (result, db)
  s_diff_loop now result (key ∷ keys) db =
      let (left, db') = on_set now key result db (λ current_set db'.
        (without_members result (DashMap.get_all_keys T.members current_set), db')) in
      s_diff_loop now left keys db'

  unfoldable pub s_diff : ℤ → List S → Database T → List S × Database T
  unfolding s_diff_loop
  s_diff now [] db = ([], db)
  s_diff now (key ∷ keys) db = elim (get_set db key) [
    | none ↦ ([], db)
    | some first_set ↦ s_diff_loop now (DashMap.get_all_keys T.members first_set) keys db
  ]

  -- The union is gathered in an `absl::flat_hash_set`.
  abbrev pub insert_all : List S → T.members.Table → T.members.Table
  insert_all [] union_set = union_set
  insert_all (x ∷ xs) union_set = insert_all xs (T.members.insert_or_assign x tt union_set)

  unfoldable pub s_union_loop :
      ℤ → T.members.Table → List S → Database T → T.members.Table × Database T
  s_union_loop now union_set [] db = (union_set, db)
  s_union_loop now union_set (key ∷ keys) db =
      let (gathered, db') =
        on_set now key union_set db
          (λ set db'. (insert_all (DashMap.get_all_keys T.members set) union_set, db')) in
      s_union_loop now gathered keys db'

  unfoldable pub s_union : ℤ → List S → Database T → List S × Database T
  unfolding s_union_loop
  s_union now keys db =
      let (union_set, db') = s_union_loop now T.members.empty keys db in
      (map (λ p. p.0) (T.members.entries union_set), db')

  -- The members are written to a set that is cleared, or created and registered.
  abbrev pub store_members : S → List S × Database T → ℕ × Database T
  store_members destination (members, db) =
      let (dest_set, db') : SetType × Database T = elim (get_set db destination) [
        | none ↦ set_or_new destination db
        | some dest_set ↦ (DashMap.clear T.members dest_set, db)
      ] in
      (
        length members,
        put_set destination
            (foldl (λ set member. (DashMap.insert T.members member tt set).0) dest_set members) db',
      )

  unfoldable pub s_inter_store : ℤ → S → List S → Database T → ℕ × Database T
  unfolding s_inter
  s_inter_store now destination keys db = store_members destination (s_inter now keys db)

  unfoldable pub s_union_store : ℤ → S → List S → Database T → ℕ × Database T
  unfolding s_union
  s_union_store now destination keys db = store_members destination (s_union now keys db)

  unfoldable pub s_diff_store : ℤ → S → List S → Database T → ℕ × Database T
  unfolding s_diff
  s_diff_store now destination keys db = store_members destination (s_diff now keys db)

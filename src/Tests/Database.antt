-- ===== src/Tests/Database.antt =====
-- Runs of a database.
use astra_db.Prelude.{
  ℕ, ◌+◌, ◌%◌, ◌^◌, ◌≡◌, refl, true, false, not, ◌&&◌, some, is_some, is_nil, List, [], ◌∷◌, length,
  Eq, ◌==◌, nat_eq, nat_eqb, bytes_eq, Bytes, bytes, if◌then◌else◌,
}
use Prim.Native.Nat.{max}
use astra_db.Prelude.Int.{ℤ, pos}
use astra_db.Abseil.{lookup, insert}
use astra_db.Container.DashMap
use astra_db.Storage.Metadata
use astra_db.Storage.Manager
use astra_db.Abseil.Model.{model}
use astra_db.Commands.Database
use astra_db.Commands.Database.{Tables, Database, metadata_of, get_key_version, exists}
use astra_db.Commands.Database.Lists.{get_list}
use astra_db.Commands.Database.Lists.Spec
use astra_db.Commands.Database.Lists.Spec.{Call, run, spec_run}
use astra_db.Commands.Database.Lists.Refines.{replies_lem}
use astra_db.Commands.Database.Strings.{set, get, get_range, set_range}
use astra_db.Commands.Database.Strings.Laws.{old_string, get_range-set_range, version-set}
use astra_db.Commands.Database.Hashes.{get_hash, h_set, h_get}
use astra_db.Commands.Database.Hashes.Laws.{field_of, h_get-h_set}
use astra_db.Commands.Database.Sets.{get_set, among, s_add, s_union, s_inter, s_diff}
use astra_db.Commands.Database.Sets.Visible.{visible}
use astra_db.Commands.Database.Sets.Algebra.{has, in_all, in_any, algebra}

abbrev tables : {S : Type 0} ⦃e : Eq S⦄ → Tables S
tables {S} = record {
  ZSet = Unit {0};
  Stream = Unit {0};
  Vector = Unit {0};
  Json = Unit {0};
  strings = model S S;
  fields = model S S;
  members = model S (Unit {0});
  hashes = model S _;
  sets = model S _;
  zsets = model S _;
  lists = model S _;
  streams = model S _;
  vectors = model S _;
  jsons = model S _;
  metadata = model S _;
}

abbrev numbered : Tables ℕ
numbered = tables

abbrev pub named : Tables Bytes
named = tables

-- Two elements under the key 1, of which one goes to the key 2, and a key that is emptied.
abbrev list_calls : List (ℤ × Call ℕ)
list_calls =
    (pos 10, Call.r_push 1 5)
    ∷ (pos 11, Call.l_push 1 6)
    ∷ (pos 12, Call.r_pop_l_push 1 2)
    ∷ (pos 13, Call.l_len 1)
    ∷ (pos 14, Call.l_pop 2)
    ∷ (pos 15, Call.exists 2)
    ∷ []

replies_lem_example :
    ((run numbered (Database.init numbered) list_calls).0 ≡ (spec_run (λ k. []) list_calls).0)
    × ((k : ℕ)
        → (is_some (get_list numbered (run numbered (Database.init numbered) list_calls).1 k)
            ≡ not (is_nil ((spec_run (λ k. []) list_calls).1 k)))
          × (is_some (metadata_of numbered (run numbered (Database.init numbered) list_calls).1 k)
              ≡ not (is_nil ((spec_run (λ k. []) list_calls).1 k))))
replies_lem_example = replies_lem numbered list_calls

list_replies :
    (spec_run (λ k. []) list_calls).0
    ≡ Spec.Reply.flag true
      ∷ Spec.Reply.flag true
      ∷ Spec.Reply.element (some 5)
      ∷ Spec.Reply.count 1
      ∷ Spec.Reply.element (some 5)
      ∷ Spec.Reply.flag false
      ∷ []
unfolding spec_run Spec.spec
list_replies = refl

abbrev key : Bytes
key = bytes "k"

get_range-set_range_example :
    let db = Database.init named in
    (get_range named (set_range named key (pos 2) (bytes "ab") db).1 key (pos 2) (pos 3)
      ≡ bytes "ab")
    × ((set_range named key (pos 2) (bytes "ab") db).0
        ≡ max (2 + 2) (length (old_string {T = named} db key)))
    × ((j : Bytes)
        → let after = (set_range named key (pos 2) (bytes "ab") db).1 in
          get named after j ≡ (if key == j then get named after key else get named db j))
get_range-set_range_example = get_range-set_range named (Database.init named) key (bytes "b") 97 2

abbrev stored : Database numbered
stored = (set numbered 1 7 (Database.init numbered)).1

version-set_example :
    let lost = is_some (get numbered stored 1) && not (is_some (metadata_of numbered stored 1)) in
    (get_key_version numbered (set numbered 1 8 stored).1 1
      ≡ (if lost then 0 else (get_key_version numbered stored 1 + 1) % 2 ^ 64))
    × ((lost && (exists numbered (pos 5) 1 (set numbered 1 8 stored).1).0) ≡ false)
version-set_example = version-set numbered 1 8 stored (pos 5)

abbrev hashed : Database numbered
hashed = (h_set numbered 1 7 70 (Database.init numbered)).1

hashed_valid : (exists numbered (pos 5) 1 hashed).0 ≡ true
unfolding exists h_set Database.init Manager.is_valid DashMap.get lookup DashMap.init
    Manager.register_key DashMap.insert insert Manager.init Metadata.is_expired
hashed_valid = refl

h_get-h_set_example :
    ((h_get numbered (pos 5) 1 7 (h_set numbered 1 8 80 hashed).1).0
      ≡ (if nat_eqb 1 1 && nat_eqb 8 7 then some 80 else (h_get numbered (pos 5) 1 7 hashed).0))
    × ((h_set numbered 1 8 80 hashed).0
        ≡ not (is_some (field_of numbered (get_hash numbered hashed 1) 8)))
    × (get_key_version numbered (h_set numbered 1 8 80 hashed).1 1 ≡ (
        if is_some (get_hash numbered hashed 1)
        then get_key_version numbered hashed 1
        else (get_key_version numbered hashed 1 + 1) % 2 ^ 64))
h_get-h_set_example = h_get-h_set numbered 1 8 80 hashed (pos 5) 1 7 (λ h. hashed_valid)

abbrev two_sets : Database numbered
two_sets =
    (s_add numbered 2 21 (s_add numbered 1 21 (s_add numbered 1 20 (Database.init numbered)).1).1).1

algebra_example :
    (among numbered (s_union numbered (pos 5) (2 ∷ []) two_sets).0 21
      ≡ in_any numbered 21 (visible numbered (pos 5) two_sets) (2 ∷ []))
    × (among numbered (s_inter numbered (pos 5) (1 ∷ 2 ∷ []) two_sets).0 21 ≡ (
        has numbered 21 (get_set numbered two_sets 1)
        && in_all numbered 21 (visible numbered (pos 5) two_sets) (2 ∷ [])))
    × (among numbered (s_diff numbered (pos 5) (1 ∷ 2 ∷ []) two_sets).0 21 ≡ (
        has numbered 21 (get_set numbered two_sets 1)
        && not (in_any numbered 21 (visible numbered (pos 5) two_sets) (2 ∷ []))))
algebra_example = algebra numbered 21 (pos 5) two_sets 1 (2 ∷ [])

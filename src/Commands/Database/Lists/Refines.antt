-- ===== src/Commands/Database/Lists/Refines.antt =====
-- The list operations of src/astra/commands/database.hpp against lists under keys.
use astra_db.Prelude.{◌≡◌, inl, inr, refl, not, is_some, is_nil, List, [], ◌∷◌, Eq}
use astra_db.Prelude.Int.{ℤ}
use astra_db.Commands.Database
use astra_db.Commands.Database.{Tables, Database, metadata_of, register}
use astra_db.Commands.Database.Lists.{get_list}
use astra_db.Commands.Database.Lists.Cells.{Stands, init-Stands, list_cases}
use astra_db.Commands.Database.Lists.Calls.{call_lem}
use astra_db.Commands.Database.Lists.Spec.{Call, spec, call, spec_run, run}

module _ {S : Type 0} ⦃e : Eq S⦄ (T : Tables S) where
  run_lem :
      (calls : List (ℤ × Call S)) (m : S → List S) (db : Database T)
      → Stands T m db
      → ((run T db calls).0 ≡ (spec_run m calls).0)
        × Stands T (spec_run m calls).1 (run T db calls).1
  unfolding run spec_run
  run_lem [] m db s = (refl, s)
  run_lem ((now, c) ∷ calls) m db s =
      let (reply, s') = call_lem T m db now s c in
      let (replies, s'') = run_lem calls (spec m c).1 (call T now db c).1 s' in
      (rw (reply, replies) refl, s'')

  -- From the empty database, any sequence of list calls, `Exists` and `Del`, on any keys and at
  -- any times, gets the replies that the same calls get from plain lists, one under each key; and
  -- at its end a key exists, in the table of the lists and in the metadata, exactly if its list
  -- has an element.
  pub replies_lem :
      (calls : List (ℤ × Call S))
      → ((run T (Database.init T) calls).0 ≡ (spec_run (λ k. []) calls).0)
        × ((k : S)
            → (is_some (get_list T (run T (Database.init T) calls).1 k)
                ≡ not (is_nil ((spec_run (λ k. []) calls).1 k)))
              × (is_some (metadata_of T (run T (Database.init T) calls).1 k)
                  ≡ not (is_nil ((spec_run (λ k. []) calls).1 k))))
  replies_lem calls =
      let (replies, s) = run_lem calls (λ k. []) (Database.init T) (init-Stands T) in
      (
        replies,
        λ k. elim (list_cases T _ _ k s) [
          | inl (none_k, missing, unknown) ↦ rw (none_k, missing, unknown) (refl, refl)
          | inr p ↦ rw (p.here, p.found, p.known) (refl, refl)
        ],
      )

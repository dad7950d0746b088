-- ===== src/Abseil/Model.antt =====
-- The interface is met by association lists: a concrete table for runs and witnesses.
use astra_db.Prelude.{refl, List, [], Eq, length}
use astra_db.Abseil.Assoc.{
  lookup, insert, without, lookup-nil, lookup-insert, lookup-without, length-insert, length-without,
  Distinct, Distinct-insert, Distinct-without,
}
use astra_db.Abseil.{FlatHashMap}

module _ (K V : Type 0) ⦃e : Eq K⦄ where
  pub record Rows : Type 0 where
    pub rows : List (K × V)
    pub distinct : Distinct rows

  abbrev pub model : FlatHashMap K V
  model = record {
    Table = Rows;
    empty = record { rows = []; distinct = tt };
    find = λ t k. lookup k t.rows;
    insert_or_assign = λ k v t. record {
      rows = insert k v t.rows;
      distinct = Distinct-insert k v t.rows t.distinct;
    };
    erase =
        λ k t. record { rows = without k t.rows; distinct = Distinct-without k t.rows t.distinct };
    size = λ t. length t.rows;
    entries = λ t. t.rows;
    find-empty = λ j. lookup-nil j;
    size-empty = refl;
    find-insert = λ k v t j. lookup-insert k v t.rows j;
    size-insert = λ k v t. length-insert k v t.rows;
    find-erase = λ k t j. lookup-without k t.rows j;
    size-erase = λ k t. length-without k t.rows t.distinct;
    lookup-entries = λ t j. refl;
    length-entries = λ t. refl;
  }

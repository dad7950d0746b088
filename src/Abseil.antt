-- ===== src/Abseil.antt =====
-- `absl::flat_hash_map`, the third-party table under the program's maps, as an interface: the
-- operations that the program calls, and what their documentation promises. The order in which
-- `entries` lists them is not specified.
mod Assoc
pub mod Model
pub mod Size
unfoldable pub use Assoc.{lookup, insert, without}
pub use Assoc.{lookup-nil}
use astra_db.Prelude.{
  ℕ, ◌+◌, ◌-◌, ◌≡◌, Bool, true, Option, none, some, is_some, List, [], Eq, ◌==◌, length,
  if◌then◌else◌,
}

pub record FlatHashMap (K V : Type 0) ⦃e : Eq K⦄ : Type 1 where
  pub Table : Type 0
  pub empty : Table
  pub find : Table → K → Option V
  pub insert_or_assign : K → V → Table → Table
  pub erase : K → Table → Table
  pub size : Table → ℕ
  -- What a range-based `for` visits.
  pub entries : Table → List (K × V)
  pub find-empty : (j : K) → find empty j ≡ none
  pub size-empty : size empty ≡ 0
  pub find-insert :
      (k : K) (v : V) (t : Table) (j : K)
      → find (insert_or_assign k v t) j ≡ (if k == j then some v else find t j)
  pub size-insert :
      (k : K) (v : V) (t : Table)
      → size (insert_or_assign k v t) ≡ (if is_some (find t k) then size t else size t + 1)
  pub find-erase :
      (k : K) (t : Table) (j : K) → find (erase k t) j ≡ (if k == j then none else find t j)
  pub size-erase :
      (k : K) (t : Table) → size (erase k t) + (if is_some (find t k) then 1 else 0) ≡ size t
  pub lookup-entries : (t : Table) (j : K) → lookup j (entries t) ≡ find t j
  pub length-entries : (t : Table) → length (entries t) ≡ size t

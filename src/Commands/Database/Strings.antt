-- ===== src/Commands/Database/Strings.antt =====
-- The string operations of src/astra/commands/database.hpp, on strings of bytes. In the mode kRedis
-- `Get` does not ask whether the key has expired: that check stands behind the return of the other
-- mode. `MGet` is the sequential loop; for more than a hundred keys the source runs the same reads
-- in parallel.
pub mod Laws
use astra_db.Prelude.{
  ℕ, ◌+◌, ◌-◌, Bool, true, Option, none, some, List, [], ◌∷◌, ◌++◌, map, length, take, drop, Eq,
  Bytes, bytes_eq, if◌then◌else◌, ltb, ◌||◌,
}
use astra_db.Prelude.Int.{ℤ, pos, negsuc, pos_part, is_neg, ◌+ℤ◌, ◌-ℤ◌, ltb_ℤ, leb_ℤ}
use astra_db.Container.DashMap
use astra_db.Storage.Metadata.{KeyType}
use astra_db.Storage.Manager
use astra_db.Commands.Database.{Tables, Database, register}

-- `s.resize(n, '\0')`
abbrev pub zeros : ℕ → Bytes
zeros ℕ.zero = []
zeros (ℕ.suc n) = 0 ∷ zeros n

abbrev pub resize : ℕ → Bytes → Bytes
resize n s = take n s ++ zeros (n - length s)

-- `std::copy(value.begin(), value.end(), str.begin() + offset)`
abbrev pub copy_at : ℕ → Bytes → Bytes → Bytes
copy_at offset value str = take offset str ++ (value ++ drop (offset + length value) str)

-- `str.substr(start, count)`
abbrev pub substr : ℕ → ℕ → Bytes → Bytes
substr start count str = take count (drop start str)

module _ {S : Type 0} ⦃e : Eq S⦄ (T : Tables S) where
  unfoldable pub set : S → S → Database T → Bool × Database T
  set key value db =
      let key_existed = DashMap.get T.strings db.strings_ key in
      let db' : Database T = record db {
        strings_ = (DashMap.insert T.strings key value db.strings_).0;
      } in
      (
        true,
        elim key_existed [
          | none ↦ register T key KeyType.string db'
          | some _ ↦ record db' {
            metadata_manager_ = Manager.increment_key_version T.metadata key db'.metadata_manager_;
          }
        ],
      )

  unfoldable pub get : Database T → S → Option S
  get db key = DashMap.get T.strings db.strings_ key

  unfoldable pub m_get : Database T → List S → List (Option S)
  m_get db keys = map (get db) keys

module _ (T : Tables Bytes) where
  unfoldable pub get_range : Database T → Bytes → ℤ → ℤ → Bytes
  get_range db key start end = elim (get T db key) [
    | none ↦ []
    | some str ↦
        let len = pos (length str) in
        let start' = if is_neg start then len +ℤ start else start in
        let end' = if is_neg end then len +ℤ end else end in
        let first = if is_neg start' then pos 0 else start' in
        let last = if leb_ℤ len end' then len -ℤ pos 1 else end' in
        if ltb_ℤ last first || leb_ℤ len first
        then []
        else substr (pos_part first) (pos_part (last -ℤ first +ℤ pos 1)) str
  ]

  unfoldable pub set_range : Bytes → ℤ → Bytes → Database T → ℕ × Database T
  set_range key offset value db =
      let str : Bytes = elim (get T db key) [ none ↦ [] | some existing ↦ existing ] in
      let new_len = pos_part offset + length value in
      let grown = if ltb (length str) new_len then resize new_len str else str in
      let written = copy_at (pos_part offset) value grown in
      if is_neg offset then (length str, db) else (length written, (set T key written db).1)

-- ===== src/Commands/Database/Strings/Laws.antt =====
-- What a client of the strings of src/astra/commands/database.hpp relies on.
use astra_db.Prelude.{
  ℕ, zero, suc, ◌+◌, ◌-◌, ◌≤◌, ◌≡◌, ◌%◌, ◌^◌, ◌&&◌, not, is_some, refl, sym, ap, ◌∙◌, false, none,
  some, [], ◌∷◌, ◌++◌, length, take, drop, Eq, ◌==◌, Bytes, bytes_eq, if◌then◌else◌, ltb, arith,
  length-append, length-take, length-drop, take-append, drop-append, ==_refl, Option-cases, inl,
  inr,
}
use Prim.Native.Nat.{max}
use astra_db.Prelude.Int.{ℤ, pos, pos_part, sub_ℕ, ◌+ℤ◌}
use astra_db.Container.DashMap.Laws.{get-insert}
use astra_db.Storage.Manager
use astra_db.Storage.Manager.Reads.{change, registered}
use astra_db.Storage.Metadata.{KeyType}
use astra_db.Commands.Database.{Tables, Database, metadata_of, get_key_version, exists}
use astra_db.Commands.Database.Keys.{find-register, find-bump, exists-absent}
use astra_db.Commands.Database.Strings.{
  zeros, resize, copy_at, substr, set, get, get_range, set_range,
}

length-zeros : (n : ℕ) → length (zeros n) ≡ n
length-zeros zero = refl
length-zeros (suc n) = ap suc (length-zeros n)

length-resize : (n : ℕ) (s : Bytes) → length s ≤ n → length (resize n s) ≡ n
length-resize n s h = omega (
  arith,
  length-append (take n s) (zeros (n - length s)),
  length-take n s,
  length-zeros (n - length s),
)

length-copy_at : (n : ℕ) (v s : Bytes) → n + length v ≤ length s → length (copy_at n v s) ≡ length s
length-copy_at n v s h =
    let rest = drop (n + length v) s in
    let whole : length (take n s ++ (v ++ rest)) ≡ length s = omega (
      arith,
      length-append (take n s) (v ++ rest),
      length-append v rest,
      length-take n s,
      length-drop (n + length v) s,
    ) in
    whole

substr-copy_at : (n : ℕ) (v s : Bytes) → n ≤ length s → substr n (length v) (copy_at n v s) ≡ v
substr-copy_at n v s h =
    let rest = v ++ drop (n + length v) s in
    let size : length (take n s) ≡ n = omega (arith, length-take n s) in
    let dropped : drop n (take n s ++ rest) ≡ rest =
      ap (λ k. drop k (take n s ++ rest)) (sym size) ∙ drop-append (take n s) rest in
    ap (take (length v)) dropped ∙ take-append v (drop (n + length v) s)

-- The string that `SetRange` writes into, and that it writes.
abbrev pub old_string : {T : Tables Bytes} → Database T → Bytes → Bytes
old_string {T} db key = elim (get T db key) [ none ↦ [] | some str ↦ str ]

abbrev grown : ℕ → Bytes → Bytes
grown n s = if ltb (length s) n then resize n s else s

length-grown : (n : ℕ) (s : Bytes) → length (grown n s) ≡ max n (length s)
length-grown n s = ground (arith, length-resize n s)

range_size : (a n : ℕ) → pos_part (sub_ℕ (a + n) a +ℤ pos 1) ≡ suc n
range_size a n = ground arith

module _ (T : Tables Bytes) where
  pub get-set :
      (key value : Bytes) (db : Database T) (j : Bytes)
      → get T (set T key value db).1 j ≡ (if key == j then some value else get T db j)
  unfolding get set
  get-set key value db j = ground (arith, get-insert T.strings key value db.strings_ j)

  -- A range inside of the string.
  get_range_inside :
      (db : Database T) (key str : Bytes) (a n : ℕ)
      → get T db key ≡ some str
      → a + suc n ≤ length str
      → get_range T db key (pos a) (pos (a + n)) ≡ substr a (suc n) str
  unfolding get_range
  get_range_inside db key str a n h inside = rw (h, get_range) (ground (arith, range_size a n))

  -- `GetRange` finds what `SetRange` has written, at an offset from the start and with a byte at
  -- least, also behind the old end. `SetRange` returns the length, which has grown as far as needed,
  -- and leaves the strings under the other keys as they were.
  pub get_range-set_range :
      (db : Database T) (key value : Bytes) (x : ℕ) (offset : ℕ)
      → (get_range T
            (set_range T key (pos offset) (x ∷ value) db).1
            key
            (pos offset)
            (pos (offset + length value))
          ≡ x ∷ value)
        × ((set_range T key (pos offset) (x ∷ value) db).0
            ≡ max (offset + length (x ∷ value)) (length (old_string db key)))
        × ((j : Bytes)
            → let after = (set_range T key (pos offset) (x ∷ value) db).1 in
              get T after j ≡ (if key == j then get T after key else get T db j))
  unfolding set_range
  get_range-set_range db key value x offset =
      let v = x ∷ value in
      let str = grown (offset + length v) (old_string db key) in
      let size = length-grown (offset + length v) (old_string db key) in
      let written = length-copy_at offset v str (omega (arith, size)) in
      let whole = copy_at offset v str in
      (
        get_range_inside (set T key whole db).1 key whole offset (length value)
              (get-set key whole db key ∙ rw (==_refl key) refl) (omega (arith, written, size))
            ∙ substr-copy_at offset v str (omega (arith, size)),
        written ∙ size,
        λ j. ground (arith, get-set key whole db j, get-set key whole db key, ==_refl key),
      )

module _ {S : Type 0} ⦃e : Eq S⦄ (T : Tables S) (key value : S) (db : Database T) where
  metadata-set-new :
      get T db key ≡ none
      → metadata_of T (set T key value db).1 key
        ≡ some (registered KeyType.string (metadata_of T db key))
  unfolding set get
  metadata-set-new absent =
      rw (absent, set) (find-register T key KeyType.string db key ∙ rw (==_refl key) refl)

  metadata-set-old :
      (old : S)
      → get T db key ≡ some old
      → metadata_of T (set T key value db).1 key
        ≡ change (metadata_of T db key) (λ x. record x { version = (x.version + 1) % 2 ^ 64 })
  unfolding set get
  metadata-set-old old found = rw (found, set) (find-bump T key db key ∙ rw (==_refl key) refl)

  -- A `Set` counts in the version that WATCH reads, but for a key that has a string and no metadata,
  -- as an expired key has once a read has dropped its metadata: this one stays without, and after
  -- the `Set` the key still does not exist.
  pub version-set :
      (now : ℤ)
      → let lost = is_some (get T db key) && not (is_some (metadata_of T db key)) in
        (get_key_version T (set T key value db).1 key
          ≡ (if lost then 0 else (get_key_version T db key + 1) % 2 ^ 64))
        × ((lost && (exists T now key (set T key value db).1).0) ≡ false)
  unfolding get_key_version Manager.get_key_version
  version-set now = elim (Option-cases (get T db key)) [
    | inl absent ↦ (ground (arith, metadata-set-new absent), rw absent refl)
    | inr (old, found) ↦ elim (Option-cases (metadata_of T db key)) [
      | inl unknown ↦
          let lost : metadata_of T (set T key value db).1 key ≡ none =
            metadata-set-old old found ∙ rw unknown refl in
          (
            ground (arith, lost),
            rw (ap (λ r. r.0) (exists-absent T now key (set T key value db).1 lost)) (ground arith),
          )
      | inr (d, known) ↦ (ground (arith, metadata-set-old old found), rw (found, known) refl)
    ]
  ]

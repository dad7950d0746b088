-- ===== src/Commands/Database/Hashes/Laws.antt =====
-- What a client of the hashes of src/astra/commands/database.hpp relies on.
use astra_db.Prelude.{
  ◌+◌, ◌%◌, ◌^◌, ◌≡◌, refl, ap, ◌∙◌, inl, inr, Bool, true, not, ◌&&◌, Option, none, some, is_some,
  Eq, ◌==◌, if◌then◌else◌, arith, ==_refl, Option-cases,
}
use astra_db.Prelude.Int.{ℤ}
use astra_db.Container.DashMap
use astra_db.Container.DashMap.{DashMap}
use astra_db.Container.DashMap.Laws.{get-insert}
use astra_db.Storage.Metadata.{KeyType}
use astra_db.Storage.Manager.Reads.{registered}
use astra_db.Commands.Database.{Tables, Database, metadata_of, register, exists, get_key_version}
use astra_db.Commands.Database.Keys.{
  find-register, exists_flag, fresh_flag, fresh-registered, get_key_version_lem,
}
use astra_db.Commands.Database.Hashes.{get_hash, put_hash, hash_or_new, h_set, h_get}

module _ {S : Type 0} ⦃e : Eq S⦄ (T : Tables S) where
  abbrev pub field_of : Option (DashMap T.fields) → S → Option S
  field_of none field = none
  field_of (some hash) field = DashMap.get T.fields hash field

  h_get_seen :
      (now : ℤ) (db : Database T) (k f : S)
      → (h_get T now k f db).0
        ≡ (if fresh_flag now (metadata_of T db k) then field_of (get_hash T db k) f else none)
  unfolding h_get exists
  h_get_seen now db k f = ground (arith, exists_flag T now k db)

  get-init : (f : S) → DashMap.get T.fields (DashMap.init T.fields) f ≡ none
  unfolding DashMap.get DashMap.init
  get-init f = T.fields.find-empty f

  module _ (key field value : S) (db : Database T) where
    insert_flag :
        (hash : DashMap T.fields)
        → (DashMap.insert T.fields field value hash).1
          ≡ not (is_some (DashMap.get T.fields hash field))
    unfolding DashMap.insert DashMap.get
    insert_flag hash = refl

    abbrev write : DashMap T.fields × Database T → Bool × Database T
    write (hash, db') =
        let (written, result) = DashMap.insert T.fields field value hash in
        (result, put_hash T key written db')

    h_set-absent :
        get_hash T db key ≡ none
        → let new = DashMap.init T.fields in
          let (written, result) = DashMap.insert T.fields field value new in
          h_set T key field value db
          ≡ (result, put_hash T key written (register T key KeyType.hash (put_hash T key new db)))
    unfolding h_set
    h_set-absent absent =
        let e : hash_or_new T key db ≡ (
          DashMap.init T.fields,
          register T key KeyType.hash (put_hash T key (DashMap.init T.fields) db),
        ) =
          rw (absent, hash_or_new) refl in
        ap write e

    h_set-found :
        (hash : DashMap T.fields)
        → get_hash T db key ≡ some hash
        → let (written, result) = DashMap.insert T.fields field value hash in
          h_set T key field value db ≡ (result, put_hash T key written db)
    unfolding h_set
    h_set-found hash found =
        let e : hash_or_new T key db ≡ (hash, db) = rw (found, hash_or_new) refl in ap write e

    get_hash-h_set :
        (j f : S)
        → field_of (get_hash T (h_set T key field value db).1 j) f
          ≡ (if (key == j) && (field == f) then some value else field_of (get_hash T db j) f)
    unfolding h_set
    get_hash-h_set j f =
        let new = DashMap.init T.fields in
        let created = (DashMap.insert T.hashes key new db.hashes_).0 in
        elim (Option-cases (get_hash T db key)) [
          | inl absent ↦
              ap (λ r. field_of (get_hash T r.1 j) f) (h_set-absent absent)
              ∙ ground (
                arith,
                e.beq_iff key j,
                get-insert T.hashes key (DashMap.insert T.fields field value new).0 created j,
                get-insert T.hashes key new db.hashes_ j,
                get-insert T.fields field value new f,
                get-init f,
              )
          | inr (hash, found) ↦
              ap (λ r. field_of (get_hash T r.1 j) f) (h_set-found hash found)
              ∙ ground (
                arith,
                e.beq_iff key j,
                get-insert T.hashes key (DashMap.insert T.fields field value hash).0 db.hashes_ j,
                get-insert T.fields field value hash f,
              )
        ]

    metadata-h_set :
        (j : S)
        → metadata_of T (h_set T key field value db).1 j ≡ (
            if (key == j) && not (is_some (get_hash T db key))
            then some (registered KeyType.hash (metadata_of T db j))
            else metadata_of T db j)
    unfolding h_set
    metadata-h_set j = elim (Option-cases (get_hash T db key)) [
      | inl absent ↦
          ap (λ r. metadata_of T r.1 j) (h_set-absent absent)
          ∙ ground (arith, find-register T key KeyType.hash db j)
      | inr (hash, found) ↦ ap (λ r. metadata_of T r.1 j) (h_set-found hash found) ∙ ground arith
    ]

    -- A field written is read back, and no other field is changed, under any key; if the hash was
    -- there, provided that its key is valid at the time of the read. The write returns whether the
    -- field is new. The version of the key, on which WATCH relies, changes with the write that
    -- creates the hash, and with no later one.
    pub h_get-h_set :
        (now : ℤ) (j f : S)
        → (is_some (get_hash T db key) ≡ true → (exists T now key db).0 ≡ true)
        → ((h_get T now j f (h_set T key field value db).1).0
            ≡ (if (key == j) && (field == f) then some value else (h_get T now j f db).0))
          × ((h_set T key field value db).0 ≡ not (is_some (field_of (get_hash T db key) field)))
          × (get_key_version T (h_set T key field value db).1 key ≡ (
              if is_some (get_hash T db key)
              then get_key_version T db key
              else (get_key_version T db key + 1) % 2 ^ 64))
    h_get-h_set now j f live = (
      ground (
        arith,
        e.beq_iff key j,
        h_get_seen now (h_set T key field value db).1 j f,
        h_get_seen now db j f,
        get_hash-h_set j f,
        metadata-h_set j,
        exists_flag T now key db,
        fresh-registered now KeyType.hash (metadata_of T db j),
      ),
      elim (Option-cases (get_hash T db key)) [
        | inl absent ↦
            ap (λ r. r.0) (h_set-absent absent)
            ∙ rw absent (insert_flag (DashMap.init T.fields) ∙ rw (get-init field) refl)
        | inr (hash, found) ↦ ap (λ r. r.0) (h_set-found hash found) ∙ rw found (insert_flag hash)
      ],
      rw (get_key_version_lem T (h_set T key field value db).1 key, get_key_version_lem T db key)
          (ground (arith, metadata-h_set key, ==_refl key)),
    )

-- ===== src/Storage/Metadata.antt =====
-- The struct `KeyMetadata` of src/astra/storage/key_metadata.hpp. The clock is an argument, `now`,
-- the value that `GetCurrentTimeMs` returns during the call. An `int64_t` is an integer; that
-- `seconds * 1000` does not overflow is the caller's part in the source as well.
use astra_db.Prelude.{
  ℕ, ◌+◌, ◌-◌, ◌%◌, ◌/◌, ◌^◌, min, Bool, false, ◌&&◌, Option, none, some, leb, if◌then◌else◌,
}
use astra_db.Prelude.Int.{ℤ, pos, pos_part, neg_part, ◌-ℤ◌, ltb_ℤ, leb_ℤ, scale, quotient, low_bits}

pub data KeyType : Type 0 where
  none_type string hash set zset list stream vector json : KeyType

pub record KeyMetadata : Type 0 where
  pub type : KeyType
  pub expire_time_ms : Option ℤ
  pub version : ℕ
  pub access_time_ms : ℕ
  pub lfu_counter : ℕ
  pub estimated_size : ℕ

-- `explicit KeyMetadata(KeyType t)`
abbrev pub of_type : KeyType → KeyMetadata
of_type t = record {
  type = t;
  expire_time_ms = none;
  version = 0;
  access_time_ms = 0;
  lfu_counter = 0;
  estimated_size = 0;
}

unfoldable pub is_expired : ℤ → KeyMetadata → Bool
is_expired now m = elim m.expire_time_ms [ none ↦ false | some t ↦ ltb_ℤ (pos 0) t && ltb_ℤ t now ]

unfoldable pub set_expire_ms : ℤ → KeyMetadata → KeyMetadata
set_expire_ms ms m =
    if leb_ℤ ms (pos 0)
    then record m { expire_time_ms = none }
    else record m { expire_time_ms = some ms }

unfoldable pub set_expire_seconds : ℤ → KeyMetadata → KeyMetadata
unfolding set_expire_ms
set_expire_seconds seconds m = set_expire_ms (scale 1000 seconds) m

unfoldable pub get_ttl_ms : ℤ → KeyMetadata → Option ℤ
get_ttl_ms now m = elim m.expire_time_ms [
  | none ↦ none
  | some t ↦ if leb_ℤ t (pos 0) then none else if leb_ℤ t now then none else some (t -ℤ now)
]

unfoldable pub get_ttl_seconds : ℤ → KeyMetadata → Option ℤ
unfolding get_ttl_ms
get_ttl_seconds now m = elim (get_ttl_ms now m) [ none ↦ none | some ms ↦ some (quotient ms 1000) ]

-- `static_cast<uint8_t>(lfu_counter + 1)` wraps before the minimum with 255 is taken.
unfoldable pub update_access : ℤ → KeyMetadata → KeyMetadata
update_access now m = record m {
  access_time_ms = low_bits now (2 ^ 24);
  lfu_counter = min ((m.lfu_counter + 1) % 256) 255;
}

unfoldable pub reset_lfu_counter : KeyMetadata → KeyMetadata
reset_lfu_counter m = record m { lfu_counter = m.lfu_counter / 2 }

unfoldable pub set_estimated_size : ℕ → KeyMetadata → KeyMetadata
set_estimated_size size m = record m { estimated_size = size }

unfoldable pub add_estimated_size : ℤ → KeyMetadata → KeyMetadata
add_estimated_size delta m =
    if ltb_ℤ (pos 0) delta
    then record m { estimated_size = (m.estimated_size + pos_part delta) % 2 ^ 32 }
    else if ltb_ℤ delta (pos 0) && leb (neg_part delta) m.estimated_size
    then record m { estimated_size = m.estimated_size - neg_part delta }
    else m

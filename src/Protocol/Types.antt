-- ===== src/Protocol/Types.antt =====
-- src/astra/protocol/resp/resp_types.hpp: values, command arguments and commands. A string is the
-- list of its bytes. A `double` stands as the type `F` with what the program calls of it.
use astra_db.Prelude.Int.{ℤ}
use astra_db.Prelude.{Bool, true, false, List, [], Bytes, bytes}

pub data RespType : Type 0 where
  simple_string error integer bulk_string array null_bulk_string null_array boolean double :
      RespType
  bignum verbatim_string map set push streamed_string attribute null : RespType

-- One constructor for each type with the payload that the program gives it; `bare` is a value of
-- one of the other types, which carries none. `bulk_string`, `simple_string` and `error` values
-- hold their string. A `flat_hash_map` payload is its entries in the order of iteration.
mutual
  pub data RespValue (F : Type 0) : Type 0 where
    simple_string error bulk_string : Bytes → RespValue F
    integer : ℤ → RespValue F
    array : Values F → RespValue F
    null_bulk_string null_array null : RespValue F
    boolean : Bool → RespValue F
    double : F → RespValue F
    map : Entries F → RespValue F
    bare : RespType → RespValue F

  pub data Values (F : Type 0) : Type 0 where
    nil : Values F
    cons : RespValue F → Values F → Values F

  pub data Entries (F : Type 0) : Type 0 where
    end : Entries F
    entry : Bytes → RespValue F → Entries F → Entries F

pub record CommandArg : Type 0 where
  pub type_ : RespType
  pub value_ : Bytes

pub record Command : Type 0 where
  pub name : Bytes
  pub args : List CommandArg

-- `explicit CommandArg(RespType type)`
unfoldable pub of_type : RespType → CommandArg
of_type RespType.integer = record { type_ = RespType.integer; value_ = bytes "0" }
of_type t = record { type_ = t; value_ = [] }

-- `explicit CommandArg(std::string str, RespType type = RespType::kBulkString)`
abbrev pub of_string : Bytes → CommandArg
of_string s = record { type_ = RespType.bulk_string; value_ = s }

unfoldable pub is_bulk_string : CommandArg → Bool
is_bulk_string a = elim a.type_ [ RespType.bulk_string ↦ true | _ ↦ false ]

unfoldable pub is_simple_string : CommandArg → Bool
is_simple_string a = elim a.type_ [ RespType.simple_string ↦ true | _ ↦ false ]

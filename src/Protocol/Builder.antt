-- ===== src/Protocol/Builder.antt =====
-- src/astra/protocol/resp/resp_builder.cpp. `Formats` stands for what the program calls to write
-- and read numbers: `absl::StrCat` and `std::to_string` of an integer, `absl::StrCat` and
-- `absl::SimpleAtod` of a double.
use astra_db.Prelude.{
  ℕ, ◌+◌, Bool, Option, List, [], ◌∷◌, ◌++◌, length, Bytes, bytes, if◌then◌else◌,
}
use astra_db.Prelude.Int.{ℤ, pos}
use astra_db.Protocol.Types.{
  RespValue, Values, Entries, simple_string, error, bulk_string, integer, array, null_bulk_string,
  null_array, null, boolean, double, map, bare, nil, cons, end, entry,
}

pub record Formats : Type 1 where
  pub F : Type 0
  pub of_integer : ℤ → Bytes
  pub of_double : F → Bytes
  pub to_double : Bytes → Option F

abbrev pub crlf : Bytes
crlf = 13 ∷ 10 ∷ []

module _ (fmt : Formats) where
  unfoldable pub build_simple_string : Bytes → Bytes
  build_simple_string str = b'+' ∷ (str ++ crlf)

  unfoldable pub build_error : Bytes → Bytes
  build_error msg = b'-' ∷ (msg ++ crlf)

  unfoldable pub build_integer : ℤ → Bytes
  build_integer num = b':' ∷ (fmt.of_integer num ++ crlf)

  unfoldable pub build_bulk_string : Bytes → Bytes
  build_bulk_string str = b'$' ∷ (fmt.of_integer (pos (length str)) ++ (crlf ++ (str ++ crlf)))

  abbrev pub build_null_bulk_string : Bytes
  build_null_bulk_string = bytes "$-1\r\n"

  abbrev pub build_null_array : Bytes
  build_null_array = bytes "*-1\r\n"

  abbrev pub build_null : Bytes
  build_null = bytes "_\r\n"

  unfoldable pub build_boolean : Bool → Bytes
  build_boolean b = b'#' ∷ ((if b then b't' else b'f') ∷ crlf)

  unfoldable pub build_double : fmt.F → Bytes
  build_double num = b',' ∷ (fmt.of_double num ++ crlf)

  -- The `BuildArray` of strings, in which a command is written.
  unfoldable pub build_bulk_strings : List Bytes → Bytes
  build_bulk_strings [] = []
  build_bulk_strings (s ∷ ss) = build_bulk_string s ++ build_bulk_strings ss

  unfoldable pub build_array : List Bytes → Bytes
  build_array arr = b'*' ∷ (fmt.of_integer (pos (length arr)) ++ (crlf ++ build_bulk_strings arr))

  abbrev pub count_values : Values fmt.F → ℕ
  count_values nil = 0
  count_values (cons v vs) = count_values vs + 1

  abbrev pub count_entries : Entries fmt.F → ℕ
  count_entries end = 0
  count_entries (entry k v es) = count_entries es + 1

  unfoldable mutual
    unfolding build_simple_string build_error build_integer build_bulk_string build_boolean
        build_double

    pub build : RespValue fmt.F → Bytes
    build (simple_string s) = build_simple_string s
    build (error s) = build_error s
    build (integer num) = build_integer num
    build (bulk_string s) = build_bulk_string s
    build (array vs) = b'*' ∷ (fmt.of_integer (pos (count_values vs)) ++ (crlf ++ build_values vs))
    build null_bulk_string = build_null_bulk_string
    build null_array = build_null_array
    build (boolean b) = build_boolean b
    build (double d) = build_double d
    build null = build_null
    build (map es) = b'%' ∷ (fmt.of_integer (pos (count_entries es)) ++ (crlf ++ build_entries es))
    build (bare t) = build_null_bulk_string

    pub build_values : Values fmt.F → Bytes
    build_values nil = []
    build_values (cons v vs) = build v ++ build_values vs

    pub build_entries : Entries fmt.F → Bytes
    build_entries end = []
    build_entries (entry k v es) = build_bulk_string k ++ (build v ++ build_entries es)

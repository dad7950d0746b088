-- ===== src/Protocol/Parser.antt =====
-- src/astra/protocol/resp/resp_parser.cpp. A parser takes the bytes that are there and returns its
-- value with the bytes that are left, or nothing (`std::nullopt`), as when the input is not
-- complete. `find` is `FindCRLF` as the target compiles it; `fmt` the library's number formats.
-- `Parse` calls itself for the elements of an array: it takes fuel, one unit a nesting level, and
-- each level has read a type byte, so that the number of bytes is enough. The counter of
-- `ParseArray` is an `int`, and its `reserve` of the announced count is left out.
pub mod Request
pub mod RoundTrip
pub mod Shrinks
pub mod Fuel
pub mod Progress
pub mod Lines
pub mod Replies
use astra_db.Prelude.{
  ℕ, zero, suc, ◌+◌, ◌-◌, ◌*◌, ◌/◌, ◌^◌, Bool, true, false, ◌&&◌, Option, none, some, ◌>>=◌, List,
  [], ◌∷◌, length, get_elem?, take, drop, is_nil, Bytes, bytes, bytes_eq, ◌==◌, ltb, leb, nat_eqb,
  if◌then◌else◌,
}
use astra_db.Prelude.Int.{ℤ, pos, negsuc, sub_ℕ, is_neg, pos_part}
use astra_db.Protocol.Builder.{Formats}
use astra_db.Protocol.FindCrlf.{scalar}
use astra_db.Protocol.Types
use astra_db.Protocol.Types.{
  RespType, RespValue, Values, simple_string, error, bulk_string, integer, array, null_bulk_string,
  null_array, null, boolean, double, nil, cons,
}

abbrev pub max_int64 : ℕ
max_int64 = 2 ^ 63 - 1

abbrev pub max_int32 : ℕ
max_int32 = 2 ^ 31 - 1

unfoldable pub is_digit : ℕ → Bool
is_digit c = leb b'0' c && leb c b'9'

abbrev pub signed : Bool → ℕ → ℤ
signed negative value = if negative then sub_ℕ 0 value else pos value

-- The loop of `ParseIntLineFast`: a value above the range is refused before or after it is formed
-- (`value < 0`, as it wraps).
unfoldable pub int_line_loop : Bool → ℕ → Bytes → Option (ℤ × Bytes)
unfolding is_digit
int_line_loop negative value [] = none
int_line_loop negative value (c ∷ rest) =
    let value' = value * 10 + (c - b'0') in
    let more = int_line_loop negative value' rest in
    let stop : Option (ℤ × Bytes) = elim rest [
      | [] ↦ none
      | d ∷ after ↦ if nat_eqb d 10 then some (signed negative value, after) else none
    ] in
    if nat_eqb c 13
    then stop
    else if is_digit c
    then (if ltb (max_int64 / 10) value then none else if ltb max_int64 value' then none else more)
    else none

unfoldable pub int_line_digits : Bool → Bytes → Option (ℤ × Bytes)
unfolding int_line_loop
int_line_digits negative [] = none
int_line_digits negative (c ∷ rest) =
    if is_digit c then int_line_loop negative 0 (c ∷ rest) else none

unfoldable pub parse_int_line_fast : Bool → Bytes → Option (ℤ × Bytes)
unfolding int_line_digits
parse_int_line_fast allow_negative [] = none
parse_int_line_fast allow_negative (c ∷ rest) =
    if nat_eqb c b'-'
    then (if allow_negative then int_line_digits true rest else none)
    else int_line_digits false (c ∷ rest)

-- `std::from_chars`: the longest run of digits, with a sign in front; what follows is not looked
-- at. It fails if there is no digit or the value is out of range.
unfoldable pub from_digits : ℕ → Bytes → ℕ
unfolding is_digit
from_digits value [] = value
from_digits value (c ∷ rest) =
    let more = from_digits (value * 10 + (c - b'0')) rest in if is_digit c then more else value

unfoldable pub from_chars : Bool → Bytes → Option ℤ
unfolding from_digits
from_chars negative [] = none
from_chars negative (c ∷ rest) =
    let value = from_digits 0 (c ∷ rest) in
    if is_digit c
    then (if ltb (if negative then max_int64 + 1 else max_int64) value
        then none
        else some (signed negative value))
    else none

unfoldable pub parse_int : Bytes → Option ℤ
unfolding from_chars
parse_int [] = none
parse_int (c ∷ rest) = if nat_eqb c b'-' then from_chars true rest else from_chars false (c ∷ rest)

module _ (fmt : Formats) (find : Bytes → Option ℕ) where
  unfoldable pub read_until_crlf : Bytes → Option (Bytes × Bytes)
  unfolding scalar
  read_until_crlf text = elim (if leb 32 (length text) then find text else scalar 0 text) [
    | none ↦ none
    | some p ↦ some (take p text, drop (p + 2) text)
  ]

  abbrev Parser : Type 0
  Parser = Bytes → Option (RespValue fmt.F × Bytes)

  unfoldable pub parse_simple_string : Parser
  unfolding read_until_crlf
  parse_simple_string text = do (line, rest) ← read_until_crlf text; some (simple_string line, rest)

  unfoldable pub parse_error : Parser
  unfolding read_until_crlf
  parse_error text = do (line, rest) ← read_until_crlf text; some (error line, rest)

  unfoldable pub parse_integer : Parser
  unfolding read_until_crlf parse_int
  parse_integer text = do
    (line, rest) ← read_until_crlf text
    num ← parse_int line
    some (integer num, rest)

  -- The two bytes behind the payload are skipped, whatever they are.
  unfoldable pub bulk_payload : ℤ → Parser
  bulk_payload (pos len) data_ =
      if ltb (length data_) (len + 2)
      then none
      else some (bulk_string (take len data_), drop (len + 2) data_)
  bulk_payload (negsuc zero) data_ = some (null_bulk_string, data_)
  bulk_payload (negsuc (suc n)) data_ = none

  unfoldable pub parse_bulk_string : Parser
  unfolding read_until_crlf parse_int bulk_payload
  parse_bulk_string text = do
    (line, rest) ← read_until_crlf text
    len ← parse_int line
    bulk_payload len rest

  -- The loop of `ParseArray`, with `Parse` for its elements.
  unfoldable pub parse_elements : Parser → ℕ → Bytes → Option (Values fmt.F × Bytes)
  parse_elements parse zero text = some (nil, text)
  parse_elements parse (suc n) text = do
    (value, rest) ← parse text
    (values, rest') ← parse_elements parse n rest
    some (cons value values, rest')

  unfoldable pub array_body : Parser → ℤ → Parser
  unfolding parse_elements
  array_body parse (pos count) text = do
    (values, rest) ← parse_elements parse count text
    some (array values, rest)
  array_body parse (negsuc zero) text = some (null_array, text)
  array_body parse (negsuc (suc n)) text = none

  unfoldable pub parse_array : Parser → Parser
  unfolding read_until_crlf parse_int array_body
  parse_array parse text = do
    (line, rest) ← read_until_crlf text
    count ← parse_int line
    array_body parse count rest

  unfoldable pub parse_null : Parser
  unfolding read_until_crlf
  parse_null text = do
    (line, rest) ← read_until_crlf text
    (if is_nil line then some (null, rest) else none)

  unfoldable pub parse_boolean : Parser
  unfolding read_until_crlf
  parse_boolean text = do
    (line, rest) ← read_until_crlf text
    (if line == bytes "t"
        then some (boolean true, rest)
        else if line == bytes "f"
        then some (boolean false, rest)
        else none)

  unfoldable pub parse_double : Parser
  unfolding read_until_crlf
  parse_double text = do
    (line, rest) ← read_until_crlf text
    num ← fmt.to_double line
    some (double num, rest)

  -- The `switch` of `Parse` on the type byte.
  unfoldable pub by_type : Parser → ℕ → Parser
  unfolding parse_simple_string parse_error parse_integer parse_bulk_string parse_array parse_null
      parse_boolean parse_double
  by_type parse type text =
      if nat_eqb type b'+'
      then parse_simple_string text
      else if nat_eqb type b'-'
      then parse_error text
      else if nat_eqb type b':'
      then parse_integer text
      else if nat_eqb type b'$'
      then parse_bulk_string text
      else if nat_eqb type b'*'
      then parse_array parse text
      else if nat_eqb type b'_'
      then parse_null text
      else if nat_eqb type b'#'
      then parse_boolean text
      else if nat_eqb type b','
      then parse_double text
      else none

  unfoldable pub parse : ℕ → Parser
  unfolding by_type
  parse zero text = none
  parse (suc fuel) [] = none
  parse (suc fuel) (type ∷ rest) = by_type (parse fuel) type rest

  unfoldable pub has_complete_value : Bytes → Bool
  unfolding parse
  has_complete_value text = elim (parse (length text) text) [ none ↦ false | some _ ↦ true ]

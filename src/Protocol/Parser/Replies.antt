-- ===== src/Protocol/Parser/Replies.antt =====
-- Values that are written by `RespBuilder::Build` (src/astra/protocol/resp/resp_builder.cpp) and
-- read by `RespParser::Parse` (src/astra/protocol/resp/resp_parser.cpp), with the portable search
-- for line ends.
use mathlib.Core.List.{append_assoc}
use astra_db.Prelude.{
  ℕ, zero, suc, Bool, true, false, ◌+◌, ◌≤◌, ◌≡◌, refl, Option, some, [], ◌∷◌, ◌++◌, length,
  take-append, length-append, Bytes, bytes, bytes_eq, if◌then◌else◌, arith,
}
use astra_db.Prelude.Int.{ℤ, pos}
use astra_db.Protocol.Builder.{
  Formats, crlf, build, build_values, build_simple_string, build_error, build_integer,
  build_bulk_string, build_boolean, build_double, count_values,
}
use astra_db.Protocol.FindCrlf.{scalar}
use astra_db.Protocol.Parser.{
  parse, by_type, parse_simple_string, parse_error, parse_integer, bulk_payload, parse_bulk_string,
  parse_elements, array_body, parse_array, parse_null, parse_boolean, parse_double, max_int32,
  max_int64, read_until_crlf,
}
use astra_db.Protocol.Parser.Lines.{
  IsLine, IsNumeral, IsInt64, IsNumeral-IsLine, read_until_crlf_lem, parse_int_lem,
}
use astra_db.Protocol.Parser.RoundTrip.{drop_two}
use astra_db.Protocol.Types.{
  RespValue, Values, simple_string, error, bulk_string, integer, array, null_bulk_string,
  null_array, null, boolean, double, map, bare, nil, cons,
}

module _ (fmt : Formats) (numerals : (z : ℤ) → IsNumeral z (fmt.of_integer z))
    (lines : (x : fmt.F) → IsLine (fmt.of_double x)) (rounded : fmt.F → fmt.F)
    (reads : (x : fmt.F) → fmt.to_double (fmt.of_double x) ≡ some (rounded x)) where
  -- The values that have a form on the wire that `Parse` reads: no '\r' in a simple string or an
  -- error, sizes and integers in range, no map and none of the types without a payload.
  abbrev mutual
    pub IsReply : RespValue fmt.F → Type 0
    IsReply (simple_string s) = IsLine s
    IsReply (error s) = IsLine s
    IsReply (bulk_string s) = length s ≤ max_int64
    IsReply (integer n) = IsInt64 n
    IsReply (array vs) = (count_values fmt vs ≤ max_int32) × AllReplies vs
    IsReply null_bulk_string = Unit {0}
    IsReply null_array = Unit {0}
    IsReply null = Unit {0}
    IsReply (boolean b) = Unit {0}
    IsReply (double x) = Unit {0}
    IsReply (map es) = ⊥
    IsReply (bare t) = ⊥

    pub AllReplies : Values fmt.F → Type 0
    AllReplies nil = Unit {0}
    AllReplies (cons v vs) = IsReply v × AllReplies vs

  -- The value with every double rounded to the significant digits that are written of it.
  abbrev mutual
    pub read_back : RespValue fmt.F → RespValue fmt.F
    read_back (array vs) = array (all_read_back vs)
    read_back (double x) = double (rounded x)
    read_back v = v

    pub all_read_back : Values fmt.F → Values fmt.F
    all_read_back nil = nil
    all_read_back (cons v vs) = cons (read_back v) (all_read_back vs)

  line_lem :
      (l rest : Bytes)
      → IsLine l
      → read_until_crlf fmt (scalar 0) ((l ++ crlf) ++ rest) ≡ some (l, rest)
  line_lem l rest h = rw (append_assoc l crlf rest) (read_until_crlf_lem fmt l rest h)

  number_lem :
      (z : ℤ) (rest : Bytes)
      → read_until_crlf fmt (scalar 0) (fmt.of_integer z ++ 13 ∷ 10 ∷ rest)
        ≡ some (fmt.of_integer z, rest)
  number_lem z rest =
      read_until_crlf_lem fmt (fmt.of_integer z) rest
        (IsNumeral-IsLine z (fmt.of_integer z) (numerals z))

  simple_lem :
      (s rest : Bytes)
      → IsLine s
      → parse_simple_string fmt (scalar 0) ((s ++ crlf) ++ rest) ≡ some (simple_string s, rest)
  unfolding parse_simple_string
  simple_lem s rest h = rw (line_lem s rest h) refl

  error_lem :
      (s rest : Bytes)
      → IsLine s
      → parse_error fmt (scalar 0) ((s ++ crlf) ++ rest) ≡ some (error s, rest)
  unfolding parse_error
  error_lem s rest h = rw (line_lem s rest h) refl

  integer_lem :
      (z : ℤ) (rest : Bytes)
      → IsInt64 z
      → parse_integer fmt (scalar 0) ((fmt.of_integer z ++ crlf) ++ rest) ≡ some (integer z, rest)
  unfolding parse_integer
  integer_lem z rest b =
      rw (append_assoc (fmt.of_integer z) crlf rest)
        (rw (number_lem z rest, parse_int_lem z (fmt.of_integer z) (numerals z) b) refl)

  double_lem :
      (x : fmt.F) (rest : Bytes)
      → parse_double fmt (scalar 0) ((fmt.of_double x ++ crlf) ++ rest)
        ≡ some (double (rounded x), rest)
  unfolding parse_double
  double_lem x rest = rw (line_lem (fmt.of_double x) rest (lines x), reads x) refl

  payload_lem :
      (s rest : Bytes)
      → bulk_payload fmt (scalar 0) (pos (length s)) (s ++ 13 ∷ 10 ∷ rest)
        ≡ some (bulk_string s, rest)
  unfolding bulk_payload
  payload_lem s rest = ground (
    arith,
    length-append s (13 ∷ 10 ∷ rest),
    take-append s (13 ∷ 10 ∷ rest),
    drop_two s rest 13 10,
  )

  bulk_lem :
      (s rest : Bytes)
      → length s ≤ max_int64
      → parse_bulk_string fmt
          (scalar 0)
          ((fmt.of_integer (pos (length s)) ++ (crlf ++ (s ++ crlf))) ++ rest)
        ≡ some (bulk_string s, rest)
  unfolding parse_bulk_string
  bulk_lem s rest b =
      let z = pos (length s) in
      rw (append_assoc (fmt.of_integer z) (crlf ++ (s ++ crlf)) rest, append_assoc s crlf rest)
        (rw (number_lem z (s ++ 13 ∷ 10 ∷ rest), parse_int_lem z (fmt.of_integer z) (numerals z) b)
          (payload_lem s rest))

  array_lem :
      (p : Bytes → Option (RespValue fmt.F × Bytes)) (vs vs' : Values fmt.F) (rest : Bytes)
      → count_values fmt vs ≤ max_int32
      → parse_elements fmt (scalar 0) p (count_values fmt vs) (build_values fmt vs ++ rest)
        ≡ some (vs', rest)
      → parse_array fmt
          (scalar 0)
          p
          ((fmt.of_integer (pos (count_values fmt vs)) ++ (crlf ++ build_values fmt vs)) ++ rest)
        ≡ some (array vs', rest)
  unfolding parse_array array_body
  array_lem p vs vs' rest few h =
      let z = pos (count_values fmt vs) in
      rw (append_assoc (fmt.of_integer z) (crlf ++ build_values fmt vs) rest) (
        rw
          (
            number_lem z (build_values fmt vs ++ rest),
            parse_int_lem z (fmt.of_integer z) (numerals z) (omega (arith, few)),
            h,
          )
          refl)

  absent_lem :
      (rest : Bytes)
      → read_until_crlf fmt (scalar 0) (bytes "-1\r\n" ++ rest) ≡ some (bytes "-1", rest)
  absent_lem rest = read_until_crlf_lem fmt (bytes "-1") rest (refl, (refl, tt))

  null_bulk_lem :
      (rest : Bytes)
      → parse_bulk_string fmt (scalar 0) (bytes "-1\r\n" ++ rest) ≡ some (null_bulk_string, rest)
  unfolding parse_bulk_string
  null_bulk_lem rest = rw (absent_lem rest) refl

  null_array_lem :
      (p : Bytes → Option (RespValue fmt.F × Bytes)) (rest : Bytes)
      → parse_array fmt (scalar 0) p (bytes "-1\r\n" ++ rest) ≡ some (null_array, rest)
  unfolding parse_array array_body
  null_array_lem p rest = rw (absent_lem rest) refl

  null_lem : (rest : Bytes) → parse_null fmt (scalar 0) (bytes "\r\n" ++ rest) ≡ some (null, rest)
  unfolding parse_null
  null_lem rest = rw (read_until_crlf_lem fmt [] rest tt) refl

  boolean_lem :
      (b : Bool) (rest : Bytes)
      → parse_boolean fmt (scalar 0) ((if b then b't' else b'f') ∷ 13 ∷ 10 ∷ rest)
        ≡ some (boolean b, rest)
  unfolding parse_boolean
  boolean_lem true rest = rw (read_until_crlf_lem fmt (bytes "t") rest (refl, tt)) refl
  boolean_lem false rest = rw (read_until_crlf_lem fmt (bytes "f") rest (refl, tt)) refl

  mutual
    unfolding parse by_type parse_null parse_boolean parse_bulk_string bulk_payload parse_array
        array_body parse_elements build build_simple_string build_error build_integer
        build_bulk_string build_boolean build_double

    value_lem :
        (v : RespValue fmt.F) (fuel : ℕ) (rest : Bytes)
        → IsReply v
        → length (build fmt v ++ rest) ≤ fuel
        → parse fmt (scalar 0) fuel (build fmt v ++ rest) ≡ some (read_back v, rest)
    value_lem (simple_string s) (suc fuel) rest h b = simple_lem s rest h
    value_lem (error s) (suc fuel) rest h b = error_lem s rest h
    value_lem (integer z) (suc fuel) rest h b = integer_lem z rest h
    value_lem (bulk_string s) (suc fuel) rest h b = bulk_lem s rest h
    value_lem (array vs) (suc fuel) rest h b =
        let head = fmt.of_integer (pos (count_values fmt vs)) in
        let whole = length-append (head ++ (crlf ++ build_values fmt vs)) rest in
        let inner = length-append head (crlf ++ build_values fmt vs) in
        let tail = length-append (build_values fmt vs) rest in
        array_lem (parse fmt (scalar 0) fuel) vs (all_read_back vs) rest h.0
          (values_lem vs fuel rest h.1 (omega (arith, b, whole, inner, tail)))
    value_lem null_bulk_string (suc fuel) rest h b = null_bulk_lem rest
    value_lem null_array (suc fuel) rest h b = null_array_lem (parse fmt (scalar 0) fuel) rest
    value_lem null (suc fuel) rest h b = null_lem rest
    value_lem (boolean t) (suc fuel) rest h b = boolean_lem t rest
    value_lem (double x) (suc fuel) rest h b = double_lem x rest
    value_lem (map es) fuel rest h b = absurd h
    value_lem (bare t) fuel rest h b = absurd h
    value_lem (simple_string s) zero rest h b = absurd (omega arith)
    value_lem (error s) zero rest h b = absurd (omega arith)
    value_lem (integer z) zero rest h b = absurd (omega arith)
    value_lem (bulk_string s) zero rest h b = absurd (omega arith)
    value_lem (array vs) zero rest h b = absurd (omega arith)
    value_lem null_bulk_string zero rest h b = absurd (omega arith)
    value_lem null_array zero rest h b = absurd (omega arith)
    value_lem null zero rest h b = absurd (omega arith)
    value_lem (boolean t) zero rest h b = absurd (omega arith)
    value_lem (double x) zero rest h b = absurd (omega arith)

    values_lem :
        (vs : Values fmt.F) (fuel : ℕ) (rest : Bytes)
        → AllReplies vs
        → length (build_values fmt vs ++ rest) ≤ fuel
        → parse_elements fmt
            (scalar 0)
            (parse fmt (scalar 0) fuel)
            (count_values fmt vs)
            (build_values fmt vs ++ rest)
          ≡ some (all_read_back vs, rest)
    values_lem nil fuel rest h b = refl
    values_lem (cons v vs) fuel rest h b =
        let more = build_values fmt vs ++ rest in
        let shape = append_assoc (build fmt v) (build_values fmt vs) rest in
        let one : count_values fmt vs + 1 ≡ suc (count_values fmt vs) = omega arith in
        let size : length (build fmt v ++ more) ≤ fuel = rw (← shape) b in
        let first = value_lem v fuel more h.0 size in
        let later =
          values_lem vs fuel rest h.1 (omega (arith, size, length-append (build fmt v) more)) in
        rw (one, shape) (rw (first, later, parse_elements) refl)

  -- With the portable search for line ends, whatever bytes follow, and fuel for every byte: a value
  -- that is written by `Build`, arrays nested in any way included, is read back by `Parse`, with the
  -- bytes that follow untouched and its doubles rounded. It has no '\r' in a simple string or an error
  -- and no map, and its sizes and integers are in range. (Integers are written as decimal numerals,
  -- doubles without '\r', and what is written of a double reads as the double `rounded` to its six
  -- significant digits.)
  pub reply_round_trip :
      (v : RespValue fmt.F) (fuel : ℕ) (rest : Bytes)
      → IsReply v
      → length (build fmt v ++ rest) ≤ fuel
      → parse fmt (scalar 0) fuel (build fmt v ++ rest) ≡ some (read_back v, rest)
  reply_round_trip v fuel rest h enough = value_lem v fuel rest h enough

-- ===== src/Tests/Protocol.antt =====
-- Runs of the RESP parser and of the search for line ends, with decimal numerals written out.
pub mod Decimal
use Decimal.{decimal, decimal-IsDecimal}
use astra_db.Prelude.{
  ℕ, zero, suc, ◌+◌, ◌*◌, ◌≤◌, ◌≡◌, refl, Bool, true, false, Option, none, some, List, [], ◌∷◌,
  ◌++◌, map, length, get_elem?, Bytes, bytes, bytes_eq, ◌==◌, if◌then◌else◌, arith,
}
use astra_db.Prelude.Int.{ℤ, pos, negsuc}
use astra_db.Protocol.Types
use astra_db.Protocol.Types.{
  RespValue, Values, simple_string, integer, array, null, double, nil, cons,
}
use astra_db.Protocol.Parser.{parse}
use astra_db.Protocol.Parser.Lines.{IsLine, IsNumeral}
use astra_db.Protocol.Parser.Replies.{IsReply, read_back, reply_round_trip}
use astra_db.Protocol.Builder.{Formats, build_array, build}
use astra_db.Protocol.FindCrlf.{find_crlf, scalar}
use astra_db.Protocol.FindCrlf.Blind.{blind_tail}
use astra_db.Protocol.Parser.Request.{parse_command_from_array}
use astra_db.Protocol.Parser.RoundTrip.{written, request_round_trip}

-- A half, a third, and what six significant digits make of the third.
pub data Double : Type 0 where
  half third rounded_third : Double

abbrev digits : Double → Bytes
digits half = bytes "0.5"
digits third = bytes "0.333333"
digits rounded_third = bytes "0.333333"

abbrev pub formats : Formats
formats = record {
  F = Double;
  of_integer = λ n. elim n [ pos k ↦ decimal k | negsuc k ↦ b'-' ∷ decimal (suc k) ];
  of_double = digits;
  to_double = λ t.
      if t == bytes "0.5"
      then some half
      else if t == bytes "0.333333"
      then some rounded_third
      else none;
}

request_round_trip_example :
    parse_command_from_array formats find_crlf
      (build_array formats (bytes "SET" ∷ bytes "k" ∷ bytes "" ∷ []) ++ bytes "*1")
    ≡ some (
      record { name = bytes "SET"; args = map Types.of_string (bytes "k" ∷ bytes "" ∷ []) },
      bytes "*1",
    )
request_round_trip_example =
    request_round_trip formats find_crlf decimal-IsDecimal (bytes "SET") (bytes "k" ∷ bytes "" ∷ [])
      (bytes "*1") (omega arith, (omega arith, (omega arith, tt))) (omega arith)

-- 30 letters and a line end: a reply of 32 bytes.
abbrev letters : ℕ → Bytes
letters zero = bytes "\r\n"
letters (suc n) = b'a' ∷ letters n

abbrev reply : Bytes
reply = letters 30

late_cr : (n i : ℕ) → get_elem? (letters n) i ≡ some 13 → n ≤ i
late_cr zero i h = omega arith
late_cr (suc n) zero h = ground arith
late_cr (suc n) (suc i) h = omega (arith, late_cr n i h)

late : (i : ℕ) → get_elem? reply i ≡ some 13 → 16 * 1 ≤ i
late i h = omega (arith, late_cr 30 i h)

blind_tail_example : find_crlf reply ≡ none
blind_tail_example = blind_tail reply 1 refl late

found_by_scalar : scalar 0 reply ≡ some 30
unfolding scalar
found_by_scalar = refl

numerals : (z : ℤ) → IsNumeral z (formats.of_integer z)
numerals (pos n) = decimal-IsDecimal n
numerals (negsuc n) = (refl, decimal-IsDecimal (suc n))

are_lines : (x : Double) → IsLine (formats.of_double x)
are_lines half = (refl, (refl, (refl, tt)))
are_lines third = (refl, (refl, (refl, (refl, (refl, (refl, (refl, (refl, tt))))))))
are_lines rounded_third = (refl, (refl, (refl, (refl, (refl, (refl, (refl, (refl, tt))))))))

abbrev six_digits : Double → Double
six_digits half = half
six_digits third = rounded_third
six_digits rounded_third = rounded_third

read_rounded : (x : Double) → formats.to_double (formats.of_double x) ≡ some (six_digits x)
read_rounded half = refl
read_rounded third = refl
read_rounded rounded_third = refl

-- ["OK", [-5, null], 1/3]
abbrev nested : RespValue Double
nested = array (
    cons (simple_string (bytes "OK"))
      (cons (array (cons (integer (negsuc 4)) (cons null nil))) (cons (double third) nil)))

nested-IsReply : IsReply formats numerals are_lines six_digits read_rounded nested
nested-IsReply =
    (omega arith, ((refl, (refl, tt)), ((omega arith, (omega arith, (tt, tt))), (tt, tt))))

reply_round_trip_example :
    parse formats
      (scalar 0)
      (length (build formats nested ++ bytes "+"))
      (build formats nested ++ bytes "+")
    ≡ some (read_back formats numerals are_lines six_digits read_rounded nested, bytes "+")
reply_round_trip_example =
    reply_round_trip formats numerals are_lines six_digits read_rounded nested
      (length (build formats nested ++ bytes "+")) (bytes "+") nested-IsReply (omega arith)

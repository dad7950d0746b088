-- ===== src/Protocol/Parser/Lines.antt =====
-- Lines and numbers as `RespParser` (src/astra/protocol/resp/resp_parser.cpp) reads them, with the
-- portable search for line ends.
use astra_db.Prelude.{
  ℕ, suc, false, ◌+◌, ◌-◌, ◌*◌, ◌≤◌, ◌≡◌, refl, ap, some, [], ◌∷◌, ◌++◌, length, take-append, Bytes,
  nat_eqb, arith,
}
use astra_db.Prelude.Int.{ℤ, pos, negsuc}
use astra_db.Protocol.Builder.{Formats}
use astra_db.Protocol.FindCrlf.{scalar}
use astra_db.Protocol.Parser.{
  read_until_crlf, parse_int, from_chars, from_digits, is_digit, max_int64,
}
use astra_db.Protocol.Parser.RoundTrip.{IsDecimal, AllDigits, numeral, drop_two}

-- No '\r' in it.
abbrev pub IsLine : Bytes → Type 0
IsLine [] = Unit {0}
IsLine (c ∷ cs) = (nat_eqb c 13 ≡ false) × IsLine cs

scalar_lem :
    (l rest : Bytes) (i : ℕ) → IsLine l → scalar i (l ++ 13 ∷ 10 ∷ rest) ≡ some (i + length l)
unfolding scalar
scalar_lem [] rest i h = ap some (omega arith)
scalar_lem (c ∷ []) rest i h = ground arith
scalar_lem (c ∷ d ∷ l) rest i h =
    let later = scalar_lem (d ∷ l) rest (suc i) h.1 in ground (arith, later)

pub read_until_crlf_lem :
    (fmt : Formats) (l rest : Bytes)
    → IsLine l
    → read_until_crlf fmt (scalar 0) (l ++ 13 ∷ 10 ∷ rest) ≡ some (l, rest)
unfolding read_until_crlf
read_until_crlf_lem fmt l rest h =
    ground (arith, scalar_lem l rest 0 h, take-append l (13 ∷ 10 ∷ rest), drop_two l rest 13 10)

pub AllDigits-IsLine : (cs : Bytes) → AllDigits cs → IsLine cs
AllDigits-IsLine [] h = tt
AllDigits-IsLine (c ∷ cs) h = (ground arith, AllDigits-IsLine cs h.2)

from_digits_lem : (cs : Bytes) (v : ℕ) → AllDigits cs → from_digits v cs ≡ numeral v cs
unfolding from_digits is_digit
from_digits_lem [] v h = refl
from_digits_lem (c ∷ cs) v h = ground (arith, from_digits_lem cs (v * 10 + (c - b'0')))

-- The decimal numeral of an integer, with '-' in front of a negative one.
abbrev pub IsNumeral : ℤ → Bytes → Type 0
IsNumeral (pos n) cs = IsDecimal n cs
IsNumeral (negsuc n) [] = ⊥
IsNumeral (negsuc n) (c ∷ cs) = (c ≡ b'-') × IsDecimal (suc n) cs

-- What an `int64_t` holds.
abbrev pub IsInt64 : ℤ → Type 0
IsInt64 (pos n) = n ≤ max_int64
IsInt64 (negsuc n) = n ≤ max_int64

pub IsNumeral-IsLine : (z : ℤ) (cs : Bytes) → IsNumeral z cs → IsLine cs
IsNumeral-IsLine (pos n) [] h = tt
IsNumeral-IsLine (pos n) (c ∷ cs) h = AllDigits-IsLine (c ∷ cs) h.0
IsNumeral-IsLine (negsuc n) [] h = tt
IsNumeral-IsLine (negsuc n) (c ∷ []) h = absurd h.1
IsNumeral-IsLine (negsuc n) (c ∷ d ∷ cs) h = (ground arith, AllDigits-IsLine (d ∷ cs) h.1.0)

pub parse_int_lem : (z : ℤ) (cs : Bytes) → IsNumeral z cs → IsInt64 z → parse_int cs ≡ some z
unfolding parse_int from_chars is_digit
parse_int_lem (pos n) [] h b = absurd h
parse_int_lem (pos n) (c ∷ cs) h b = ground (arith, from_digits_lem (c ∷ cs) 0 h.0)
parse_int_lem (negsuc n) [] h b = absurd h
parse_int_lem (negsuc n) (c ∷ []) h b = absurd h.1
parse_int_lem (negsuc n) (c ∷ d ∷ cs) h b = ground (arith, from_digits_lem (d ∷ cs) 0 h.1.0)

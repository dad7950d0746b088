-- ===== src/Protocol/Parser/RoundTrip.antt =====
-- A request that is written as an array of bulk strings (src/astra/protocol/resp/resp_builder.cpp)
-- is read back by the fast path of `ParseCommandFromArray` (resp_parser.cpp).
use mathlib.Core.List.{append_assoc}
use astra_db.Prelude.{
  ℕ, suc, ◌+◌, ◌-◌, ◌*◌, ◌≤◌, ◌<◌, ◌≡◌, refl, Bool, true, false, Option, some, List, [], ◌∷◌, ◌++◌,
  map, length, get_elem?, drop, Bytes, ltb, arith, length-append, take-append,
}
use astra_db.Prelude.Int.{pos}
use astra_db.Protocol.Builder.{Formats, build_bulk_string, build_bulk_strings, build_array}
use astra_db.Protocol.Parser.{
  int_line_loop, int_line_digits, parse_int_line_fast, max_int64, max_int32,
}
use astra_db.Protocol.Parser.Request.{
  bulk_text, fast_bulk, parse_name, parse_arg, parse_args, parse_request, parse_command_from_array,
}
use astra_db.Protocol.Types
use astra_db.Protocol.Types.{Command, CommandArg}

-- What a run of digits stands for, read from the left after the value `v`.
abbrev pub numeral : ℕ → Bytes → ℕ
numeral v [] = v
numeral v (c ∷ cs) = numeral (v * 10 + (c - b'0')) cs

abbrev pub AllDigits : Bytes → Type 0
AllDigits [] = Unit {0}
AllDigits (c ∷ cs) = (b'0' ≤ c) × (c ≤ b'9') × AllDigits cs

-- The decimal numeral of n, as `absl::StrCat` writes it.
abbrev pub IsDecimal : ℕ → Bytes → Type 0
IsDecimal n [] = ⊥
IsDecimal n (c ∷ cs) = AllDigits (c ∷ cs) × (numeral 0 (c ∷ cs) ≡ n)

pub numeral-ge : (cs : Bytes) (v : ℕ) → v ≤ numeral v cs
numeral-ge [] v = omega arith
numeral-ge (c ∷ cs) v = omega (arith, numeral-ge cs (v * 10 + (c - b'0')))

int_line_loop_lem :
    (cs : Bytes) (v : ℕ) (rest : Bytes)
    → AllDigits cs
    → numeral v cs ≤ max_int64
    → int_line_loop false v (cs ++ 13 ∷ 10 ∷ rest) ≡ some (pos (numeral v cs), rest)
unfolding int_line_loop
int_line_loop_lem [] v rest d b = refl
int_line_loop_lem (c ∷ cs) v rest d b =
    let v' = v * 10 + (c - b'0') in ground (arith, numeral-ge cs v', int_line_loop_lem cs v' rest)

int_line_lem :
    (allow : Bool) (n : ℕ) (cs rest : Bytes)
    → IsDecimal n cs
    → n ≤ max_int64
    → parse_int_line_fast allow (cs ++ 13 ∷ 10 ∷ rest) ≡ some (pos n, rest)
unfolding parse_int_line_fast int_line_digits
int_line_lem allow n [] rest d b = absurd d
int_line_lem allow n (c ∷ cs) rest d b = ground (arith, int_line_loop_lem (c ∷ cs) 0 rest d.0)

at_end : (s t : Bytes) → get_elem? (s ++ t) (length s) ≡ get_elem? t 0
at_end [] t = refl
at_end (x ∷ s) t = at_end s t

at_next : (s t : Bytes) (x : ℕ) → get_elem? (s ++ x ∷ t) (length s + 1) ≡ get_elem? t 0
at_next [] t x = refl
at_next (y ∷ s) t x =
    let e : suc (length s) + 1 ≡ suc (length s + 1) = omega arith in rw e (at_next s t x)

pub drop_two : (s t : Bytes) (x y : ℕ) → drop (length s + 2) (s ++ x ∷ y ∷ t) ≡ t
drop_two [] t x y = refl
drop_two (z ∷ s) t x y =
    let e : suc (length s) + 2 ≡ suc (length s + 2) = omega arith in rw e (drop_two s t x y)

bulk_text_lem :
    (s rest : Bytes) → bulk_text (pos (length s)) (s ++ 13 ∷ 10 ∷ rest) ≡ some (some s, rest)
unfolding bulk_text
bulk_text_lem s rest = ground (
  arith,
  length-append s (13 ∷ 10 ∷ rest),
  at_end s (13 ∷ 10 ∷ rest),
  at_next s (10 ∷ rest) 13,
  drop_two s rest 13 10,
  take-append s (13 ∷ 10 ∷ rest),
)

module _ (fmt : Formats) (find : Bytes → Option ℕ)
    (decimal : (n : ℕ) → IsDecimal n (fmt.of_integer (pos n))) where
  -- A request as a client writes it: the name and the arguments, as bulk strings.
  abbrev pub written : Bytes → List Bytes → Bytes
  written name args = build_array fmt (name ∷ args)

  abbrev pub InRange : List Bytes → Type 0
  InRange [] = Unit {0}
  InRange (s ∷ ss) = (length s ≤ max_int64) × InRange ss

  fast_bulk_lem :
      (s rest : Bytes)
      → length s ≤ max_int64
      → fast_bulk (fmt.of_integer (pos (length s)) ++ 13 ∷ 10 ∷ (s ++ 13 ∷ 10 ∷ rest))
        ≡ some (some s, rest)
  unfolding fast_bulk
  fast_bulk_lem s rest b =
      rw
        (int_line_lem true (length s) (fmt.of_integer (pos (length s))) (s ++ 13 ∷ 10 ∷ rest)
          (decimal (length s)) b)
        (bulk_text_lem s rest)

  bulk_shape :
      (s rest : Bytes)
      → build_bulk_string fmt s ++ rest
        ≡ b'$' ∷ (fmt.of_integer (pos (length s)) ++ 13 ∷ 10 ∷ (s ++ 13 ∷ 10 ∷ rest))
  unfolding build_bulk_string
  bulk_shape s rest = simp append_assoc

  parse_name_lem :
      (s rest : Bytes)
      → length s ≤ max_int64
      → parse_name fmt find (build_bulk_string fmt s ++ rest) ≡ some (s, rest)
  unfolding parse_name
  parse_name_lem s rest b = rw (bulk_shape s rest) (rw (fast_bulk_lem s rest b))

  parse_arg_lem :
      (s rest : Bytes)
      → length s ≤ max_int64
      → parse_arg fmt find (build_bulk_string fmt s ++ rest) ≡ some (Types.of_string s, rest)
  unfolding parse_arg
  parse_arg_lem s rest b = rw (bulk_shape s rest) (rw (fast_bulk_lem s rest b))

  parse_args_lem :
      (ss : List Bytes) (rest : Bytes)
      → InRange ss
      → parse_args fmt find (length ss) (build_bulk_strings fmt ss ++ rest)
        ≡ some (map Types.of_string ss, rest)
  unfolding parse_args build_bulk_strings
  parse_args_lem [] rest b = refl
  parse_args_lem (s ∷ ss) rest b =
      rw (append_assoc (build_bulk_string fmt s) (build_bulk_strings fmt ss) rest)
        (rw (parse_arg_lem s (build_bulk_strings fmt ss ++ rest) b.0, parse_args_lem ss rest b.1))

  parse_request_lem :
      (name : Bytes) (args : List Bytes) (rest : Bytes)
      → InRange (name ∷ args)
      → length args < max_int32
      → parse_request fmt find
          (pos (suc (length args)))
          (build_bulk_strings fmt (name ∷ args) ++ rest)
        ≡ some (record { name = name; args = map Types.of_string args }, rest)
  unfolding parse_request build_bulk_strings
  parse_request_lem name args rest b few =
      let few' : ltb max_int32 (suc (length args)) ≡ false = ground arith in
      rw (few', append_assoc (build_bulk_string fmt name) (build_bulk_strings fmt args) rest)
        (rw (
          parse_name_lem name (build_bulk_strings fmt args ++ rest) b.0,
          parse_args_lem args rest b.1,
        ))

  -- Under any search for line ends, and whatever bytes follow, a request that is written as an
  -- array of at most 2^31 - 1 bulk strings, of any bytes and of lengths below 2^63, is read back:
  -- its name, its arguments in their order as bulk strings, and the bytes that follow untouched.
  pub request_round_trip :
      (name : Bytes) (args : List Bytes) (rest : Bytes)
      → InRange (name ∷ args)
      → length args < max_int32
      → parse_command_from_array fmt find (written name args ++ rest)
        ≡ some (record { name = name; args = map Types.of_string args }, rest)
  unfolding parse_command_from_array build_array
  request_round_trip name args rest b few =
      let n = suc (length args) in
      let body = build_bulk_strings fmt (name ∷ args) in
      rw (append_assoc (fmt.of_integer (pos n)) (13 ∷ 10 ∷ body) rest) (
        rw (int_line_lem false n (fmt.of_integer (pos n)) (body ++ rest) (decimal n) (omega arith))
          (parse_request_lem name args rest b few))

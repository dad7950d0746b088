-- ===== src/Protocol/Parser/Progress.antt =====
-- `ParseCommandFromArray` (src/astra/protocol/resp/resp_parser.cpp) reads at least one byte.
use astra_db.Prelude.{
  ℕ, zero, suc, Bool, true, false, ◌+◌, ◌-◌, ◌*◌, ◌≤◌, ◌<◌, ◌≡◌, Option, none, some, [], ◌∷◌,
  length, length-drop, Bytes, nat_eqb, ltb, if◌then◌else◌, arith,
}
use astra_db.Prelude.Int.{ℤ, pos, negsuc}
use astra_db.Protocol.Builder.{Formats}
use astra_db.Protocol.Types
use astra_db.Protocol.Types.{RespType, RespValue, Command, CommandArg}
use astra_db.Protocol.Parser.{parse, parse_int_line_fast, int_line_digits, int_line_loop, max_int32}
use astra_db.Protocol.Parser.Request.{
  bulk_text, fast_bulk, to_command_arg, parse_name, parse_arg, parse_args, parse_request,
  parse_command_from_array,
}
use astra_db.Protocol.Parser.Shrinks.{
  Shrinks, some-Shrinks, none-Shrinks, if-Shrinks, under-Shrinks, bind-Shrinks, parse-Shrinks,
}

if_bound :
    {A : Type 0} (b : Bool) (x y : Option (A × Bytes)) (n : ℕ) (r : A × Bytes)
    → (if b then x else y) ≡ some r
    → (x ≡ some r → length r.1 ≤ n)
    → (y ≡ some r → length r.1 ≤ n)
    → length r.1 ≤ n
if_bound true x y n r h f g = f h
if_bound false x y n r h f g = g h

module _ (fmt : Formats) (find : Bytes → Option ℕ) where
  int_line_loop-Shrinks :
      (negative : Bool) (value : ℕ) → Shrinks fmt find (int_line_loop negative value)
  unfolding int_line_loop
  int_line_loop-Shrinks negative value [] r h = cc
  int_line_loop-Shrinks negative value (c ∷ []) r h = ground arith
  int_line_loop-Shrinks negative value (c ∷ d ∷ t) r h =
      let ih = int_line_loop-Shrinks negative (value * 10 + (c - b'0')) (d ∷ t) r in
      ground (arith, ih)

  int_line_digits-Shrinks : (negative : Bool) → Shrinks fmt find (int_line_digits negative)
  unfolding int_line_digits
  int_line_digits-Shrinks negative [] r h = cc
  int_line_digits-Shrinks negative (c ∷ t) r h =
      ground (arith, int_line_loop-Shrinks negative 0 (c ∷ t) r)

  int_line-Shrinks : (allow : Bool) → Shrinks fmt find (parse_int_line_fast allow)
  unfolding parse_int_line_fast
  int_line-Shrinks allow [] r h = cc
  int_line-Shrinks allow (c ∷ t) r h =
      ground (arith, int_line_digits-Shrinks true t r, int_line_digits-Shrinks false (c ∷ t) r)

  bulk_text-Shrinks : (len : ℤ) → Shrinks fmt find (bulk_text len)
  unfolding bulk_text
  bulk_text-Shrinks (pos len) t r h = ground (arith, length-drop (len + 2) t)
  bulk_text-Shrinks (negsuc zero) t r h = ground arith
  bulk_text-Shrinks (negsuc (suc n)) t r h = cc

  fast_bulk-Shrinks : Shrinks fmt find fast_bulk
  unfolding fast_bulk
  fast_bulk-Shrinks =
      bind-Shrinks fmt find (parse_int_line_fast true) _ (int_line-Shrinks true) bulk_text-Shrinks

  if_present-Shrinks :
      {A B : Type 0} (o : Option A) (f : A → B)
      → Shrinks fmt find (λ t. elim o [ none ↦ none | some a ↦ some (f a, t) ])
  if_present-Shrinks none f = none-Shrinks fmt find
  if_present-Shrinks (some a) f = some-Shrinks fmt find (f a)

  if_bulk_string-Shrinks :
      (v : RespValue fmt.F)
      → Shrinks fmt find (λ t. elim v [ RespValue.bulk_string name ↦ some (name, t) | _ ↦ none ])
  if_bulk_string-Shrinks (RespValue.bulk_string name) = some-Shrinks fmt find name
  if_bulk_string-Shrinks v = none-Shrinks fmt find

  arg_of-Shrinks :
      (o : Option Bytes)
      → Shrinks fmt find (λ t. elim o [
        | none ↦ some (Types.of_type RespType.null_bulk_string, t)
        | some s ↦ some (Types.of_string s, t)
      ])
  arg_of-Shrinks none = some-Shrinks fmt find (Types.of_type RespType.null_bulk_string)
  arg_of-Shrinks (some s) = some-Shrinks fmt find (Types.of_string s)

  parse_name-Shrinks : Shrinks fmt find (parse_name fmt find)
  unfolding parse_name
  parse_name-Shrinks [] r h = cc
  parse_name-Shrinks (c ∷ t) r h =
      if_bound (nat_eqb c b'$') _ _ (suc (length t)) r h
        (λ e. omega (
          arith,
          bind-Shrinks fmt find fast_bulk _ fast_bulk-Shrinks (λ o. if_present-Shrinks o (λ n. n)) t
              r e,
        ))
        (λ e.
          bind-Shrinks fmt find (parse fmt find (length (c ∷ t))) _
            (parse-Shrinks fmt find (length (c ∷ t))) if_bulk_string-Shrinks (c ∷ t) r e)

  parse_arg-Shrinks : Shrinks fmt find (parse_arg fmt find)
  unfolding parse_arg
  parse_arg-Shrinks [] r h = cc
  parse_arg-Shrinks (c ∷ t) r h =
      if_bound (nat_eqb c b'$') _ _ (suc (length t)) r h
        (λ e.
          omega (arith, bind-Shrinks fmt find fast_bulk _ fast_bulk-Shrinks arg_of-Shrinks t r e))
        (λ e.
          bind-Shrinks fmt find (parse fmt find (length (c ∷ t))) _
            (parse-Shrinks fmt find (length (c ∷ t)))
            (λ v. under-Shrinks fmt find (to_command_arg fmt find v) _ (some-Shrinks fmt find))
            (c ∷ t) r e)

  parse_args-Shrinks : (n : ℕ) → Shrinks fmt find (parse_args fmt find n)
  unfolding parse_args
  parse_args-Shrinks zero = some-Shrinks fmt find []
  parse_args-Shrinks (suc n) =
      bind-Shrinks fmt find (parse_arg fmt find) _ parse_arg-Shrinks (λ arg.
        bind-Shrinks fmt find (parse_args fmt find n) _ (parse_args-Shrinks n)
          (λ args. some-Shrinks fmt find (arg ∷ args)))

  parse_request-Shrinks : (count : ℤ) → Shrinks fmt find (parse_request fmt find count)
  unfolding parse_request
  parse_request-Shrinks (pos zero) = none-Shrinks fmt find
  parse_request-Shrinks (pos (suc n)) =
      if-Shrinks fmt find (ltb max_int32 (suc n)) _ _ (none-Shrinks fmt find) (
        bind-Shrinks fmt find (parse_name fmt find) _ parse_name-Shrinks (λ name.
          bind-Shrinks fmt find (parse_args fmt find n) _ (parse_args-Shrinks n)
            (λ args. some-Shrinks fmt find (record { name = name; args = args }))))
  parse_request-Shrinks (negsuc n) = none-Shrinks fmt find

  pub command_leaves_fewer :
      (t : Bytes) (r : Command × Bytes)
      → parse_command_from_array fmt find t ≡ some r
      → length r.1 < length t
  unfolding parse_command_from_array
  command_leaves_fewer [] r h = cc
  command_leaves_fewer (c ∷ t) r h =
      let bound =
        if_bound (nat_eqb c b'*') _ _ (length t) r h
          (λ e.
            bind-Shrinks fmt find (parse_int_line_fast false) _ (int_line-Shrinks false)
              parse_request-Shrinks t r e)
          (λ e. cc) in
      omega (arith, bound)

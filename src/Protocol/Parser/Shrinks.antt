-- ===== src/Protocol/Parser/Shrinks.antt =====
-- Each parser of src/astra/protocol/resp/resp_parser.cpp leaves at most the bytes that it was
-- given, and `Parse` fewer.
use astra_db.Prelude.{
  leb, bytes_eq, ℕ, zero, suc, Bool, true, false, is_nil, ◌==◌, ◌+◌, ◌≤◌, ◌<◌, ◌≡◌, refl, Option,
  none, some, ◌>>=◌, [], ◌∷◌, length, take, drop, length-drop, Bytes, bytes, nat_eqb, if◌then◌else◌,
  arith,
}
use astra_db.Prelude.Int.{ℤ, pos, negsuc}
use astra_db.Protocol.Builder.{Formats}
use astra_db.Protocol.Types.{
  RespValue, simple_string, error, integer, array, null_array, null, boolean, double, nil, cons,
}
use astra_db.Protocol.FindCrlf.{scalar}
use astra_db.Protocol.Parser.{
  Parser, read_until_crlf, parse_int, parse_simple_string, parse_error, parse_integer, bulk_payload,
  parse_bulk_string, parse_elements, array_body, parse_array, parse_null, parse_boolean,
  parse_double, by_type, parse,
}

bind_inv :
    {A B : Type 0} (o : Option A) (f : A → Option B) {y : B}
    → (o >>= f) ≡ some y
    → (x : A) × (o ≡ some x) × (f x ≡ some y)
bind_inv none f h = cc
bind_inv (some x) f h = (x, refl, h)

module _ (fmt : Formats) (find : Bytes → Option ℕ) where
  abbrev pub Shrinks : {A : Type 0} → (Bytes → Option (A × Bytes)) → Type 0
  Shrinks {A} p = (t : Bytes) (r : A × Bytes) → p t ≡ some r → length r.1 ≤ length t

  cut_lem :
      (o : Option ℕ) (t : Bytes) (r : Bytes × Bytes)
      → (elim o [ none ↦ none | some p ↦ some (take p t, drop (p + 2) t) ]) ≡ some r
      → length r.1 ≤ length t
  cut_lem none t r h = cc
  cut_lem (some p) t r h = ground (arith, length-drop (p + 2) t)

  pub read_until_crlf-Shrinks : Shrinks (read_until_crlf fmt find)
  unfolding read_until_crlf
  read_until_crlf-Shrinks t r h = cut_lem (if leb 32 (length t) then find t else scalar 0 t) t r h

  pub bind-Shrinks :
      {A B : Type 0} (p : Bytes → Option (A × Bytes)) (k : A × Bytes → Option (B × Bytes))
      → Shrinks p
      → ((a : A) → Shrinks (λ t. k (a, t)))
      → Shrinks (λ t. p t >>= k)
  bind-Shrinks p k first second t r h =
      let (x, e, e') = bind_inv (p t) k h in omega (arith, first t x e, second x.0 x.1 r e')

  bulk_payload-Shrinks : (len : ℤ) → Shrinks (bulk_payload fmt find len)
  unfolding bulk_payload
  bulk_payload-Shrinks (pos len) t r h = ground (arith, length-drop (len + 2) t)
  bulk_payload-Shrinks (negsuc zero) t r h = ground arith
  bulk_payload-Shrinks (negsuc (suc n)) t r h = cc

  pub some-Shrinks : {A : Type 0} (a : A) → Shrinks (λ t. some (a, t))
  some-Shrinks a t r h = ground arith

  pub none-Shrinks : {A : Type 0} → Shrinks {A = A} (λ t. none)
  none-Shrinks t r h = cc

  pub if-Shrinks :
      {A : Type 0} (b : Bool) (p q : Bytes → Option (A × Bytes))
      → Shrinks p
      → Shrinks q
      → Shrinks (λ t. if b then p t else q t)
  if-Shrinks true p q hp hq = hp
  if-Shrinks false p q hp hq = hq

  -- A step that reads nothing itself.
  pub under-Shrinks :
      {A B : Type 0} (o : Option A) (k : A → Bytes → Option (B × Bytes))
      → ((a : A) → Shrinks (k a))
      → Shrinks (λ t. o >>= (λ a. k a t))
  under-Shrinks none k h t r e = cc
  under-Shrinks (some a) k h t r e = h a t r e

  line-Shrinks :
      {B : Type 0} (k : Bytes × Bytes → Option (B × Bytes))
      → ((line : Bytes) → Shrinks (λ t. k (line, t)))
      → Shrinks (λ t. read_until_crlf fmt find t >>= k)
  line-Shrinks k h = bind-Shrinks (read_until_crlf fmt find) k read_until_crlf-Shrinks h

  parse_elements-Shrinks :
      (p : Parser fmt find) → Shrinks p → (n : ℕ) → Shrinks (parse_elements fmt find p n)
  unfolding parse_elements
  parse_elements-Shrinks p h zero = some-Shrinks nil
  parse_elements-Shrinks p h (suc n) = bind-Shrinks p _ h (λ value.
      bind-Shrinks (parse_elements fmt find p n) _ (parse_elements-Shrinks p h n)
        (λ values. some-Shrinks (cons value values)))

  array_body-Shrinks :
      (p : Parser fmt find) → Shrinks p → (count : ℤ) → Shrinks (array_body fmt find p count)
  unfolding array_body
  array_body-Shrinks p h (pos count) =
      bind-Shrinks (parse_elements fmt find p count) _ (parse_elements-Shrinks p h count)
        (λ values. some-Shrinks (array values))
  array_body-Shrinks p h (negsuc zero) = some-Shrinks null_array
  array_body-Shrinks p h (negsuc (suc n)) = none-Shrinks

  parse_array-Shrinks : (p : Parser fmt find) → Shrinks p → Shrinks (parse_array fmt find p)
  unfolding parse_array
  parse_array-Shrinks p h =
      line-Shrinks _ (λ line. under-Shrinks (parse_int line) _ (array_body-Shrinks p h))

  parse_bulk_string-Shrinks : Shrinks (parse_bulk_string fmt find)
  unfolding parse_bulk_string
  parse_bulk_string-Shrinks =
      line-Shrinks _ (λ line. under-Shrinks (parse_int line) _ bulk_payload-Shrinks)

  parse_integer-Shrinks : Shrinks (parse_integer fmt find)
  unfolding parse_integer
  parse_integer-Shrinks =
      line-Shrinks _ (λ line. under-Shrinks (parse_int line) _ (λ n. some-Shrinks (integer n)))

  parse_null-Shrinks : Shrinks (parse_null fmt find)
  unfolding parse_null
  parse_null-Shrinks =
      line-Shrinks _ (λ line. if-Shrinks (is_nil line) _ _ (some-Shrinks null) none-Shrinks)

  parse_boolean-Shrinks : Shrinks (parse_boolean fmt find)
  unfolding parse_boolean
  parse_boolean-Shrinks = line-Shrinks _ (λ line.
      if-Shrinks (line == bytes "t") _ _ (some-Shrinks (boolean true))
        (if-Shrinks (line == bytes "f") _ _ (some-Shrinks (boolean false)) none-Shrinks))

  parse_double-Shrinks : Shrinks (parse_double fmt find)
  unfolding parse_double
  parse_double-Shrinks =
      line-Shrinks _ (λ line. under-Shrinks (fmt.to_double line) _ (λ d. some-Shrinks (double d)))

  by_type-Shrinks : (p : Parser fmt find) → Shrinks p → (c : ℕ) → Shrinks (by_type fmt find p c)
  unfolding by_type parse_simple_string parse_error
  by_type-Shrinks p h c =
      let text =
        if-Shrinks (nat_eqb c b'+') _ _
          (line-Shrinks _ (λ line. some-Shrinks (simple_string line))) in
      let failure =
        if-Shrinks (nat_eqb c b'-') _ _ (line-Shrinks _ (λ line. some-Shrinks (error line))) in
      let number = if-Shrinks (nat_eqb c b':') _ _ parse_integer-Shrinks in
      let bulk = if-Shrinks (nat_eqb c b'$') _ _ parse_bulk_string-Shrinks in
      let elements = if-Shrinks (nat_eqb c b'*') _ _ (parse_array-Shrinks p h) in
      let nothing = if-Shrinks (nat_eqb c b'_') _ _ parse_null-Shrinks in
      let truth = if-Shrinks (nat_eqb c b'#') _ _ parse_boolean-Shrinks in
      let fraction = if-Shrinks (nat_eqb c b',') _ _ parse_double-Shrinks none-Shrinks in
      text (failure (number (bulk (elements (nothing (truth fraction))))))

  pub parse-Shrinks : (fuel : ℕ) → Shrinks (parse fmt find fuel)
  unfolding parse
  parse-Shrinks zero t r h = cc
  parse-Shrinks (suc fuel) [] r h = cc
  parse-Shrinks (suc fuel) (c ∷ t) r h =
      omega (arith, by_type-Shrinks (parse fmt find fuel) (parse-Shrinks fuel) c t r h)

  pub parse_leaves_fewer :
      (fuel : ℕ) (t : Bytes) (r : RespValue fmt.F × Bytes)
      → parse fmt find fuel t ≡ some r
      → length r.1 < length t
  unfolding parse
  parse_leaves_fewer zero t r h = cc
  parse_leaves_fewer (suc fuel) [] r h = cc
  parse_leaves_fewer (suc fuel) (c ∷ t) r h =
      omega (arith, by_type-Shrinks (parse fmt find fuel) (parse-Shrinks fuel) c t r h)

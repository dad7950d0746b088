-- ===== src/Tests/Protocol/Decimal.antt =====
-- Decimal numerals of natural numbers, as `absl::StrCat` writes them.
use astra_db.Prelude.{
  ℕ, zero, suc, ◌+◌, ◌-◌, ◌*◌, ◌/◌, ◌%◌, ◌<◌, ◌≡◌, ◌∙◌, ap, [], ◌∷◌, ◌++◌, Bytes, ltb, Bool-cases,
  inl, inr, if◌then◌else◌, arith,
}
use mathlib.Core.Path.{subst}
use astra_db.Protocol.Parser.RoundTrip.{numeral, AllDigits, IsDecimal}

digits : ℕ → ℕ → Bytes
digits zero n = []
digits (suc fuel) n =
    let longer = digits fuel (n / 10) ++ (48 + n % 10) ∷ [] in
    if ltb n 10 then (48 + n) ∷ [] else longer

unfoldable pub decimal : ℕ → Bytes
unfolding digits
decimal n = digits (suc n) n

numeral-snoc :
    (cs : Bytes) (v d : ℕ) → d < 10 → numeral v (cs ++ (48 + d) ∷ []) ≡ numeral v cs * 10 + d
numeral-snoc [] v d h = omega arith
numeral-snoc (c ∷ cs) v d h = numeral-snoc cs (v * 10 + (c - b'0')) d h

AllDigits-snoc : (cs : Bytes) (d : ℕ) → d < 10 → AllDigits cs → AllDigits (cs ++ (48 + d) ∷ [])
AllDigits-snoc [] d h a = (omega arith, omega arith, tt)
AllDigits-snoc (c ∷ cs) d h a = (a.0, a.1, AllDigits-snoc cs d h a.2)

IsDecimal-snoc :
    (cs : Bytes) (n d : ℕ) → d < 10 → IsDecimal n cs → IsDecimal (n * 10 + d) (cs ++ (48 + d) ∷ [])
IsDecimal-snoc [] n d h a = absurd a
IsDecimal-snoc (c ∷ cs) n d h a =
    (AllDigits-snoc (c ∷ cs) d h a.0, numeral-snoc (c ∷ cs) 0 d h ∙ ap (λ (k : ℕ). k * 10 + d) a.1)

digits-IsDecimal : (fuel n : ℕ) → n < fuel → IsDecimal n (digits fuel n)
unfolding digits
digits-IsDecimal zero n h = absurd (omega arith)
digits-IsDecimal (suc fuel) n h = elim (Bool-cases (ltb n 10)) [
  | inl small ↦ rw small ((ground arith, ground arith, tt), omega arith)
  | inr large ↦
      let e : n / 10 * 10 + n % 10 ≡ n = omega arith in
      rw large (
        subst (λ k. IsDecimal k (digits fuel (n / 10) ++ (48 + n % 10) ∷ [])) e
          (IsDecimal-snoc (digits fuel (n / 10)) (n / 10) (n % 10) (omega arith)
            (digits-IsDecimal fuel (n / 10) (ground arith))))
]

pub decimal-IsDecimal : (n : ℕ) → IsDecimal n (decimal n)
unfolding decimal
decimal-IsDecimal n = digits-IsDecimal (suc n) n (omega arith)

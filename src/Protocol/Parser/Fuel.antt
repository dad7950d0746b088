-- ===== src/Protocol/Parser/Fuel.antt =====
-- The fuel of `Parse` (src/astra/protocol/resp/resp_parser.cpp): the number of bytes is enough.
use mathlib.Core.Path.{fun_ext}
use astra_db.Prelude.{
  bytes_eq, ℕ, zero, suc, ◌≤◌, ◌≡◌, refl, ap, ◌∙◌, Option, ◌>>=◌, [], ◌∷◌, length, Bytes, arith,
  Option-cases, inl, inr,
}
use astra_db.Prelude.Int.{ℤ, pos, negsuc}
use astra_db.Protocol.Builder.{Formats}
use astra_db.Protocol.Parser.{
  Parser, read_until_crlf, parse_int, parse_elements, array_body, parse_array, by_type, parse,
}
use astra_db.Protocol.Parser.Shrinks.{Shrinks, read_until_crlf-Shrinks, parse-Shrinks}

module _ (fmt : Formats) (find : Bytes → Option ℕ) where
  -- Two parsers that agree on the texts of at most n bytes.
  abbrev Agree : ℕ → Parser fmt find → Parser fmt find → Type 0
  Agree n p q = (u : Bytes) → length u ≤ n → p u ≡ q u

  parse_elements-Agree :
      (p q : Parser fmt find) (n : ℕ) (t : Bytes)
      → Shrinks fmt find p
      → Agree (length t) p q
      → parse_elements fmt find p n t ≡ parse_elements fmt find q n t
  unfolding parse_elements
  parse_elements-Agree p q zero t h a = refl
  parse_elements-Agree p q (suc n) t h a = elim (Option-cases (p t)) [
    | inl e ↦ rw (← a t (omega arith), e)
    | inr ((v, r), e) ↦
        let le = h t (v, r) e in
        rw (← a t (omega arith), e, parse_elements-Agree p q n r h (λ u b. a u (omega arith)))
  ]

  array_body-Agree :
      (p q : Parser fmt find) (count : ℤ) (t : Bytes)
      → Shrinks fmt find p
      → Agree (length t) p q
      → array_body fmt find p count t ≡ array_body fmt find q count t
  unfolding array_body
  array_body-Agree p q (pos count) t h a = rw (parse_elements-Agree p q count t h a)
  array_body-Agree p q (negsuc zero) t h a = refl
  array_body-Agree p q (negsuc (suc n)) t h a = refl

  parse_array-Agree :
      (p q : Parser fmt find) (t : Bytes)
      → Shrinks fmt find p
      → Agree (length t) p q
      → parse_array fmt find p t ≡ parse_array fmt find q t
  unfolding parse_array
  parse_array-Agree p q t h a = elim (Option-cases (read_until_crlf fmt find t)) [
    | inl e ↦ rw e
    | inr ((line, r), e) ↦
        let le = read_until_crlf-Shrinks fmt find t (line, r) e in
        rw e (
          ap (λ k. parse_int line >>= k)
            (fun_ext (λ count. array_body-Agree p q count r h (λ u b. a u (omega arith)))))
  ]

  by_type-Agree :
      (p q : Parser fmt find) (c : ℕ) (t : Bytes)
      → Shrinks fmt find p
      → Agree (length t) p q
      → by_type fmt find p c t ≡ by_type fmt find q c t
  unfolding by_type
  by_type-Agree p q c t h a = rw (parse_array-Agree p q t h a)

  fuels_agree :
      (f g : ℕ) (t : Bytes) → length t ≤ f → length t ≤ g → parse fmt find f t ≡ parse fmt find g t
  unfolding parse
  fuels_agree zero zero t hf hg = refl
  fuels_agree zero (suc g) [] hf hg = refl
  fuels_agree (suc f) zero [] hf hg = refl
  fuels_agree zero (suc g) (c ∷ t) hf hg = absurd (omega arith)
  fuels_agree (suc f) zero (c ∷ t) hf hg = absurd (omega arith)
  fuels_agree (suc f) (suc g) [] hf hg = refl
  fuels_agree (suc f) (suc g) (c ∷ t) hf hg =
      by_type-Agree (parse fmt find f) (parse fmt find g) c t (parse-Shrinks fmt find f)
        (λ u b. fuels_agree f g u (omega arith) (omega arith))

  -- Fuel for every byte of the text is enough: more fuel gives the same result, and `Parse` of a
  -- type byte and what follows is the parser for that type, with `Parse`, under fuel for each
  -- text that it is called on, as the parser of elements.
  pub parse_fuel :
      (fuel c : ℕ) (t : Bytes)
      → suc (length t) ≤ fuel
      → (parse fmt find fuel (c ∷ t) ≡ parse fmt find (suc (length t)) (c ∷ t))
        × (parse fmt find fuel (c ∷ t) ≡ by_type fmt find (λ u. parse fmt find (length u) u) c t)
  unfolding parse
  parse_fuel fuel c t enough =
      let same = fuels_agree fuel (suc (length t)) (c ∷ t) enough (omega arith) in
      (
        same,
        same
            ∙ by_type-Agree (parse fmt find (length t)) (λ u. parse fmt find (length u) u) c t
                (parse-Shrinks fmt find (length t))
                (λ u b. fuels_agree (length t) (length u) u b (omega arith)),
      )

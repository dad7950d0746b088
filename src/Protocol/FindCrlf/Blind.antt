-- ===== src/Protocol/FindCrlf/Blind.antt =====
-- What the SSE search of src/astra/base/simd_utils.hpp does not see.
use astra_db.Prelude.{
  ℕ, zero, suc, ◌+◌, ◌-◌, ◌*◌, ◌/◌, ◌≤◌, ◌<◌, ◌≡◌, refl, none, some, [], ◌∷◌, length, get_elem?,
  take, drop, Bytes, arith,
}
use astra_db.Protocol.FindCrlf.{first_cr, chunk, chunks, find_crlf}

first_cr-none :
    (xs : Bytes) (i : ℕ) → ((j : ℕ) → get_elem? xs j ≡ some 13 → ⊥) → first_cr i xs ≡ none
unfolding first_cr
first_cr-none [] i h = refl
first_cr-none (x ∷ xs) i h = ground (arith, h 0, first_cr-none xs (suc i) (λ j. h (suc j)))

get_elem?-take :
    (n j : ℕ) (xs : Bytes) {x : ℕ}
    → get_elem? (take n xs) j ≡ some x
    → (j < n) × (get_elem? xs j ≡ some x)
get_elem?-take zero j xs h = cc
get_elem?-take (suc n) j [] h = cc
get_elem?-take (suc n) zero (y ∷ ys) h = (omega arith, h)
get_elem?-take (suc n) (suc j) (y ∷ ys) h =
    let r = get_elem?-take n j ys h in (omega (arith, r.0), r.1)

get_elem?-drop :
    (m j : ℕ) (xs : Bytes) {x : ℕ}
    → get_elem? (drop m xs) j ≡ some x
    → get_elem? xs (m + j) ≡ some x
get_elem?-drop zero j xs h = let e : 0 + j ≡ j = omega arith in rw e h
get_elem?-drop (suc m) j [] h = cc
get_elem?-drop (suc m) j (y ∷ ys) h =
    let e : suc m + j ≡ suc (m + j) = omega arith in rw e (get_elem?-drop m j ys h)

module _ (t : Bytes) (bound : ℕ) (late : (i : ℕ) → get_elem? t i ≡ some 13 → bound ≤ i) where
  chunk-none : (i : ℕ) → i + 16 ≤ bound → chunk t i ≡ none
  unfolding chunk
  chunk-none i h =
      let clear = first_cr-none (take 16 (drop i t)) 0 (λ j found.
        let (near, there) = get_elem?-take 16 j (drop i t) found in
        omega (arith, late (i + j) (get_elem?-drop i j t there), near)) in
      rw (clear, chunk)

  chunks-none : (n i : ℕ) → i + 16 * n ≤ bound → chunks n t i ≡ none
  unfolding chunks
  chunks-none zero i h = refl
  chunks-none (suc n) i h =
      ground (arith, chunk-none i (omega arith), chunks-none n (i + 16) (omega arith))

-- In a text whose size is a multiple of 16, and at least 16, a line end in the last 16 bytes is
-- never found: if no '\r' stands before them, the search answers that there is no "\r\n",
-- whatever the last 16 bytes are.
pub blind_tail :
    (t : Bytes) (k : ℕ)
    → length t ≡ 16 * k + 16
    → ((i : ℕ) → get_elem? t i ≡ some 13 → 16 * k ≤ i)
    → find_crlf t ≡ none
unfolding find_crlf
blind_tail t k size late =
    let rounds : (length t - 1) / 16 ≡ k = omega arith in
    let whole : length t / 16 * 16 ≡ length t = omega arith in
    ground (arith, chunks-none t (16 * k) late k 0 (omega arith), rounds, whole)

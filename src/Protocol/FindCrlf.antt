-- ===== src/Protocol/FindCrlf.antt =====
-- `FindCRLF` of src/astra/base/simd_utils.hpp, as compiled for x86-64 without AVX2, where it scans
-- chunks of 16 bytes by SSE instructions, and its portable loop.
pub mod Blind
use astra_db.Prelude.{
  ℕ, zero, suc, ◌+◌, ◌-◌, ◌*◌, ◌/◌, Bool, true, false, Option, none, some, List, [], ◌∷◌, length,
  get_elem?, take, drop, Bytes, ltb, leb, nat_eqb, if◌then◌else◌,
}

-- The last loop: the position of the first "\r\n", from `i` on.
unfoldable pub scalar : ℕ → Bytes → Option ℕ
scalar i [] = none
scalar i (x ∷ []) = none
scalar i (x ∷ y ∷ rest) =
    let later = scalar (suc i) (y ∷ rest) in
    if nat_eqb x 13 then (if nat_eqb y 10 then some i else later) else later

-- `__builtin_ctz` of the comparison mask: the first '\r' of the chunk.
unfoldable pub first_cr : ℕ → Bytes → Option ℕ
first_cr i [] = none
first_cr i (x ∷ xs) = let later = first_cr (suc i) xs in if nat_eqb x 13 then some i else later

-- `FindCRLF_SSE42` over the chunk at `i`: the first '\r' counts alone, and not in the last byte.
unfoldable pub chunk : Bytes → ℕ → Option ℕ
unfolding first_cr
chunk text i = elim (first_cr 0 (take 16 (drop i text))) [
  | none ↦ none
  | some p ↦ elim (get_elem? text (i + p + 1)) [
    | none ↦ none
    | some b ↦ if ltb p 15 then (if nat_eqb b 10 then some (i + p) else none) else none
  ]
]

-- Its loop, `i + 16 <= size - 1`, with the chunks left to visit.
unfoldable pub chunks : ℕ → Bytes → ℕ → Option ℕ
unfolding chunk
chunks zero text i = none
chunks (suc n) text i =
    let later = chunks n text (i + 16) in elim (chunk text i) [ none ↦ later | some p ↦ some p ]

-- `FindCRLF` for a size of at least 2.
unfoldable pub find_crlf : Bytes → Option ℕ
unfolding chunks scalar
find_crlf text =
    let size = length text in
    let processed = size / 16 * 16 in
    let tail : Option ℕ = elim (scalar 0 (drop processed text)) [
      | none ↦ none
      | some p ↦ some (processed + p)
    ] in
    if ltb size 2
    then none
    else if ltb size 16
    then scalar 0 text
    else elim (chunks ((size - 1) / 16) text 0) [
      | some p ↦ some p
      | none ↦ if leb (size - 1) processed then none else tail
    ]

-- ===== src/Server/Connection/Pipeline.antt =====
-- The bytes of a connection and the requests in them (`Connection::ProcessCommands`,
-- src/astra/server/worker.hpp).
use astra_db.Prelude.{
  ℕ, zero, suc, ◌+◌, ◌≤◌, ◌<◌, ◌≡◌, refl, ap, false, Option, List, [], ◌∷◌, ◌++◌, map, length, drop,
  drop_of_length-le, Bytes, leb, arith, Option-cases, Bool-cases, inl, inr,
}
use astra_db.Prelude.Int.{pos}
use astra_db.Protocol.Builder.{Formats}
use astra_db.Protocol.Parser.{parse, has_complete_value, max_int32}
use astra_db.Protocol.Parser.Request.{parse_command, parse_command_from_array}
use astra_db.Protocol.Parser.RoundTrip.{IsDecimal, written, InRange}
use astra_db.Protocol.Types
use astra_db.Protocol.Types.{Command}
use astra_db.Server.Connection.{Connection, read_loop, compact, process_commands}

-- The bytes that are there and not consumed.
abbrev pub pending : Connection → Bytes
pending c = drop c.receive_buffer_offset_ c.receive_buffer_

pub record IsValid (c : Connection) : Type 0 where
  pub within : c.receive_buffer_offset_ ≤ length c.receive_buffer_

pub drop-drop : {A : Type 0} (m n : ℕ) (xs : List A) → drop (m + n) xs ≡ drop n (drop m xs)
drop-drop zero n xs = ap (λ k. drop k xs) (omega arith)
drop-drop (suc m) zero [] = let e : suc m + 0 ≡ suc m = omega arith in rw e refl
drop-drop (suc m) (suc n) [] = let e : suc m + suc n ≡ suc (m + suc n) = omega arith in rw e refl
drop-drop (suc m) n (x ∷ xs) =
    let e : suc m + n ≡ suc (m + n) = omega arith in rw e (drop-drop m n xs)

pub drop-append_of_le :
    {A : Type 0} (n : ℕ) (xs ys : List A) → n ≤ length xs → drop n (xs ++ ys) ≡ drop n xs ++ ys
drop-append_of_le zero xs ys h = refl
drop-append_of_le (suc n) [] ys h = absurd (omega arith)
drop-append_of_le (suc n) (x ∷ xs) ys h = drop-append_of_le n xs ys (omega arith)

pub compact-pending :
    (offset : ℕ) (buffer : Bytes)
    → offset ≤ length buffer
    → (pending (compact false offset buffer) ≡ drop offset buffer)
      × IsValid (compact false offset buffer)
unfolding compact
compact-pending offset buffer h =
    let all = drop_of_length-le offset buffer in
    (ground (arith, all), record { within = ground arith })

module _ (fmt : Formats) (find : Bytes → Option ℕ) where
  -- No input makes the loop report a protocol error: it asks `HasCompleteValue` only after `Parse`
  -- has failed, and `HasCompleteValue` is whether `Parse` succeeds.
  pub no_protocol_error :
      (fuel : ℕ) (t : Bytes) → (read_loop fmt find fuel t).protocol_error ≡ false
  unfolding read_loop
  no_protocol_error zero t = refl
  no_protocol_error (suc fuel) [] = refl
  no_protocol_error (suc fuel) (c ∷ t) =
      elim (Option-cases (parse_command_from_array fmt find (c ∷ t))) [
        | inr ((command, rest), e) ↦ rw (e, read_loop) (no_protocol_error fuel rest)
        | inl e ↦ elim (Option-cases (parse fmt find (length (c ∷ t)) (c ∷ t))) [
          | inl f ↦
              let g : has_complete_value fmt find (c ∷ t) ≡ false =
                rw (f, has_complete_value) refl in
              rw (e, f, g, read_loop) refl
          | inr ((value, rest), f) ↦ elim (Option-cases (parse_command fmt find value)) [
            | inl g ↦ rw (e, f, g, read_loop) (no_protocol_error fuel rest)
            | inr (command, g) ↦ rw (e, f, g, read_loop) (no_protocol_error fuel rest)
          ]
        ]
      ]

  pub process_lem :
      (c : Connection)
      → (process_commands fmt find c).0 ≡ read_loop fmt find (length (pending c)) (pending c)
  unfolding process_commands read_loop
  process_lem c = elim (Bool-cases (leb (length c.receive_buffer_) c.receive_buffer_offset_)) [
    | inl p ↦
        let empty : pending c ≡ [] =
          drop_of_length-le c.receive_buffer_offset_ c.receive_buffer_ (ground arith) in
        rw (p, empty, process_commands) refl
    | inr p ↦ rw (p, process_commands) refl
  ]

  abbrev Request : Type 0
  Request = Bytes × List Bytes

  module _ (decimal : (n : ℕ) → IsDecimal n (fmt.of_integer (pos n))) where
    -- Requests as clients write them, one behind the other.
    abbrev pub stream : List Request → Bytes
    stream [] = []
    stream ((name, args) ∷ requests) = written fmt find decimal name args ++ stream requests

    abbrev pub Writable : List Request → Type 0
    Writable [] = Unit {0}
    Writable ((name, args) ∷ requests) =
        InRange fmt find decimal (name ∷ args) × (length args < max_int32) × Writable requests

    abbrev pub asked : List Request → List Command
    asked = map (λ r. record { name = r.0; args = map Types.of_string r.1 })

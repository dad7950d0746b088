-- ===== src/Server/Connection/Rounds.antt =====
-- The rounds of the loop of `Connection::ProcessCommands` (src/astra/server/worker.hpp) on any
-- input: it ends, and what it does not consume is kept.
use astra_db.Prelude.{
  ℕ, zero, suc, ◌+◌, ◌≤◌, ◌≡◌, refl, ap, ◌∙◌, false, Option, [], ◌∷◌, ◌++◌, length, drop,
  length-append, length-drop, drop_of_length-le, Bytes, leb, arith, Option-cases, Bool-cases, inl,
  inr,
}
use astra_db.Protocol.Builder.{Formats}
use astra_db.Protocol.Parser.{parse, has_complete_value}
use astra_db.Protocol.Parser.Progress.{command_leaves_fewer}
use astra_db.Protocol.Parser.Request.{parse_command, parse_command_from_array}
use astra_db.Protocol.Parser.Shrinks.{parse_leaves_fewer}
use astra_db.Server.Connection.{Connection, read_loop, compact, process_commands, receive}
use astra_db.Server.Connection.Pipeline.{
  pending, IsValid, drop-drop, drop-append_of_le, compact-pending, process_lem, no_protocol_error,
}

module _ (fmt : Formats) (find : Bytes → Option ℕ) where
  -- With fuel for every byte the loop comes to its end: more fuel changes nothing. It consumes no
  -- more than there is.
  pub loop_ends :
      (f g : ℕ) (t : Bytes)
      → length t ≤ f
      → length t ≤ g
      → (read_loop fmt find f t ≡ read_loop fmt find g t)
        × ((read_loop fmt find f t).total_consumed ≤ length t)
  unfolding read_loop
  loop_ends zero zero [] hf hg = (refl, omega arith)
  loop_ends zero (suc g) [] hf hg = (refl, omega arith)
  loop_ends (suc f) zero [] hf hg = (refl, omega arith)
  loop_ends (suc f) (suc g) [] hf hg = (refl, omega arith)
  loop_ends zero g (c ∷ t) hf hg = absurd (omega arith)
  loop_ends (suc f) zero (c ∷ t) hf hg = absurd (omega arith)
  loop_ends (suc f) (suc g) (c ∷ t) hf hg =
      elim (Option-cases (parse_command_from_array fmt find (c ∷ t))) [
        | inr ((command, rest), e) ↦
            let fewer = command_leaves_fewer fmt find (c ∷ t) (command, rest) e in
            let (same, within) = loop_ends f g rest (omega arith) (omega arith) in
            rw (e, read_loop) (rw (← same) refl, omega arith)
        | inl e ↦ elim (Option-cases (parse fmt find (length (c ∷ t)) (c ∷ t))) [
          | inl k ↦
              let no : has_complete_value fmt find (c ∷ t) ≡ false =
                rw (k, has_complete_value) refl in
              rw (e, k, no, read_loop) (refl, omega arith)
          | inr ((value, rest), k) ↦
              let fewer = parse_leaves_fewer fmt find (length (c ∷ t)) (c ∷ t) (value, rest) k in
              let (same, within) = loop_ends f g rest (omega arith) (omega arith) in
              elim (Option-cases (parse_command fmt find value)) [
                | inl u ↦ rw (e, k, u, read_loop) (rw (← same) refl, omega arith)
                | inr (command, u) ↦ rw (e, k, u, read_loop) (rw (← same) refl, omega arith)
              ]
        ]
      ]

  process_keeps :
      (c : Connection)
      → IsValid c
      → (pending (process_commands fmt find c).1
          ≡ drop (read_loop fmt find (length (pending c)) (pending c)).total_consumed (pending c))
        × IsValid (process_commands fmt find c).1
  unfolding process_commands read_loop
  process_keeps c valid =
      let off = c.receive_buffer_offset_ in
      let buffer = c.receive_buffer_ in
      let total = (read_loop fmt find (length (pending c)) (pending c)).total_consumed in
      let within : total ≤ length (pending c) =
        (loop_ends (length (pending c)) (length (pending c)) (pending c) (omega arith)
          (omega arith)).1 in
      let (kept, bounded) =
        compact-pending (off + total) buffer
          (omega (arith, within, length-drop off buffer, valid.within)) in
      let fine = no_protocol_error fmt find (length (pending c)) (pending c) in
      elim (Bool-cases (leb (length buffer) off)) [
        | inl p ↦
            let empty : pending c ≡ [] = drop_of_length-le off buffer (ground arith) in
            rw (p, empty, process_commands) (refl, record { within = omega arith })
        | inr p ↦ rw (p, fine, process_commands) (kept ∙ drop-drop off total buffer, bounded)
      ]

  -- One read: with the bytes that were not consumed before and the new ones, the loop runs over
  -- all of them, whatever the state of the buffer. It consumes no more than there is, it never
  -- reports a protocol error, and afterwards exactly the bytes that it did not consume are there:
  -- none is lost, none is read twice, and the offset is within the buffer again.
  pub receive_keeps :
      (c : Connection) (chunk : Bytes)
      → c.receive_buffer_offset_ ≤ length c.receive_buffer_
      → let there = pending c ++ chunk in
        let r = receive fmt find chunk c in
        (r.0 ≡ read_loop fmt find (length there) there)
        × (r.0.total_consumed ≤ length there)
        × (r.0.protocol_error ≡ false)
        × (pending r.1 ≡ drop r.0.total_consumed there)
        × (r.1.receive_buffer_offset_ ≤ length r.1.receive_buffer_)
  unfolding receive
  receive_keeps c chunk h =
      let kept = compact false c.receive_buffer_offset_ c.receive_buffer_ in
      let (same, valid) = compact-pending c.receive_buffer_offset_ c.receive_buffer_ h in
      let longer = length-append kept.receive_buffer_ chunk in
      let c' : Connection = record kept { receive_buffer_ = kept.receive_buffer_ ++ chunk } in
      let whole : pending c' ≡ pending c ++ chunk =
        drop-append_of_le kept.receive_buffer_offset_ kept.receive_buffer_ chunk valid.within
        ∙ ap (λ p. p ++ chunk) same in
      let (left, bounded) =
        process_keeps c' (record { within = omega (arith, longer, valid.within) }) in
      let there = pending c ++ chunk in
      let read : (process_commands fmt find c').0 ≡ read_loop fmt find (length there) there =
        process_lem fmt find c' ∙ ap (λ p. read_loop fmt find (length p) p) whole in
      (
        read,
        rw read (loop_ends (length there) (length there) there (omega arith) (omega arith)).1,
        rw read (no_protocol_error fmt find (length there) there),
        rw read (left ∙ ap (λ p. drop (read_loop fmt find (length p) p).total_consumed p) whole),
        bounded.within,
      )

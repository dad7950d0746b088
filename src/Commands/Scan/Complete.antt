-- ===== src/Commands/Scan/Complete.antt =====
-- A whole scan (src/astra/commands/scan_manager.hpp): a client calls `GetNextBatch` with the cursor
-- that it got last, until that is 0.
use astra_db.Prelude.{
  ℕ, zero, suc, ◌+◌, ◌-◌, ◌%◌, ◌^◌, min, ◌≤◌, ◌<◌, ◌≡◌, refl, Bool, true, false, none, some, List,
  [], ◌∷◌, ◌++◌, length, take, drop, nat_eq, nat_eqb, leb, if◌then◌else◌, arith, Bool-cases, inl,
  inr, take-append-drop, length-drop, drop_of_length-le, take_of_length-le,
}
use astra_db.Abseil.{FlatHashMap}
use astra_db.Commands.Scan.{ScanState, ScanStateManager, start_scan, get_next_batch}

module _ {K : Type 0} (H : FlatHashMap ℕ (ScanState K)) (count : ℕ) where
  -- The client's loop; the number bounds its calls. The keys that it got, whether it got the
  -- cursor 0, and the manager afterwards.
  unfoldable pub drain : ℕ → ℕ → ScanStateManager H → (List K × Bool) × ScanStateManager H
  drain zero cursor m = (([], false), m)
  drain (suc calls) cursor m =
      let r = get_next_batch H cursor count m in
      let more = drain calls r.0.0 r.1 in
      if nat_eqb r.0.0 0 then ((r.0.1, true), r.1) else ((r.0.1 ++ more.0.0, more.0.1), more.1)

  take-nil : (n : ℕ) → take {A = K} n [] ++ [] ≡ []
  take-nil zero = refl
  take-nil (suc n) = refl

  take-drop_step :
      (p n : ℕ) (keys : List K) → take n (drop p keys) ++ drop (p + n) keys ≡ drop p keys
  take-drop_step zero n keys = let e : 0 + n ≡ n = omega arith in rw e (take-append-drop n keys)
  take-drop_step (suc p) n [] = let e : suc p + n ≡ suc (p + n) = omega arith in rw e (take-nil n)
  take-drop_step (suc p) n (x ∷ keys) =
      let e : suc p + n ≡ suc (p + n) = omega arith in rw e (take-drop_step p n keys)

  -- The session of a scan of `keys` with the number `id`, at the position p.
  abbrev session : List K → ℕ → ℕ → ScanState K
  session keys id p = record { all_keys = keys; current_position = p; scan_id = id }

  module _ (keys : List K) (id p : ℕ) (m : ScanStateManager H)
      (there : H.find m.scan_states_ id ≡ some (session keys id p)) (named : 0 < id)
      (fits : length keys + count < 2 ^ 64) (inside : p ≤ length keys) where
    next_last :
        length keys ≤ p + count
        → ((get_next_batch H id count m).0 ≡ (0, drop p keys))
          × (H.find (get_next_batch H id count m).1.scan_states_ id ≡ none)
    unfolding get_next_batch
    next_last h =
        let moved = session keys id (length keys) in
        let end : min ((p + count) % 2 ^ 64) (length keys) ≡ length keys = omega arith in
        let whole =
          take_of_length-le (length keys - p) (drop p keys) (omega (arith, length-drop p keys)) in
        let kept = H.insert_or_assign id moved m.scan_states_ in
        (
          ground (arith, end, whole, drop_of_length-le p keys),
          ground (arith, end, H.find-erase id m.scan_states_ id, H.find-erase id kept id),
        )

    next_more :
        p + count < length keys
        → ((get_next_batch H id count m).0 ≡ (id, take count (drop p keys)))
          × (H.find (get_next_batch H id count m).1.scan_states_ id
              ≡ some (session keys id (p + count)))
    unfolding get_next_batch
    next_more h =
        let moved = session keys id (p + count) in
        let end : min ((p + count) % 2 ^ 64) (length keys) ≡ p + count = omega arith in
        let size : p + count - p ≡ count = omega arith in
        (ground (arith, end, size), ground (arith, end, H.find-insert id moved m.scan_states_ id))

  drain_from :
      (calls : ℕ) (keys : List K) (id p : ℕ) (m : ScanStateManager H)
      → H.find m.scan_states_ id ≡ some (session keys id p)
      → 0 < id
      → 0 < count
      → length keys + count < 2 ^ 64
      → p ≤ length keys
      → length keys - p < calls
      → ((drain calls id m).0.0 ≡ drop p keys)
        × ((drain calls id m).0.1 ≡ true)
        × (H.find (drain calls id m).1.scan_states_ id ≡ none)
  unfolding drain
  drain_from zero keys id p m there h0 h1 h2 h3 h4 = absurd (omega arith)
  drain_from (suc calls) keys id p m there h0 h1 h2 h3 h4 =
      elim (Bool-cases (leb (length keys) (p + count))) [
        | inl last ↦ ground (arith, next_last keys id p m there h0 h2 h3)
        | inr more ↦
            let (got, kept) = next_more keys id p m there h0 h2 h3 (ground arith) in
            let m' = (get_next_batch H id count m).1 in
            let ih =
              drain_from calls keys id (p + count) m' kept h0 h1 h2 (ground arith) (ground arith) in
            ground (arith, got, ih, take-drop_step p count keys)
      ]

  -- A scan of `keys` by batches of `count` > 0 ends: with more calls than there are keys, the
  -- client gets the cursor 0, has got each key exactly once and in order, and the manager has
  -- forgotten the session. (The counter of sessions and the positions must not wrap.)
  pub scan_completes :
      (keys : List K) (m : ScanStateManager H) (calls : ℕ)
      → 0 < count
      → m.next_scan_id_ + 1 < 2 ^ 64
      → length keys + count < 2 ^ 64
      → length keys < calls
      → let (id, m') = start_scan H keys m in
        ((drain calls id m').0.0 ≡ keys)
        × ((drain calls id m').0.1 ≡ true)
        × (H.find (drain calls id m').1.scan_states_ id ≡ none)
  unfolding start_scan
  scan_completes keys m calls positive ids fits enough =
      let id = (m.next_scan_id_ + 1) % 2 ^ 64 in
      let t = H.find-insert id (session keys id 0) m.scan_states_ id in
      drain_from calls keys id 0 (start_scan H keys m).1 (ground (arith, t)) (omega arith) positive
        fits (omega arith) (omega arith)

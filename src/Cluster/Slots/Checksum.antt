-- ===== src/Cluster/Slots/Checksum.antt =====
-- The table of the CRC (src/astra/cluster/shard_manager.hpp, `CRC16`) against the polynomial that it is
-- made from: that of XMODEM, 0x1021, which Redis uses for its slots.
use astra_db.Prelude.{
  ℕ, zero, suc, ◌*◌, ◌/◌, ◌%◌, ◌^◌, ◌<◌, ◌≡◌, ◌↔◌, refl, sym, ap, ◌∙◌, ltb→lt, lt→ltb, Bool, true,
  Bool-cases, inl, inr, not, false, ◌&&◌, [], ◌∷◌, Bytes, nat_eqb, nat_eqb_iff, ltb, leb,
  if◌then◌else◌, arith,
}
use Prim.Native.Nat.{bit_xor}
use astra_db.Cluster.Slots.{table_entry, crc16_step, crc16_loop, crc16, calculate}

-- Eight steps of the shift register.
unfoldable pub shift : ℕ → ℕ → ℕ
shift zero r = r
shift (suc n) r =
    let next = if leb (2 ^ 15) r then bit_xor (r * 2) 0x1021 % 2 ^ 16 else r * 2 in shift n next

unfoldable pub entry : ℕ → ℕ
unfolding shift
entry i = shift 8 (i * 256)

abbrev as_made : ℕ → Bool
as_made i = nat_eqb (table_entry i) (entry i)

same_bool : Bool → Bool → Bool
same_bool true b = b
same_bool false b = not b

same_bool_lem : (a b : Bool) → same_bool a b ≡ true → a ≡ b
unfolding same_bool
same_bool_lem a b h = ground arith

-- The first `n` entries are as made exactly up to 208.
compared : ℕ → Bool
compared zero = true
compared (suc n) = compared n && same_bool (as_made n) (ltb n 208)

compared_lem : (i n : ℕ) → compared n ≡ true → i < n → as_made i ≡ ltb i 208
unfolding compared
compared_lem i zero h inside = absurd (omega arith)
compared_lem i (suc n) h inside = elim (Bool-cases (nat_eqb i n)) [
  | inl last ↦
      let e : i ≡ n = (nat_eqb_iff i n).0 last in
      rw e (same_bool_lem (as_made n) (ltb n 208) (ground arith))
  | inr before ↦ compared_lem i n (ground arith) (ground arith)
]

table_run : compared 256 ≡ true
unfolding compared same_bool entry
table_run = refl

entry_lem : (i : ℕ) → i < 256 → as_made i ≡ ltb i 208
entry_lem i h = compared_lem i 256 table_run h

-- The checksum from the polynomial, a byte at a time.
unfoldable pub made_step : ℕ → ℕ → ℕ
made_step crc byte = bit_xor (crc * 256) (entry (bit_xor (crc / 256) byte)) % 2 ^ 16

unfoldable pub made_loop : ℕ → Bytes → ℕ
made_loop crc [] = crc
made_loop crc (byte ∷ text) = made_loop (made_step crc byte) text

-- Every entry that the checksum looks up on the way is one of the first 208.
unfoldable pub low : ℕ → Bytes → Bool
low crc [] = true
low crc (byte ∷ text) = ltb (bit_xor (crc / 256) byte) 208 && low (made_step crc byte) text

loop_lem : (text : Bytes) (crc : ℕ) → low crc text ≡ true → crc16_loop crc text ≡ made_loop crc text
unfolding low crc16_loop made_loop
loop_lem [] crc h = refl
loop_lem (byte ∷ text) crc h =
    let i = bit_xor (crc / 256) byte in
    let below : i < 208 = ground arith in
    let same : table_entry i ≡ entry i =
      (nat_eqb_iff (table_entry i) (entry i)).0 (entry_lem i (omega arith) ∙ ground arith) in
    let step : crc16_step crc byte ≡ made_step crc byte =
      unfold crc16_step made_step in rw same refl in
    rw step (loop_lem text (made_step crc byte) (ground arith))

-- The table is the one made from the polynomial in its first 208 entries, and in none of the 48
-- others. The slot of a key is that of the polynomial's checksum if the checksum looks up none of
-- those.
pub table_lem :
    (i : ℕ) (key : Bytes)
    → i < 256
    → low 0 key ≡ true
    → ((table_entry i ≡ entry i) ↔ (i < 208)) × (calculate key ≡ made_loop 0 key % 16384)
unfolding calculate crc16
table_lem i key h good = (
  (
    λ same. ltb→lt i 208 (sym (entry_lem i h) ∙ (nat_eqb_iff (table_entry i) (entry i)).1 same),
    λ below. (nat_eqb_iff (table_entry i) (entry i)).0 (entry_lem i h ∙ lt→ltb i 208 below),
  ),
  ap (λ crc. crc % 16384) (loop_lem key 0 good),
)

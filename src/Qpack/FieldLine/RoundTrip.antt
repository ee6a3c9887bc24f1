-- ===== src/Qpack/FieldLine/RoundTrip.antt =====
-- Field lines are told apart by their first byte and read back.
use h.Prelude.{ℕ, ◌*◌, ◌/◌, ◌%◌, ◌^◌, ◌≤◌, ◌<◌, ◌≡◌, arith, bit_and}
use h.Prelude.{List, ◌∷◌, ◌++◌, some, ok}
use h.Prelude.Bits.{bit_and_field}
use h.Qpack.PrefixInt.RoundTrip.{decode-encode_int, encode-first}
use h.Qpack.FieldLine.{
  indexed, indexed_with_post_base, literal_with_name_ref, literal_with_post_base_name_ref, literal,
  header_block_field, Indexed, static, dynamic, decode_indexed, encode_indexed, decode_post_base,
  encode_post_base,
}

-- The kinds of field lines by the number that the first byte of one is at least.
pub header_block_field-kind :
    (first : ℕ)
    → first < 256
    → (first < 16 → header_block_field first ≡ literal_with_post_base_name_ref)
      × (16 ≤ first → first < 32 → header_block_field first ≡ indexed_with_post_base)
      × (32 ≤ first → first < 64 → header_block_field first ≡ literal)
      × (64 ≤ first → first < 128 → header_block_field first ≡ literal_with_name_ref)
      × (128 ≤ first → header_block_field first ≡ indexed)
unfolding header_block_field
header_block_field-kind first h = (
  λ a. ground (arith, high first, nibble first, two first, three first),
  λ a b. ground (arith, high first, nibble first, two first, three first),
  λ a b. ground (arith, high first, nibble first, two first, three first),
  λ a b. ground (arith, high first, nibble first, two first, three first),
  λ a. ground (arith, high first, nibble first, two first, three first),
)
  where
    high : (b : ℕ) → bit_and b 128 ≡ b / 128 % 2 * 128
    high b = bit_and_field 7 1 b

    nibble : (b : ℕ) → bit_and b 240 ≡ b / 16 % 16 * 16
    nibble b = bit_and_field 4 4 b

    two : (b : ℕ) → bit_and b 192 ≡ b / 64 % 4 * 64
    two b = bit_and_field 6 2 b

    three : (b : ℕ) → bit_and b 224 ≡ b / 32 % 8 * 32
    three b = bit_and_field 5 3 b

abbrev pub index_of : Indexed → ℕ
index_of (static i) = i
index_of (dynamic i) = i

-- An indexed field line with an index below 2^63 starts with a byte that says so and is read back,
-- whatever follows it.
pub decode-encode_indexed :
    (x : Indexed) (bs rest : List ℕ)
    → index_of x < 2 ^ 63
    → encode_indexed x ≡ some bs
    → (decode_indexed (bs ++ rest) ≡ (ok x, rest))
      × ((first : ℕ) × (cs : List ℕ) × (bs ≡ first ∷ cs) × (header_block_field first ≡ indexed))
unfolding encode_indexed decode_indexed
decode-encode_indexed (static i) bs rest h e =
    let (first, cs, b, k, q) = encode-first 6 3 i bs (omega arith) (omega arith) e in
    let d = decode-encode_int 6 3 i bs rest (omega arith) (omega arith) (omega arith) e in
    (ground (arith, d), (first, cs, b, (header_block_field-kind first q).4 (omega (arith, k))))
decode-encode_indexed (dynamic i) bs rest h e =
    let (first, cs, b, k, q) = encode-first 6 2 i bs (omega arith) (omega arith) e in
    let d = decode-encode_int 6 2 i bs rest (omega arith) (omega arith) (omega arith) e in
    (ground (arith, d), (first, cs, b, (header_block_field-kind first q).4 (omega (arith, k))))

-- A field line with an index below 2^63 behind the base starts with a byte that says so and is read
-- back, whatever follows it.
pub decode-encode_post_base :
    (i : ℕ) (bs rest : List ℕ)
    → i < 2 ^ 63
    → encode_post_base i ≡ some bs
    → (decode_post_base (bs ++ rest) ≡ (ok i, rest))
      × ((first : ℕ) × (cs : List ℕ) × (bs ≡ first ∷ cs)
          × (header_block_field first ≡ indexed_with_post_base))
unfolding encode_post_base decode_post_base
decode-encode_post_base i bs rest h e =
    let (first, cs, b, k, q) = encode-first 4 1 i bs (omega arith) (omega arith) e in
    let d = decode-encode_int 4 1 i bs rest (omega arith) (omega arith) (omega arith) e in
    (
      ground (arith, d),
      (first, cs, b, (header_block_field-kind first q).1 (omega (arith, k)) (omega (arith, k))),
    )

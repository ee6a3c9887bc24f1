-- ===== src/Qpack/Huffman/Decoder.antt =====
-- h3/src/qpack/prefix_string/decode.rs: the decoder of Huffman coded strings.
use h.Prelude.{
  ℕ, zero, suc, ◌+◌, ◌-◌, ◌*◌, ◌/◌, ◌^◌, bit_and, ◌||◌, List, [], ◌∷◌, Option, none, some,
}
use h.Prelude.{
  Outcome, ok, err, panic, length, get_elem?, ltb, leb, ◌==◌, if◌then◌else◌, u8, u16, u32, u32_max,
  Bool,
}
use h.Qpack.Huffman.{BitWindow, forwards, opposite_bit_window}

pub data HuffmanError : Type 0 where
  missing_bits : BitWindow → HuffmanError
  unhandled : BitWindow → ℕ → HuffmanError

-- `HuffmanDecoder`, and its table of `DecodeValue`s, each a `Sym` or a `Partial`.
mutual
  pub data HuffmanDecoder : Type 0 where
    decoder : ℕ → DecodeTable → HuffmanDecoder

  pub data DecodeTable : Type 0 where
    no_more : DecodeTable
    sym : ℕ → DecodeTable → DecodeTable
    partial : HuffmanDecoder → DecodeTable → DecodeTable

-- The bits from one byte: what the shift drops of a `u8` is gone.
unfoldable pub in_byte : Option ℕ → ℕ → ℕ → Outcome (Unit {0}) ℕ
in_byte (some b) bit len = ok (u8 (b * 2 ^ bit) / 2 ^ (8 - len))
in_byte none bit len = panic

-- The bits that span two bytes, in a `u16`.
unfoldable pub in_two_bytes : Option ℕ → Option ℕ → ℕ → ℕ → Outcome (Unit {0}) ℕ
in_two_bytes (some b) (some c) bit len = ok (u8 (u16 ((b * 2 ^ 8 + c) * 2 ^ bit) / 2 ^ (16 - len)))
in_two_bytes none c bit len = panic
in_two_bytes (some b) none bit len = panic

-- The sums of the test of the range, which are in a `u32`.
abbrev pub range_overflows : ℕ → ℕ → ℕ → ℕ → Bool
range_overflows n byte_offset bit_offset len =
    ltb u32_max (u32 n * 8) || ltb u32_max (byte_offset * 8 + bit_offset + len)

unfoldable pub read_bits : List ℕ → ℕ → ℕ → ℕ → Outcome (Unit {0}) ℕ
unfolding in_byte in_two_bytes
read_bits src byte_offset bit_offset len =
    if len == 0 || ltb 8 len
    then err tt
    else if range_overflows (length src) byte_offset bit_offset len
    then panic
    else if ltb (u32 (length src) * 8) (byte_offset * 8 + bit_offset + len)
    then err tt
    else (let byte = byte_offset + bit_offset / 8 in
        let bit = bit_offset - bit_offset / 8 * 8 in
        if leb (bit + len) 8
        then in_byte (get_elem? src byte) bit len
        else in_two_bytes (get_elem? src byte) (get_elem? src (byte + 1)) bit len)

-- What is left of the last byte ends the string if it is all ones.
unfoldable pub on_rest :
    Outcome (Unit {0}) ℕ → BitWindow → BitWindow → Outcome HuffmanError (Option ℕ)
on_rest (ok rest) side pos =
    let eof_filler = u8 (2 * 2 ^ (side.count - 1) - 1) in
    if bit_and rest eof_filler == eof_filler then ok none else err (missing_bits pos)
on_rest (err e) side pos = err (missing_bits side)
on_rest panic side pos = panic

unfoldable pub check_eof : BitWindow → List ℕ → Outcome HuffmanError (Option ℕ)
unfolding read_bits on_rest opposite_bit_window
check_eof pos input =
    if ltb (length input) (pos.byte + 1)
    then ok none
    else if pos.byte + 1 == length input
    then (let side = opposite_bit_window pos in
        on_rest (read_bits input side.byte side.bit side.count) side pos)
    else err (missing_bits pos)

unfoldable pub fetch_value : BitWindow → List ℕ → Outcome HuffmanError (Option ℕ)
unfolding check_eof read_bits
fetch_value pos input = elim (read_bits input pos.byte pos.bit pos.count) [
  | ok value ↦ ok (some value)
  | err e ↦ check_eof pos input
  | panic ↦ panic
]

-- `decode_next`, with the window behind it. `lookup_value` is what follows `table.get(value)`.
unfoldable mutual
  pub decode_next :
      HuffmanDecoder → BitWindow → List ℕ → Outcome HuffmanError (Option ℕ) × BitWindow
  decode_next (decoder lookup table) pos input =
      let w = forwards lookup pos in
      elim (fetch_value w input) [
        | ok (some value) ↦ lookup_value table value value w input
        | ok none ↦ (ok none, w)
        | err e ↦ (err e, w)
        | panic ↦ (panic, w)
      ]

  pub lookup_value :
      DecodeTable → ℕ → ℕ → BitWindow → List ℕ → Outcome HuffmanError (Option ℕ) × BitWindow
  lookup_value no_more n value pos input = (err (unhandled pos value), pos)
  lookup_value (sym x table) zero value pos input = (ok (some x), pos)
  lookup_value (sym x table) (suc n) value pos input = lookup_value table n value pos input
  lookup_value (partial d table) zero value pos input = decode_next d pos input
  lookup_value (partial d table) (suc n) value pos input = lookup_value table n value pos input

abbrev pub cons_ok : ℕ → Outcome HuffmanError (List ℕ) → Outcome HuffmanError (List ℕ)
cons_ok x (ok xs) = ok (x ∷ xs)
cons_ok x (err e) = err e
cons_ok x panic = panic

-- Collecting what `DecodeIter` gives until it ends or fails, for `fuel` steps.
unfoldable pub collect : HuffmanDecoder → ℕ → BitWindow → List ℕ → Outcome HuffmanError (List ℕ)
collect d zero pos input = panic
collect d (suc fuel) pos input =
    let r = decode_next d pos input in
    let rest = collect d fuel r.1 input in
    elim r.0 [ ok (some x) ↦ cons_ok x rest | ok none ↦ ok [] | err e ↦ err e | panic ↦ panic ]

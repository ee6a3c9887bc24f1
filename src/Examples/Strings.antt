-- ===== src/Examples/Strings.antt =====
-- Strings and the fields that hold them at concrete inputs.
use h.Prelude.{
  ℕ, ◌+◌, ◌*◌, ◌≤◌, ◌<◌, ◌≡◌, refl, arith, Bool, true, false, List, [], ◌∷◌, ◌++◌, length, All,
  IsByte, none, some, ok, err,
}
use h.Qpack.Field.{HeaderField, ascii, with_value}
use h.Qpack.Huffman.{BitWindow, start}
use h.Qpack.Huffman.Encoder
use h.Qpack.Huffman.BitString.{bits, bits_of, ones}
use h.Qpack.Huffman.Decoder.{read_bits, range_overflows}
use h.Qpack.Huffman.Encoder.{write_bits}
use h.Qpack.Huffman.Tree.{hpack_decode}
use h.Qpack.Huffman.Codes.{hpack_encode}
use h.Qpack.Huffman.Reading.{read_bits-of_bits}
use h.Qpack.Huffman.Writing.{Written, write_bits-writes}
use h.Qpack.Huffman.Encoding.{message, hpack_encode-message}
use h.Prelude.{◌≢◌, panic}
use h.Qpack.Huffman.Total.{hpack_decode-ne-panic}
use h.Qpack.Stateless.Total.{decode_stateless-ne-panic}
use h.Qpack.Huffman.RoundTrip.{hpack_decode-hpack_encode}
use h.Proto.VarInt
use h.Qpack.PrefixInt
use h.Qpack.Parse.{invalid_prefix}
use h.Qpack.PrefixString
use h.Qpack.PrefixString.RoundTrip.{Reads, decode-encode_string}
use h.Qpack.Insert
use h.Qpack.Insert.{decode_insert_ref, decode_insert_literal}
use h.Qpack.Static
use h.Qpack.DynamicTable
use h.Qpack.Decoder.{insert, parse_instruction}
use h.Qpack.Decoder.Instructions.{by_ref, bytes_of, parse_instruction-bytes_of}
use h.Qpack.Literals.RoundTrip.{IsString}
use h.Qpack.Stateless.{encode_stateless, decode_stateless, header_too_long, total_size}
use h.Qpack.Stateless.Lines.{IsField}
use h.Qpack.Stateless.RoundTrip.{decode_stateless-encode_stateless, decode_stateless-too_long}

-- The bytes of "a value".
abbrev text : List ℕ
text = 97 ∷ 32 ∷ 118 ∷ 97 ∷ 108 ∷ 117 ∷ 101 ∷ []

text-IsByte : All IsByte text
text-IsByte = omega arith

text-IsString : IsString text
text-IsString = (text-IsByte, omega arith)

-- The first test of the code's own.
name_encoded :
    hpack_encode (ascii "name with ref")
    ≡ some (168 ∷ 116 ∷ 149 ∷ 79 ∷ 6 ∷ 76 ∷ 234 ∷ 88 ∷ 89 ∷ 127 ∷ [])
unfolding hpack_encode Encoder.put write_bits start
name_encoded = refl

hpack_decode-hpack_encode_example :
    (out : List ℕ) × (hpack_encode text ≡ some out)
    × All IsByte out
    × (8 * length out ≤ 30 * length text + 7)
    × (hpack_decode out ≡ ok text)
hpack_decode-hpack_encode_example = hpack_decode-hpack_encode text text-IsByte (omega arith)

hpack_encode-message_example :
    (out : List ℕ) × (k : ℕ) × (hpack_encode text ≡ some out)
    × All IsByte out
    × (bits out ≡ message text ++ ones k)
    × (k < 8)
hpack_encode-message_example = hpack_encode-message text text-IsByte (omega arith)

-- The byte 0b10101011, of which the last two bits are not written yet, and one that is not begun.
abbrev begun : List ℕ
begun = 171 ∷ 255 ∷ []

abbrev written : List Bool
written = true ∷ false ∷ true ∷ false ∷ true ∷ false ∷ []

abbrev window : BitWindow
window = record { byte = 0; bit = 6; count = 5 }

write_bits-writes_example :
    Written (write_bits begun window 19) (written ++ (bits_of 5 19 ++ ones 5))
write_bits-writes_example =
    write_bits-writes begun window 19 written 10 (omega arith) refl refl (omega arith) (omega arith)
      (omega arith) (omega arith) (omega arith)

read_bits-of_bits_example : read_bits begun 0 6 4 ≡ ok 15
read_bits-of_bits_example =
    read_bits-of_bits begun 0 6 written (ones 4) (ones 6) (omega arith) (omega arith) refl refl
      (omega arith) (omega arith) (omega arith)

decode-encode_string_example :
    (bs : List ℕ) × (PrefixString.encode 4 2 text ≡ some bs) × Reads 4 2 text bs
decode-encode_string_example =
    decode-encode_string 4 2 text (omega arith) (omega arith) (omega arith) text-IsByte
      (omega arith)

-- A field of the static table, one whose name stands in it, and another.
abbrev three_fields : List HeaderField
three_fields =
    record { name = ascii ":method"; value = ascii "GET" }
    ∷ record { name = ascii ":path"; value = text }
    ∷ record { name = text; value = text }
    ∷ []

three_fields-AreFields : All IsField three_fields
three_fields-AreFields = omega arith

decode_stateless-encode_stateless_example :
    (bs : List ℕ) × (encode_stateless three_fields ≡ some (bs, total_size three_fields))
    × (decode_stateless 200 bs ≡ (
      ok (record { fields = three_fields; dyn_ref = false; mem_size = total_size three_fields }),
      [],
    ))
unfolding total_size
decode_stateless-encode_stateless_example =
    decode_stateless-encode_stateless three_fields 200 three_fields-AreFields (omega arith)

decode_stateless-too_long_example :
    (bs : List ℕ) × (m : ℕ) × (encode_stateless three_fields ≡ some (bs, total_size three_fields))
    × ((decode_stateless 100 bs).0 ≡ err (header_too_long m))
    × (100 < m)
unfolding total_size
decode_stateless-too_long_example =
    decode_stateless-too_long three_fields 100 three_fields-AreFields (omega arith)

-- A byte that no code starts with behind it.
hpack_decode-ne-panic_example : hpack_decode (31 ∷ 12 ∷ []) ≢ panic
hpack_decode-ne-panic_example = hpack_decode-ne-panic (31 ∷ 12 ∷ []) (omega arith)

-- The eight bits behind the last of 2^29 - 1 bytes, where a code of thirty ones ends.
sum_overflows : range_overflows 536870911 536870910 8 8 ≡ true
sum_overflows = refl

-- A literal whose name is said to be longer than the section.
decode_stateless-ne-panic_example : (decode_stateless 100 (0 ∷ 0 ∷ 39 ∷ 200 ∷ 1 ∷ 7 ∷ [])).0 ≢ panic
decode_stateless-ne-panic_example =
    decode_stateless-ne-panic 100 (0 ∷ 0 ∷ 39 ∷ 200 ∷ 1 ∷ 7 ∷ []) (omega arith)

-- The name of the static table's second field with another value.
parse_instruction-bytes_of_example :
    (bs : List ℕ) × (bytes_of (by_ref (Insert.static 1 text)) ≡ some bs)
    × ((rest : List ℕ)
        → parse_instruction DynamicTable.new (bs ++ rest)
          ≡ (ok (some (insert (record { name = ascii ":path"; value = text }))), rest))
unfolding Static.get with_value
parse_instruction-bytes_of_example =
    parse_instruction-bytes_of DynamicTable.new (by_ref (Insert.static 1 text))
      (record { name = ascii ":path"; value = text }) (omega arith, text-IsString)
      (record { name = ascii ":path"; value = ascii "/" }, refl, refl)

-- An insertion whose value is cut off is no instruction yet.
value_cut_off : decode_insert_ref (0b1100_0001 ∷ 0x83 ∷ 0x1c ∷ []) ≡ (ok none, 0x1c ∷ [])
unfolding decode_insert_ref PrefixInt.decode VarInt.get_u8 PrefixInt.decode_first
    PrefixString.decode
value_cut_off = refl

name_cut_off : decode_insert_literal (0b0110_0011 ∷ 0x1c ∷ []) ≡ (ok none, 0x1c ∷ [])
unfolding decode_insert_literal PrefixString.decode PrefixInt.decode VarInt.get_u8
    PrefixInt.decode_first
name_cut_off = refl

no_insertion : decode_insert_ref (0b0000_0001 ∷ []) ≡ (err (invalid_prefix 0), [])
unfolding decode_insert_ref PrefixInt.decode VarInt.get_u8 PrefixInt.decode_first
    PrefixString.decode
no_insertion = refl

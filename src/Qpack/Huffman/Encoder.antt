-- ===== src/Qpack/Huffman/Encoder.antt =====
-- h3/src/qpack/prefix_string/encode.rs: the encoder of Huffman coded strings.
use h.Prelude.{ℕ, zero, suc, ◌+◌, ◌-◌, ◌*◌, ◌/◌, ◌^◌, bit_and, bit_or}
use h.Prelude.{
  List, [], ◌∷◌, ◌++◌, Option, none, some, length, get_elem?, set, ltb, leb, if◌then◌else◌, u8,
}
use h.Qpack.Huffman.{BitWindow, start, forwards}

pub record EncodeValue : Type 0 where
  pub buffer : List ℕ
  pub bit_count : ℕ

pub record HuffmanEncoder : Type 0 where
  pub buffer_pos : BitWindow
  pub buffer : List ℕ

-- `HuffmanEncoder::new`
unfoldable pub new : HuffmanEncoder
new = record { buffer_pos = start; buffer = [] }

-- `n` bytes of ones.
unfoldable pub fillers : ℕ → List ℕ
fillers zero = []
fillers (suc n) = 255 ∷ fillers n

-- The bytes that are pushed up to the end of the range.
unfoldable pub grown : List ℕ → BitWindow → List ℕ
unfolding fillers
grown buffer end_range =
    if ltb end_range.byte (length buffer)
    then buffer
    else buffer ++ fillers (end_range.byte - length buffer + (if ltb 0 end_range.bit then 1 else 0))

unfoldable pub ensure_free_space : ℕ → HuffmanEncoder → HuffmanEncoder
unfolding grown forwards
ensure_free_space bit_count e = record e {
  buffer = grown e.buffer (forwards 0 (forwards bit_count e.buffer_pos));
}

-- `PAD_RIGHT` and `PAD_LEFT`
abbrev pub pad_right : List ℕ
pad_right = 0 ∷ 1 ∷ 3 ∷ 7 ∷ 15 ∷ 31 ∷ 63 ∷ 127 ∷ 255 ∷ []

abbrev pub pad_left : List ℕ
pad_left = 0 ∷ 128 ∷ 192 ∷ 224 ∷ 240 ∷ 248 ∷ 252 ∷ 254 ∷ 255 ∷ []

-- An indexing that panics out of range.
abbrev pub indexed : List ℕ → ℕ → (ℕ → Option (List ℕ)) → Option (List ℕ)
indexed l i k = elim (get_elem? l i) [ none ↦ none | some x ↦ k x ]

-- The bits fit in the byte `out[pos.byte]`.
unfoldable pub write_in_byte : List ℕ → BitWindow → ℕ → Option (List ℕ)
write_in_byte out pos value = indexed out pos.byte λ old. indexed pad_right (8 - pos.bit) λ keep.
    indexed pad_left pos.bit λ left. indexed pad_right (8 - pos.count - pos.bit) λ right.
      (let kept = bit_or old keep in
        let shifted = bit_or (u8 (value * 2 ^ (8 - pos.bit - pos.count))) left in
        some (set out pos.byte (bit_or (bit_and kept shifted) right)))

-- The bits span `out[pos.byte]` and the byte behind it.
unfoldable pub write_in_two : List ℕ → BitWindow → ℕ → Option (List ℕ)
write_in_two out pos value =
    let split = 8 - pos.bit in
    let rem = 8 - (pos.count - split) in
    indexed out pos.byte λ old. indexed pad_right split λ keep. indexed pad_left pos.bit λ left.
      indexed out (pos.byte + 1) λ next. indexed pad_right rem λ right.
        (let kept = bit_or old keep in
          let shifted = bit_or (value / 2 ^ (pos.count - split)) left in
          some (
            set (set out pos.byte (bit_and kept shifted)) (pos.byte + 1)
              (bit_or (u8 (value * 2 ^ rem)) right)))

unfoldable pub write_bits : List ℕ → BitWindow → ℕ → Option (List ℕ)
unfolding write_in_byte write_in_two
write_bits out pos value =
    if leb (pos.bit + pos.count) 8 then write_in_byte out pos value else write_in_two out pos value

-- The loop of `put` over the parts that are left, with `rest` bits in them.
unfoldable pub put_parts : List ℕ → ℕ → HuffmanEncoder → Option HuffmanEncoder
put_parts [] rest e = some e
put_parts (part ∷ parts) rest e =
    let pos = forwards (if ltb rest 8 then rest else 8) e.buffer_pos in
    elim (write_bits e.buffer pos part) [
      | none ↦ none
      | some out ↦ put_parts parts (rest - pos.count) (record { buffer_pos = pos; buffer = out })
    ]

-- `put`, for the code of a byte.
unfoldable pub put : EncodeValue → HuffmanEncoder → Option HuffmanEncoder
unfolding put_parts ensure_free_space
put v e = put_parts v.buffer v.bit_count (ensure_free_space v.bit_count e)

-- The loop of `hpack_encode`, over the table of codes.
unfoldable pub put_all : List EncodeValue → List ℕ → HuffmanEncoder → Option HuffmanEncoder
put_all codes [] e = some e
put_all codes (byte ∷ bytes) e = elim (get_elem? codes byte) [
  | none ↦ none
  | some v ↦ elim (put v e) [ none ↦ none | some f ↦ put_all codes bytes f ]
]

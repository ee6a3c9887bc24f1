-- ===== src/Qpack/PrefixString.antt =====
-- h3/src/qpack/prefix_string/mod.rs: strings with their length in front of them.
pub mod RoundTrip
pub mod Total
use h.Prelude.{
  ℕ, ◌-◌, ◌*◌, bit_and, bit_or, List, length, take, drop, Option, none, some, Outcome, ok, err,
  panic,
}
use h.Prelude.{Reader, ◌>>=◌, map_err, map_error, ltb, ◌==◌, if◌then◌else◌, u8, ◌⊕◌}
use h.Qpack.PrefixInt
use h.Qpack.PrefixInt.{IntError, overflow, unexpected_end as int_end}
use h.Qpack.Huffman.Decoder.{HuffmanError}
use h.Qpack.Huffman.Tree.{hpack_decode}
use h.Qpack.Huffman.Codes.{hpack_encode}

-- `Error`, without the errors of the encoder, which has none, and of casts between integers of 64
-- bits.
pub data StringError : Type 0 where
  unexpected_end : StringError
  integer : IntError → StringError
  huffman_decoding : HuffmanError → StringError

-- `From<IntegerError>`
abbrev pub of_int : IntError → StringError
of_int int_end = unexpected_end
of_int overflow = integer overflow

-- The bytes of the string, as they are or decoded.
unfoldable pub payload_value : ℕ → List ℕ → Outcome StringError (List ℕ)
unfolding hpack_decode
payload_value flags payload =
    if bit_and flags 1 == 0 then ok payload else map_error huffman_decoding (hpack_decode payload)

unfoldable pub take_payload : ℕ → ℕ → Reader StringError (List ℕ)
unfolding payload_value
take_payload flags len buf =
    if ltb (length buf) len
    then (err unexpected_end, buf)
    else (payload_value flags (take len buf), drop len buf)

-- `decode`; a `size` of zero panics.
unfoldable pub decode : ℕ → Reader StringError (List ℕ)
unfolding take_payload
decode size = map_err of_int (PrefixInt.decode (size - 1)) >>= λ r. take_payload r.0 r.1

-- `encode`
unfoldable pub encode : ℕ → ℕ → List ℕ → Option (List ℕ)
unfolding hpack_encode
encode size flags value = elim (hpack_encode value) [
  | none ↦ none
  | some encoded ↦
      (PrefixInt.encode (size - 1) (bit_or (u8 (flags * 2)) 1) (length encoded) ⊕ some encoded)
]

-- ===== src/Qpack/Instruction/RoundTrip.antt =====
-- The encoder understands the instructions that a decoder writes.
use h.Prelude.{ℕ, ◌/◌, ◌^◌, ◌≤◌, ◌<◌, ◌≡◌, arith}
use h.Prelude.{List, ◌++◌, Option, some, ok}
use h.Prelude.Bits.{bit_and_field}
use h.Qpack.PrefixInt.RoundTrip.{decode-encode_int, encode-first}
use h.Qpack.Instruction.{
  Action, received_ref_increment, untrack, stream_cancelled, header_ack, stream_cancel,
  insert_count_increment, decoder_instruction, decode_increment, decode_ack, decode_cancel,
  encode_increment, encode_ack, encode_cancel, parse,
}

-- The bytes of the instruction that asks for an action.
abbrev pub bytes_of : Action → Option (List ℕ)
bytes_of (received_ref_increment n) = encode_increment n
bytes_of (untrack id) = encode_ack id
bytes_of (stream_cancelled id) = encode_cancel id

-- An increment that the encoder accepts, and an id that a prefixed integer holds.
abbrev pub Fits : Action → Type 0
Fits (received_ref_increment n) = n ≤ 64
Fits (untrack id) = id < 2 ^ 63
Fits (stream_cancelled id) = id < 2 ^ 63

-- Every byte starts an instruction, which its first two bits choose.
pub decoder_instruction_kind :
    (first : ℕ)
    → first < 256
    → (first / 64 ≡ 0 → decoder_instruction first ≡ insert_count_increment)
      × (first / 64 ≡ 1 → decoder_instruction first ≡ stream_cancel)
      × (2 ≤ first / 64 → decoder_instruction first ≡ header_ack)
unfolding decoder_instruction
decoder_instruction_kind first h = (
  λ e. ground (arith, bit_and_field 6 2 first, bit_and_field 7 1 first, bit_and_field 6 1 first),
  λ e. ground (arith, bit_and_field 6 2 first, bit_and_field 7 1 first, bit_and_field 6 1 first),
  λ e. ground (arith, bit_and_field 6 2 first, bit_and_field 7 1 first, bit_and_field 6 1 first),
)

-- The acknowledgement, cancellation or increment that a decoder writes is parsed by the encoder as
-- that action, whatever follows it, for an increment of at most 64 and a stream id below 2^63.
pub parse-bytes_of :
    (a : Action) (bs rest : List ℕ)
    → Fits a
    → bytes_of a ≡ some bs
    → parse (bs ++ rest) ≡ (ok (some a), rest)
unfolding parse encode_increment encode_ack encode_cancel decode_increment decode_ack decode_cancel
parse-bytes_of (received_ref_increment n) bs rest h e =
    let (first, cs, b, k, q) = encode-first 6 0 n bs (omega arith) (omega arith) e in
    let d = decode-encode_int 6 0 n bs rest (omega arith) (omega arith) (omega arith) e in
    ground (arith, d, (decoder_instruction_kind first q).0, b)
parse-bytes_of (untrack id) bs rest h e =
    let (first, cs, b, k, q) = encode-first 7 1 id bs (omega arith) (omega arith) e in
    let d = decode-encode_int 7 1 id bs rest (omega arith) (omega arith) (omega arith) e in
    ground (arith, d, (decoder_instruction_kind first q).2, b)
parse-bytes_of (stream_cancelled id) bs rest h e =
    let (first, cs, b, k, q) = encode-first 6 1 id bs (omega arith) (omega arith) e in
    let d = decode-encode_int 6 1 id bs rest (omega arith) (omega arith) (omega arith) e in
    ground (arith, d, (decoder_instruction_kind first q).1, b)

-- ===== src/Qpack/Instruction.antt =====
-- h3/src/qpack/stream.rs: the instructions without a string on the encoder and decoder streams, and
-- `Action::parse` of h3/src/qpack/encoder.rs.
pub mod RoundTrip
use h.Prelude.{
  ℕ, ◌+◌, ◌-◌, ◌*◌, bit_and, List, [], ◌∷◌, ◌++◌, Option, none, some, Bool, true, false, not,
}
use h.Prelude.{Outcome, ok, err, panic, Reader, ltb, leb, ◌==◌, if◌then◌else◌, usize_max}
use h.Qpack.PrefixInt
use h.Qpack.PrefixInt.{IntError, overflow, unexpected_end}
use h.Qpack.PrefixString.{StringError}
use h.Qpack.Parse.{ParseError, integer, string, invalid_prefix, invalid_base}

pub data EncoderInstruction : Type 0 where
  dynamic_table_size_update insert_with_name_ref insert_without_name_ref duplicate unknown :
      EncoderInstruction

-- `EncoderInstruction::decode`
unfoldable pub encoder_instruction : ℕ → EncoderInstruction
encoder_instruction first =
    if not (bit_and first 0b1000_0000 == 0)
    then insert_with_name_ref
    else if bit_and first 0b0100_0000 == 0b0100_0000
    then insert_without_name_ref
    else if bit_and first 0b1110_0000 == 0
    then duplicate
    else if bit_and first 0b0010_0000 == 0b0010_0000
    then dynamic_table_size_update
    else unknown

pub data DecoderInstruction : Type 0 where
  header_ack stream_cancel insert_count_increment unknown : DecoderInstruction

-- `DecoderInstruction::decode`
unfoldable pub decoder_instruction : ℕ → DecoderInstruction
decoder_instruction first =
    if bit_and first 0b1100_0000 == 0
    then insert_count_increment
    else if not (bit_and first 0b1000_0000 == 0)
    then header_ack
    else if bit_and first 0b0100_0000 == 0b0100_0000
    then stream_cancel
    else DecoderInstruction.unknown

-- The `match prefix_int::decode` of an instruction with the flags `tag`, on the result; `take` is what
-- becomes of the number.
unfoldable pub on_int :
    ℕ
    → (ℕ → Outcome ParseError (Option ℕ))
    → Outcome IntError (ℕ × ℕ)
    → Outcome ParseError (Option ℕ)
on_int tag take (ok (flags, x)) = if flags == tag then take x else err (invalid_prefix flags)
on_int tag take (err unexpected_end) = ok none
on_int tag take (err overflow) = err (integer overflow)
on_int tag take panic = panic

abbrev pub tagged : ℕ → ℕ → (ℕ → Outcome ParseError (Option ℕ)) → Reader ParseError (Option ℕ)
tagged size tag take buf = let r = PrefixInt.decode size buf in (on_int tag take r.0, r.1)

-- A `u64` that has to be a `usize`.
abbrev pub as_usize : ℕ → Outcome ParseError (Option ℕ)
as_usize x = if ltb usize_max x then err (integer overflow) else ok (some x)

unfoldable pub decode_duplicate : Reader ParseError (Option ℕ)
unfolding on_int
decode_duplicate = tagged 5 0 as_usize

unfoldable pub encode_duplicate : ℕ → Option (List ℕ)
encode_duplicate index = PrefixInt.encode 5 0 index

unfoldable pub decode_size_update : Reader ParseError (Option ℕ)
unfolding on_int
decode_size_update = tagged 5 0b001 as_usize

unfoldable pub encode_size_update : ℕ → Option (List ℕ)
encode_size_update size = PrefixInt.encode 5 0b001 size

abbrev pub at_most_64 : ℕ → Outcome ParseError (Option ℕ)
at_most_64 x = if ltb 64 x then err (integer overflow) else ok (some x)

unfoldable pub decode_increment : Reader ParseError (Option ℕ)
unfolding on_int
decode_increment = tagged 6 0b00 at_most_64

unfoldable pub encode_increment : ℕ → Option (List ℕ)
encode_increment count = PrefixInt.encode 6 0b00 count

abbrev pub as_is : ℕ → Outcome ParseError (Option ℕ)
as_is x = ok (some x)

unfoldable pub decode_ack : Reader ParseError (Option ℕ)
unfolding on_int
decode_ack = tagged 7 0b1 as_is

unfoldable pub encode_ack : ℕ → Option (List ℕ)
encode_ack stream_id = PrefixInt.encode 7 0b1 stream_id

unfoldable pub decode_cancel : Reader ParseError (Option ℕ)
unfolding on_int
decode_cancel = tagged 6 0b01 as_is

unfoldable pub encode_cancel : ℕ → Option (List ℕ)
encode_cancel stream_id = PrefixInt.encode 6 0b01 stream_id

-- What the encoder does for an instruction of the decoder.
pub data Action : Type 0 where
  received_ref_increment : ℕ → Action
  untrack : ℕ → Action
  stream_cancelled : ℕ → Action

-- `EncoderError`, without the error of insertion.
pub data EncoderError : Type 0 where
  invalid_integer : IntError → EncoderError
  invalid_string : StringError → EncoderError
  unknown_decoder_instruction : ℕ → EncoderError

-- `From<ParseError> for EncoderError`
abbrev pub encoder_error : ParseError → Outcome EncoderError (Option Action)
encoder_error (integer e) = err (invalid_integer e)
encoder_error (string e) = err (invalid_string e)
encoder_error (invalid_prefix flags) = err (unknown_decoder_instruction flags)
encoder_error (invalid_base n) = panic

-- `?` and `.map(...)` on what an instruction gave, and the advance of `read` behind a whole one.
unfoldable pub on_instruction :
    (ℕ → Action)
    → List ℕ
    → Outcome ParseError (Option ℕ) × List ℕ
    → Outcome EncoderError (Option Action) × List ℕ
on_instruction action read (ok (some x), rest) = (ok (some (action x)), rest)
on_instruction action read (ok none, rest) = (ok none, read)
on_instruction action read (err e, rest) = (encoder_error e, read)
on_instruction action read (panic, rest) = (panic, read)

-- `Action::parse`, for a buffer that is one chunk.
unfoldable pub parse : Reader EncoderError (Option Action)
unfolding on_instruction
parse [] = (ok none, [])
parse (first ∷ r) = elim (decoder_instruction first) [
  | DecoderInstruction.unknown ↦ (err (unknown_decoder_instruction first), first ∷ r)
  | insert_count_increment ↦
      on_instruction received_ref_increment (first ∷ r) (decode_increment (first ∷ r))
  | header_ack ↦ on_instruction untrack (first ∷ r) (decode_ack (first ∷ r))
  | stream_cancel ↦ on_instruction stream_cancelled (first ∷ r) (decode_cancel (first ∷ r))
]

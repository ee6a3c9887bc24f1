-- ===== src/Qpack/Decoder.antt =====
-- h3/src/qpack/decoder.rs: `Decoder::parse_instruction`, the reader of the encoder stream.
pub mod Instructions
use h.Prelude.{
  ℕ, List, [], ◌∷◌, Option, none, some, Outcome, ok, err, panic, Reader, map_error, map_err, ◌>>=◌,
  pure, fail,
}
use mathlib.Core.Option
use h.Qpack.Field.{HeaderField, with_value}
use h.Qpack.Static
use h.Qpack.DynamicTable.{DynamicTable, get_relative}
use h.Qpack.Instruction.{
  EncoderInstruction, dynamic_table_size_update, insert_with_name_ref, insert_without_name_ref,
  duplicate, unknown, encoder_instruction, decode_duplicate, decode_size_update,
}
use h.Qpack.Insert.{InsertWithNameRef, static, dynamic, decode_insert_ref, decode_insert_literal}
use h.Qpack.Stateless.{DecoderError, dynamic_table, unknown_prefix, of_parse_error, of_static_error}

pub data Instruction : Type 0 where
  insert : HeaderField → Instruction
  table_size_update : ℕ → Instruction

-- An instruction to insert what becomes of the field that a lookup gives.
unfoldable pub insert_found :
    (HeaderField → HeaderField)
    → Outcome DecoderError HeaderField
    → Outcome DecoderError (Option Instruction)
insert_found f (ok field) = ok (some (insert (f field)))
insert_found f (err e) = err e
insert_found f panic = panic

unfoldable pub on_duplicate : DynamicTable → Option ℕ → Reader DecoderError (Option Instruction)
unfolding insert_found get_relative
on_duplicate t (some index) buf =
    (insert_found (λ f. f) (map_error dynamic_table (get_relative t index)), buf)
on_duplicate t none buf = (ok none, buf)

unfoldable pub on_insert_ref :
    DynamicTable → Option InsertWithNameRef → Reader DecoderError (Option Instruction)
unfolding insert_found get_relative
on_insert_ref t (some (static index value)) buf =
    (insert_found (λ f. with_value f value) (map_error of_static_error (Static.get index)), buf)
on_insert_ref t (some (dynamic index value)) buf =
    (insert_found (λ f. with_value f value) (map_error dynamic_table (get_relative t index)), buf)
on_insert_ref t none buf = (ok none, buf)

-- The `match` of `Decoder::parse_instruction`, for the byte that an instruction starts with.
unfoldable pub instruction_of :
    DynamicTable → ℕ → EncoderInstruction → Reader DecoderError (Option Instruction)
unfolding on_duplicate on_insert_ref
instruction_of t first unknown = fail (unknown_prefix first)
instruction_of t first dynamic_table_size_update =
    map_err of_parse_error decode_size_update >>= λ size. pure (Option.map table_size_update size)
instruction_of t first insert_without_name_ref =
    map_err of_parse_error decode_insert_literal >>= λ x.
    pure (Option.map (λ l. insert (record { name = l.name; value = l.value })) x)
instruction_of t first duplicate = map_err of_parse_error decode_duplicate >>= on_duplicate t
instruction_of t first insert_with_name_ref =
    map_err of_parse_error decode_insert_ref >>= on_insert_ref t

-- Bytes are taken for an instruction only.
unfoldable pub taken :
    List ℕ
    → Outcome DecoderError (Option Instruction) × List ℕ
    → Outcome DecoderError (Option Instruction) × List ℕ
taken chunk (ok (some i), rest) = (ok (some i), rest)
taken chunk (ok none, rest) = (ok none, chunk)
taken chunk (err e, rest) = (err e, chunk)
taken chunk (panic, rest) = (panic, chunk)

-- `Decoder::parse_instruction`, on the first chunk of the buffer, which is empty where the buffer is.
unfoldable pub parse_instruction : DynamicTable → Reader DecoderError (Option Instruction)
unfolding instruction_of taken
parse_instruction t [] = (ok none, [])
parse_instruction t (first ∷ buf) =
    taken (first ∷ buf) (instruction_of t first (encoder_instruction first) (first ∷ buf))

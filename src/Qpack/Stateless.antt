-- ===== src/Qpack/Stateless.antt =====
-- `encode_stateless` of h3/src/qpack/encoder.rs and `decode_stateless` of h3/src/qpack/decoder.rs: field
-- sections that do not use the dynamic table.
pub mod Lines
pub mod RoundTrip
pub mod Total
use h.Prelude.{
  ℕ, zero, suc, ◌+◌, List, [], ◌∷◌, ◌++◌, length, Bool, true, false, Option, none, some, Outcome,
  ok, err, panic,
}
use h.Prelude.{
  Reader, ◌>>=◌, pure, fail, crash, continue, map_err, map_error, ltb, ◌==◌, if◌then◌else◌, ◌⊕◌,
}
use h.Prelude.Isize.{ℤ}
use h.Qpack.PrefixInt.{IntError}
use h.Qpack.PrefixString.{StringError}
use h.Qpack.Parse.{ParseError, integer, string, invalid_prefix, invalid_base}
use h.Qpack.Prefix
use h.Qpack.Prefix.{HeaderPrefix}
use h.Qpack.Field.{HeaderField, mem_size, with_value}
use h.Qpack.Static.{StaticError, unknown}
use h.Qpack.DynamicTable.{DynamicTableError}
use h.Qpack.Static
use h.Qpack.Static.Lookup.{find, find_name}
use h.Qpack.FieldLine.{
  HeaderBlockField, indexed, indexed_with_post_base, literal_with_name_ref,
  literal_with_post_base_name_ref, literal, unknown as unknown_line, header_block_field, Indexed,
  static, dynamic, decode_indexed, encode_indexed,
}
use h.Qpack.Literals.{
  LiteralWithNameRef, decode_name_ref, encode_name_ref, Literal, decode_literal, encode_literal,
}

-- `DecoderError`, without the errors of indices and sizes, which nothing here gives.
pub data DecoderError : Type 0 where
  invalid_integer : IntError → DecoderError
  invalid_string : StringError → DecoderError
  dynamic_table : DynamicTableError → DecoderError
  invalid_static_index : ℕ → DecoderError
  unknown_prefix : ℕ → DecoderError
  missing_refs : ℕ → DecoderError
  bad_base_index : ℤ → DecoderError
  header_too_long : ℕ → DecoderError

-- `From<ParseError>`
abbrev pub of_parse_error : ParseError → DecoderError
of_parse_error (integer e) = invalid_integer e
of_parse_error (string e) = invalid_string e
of_parse_error (invalid_prefix p) = unknown_prefix p
of_parse_error (invalid_base b) = bad_base_index b

-- `From<StaticError>`
abbrev pub of_static_error : StaticError → DecoderError
of_static_error (unknown i) = invalid_static_index i

abbrev pub lift : {E A : Type 0} → Outcome E A → Reader E A
lift r buf = (r, buf)

-- The field at an index of the static table.
unfoldable pub static_field : ℕ → Reader DecoderError HeaderField
static_field i = lift (map_error of_static_error (Static.get i))

unfoldable pub on_indexed_line : Indexed → Reader DecoderError HeaderField
unfolding static_field
on_indexed_line (static i) = static_field i
on_indexed_line (dynamic i) = fail (missing_refs 0)

unfoldable pub on_name_ref_line : LiteralWithNameRef → Reader DecoderError HeaderField
unfolding static_field
on_name_ref_line (LiteralWithNameRef.static index value) =
    static_field index >>= λ f. pure (with_value f value)
on_name_ref_line (LiteralWithNameRef.dynamic index value) = fail (missing_refs 0)

-- The `match` of the loop, for the byte that a field line starts with.
unfoldable pub decode_line : ℕ → HeaderBlockField → Reader DecoderError HeaderField
unfolding on_indexed_line on_name_ref_line
decode_line first indexed_with_post_base = fail (missing_refs 0)
decode_line first literal_with_post_base_name_ref = fail (missing_refs 0)
decode_line first indexed = map_err of_parse_error decode_indexed >>= on_indexed_line
decode_line first literal_with_name_ref =
    map_err of_parse_error decode_name_ref >>= on_name_ref_line
decode_line first literal =
    map_err of_parse_error decode_literal >>= λ x. pure (record { name = x.name; value = x.value })
decode_line first unknown_line = fail (unknown_prefix first)

pub record Decoded : Type 0 where
  pub fields : List HeaderField
  pub dyn_ref : Bool
  pub mem_size : ℕ

-- What the loop does with a field.
abbrev pub on_field :
    ℕ
    → Decoded
    → (Decoded → Reader DecoderError Decoded)
    → HeaderField
    → Reader DecoderError Decoded
on_field max_size so_far next field =
    let size = so_far.mem_size + mem_size field in
    if ltb max_size size
    then fail (header_too_long size)
    else next (record { fields = so_far.fields ++ (field ∷ []); dyn_ref = false; mem_size = size })

-- The loop of `decode_stateless`, for `fuel` field lines at most.
unfoldable pub decode_lines : ℕ → ℕ → Decoded → Reader DecoderError Decoded
unfolding decode_line
decode_lines zero max_size so_far buf = (panic, buf)
decode_lines (suc fuel) max_size so_far [] = (ok so_far, [])
decode_lines (suc fuel) max_size so_far (first ∷ buf) =
    let next = decode_lines fuel max_size in
    continue (decode_line first (header_block_field first) (first ∷ buf))
      (on_field max_size so_far next)

-- The loop, with fuel for a field line at each byte that is left.
unfoldable pub decode_all : ℕ → Reader DecoderError Decoded
unfolding decode_lines
decode_all max_size buf =
    decode_lines (length buf + 1) max_size (record { fields = []; dyn_ref = false; mem_size = 0 })
      buf

-- `decode_stateless`
unfoldable pub decode_stateless : ℕ → Reader DecoderError Decoded
unfolding decode_all
decode_stateless max_size = map_err of_parse_error Prefix.decode >>= λ prefix.
    lift (map_error of_parse_error (Prefix.get prefix 0 0)) >>= λ refs.
    if ltb 0 refs.0 then fail (missing_refs refs.0) else decode_all max_size

-- The field line of a field: the first of the three that serves.
unfoldable pub encode_line : HeaderField → Option (List ℕ)
encode_line field = elim (find field) [
  | some index ↦ encode_indexed (static index)
  | none ↦ elim (find_name field.name) [
    | some index ↦ encode_name_ref (LiteralWithNameRef.static index field.value)
    | none ↦ encode_literal (record { name = field.name; value = field.value })
  ]
]

-- The loop of `encode_stateless`: what it writes.
unfoldable pub encode_lines : List HeaderField → Option (List ℕ)
unfolding encode_line
encode_lines [] = some []
encode_lines (field ∷ fields) = encode_line field ⊕ encode_lines fields

-- The size that it returns.
unfoldable pub total_size : List HeaderField → ℕ
unfolding mem_size
total_size [] = 0
total_size (field ∷ fields) = mem_size field + total_size fields

-- `encode_stateless`: the block, and the size of the fields.
unfoldable pub encode_stateless : List HeaderField → Option (List ℕ × ℕ)
unfolding encode_lines total_size
encode_stateless fields = elim (Prefix.new 0 0 0 0) [
  | none ↦ none
  | some prefix ↦ elim (Prefix.encode prefix ⊕ encode_lines fields) [
    | none ↦ none
    | some block ↦ some (block, total_size fields)
  ]
]

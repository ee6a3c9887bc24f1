-- ===== src/Qpack/FieldLine.antt =====
-- The field lines of h3/src/qpack/block.rs: which one a byte starts, and those without a string.
pub mod RoundTrip
use h.Prelude.{ℕ, bit_and, List, [], ◌∷◌, Option, none, some, Bool, true, false, not}
use h.Prelude.{Outcome, ok, err, panic, Reader, ltb, ◌==◌, if◌then◌else◌, usize_max}
use h.Qpack.PrefixInt
use h.Qpack.PrefixInt.{IntError, overflow}
use h.Qpack.Parse.{ParseError, integer, invalid_prefix}

pub data HeaderBlockField : Type 0 where
  indexed indexed_with_post_base literal_with_name_ref literal_with_post_base_name_ref literal
        unknown :
      HeaderBlockField

-- `HeaderBlockField::decode`
unfoldable pub header_block_field : ℕ → HeaderBlockField
header_block_field first =
    if not (bit_and first 0b1000_0000 == 0)
    then indexed
    else if bit_and first 0b1111_0000 == 0b0001_0000
    then indexed_with_post_base
    else if bit_and first 0b1100_0000 == 0b0100_0000
    then literal_with_name_ref
    else if bit_and first 0b1111_0000 == 0
    then literal_with_post_base_name_ref
    else if bit_and first 0b1110_0000 == 0b0010_0000
    then literal
    else unknown

pub data Indexed : Type 0 where
  static dynamic : ℕ → Indexed

-- A `u64` that has to be a `usize`.
abbrev pub checked : {A : Type 0} → (ℕ → A) → ℕ → Outcome ParseError A
checked make i = if ltb usize_max i then err (integer overflow) else ok (make i)

-- The `match` of `Indexed::decode`.
unfoldable pub on_indexed : Outcome IntError (ℕ × ℕ) → Outcome ParseError Indexed
on_indexed (ok (flags, i)) =
    if flags == 0b11
    then checked static i
    else if flags == 0b10
    then checked dynamic i
    else err (invalid_prefix flags)
on_indexed (err e) = err (integer e)
on_indexed panic = panic

-- `Indexed::decode`
unfoldable pub decode_indexed : Reader ParseError Indexed
unfolding on_indexed
decode_indexed buf = let r = PrefixInt.decode 6 buf in (on_indexed r.0, r.1)

-- `Indexed::encode`
unfoldable pub encode_indexed : Indexed → Option (List ℕ)
encode_indexed (static i) = PrefixInt.encode 6 0b11 i
encode_indexed (dynamic i) = PrefixInt.encode 6 0b10 i

-- The `match` of `IndexedWithPostBase::decode`.
unfoldable pub on_post_base : Outcome IntError (ℕ × ℕ) → Outcome ParseError ℕ
on_post_base (ok (flags, i)) =
    if flags == 0b0001 then checked (λ x. x) i else err (invalid_prefix flags)
on_post_base (err e) = err (integer e)
on_post_base panic = panic

-- `IndexedWithPostBase::decode`
unfoldable pub decode_post_base : Reader ParseError ℕ
unfolding on_post_base
decode_post_base buf = let r = PrefixInt.decode 4 buf in (on_post_base r.0, r.1)

-- `IndexedWithPostBase::encode`
unfoldable pub encode_post_base : ℕ → Option (List ℕ)
encode_post_base i = PrefixInt.encode 4 0b0001 i

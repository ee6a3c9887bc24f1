-- ===== src/Qpack/Literals.antt =====
-- The field lines of h3/src/qpack/block.rs that have a string in them.
pub mod RoundTrip
pub mod Total
use h.Prelude.{
  ℕ, bit_and, List, [], ◌∷◌, Option, none, some, Outcome, ok, err, panic, Reader, ◌>>=◌, pure, fail,
  map_err, ltb, ◌==◌, if◌then◌else◌, usize_max, ◌⊕◌,
}
use h.Qpack.PrefixInt
use h.Qpack.PrefixInt.{IntError, overflow, unexpected_end}
use h.Qpack.PrefixString
use h.Qpack.Parse.{ParseError, integer, string, invalid_prefix}

pub data LiteralWithNameRef : Type 0 where
  static dynamic : ℕ → List ℕ → LiteralWithNameRef

-- The test of a `u64` that has to be a `usize`, then the value.
unfoldable pub index_and_value : {A : Type 0} → (ℕ → List ℕ → A) → ℕ → Reader ParseError A
index_and_value make i =
    if ltb usize_max i
    then fail (integer overflow)
    else (map_err string (PrefixString.decode 8) >>= λ value. pure (make i value))

-- The `match` of `LiteralWithNameRef::decode`.
unfoldable pub on_name_ref : ℕ → ℕ → Reader ParseError LiteralWithNameRef
unfolding index_and_value
on_name_ref flags i =
    if bit_and flags 0b0101 == 0b0101
    then index_and_value static i
    else if bit_and flags 0b0101 == 0b0100
    then index_and_value dynamic i
    else fail (invalid_prefix flags)

-- `LiteralWithNameRef::decode`
unfoldable pub decode_name_ref : Reader ParseError LiteralWithNameRef
unfolding on_name_ref
decode_name_ref = map_err integer (PrefixInt.decode 4) >>= λ r. on_name_ref r.0 r.1

-- `LiteralWithNameRef::encode`
unfoldable pub encode_name_ref : LiteralWithNameRef → Option (List ℕ)
encode_name_ref (static index value) =
    PrefixInt.encode 4 0b0101 index ⊕ PrefixString.encode 8 0 value
encode_name_ref (dynamic index value) =
    PrefixInt.encode 4 0b0100 index ⊕ PrefixString.encode 8 0 value

pub record LiteralWithPostBaseNameRef : Type 0 where
  pub index : ℕ
  pub value : List ℕ

-- The `match` of `LiteralWithPostBaseNameRef::decode`.
unfoldable pub on_post_base_name_ref : ℕ → ℕ → Reader ParseError LiteralWithPostBaseNameRef
unfolding index_and_value
on_post_base_name_ref flags i =
    if bit_and flags 0b1111_0000 == 0
    then index_and_value (λ index value. record { index = index; value = value }) i
    else fail (invalid_prefix flags)

-- `LiteralWithPostBaseNameRef::decode`
unfoldable pub decode_post_base_name_ref : Reader ParseError LiteralWithPostBaseNameRef
unfolding on_post_base_name_ref
decode_post_base_name_ref =
    map_err integer (PrefixInt.decode 3) >>= λ r. on_post_base_name_ref r.0 r.1

-- `LiteralWithPostBaseNameRef::encode`
unfoldable pub encode_post_base_name_ref : LiteralWithPostBaseNameRef → Option (List ℕ)
encode_post_base_name_ref x = PrefixInt.encode 3 0b0000 x.index ⊕ PrefixString.encode 8 0 x.value

pub record Literal : Type 0 where
  pub name : List ℕ
  pub value : List ℕ

-- The two strings of a literal.
unfoldable pub name_and_value : Reader ParseError Literal
name_and_value = map_err string (PrefixString.decode 4) >>= λ name.
    map_err string (PrefixString.decode 8) >>= λ value. pure (record { name = name; value = value })

-- `Literal::decode`
unfoldable pub decode_literal : Reader ParseError Literal
unfolding name_and_value
decode_literal [] = (err (integer unexpected_end), [])
decode_literal (first ∷ buf) =
    if bit_and first 0b1110_0000 == 0b0010_0000
    then name_and_value (first ∷ buf)
    else (err (invalid_prefix first), first ∷ buf)

-- `Literal::encode`
unfoldable pub encode_literal : Literal → Option (List ℕ)
encode_literal x = PrefixString.encode 4 0b0010 x.name ⊕ PrefixString.encode 8 0 x.value

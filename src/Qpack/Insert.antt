-- ===== src/Qpack/Insert.antt =====
-- h3/src/qpack/stream.rs: the instructions that insert an entry.
pub mod RoundTrip
use h.Prelude.{
  ℕ, bit_and, List, Option, none, some, Outcome, ok, err, panic, Reader, ltb, ◌==◌, if◌then◌else◌,
  usize_max, ◌⊕◌,
}
use h.Qpack.PrefixInt
use h.Qpack.PrefixInt.{IntError, overflow, unexpected_end as int_end}
use h.Qpack.PrefixString
use h.Qpack.PrefixString.{StringError, unexpected_end, huffman_decoding}
use h.Qpack.Parse.{ParseError, integer, string, invalid_prefix}

pub data InsertWithNameRef : Type 0 where
  static dynamic : ℕ → List ℕ → InsertWithNameRef

-- The `match prefix_string::decode` of an instruction: without the end of the string there is no
-- instruction yet.
unfoldable pub on_string :
    {A : Type 0}
    → Outcome StringError (List ℕ) × List ℕ
    → (List ℕ → Reader ParseError (Option A))
    → Outcome ParseError (Option A) × List ℕ
on_string (ok value, rest) k = k value rest
on_string (err unexpected_end, rest) k = (ok none, rest)
on_string (err (PrefixString.integer e), rest) k = (err (string (PrefixString.integer e)), rest)
on_string (err (huffman_decoding e), rest) k = (err (string (huffman_decoding e)), rest)
on_string (panic, rest) k = (panic, rest)

-- The value behind the index, and the instruction that the flags ask for.
unfoldable pub insert_value : ℕ → ℕ → Reader ParseError (Option InsertWithNameRef)
unfolding on_string
insert_value flags index buf =
    if ltb usize_max index
    then (err (integer overflow), buf)
    else on_string (PrefixString.decode 8 buf) (λ value rest. (
      ok (some (if bit_and flags 0b01 == 0b01 then static index value else dynamic index value)),
      rest,
    ))

-- The `match prefix_int::decode` of `InsertWithNameRef::decode`.
unfoldable pub on_name_index :
    Outcome IntError (ℕ × ℕ) × List ℕ → Outcome ParseError (Option InsertWithNameRef) × List ℕ
unfolding insert_value
on_name_index (ok (flags, index), rest) =
    if bit_and flags 0b10 == 0b10
    then insert_value flags index rest
    else (err (invalid_prefix flags), rest)
on_name_index (err int_end, rest) = (ok none, rest)
on_name_index (err overflow, rest) = (err (integer overflow), rest)
on_name_index (panic, rest) = (panic, rest)

-- `InsertWithNameRef::decode`
unfoldable pub decode_insert_ref : Reader ParseError (Option InsertWithNameRef)
unfolding on_name_index
decode_insert_ref buf = on_name_index (PrefixInt.decode 6 buf)

-- `InsertWithNameRef::encode`
unfoldable pub encode_insert_ref : InsertWithNameRef → Option (List ℕ)
encode_insert_ref (static index value) =
    PrefixInt.encode 6 0b11 index ⊕ PrefixString.encode 8 0 value
encode_insert_ref (dynamic index value) =
    PrefixInt.encode 6 0b10 index ⊕ PrefixString.encode 8 0 value

pub record InsertWithoutNameRef : Type 0 where
  pub name : List ℕ
  pub value : List ℕ

-- `InsertWithoutNameRef::decode`
unfoldable pub decode_insert_literal : Reader ParseError (Option InsertWithoutNameRef)
unfolding on_string
decode_insert_literal buf = on_string (PrefixString.decode 6 buf) (λ name behind.
    on_string (PrefixString.decode 8 behind)
      (λ value rest. (ok (some (record { name = name; value = value })), rest)))

-- `InsertWithoutNameRef::encode`
unfoldable pub encode_insert_literal : InsertWithoutNameRef → Option (List ℕ)
encode_insert_literal x = PrefixString.encode 6 0b01 x.name ⊕ PrefixString.encode 8 0 x.value

-- ===== src/Qpack/Prefix.antt =====
-- `HeaderPrefix` of h3/src/qpack/block.rs: what a field section needs of the dynamic table.
pub mod RoundTrip
use h.Prelude.{ℕ, ◌+◌, ◌-◌, ◌*◌, ◌/◌, ◌%◌, ◌^◌, Bool, true, false, Option, none, some, List, []}
use h.Prelude.{
  Outcome, ok, err, panic, Reader, ◌>>=◌, pure, fail, crash, map_err, ◌⊕◌, ltb, leb, ◌==◌,
  if◌then◌else◌, usize_max,
}
use h.Prelude.Isize.{pos, as_isize, sub_isize}
use h.Qpack.PrefixInt
use h.Qpack.Parse.{ParseError, integer, invalid_base}

pub record HeaderPrefix : Type 0 where
  pub encoded_insert_count : ℕ
  pub sign_negative : Bool
  pub delta_base : ℕ

abbrev pub max_entries : ℕ → ℕ
max_entries max_table_size = max_table_size / 32

-- `HeaderPrefix::new`: a panic where the assertion fails and where the table has room for no entry.
unfoldable pub new : ℕ → ℕ → ℕ → ℕ → Option HeaderPrefix
new required base total_inserted max_table_size =
    if max_table_size == 0
    then some (record { encoded_insert_count = 0; sign_negative = false; delta_base = 0 })
    else if required == 0
    then some (record { encoded_insert_count = 0; sign_negative = false; delta_base = 0 })
    else if ltb total_inserted required
    then none
    else if max_entries max_table_size == 0
    then none
    else some (record {
      encoded_insert_count = required % (2 * max_entries max_table_size) + 1;
      sign_negative = ltb base required;
      delta_base = if ltb base required then required - base - 1 else base - required;
    })

-- `insert_count + total_inserted - wrapped`, where going below zero panics.
abbrev pub unwrapped : ℕ → ℕ → ℕ → Option ℕ
unwrapped insert_count total wrapped =
    if ltb (insert_count + total) wrapped then none else some (insert_count + total - wrapped)

-- 4.5.1.1. Required Insert Count
unfoldable pub required_count : ℕ → ℕ → ℕ → Option ℕ
required_count encoded total entries =
    if encoded == 0
    then some 0
    else if entries == 0
    then none
    else (let insert_count = encoded - 1 in
        let wrapped = total % (2 * entries) in
        if leb (insert_count + entries) wrapped
        then unwrapped (insert_count + 2 * entries) total wrapped
        else if ltb (wrapped + entries) insert_count
        then unwrapped insert_count total (wrapped + 2 * entries)
        else unwrapped insert_count total wrapped)

-- `required as isize - delta_base as isize - 1`, the base of the error.
unfoldable pub bad_base : ℕ → ℕ → Outcome ParseError (ℕ × ℕ)
unfolding as_isize sub_isize
bad_base required delta_base = elim (sub_isize (as_isize required) (as_isize delta_base)) [
  | none ↦ panic
  | some x ↦ elim (sub_isize x (pos 1)) [ none ↦ panic | some y ↦ err (invalid_base y) ]
]

-- The base, for the required count.
unfoldable pub base_of : HeaderPrefix → ℕ → Outcome ParseError (ℕ × ℕ)
unfolding bad_base
base_of p required =
    if required == 0
    then ok (0, 0)
    else if p.sign_negative
    then (if ltb required (p.delta_base + 1)
        then bad_base required p.delta_base
        else ok (required, required - p.delta_base - 1))
    else if ltb usize_max (required + p.delta_base)
    then panic
    else ok (required, required + p.delta_base)

-- `HeaderPrefix::get`
unfoldable pub get : HeaderPrefix → ℕ → ℕ → Outcome ParseError (ℕ × ℕ)
get p total_inserted max_table_size =
    if max_table_size == 0
    then ok (0, 0)
    else elim (required_count p.encoded_insert_count total_inserted (max_entries max_table_size)) [
      | none ↦ panic
      | some required ↦ base_of p required
    ]

-- `HeaderPrefix::decode`; no `u64` is above `usize::MAX`.
unfoldable pub decode : Reader ParseError HeaderPrefix
decode = map_err integer (PrefixInt.decode 8) >>= λ count.
    map_err integer (PrefixInt.decode 7) >>= λ base.
    pure
      (record { encoded_insert_count = count.1; sign_negative = base.0 == 1; delta_base = base.1 })

-- `HeaderPrefix::encode`
unfoldable pub encode : HeaderPrefix → Option (List ℕ)
encode p =
    PrefixInt.encode 8 0 p.encoded_insert_count
    ⊕ PrefixInt.encode 7 (if p.sign_negative then 1 else 0) p.delta_base

-- ===== src/Qpack/Stateless/Total.antt =====
-- A field section is decoded from any bytes with no panic: the loop ends.
use h.Prelude.{
  ℕ, zero, suc, ◌+◌, ◌^◌, ◌<◌, ◌≡◌, ◌≢◌, refl, arith, List, [], ◌∷◌, ◌++◌, length, get_elem?,
  Option, none, some, ok, err, panic, ltb, map_err, continue, false,
}
use h.Prelude.Safe.{Safe, Safe-if, Safe-weaken, Safe-bind, Safe-map_error, Safe-ne-panic}
use h.Qpack.PrefixInt
use h.Qpack.PrefixInt.Total.{decode-Safe as int-Safe}
use h.Qpack.PrefixString.Total.{pair-Safe}
use h.Qpack.Parse.{integer}
use h.Qpack.Prefix
use h.Qpack.Prefix.{HeaderPrefix}
use h.Qpack.Field.{HeaderField, mem_size}
use h.Qpack.Static
use h.Qpack.Static.{predefined_headers}
use h.Qpack.FieldLine.{
  HeaderBlockField, indexed, indexed_with_post_base, literal_with_name_ref,
  literal_with_post_base_name_ref, literal, unknown, header_block_field, Indexed, static, dynamic,
  decode_indexed,
}
use h.Qpack.Literals.{LiteralWithNameRef, decode_name_ref, decode_literal}
use h.Qpack.Literals.Total.{decode_indexed-Safe, decode_name_ref-Safe, decode_literal-Safe}
use h.Qpack.Stateless.{
  of_parse_error, of_static_error, static_field, on_indexed_line, on_name_ref_line, decode_line,
  Decoded, on_field, decode_lines, decode_all, decode_stateless,
}

get-ne-panic : (i : ℕ) → Static.get i ≢ panic
unfolding Static.get
get-ne-panic i = either (get_elem? predefined_headers i)
  where
    either :
        (o : Option HeaderField)
        → (elim o [ some f ↦ ok f | none ↦ err (Static.unknown i) ]) ≢ panic
    either none e = cc
    either (some f) e = cc

static_field-Safe : (i : ℕ) (buf : List ℕ) → Safe 0 buf (static_field i buf)
unfolding static_field
static_field-Safe i buf =
    Safe-map_error 0 buf of_static_error (Static.get i, buf)
      (pair-Safe buf (Static.get i) buf (get-ne-panic i) (omega arith))

on_indexed_line-Safe : (x : Indexed) (buf : List ℕ) → Safe 0 buf (on_indexed_line x buf)
unfolding on_indexed_line
on_indexed_line-Safe (static i) buf = static_field-Safe i buf
on_indexed_line-Safe (dynamic i) buf = tt

on_name_ref_line-Safe :
    (x : LiteralWithNameRef) (buf : List ℕ) → Safe 0 buf (on_name_ref_line x buf)
unfolding on_name_ref_line
on_name_ref_line-Safe (LiteralWithNameRef.static i v) buf =
    Safe-bind 0 buf (static_field i buf) _ (static_field-Safe i buf) (λ f rest _. omega arith)
on_name_ref_line-Safe (LiteralWithNameRef.dynamic i v) buf = tt

-- A field line takes a byte at least.
decode_line-Safe :
    (first : ℕ) (kind : HeaderBlockField) (buf : List ℕ)
    → length buf < 2 ^ 29
    → Safe 1 buf (decode_line first kind buf)
unfolding decode_line
decode_line-Safe first indexed_with_post_base buf h = tt
decode_line-Safe first literal_with_post_base_name_ref buf h = tt
decode_line-Safe first unknown buf h = tt
decode_line-Safe first indexed buf h =
    Safe-bind 1 buf (map_err of_parse_error decode_indexed buf) _
      (Safe-map_error 1 buf of_parse_error (decode_indexed buf) (decode_indexed-Safe buf))
      (λ x rest _. on_indexed_line-Safe x rest)
decode_line-Safe first literal_with_name_ref buf h =
    Safe-bind 1 buf (map_err of_parse_error decode_name_ref buf) _
      (Safe-map_error 1 buf of_parse_error (decode_name_ref buf) (decode_name_ref-Safe buf h))
      (λ x rest _. on_name_ref_line-Safe x rest)
decode_line-Safe first literal buf h =
    Safe-bind 1 buf (map_err of_parse_error decode_literal buf) _
      (Safe-map_error 1 buf of_parse_error (decode_literal buf) (decode_literal-Safe buf h))
      (λ x rest _. omega arith)

decode_lines-Safe :
    (fuel max_size : ℕ) (so_far : Decoded) (buf : List ℕ)
    → length buf < 2 ^ 29
    → length buf < fuel
    → Safe 0 buf (decode_lines fuel max_size so_far buf)
unfolding decode_lines
decode_lines-Safe zero max_size so_far buf h k = absurd (omega arith)
decode_lines-Safe (suc fuel) max_size so_far [] h k = omega arith
decode_lines-Safe (suc fuel) max_size so_far (first ∷ buf) h k =
    let line = decode_line first (header_block_field first) (first ∷ buf) in
    let next = on_field max_size so_far (decode_lines fuel max_size) in
    Safe-weaken 1 (first ∷ buf) (continue line next) (
      Safe-bind 1 (first ∷ buf) line next
        (decode_line-Safe first (header_block_field first) (first ∷ buf) h)
        (λ f rest l.
          let size = so_far.mem_size + mem_size f in
          Safe-if 0 rest (ltb max_size size) _ _ (λ _. tt)
            (λ _.
              decode_lines-Safe fuel max_size
                (record { fields = so_far.fields ++ (f ∷ []); dyn_ref = false; mem_size = size })
                rest (omega arith) (omega arith))))

prefix-Safe : (buf : List ℕ) → Safe 0 buf (Prefix.decode buf)
unfolding Prefix.decode
prefix-Safe buf = Safe-weaken 1 buf _ (
    Safe-bind 1 buf (map_err integer (PrefixInt.decode 8) buf) _
      (Safe-map_error 1 buf integer (PrefixInt.decode 8 buf)
        (int-Safe 8 buf (omega arith) (omega arith)))
      (λ count rest _. Safe-weaken 1 rest _ (
        Safe-bind 1 rest (map_err integer (PrefixInt.decode 7) rest) _
          (Safe-map_error 1 rest integer (PrefixInt.decode 7 rest)
            (int-Safe 7 rest (omega arith) (omega arith)))
          (λ base rest' _. omega arith))))

no_table : (p : HeaderPrefix) → Prefix.get p 0 0 ≡ ok (0, 0)
unfolding Prefix.get
no_table p = refl

-- On fewer than 2^29 bytes, whatever they are, decode_stateless does not panic, and its loop ends.
pub decode_stateless-ne-panic :
    (max_size : ℕ) (buf : List ℕ) → length buf < 2 ^ 29 → (decode_stateless max_size buf).0 ≢ panic
unfolding decode_stateless decode_all
decode_stateless-ne-panic max_size buf h = Safe-ne-panic 0 buf (decode_stateless max_size buf) (
    Safe-bind 0 buf (map_err of_parse_error Prefix.decode buf) _
      (Safe-map_error 0 buf of_parse_error (Prefix.decode buf) (prefix-Safe buf))
      (λ prefix rest l. rw (no_table prefix) (
        decode_lines-Safe (length rest + 1) max_size
          (record { fields = []; dyn_ref = false; mem_size = 0 }) rest (omega arith)
          (omega arith))))

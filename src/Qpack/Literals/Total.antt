-- ===== src/Qpack/Literals/Total.antt =====
-- Field lines are read from any bytes with no panic, and each takes a byte at least.
use h.Prelude.{
  ℕ, ◌+◌, ◌^◌, ◌≤◌, ◌<◌, ◌==◌, arith, bit_and, List, [], ◌∷◌, length, Outcome, ok, err, panic,
  if_rule, ltb, map_err, usize_max,
}
use h.Prelude.Safe.{Safe, Safe-if, Safe-weaken, Safe-bind, Safe-map_error}
use h.Qpack.PrefixInt
use h.Qpack.PrefixInt.Total.{decode-Safe as int-Safe}
use h.Qpack.PrefixString
use h.Qpack.PrefixString.Total.{decode-Safe as prefix_string-Safe}
use h.Qpack.PrefixInt.{IntError}
use h.Qpack.Parse.{ParseError, integer, string}
use h.Qpack.FieldLine.{
  Indexed, checked, static as static_index, dynamic as dynamic_index, on_indexed, decode_indexed,
}
use h.Qpack.Literals.{
  static, dynamic, index_and_value, on_name_ref, decode_name_ref, name_and_value, decode_literal,
}

checked-Safe :
    (buf rest : List ℕ) (make : ℕ → Indexed) (i : ℕ)
    → length rest + 1 ≤ length buf
    → Safe 1 buf (checked make i, rest)
checked-Safe buf rest make i h =
    if_rule (λ r. Safe 1 buf (r, rest)) (ltb usize_max i) _ _ (λ _. tt) (λ _. h)

on_indexed-Safe :
    (buf : List ℕ) (r : Outcome IntError (ℕ × ℕ) × List ℕ)
    → Safe 1 buf r
    → Safe 1 buf (on_indexed r.0, r.1)
unfolding on_indexed
on_indexed-Safe buf (ok (flags, i), rest) h =
    if_rule (λ (r : Outcome ParseError Indexed). Safe 1 buf (r, rest)) (flags == 0b11) _ _
      (λ _. checked-Safe buf rest static_index i h)
      (λ _.
        if_rule (λ (r : Outcome ParseError Indexed). Safe 1 buf (r, rest)) (flags == 0b10) _ _
          (λ _. checked-Safe buf rest dynamic_index i h) (λ _. tt))
on_indexed-Safe buf (err e, rest) h = tt
on_indexed-Safe buf (panic, rest) h = h

pub decode_indexed-Safe : (buf : List ℕ) → Safe 1 buf (decode_indexed buf)
unfolding decode_indexed
decode_indexed-Safe buf =
    on_indexed-Safe buf (PrefixInt.decode 6 buf) (int-Safe 6 buf (omega arith) (omega arith))

string-Safe :
    (size : ℕ) (buf : List ℕ)
    → 2 ≤ size
    → size ≤ 9
    → length buf < 2 ^ 29
    → Safe 1 buf (map_err string (PrefixString.decode size) buf)
string-Safe size buf s t h =
    Safe-map_error 1 buf string (PrefixString.decode size buf) (prefix_string-Safe size buf s t h)

index_and_value-Safe :
    {A : Type 0} (make : ℕ → List ℕ → A) (i : ℕ) (buf : List ℕ)
    → length buf < 2 ^ 29
    → Safe 0 buf (index_and_value make i buf)
unfolding index_and_value
index_and_value-Safe make i buf h =
    Safe-if 0 buf (ltb usize_max i) _ _ (λ _. tt)
      (λ _.
        Safe-bind 0 buf (map_err string (PrefixString.decode 8) buf) _
          (Safe-weaken 1 buf (map_err string (PrefixString.decode 8) buf)
            (string-Safe 8 buf (omega arith) (omega arith) h))
          (λ v rest _. omega arith))

pub decode_name_ref-Safe : (buf : List ℕ) → length buf < 2 ^ 29 → Safe 1 buf (decode_name_ref buf)
unfolding decode_name_ref on_name_ref
decode_name_ref-Safe buf h =
    Safe-bind 1 buf (map_err integer (PrefixInt.decode 4) buf) _
      (Safe-map_error 1 buf integer (PrefixInt.decode 4 buf)
        (int-Safe 4 buf (omega arith) (omega arith)))
      (λ r rest l.
        Safe-if 0 rest (bit_and r.0 0b0101 == 0b0101) _ _
          (λ _. index_and_value-Safe static r.1 rest (omega arith))
          (λ _.
            Safe-if 0 rest (bit_and r.0 0b0101 == 0b0100) _ _
              (λ _. index_and_value-Safe dynamic r.1 rest (omega arith)) (λ _. tt)))

name_and_value-Safe : (buf : List ℕ) → length buf < 2 ^ 29 → Safe 1 buf (name_and_value buf)
unfolding name_and_value
name_and_value-Safe buf h =
    Safe-bind 1 buf (map_err string (PrefixString.decode 4) buf) _
      (string-Safe 4 buf (omega arith) (omega arith) h)
      (λ name rest l. Safe-weaken 1 rest _ (
        Safe-bind 1 rest (map_err string (PrefixString.decode 8) rest) _
          (string-Safe 8 rest (omega arith) (omega arith) (omega arith))
          (λ v rest' _. omega arith)))

pub decode_literal-Safe : (buf : List ℕ) → length buf < 2 ^ 29 → Safe 1 buf (decode_literal buf)
unfolding decode_literal
decode_literal-Safe [] h = tt
decode_literal-Safe (first ∷ buf) h =
    if_rule (Safe 1 (first ∷ buf)) (bit_and first 0b1110_0000 == 0b0010_0000) _ _
      (λ _. name_and_value-Safe (first ∷ buf) h) (λ _. tt)

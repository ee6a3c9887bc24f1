-- ===== src/Qpack/Decoder/Instructions.antt =====
-- The decoder understands the insertions that an encoder writes.
use h.Prelude.{ℕ, ◌^◌, ◌<◌, ◌≡◌, ap, sym, ◌∙◌}
use h.Prelude.{List, ◌∷◌, ◌++◌, Option, some, ok, map_error, Reader, bind-ok, map_err-ok, map_err}
use h.Qpack.Field.{HeaderField, with_value}
use h.Qpack.Static
use h.Qpack.DynamicTable.{DynamicTable, get_relative}
use h.Qpack.Instruction.{EncoderInstruction, insert_with_name_ref, insert_without_name_ref}
use h.Qpack.Parse.{ParseError}
use h.Qpack.Literals.RoundTrip.{IsString}
use h.Qpack.Insert.{
  InsertWithNameRef, static, dynamic, encode_insert_ref, decode_insert_ref, InsertWithoutNameRef,
  encode_insert_literal, decode_insert_literal,
}
use h.Qpack.Insert.RoundTrip.{InstructionOf, decode-encode_insert_ref, decode-encode_insert_literal}
use h.Qpack.Stateless.{of_parse_error, of_static_error, dynamic_table}
use h.Qpack.Decoder.{
  Instruction, insert, insert_found, on_insert_ref, instruction_of, taken, parse_instruction,
}

-- An insertion that carries a string.
pub data Insertion : Type 0 where
  by_ref : InsertWithNameRef → Insertion
  by_literal : InsertWithoutNameRef → Insertion

abbrev pub bytes_of : Insertion → Option (List ℕ)
bytes_of (by_ref x) = encode_insert_ref x
bytes_of (by_literal x) = encode_insert_literal x

-- The index of the name is below 2^63, and the strings are bytes, fewer than 2^26.
abbrev pub Fits : Insertion → Type 0
Fits (by_ref (static i v)) = (i < 2 ^ 63) × IsString v
Fits (by_ref (dynamic i v)) = (i < 2 ^ 63) × IsString v
Fits (by_literal x) = IsString x.name × IsString x.value

-- The field is the one that an insertion into the table is for.
abbrev pub Names : DynamicTable → Insertion → HeaderField → Type 0
Names t (by_ref (static i v)) field =
    (f : HeaderField) × (Static.get i ≡ ok f) × (field ≡ with_value f v)
Names t (by_ref (dynamic i v)) field =
    (f : HeaderField) × (get_relative t i ≡ ok f) × (field ≡ with_value f v)
Names t (by_literal x) field = field ≡ record { name = x.name; value = x.value }

-- An instruction that its own reader reads is taken from the chunk.
parse_instruction-taken :
    {A : Type 0} {kind : EncoderInstruction} {reader : Reader ParseError (Option A)} {x : A}
    {bs : List ℕ} (t : DynamicTable) (rest : List ℕ) (i : Instruction)
    → (r : InstructionOf kind reader x bs)
    → ((first : ℕ) → instruction_of t first kind (bs ++ rest) ≡ (ok (some i), rest))
    → parse_instruction t (bs ++ rest) ≡ (ok (some i), rest)
unfolding parse_instruction taken
parse_instruction-taken {kind} {bs} t rest i r h =
    ap (λ b. parse_instruction t (b ++ rest)) r.bytes_are
    ∙ ap (taken (r.first ∷ (r.others ++ rest))) (
        ap (λ k. instruction_of t r.first k (r.first ∷ (r.others ++ rest))) r.kind_is
        ∙ ap (λ b. instruction_of t r.first kind (b ++ rest)) (sym r.bytes_are)
        ∙ h r.first)

ref-instruction :
    (t : DynamicTable) (x : InsertWithNameRef) (field : HeaderField) (buf rest : List ℕ) (first : ℕ)
    → Names t (by_ref x) field
    → decode_insert_ref buf ≡ (ok (some x), rest)
    → instruction_of t first insert_with_name_ref buf ≡ (ok (some (insert field)), rest)
unfolding instruction_of on_insert_ref insert_found
ref-instruction t (static i v) field buf rest first (f, g, e) d =
    bind-ok (map_err of_parse_error decode_insert_ref) (on_insert_ref t) buf
      (map_err-ok of_parse_error decode_insert_ref buf d)
    ∙ ap (λ r. (insert_found (λ h. with_value h v) (map_error of_static_error r), rest)) g
    ∙ ap (λ h. (ok (some (insert h)), rest)) (sym e)
ref-instruction t (dynamic i v) field buf rest first (f, g, e) d =
    bind-ok (map_err of_parse_error decode_insert_ref) (on_insert_ref t) buf
      (map_err-ok of_parse_error decode_insert_ref buf d)
    ∙ ap (λ r. (insert_found (λ h. with_value h v) (map_error dynamic_table r), rest)) g
    ∙ ap (λ h. (ok (some (insert h)), rest)) (sym e)

literal-instruction :
    (t : DynamicTable) (x : InsertWithoutNameRef) (field : HeaderField) (buf rest : List ℕ)
    (first : ℕ)
    → Names t (by_literal x) field
    → decode_insert_literal buf ≡ (ok (some x), rest)
    → instruction_of t first insert_without_name_ref buf ≡ (ok (some (insert field)), rest)
unfolding instruction_of
literal-instruction t x field buf rest first e d =
    bind-ok (map_err of_parse_error decode_insert_literal) _ buf
      (map_err-ok of_parse_error decode_insert_literal buf d)
    ∙ ap (λ h. (ok (some (insert h)), rest)) (sym e)

ref_parsed :
    (t : DynamicTable) (x : InsertWithNameRef) (field : HeaderField) (bs : List ℕ)
    → Names t (by_ref x) field
    → InstructionOf insert_with_name_ref decode_insert_ref x bs
    → (rest : List ℕ) → parse_instruction t (bs ++ rest) ≡ (ok (some (insert field)), rest)
ref_parsed t x field bs e r rest =
    parse_instruction-taken t rest (insert field) r
      (λ first. ref-instruction t x field (bs ++ rest) rest first e (r.reads_back rest))

-- An insertion with an index below 2^63 or a name of fewer than 2^26 bytes, and a value of fewer
-- than 2^26 bytes, is encoded to bytes that the decoder, where the chunk holds them all, parses as
-- the insertion of the field that it is for, and no byte behind them is taken.
pub parse_instruction-bytes_of :
    (t : DynamicTable) (x : Insertion) (field : HeaderField)
    → Fits x
    → Names t x field
    → (bs : List ℕ) × (bytes_of x ≡ some bs)
      × ((rest : List ℕ) → parse_instruction t (bs ++ rest) ≡ (ok (some (insert field)), rest))
parse_instruction-bytes_of t (by_ref (static i v)) field (h, a) e =
    let (bs, p, r) = decode-encode_insert_ref (static i v) h a in
    (bs, p, ref_parsed t (static i v) field bs e r)
parse_instruction-bytes_of t (by_ref (dynamic i v)) field (h, a) e =
    let (bs, p, r) = decode-encode_insert_ref (dynamic i v) h a in
    (bs, p, ref_parsed t (dynamic i v) field bs e r)
parse_instruction-bytes_of t (by_literal x) field (a, b) e =
    let (bs, p, r) = decode-encode_insert_literal x a b in
    (
      bs,
      p,
      λ rest.
          parse_instruction-taken t rest (insert field) r
            (λ first. literal-instruction t x field (bs ++ rest) rest first e (r.reads_back rest)),
    )

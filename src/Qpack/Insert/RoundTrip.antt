-- ===== src/Qpack/Insert/RoundTrip.antt =====
-- The decoder reads back the insertions that an encoder writes.
use h.Prelude.{ℕ, ◌/◌, ◌^◌, ◌≤◌, ◌<◌, ◌≡◌, refl, ap, ◌∙◌, arith}
use h.Prelude.{
  List, ◌∷◌, ◌++◌, append_assoc, Option, some, ok, Reader, ⊕-join, bit_and, false, ltb, le→ltb,
  ◌==◌, ◌⊕◌, if◌then◌else◌, usize_max,
}
use h.Prelude.Bits.{bit_and_field}
use h.Qpack.PrefixInt
use h.Qpack.PrefixInt.RoundTrip.{decode-encode_int, encode_int-total, encode-first}
use h.Qpack.PrefixString
use h.Qpack.PrefixString.RoundTrip.{Reads, decode-encode_string}
use h.Qpack.Parse.{ParseError}
use h.Qpack.Instruction.{
  EncoderInstruction, insert_with_name_ref, insert_without_name_ref, encoder_instruction,
}
use h.Qpack.Literals.RoundTrip.{IsString}
use h.Qpack.Insert.{
  InsertWithNameRef, static, dynamic, on_string, insert_value, on_name_index, decode_insert_ref,
  encode_insert_ref, InsertWithoutNameRef, decode_insert_literal, encode_insert_literal,
}

-- Bytes that start with a byte of this instruction, and from which the reader reads this, whatever
-- follows them.
pub record InstructionOf {A : Type 0} (kind : EncoderInstruction)
    (reader : Reader ParseError (Option A)) (x : A) (bs : List ℕ) : Type 0 where
  pub first : ℕ
  pub others : List ℕ
  pub bytes_are : bs ≡ first ∷ others
  pub kind_is : encoder_instruction first ≡ kind
  pub reads_back : (rest : List ℕ) → reader (bs ++ rest) ≡ (ok (some x), rest)

-- The first two bits of the instructions with a string.
encoder_instruction_kind :
    (first : ℕ)
    → first < 256
    → (2 ≤ first / 64 → encoder_instruction first ≡ insert_with_name_ref)
      × (first / 64 ≡ 1 → encoder_instruction first ≡ insert_without_name_ref)
unfolding encoder_instruction
encoder_instruction_kind first h = (
  λ e. ground (arith, bit_and_field 7 1 first, bit_and_field 6 1 first),
  λ e. ground (arith, bit_and_field 7 1 first, bit_and_field 6 1 first),
)

on_string-Reads :
    {A : Type 0} (size flags : ℕ) (value bs rest : List ℕ)
    (k : List ℕ → Reader ParseError (Option A))
    → Reads size flags value bs
    → on_string (PrefixString.decode size (bs ++ rest)) k ≡ k value rest
unfolding on_string
on_string-Reads size flags value bs rest k r = ap (λ t. on_string t k) (r.reads_back rest)

abbrev index_of : InsertWithNameRef → ℕ
index_of (static i v) = i
index_of (dynamic i v) = i

abbrev value_of : InsertWithNameRef → List ℕ
value_of (static i v) = v
value_of (dynamic i v) = v

insert_value-Reads :
    (x : InsertWithNameRef) (flags i : ℕ) (value bs rest : List ℕ)
    → i < 2 ^ 63
    → Reads 8 0 value bs
    → (if bit_and flags 0b01 == 0b01 then static i value else dynamic i value) ≡ x
    → insert_value flags i (bs ++ rest) ≡ (ok (some x), rest)
unfolding insert_value
insert_value-Reads x flags i value bs rest h r e =
    let l : ltb usize_max i ≡ false = le→ltb _ _ (omega arith) in
    rw l (on_string-Reads 8 0 value bs rest _ r ∙ ap (λ t. (ok (some t), rest)) e)

on_name_index-Reads :
    (x : InsertWithNameRef) (flags i : ℕ) (value bs rest : List ℕ)
    → bit_and flags 0b10 ≡ 0b10
    → i < 2 ^ 63
    → Reads 8 0 value bs
    → (if bit_and flags 0b01 == 0b01 then static i value else dynamic i value) ≡ x
    → on_name_index (ok (flags, i), bs ++ rest) ≡ (ok (some x), rest)
unfolding on_name_index
on_name_index-Reads x flags i value bs rest m h r e =
    rw m (insert_value-Reads x flags i value bs rest h r e)

-- An index and a value behind it.
index_and_string :
    (x : InsertWithNameRef) (flags i : ℕ) (value : List ℕ)
    → 2 ≤ flags
    → flags < 4
    → bit_and flags 0b10 ≡ 0b10
    → (if bit_and flags 0b01 == 0b01 then static i value else dynamic i value) ≡ x
    → i < 2 ^ 63
    → IsString value
    → (bs : List ℕ) × ((PrefixInt.encode 6 flags i ⊕ PrefixString.encode 8 0 value) ≡ some bs)
      × InstructionOf insert_with_name_ref decode_insert_ref x bs
unfolding decode_insert_ref
index_and_string x flags i value s t m e h (a, n) =
    let (ibs, p) = encode_int-total 6 flags i (omega arith) (omega arith) in
    let (first, others, q, k, b) = encode-first 6 flags i ibs (omega arith) (omega arith) p in
    let (vbs, v, r) =
      decode-encode_string 8 0 value (omega arith) (omega arith) (omega arith) a n in
    (
      ibs ++ vbs,
      ⊕-join (PrefixInt.encode 6 flags i) (PrefixString.encode 8 0 value) p v,
      record {
        first = first;
        others = others ++ vbs;
        bytes_are = ap (λ t. t ++ vbs) q;
        kind_is = (encoder_instruction_kind first b).0 (omega (arith, k));
        reads_back = λ rest.
            ap (λ t. on_name_index (PrefixInt.decode 6 t)) (append_assoc ibs vbs rest)
            ∙ ap on_name_index (
                decode-encode_int 6 flags i ibs (vbs ++ rest) (omega arith) (omega arith)
                  (omega arith) p)
            ∙ on_name_index-Reads x flags i value vbs rest m h r e;
      },
    )

-- An insertion with an index below 2^63 for its name and a value of fewer than 2^26 bytes is
-- encoded to bytes of which the first says so, and is read back, whatever follows it.
pub decode-encode_insert_ref :
    (x : InsertWithNameRef)
    → index_of x < 2 ^ 63
    → IsString (value_of x)
    → (bs : List ℕ) × (encode_insert_ref x ≡ some bs)
      × InstructionOf insert_with_name_ref decode_insert_ref x bs
unfolding encode_insert_ref
decode-encode_insert_ref (static i v) h n =
    index_and_string (static i v) 3 i v (omega arith) (omega arith) refl refl h n
decode-encode_insert_ref (dynamic i v) h n =
    index_and_string (dynamic i v) 2 i v (omega arith) (omega arith) refl refl h n

-- An insertion with a name and a value of fewer than 2^26 bytes each is encoded to bytes of which
-- the first says so, and is read back, whatever follows it.
pub decode-encode_insert_literal :
    (x : InsertWithoutNameRef)
    → IsString x.name
    → IsString x.value
    → (bs : List ℕ) × (encode_insert_literal x ≡ some bs)
      × InstructionOf insert_without_name_ref decode_insert_literal x bs
unfolding encode_insert_literal decode_insert_literal
decode-encode_insert_literal x (a, n) (b, m) =
    let (p, e, r) = decode-encode_string 6 1 x.name (omega arith) (omega arith) (omega arith) a n in
    let (q, f, s) =
      decode-encode_string 8 0 x.value (omega arith) (omega arith) (omega arith) b m in
    (
      p ++ q,
      ⊕-join (PrefixString.encode 6 1 x.name) (PrefixString.encode 8 0 x.value) e f,
      record {
        first = r.first;
        others = r.others ++ q;
        bytes_are = ap (λ t. t ++ q) r.bytes_are;
        kind_is = (encoder_instruction_kind r.first r.first_byte).1 (omega (arith, r.flags_are));
        reads_back = λ rest.
            ap decode_insert_literal (append_assoc p q rest)
            ∙ on_string-Reads 6 1 x.name p (q ++ rest) _ r
            ∙ on_string-Reads 8 0 x.value q rest _ s;
      },
    )

-- ===== src/Qpack/Literals/RoundTrip.antt =====
-- Field lines with strings are told apart by their first byte and read back.
use h.Prelude.{ℕ, ◌+◌, ◌*◌, ◌/◌, ◌^◌, ◌≤◌, ◌<◌, ◌≡◌, ap, sym, ◌∙◌, arith}
use h.Prelude.{
  List, ◌∷◌, ◌++◌, append_assoc, length, All, IsByte, some, ok, Reader, bind-ok, map_err-ok,
  map_err, pure, ◌>>=◌, ◌⊕◌, ⊕-join, ltb, le→ltb, false, usize_max,
}
use h.Prelude.Bits.{bit_and_field}
use native.Mathlib.Nat.{one-le-pow}
use h.Qpack.PrefixInt
use h.Qpack.PrefixInt.RoundTrip.{decode-encode_int, encode_int-total, encode-first}
use h.Qpack.PrefixString
use h.Qpack.PrefixString.RoundTrip.{Reads, decode-encode_string}
use h.Qpack.Parse.{ParseError, integer, string}
use h.Qpack.FieldLine.{
  HeaderBlockField, literal_with_name_ref, literal_with_post_base_name_ref, literal,
  header_block_field,
}
use h.Qpack.FieldLine.RoundTrip.{header_block_field-kind}
use h.Qpack.Literals.{
  LiteralWithNameRef, static, dynamic, index_and_value, on_name_ref, decode_name_ref,
  encode_name_ref, LiteralWithPostBaseNameRef, on_post_base_name_ref, decode_post_base_name_ref,
  encode_post_base_name_ref, Literal, name_and_value, decode_literal, encode_literal,
}

-- Bytes that start with a byte of this kind, and from which the reader reads this, whatever follows
-- them.
pub record LineOf {A : Type 0} (kind : HeaderBlockField) (reader : Reader ParseError A) (x : A)
    (bs : List ℕ) : Type 0 where
  pub first : ℕ
  pub others : List ℕ
  pub bytes_are : bs ≡ first ∷ others
  pub kind_is : header_block_field first ≡ kind
  pub reads_back : (rest : List ℕ) → reader (bs ++ rest) ≡ (ok x, rest)

-- A string that the encoder takes.
abbrev pub IsString : List ℕ → Type 0
IsString s = All IsByte s × (length s < 2 ^ 26)

index_and_value-Reads :
    {A : Type 0} (make : ℕ → List ℕ → A) (i : ℕ) (value bs rest : List ℕ)
    → i < 2 ^ 63
    → Reads 8 0 value bs
    → index_and_value make i (bs ++ rest) ≡ (ok (make i value), rest)
unfolding index_and_value
index_and_value-Reads make i value bs rest h r =
    let l : ltb usize_max i ≡ false = le→ltb _ _ (omega arith) in
    rw l (
      bind-ok (map_err string (PrefixString.decode 8)) (λ v. pure (make i v)) (bs ++ rest)
        (map_err-ok string (PrefixString.decode 8) (bs ++ rest) (r.reads_back rest)))

-- An integer and a string behind it.
module _ {A : Type 0} (size flags i : ℕ) (value : List ℕ) (on : ℕ → ℕ → Reader ParseError A)
    (x : A) where
  int_and_string :
      (kind : HeaderBlockField)
      → 1 ≤ size
      → size ≤ 4
      → flags * 2 ^ size + 2 ^ size ≤ 256
      → flags * 2 ^ size < 256
      → ((first : ℕ) → first / 2 ^ size ≡ flags → first < 256 → header_block_field first ≡ kind)
      → ((bs rest : List ℕ) → Reads 8 0 value bs → on flags i (bs ++ rest) ≡ (ok x, rest))
      → i < 2 ^ 63
      → IsString value
      → (bs : List ℕ) × ((PrefixInt.encode size flags i ⊕ PrefixString.encode 8 0 value) ≡ some bs)
        × LineOf kind (map_err integer (PrefixInt.decode size) >>= λ r. on r.0 r.1) x bs
  int_and_string kind s t f g k h l (a, n) =
      let (ibs, e) = encode_int-total size flags i (omega arith) (omega arith) in
      let (first, others, p, q, r) = encode-first size flags i ibs s f e in
      let (b, c, d) =
        decode-encode_string 8 0 value (omega arith) (omega arith) (omega arith) a n in
      (
        ibs ++ b,
        ⊕-join (PrefixInt.encode size flags i) (PrefixString.encode 8 0 value) e c,
        record {
          first = first;
          others = others ++ b;
          bytes_are = ap (λ t. t ++ b) p;
          kind_is = k first q r;
          reads_back = λ rest.
              ap (map_err integer (PrefixInt.decode size) >>= λ r. on r.0 r.1)
                (append_assoc ibs b rest)
              ∙ bind-ok (map_err integer (PrefixInt.decode size)) (λ r. on r.0 r.1)
                  (ibs ++ (b ++ rest))
                  (map_err-ok integer (PrefixInt.decode size) (ibs ++ (b ++ rest)) (
                    decode-encode_int size flags i ibs (b ++ rest) s g
                      (omega (arith, one-le-pow size 2)) e))
              ∙ h b rest d;
        },
      )

abbrev index_of : LiteralWithNameRef → ℕ
index_of (static i v) = i
index_of (dynamic i v) = i

abbrev value_of : LiteralWithNameRef → List ℕ
value_of (static i v) = v
value_of (dynamic i v) = v

-- A field line with an index below 2^63 for its name and a value of fewer than 2^26 bytes starts
-- with a byte that says so and is read back, whatever follows it.
pub decode-encode_name_ref :
    (x : LiteralWithNameRef)
    → index_of x < 2 ^ 63
    → IsString (value_of x)
    → (bs : List ℕ) × (encode_name_ref x ≡ some bs)
      × LineOf literal_with_name_ref decode_name_ref x bs
unfolding encode_name_ref decode_name_ref on_name_ref
decode-encode_name_ref (static i v) l n =
    int_and_string 4 5 i v on_name_ref (static i v) literal_with_name_ref (omega arith)
      (omega arith) (omega arith) (omega arith)
      (λ b q r. (header_block_field-kind b r).3 (omega arith) (omega arith))
      (λ bs rest r. index_and_value-Reads static i v bs rest l r) l n
decode-encode_name_ref (dynamic i v) l n =
    int_and_string 4 4 i v on_name_ref (dynamic i v) literal_with_name_ref (omega arith)
      (omega arith) (omega arith) (omega arith)
      (λ b q r. (header_block_field-kind b r).3 (omega arith) (omega arith))
      (λ bs rest r. index_and_value-Reads dynamic i v bs rest l r) l n

-- A field line with an index below 2^63 behind the base for its name and a value of fewer than 2^26
-- bytes starts with a byte that says so and is read back, whatever follows it.
pub decode-encode_post_base_name_ref :
    (x : LiteralWithPostBaseNameRef)
    → x.index < 2 ^ 63
    → IsString x.value
    → (bs : List ℕ) × (encode_post_base_name_ref x ≡ some bs)
      × LineOf literal_with_post_base_name_ref decode_post_base_name_ref x bs
unfolding encode_post_base_name_ref decode_post_base_name_ref on_post_base_name_ref
decode-encode_post_base_name_ref x l n =
    int_and_string 3 0 x.index x.value on_post_base_name_ref x literal_with_post_base_name_ref
      (omega arith) (omega arith) (omega arith) (omega arith)
      (λ b q r. (header_block_field-kind b r).0 (omega arith))
      (λ bs rest r.
        index_and_value-Reads (λ index value. record { index = index; value = value }) x.index
          x.value bs rest l r)
      l n

read_literal :
    (first : ℕ) (buf : List ℕ)
    → first / 2 ^ 3 ≡ 5
    → decode_literal (first ∷ buf) ≡ name_and_value (first ∷ buf)
unfolding decode_literal
read_literal first buf h = ground (arith, bit_and_field 5 3 first)

name_and_value-Reads :
    (name value p q rest : List ℕ)
    → Reads 4 2 name p
    → Reads 8 0 value q
    → name_and_value (p ++ (q ++ rest)) ≡ (ok (record { name = name; value = value }), rest)
unfolding name_and_value
name_and_value-Reads name value p q rest r s =
    bind-ok (map_err string (PrefixString.decode 4)) _ (p ++ (q ++ rest))
      (map_err-ok string (PrefixString.decode 4) (p ++ (q ++ rest)) (r.reads_back (q ++ rest)))
    ∙ bind-ok (map_err string (PrefixString.decode 8)) _ (q ++ rest)
        (map_err-ok string (PrefixString.decode 8) (q ++ rest) (s.reads_back rest))

-- A field line with a name and a value of fewer than 2^26 bytes each starts with a byte that says
-- so and is read back, whatever follows it.
pub decode-encode_literal :
    (x : Literal)
    → IsString x.name
    → IsString x.value
    → (bs : List ℕ) × (encode_literal x ≡ some bs) × LineOf literal decode_literal x bs
unfolding encode_literal
decode-encode_literal x (a, n) (b, m) =
    let (p, e, r) = decode-encode_string 4 2 x.name (omega arith) (omega arith) (omega arith) a n in
    let (q, f, s) =
      decode-encode_string 8 0 x.value (omega arith) (omega arith) (omega arith) b m in
    (
      p ++ q,
      ⊕-join (PrefixString.encode 4 2 x.name) (PrefixString.encode 8 0 x.value) e f,
      record {
        first = r.first;
        others = r.others ++ q;
        bytes_are = ap (λ t. t ++ q) r.bytes_are;
        kind_is =
            (header_block_field-kind r.first r.first_byte).2 (omega (arith, r.flags_are))
              (omega (arith, r.flags_are));
        reads_back = λ rest.
            ap decode_literal (append_assoc p q rest ∙ ap (λ t. t ++ (q ++ rest)) r.bytes_are)
            ∙ read_literal r.first (r.others ++ (q ++ rest)) r.flags_are
            ∙ ap (λ t. name_and_value (t ++ (q ++ rest))) (sym r.bytes_are)
            ∙ name_and_value-Reads x.name x.value p q rest r s;
      },
    )

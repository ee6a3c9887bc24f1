-- ===== src/Qpack/Stateless/Lines.antt =====
-- Each field line that is encoded is decoded to its field.
use h.Prelude.{ℕ, zero, suc, ◌<◌, ◌≡◌, refl, ap, ◌∙◌, arith}
use h.Prelude.{
  List, [], ◌∷◌, ◌++◌, length, get_elem?, some, Option-cases, inl, inr, ok, bind-ok, map_err-ok,
  map_err, pure,
}
use h.Qpack.PrefixInt.RoundTrip.{encode_int-total}
use h.Qpack.Field.{HeaderField, with_value}
use h.Qpack.Static.{StaticError, predefined_headers}
use h.Qpack.Static
use h.Qpack.Static.Lookup.{find, find_name}
use h.Qpack.Static.Inverse.{get-find, get-find_name}
use h.Qpack.FieldLine.{header_block_field, static, encode_indexed, decode_indexed}
use h.Qpack.FieldLine.RoundTrip.{decode-encode_indexed}
use h.Qpack.Literals.{
  LiteralWithNameRef, encode_name_ref, decode_name_ref, encode_literal, decode_literal,
}
use h.Qpack.Literals.RoundTrip.{IsString, decode-encode_name_ref, decode-encode_literal}
use h.Qpack.Stateless.{
  of_parse_error, static_field, on_indexed_line, on_name_ref_line, decode_line, encode_line,
}

-- A field whose name and value the encoder takes.
abbrev pub IsField : HeaderField → Type 0
IsField f = IsString f.name × IsString f.value

-- Bytes that start a field line and from which the decoder reads the field, whatever follows them.
pub record LineReads (f : HeaderField) (bs : List ℕ) : Type 0 where
  pub first : ℕ
  pub others : List ℕ
  pub bytes_are : bs ≡ first ∷ others
  pub reads_back :
      (rest : List ℕ) → decode_line first (header_block_field first) (bs ++ rest) ≡ (ok f, rest)

pub get_elem?-bound :
    {A : Type 0} (l : List A) (i : ℕ) {a : A} → get_elem? l i ≡ some a → i < length l
get_elem?-bound [] i e = absurd (cc)
get_elem?-bound (x ∷ l) zero e = omega arith
get_elem?-bound (x ∷ l) (suc i) e = omega (arith, get_elem?-bound l i e)

pub table_size : length predefined_headers ≡ 99
table_size = refl

pub get-bound : (i : ℕ) {f : HeaderField} → Static.get i ≡ ok f → i < 99
unfolding Static.get
get-bound i {f} e = elim (Option-cases (get_elem? predefined_headers i)) [
  | inl p ↦ absurd (ground (arith))
  | inr (g, p) ↦ omega (arith, get_elem?-bound predefined_headers i p, table_size)
]

pub static_field-ok :
    (i : ℕ) (f : HeaderField) (buf : List ℕ)
    → Static.get i ≡ ok f
    → static_field i buf ≡ (ok f, buf)
unfolding static_field
static_field-ok i f buf e = rw e refl

pub indexed_line :
    (i : ℕ) (f : HeaderField)
    → Static.get i ≡ ok f
    → (bs : List ℕ) × (encode_indexed (static i) ≡ some bs) × LineReads f bs
unfolding encode_indexed decode_line on_indexed_line
indexed_line i f g =
    let h = get-bound i g in
    let (bs, e) = encode_int-total 6 3 i (omega arith) (omega arith) in
    let (first, others, p, k) = (decode-encode_indexed (static i) bs [] (omega arith) e).1 in
    (
      bs,
      e,
      record {
        first = first;
        others = others;
        bytes_are = p;
        reads_back = λ rest.
            ap (λ t. decode_line first t (bs ++ rest)) k
            ∙ bind-ok (map_err of_parse_error decode_indexed) on_indexed_line (bs ++ rest) (
                map_err-ok of_parse_error decode_indexed (bs ++ rest)
                  (decode-encode_indexed (static i) bs rest (omega arith) e).0)
            ∙ static_field-ok i f rest g;
      },
    )

pub name_ref_line :
    (i : ℕ) (g f : HeaderField)
    → Static.get i ≡ ok g
    → g.name ≡ f.name
    → IsString f.value
    → (bs : List ℕ) × (encode_name_ref (LiteralWithNameRef.static i f.value) ≡ some bs)
      × LineReads f bs
unfolding decode_line on_name_ref_line with_value
name_ref_line i g f e n a =
    let h = get-bound i e in
    let (bs, w, l) = decode-encode_name_ref (LiteralWithNameRef.static i f.value) (omega arith) a in
    (
      bs,
      w,
      record {
        first = l.first;
        others = l.others;
        bytes_are = l.bytes_are;
        reads_back = λ rest.
            ap (λ t. decode_line l.first t (bs ++ rest)) l.kind_is
            ∙ bind-ok (map_err of_parse_error decode_name_ref) on_name_ref_line (bs ++ rest)
                (map_err-ok of_parse_error decode_name_ref (bs ++ rest) (l.reads_back rest))
            ∙ bind-ok (static_field i) (λ x. pure (with_value x f.value)) rest
                (static_field-ok i g rest e)
            ∙ (λ i. (ok (record { name = n i; value = f.value }), rest));
      },
    )

pub literal_line :
    (f : HeaderField)
    → IsField f
    → (bs : List ℕ) × (encode_literal (record { name = f.name; value = f.value }) ≡ some bs)
      × LineReads f bs
unfolding decode_line
literal_line f (a, b) =
    let (bs, w, l) = decode-encode_literal (record { name = f.name; value = f.value }) a b in
    (
      bs,
      w,
      record {
        first = l.first;
        others = l.others;
        bytes_are = l.bytes_are;
        reads_back = λ rest.
            ap (λ t. decode_line l.first t (bs ++ rest)) l.kind_is
            ∙ bind-ok (map_err of_parse_error decode_literal) _ (bs ++ rest)
                (map_err-ok of_parse_error decode_literal (bs ++ rest) (l.reads_back rest));
      },
    )

-- Whichever of the three field lines the encoder chooses, the decoder reads the field.
pub decode-encode_line :
    (f : HeaderField) → IsField f → (bs : List ℕ) × (encode_line f ≡ some bs) × LineReads f bs
unfolding encode_line
decode-encode_line f a = elim (Option-cases (find f)) [
  | inr (i, p) ↦ (let (bs, e, l) = indexed_line i f (get-find f i p) in (bs, cc (p, e), l))
  | inl p ↦ elim (Option-cases (find_name f.name)) [
    | inr (i, q) ↦
        (let (g, r, n) = get-find_name f.name i q in
          let (bs, e, l) = name_ref_line i g f r n a.1 in (bs, cc (p, q, e), l))
    | inl q ↦ (let (bs, e, l) = literal_line f a in (bs, cc (p, q, e), l))
  ]
]

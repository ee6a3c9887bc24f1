-- ===== src/Qpack/Stateless/RoundTrip.antt =====
-- A field section that is encoded without the dynamic table is decoded to its fields.
use h.Prelude.{ℕ, suc, ◌+◌, ◌-◌, ◌≤◌, ◌<◌, ◌≡◌, refl, ap, sym, ◌∙◌, arith, false}
use h.Prelude.{
  List, [], ◌∷◌, ◌++◌, append_assoc, append-nil, length, length-append, All, some, inl, inr,
  Outcome, ok, err, Reader, continue, bind-ok, map_err-ok, map_err, ⊕-join, ltb, ltb→lt, ltb→le,
  lt→ltb, le→ltb, Bool-cases,
}
use h.Qpack.PrefixInt
use h.Qpack.Field.{HeaderField, mem_size}
use h.Qpack.Prefix
use h.Qpack.Prefix.RoundTrip.{decode-encode_prefix}
use h.Qpack.FieldLine.{header_block_field}
use h.Qpack.Stateless.{
  DecoderError, of_parse_error, header_too_long, decode_line, Decoded, on_field, decode_lines,
  decode_all, decode_stateless, encode_line, encode_lines, total_size, encode_stateless,
}
use h.Qpack.Stateless.Lines.{IsField, LineReads, decode-encode_line}

abbrev so_far : List HeaderField → ℕ → Decoded
so_far acc n = record { fields = acc; dyn_ref = false; mem_size = n }

decode_lines-step :
    (fuel max_size : ℕ) (s : Decoded) (f : HeaderField) (b cs : List ℕ)
    → LineReads f b
    → decode_lines (suc fuel) max_size s (b ++ cs)
      ≡ on_field max_size s (decode_lines fuel max_size) f cs
unfolding decode_lines
decode_lines-step fuel max_size s f b cs l =
    ap (λ t. decode_lines (suc fuel) max_size s (t ++ cs)) l.bytes_are
    ∙ ap
        (λ t.
          continue (decode_line l.first (header_block_field l.first) (t ++ cs))
            (on_field max_size s (decode_lines fuel max_size)))
        (sym l.bytes_are)
    ∙ ap (λ t. continue t (on_field max_size s (decode_lines fuel max_size))) (l.reads_back cs)

decode_lines-end :
    (fuel max_size : ℕ) (s : Decoded) → decode_lines (suc fuel) max_size s [] ≡ (ok s, [])
unfolding decode_lines
decode_lines-end fuel max_size s = refl

-- The field is kept where the fields are not too large with it.
on_field-small :
    (max_size n : ℕ) (acc : List HeaderField) (f : HeaderField)
    (next : Decoded → Reader DecoderError Decoded) (cs : List ℕ)
    → n + mem_size f ≤ max_size
    → on_field max_size (so_far acc n) next f cs
      ≡ next (so_far (acc ++ (f ∷ [])) (n + mem_size f)) cs
on_field-small max_size n acc f next cs h = rw (le→ltb max_size (n + mem_size f) h) refl

on_field-large :
    (max_size n : ℕ) (acc : List HeaderField) (f : HeaderField)
    (next : Decoded → Reader DecoderError Decoded) (cs : List ℕ)
    → max_size < n + mem_size f
    → on_field max_size (so_far acc n) next f cs ≡ (err (header_too_long (n + mem_size f)), cs)
on_field-large max_size n acc f next cs h = rw (lt→ltb max_size (n + mem_size f) h) refl

same_decoded :
    {acc acc' : List HeaderField} {n n' : ℕ} {E : Type 0}
    → acc ≡ acc'
    → n ≡ n'
    → ◌≡◌ {A = Outcome E Decoded × List ℕ} (ok (so_far acc n), []) (ok (so_far acc' n'), [])
same_decoded p q = λ i. (ok (so_far (p i) (q i)), [])

-- What the loop gives for fields behind others that take `n`.
record Decodes (max_size : ℕ) (fields : List HeaderField) (bs : List ℕ) : Type 0 where
  fits :
      (fuel n : ℕ) (acc : List HeaderField)
      → length bs < fuel
      → n + total_size fields ≤ max_size
      → decode_lines fuel max_size (so_far acc n) bs
        ≡ (ok (so_far (acc ++ fields) (n + total_size fields)), [])
  too_long :
      (fuel n : ℕ) (acc : List HeaderField)
      → length bs < fuel
      → n ≤ max_size
      → max_size < n + total_size fields
      → (m : ℕ) × ((decode_lines fuel max_size (so_far acc n) bs).0 ≡ err (header_too_long m))
        × (max_size < m)

decode_lines-encode_lines :
    (max_size : ℕ) (fields : List HeaderField)
    → All IsField fields
    → (bs : List ℕ) × (encode_lines fields ≡ some bs) × Decodes max_size fields bs
unfolding encode_lines total_size
decode_lines-encode_lines max_size [] a = (
  [],
  refl,
  record {
    fits = λ fuel n acc h k.
        let e : fuel ≡ suc (fuel - 1) = omega arith in
        ap (λ t. decode_lines t max_size (so_far acc n) []) e
        ∙ decode_lines-end (fuel - 1) max_size (so_far acc n)
        ∙ same_decoded (sym (append-nil acc)) (omega arith);
    too_long = λ fuel n acc h k l. absurd (omega arith);
  },
)
decode_lines-encode_lines max_size (f ∷ fields) (p, a) =
    let (b, e, l) = decode-encode_line f p in
    let (cs, g, d) = decode_lines-encode_lines max_size fields a in
    (
      b ++ cs,
      ⊕-join (encode_line f) (encode_lines fields) e g,
      record {
        fits = λ fuel n acc h k.
            let s : fuel ≡ suc (fuel - 1) = omega arith in
            ap (λ t. decode_lines t max_size (so_far acc n) (b ++ cs)) s
            ∙ decode_lines-step (fuel - 1) max_size (so_far acc n) f b cs l
            ∙ on_field-small max_size n acc f (decode_lines (fuel - 1) max_size) cs (omega arith)
            ∙ d.fits (fuel - 1) (n + mem_size f) (acc ++ (f ∷ []))
                (omega (arith, length-append b cs, ap length l.bytes_are)) (omega arith)
            ∙ same_decoded (append_assoc acc (f ∷ []) fields) (omega arith);
        too_long = λ fuel n acc h k m.
            let s : fuel ≡ suc (fuel - 1) = omega arith in
            let t : decode_lines fuel max_size (so_far acc n) (b ++ cs)
                ≡ on_field max_size (so_far acc n) (decode_lines (fuel - 1) max_size) f cs =
              ap (λ t. decode_lines t max_size (so_far acc n) (b ++ cs)) s
              ∙ decode_lines-step (fuel - 1) max_size (so_far acc n) f b cs l in
            let r : length cs < fuel - 1 =
              omega (arith, length-append b cs, ap length l.bytes_are) in
            elim (Bool-cases (ltb max_size (n + mem_size f))) [
              | inl c ↦
                  (let u = ltb→lt max_size (n + mem_size f) c in
                    (
                      n + mem_size f,
                      ap (λ x. x.0)
                          (t
                            ∙ on_field-large max_size n acc f (decode_lines (fuel - 1) max_size) cs
                                u),
                      u,
                    ))
              | inr c ↦
                  (let u = ltb→le max_size (n + mem_size f) c in
                    let (size, v, w) =
                      d.too_long (fuel - 1) (n + mem_size f) (acc ++ (f ∷ [])) r u (omega arith) in
                    (
                      size,
                      ap (λ x. x.0)
                            (t
                              ∙ on_field-small max_size n acc f (decode_lines (fuel - 1) max_size)
                                  cs u)
                          ∙ v,
                      w,
                    ))
            ];
      },
    )

empty_prefix : Prefix.HeaderPrefix
empty_prefix = record { encoded_insert_count = 0; sign_negative = false; delta_base = 0 }

-- The prefix of a field section that refers to nothing.
prefix_bytes :
    (Prefix.new 0 0 0 0 ≡ some empty_prefix) × (Prefix.encode empty_prefix ≡ some (0 ∷ 0 ∷ []))
unfolding Prefix.new Prefix.encode PrefixInt.encode empty_prefix
prefix_bytes = (refl, refl)

no_refs : Prefix.get empty_prefix 0 0 ≡ ok (0, 0)
unfolding Prefix.get
no_refs = refl

decode_stateless-section :
    (max_size : ℕ) (bs : List ℕ) → decode_stateless max_size (0 ∷ 0 ∷ bs) ≡ decode_all max_size bs
unfolding decode_stateless empty_prefix
decode_stateless-section max_size bs =
    bind-ok (map_err of_parse_error Prefix.decode) _ (0 ∷ 0 ∷ bs) (
      map_err-ok of_parse_error Prefix.decode (0 ∷ 0 ∷ bs) (
        decode-encode_prefix empty_prefix (0 ∷ 0 ∷ []) bs (omega arith) (omega arith)
          prefix_bytes.1))
    ∙ rw no_refs refl

encode_stateless-lines :
    (fields : List HeaderField) (bs : List ℕ)
    → encode_lines fields ≡ some bs
    → encode_stateless fields ≡ some (0 ∷ 0 ∷ bs, total_size fields)
unfolding encode_stateless
encode_stateless-lines fields bs e =
    cc (prefix_bytes.0, ⊕-join (Prefix.encode empty_prefix) (encode_lines fields) prefix_bytes.1 e)

-- Fields whose names and values are bytes, fewer than 2^26 each, are encoded without the dynamic
-- table and decoded to themselves, with their size and no reference to the table, where the limit
-- is not below their size.
pub decode_stateless-encode_stateless :
    (fields : List HeaderField) (max_size : ℕ)
    → All IsField fields
    → total_size fields ≤ max_size
    → (bs : List ℕ) × (encode_stateless fields ≡ some (bs, total_size fields))
      × (decode_stateless max_size bs
          ≡ (ok (record { fields = fields; dyn_ref = false; mem_size = total_size fields }), []))
unfolding decode_all
decode_stateless-encode_stateless fields max_size a h =
    let (bs, e, d) = decode_lines-encode_lines max_size fields a in
    (
      0 ∷ 0 ∷ bs,
      encode_stateless-lines fields bs e,
      decode_stateless-section max_size bs
          ∙ d.fits (length bs + 1) 0 [] (omega arith) (omega arith)
          ∙ same_decoded refl (omega arith),
    )

-- Fields whose names and values are bytes, fewer than 2^26 each, and whose size is above the limit
-- are encoded without the dynamic table to a field section that is refused as too long, with a size
-- above the limit.
pub decode_stateless-too_long :
    (fields : List HeaderField) (max_size : ℕ)
    → All IsField fields
    → max_size < total_size fields
    → (bs : List ℕ) × (m : ℕ) × (encode_stateless fields ≡ some (bs, total_size fields))
      × ((decode_stateless max_size bs).0 ≡ err (header_too_long m))
      × (max_size < m)
unfolding decode_all
decode_stateless-too_long fields max_size a h =
    let (bs, e, d) = decode_lines-encode_lines max_size fields a in
    let (m, f, k) = d.too_long (length bs + 1) 0 [] (omega arith) (omega arith) (omega arith) in
    (
      0 ∷ 0 ∷ bs,
      m,
      encode_stateless-lines fields bs e,
      ap (λ t. t.0) (decode_stateless-section max_size bs) ∙ f,
      k,
    )

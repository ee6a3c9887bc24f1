-- ===== src/Qpack/Huffman/Agreement.antt =====
-- The codes of the encoder and the tables of the decoder agree: one check of all 256 codes.
use h.Prelude.{
  ℕ, zero, suc, ◌+◌, ◌-◌, ◌<◌, ◌≤◌, ◌≡◌, refl, ap, ◌∙◌, arith, ◌^◌, min, Bool, true, false, ◌&&◌,
  and_both, ◌==◌, ltb, leb,
}
use h.Prelude.{List, [], ◌∷◌, ◌++◌, length, get_elem?, Option, none, some, ltb→lt, leb→le}
use mathlib.Core.Path.{subst}
use h.Qpack.Huffman.Encoder.{EncodeValue}
use h.Qpack.Huffman.BitString.{bits_of}
use h.Qpack.Huffman.Walk.{reads}
use h.Qpack.Huffman.Tree.{hpack_string}
use h.Qpack.Huffman.Codes.{hpack_string as codes}

-- The bits of the parts, of which the last has what is left of `rest`.
abbrev pub parts_bits : List ℕ → ℕ → List Bool
parts_bits [] rest = []
parts_bits (part ∷ parts) rest = bits_of (min rest 8) part ++ parts_bits parts (rest - min rest 8)

-- Each part has bits, no more than it is said to have, and no bits are left.
abbrev pub parts_fit : List ℕ → ℕ → Bool
parts_fit [] rest = rest == 0
parts_fit (part ∷ parts) rest =
    ltb 0 rest && (ltb part (2 ^ min rest 8) && parts_fit parts (rest - min rest 8))

abbrev pub code_bits : EncodeValue → List Bool
code_bits v = parts_bits v.buffer v.bit_count

abbrev is_read : Option ℕ → ℕ → Bool
is_read none x = false
is_read (some y) x = y == x

abbrev bounded : ℕ → Bool
bounded n = ltb 0 n && leb n 30

bounded-lem : (n : ℕ) → bounded n ≡ true → (0 < n) × (n ≤ 30)
bounded-lem n h = let (p, q) = and_both (ltb 0 n) (leb n 30) h in (ltb→lt 0 n p, leb→le n 30 q)

-- A code is read as its byte, and its parts are in order.
abbrev code_agrees : ℕ → EncodeValue → Bool
code_agrees x v =
    is_read (reads hpack_string (code_bits v)) x
    && (parts_fit v.buffer v.bit_count && bounded (length (code_bits v)))

abbrev all_agree : ℕ → List EncodeValue → Bool
all_agree x [] = true
all_agree x (v ∷ vs) = code_agrees x v && all_agree (suc x) vs

codes_agree : all_agree 0 codes ≡ true
codes_agree = refl

codes-length : length codes ≡ 256
codes-length = refl

is_read-some : (o : Option ℕ) (x : ℕ) → is_read o x ≡ true → o ≡ some x
is_read-some none x h = absurd (cc)
is_read-some (some y) x h = let e : y ≡ x = ground arith in ap some e

-- What the check says of one byte.
pub record Agrees (x : ℕ) (v : EncodeValue) : Type 0 where
  pub code : reads hpack_string (code_bits v) ≡ some x
  pub fits : parts_fit v.buffer v.bit_count ≡ true
  pub bound : (0 < length (code_bits v)) × (length (code_bits v) ≤ 30)

agree_at :
    (vs : List EncodeValue) (x i : ℕ)
    → all_agree x vs ≡ true
    → i < length vs
    → (v : EncodeValue) × (get_elem? vs i ≡ some v) × Agrees (x + i) v
agree_at [] x i h k = absurd (omega arith)
agree_at (v ∷ vs) x zero h k =
    let (p, q) = and_both (code_agrees x v) (all_agree (suc x) vs) h in
    let (r, s) =
      and_both (is_read (reads hpack_string (code_bits v)) x)
        (parts_fit v.buffer v.bit_count && bounded (length (code_bits v))) p in
    let (t, u) = and_both (parts_fit v.buffer v.bit_count) (bounded (length (code_bits v))) s in
    let e : x ≡ x + 0 = omega arith in
    (
      v,
      refl,
      record {
        code = is_read-some (reads hpack_string (code_bits v)) x r ∙ ap some e;
        fits = t;
        bound = bounded-lem (length (code_bits v)) u;
      },
    )
agree_at (v ∷ vs) x (suc i) h k =
    let (p, q) = and_both (code_agrees x v) (all_agree (suc x) vs) h in
    let (w, e, a) = agree_at vs (suc x) i q (omega arith) in
    let n : suc x + i ≡ x + suc i = omega arith in (w, e, subst (λ t. Agrees t w) n a)

-- Every byte has a code that the decoder reads as it.
pub code_of : (x : ℕ) → x < 256 → (v : EncodeValue) × (get_elem? codes x ≡ some v) × Agrees x v
code_of x h =
    let (v, e, a) = agree_at codes 0 x codes_agree (omega (arith, codes-length)) in
    let n : 0 + x ≡ x = omega arith in (v, e, subst (λ t. Agrees t v) n a)

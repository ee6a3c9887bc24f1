-- ===== src/Qpack/Huffman/Bytes.antt =====
-- The bytes that `write_bits` puts, and what their bits are.
use h.Prelude.{ℕ, suc, ◌+◌, ◌*◌, ◌-◌, ◌/◌, ◌%◌, ◌<◌, ◌≤◌, ◌≡◌, refl, ap, sym, ◌∙◌, arith, ◌^◌, Bool}
use h.Prelude.{List, [], ◌∷◌, ◌++◌, length, length-append, get_elem?, set, Option, some}
use mathlib.Core.Path.{subst}
use native.Mathlib.Nat.{div-lt_iff_lt-mul, mod-eq_of_lt, one-le-pow}
use h.Qpack.Huffman.{BitWindow}
use h.Qpack.Huffman.Encoder.{write_in_byte, write_in_two, indexed, pad_left, pad_right}
use h.Qpack.Huffman.BitString.{
  of_bits, bits_of, bits, ones, length-bits_of, length-ones, of_bits-lt, of_bits-append,
  of_bits-bits_of, of_bits-ones, bits_of-of_bits, split_append, ones_split, pow_add,
  get_elem?-append,
}
use h.Qpack.Huffman.Masks.{
  pad_right_lem, pad_left_lem, started, in_byte_value, first_value, second_value,
}

pub byte_is : (l : List Bool) (n : ℕ) → length l ≡ 8 → of_bits l ≡ n → (bits_of 8 n ≡ l) × (n < 256)
byte_is l n h e = (
  ap (bits_of 8) (sym e) ∙ ap (λ t. bits_of t (of_bits l)) (sym h) ∙ bits_of-of_bits l,
  omega (arith, of_bits-lt l, e, ap (λ t. 2 ^ t) h),
)

pub set-append : (xs ys : List ℕ) (i x : ℕ) → set (xs ++ ys) (length xs + i) x ≡ xs ++ set ys i x
set-append [] ys i x = ap (λ t. set ys t x) none_more
  where
    none_more : 0 + i ≡ i
    none_more = omega arith
set-append (y ∷ xs) ys i x =
    ap (λ t. set (y ∷ (xs ++ ys)) t x) shifted ∙ ap (λ t. y ∷ t) (set-append xs ys i x)
  where
    shifted : suc (length xs) + i ≡ suc (length xs + i)
    shifted = omega arith

pub indexed-at :
    (l : List ℕ) (i x : ℕ) (k : ℕ → Option (List ℕ)) → get_elem? l i ≡ some x → indexed l i k ≡ k x
indexed-at l i x k e = rw (e, indexed) refl

pub write_in_byte-value :
    (out : List ℕ) (pos : BitWindow) (value p : ℕ)
    → get_elem? out pos.byte ≡ some (started pos.bit p)
    → pos.bit < 8
    → pos.bit + pos.count ≤ 8
    → write_in_byte out pos value
      ≡ some (set out pos.byte (in_byte_value pos.bit pos.count p value))
unfolding write_in_byte
write_in_byte-value out pos value p e h k =
    indexed-at out _ _ _ e
    ∙ indexed-at pad_right _ _ _ (pad_right_lem (8 - pos.bit) (omega arith))
    ∙ indexed-at pad_left _ _ _ (pad_left_lem pos.bit (omega arith))
    ∙ indexed-at pad_right _ _ _ (pad_right_lem (8 - pos.count - pos.bit) (omega arith))

pub write_in_two-value :
    (out : List ℕ) (pos : BitWindow) (value p next : ℕ)
    → get_elem? out pos.byte ≡ some (started pos.bit p)
    → get_elem? out (pos.byte + 1) ≡ some next
    → pos.bit < 8
    → 8 < pos.bit + pos.count
    → pos.count ≤ 8
    → write_in_two out pos value
      ≡ some (
          set
            (set out pos.byte (first_value pos.bit p (value / 2 ^ (pos.count - (8 - pos.bit)))))
            (pos.byte + 1)
            (second_value (8 - (pos.count - (8 - pos.bit))) value))
unfolding write_in_two
write_in_two-value out pos value p next e f h k l =
    indexed-at out _ _ _ e
    ∙ indexed-at pad_right _ _ _ (pad_right_lem (8 - pos.bit) (omega arith))
    ∙ indexed-at pad_left _ _ _ (pad_left_lem pos.bit (omega arith))
    ∙ indexed-at out _ _ _ f
    ∙ indexed-at pad_right _ _ _ (pad_right_lem (8 - (pos.count - (8 - pos.bit))) (omega arith))

-- A byte whose last bits are ones.
pub started_byte :
    (b : ℕ) (part : List Bool) (bit : ℕ)
    → b < 256
    → length part ≡ bit
    → bit < 8
    → bits_of 8 b ≡ part ++ ones (8 - bit)
    → b ≡ started bit (of_bits part)
started_byte b part bit h k l e = omega (
  arith,
  of_bits-bits_of 8 b,
  ap of_bits e,
  of_bits-append part (ones (8 - bit)),
  of_bits-ones (8 - bit),
  ap (λ t. of_bits part * 2 ^ t) (length-ones (8 - bit)),
  one-le-pow (8 - bit) 2,
)

pub low_bits : (c v r : ℕ) → v < 2 ^ c → of_bits (bits_of c v ++ ones r) ≡ v * 2 ^ r + (2 ^ r - 1)
low_bits c v r h =
    of_bits-append (bits_of c v) (ones r)
    ∙ ap (λ t. of_bits (bits_of c v) * 2 ^ t + of_bits (ones r)) (length-ones r)
    ∙ ap (λ t. t * 2 ^ r + of_bits (ones r)) (of_bits-bits_of c v ∙ mod-eq_of_lt h)
    ∙ ap (λ t. v * 2 ^ r + t) (of_bits-ones r)

-- The byte that holds the value and, behind it, ones.
pub fields_byte :
    (part : List Bool) (bit c v : ℕ)
    → length part ≡ bit
    → bit + c ≤ 8
    → v < 2 ^ c
    → let n = of_bits part * 2 ^ (8 - bit) + (v * 2 ^ (8 - bit - c) + (2 ^ (8 - bit - c) - 1)) in
      (bits_of 8 n ≡ part ++ (bits_of c v ++ ones (8 - bit - c))) × (n < 256)
fields_byte part bit c v h k l =
    let r = 8 - bit - c in
    let n : length (bits_of c v ++ ones r) ≡ 8 - bit =
      omega (arith, length-append (bits_of c v) (ones r), length-bits_of c v, length-ones r) in
    byte_is (part ++ (bits_of c v ++ ones r)) _
      (omega (arith, length-append part (bits_of c v ++ ones r)))
      (of_bits-append part (bits_of c v ++ ones r)
        ∙ ap (λ t. of_bits part * 2 ^ t + of_bits (bits_of c v ++ ones r)) n
        ∙ ap (λ t. of_bits part * 2 ^ (8 - bit) + t) (low_bits c v r l))

-- The byte at a position behind which there are only ones.
pub opened :
    (old : ℕ) (rest : List ℕ) (part : List Bool) (k bit : ℕ)
    → bits (old ∷ rest) ≡ part ++ ones k
    → length part ≡ bit
    → bit < 8
    → (bits_of 8 old ≡ part ++ ones (8 - bit)) × (bits rest ≡ ones (k - (8 - bit))) × (8 - bit ≤ k)
opened old rest part k bit e h l =
    let (m, p, q) =
      split_append part (ones k) (bits_of 8 old) (bits rest) (sym e)
        (omega (arith, length-bits_of 8 old)) in
    let (f, g, n) = ones_split k m (bits rest) q in
    let s : length m ≡ 8 - bit =
      omega (arith, ap length p, length-append part m, length-bits_of 8 old) in
    (p ∙ ap (λ t. part ++ t) (f ∙ ap ones s), g ∙ ap (λ t. ones (k - t)) s, omega arith)

pub get_at :
    (xs ys : List ℕ) (i j : ℕ) → length xs + i ≡ j → get_elem? (xs ++ ys) j ≡ get_elem? ys i
get_at xs ys i j h = ap (get_elem? (xs ++ ys)) (sym h) ∙ get_elem?-append xs ys i

pub set_at :
    (xs ys : List ℕ) (i j x : ℕ) → length xs + i ≡ j → set (xs ++ ys) j x ≡ xs ++ set ys i x
set_at xs ys i j x h = ap (λ t. set (xs ++ ys) t x) (sym h) ∙ set-append xs ys i x

pub of_bits_below : (l : List Bool) (n : ℕ) → length l ≡ n → of_bits l < 2 ^ n
of_bits_below l n h = subst (λ t. of_bits l < 2 ^ t) h (of_bits-lt l)

-- The byte with the high bits of a value, and the one with its low bits.
pub high_byte :
    (part : List Bool) (bit v : ℕ)
    → length part ≡ bit
    → bit < 8
    → v < 2 ^ (8 - bit)
    → let n = of_bits part * 2 ^ (8 - bit) + v in
      (bits_of 8 n ≡ part ++ bits_of (8 - bit) v) × (n < 256)
high_byte part bit v h k l =
    byte_is (part ++ bits_of (8 - bit) v) _
      (omega (arith, length-append part (bits_of (8 - bit) v), length-bits_of (8 - bit) v))
      (of_bits-append part (bits_of (8 - bit) v)
        ∙ ap (λ t. of_bits part * 2 ^ t + of_bits (bits_of (8 - bit) v))
            (length-bits_of (8 - bit) v)
        ∙ ap (λ t. of_bits part * 2 ^ (8 - bit) + t) (of_bits-bits_of (8 - bit) v ∙ mod-eq_of_lt l))

pub low_byte :
    (c v : ℕ)
    → c ≤ 8
    → let n = v % 2 ^ c * 2 ^ (8 - c) + (2 ^ (8 - c) - 1) in
      (bits_of 8 n ≡ bits_of c v ++ ones (8 - c)) × (n < 256)
low_byte c v h =
    byte_is (bits_of c v ++ ones (8 - c)) _
      (omega (
        arith,
        length-append (bits_of c v) (ones (8 - c)),
        length-bits_of c v,
        length-ones (8 - c),
      ))
      (of_bits-append (bits_of c v) (ones (8 - c))
        ∙ ap (λ t. of_bits (bits_of c v) * 2 ^ t + of_bits (ones (8 - c))) (length-ones (8 - c))
        ∙ ap (λ t. t * 2 ^ (8 - c) + of_bits (ones (8 - c))) (of_bits-bits_of c v)
        ∙ ap (λ t. v % 2 ^ c * 2 ^ (8 - c) + t) (of_bits-ones (8 - c)))

pub high_bound : (s c v : ℕ) → v < 2 ^ (s + c) → v / 2 ^ c < 2 ^ s
high_bound s c v h =
    (div-lt_iff_lt-mul (omega (arith, one-le-pow c 2))).1 (subst (λ t. v < t) (pow_add s c) h)

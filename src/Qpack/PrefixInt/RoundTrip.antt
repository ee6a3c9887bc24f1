-- ===== src/Qpack/PrefixInt/RoundTrip.antt =====
-- `decode` reads back what `encode` wrote.
use h.Prelude.{
  ℕ, zero, suc, ◌+◌, ◌-◌, ◌*◌, ◌/◌, ◌%◌, ◌^◌, ◌≤◌, ◌<◌, ◌≡◌, ◌≢◌, refl, ap, ◌∙◌, arith, bit_and,
  bit_or,
}
use h.Prelude.Bits.{bit_and_low, bit_and_field, bit_or_shifted, bit_or_comm, low_field}
use h.Prelude.{
  List, [], ◌∷◌, ◌++◌, some, ok, ◌>>=◌, ltb, if◌then◌else◌, ltb→lt, ltb→le, u8, inl, inr,
  Bool-cases, ⊕-eq-some,
}
use native.Mathlib.Nat.{pow-suc, mul-add-div_right, div-eq_of_lt, one-le-pow, pow-le-pow_right}
use h.Proto.VarInt
use h.Qpack.PrefixInt.{
  decode, decode_first, decode_loop, encode, encode_loop, rounds, digits, with_flags,
}

low_seven : (b : ℕ) → bit_and b 127 ≡ b % 128
low_seven b = bit_and_low 7 b

top_bit : (b : ℕ) → bit_and b 128 ≡ b / 128 % 2 * 128
top_bit b = bit_and_field 7 1 b

next_pow : (p n : ℕ) → 2 ^ (p + suc n) ≡ 2 ^ (p + n) * 2
next_pow p n = ap (λ t. 2 ^ t) (the_suc) ∙ pow-suc 2 (p + n)
  where
    the_suc : p + suc n ≡ suc (p + n)
    the_suc = omega arith

pow_split : (p n : ℕ) → 2 ^ (p + n) ≡ 2 ^ p * 2 ^ n
pow_split p zero = ap (λ t. 2 ^ t) (no_more) ∙ grind arith
  where
    no_more : p + 0 ≡ p
    no_more = omega arith
pow_split p (suc n) = next_pow p n ∙ rw (pow_split p n, pow-suc 2 n) (grind arith)

pow_seven : (p : ℕ) → 2 ^ (p + 7) ≡ 2 ^ p * 128
pow_seven p = pow_split p 7

split_digit : (q m x : ℕ) → m * x + q * (x * 128) ≡ (m + q * 128) * x
split_digit q m x = grind arith

digit_sum : (r x : ℕ) → r % 128 * x + r / 128 * (x * 128) ≡ r * x
digit_sum r x = split_digit (r / 128) (r % 128) x ∙ ap (λ t. t * x) (omega arith)

encode_small : (fuel r : ℕ) → r < 128 → encode_loop (suc fuel) r ≡ some (r ∷ [])
unfolding encode_loop
encode_small fuel r h = ground arith

loop_small :
    (f r value power : ℕ) (rest : List ℕ)
    → r < 128
    → decode_loop (suc f) value power (r ∷ rest) ≡ (ok (value + r * 2 ^ power), rest)
unfolding decode_loop VarInt.get_u8
loop_small f r value power rest h = ground (arith, low_seven r, top_bit r)

no_fuel : (r : ℕ) {bs : List ℕ} → encode_loop zero r ≢ some bs
unfolding encode_loop
no_fuel r e = cc

encode_big :
    (fuel r : ℕ) {bs : List ℕ}
    → 128 ≤ r
    → encode_loop (suc fuel) r ≡ some bs
    → (cs : List ℕ) × (encode_loop fuel (r / 128) ≡ some cs) × (bs ≡ (r % 128 + 128) ∷ cs)
unfolding encode_loop
encode_big fuel r {bs} h e =
    let (a, c, p, q, k) =
      ⊕-eq-some (some ((u8 (r % 128) + 128) ∷ [])) (encode_loop fuel (r / 128)) {bs = bs}
        (ground arith) in
    (c, q, ground arith)

loop_big :
    (f r value power : ℕ) (rest : List ℕ)
    → power + 7 < 63
    → decode_loop (suc f) value power ((r % 128 + 128) ∷ rest)
      ≡ decode_loop f (value + r % 128 * 2 ^ power) (power + 7) rest
unfolding decode_loop VarInt.get_u8
loop_big f r value power rest h = ground (arith, low_seven (r % 128 + 128), top_bit (r % 128 + 128))

sum_of : (value r x y : ℕ) → y ≡ x * 128 → value + r % 128 * x + r / 128 * y ≡ value + r * x
sum_of value r x y e = rw e (omega (arith, digit_sum r x))

-- The two loops, on a number of at most `f + 1` digits.
loop-encode :
    (g f r value power : ℕ) (bs rest : List ℕ)
    → r < 128 ^ suc f
    → power + 7 * suc f ≤ 63
    → encode_loop g r ≡ some bs
    → decode_loop (suc f) value power (bs ++ rest) ≡ (ok (value + r * 2 ^ power), rest)
loop-encode zero f r value power bs rest h k e = absurd (no_fuel r e)
loop-encode (suc g) f r value power bs rest h k e = elim (Bool-cases (ltb r 128)) [
  | inl p ↦
      let small = ltb→lt _ _ p in
      ap (λ t. decode_loop (suc f) value power (t ++ rest)) (one_digit small)
      ∙ loop_small f r value power rest small
  | inr p ↦ more_digits f h k (ltb→le _ _ p) λ f' cs h' k' q.
      loop-encode g f' (r / 128) (value + r % 128 * 2 ^ power) (power + 7) cs rest h' k' q
]
  where
    one_digit : r < 128 → bs ≡ r ∷ []
    one_digit h = cc (e, encode_small g r h)

    more_digits :
        (f : ℕ)
        → r < 128 ^ suc f
        → power + 7 * suc f ≤ 63
        → 128 ≤ r
        → ((f' : ℕ) (cs : List ℕ)
            → r / 128 < 128 ^ suc f'
            → power + 7 + 7 * suc f' ≤ 63
            → encode_loop g (r / 128) ≡ some cs
            → decode_loop (suc f') (value + r % 128 * 2 ^ power) (power + 7) (cs ++ rest)
              ≡ (ok (value + r % 128 * 2 ^ power + r / 128 * 2 ^ (power + 7)), rest))
        → decode_loop (suc f) value power (bs ++ rest) ≡ (ok (value + r * 2 ^ power), rest)
    more_digits zero h k l next = absurd (omega arith)
    more_digits (suc f) h k l next =
        let (cs, q, b) = encode_big g r l e in
        ap (λ t. decode_loop (suc (suc f)) value power (t ++ rest)) b
        ∙ loop_big (suc f) r value power (cs ++ rest) (omega arith)
        ∙ next f cs (omega (arith, pow-suc 128 (suc f))) (omega arith) q
        ∙ ap (λ t. (ok t, rest)) (sum_of value r (2 ^ power) (2 ^ (power + 7)) (pow_seven power))

mask_of : (size : ℕ) → 1 ≤ size → size ≤ 8 → 0xFF / 2 ^ (8 - size) ≡ 2 ^ size - 1
mask_of zero l h = absurd (omega arith)
mask_of (suc zero) l h = refl
mask_of (suc (suc zero)) l h = refl
mask_of (suc (suc (suc zero))) l h = refl
mask_of (suc (suc (suc (suc zero)))) l h = refl
mask_of (suc (suc (suc (suc (suc zero))))) l h = refl
mask_of (suc (suc (suc (suc (suc (suc zero)))))) l h = refl
mask_of (suc (suc (suc (suc (suc (suc (suc zero))))))) l h = refl
mask_of (suc (suc (suc (suc (suc (suc (suc (suc zero)))))))) l h = refl
mask_of (suc (suc (suc (suc (suc (suc (suc (suc (suc n))))))))) l h = absurd (omega arith)

quotient : (q r x : ℕ) → r < x → (q * x + r) / x ≡ q
quotient q r x h = mul-add-div_right (omega arith) q r ∙ omega (arith, div-eq_of_lt h)

factor_le : (q x : ℕ) → 1 ≤ x → q ≤ q * x
factor_le q x h = grind arith

-- What `decode` makes of a first byte.
first-decode :
    (size flags low : ℕ) (rest : List ℕ)
    → 1 ≤ size
    → size ≤ 8
    → flags * 2 ^ size < 256
    → low < 2 ^ size
    → decode size ((flags * 2 ^ size + low) ∷ rest) ≡ (
        if ltb low (2 ^ size - 1)
        then (ok (flags, low), rest)
        else (decode_loop rounds (2 ^ size - 1) 0 >>= with_flags flags) rest)
unfolding decode decode_first VarInt.get_u8
first-decode size flags low rest s t f l = ground (
  arith,
  mask_of size s t,
  quotient flags low (2 ^ size) l,
  low_field size flags low l,
  factor_le flags (2 ^ size) (omega arith),
)

-- The byte that `encode` starts with.
small-encode :
    (size flags value : ℕ) {bs : List ℕ}
    → size ≤ 8
    → flags * 2 ^ size < 256
    → value < 2 ^ size - 1
    → value < 256
    → encode size flags value ≡ some bs
    → bs ≡ (flags * 2 ^ size + value) ∷ []
unfolding encode
small-encode size flags value s f v w e = ground (arith, bit_or_shifted size flags value)

large-encode :
    (size flags value : ℕ) {bs : List ℕ}
    → size ≤ 8
    → flags * 2 ^ size < 256
    → 2 ^ size - 1 ≤ value
    → encode size flags value ≡ some bs
    → (cs : List ℕ) × (encode_loop digits (value - (2 ^ size - 1)) ≡ some cs)
      × (bs ≡ (flags * 2 ^ size + (2 ^ size - 1)) ∷ cs)
unfolding encode
large-encode size flags value {bs} s f v e =
    let (a, c, p, q, k) =
      ⊕-eq-some (some (bit_or (2 ^ size - 1) (u8 (flags * 2 ^ size)) ∷ []))
        (encode_loop digits (value - (2 ^ size - 1))) {bs = bs} (ground arith) in
    (
      c,
      q,
      ground (
        arith,
        bit_or_comm (2 ^ size - 1) (flags * 2 ^ size),
        bit_or_shifted size flags (2 ^ size - 1),
        one-le-pow size 2,
      ),
    )

byte_size : (size flags value : ℕ) {bs : List ℕ} → encode size flags value ≡ some bs → size ≤ 8
unfolding encode
byte_size size flags value e = ground arith

-- An encoded prefixed integer of up to 2^63 - 1 above the largest prefix is decoded to its flags
-- and itself, whatever follows it.
pub decode-encode_int :
    (size flags value : ℕ) (bs rest : List ℕ)
    → 1 ≤ size
    → flags * 2 ^ size < 256
    → value + 1 < 2 ^ size + 2 ^ 63
    → encode size flags value ≡ some bs
    → decode size (bs ++ rest) ≡ (ok (flags, value), rest)
decode-encode_int size flags value bs rest s f v e = elim (Bool-cases (ltb value (2 ^ size - 1))) [
  | inl p ↦
      let small = ltb→lt _ _ p in
      ap (λ t. decode size (t ++ rest))
        (small-encode size flags value t f small (omega (arith, range.0, range.1)) e)
      ∙ first-decode size flags value rest s t f (omega (arith, range.0, range.1))
      ∙ rw p refl
  | inr p ↦
      let (cs, q, b) = large-encode size flags value t f (ltb→le _ _ p) e in
      ap (λ t. decode size (t ++ rest)) b
      ∙ first-decode size flags (2 ^ size - 1) (cs ++ rest) s t f (omega (arith, range.0, range.1))
      ∙ ground (
        arith,
        loop-encode digits 8 (value - (2 ^ size - 1)) (2 ^ size - 1) 0 cs rest
            (omega (arith, range.0, range.1)) (omega (arith, range.0, range.1)) q,
        ltb→le _ _ p,
        range.0,
      )
]
  where
    t : size ≤ 8
    t = byte_size size flags value e

    range : (1 ≤ 2 ^ size) × (2 ^ size ≤ 256)
    range = (one-le-pow size 2 (omega arith), pow-le-pow_right (omega arith) t)

loop_total : (g r : ℕ) → r < 128 ^ suc g → (bs : List ℕ) × (encode_loop (suc g) r ≡ some bs)
unfolding encode_loop
loop_total zero r h = (r ∷ [], encode_small zero r (omega arith))
loop_total (suc g) r h = elim (Bool-cases (ltb r 128)) [
  | inl p ↦ (r ∷ [], encode_small (suc g) r (ltb→lt _ _ p))
  | inr p ↦
      let (bs, e) = loop_total g (r / 128) (omega (arith, pow-suc 128 (suc g))) in
      ((u8 (r % 128) + 128) ∷ bs, ground (arith, ltb→le _ _ p))
]

-- Every u64 is encoded with a prefix of at most eight bits: the loop ends within ten rounds.
pub encode_int-total :
    (size flags value : ℕ)
    → size ≤ 8
    → value < 2 ^ 64
    → (bs : List ℕ) × (encode size flags value ≡ some bs)
unfolding encode
encode_int-total size flags value s v =
    let (cs, e) = loop_total 9 (value - (2 ^ size - 1)) (omega arith) in
    elim (Bool-cases (ltb value (2 ^ size - 1))) [
      | inl p ↦ (bit_or (u8 (flags * 2 ^ size)) (u8 value) ∷ [], ground arith)
      | inr p ↦ (bit_or (2 ^ size - 1) (u8 (flags * 2 ^ size)) ∷ cs, ground arith)
    ]

-- The flags stand in the first byte.
pub encode-first :
    (size flags value : ℕ) (bs : List ℕ)
    → 1 ≤ size
    → flags * 2 ^ size + 2 ^ size ≤ 256
    → encode size flags value ≡ some bs
    → (first : ℕ) × (cs : List ℕ) × (bs ≡ first ∷ cs) × (first / 2 ^ size ≡ flags) × (first < 256)
encode-first size flags value bs s f e = elim (Bool-cases (ltb value (2 ^ size - 1))) [
  | inl p ↦
      let small = ltb→lt _ _ p in
      (
        flags * 2 ^ size + value,
        [],
        small-encode size flags value t (omega (arith, range)) small (omega (arith, range)) e,
        quotient flags value (2 ^ size) (omega arith),
        omega arith,
      )
  | inr p ↦
      let (cs, q, b) = large-encode size flags value t (omega (arith, range)) (ltb→le _ _ p) e in
      (
        flags * 2 ^ size + (2 ^ size - 1),
        cs,
        b,
        quotient flags (2 ^ size - 1) (2 ^ size) (omega (arith, range)),
        omega (arith, range),
      )
]
  where
    t : size ≤ 8
    t = byte_size size flags value e

    range : 1 ≤ 2 ^ size
    range = one-le-pow size 2 (omega arith)

-- ===== src/Qpack/Prefix/RoundTrip.antt =====
-- The decoder finds the required insert count and the base that the encoder had.
use h.Prelude.{
  ℕ, ◌+◌, ◌-◌, ◌*◌, ◌/◌, ◌%◌, ◌^◌, ◌≤◌, ◌<◌, ◌≡◌, ap, sym, ◌∙◌, arith, some, List, ◌++◌,
  append_assoc,
}
use h.Prelude.{
  ok, ltb, if◌then◌else◌, usize_max, ⊕-eq-some, Bool-cases, ltb→lt, ltb→le, ◌⊎◌, inl, inr,
}
use native.Mathlib.Nat.{mod-add-div', mod-lt, add-mul, mul-le-mul_right}
use native.Mathlib.Decide.{ℕ_discrete}
use h.Qpack.PrefixInt
use h.Qpack.PrefixInt.RoundTrip.{decode-encode_int}
use h.Qpack.Prefix.{HeaderPrefix, new, get, decode, encode, required_count, base_of, max_entries}

far : (n p q : ℕ) → p + 2 ≤ q → p * n + 2 * n ≤ q * n
far n p q h = omega (arith, add-mul p 2 n, mul-le-mul_right n h)

next : (n p : ℕ) → (p + 1) * n ≡ p * n + n
next n p = omega (arith, add-mul p 1 n)

-- Where two numbers less than half a turn apart are in turns of `n`.
near :
    (m q c p w : ℕ)
    → c < 2 * m
    → w < 2 * m
    → p * (2 * m) + w < q * (2 * m) + c + m
    → q * (2 * m) + c ≤ p * (2 * m) + w + m
    → (q ≡ p) ⊎ (q ≡ p + 1) ⊎ (p ≡ q + 1)
near m q c p w h k l t = elim (ℕ_discrete q p) [
  | yes e ↦ inl e
  | no e ↦ elim (ℕ_discrete q (p + 1)) [
    | yes f ↦ inr (inl f)
    | no f ↦ elim (ℕ_discrete p (q + 1)) [
      | yes g ↦ inr (inr g)
      | no g ↦ elim (Bool-cases (ltb p q)) [
        | inl b ↦ absurd (omega (arith, far (2 * m) p q (omega (arith, ltb→lt _ _ b))))
        | inr b ↦ absurd (omega (arith, far (2 * m) q p (omega (arith, ltb→le _ _ b))))
      ]
    ]
  ]
]

-- The count that is sent modulo twice the number of entries is found again by a decoder that has
-- seen insertions enough for all but `m` of the encoder's, and not `m` more.
count_found :
    (m q c p w : ℕ)
    → 0 < m
    → c < 2 * m
    → w < 2 * m
    → (p * (2 * m) + w) % (2 * m) ≡ w
    → p * (2 * m) + w < q * (2 * m) + c + m
    → q * (2 * m) + c ≤ p * (2 * m) + w + m
    → required_count (c + 1) (p * (2 * m) + w) m ≡ some (q * (2 * m) + c)
unfolding required_count
count_found m q c p w z h k e l t = elim (near m q c p w h k l t) [
  | inl f ↦ ground (arith, f)
  | inr (inl f) ↦ ground (arith, f, next (2 * m) p)
  | inr (inr f) ↦ ground (arith, f, next (2 * m) q)
]

found : (m r t : ℕ) → 0 < m → t < r + m → r ≤ t + m → required_count (r % (2 * m) + 1) t m ≡ some r
found m r t h l k =
    let n = 2 * m in
    let er = mod-add-div' r n in
    let et = mod-add-div' t n in
    let e : t / n * n + t % n ≡ t = omega (arith, et) in
    let f : r / n * n + r % n ≡ r = omega (arith, er) in
    let p =
      count_found m (r / n) (r % n) (t / n) (t % n) h (mod-lt r (omega arith))
        (mod-lt t (omega arith)) (ap (λ x. x % n) e) (omega arith) (omega arith) in
    ap (λ x. required_count (r % n + 1) x m) (sym e) ∙ p ∙ ap some f

-- A decoder whose count of insertions is less than max_entries away from the required insert count
-- reads the required insert count and the base of the encoder from the prefix that the encoder
-- makes, for a required count from 1 to what the encoder has inserted, a base that fits a usize and
-- a table of at least 32 bytes.
pub get-new :
    (required base inserted t size : ℕ)
    → 1 ≤ required
    → required ≤ inserted
    → base ≤ usize_max
    → 32 ≤ size
    → t < required + max_entries size
    → required ≤ t + max_entries size
    → (p : HeaderPrefix) × (new required base inserted size ≡ some p)
      × (get p t size ≡ ok (required, base))
unfolding new get base_of
get-new required base inserted t size one enough fits room near_below near_above =
    let q = found (max_entries size) required t (omega arith) near_below near_above in
    (
      record {
        encoded_insert_count = required % (2 * max_entries size) + 1;
        sign_negative = ltb base required;
        delta_base = if ltb base required then required - base - 1 else base - required;
      },
      ground arith,
      ground (arith, q),
    )

-- An encoded field section prefix whose numbers are below 2^63 is decoded to itself, whatever
-- follows it.
pub decode-encode_prefix :
    (p : HeaderPrefix) (bs rest : List ℕ)
    → p.encoded_insert_count < 2 ^ 63
    → p.delta_base < 2 ^ 63
    → encode p ≡ some bs
    → decode (bs ++ rest) ≡ (ok p, rest)
unfolding encode decode
decode-encode_prefix p bs rest h k e =
    let sign = if p.sign_negative then 1 else 0 in
    let (a, b, x, y, q) =
      ⊕-eq-some (PrefixInt.encode 8 0 p.encoded_insert_count) (PrefixInt.encode 7 sign p.delta_base)
        {bs = bs} e in
    let d =
      decode-encode_int 8 0 p.encoded_insert_count a (b ++ rest) (omega arith) (omega arith)
        (omega arith) x in
    let f =
      decode-encode_int 7 sign p.delta_base b rest (omega arith) (ground arith) (omega arith) y in
    ground (arith, d, f, q, append_assoc a b rest)

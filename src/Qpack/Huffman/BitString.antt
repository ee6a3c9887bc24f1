-- ===== src/Qpack/Huffman/BitString.antt =====
-- Numbers and bytes as strings of bits, the highest bit first.
use h.Prelude.{
  ℕ, zero, suc, ◌+◌, ◌-◌, ◌*◌, ◌/◌, ◌%◌, ◌^◌, ◌≤◌, ◌<◌, ◌≡◌, refl, ap, sym, ◌∙◌, arith, Bool, true,
  false,
}
use h.Prelude.{
  get_elem?, List, [], ◌∷◌, ◌++◌, append_assoc, length, length-append, ◌==◌, Bool-cases, inl, inr,
  All, IsByte,
}
use mathlib.Core.Path.{subst}
use native.Mathlib.Nat.{
  pow-suc, one-le-pow, mul-add-div_right, div-eq_of_lt, mod-add-div', mod-lt, mod-eq_of_lt,
  div-div-eq-div-mul, add-mul-mod_self_right,
}

abbrev pub digit : Bool → ℕ
digit true = 1
digit false = 0

abbrev pub of_bits : List Bool → ℕ
of_bits [] = 0
of_bits (b ∷ l) = digit b * 2 ^ length l + of_bits l

-- The `n` lowest bits of a number.
abbrev pub bits_of : ℕ → ℕ → List Bool
bits_of zero v = []
bits_of (suc n) v = (v / 2 ^ n % 2 == 1) ∷ bits_of n v

-- The bits of a sequence of bytes.
abbrev pub bits : List ℕ → List Bool
bits [] = []
bits (b ∷ bs) = bits_of 8 b ++ bits bs

abbrev pub ones : ℕ → List Bool
ones zero = []
ones (suc n) = true ∷ ones n

pub length-bits_of : (n v : ℕ) → length (bits_of n v) ≡ n
length-bits_of zero v = refl
length-bits_of (suc n) v = ap suc (length-bits_of n v)

pub length-ones : (n : ℕ) → length (ones n) ≡ n
length-ones zero = refl
length-ones (suc n) = ap suc (length-ones n)

pub length-bits : (bs : List ℕ) → length (bits bs) ≡ 8 * length bs
length-bits [] = refl
length-bits (b ∷ bs) =
    omega (arith, length-append (bits_of 8 b) (bits bs), length-bits_of 8 b, length-bits bs)

pub of_bits-lt : (l : List Bool) → of_bits l < 2 ^ length l
of_bits-lt [] = omega arith
of_bits-lt (true ∷ l) = omega (arith, of_bits-lt l, pow-suc 2 (length l))
of_bits-lt (false ∷ l) = omega (arith, of_bits-lt l, pow-suc 2 (length l))

pub pow_add : (m n : ℕ) → 2 ^ (m + n) ≡ 2 ^ m * 2 ^ n
pow_add zero n = ap (λ t. 2 ^ t) none_more ∙ grind arith
  where
    none_more : 0 + n ≡ n
    none_more = omega arith
pow_add (suc m) n =
    ap (λ t. 2 ^ t) shifted ∙ pow-suc 2 (m + n) ∙ rw (pow_add m n, pow-suc 2 m) (grind arith)
  where
    shifted : suc m + n ≡ suc (m + n)
    shifted = omega arith

pub of_bits-append :
    (xs ys : List Bool) → of_bits (xs ++ ys) ≡ of_bits xs * 2 ^ length ys + of_bits ys
of_bits-append [] ys = omega arith
of_bits-append (b ∷ xs) ys =
    rw (of_bits-append xs ys, length-append xs ys, pow_add (length xs) (length ys)) (grind arith)

pub of_bits-ones : (n : ℕ) → of_bits (ones n) ≡ 2 ^ n - 1
of_bits-ones zero = refl
of_bits-ones (suc n) =
    omega (arith, of_bits-ones n, ap (λ t. 2 ^ t) (length-ones n), pow-suc 2 n, one-le-pow n 2)

digit_of : (v n : ℕ) → digit (v / 2 ^ n % 2 == 1) ≡ v / 2 ^ n % 2
digit_of v n = elim (Bool-cases (v / 2 ^ n % 2 == 1)) [
  | inl p ↦ ground arith
  | inr p ↦ ground arith
]

pub remainder : (q r x : ℕ) → r < x → (q * x + r) % x ≡ r
remainder q r x h = ap (λ t. t % x) (turned q r x) ∙ add-mul-mod_self_right r q x ∙ mod-eq_of_lt h
  where
    turned : (q r x : ℕ) → q * x + r ≡ r + q * x
    turned q r x = omega arith

pub quotient : (q r x : ℕ) → r < x → (q * x + r) / x ≡ q
quotient q r x h = mul-add-div_right (omega arith) q r ∙ omega (arith, div-eq_of_lt h)

regroup_mod : (h d r x : ℕ) → (h * 2 + d) * x + r ≡ h * (x * 2) + (d * x + r)
regroup_mod h d r x = grind arith

digit_bound : (d r x : ℕ) → d < 2 → r < x → d * x + r < x * 2
digit_bound zero r x h k = omega arith
digit_bound (suc zero) r x h k = omega arith
digit_bound (suc (suc d)) r x h k = absurd (omega arith)

split_mod : (v x : ℕ) → 0 < x → v % (x * 2) ≡ v / x % 2 * x + v % x
split_mod v x h =
    let q = v / x in
    let r = v % x in
    let e : q * x + r ≡ v = omega (arith, mod-add-div' v x) in
    let f : q / 2 * 2 + q % 2 ≡ q = omega arith in
    ap (λ t. t % (x * 2)) (sym e ∙ ap (λ t. t * x + r) (sym f) ∙ regroup_mod (q / 2) (q % 2) r x)
    ∙ remainder (q / 2) (q % 2 * x + r) (x * 2) (digit_bound (q % 2) r x (omega arith) (mod-lt v h))

pub of_bits-bits_of : (n v : ℕ) → of_bits (bits_of n v) ≡ v % 2 ^ n
of_bits-bits_of zero v = omega arith
of_bits-bits_of (suc n) v =
    rw (length-bits_of n v, of_bits-bits_of n v, digit_of v n, pow-suc 2 n)
      (sym (split_mod v (2 ^ n) (omega (arith, one-le-pow n 2))))

same_digit :
    (a b : Bool) (x r s : ℕ) → r < x → s < x → digit a * x + r ≡ digit b * x + s → (a ≡ b) × (r ≡ s)
same_digit true true x r s h k e = (refl, omega arith)
same_digit false false x r s h k e = (refl, omega arith)
same_digit true false x r s h k e = absurd (omega arith)
same_digit false true x r s h k e = absurd (omega arith)

-- Strings of the same length that are the same number.
pub of_bits-eq : (xs ys : List Bool) → length xs ≡ length ys → of_bits xs ≡ of_bits ys → xs ≡ ys
of_bits-eq [] [] h e = refl
of_bits-eq [] (y ∷ ys) h e = absurd (omega arith)
of_bits-eq (x ∷ xs) [] h e = absurd (omega arith)
of_bits-eq (x ∷ xs) (y ∷ ys) h e =
    let l : length xs ≡ length ys = omega arith in
    let (p, q) =
      same_digit x y (2 ^ length xs) (of_bits xs) (of_bits ys) (of_bits-lt xs)
        (subst (λ n. of_bits ys < 2 ^ n) (sym l) (of_bits-lt ys))
        (e ∙ ap (λ n. digit y * 2 ^ n + of_bits ys) (sym l)) in
    cc (p, of_bits-eq xs ys l q)

pub bits_of-of_bits : (l : List Bool) → bits_of (length l) (of_bits l) ≡ l
bits_of-of_bits l =
    of_bits-eq (bits_of (length l) (of_bits l)) l (length-bits_of (length l) (of_bits l))
      (of_bits-bits_of (length l) (of_bits l) ∙ mod-eq_of_lt (of_bits-lt l))

-- The bits of a number, cut in two.
pub bits_of-append : (m n v : ℕ) → bits_of (m + n) v ≡ bits_of m (v / 2 ^ n) ++ bits_of n v
bits_of-append zero n v = ap (λ t. bits_of t v) none_more
  where
    none_more : 0 + n ≡ n
    none_more = omega arith
bits_of-append (suc m) n v =
    ap (λ t. bits_of t v) shifted
    ∙ ap (λ t. (t % 2 == 1) ∷ bits_of (m + n) v) high
    ∙ ap (λ t. (v / 2 ^ n / 2 ^ m % 2 == 1) ∷ t) (bits_of-append m n v)
  where
    shifted : suc m + n ≡ suc (m + n)
    shifted = omega arith

    swapped : 2 ^ (m + n) ≡ 2 ^ n * 2 ^ m
    swapped = pow_add m n ∙ grind arith

    high : v / 2 ^ (m + n) ≡ v / 2 ^ n / 2 ^ m
    high = ap (λ t. v / t) swapped ∙ sym (div-div-eq-div-mul v (2 ^ n) (2 ^ m))

-- Two strings with the same front.
pub split_append :
    {A : Type 0} (xs ys zs ws : List A)
    → xs ++ ys ≡ zs ++ ws
    → length xs ≤ length zs
    → (m : List A) × (zs ≡ xs ++ m) × (ys ≡ m ++ ws)
split_append [] ys zs ws e h = (zs, refl, e)
split_append (x ∷ xs) ys [] ws e h = absurd (omega arith)
split_append (x ∷ xs) ys (z ∷ zs) ws e h =
    let (m, p, q) = split_append xs ys zs ws (cc) (omega arith) in (m, cc, q)

-- A front of ones, and what is behind it.
pub ones_split :
    (k : ℕ) (xs ys : List Bool)
    → ones k ≡ xs ++ ys
    → (xs ≡ ones (length xs)) × (ys ≡ ones (k - length xs)) × (length xs ≤ k)
ones_split k [] ys e = (refl, sym e ∙ ap ones (omega arith), omega arith)
ones_split zero (x ∷ xs) ys e = absurd (cc)
ones_split (suc k) (x ∷ xs) ys e =
    let (p, q, h) = ones_split k xs ys (cc) in (cc p, q ∙ ap ones (omega arith), omega arith)

pub ones-append : (m n : ℕ) → ones m ++ ones n ≡ ones (m + n)
ones-append zero n = ap ones (omega arith)
ones-append (suc m) n = ap (λ t. true ∷ t) (ones-append m n) ∙ ap ones shifted
  where
    shifted : suc (m + n) ≡ suc m + n
    shifted = omega arith

pub bits-append : (xs ys : List ℕ) → bits (xs ++ ys) ≡ bits xs ++ bits ys
bits-append [] ys = refl
bits-append (x ∷ xs) ys =
    ap (λ t. bits_of 8 x ++ t) (bits-append xs ys)
    ∙ sym (append_assoc (bits_of 8 x) (bits xs) (bits ys))

pub behind : {A : Type 0} (xs : List A) {ys zs : List A} → xs ++ ys ≡ xs ++ zs → ys ≡ zs
behind [] e = e
behind (x ∷ xs) e = behind xs (cc)

-- A position in the bits of some bytes: the bytes before it, those from it on, and the bits of the byte
-- it is in that are before it.
pub record Located (src : List ℕ) (byte bit : ℕ) (pre rest : List Bool) : Type 0 where
  pub front : List ℕ
  pub tail : List ℕ
  pub part : List Bool
  pub whole : src ≡ front ++ tail
  pub before : length front ≡ byte
  pub pre_is : pre ≡ bits front ++ part
  pub part_length : length part ≡ bit
  pub tail_is : bits tail ≡ part ++ rest

pub locate :
    (src : List ℕ) (byte bit : ℕ) (pre rest : List Bool)
    → bits src ≡ pre ++ rest
    → length pre ≡ 8 * byte + bit
    → Located src byte bit pre rest
locate src zero bit pre rest e h = record {
  front = [];
  tail = src;
  part = pre;
  whole = refl;
  before = refl;
  pre_is = refl;
  part_length = omega arith;
  tail_is = e;
}
locate [] (suc byte) bit pre rest e h = absurd (omega (arith, ap length e, length-append pre rest))
locate (b ∷ bs) (suc byte) bit pre rest e h =
    let (m, p, q) =
      split_append (bits_of 8 b) (bits bs) pre rest e (omega (arith, length-bits_of 8 b)) in
    let n : length m ≡ 8 * byte + bit =
      omega (arith, ap length p, length-append (bits_of 8 b) m, length-bits_of 8 b) in
    let l = locate bs byte bit m rest q n in
    record {
      front = b ∷ l.front;
      tail = l.tail;
      part = l.part;
      whole = ap (λ t. b ∷ t) l.whole;
      before = ap suc l.before;
      pre_is =
          p
          ∙ ap (λ t. bits_of 8 b ++ t) l.pre_is
          ∙ sym (append_assoc (bits_of 8 b) (bits l.front) l.part);
      part_length = l.part_length;
      tail_is = l.tail_is;
    }

pub get_elem?-append :
    (xs ys : List ℕ) (i : ℕ) → get_elem? (xs ++ ys) (length xs + i) ≡ get_elem? ys i
get_elem?-append [] ys i = ap (get_elem? ys) none_more
  where
    none_more : 0 + i ≡ i
    none_more = omega arith
get_elem?-append (x ∷ xs) ys i = ap (get_elem? (x ∷ (xs ++ ys))) shifted ∙ get_elem?-append xs ys i
  where
    shifted : suc (length xs) + i ≡ suc (length xs + i)
    shifted = omega arith

pub All-append : (xs ys : List ℕ) → All IsByte (xs ++ ys) → All IsByte xs × All IsByte ys
All-append [] ys a = (tt, a)
All-append (x ∷ xs) ys (p, a) = let (b, c) = All-append xs ys a in ((p, b), c)

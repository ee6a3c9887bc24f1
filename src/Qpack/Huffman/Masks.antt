-- ===== src/Qpack/Huffman/Masks.antt =====
-- The masks of `write_bits`: what they leave of a byte, by a check of every case.
use h.Prelude.{
  ℕ, zero, suc, ◌+◌, ◌*◌, ◌-◌, ◌%◌, ◌<◌, ◌≤◌, ◌≡◌, refl, ap, ◌∙◌, arith, ◌^◌, Bool, true, false,
  ◌&&◌, ◌==◌, Bool-cases, inl, inr, and_both,
}
use h.Prelude.{bit_and, bit_or, u8, get_elem?, Option, none, some}
use h.Qpack.Huffman.Encoder.{pad_left, pad_right}

-- A test of every number below a bound.
abbrev below : ℕ → (ℕ → Bool) → Bool
below zero f = true
below (suc n) f = f n && below n f

below-at : (n : ℕ) (f : ℕ → Bool) → below n f ≡ true → (i : ℕ) → i < n → f i ≡ true
below-at zero f h i k = absurd (omega arith)
below-at (suc n) f h i k = elim (Bool-cases (i == n)) [
  | inl e ↦ (let p : i ≡ n = ground arith in ap f p ∙ (and_both (f n) (below n f) h).0)
  | inr e ↦ below-at n f (and_both (f n) (below n f) h).1 i (ground arith)
]

abbrev is_some : Option ℕ → ℕ → Bool
is_some none x = false
is_some (some y) x = y == x

is_some-eq : (o : Option ℕ) (x : ℕ) → is_some o x ≡ true → o ≡ some x
is_some-eq none x h = absurd (cc)
is_some-eq (some y) x h = let e : y ≡ x = ground arith in ap some e

pub pad_right_lem : (k : ℕ) → k ≤ 8 → get_elem? pad_right k ≡ some (2 ^ k - 1)
pad_right_lem k h =
    is_some-eq (get_elem? pad_right k) (2 ^ k - 1)
      (below-at 9 (λ i. is_some (get_elem? pad_right i) (2 ^ i - 1)) refl k (omega arith))

pub pad_left_lem : (k : ℕ) → k ≤ 8 → get_elem? pad_left k ≡ some (256 - 2 ^ (8 - k))
pad_left_lem k h =
    is_some-eq (get_elem? pad_left k) (256 - 2 ^ (8 - k))
      (below-at 9 (λ i. is_some (get_elem? pad_left i) (256 - 2 ^ (8 - i))) refl k (omega arith))

==→eq : (a b : ℕ) → (a == b) ≡ true → a ≡ b
==→eq a b h = ground arith

-- A byte of which `bit` bits are written and the others are ones.
abbrev pub started : ℕ → ℕ → ℕ
started bit p = p * 2 ^ (8 - bit) + (2 ^ (8 - bit) - 1)

abbrev pub in_byte_value : ℕ → ℕ → ℕ → ℕ → ℕ
in_byte_value bit count p v =
    bit_or
      (bit_and (bit_or (started bit p) (2 ^ (8 - bit) - 1))
        (bit_or (u8 (v * 2 ^ (8 - bit - count))) (256 - 2 ^ (8 - bit))))
      (2 ^ (8 - count - bit) - 1)

abbrev in_byte_test : ℕ → ℕ → ℕ → ℕ → Bool
in_byte_test bit count p v =
    in_byte_value bit count p v
    == p * 2 ^ (8 - bit) + (v * 2 ^ (8 - bit - count) + (2 ^ (8 - bit - count) - 1))

in_byte_tests :
    below 8 (λ bit.
      below
        (9 - bit)
        (λ count. below (2 ^ bit) (λ p. below (2 ^ count) (λ v. in_byte_test bit count p v))))
    ≡ true
in_byte_tests = refl

pub in_byte_value_lem :
    (bit count p v : ℕ)
    → bit < 8
    → bit + count ≤ 8
    → p < 2 ^ bit
    → v < 2 ^ count
    → in_byte_value bit count p v
      ≡ p * 2 ^ (8 - bit) + (v * 2 ^ (8 - bit - count) + (2 ^ (8 - bit - count) - 1))
in_byte_value_lem bit count p v h k l m = ==→eq _ _ (
    below-at (2 ^ count) (λ v. in_byte_test bit count p v)
      (below-at (2 ^ bit) (λ p. below (2 ^ count) (λ v. in_byte_test bit count p v))
        (below-at (9 - bit)
          (λ count. below (2 ^ bit) (λ p. below (2 ^ count) (λ v. in_byte_test bit count p v)))
          (below-at 8
            (λ bit.
              below (9 - bit) (λ count.
                below (2 ^ bit) (λ p. below (2 ^ count) (λ v. in_byte_test bit count p v))))
            in_byte_tests bit h)
          count (omega arith))
        p l)
      v m)

abbrev pub first_value : ℕ → ℕ → ℕ → ℕ
first_value bit p high =
    bit_and (bit_or (started bit p) (2 ^ (8 - bit) - 1)) (bit_or high (256 - 2 ^ (8 - bit)))

abbrev first_test : ℕ → ℕ → ℕ → Bool
first_test bit p high = first_value bit p high == p * 2 ^ (8 - bit) + high

first_tests :
    below 8 (λ bit. below (2 ^ bit) (λ p. below (2 ^ (8 - bit)) (λ v. first_test bit p v))) ≡ true
first_tests = refl

pub first_value_lem :
    (bit p high : ℕ)
    → bit < 8
    → p < 2 ^ bit
    → high < 2 ^ (8 - bit)
    → first_value bit p high ≡ p * 2 ^ (8 - bit) + high
first_value_lem bit p high h k l = ==→eq _ _ (
    below-at (2 ^ (8 - bit)) (λ v. first_test bit p v)
      (below-at (2 ^ bit) (λ p. below (2 ^ (8 - bit)) (λ v. first_test bit p v))
        (below-at 8 (λ bit. below (2 ^ bit) (λ p. below (2 ^ (8 - bit)) (λ v. first_test bit p v)))
          first_tests bit h)
        p k)
      high l)

abbrev pub second_value : ℕ → ℕ → ℕ
second_value rem v = bit_or (u8 (v * 2 ^ rem)) (2 ^ rem - 1)

abbrev second_test : ℕ → ℕ → Bool
second_test rem v = second_value rem v == v % 2 ^ (8 - rem) * 2 ^ rem + (2 ^ rem - 1)

second_tests : below 8 (λ rem. below 256 (λ v. second_test rem v)) ≡ true
second_tests = refl

pub second_value_lem :
    (rem v : ℕ)
    → rem < 8
    → v < 256
    → second_value rem v ≡ v % 2 ^ (8 - rem) * 2 ^ rem + (2 ^ rem - 1)
second_value_lem rem v h k = ==→eq _ _ (
    below-at 256 (λ v. second_test rem v)
      (below-at 8 (λ rem. below 256 (λ v. second_test rem v)) second_tests rem h) v k)

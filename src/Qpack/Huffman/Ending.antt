-- ===== src/Qpack/Huffman/Ending.antt =====
-- What the decoder does at the padding: less than a byte of ones ends the string.
use h.Prelude.{
  ℕ, zero, suc, ◌+◌, ◌*◌, ◌-◌, ◌%◌, ◌<◌, ◌≤◌, ◌≡◌, refl, ap, sym, ◌∙◌, arith, ◌^◌, Bool, true, ◌==◌,
  ltb, Bool-cases, inl, inr, u8,
}
use h.Prelude.{
  List, [], ◌++◌, append_assoc, append-nil, length, length-append, none, ok, All, IsByte, if_rule,
  ltb→lt, ltb→le, bit_and,
}
use h.Prelude.Bits.{bit_and_low}
use native.Mathlib.Nat.{mod-eq_of_lt, one-le-pow, pow-suc, pow-le-pow_right}
use h.Qpack.Huffman.{BitWindow, forwards, opposite_bit_window}
use h.Qpack.Huffman.Decoder.{
  HuffmanDecoder, decoder, DecodeTable, read_bits, check_eof, on_rest, decode_next, lookup_value,
  fetch_value,
}
use h.Qpack.Huffman.BitString.{
  of_bits, bits, ones, ones-append, length-bits, length-ones, of_bits-ones,
}
use h.Qpack.Huffman.Walk.{behind_window, forwards-window, fetch_value-bits, decode_next-value}
use h.Qpack.Huffman.Tree.{hpack_string, end0_11111, end5_11}
use h.Qpack.Huffman.Reading.{read_bits-of_bits, read_bits-beyond}

==-refl : (n : ℕ) → (n == n) ≡ true
==-refl n = ground arith

filler : (k : ℕ) → 0 < k → k ≤ 8 → u8 (2 * 2 ^ (k - 1) - 1) ≡ 2 ^ k - 1
filler zero h l = absurd (omega arith)
filler (suc k) h l =
    let e : suc k - 1 ≡ k = omega arith in
    let p : 2 * 2 ^ k ≡ 2 ^ suc k = omega (arith, pow-suc 2 k) in
    let q : 2 ^ suc k ≤ 2 ^ 8 = pow-le-pow_right (omega arith) l in
    rw (e, p) (mod-eq_of_lt (omega (arith, q, one-le-pow (suc k) 2)))

on_rest-ones :
    (side pos : BitWindow) (k : ℕ)
    → side.count ≡ k
    → 0 < k
    → k ≤ 8
    → on_rest (ok (of_bits (ones k))) side pos ≡ ok none
unfolding on_rest
on_rest-ones side pos k c h l =
    let e : u8 (2 * 2 ^ (side.count - 1) - 1) ≡ 2 ^ k - 1 =
      ap (λ t. u8 (2 * 2 ^ (t - 1) - 1)) c ∙ filler k h l in
    let m : bit_and (2 ^ k - 1) (2 ^ k - 1) ≡ 2 ^ k - 1 =
      bit_and_low k (2 ^ k - 1) ∙ mod-eq_of_lt (omega (arith, one-le-pow k 2)) in
    rw (e, of_bits-ones k, m, ==-refl (2 ^ k - 1)) refl

-- Less than a byte of ones is left, and the window is wider.
fetch_value-ones :
    (w : BitWindow) (input : List ℕ) (done : List Bool) (k : ℕ)
    → All IsByte input
    → length input < 2 ^ 29
    → bits input ≡ done ++ ones k
    → length done ≡ 8 * w.byte + w.bit
    → w.bit < 8
    → k < w.count
    → k < 8
    → w.count < 8
    → fetch_value w input ≡ ok none
unfolding fetch_value check_eof opposite_bit_window
fetch_value-ones w input done k a small e h b c l width =
    let n : 8 * length input ≡ 8 * w.byte + w.bit + k =
      omega (arith, ap length e, length-bits input, length-append done (ones k), length-ones k) in
    rw
      (
        read_bits-beyond input w.byte w.bit w.count small (omega arith) width (omega arith),
        fetch_value,
      )
      (if_rule (λ r. r ≡ ok none) (ltb (length input) (w.byte + 1)) _ _ (λ t. refl)
        (λ t.
          let last : w.byte + 1 ≡ length input =
            omega (arith, ltb→le (length input) (w.byte + 1) t) in
          let same : (w.byte + 1 == length input) ≡ true = ground arith in
          let left : 8 - w.bit % 8 ≡ k = omega arith in
          let r : read_bits input w.byte w.bit (8 - w.bit % 8) ≡ ok (of_bits (ones k)) =
            ap (read_bits input w.byte w.bit) (left ∙ sym (length-ones k))
            ∙ read_bits-of_bits input w.byte w.bit done (ones k) [] a small
                (e ∙ ap (λ t. done ++ t) (sym (append-nil (ones k)))) h b
                (omega (arith, length-ones k)) (omega (arith, length-ones k)) in
          rw (same, r) (on_rest-ones (opposite_bit_window w) w k left (omega arith) (omega arith))))

abbrev table : HuffmanDecoder → DecodeTable
table (decoder lookup t) = t

pub decode_next-none :
    (lookup : ℕ) (table : DecodeTable) (pos : BitWindow) (input : List ℕ)
    → fetch_value (forwards lookup pos) input ≡ ok none
    → (decode_next (decoder lookup table) pos input).0 ≡ ok none
unfolding decode_next
decode_next-none lookup table pos input e = cc (e)

narrow_ones :
    (lookup : ℕ) (table : DecodeTable) (pos : BitWindow) (input : List ℕ) (done : List Bool) (k : ℕ)
    → All IsByte input
    → length input < 2 ^ 29
    → bits input ≡ done ++ ones k
    → length done ≡ behind_window pos
    → k < lookup
    → k < 8
    → lookup < 8
    → (decode_next (decoder lookup table) pos input).0 ≡ ok none
narrow_ones lookup table pos input done k a small e h c l width =
    let (at, low, count) = forwards-window lookup pos in
    decode_next-none lookup table pos input (
      fetch_value-ones (forwards lookup pos) input done k a small e (h ∙ sym at) low
        (omega (arith, count)) l (omega (arith, count)))

-- A table that looks up no more ones than there are goes on with its last entry.
ones_on :
    (lookup : ℕ) (table : DecodeTable) (pos : BitWindow) (input : List ℕ) (done : List Bool) (k : ℕ)
    → All IsByte input
    → length input < 2 ^ 29
    → bits input ≡ done ++ ones (lookup + k)
    → length done ≡ behind_window pos
    → 0 < lookup
    → lookup ≤ 8
    → (decode_next (decoder lookup table) pos input
        ≡ lookup_value table
            (of_bits (ones lookup))
            (of_bits (ones lookup))
            (forwards lookup pos)
            input)
      × (bits input ≡ (done ++ ones lookup) ++ ones k)
      × (length (done ++ ones lookup) ≡ behind_window (forwards lookup pos))
ones_on lookup table pos input done k a small e h c l =
    let (at, low, count) = forwards-window lookup pos in
    let w = forwards lookup pos in
    let o = length-ones lookup in
    let b : bits input ≡ done ++ (ones lookup ++ ones k) =
      e ∙ ap (λ t. done ++ t) (sym (ones-append lookup k)) in
    let v =
      fetch_value-bits w input done (ones lookup) (ones k) a small b (h ∙ sym at) low
        (count ∙ sym o) (omega (arith, o)) (omega (arith, o)) in
    (
      decode_next-value lookup table pos input (of_bits (ones lookup)) v,
      b ∙ sym (append_assoc done (ones lookup) (ones k)),
      omega (arith, length-append done (ones lookup), h, at, count, o),
    )

-- Seven ones lead through two tables to a third, six or five through one to a second.
wide_ones :
    (pos : BitWindow) (input : List ℕ) (done : List Bool) (k : ℕ)
    → All IsByte input
    → length input < 2 ^ 29
    → bits input ≡ done ++ ones (5 + k)
    → length done ≡ behind_window pos
    → k < 3
    → (decode_next hpack_string pos input).0 ≡ ok none
unfolding lookup_value
wide_ones pos input done k a small e h c =
    let (r, b, n) =
      ones_on 5 (table hpack_string) pos input done k a small e h (omega arith) (omega arith) in
    let w = forwards 5 pos in
    elim (Bool-cases (ltb k 2)) [
      | inl t ↦ rw r (
          narrow_ones 2 (table end0_11111) w input (done ++ ones 5) k a small b n (ltb→lt k 2 t)
            (omega arith) (omega arith))
      | inr t ↦
          (let two : k ≡ 2 + 0 = omega (arith, ltb→le k 2 t) in
            let (s, p, q) =
              ones_on 2 (table end0_11111) w input (done ++ ones 5) 0 a small
                (b ∙ ap (λ t. (done ++ ones 5) ++ ones t) two) n (omega arith) (omega arith) in
            rw (r, s)
              (narrow_ones 1 (table end5_11) (forwards 2 w) input ((done ++ ones 5) ++ ones 2) 0 a
                small p q (omega arith) (omega arith) (omega arith)))
    ]

-- The padding ends the string.
pub decode_next-ones :
    (pos : BitWindow) (input : List ℕ) (done : List Bool) (k : ℕ)
    → All IsByte input
    → length input < 2 ^ 29
    → bits input ≡ done ++ ones k
    → length done ≡ behind_window pos
    → k < 8
    → (decode_next hpack_string pos input).0 ≡ ok none
decode_next-ones pos input done k a small e h l = elim (Bool-cases (ltb k 5)) [
  | inl t ↦
      narrow_ones 5 (table hpack_string) pos input done k a small e h (ltb→lt k 5 t) l (omega arith)
  | inr t ↦
      (let s : k ≡ 5 + (k - 5) = omega (arith, ltb→le k 5 t) in
        wide_ones pos input done (k - 5) a small (e ∙ ap (λ t. done ++ ones t) s) h
          (omega (arith, ltb→le k 5 t)))
]

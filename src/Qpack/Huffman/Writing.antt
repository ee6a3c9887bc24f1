-- ===== src/Qpack/Huffman/Writing.antt =====
-- `write_bits` writes the bits of a value over ones.
use h.Prelude.{ℕ, ◌+◌, ◌*◌, ◌-◌, ◌/◌, ◌%◌, ◌<◌, ◌≤◌, ◌≡◌, refl, ap, sym, ◌∙◌, arith, ◌^◌, Bool}
use h.Prelude.{
  List, [], ◌∷◌, ◌++◌, append_assoc, length, length-append, set, Option, some, All, IsByte, leb,
  leb→le, leb→lt, if_rule,
}
use mathlib.Core.Path.{subst}
use native.Mathlib.Nat.{lt_of_lt_of_le, pow-le-pow_right}
use h.Qpack.Huffman.{BitWindow}
use h.Qpack.Huffman.Encoder.{write_bits, write_in_byte, write_in_two}
use h.Qpack.Huffman.BitString.{
  of_bits, bits_of, bits, ones, length-ones, ones-append, bits_of-append, locate, All-append,
  bits-append,
}
use h.Qpack.Huffman.Masks.{
  started, in_byte_value_lem, first_value_lem, second_value, second_value_lem,
}
use h.Qpack.Huffman.Bytes.{
  write_in_byte-value, write_in_two-value, started_byte, fields_byte, opened, get_at, set_at,
  of_bits_below, high_byte, low_byte, high_bound,
}

-- What a write gives: bytes with these bits.
abbrev pub Written : Option (List ℕ) → List Bool → Type 0
Written r l = (out : List ℕ) × (r ≡ some out) × (bits out ≡ l) × All IsByte out

pub All-join : (xs ys : List ℕ) → All IsByte xs → All IsByte ys → All IsByte (xs ++ ys)
All-join [] ys a b = b
All-join (x ∷ xs) ys (p, a) b = (p, All-join xs ys a b)

ones_join : (a b n : ℕ) → a + b ≡ n → ones a ++ ones b ≡ ones n
ones_join a b n h = ones-append a b ∙ ap ones h

-- The bits of a byte with a value in it and of the ones behind it.
around :
    (front part mid : List Bool) (a b n : ℕ)
    → a + b ≡ n
    → front ++ ((part ++ (mid ++ ones a)) ++ ones b) ≡ (front ++ part) ++ (mid ++ ones n)
around front part mid a b n h = simp (append_assoc, ones_join a b n h) refl

one_tail :
    (front tail : List ℕ) (part : List Bool) (pos : BitWindow) (value k : ℕ)
    → All IsByte front
    → All IsByte tail
    → length front ≡ pos.byte
    → bits tail ≡ part ++ ones k
    → length part ≡ pos.bit
    → pos.bit < 8
    → 0 < pos.count
    → pos.bit + pos.count ≤ 8
    → pos.count ≤ k
    → value < 2 ^ pos.count
    → Written
        (write_in_byte (front ++ tail) pos value)
        ((bits front ++ part) ++ (bits_of pos.count value ++ ones (k - pos.count)))
one_tail front [] part pos value k a b n e h l z u c v =
    absurd (omega (arith, ap length e, length-append part (ones k), length-ones k))
one_tail front (old ∷ rest) part pos value k a (b, bs) n e h l z u c v =
    let (f, g, m) = opened old rest part k pos.bit e h l in
    let o : old ≡ started pos.bit (of_bits part) = started_byte old part pos.bit b h l f in
    let (r, t) = fields_byte part pos.bit pos.count value h u v in
    let new =
      of_bits part * 2 ^ (8 - pos.bit)
      + (value * 2 ^ (8 - pos.bit - pos.count) + (2 ^ (8 - pos.bit - pos.count) - 1)) in
    (
      front ++ (new ∷ rest),
      write_in_byte-value (front ++ (old ∷ rest)) pos value (of_bits part)
            (get_at front (old ∷ rest) 0 pos.byte (omega (arith, n)) ∙ ap some o) l u
          ∙ ap some (
              set_at front (old ∷ rest) 0 pos.byte _ (omega (arith, n))
              ∙ ap (λ x. front ++ (x ∷ rest))
                  (in_byte_value_lem pos.bit pos.count (of_bits part) value l u
                    (of_bits_below part pos.bit h) v)),
      bits-append front (new ∷ rest)
          ∙ ap (λ x. bits front ++ (x ++ bits rest)) r
          ∙ ap
              (λ x.
                bits front
                ++ ((part ++ (bits_of pos.count value ++ ones (8 - pos.bit - pos.count))) ++ x))
              g
          ∙ around (bits front) part (bits_of pos.count value) (8 - pos.bit - pos.count)
              (k - (8 - pos.bit)) (k - pos.count) (omega arith),
      All-join front (new ∷ rest) a (t, bs),
    )

-- The bits of two bytes that share a value.
across :
    (front part high low : List Bool) (a b n : ℕ)
    → a + b ≡ n
    → front ++ ((part ++ high) ++ ((low ++ ones a) ++ ones b))
      ≡ (front ++ part) ++ ((high ++ low) ++ ones n)
across front part high low a b n h = simp (append_assoc, ones_join a b n h) refl

two_tail :
    (front tail : List ℕ) (part : List Bool) (pos : BitWindow) (value k : ℕ)
    → All IsByte front
    → All IsByte tail
    → length front ≡ pos.byte
    → bits tail ≡ part ++ ones k
    → length part ≡ pos.bit
    → pos.bit < 8
    → 8 < pos.bit + pos.count
    → pos.count ≤ 8
    → pos.count ≤ k
    → value < 2 ^ pos.count
    → Written
        (write_in_two (front ++ tail) pos value)
        ((bits front ++ part) ++ (bits_of pos.count value ++ ones (k - pos.count)))
two_tail front [] part pos value k a b n e h l z u c v =
    absurd (omega (arith, ap length e, length-append part (ones k), length-ones k))
two_tail front (old ∷ []) part pos value k a b n e h l z u c v =
    absurd (omega (arith, ap length e, length-append part (ones k), length-ones k))
two_tail front (old ∷ next ∷ rest) part pos value k a (b, (_, bs)) n e h l z u c v =
    let s = 8 - pos.bit in
    let low = pos.count - s in
    let (f, g, m) = opened old (next ∷ rest) part k pos.bit e h l in
    let (_, g', m') = opened next rest [] (k - s) 0 g refl (omega arith) in
    let p = of_bits part in
    let o : old ≡ started pos.bit p = started_byte old part pos.bit b h l f in
    let sum : s + low ≡ pos.count = omega arith in
    let small : value < 256 = lt_of_lt_of_le v (pow-le-pow_right (omega arith) u) in
    let hb : value / 2 ^ low < 2 ^ s =
      high_bound s low value (subst (λ t. value < 2 ^ t) (sym sum) v) in
    let (r, t) = high_byte part pos.bit (value / 2 ^ low) h l hb in
    let (r', t') = low_byte low value (omega arith) in
    let one = p * 2 ^ s + value / 2 ^ low in
    let two = value % 2 ^ low * 2 ^ (8 - low) + (2 ^ (8 - low) - 1) in
    let w : 8 - (8 - low) ≡ low = omega arith in
    let second : second_value (8 - low) value ≡ two =
      second_value_lem (8 - low) value (omega arith) small
      ∙ ap (λ i. value % 2 ^ i * 2 ^ (8 - low) + (2 ^ (8 - low) - 1)) w in
    (
      front ++ (one ∷ two ∷ rest),
      write_in_two-value (front ++ (old ∷ next ∷ rest)) pos value p next
            (get_at front (old ∷ next ∷ rest) 0 pos.byte (omega (arith, n)) ∙ ap some o)
            (get_at front (old ∷ next ∷ rest) 1 (pos.byte + 1) (omega (arith, n))) l z u
          ∙ ap some (
              ap (λ x. set x (pos.byte + 1) (second_value (8 - low) value))
                (set_at front (old ∷ next ∷ rest) 0 pos.byte _ (omega (arith, n)))
              ∙ set_at front (_ ∷ next ∷ rest) 1 (pos.byte + 1) _ (omega (arith, n))
              ∙ ap (λ x. front ++ (x ∷ second_value (8 - low) value ∷ rest))
                  (first_value_lem pos.bit p (value / 2 ^ low) l (of_bits_below part pos.bit h) hb)
              ∙ ap (λ x. front ++ (one ∷ x ∷ rest)) second),
      bits-append front (one ∷ two ∷ rest)
          ∙ ap (λ x. bits front ++ (x ++ (bits_of 8 two ++ bits rest))) r
          ∙ ap (λ x. bits front ++ ((part ++ bits_of s (value / 2 ^ low)) ++ (x ++ bits rest))) r'
          ∙ ap
              (λ x.
                bits front
                ++ ((part ++ bits_of s (value / 2 ^ low))
                    ++ ((bits_of low value ++ ones (8 - low)) ++ x)))
              g'
          ∙ across (bits front) part (bits_of s (value / 2 ^ low)) (bits_of low value) (8 - low)
              (k - s - 8) (k - pos.count) (omega arith)
          ∙ ap (λ x. (bits front ++ part) ++ (x ++ ones (k - pos.count)))
              (sym (bits_of-append s low value) ∙ ap (λ t. bits_of t value) sum),
      All-join front (one ∷ two ∷ rest) a (t, (t', bs)),
    )

-- Where the bits behind a position are ones, as many as the window takes or more, write_bits gives
-- bytes in which the bits of a value that fits stand there, ones behind them, and the bits before
-- are kept.
pub write_bits-writes :
    (out : List ℕ) (pos : BitWindow) (value : ℕ) (done : List Bool) (k : ℕ)
    → All IsByte out
    → bits out ≡ done ++ ones k
    → length done ≡ 8 * pos.byte + pos.bit
    → pos.bit < 8
    → 0 < pos.count
    → pos.count ≤ 8
    → pos.count ≤ k
    → value < 2 ^ pos.count
    → Written (write_bits out pos value) (done ++ (bits_of pos.count value ++ ones (k - pos.count)))
unfolding write_bits
write_bits-writes out pos value done k a e h l z u c v =
    let p = locate out pos.byte pos.bit done (ones k) e h in
    let (x, y) = All-append p.front p.tail (subst (All IsByte) p.whole a) in
    subst
      (λ t.
        Written (write_bits out pos value) (t ++ (bits_of pos.count value ++ ones (k - pos.count))))
      (sym p.pre_is)
      (subst
        (λ t.
          Written (write_bits t pos value)
            ((bits p.front ++ p.part) ++ (bits_of pos.count value ++ ones (k - pos.count))))
        (sym p.whole)
        (if_rule
          (λ t.
            Written t
              ((bits p.front ++ p.part) ++ (bits_of pos.count value ++ ones (k - pos.count))))
          (leb (pos.bit + pos.count) 8) _ _
          (λ t.
            one_tail p.front p.tail p.part pos value k x y p.before p.tail_is p.part_length l z
              (leb→le _ _ t) c v)
          (λ t.
            two_tail p.front p.tail p.part pos value k x y p.before p.tail_is p.part_length l
              (leb→lt _ _ t) u c v)))

-- ===== src/Qpack/Huffman/Reading.antt =====
-- `read_bits` reads the bits at a position.
use h.Prelude.{
  ℕ, suc, ◌+◌, ◌-◌, ◌*◌, ◌/◌, ◌%◌, ◌^◌, ◌≤◌, ◌<◌, ◌≡◌, refl, ap, sym, ◌∙◌, arith, Bool, true, false,
  ◌||◌,
}
use h.Prelude.{
  List, [], ◌∷◌, ◌++◌, append_assoc, length, length-append, get_elem?, ok, err, All, IsByte,
}
use h.Prelude.{ltb, leb, ◌==◌, if_rule, u8, u16, u32, lt→ltb, leb→le, leb→lt}
use mathlib.Core.Path.{subst}
use native.Mathlib.Nat.{
  lt_of_lt_of_le, pow-le-pow_right, mul-lt-mul_of_pos_right, mul-le-mul_right, mul_comm,
  mod-eq_of_lt, one-le-pow,
}
use h.Qpack.Huffman.BitString.{
  of_bits, bits_of, bits, length-bits_of, length-bits, of_bits-lt, of_bits-append, of_bits-bits_of,
  split_append, pow_add, locate, get_elem?-append, All-append, remainder, quotient,
}
use h.Qpack.Huffman.Decoder.{range_overflows, read_bits, in_byte, in_two_bytes}

regroup :
    (A M Q a m q : ℕ) → (A * (m * q) + (M * q + Q)) * a ≡ A * (m * q * a) + (M * (a * q) + Q * a)
regroup A M Q a m q = grind arith

ordered : (m q a M : ℕ) → M * (a * q) + a * q ≡ suc M * q * a
ordered m q a M = grind arith

-- What the shifts leave of three fields: the one to the left drops the first, the one to the right the
-- last.
shifts :
    (A M Q a m q : ℕ)
    → M < m
    → Q < q
    → 0 < a
    → (A * (m * q) + (M * q + Q)) * a % (m * q * a) / (a * q) ≡ M
shifts A M Q a m q h k p =
    let low : Q * a < a * q = omega (arith, mul-lt-mul_of_pos_right {k = a} k p, mul_comm a q) in
    let top : suc M * q * a ≤ m * q * a = mul-le-mul_right a (mul-le-mul_right q h) in
    let fits : M * (a * q) + Q * a < m * q * a = omega (arith, ordered m q a M) in
    ap (λ t. t % (m * q * a) / (a * q)) (regroup A M Q a m q)
    ∙ ap (λ t. t / (a * q)) (remainder A (M * (a * q) + Q * a) (m * q * a) fits)
    ∙ quotient M (Q * a) (a * q) low

middle :
    (pre mid post : List Bool) (n : ℕ)
    → n ≡ length pre + (length mid + length post)
    → of_bits (pre ++ (mid ++ post)) * 2 ^ length pre % 2 ^ n / 2 ^ (n - length mid) ≡ of_bits mid
middle pre mid post n e =
    let a = 2 ^ length pre in
    let m = 2 ^ length mid in
    let q = 2 ^ length post in
    let whole : 2 ^ n ≡ m * q * a =
      ap (λ t. 2 ^ t) (e ∙ omega arith)
      ∙ pow_add (length mid + length post) (length pre)
      ∙ ap (λ t. t * a) (pow_add (length mid) (length post)) in
    let ends : 2 ^ (n - length mid) ≡ a * q =
      ap (λ t. 2 ^ t) (omega arith) ∙ pow_add (length pre) (length post) in
    let fields : of_bits (pre ++ (mid ++ post))
        ≡ of_bits pre * (m * q) + (of_bits mid * q + of_bits post) =
      of_bits-append pre (mid ++ post)
      ∙ ap (λ t. of_bits pre * 2 ^ t + of_bits (mid ++ post)) (length-append mid post)
      ∙ ap (λ t. of_bits pre * t + of_bits (mid ++ post)) (pow_add (length mid) (length post))
      ∙ ap (λ t. of_bits pre * (m * q) + t) (of_bits-append mid post) in
    rw (whole, ends, fields)
      (shifts (of_bits pre) (of_bits mid) (of_bits post) a m q (of_bits-lt mid) (of_bits-lt post)
        (omega (arith, one-le-pow (length pre) 2)))

one_byte :
    (b : ℕ) (pre mid post : List Bool)
    → b < 256
    → bits_of 8 b ≡ pre ++ (mid ++ post)
    → u8 (b * 2 ^ length pre) / 2 ^ (8 - length mid) ≡ of_bits mid
one_byte b pre mid post h e =
    let v : b ≡ of_bits (pre ++ (mid ++ post)) =
      sym (mod-eq_of_lt h) ∙ sym (of_bits-bits_of 8 b) ∙ ap of_bits e in
    ap (λ t. u8 (t * 2 ^ length pre) / 2 ^ (8 - length mid)) v
    ∙ middle pre mid post 8 (sym (length-bits_of 8 b) ∙ ap length e ∙ lengths)
  where
    lengths : length (pre ++ (mid ++ post)) ≡ length pre + (length mid + length post)
    lengths = length-append pre (mid ++ post) ∙ ap (λ t. length pre + t) (length-append mid post)

two_bytes :
    (b c : ℕ) (pre mid post : List Bool)
    → b < 256
    → c < 256
    → length mid ≤ 8
    → bits_of 8 b ++ bits_of 8 c ≡ pre ++ (mid ++ post)
    → u8 (u16 ((b * 2 ^ 8 + c) * 2 ^ length pre) / 2 ^ (16 - length mid)) ≡ of_bits mid
two_bytes b c pre mid post h k s e =
    let v : b * 2 ^ 8 + c ≡ of_bits (pre ++ (mid ++ post)) = omega (
      arith,
      of_bits-append (bits_of 8 b) (bits_of 8 c),
      of_bits-bits_of 8 b,
      of_bits-bits_of 8 c,
      ap of_bits e,
    ) in
    ap (λ t. u8 (u16 (t * 2 ^ length pre) / 2 ^ (16 - length mid))) v
    ∙ ap u8 (middle pre mid post 16 (ap length e ∙ lengths))
    ∙ mod-eq_of_lt (lt_of_lt_of_le (of_bits-lt mid) (pow-le-pow_right (omega arith) s))
  where
    lengths : length (pre ++ (mid ++ post)) ≡ length pre + (length mid + length post)
    lengths = length-append pre (mid ++ post) ∙ ap (λ t. length pre + t) (length-append mid post)

first_byte :
    (tail : List ℕ) (part mid post : List Bool)
    → All IsByte tail
    → bits tail ≡ part ++ (mid ++ post)
    → length part + length mid ≤ 8
    → 0 < length mid
    → in_byte (get_elem? tail 0) (length part) (length mid) ≡ ok (of_bits mid)
unfolding in_byte
first_byte [] part mid post a e h k =
    absurd (omega (arith, ap length e, length-append part (mid ++ post), length-append mid post))
first_byte (b ∷ bs) part mid post (p, a) e h k =
    let (m, f, g) =
      split_append (part ++ mid) post (bits_of 8 b) (bits bs) (append_assoc part mid post ∙ sym e)
        (omega (arith, length-append part mid, length-bits_of 8 b)) in
    ap ok (one_byte b part mid m p (f ∙ append_assoc part mid m))

first_two :
    (tail : List ℕ) (part mid post : List Bool)
    → All IsByte tail
    → bits tail ≡ part ++ (mid ++ post)
    → 8 < length part + length mid
    → length part < 8
    → length mid ≤ 8
    → in_two_bytes (get_elem? tail 0) (get_elem? tail 1) (length part) (length mid)
      ≡ ok (of_bits mid)
unfolding in_two_bytes
first_two [] part mid post a e h k l =
    absurd (omega (arith, ap length e, length-append part (mid ++ post), length-append mid post))
first_two (b ∷ []) part mid post a e h k l =
    absurd (omega (arith, ap length e, length-append part (mid ++ post), length-append mid post))
first_two (b ∷ c ∷ bs) part mid post (p, (q, a)) e h k l =
    let (m, f, g) =
      split_append (part ++ mid) post (bits_of 8 b ++ bits_of 8 c) (bits bs)
        (append_assoc part mid post ∙ sym e)
        (omega (
          arith,
          length-append part mid,
          length-append (bits_of 8 b) (bits_of 8 c),
          length-bits_of 8 b,
          length-bits_of 8 c,
        )) in
    ap ok (two_bytes b c part mid m p q l (f ∙ append_assoc part mid m))

-- The code's tests of the range, which a range inside the bytes passes.
within :
    (n at bit len : ℕ)
    → n < 2 ^ 29
    → 0 < len
    → len ≤ 8
    → at * 8 + bit + len ≤ n * 8
    → ((len == 0 || ltb 8 len) ≡ false)
      × (range_overflows n at bit len ≡ false)
      × (ltb (u32 n * 8) (at * 8 + bit + len) ≡ false)
within n at bit len h k l m =
    let a : u32 n ≡ n = mod-eq_of_lt (omega arith) in
    (ground arith, rw a (ground arith), rw a (ground arith))

-- In fewer than 2^29 bytes, read_bits gives the number that one to eight bits are, where they stand
-- at the position in the bits of these bytes.
pub read_bits-of_bits :
    (src : List ℕ) (byte bit : ℕ) (pre mid post : List Bool)
    → All IsByte src
    → length src < 2 ^ 29
    → bits src ≡ pre ++ (mid ++ post)
    → length pre ≡ 8 * byte + bit
    → bit < 8
    → 0 < length mid
    → length mid ≤ 8
    → read_bits src byte bit (length mid) ≡ ok (of_bits mid)
unfolding read_bits
read_bits-of_bits src byte bit pre mid post a small e h k l m =
    let p = locate src byte bit pre (mid ++ post) e h in
    let (_, b) = All-append p.front p.tail (subst (All IsByte) p.whole a) in
    let at : (i : ℕ) → get_elem? src (byte + i) ≡ get_elem? p.tail i = λ i.
      ap (λ t. get_elem? t (byte + i)) p.whole
      ∙ ap (λ t. get_elem? (p.front ++ p.tail) (t + i)) (sym p.before)
      ∙ get_elem?-append p.front p.tail i in
    let room : byte * 8 + bit + length mid ≤ length src * 8 = omega (
      arith,
      ap length e,
      length-bits src,
      length-append pre (mid ++ post),
      length-append mid post,
    ) in
    let here : byte + bit / 8 ≡ byte + 0 = omega arith in
    let inside : bit - bit / 8 * 8 ≡ length p.part = omega (arith, p.part_length) in
    let next : byte + 0 + 1 ≡ byte + 1 = omega arith in
    let (width, sums, range) = within (length src) byte bit (length mid) small l m room in
    rw (width, sums, range, inside, here, next, at 0, at 1)
      (if_rule (λ r. r ≡ ok (of_bits mid)) (leb (length p.part + length mid) 8) _ _
        (λ t. first_byte p.tail p.part mid post b p.tail_is (leb→le _ _ t) l)
        (λ t.
          first_two p.tail p.part mid post b p.tail_is (leb→lt _ _ t) (omega (arith, p.part_length))
            m))

-- A range that starts in the bytes and goes beyond the last one is refused.
pub read_bits-beyond :
    (src : List ℕ) (byte bit len : ℕ)
    → length src < 2 ^ 29
    → byte * 8 + bit ≤ length src * 8
    → len < 8
    → length src * 8 < byte * 8 + bit + len
    → read_bits src byte bit len ≡ err tt
unfolding read_bits
read_bits-beyond src byte bit len h b l k =
    let e : u32 (length src) ≡ length src = mod-eq_of_lt (omega arith) in
    let width : (len == 0 || ltb 8 len) ≡ false = ground arith in
    let sums : range_overflows (length src) byte bit len ≡ false = rw e (ground arith) in
    let range : ltb (u32 (length src) * 8) (byte * 8 + bit + len) ≡ true = rw e (lt→ltb _ _ k) in
    rw (width, sums, range) refl

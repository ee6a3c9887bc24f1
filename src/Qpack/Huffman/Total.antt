-- ===== src/Qpack/Huffman/Total.antt =====
-- The decoder of Huffman coded strings ends on every input: it runs out of neither fuel nor bytes.
use h.Prelude.{
  ℕ, zero, suc, ◌+◌, ◌-◌, ◌*◌, ◌/◌, ◌%◌, ◌^◌, ◌≤◌, ◌<◌, ◌≡◌, ◌≢◌, refl, sym, arith, false, ◌||◌,
  bit_and, u8, u32,
}
use h.Prelude.{
  List, [], ◌∷◌, length, get_elem?, Option, none, some, Outcome, ok, err, panic, ltb, leb, ◌==◌,
  if_rule, leb→lt, ltb→le, if◌then◌else◌,
}
use mathlib.Core.Path.{subst}
use native.Mathlib.Nat.{mod-eq_of_lt}
use h.Qpack.Huffman.{BitWindow, start, forwards, opposite_bit_window}
use h.Qpack.Huffman.Decoder.{
  HuffmanError, HuffmanDecoder, decoder, DecodeTable, no_more, sym as leaf, partial, in_byte,
  in_two_bytes, range_overflows, read_bits, on_rest, check_eof, fetch_value, decode_next,
  lookup_value, cons_ok, collect,
}
use h.Qpack.Huffman.Walk.{behind_window, forwards-window, decode_next-value}
use h.Qpack.Huffman.Ending.{decode_next-none}
use h.Qpack.Huffman.Tree.{hpack_string, hpack_decode}

-- A result that is no panic, with a property of its value.
abbrev Returns : {E A : Type 0} → (A → Type 0) → Outcome E A → Type 0
Returns P (ok a) = P a
Returns P (err e) = Unit {0}
Returns P panic = ⊥

get_elem?-within : (l : List ℕ) (i : ℕ) → i < length l → (x : ℕ) × (get_elem? l i ≡ some x)
get_elem?-within [] i h = absurd (omega arith)
get_elem?-within (x ∷ l) zero h = (x, refl)
get_elem?-within (x ∷ l) (suc i) h = get_elem?-within l i (omega arith)

-- What the code's tests of the range leave, for a range that starts in the bytes.
in_range :
    (n at bit len : ℕ)
    → n + 1 < 2 ^ 29
    → at * 8 + bit ≤ n * 8
    → (len == 0 || ltb 8 len) ≡ false
    → (0 < len)
      × (range_overflows n at bit len ≡ false)
      × (ltb (u32 n * 8) (at * 8 + bit + len) ≡ false → at * 8 + bit + len ≤ n * 8)
in_range n at bit len h k w =
    let e : u32 n ≡ n = mod-eq_of_lt (omega arith) in
    (
      ground arith,
      rw e (ground arith),
      λ f. ltb→le _ _ (subst (λ t. ltb (t * 8) (at * 8 + bit + len) ≡ false) e f),
    )

-- A position in the bytes.
abbrev InBytes : List ℕ → ℕ → ℕ → Type 0
InBytes src byte bit = byte * 8 + bit ≤ length src * 8

-- A range that was read.
abbrev InRange : List ℕ → ℕ → ℕ → ℕ → Type 0
InRange src byte bit len = (0 < len) × (byte * 8 + bit + len ≤ length src * 8)

read_bits-Returns :
    (src : List ℕ) (byte bit len : ℕ)
    → length src + 1 < 2 ^ 29
    → InBytes src byte bit
    → Returns (λ v. InRange src byte bit len) (read_bits src byte bit len)
unfolding read_bits in_byte in_two_bytes
read_bits-Returns src byte bit len h k =
    if_rule (Returns (λ v. InRange src byte bit len)) (len == 0 || ltb 8 len) _ _ (λ _. tt)
      λ w.
        let (z, sums, range) = in_range (length src) byte bit len h k w in
        rw sums (
          if_rule (Returns (λ v. InRange src byte bit len))
            (ltb (u32 (length src) * 8) (byte * 8 + bit + len)) _ _ (λ _. tt)
            (λ t. bytes_read z (range t)))
  where
    bytes_read :
        0 < len
        → byte * 8 + bit + len ≤ length src * 8
        → Returns
            (λ v. InRange src byte bit len)
            (if leb (bit - bit / 8 * 8 + len) 8
              then in_byte (get_elem? src (byte + bit / 8)) (bit - bit / 8 * 8) len
              else in_two_bytes
                  (get_elem? src (byte + bit / 8))
                  (get_elem? src (byte + bit / 8 + 1))
                  (bit - bit / 8 * 8)
                  len)
    bytes_read z r =
        let (b, e) = get_elem?-within src (byte + bit / 8) (omega arith) in
        if_rule (Returns (λ v. InRange src byte bit len)) (leb (bit - bit / 8 * 8 + len) 8) _ _
          (λ _. rw e (z, r))
          (λ u.
            let k = leb→lt (bit - bit / 8 * 8 + len) 8 u in
            let (c, f) = get_elem?-within src (byte + bit / 8 + 1) (omega arith) in
            rw (e, f) (z, r))

on_rest-Returns :
    (P : ℕ → Type 0) (r : Outcome (Unit {0}) ℕ) (side pos : BitWindow)
    → Returns P r
    → Returns (λ o. o ≡ none) (on_rest r side pos)
unfolding on_rest
on_rest-Returns P (ok x) side pos p =
    if_rule (Returns (λ o. o ≡ none))
      (bit_and x (u8 (2 * 2 ^ (side.count - 1) - 1)) == u8 (2 * 2 ^ (side.count - 1) - 1)) _ _
      (λ _. refl) (λ _. tt)
on_rest-Returns P (err e) side pos p = tt
on_rest-Returns P panic side pos p = p

check_eof-Returns :
    (pos : BitWindow) (input : List ℕ)
    → length input + 1 < 2 ^ 29
    → InBytes input pos.byte pos.bit
    → Returns (λ o. o ≡ none) (check_eof pos input)
unfolding check_eof opposite_bit_window
check_eof-Returns pos input h i =
    if_rule (Returns (λ o. o ≡ none)) (ltb (length input) (pos.byte + 1)) _ _ (λ _. refl)
      (λ _.
        if_rule (Returns (λ o. o ≡ none)) (pos.byte + 1 == length input) _ _
          (λ _.
            on_rest-Returns _ (read_bits input pos.byte pos.bit (8 - pos.bit % 8))
              (opposite_bit_window pos) pos
              (read_bits-Returns input pos.byte pos.bit (8 - pos.bit % 8) h i))
          (λ _. tt))

-- A value that is fetched lies in the input.
abbrev Fetched : BitWindow → List ℕ → Option ℕ → Type 0
Fetched w input none = Unit {0}
Fetched w input (some v) = InRange input w.byte w.bit w.count

fetch_value-Returns :
    (w : BitWindow) (input : List ℕ)
    → length input + 1 < 2 ^ 29
    → InBytes input w.byte w.bit
    → Returns (Fetched w input) (fetch_value w input)
unfolding fetch_value
fetch_value-Returns w input h i =
    go (read_bits input w.byte w.bit w.count) (check_eof w input)
      (read_bits-Returns input w.byte w.bit w.count h i) (check_eof-Returns w input h i)
  where
    go :
        (r : Outcome (Unit {0}) ℕ) (c : Outcome HuffmanError (Option ℕ))
        → Returns (λ v. InRange input w.byte w.bit w.count) r
        → Returns (λ o. o ≡ none) c
        → Returns
            (Fetched w input)
            (elim r [ ok value ↦ ok (some value) | err e ↦ c | panic ↦ panic ])
    go (ok v) c p q = p
    go (err e) (ok o) p q = subst (Fetched w input) (sym q) tt
    go (err e) (err f) p q = tt
    go (err e) panic p q = q
    go panic c p q = p

-- What a step of the decoder gives: no panic, and a byte only where the window goes on in the input.
abbrev Moves : ℕ → ℕ → Outcome HuffmanError (Option ℕ) → BitWindow → Type 0
Moves n end (ok (some x)) w = (n < behind_window w) × (behind_window w ≤ end)
Moves n end (ok none) w = Unit {0}
Moves n end (err e) w = Unit {0}
Moves n end panic w = ⊥

Moves-from :
    (m n end : ℕ) (r : Outcome HuffmanError (Option ℕ)) (w : BitWindow)
    → m ≤ n
    → Moves n end r w
    → Moves m end r w
Moves-from m n end (ok (some x)) w h (p, q) = (omega arith, q)
Moves-from m n end (ok none) w h p = tt
Moves-from m n end (err e) w h p = tt
Moves-from m n end panic w h p = p

decode_next-err :
    (lookup : ℕ) (table : DecodeTable) (pos : BitWindow) (input : List ℕ) (e : HuffmanError)
    → fetch_value (forwards lookup pos) input ≡ err e
    → (decode_next (decoder lookup table) pos input).0 ≡ err e
unfolding decode_next
decode_next-err lookup table pos input e f = cc (f)

mutual
  unfolding lookup_value

  decode_next-Moves :
      (d : HuffmanDecoder) (pos : BitWindow) (input : List ℕ)
      → length input + 1 < 2 ^ 29
      → behind_window pos ≤ 8 * length input
      → Moves
          (behind_window pos)
          (8 * length input)
          (decode_next d pos input).0
          (decode_next d pos input).1
  decode_next-Moves (decoder lookup table) pos input h i =
      let w = forwards lookup pos in
      let (at, low, count) = forwards-window lookup pos in
      fetched (fetch_value w input) refl (fetch_value-Returns w input h (omega (arith, at)))
        (λ v p q.
          lookup_value-Moves table v v (behind_window pos) w input h (omega (arith, at))
            (omega arith))
    where
      fetched :
          (o : Outcome HuffmanError (Option ℕ))
          → o ≡ fetch_value (forwards lookup pos) input
          → Returns (Fetched (forwards lookup pos) input) o
          → ((v : ℕ)
              → 0 < (forwards lookup pos).count
              → (forwards lookup pos).byte * 8
                  + (forwards lookup pos).bit
                  + (forwards lookup pos).count
                ≤ length input * 8
              → Moves
                  (behind_window pos)
                  (8 * length input)
                  (lookup_value table v v (forwards lookup pos) input).0
                  (lookup_value table v v (forwards lookup pos) input).1)
          → Moves
              (behind_window pos)
              (8 * length input)
              (decode_next (decoder lookup table) pos input).0
              (decode_next (decoder lookup table) pos input).1
      fetched (ok (some v)) e (p, q) k =
          subst (λ t. Moves (behind_window pos) (8 * length input) t.0 t.1)
            (sym (decode_next-value lookup table pos input v (sym e))) (k v p q)
      fetched (ok none) e p k =
          subst
            (λ t.
              Moves (behind_window pos) (8 * length input) t
                (decode_next (decoder lookup table) pos input).1)
            (sym (decode_next-none lookup table pos input (sym e))) tt
      fetched (err f) e p k =
          subst
            (λ t.
              Moves (behind_window pos) (8 * length input) t
                (decode_next (decoder lookup table) pos input).1)
            (sym (decode_next-err lookup table pos input f (sym e))) tt
      fetched panic e p k = absurd p

  lookup_value-Moves :
      (table : DecodeTable) (n value from : ℕ) (pos : BitWindow) (input : List ℕ)
      → length input + 1 < 2 ^ 29
      → from < behind_window pos
      → behind_window pos ≤ 8 * length input
      → Moves from
          (8 * length input)
          (lookup_value table n value pos input).0
          (lookup_value table n value pos input).1
  lookup_value-Moves no_more n value from pos input h p q = tt
  lookup_value-Moves (leaf x table) zero value from pos input h p q = (p, q)
  lookup_value-Moves (leaf x table) (suc n) value from pos input h p q =
      lookup_value-Moves table n value from pos input h p q
  lookup_value-Moves (partial d table) zero value from pos input h p q =
      Moves-from from (behind_window pos) (8 * length input) (decode_next d pos input).0
        (decode_next d pos input).1 (omega arith) (decode_next-Moves d pos input h q)
  lookup_value-Moves (partial d table) (suc n) value from pos input h p q =
      lookup_value-Moves table n value from pos input h p q

cons_ok-Returns :
    (x : ℕ) (r : Outcome HuffmanError (List ℕ))
    → Returns (λ _. Unit {0}) r
    → Returns (λ _. Unit {0}) (cons_ok x r)
cons_ok-Returns x (ok xs) h = tt
cons_ok-Returns x (err e) h = tt
cons_ok-Returns x panic h = h

collect-Returns :
    (d : HuffmanDecoder) (fuel : ℕ) (pos : BitWindow) (input : List ℕ)
    → length input + 1 < 2 ^ 29
    → behind_window pos ≤ 8 * length input
    → 8 * length input < fuel + behind_window pos
    → Returns (λ _. Unit {0}) (collect d fuel pos input)
unfolding collect
collect-Returns d zero pos input h k l = absurd (omega arith)
collect-Returns d (suc fuel) pos input h k l =
    go (decode_next d pos input).0 (decode_next-Moves d pos input h k)
      (λ p q. collect-Returns d fuel (decode_next d pos input).1 input h q (omega arith))
  where
    go :
        (r : Outcome HuffmanError (Option ℕ))
        → Moves (behind_window pos) (8 * length input) r (decode_next d pos input).1
        → (behind_window pos < behind_window (decode_next d pos input).1
            → behind_window (decode_next d pos input).1 ≤ 8 * length input
            → Returns (λ _. Unit {0}) (collect d fuel (decode_next d pos input).1 input))
        → Returns
            (λ _. Unit {0})
            (elim r [
              | ok (some x) ↦ cons_ok x (collect d fuel (decode_next d pos input).1 input)
              | ok none ↦ ok []
              | err e ↦ err e
              | panic ↦ panic
            ])
    go (ok (some x)) (p, q) f =
        cons_ok-Returns x (collect d fuel (decode_next d pos input).1 input) (f p q)
    go (ok none) m f = tt
    go (err e) m f = tt
    go panic m f = m

no_panic : {E A : Type 0} (r : Outcome E A) → Returns (λ _. Unit {0}) r → r ≢ panic
no_panic (ok a) h e = cc
no_panic (err f) h e = cc
no_panic panic h e = h

-- On fewer than 2^29 - 1 bytes, whatever they are, hpack_decode does not panic, and it ends within
-- one step for each bit and one more.
pub hpack_decode-ne-panic :
    (input : List ℕ) → length input + 1 < 2 ^ 29 → hpack_decode input ≢ panic
unfolding hpack_decode start
hpack_decode-ne-panic input h =
    no_panic (collect hpack_string (8 * length input + 1) start input) (
      collect-Returns hpack_string (8 * length input + 1) start input h (omega arith) (omega arith))

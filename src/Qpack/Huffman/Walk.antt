-- ===== src/Qpack/Huffman/Walk.antt =====
-- The tables of the decoder as a code: which bits they read as which byte.
use h.Prelude.{
  ℕ, zero, suc, ◌+◌, ◌*◌, ◌<◌, ◌≤◌, ◌≡◌, refl, ap, ◌∙◌, arith, ◌^◌, Bool, true, false, leb,
}
use h.Prelude.{
  List, [], ◌∷◌, ◌++◌, append_assoc, length, length-append, Option, none, some, Outcome, ok, All,
  IsByte, leb→le,
}
use mathlib.Core.Path.{subst}
use mathlib.Core.Path.{sym as flip}
use h.Qpack.Huffman.{BitWindow, forwards}
use h.Qpack.Huffman.Decoder.{
  HuffmanDecoder, decoder, DecodeTable, no_more, sym, partial, decode_next, lookup_value,
  fetch_value, read_bits, HuffmanError,
}
use h.Qpack.Huffman.BitString.{of_bits, bits}
use h.Qpack.Huffman.Reading.{read_bits-of_bits}

abbrev prepend : Bool → Option (List Bool × List Bool) → Option (List Bool × List Bool)
prepend b none = none
prepend b (some (m, r)) = some (b ∷ m, r)

-- The first `n` bits and the rest, where there are so many.
abbrev pub cut : ℕ → List Bool → Option (List Bool × List Bool)
cut zero l = some ([], l)
cut (suc n) [] = none
cut (suc n) (b ∷ l) = prepend b (cut n l)

-- A width that `read_bits` takes.
abbrev pub readable : ℕ → Bool
readable zero = false
readable (suc n) = leb n 7

-- The byte that the tables give for exactly these bits.
abbrev mutual
  pub reads : HuffmanDecoder → List Bool → Option ℕ
  reads (decoder lookup table) code = elim (readable lookup) [
    | false ↦ none
    | true ↦ elim (cut lookup code) [ none ↦ none | some (m, rest) ↦ picks table (of_bits m) rest ]
  ]

  pub picks : DecodeTable → ℕ → List Bool → Option ℕ
  picks no_more n rest = none
  picks (sym x table) zero [] = some x
  picks (sym x table) zero (b ∷ rest) = none
  picks (sym x table) (suc n) rest = picks table n rest
  picks (partial d table) zero rest = reads d rest
  picks (partial d table) (suc n) rest = picks table n rest

cut-append :
    (n : ℕ) (l : List Bool) {m r : List Bool}
    → cut n l ≡ some (m, r)
    → (l ≡ m ++ r) × (length m ≡ n)
cut-append zero l {m} {r} e = let p : [] ≡ m = cc in let q : l ≡ r = cc in (cc, ap length (flip p))
cut-append (suc n) [] e = absurd (cc)
cut-append (suc n) (b ∷ l) {m} {r} e = step (cut n l) (λ m' r' h. cut-append n l h) e
  where
    step :
        (o : Option (List Bool × List Bool))
        → ((m' r' : List Bool) → o ≡ some (m', r') → (l ≡ m' ++ r') × (length m' ≡ n))
        → prepend b o ≡ some (m, r)
        → (b ∷ l ≡ m ++ r) × (length m ≡ suc n)
    step none h k = absurd (cc)
    step (some (m', r')) h k =
        let (p, q) = h m' r' refl in let e : b ∷ m' ≡ m = cc in (cc, omega (arith, q, ap length e))

readable-fits : (n : ℕ) → readable n ≡ true → (0 < n) × (n ≤ 8)
readable-fits zero e = absurd (cc)
readable-fits (suc n) e = let h = leb→le n 7 e in (omega arith, omega arith)

-- The number of bits that a window has behind it and in it.
abbrev pub behind_window : BitWindow → ℕ
behind_window w = 8 * w.byte + w.bit + w.count

pub forwards-window :
    (n : ℕ) (w : BitWindow)
    → (8 * (forwards n w).byte + (forwards n w).bit ≡ behind_window w)
      × ((forwards n w).bit < 8)
      × ((forwards n w).count ≡ n)
unfolding forwards
forwards-window n w = (omega arith, omega arith, refl)

-- One table of the walk: the bits that it looks up, and what it goes on with.
reads-split :
    (lookup : ℕ) (table : DecodeTable) (code : List Bool) (x : ℕ)
    → reads (decoder lookup table) code ≡ some x
    → (m : List Bool) × (r : List Bool) × (code ≡ m ++ r)
      × (length m ≡ lookup)
      × (readable lookup ≡ true)
      × (picks table (of_bits m) r ≡ some x)
reads-split lookup table code x e = wide (readable lookup) (cut lookup code) refl refl e
  where
    wide :
        (b : Bool) (o : Option (List Bool × List Bool))
        → b ≡ readable lookup
        → o ≡ cut lookup code
        → (elim b [
          | false ↦ none
          | true ↦ elim o [ none ↦ none | some (m, r) ↦ picks table (of_bits m) r ]
        ])
          ≡ some x
        → (m : List Bool) × (r : List Bool) × (code ≡ m ++ r)
          × (length m ≡ lookup)
          × (readable lookup ≡ true)
          × (picks table (of_bits m) r ≡ some x)
    wide false o f g h = absurd (cc)
    wide true none f g h = absurd (cc)
    wide true (some (m, r)) f g h =
        let (p, q) = cut-append lookup code (flip g) in (m, r, p, q, flip f, h)

pub fetch_value-bits :
    (w : BitWindow) (input : List ℕ) (done mid rest : List Bool)
    → All IsByte input
    → length input < 2 ^ 29
    → bits input ≡ done ++ (mid ++ rest)
    → length done ≡ 8 * w.byte + w.bit
    → w.bit < 8
    → w.count ≡ length mid
    → 0 < length mid
    → length mid ≤ 8
    → fetch_value w input ≡ ok (some (of_bits mid))
unfolding fetch_value
fetch_value-bits w input done mid rest a small e h k c l m =
    let r : read_bits input w.byte w.bit w.count ≡ ok (of_bits mid) =
      ap (read_bits input w.byte w.bit) c
      ∙ read_bits-of_bits input w.byte w.bit done mid rest a small e h k l m in
    rw (r, fetch_value) refl

-- A byte that is read, with the number of bits that are behind it.
abbrev pub Read : Outcome HuffmanError (Option ℕ) × BitWindow → ℕ → ℕ → Type 0
Read r x n = (r.0 ≡ ok (some x)) × (behind_window r.1 ≡ n)

pub decode_next-value :
    (lookup : ℕ) (table : DecodeTable) (pos : BitWindow) (input : List ℕ) (v : ℕ)
    → fetch_value (forwards lookup pos) input ≡ ok (some v)
    → decode_next (decoder lookup table) pos input
      ≡ lookup_value table v v (forwards lookup pos) input
unfolding decode_next
decode_next-value lookup table pos input v e = cc (e)

-- The decoder reads the byte that its tables give for the bits behind its window.
mutual
  unfolding decode_next lookup_value

  pub decode_next-reads :
      (d : HuffmanDecoder) (pos : BitWindow) (input : List ℕ) (done code rest : List Bool) (x : ℕ)
      → All IsByte input
      → length input < 2 ^ 29
      → bits input ≡ done ++ (code ++ rest)
      → length done ≡ behind_window pos
      → reads d code ≡ some x
      → Read (decode_next d pos input) x (length done + length code)
  decode_next-reads (decoder lookup table) pos input done code rest x a small e h k =
      let (m, r, p, q, f, g) = reads-split lookup table code x k in
      let (l, u) = readable-fits lookup f in
      let (at, low, count) = forwards-window lookup pos in
      let w = forwards lookup pos in
      let b : bits input ≡ done ++ (m ++ (r ++ rest)) =
        e ∙ ap (λ t. done ++ (t ++ rest)) p ∙ ap (λ t. done ++ t) (append_assoc m r rest) in
      let v : fetch_value w input ≡ ok (some (of_bits m)) =
        fetch_value-bits w input done m (r ++ rest) a small b (h ∙ flip at) low (count ∙ flip q)
          (omega (arith, q)) (omega (arith, q)) in
      rw (decode_next-value lookup table pos input (of_bits m) v) (
        subst (Read (lookup_value table (of_bits m) (of_bits m) w input) x)
          (omega (arith, length-append done m, ap length p, length-append m r))
          (lookup_value-picks table (of_bits m) (of_bits m) w input (done ++ m) r rest x a small
            (b ∙ flip (append_assoc done m (r ++ rest)))
            (omega (arith, length-append done m, h, at, q, count)) g))

  lookup_value-picks :
      (table : DecodeTable) (n value : ℕ) (pos : BitWindow) (input : List ℕ)
      (done code rest : List Bool) (x : ℕ)
      → All IsByte input
      → length input < 2 ^ 29
      → bits input ≡ done ++ (code ++ rest)
      → length done ≡ behind_window pos
      → picks table n code ≡ some x
      → Read (lookup_value table n value pos input) x (length done + length code)
  lookup_value-picks no_more n value pos input done code rest x a small e h k = absurd (cc)
  lookup_value-picks (sym y table) zero value pos input done [] rest x a small e h k =
      (ap ok k, omega (arith, h))
  lookup_value-picks (sym y table) zero value pos input done (c ∷ code) rest x a small e h k =
      absurd (cc)
  lookup_value-picks (sym y table) (suc n) value pos input done code rest x a small e h k =
      lookup_value-picks table n value pos input done code rest x a small e h k
  lookup_value-picks (partial d table) zero value pos input done code rest x a small e h k =
      decode_next-reads d pos input done code rest x a small e h k
  lookup_value-picks (partial d table) (suc n) value pos input done code rest x a small e h k =
      lookup_value-picks table n value pos input done code rest x a small e h k

-- ===== src/Qpack/Huffman/Encoding.antt =====
-- The encoder writes the codes of its bytes one behind the other, and less than a byte of ones.
use h.Prelude.{
  ℕ, zero, suc, ◌+◌, ◌*◌, ◌-◌, ◌<◌, ◌≤◌, ◌≡◌, refl, ap, sym, ◌∙◌, arith, ◌^◌, Bool, true, ◌&&◌,
  and_both, min,
}
use h.Prelude.{
  List, [], ◌∷◌, ◌++◌, append_assoc, append-nil, length, length-append, get_elem?, Option, none,
  some, All, IsByte, ltb, ltb→lt, ltb→le, if_rule, if◌then◌else◌,
}
use mathlib.Core.Path.{subst}
use h.Qpack.Huffman.{BitWindow, start, forwards}
use h.Qpack.Huffman.Encoder.{
  EncodeValue, HuffmanEncoder, new, fillers, grown, ensure_free_space, put_parts, put, put_all,
  write_bits,
}
use h.Qpack.Huffman.BitString.{
  bits_of, bits, bits-append, ones, length-bits, length-ones, length-bits_of, ones-append,
}
use h.Qpack.Huffman.Codes.{hpack_string as codes, hpack_encode}
use h.Qpack.Huffman.Walk.{behind_window, forwards-window}
use h.Qpack.Huffman.Agreement.{parts_bits, parts_fit, code_bits, code_of}
use h.Qpack.Huffman.Writing.{write_bits-writes, All-join}

-- The invariant of the encoder: the bits that it has written, then ones up to the end of its buffer.
pub record Holds (e : HuffmanEncoder) (done : List Bool) (k : ℕ) : Type 0 where
  pub bytes : All IsByte e.buffer
  pub bits_are : bits e.buffer ≡ done ++ ones k
  pub at : length done ≡ behind_window e.buffer_pos

abbrev pub Encoded : Option HuffmanEncoder → List Bool → ℕ → Type 0
Encoded r done k = (e : HuffmanEncoder) × (r ≡ some e) × Holds e done k

fillers-IsByte : (n : ℕ) → All IsByte (fillers n)
unfolding fillers
fillers-IsByte zero = tt
fillers-IsByte (suc n) = (omega arith, fillers-IsByte n)

bits-fillers : (n : ℕ) → bits (fillers n) ≡ ones (8 * n)
unfolding fillers
bits-fillers zero = refl
bits-fillers (suc n) =
    ap (λ t. ones 8 ++ t) (bits-fillers n) ∙ ones-append 8 (8 * n) ∙ ap ones (omega arith)

-- The bytes that are pushed, and the space that they make.
pushed : ℕ → BitWindow → ℕ
pushed len r = r.byte - len + (if ltb 0 r.bit then 1 else 0)

pushed-room :
    (len : ℕ) (r : BitWindow) (at n k : ℕ)
    → 8 * r.byte + r.bit ≡ at + n
    → r.bit < 8
    → 8 * len ≡ at + k
    → k < 8
    → len ≤ r.byte
    → (n ≤ k + 8 * pushed len r) × (k + 8 * pushed len r < n + 8)
unfolding pushed
pushed-room len r at n k e h f l m = ground arith

grown-room :
    (buffer : List ℕ) (r : BitWindow) (done : List Bool) (n k : ℕ)
    → All IsByte buffer
    → bits buffer ≡ done ++ ones k
    → 8 * r.byte + r.bit ≡ length done + n
    → r.bit < 8
    → k < 8
    → (j : ℕ) × All IsByte (grown buffer r)
      × (bits (grown buffer r) ≡ done ++ ones (n + j))
      × (j < 8)
unfolding grown pushed
grown-room buffer r done n k a e h l s =
    let len : 8 * length buffer ≡ length done + k =
      omega (arith, length-bits buffer, ap length e, length-append done (ones k), length-ones k) in
    if_rule (λ out. (j : ℕ) × All IsByte out × (bits out ≡ done ++ ones (n + j)) × (j < 8))
      (ltb r.byte (length buffer)) _ _
      (λ t.
        let u = ltb→lt r.byte (length buffer) t in
        (k - n, a, e ∙ ap (λ i. done ++ ones i) (omega arith), omega arith))
      (λ t.
        let u = ltb→le r.byte (length buffer) t in
        let m = pushed (length buffer) r in
        let (f, g) = pushed-room (length buffer) r (length done) n k h l len s u in
        (
          k + 8 * m - n,
          All-join buffer (fillers m) a (fillers-IsByte m),
          bits-append buffer (fillers m)
              ∙ ap (λ t. t ++ bits (fillers m)) e
              ∙ ap (λ t. (done ++ ones k) ++ t) (bits-fillers m)
              ∙ append_assoc done (ones k) (ones (8 * m))
              ∙ ap (λ t. done ++ t) (ones-append k (8 * m) ∙ ap ones (omega arith)),
          omega arith,
        ))

-- The free space of the next code: its bits, and less than a byte.
pub ensure_free_space-Holds :
    (n : ℕ) (e : HuffmanEncoder) (done : List Bool) (k : ℕ)
    → Holds e done k
    → k < 8
    → (j : ℕ) × Holds (ensure_free_space n e) done (n + j) × (j < 8)
unfolding ensure_free_space
ensure_free_space-Holds n e done k h s =
    let w = forwards n e.buffer_pos in
    let (a, _, c) = forwards-window n e.buffer_pos in
    let (a', b', _) = forwards-window 0 w in
    let (j, x, y, z) =
      grown-room e.buffer (forwards 0 w) done n k h.bytes h.bits_are (omega (arith, h.at)) b' s in
    (j, record { bytes = x; bits_are = y; at = h.at }, z)

put_parts-next :
    (part : ℕ) (parts : List ℕ) (rest : ℕ) (e : HuffmanEncoder) (out : List ℕ)
    → write_bits e.buffer (forwards (min rest 8) e.buffer_pos) part ≡ some out
    → put_parts (part ∷ parts) rest e
      ≡ put_parts parts
          (rest - min rest 8)
          (record { buffer_pos = forwards (min rest 8) e.buffer_pos; buffer = out })
unfolding put_parts forwards
put_parts-next part parts rest e out g =
    let m : (if ltb rest 8 then rest else 8) ≡ min rest 8 = ground arith in cc (m, g)

-- The parts of a code are written one behind the other.
pub put_parts-Holds :
    (parts : List ℕ) (rest : ℕ) (e : HuffmanEncoder) (done : List Bool) (j : ℕ)
    → Holds e done (rest + j)
    → parts_fit parts rest ≡ true
    → Encoded (put_parts parts rest e) (done ++ parts_bits parts rest) j
unfolding put_parts
put_parts-Holds [] rest e done j h f =
    let z : rest ≡ 0 = ground arith in
    (
      e,
      refl,
      record {
        bytes = h.bytes;
        bits_are =
            h.bits_are
            ∙ ap (λ t. done ++ ones t) (omega arith)
            ∙ ap (λ t. t ++ ones j) (sym (append-nil done));
        at = ap length (append-nil done) ∙ h.at;
      },
    )
put_parts-Holds (part ∷ parts) rest e done j h f =
    let (p, q) =
      and_both (ltb 0 rest) (ltb part (2 ^ min rest 8) && parts_fit parts (rest - min rest 8)) f in
    let (r, s) = and_both (ltb part (2 ^ min rest 8)) (parts_fit parts (rest - min rest 8)) q in
    let pos = forwards (min rest 8) e.buffer_pos in
    let (a, b, c) = forwards-window (min rest 8) e.buffer_pos in
    let u = ltb→lt 0 rest p in
    let v : part < 2 ^ pos.count =
      subst (λ t. part < 2 ^ t) (sym c) (ltb→lt part (2 ^ min rest 8) r) in
    let (out, g, w, y) =
      write_bits-writes e.buffer pos part done (rest + j) h.bytes h.bits_are (h.at ∙ sym a) b
        (omega (arith, c)) (omega (arith, c)) (omega (arith, c)) v in
    let h' : Holds (record { buffer_pos = pos; buffer = out }) (done ++ bits_of (min rest 8) part)
        (rest - min rest 8 + j) =
      record {
        bytes = y;
        bits_are =
            w
            ∙ sym (append_assoc done (bits_of pos.count part) (ones (rest + j - pos.count)))
            ∙ ap (λ t. (done ++ bits_of t part) ++ ones (rest + j - t)) c
            ∙ ap (λ t. (done ++ bits_of (min rest 8) part) ++ ones t) (omega arith);
        at = omega (
          arith,
          length-append done (bits_of (min rest 8) part),
          length-bits_of (min rest 8) part,
          h.at,
          a,
          c,
        );
      } in
    let (e', i, k) =
      put_parts-Holds parts (rest - min rest 8) (record { buffer_pos = pos; buffer = out })
        (done ++ bits_of (min rest 8) part) j h' s in
    (
      e',
      put_parts-next part parts rest e out g ∙ i,
      subst (λ t. Holds e' t j)
          (append_assoc done (bits_of (min rest 8) part) (parts_bits parts (rest - min rest 8))) k,
    )

put-Holds :
    (v : EncodeValue) (e : HuffmanEncoder) (done : List Bool) (k : ℕ)
    → Holds e done k
    → k < 8
    → parts_fit v.buffer v.bit_count ≡ true
    → (j : ℕ) × Encoded (put v e) (done ++ code_bits v) j × (j < 8)
unfolding put
put-Holds v e done k h s f =
    let (j, g, t) = ensure_free_space-Holds v.bit_count e done k h s in
    (j, put_parts-Holds v.buffer v.bit_count (ensure_free_space v.bit_count e) done j g f, t)

abbrev bits_at : Option EncodeValue → List Bool
bits_at none = []
bits_at (some v) = code_bits v

-- The codes of the bytes, one behind the other.
abbrev pub message : List ℕ → List Bool
message [] = []
message (x ∷ xs) = bits_at (get_elem? codes x) ++ message xs

pub put_all-Holds :
    (xs : List ℕ) (e : HuffmanEncoder) (done : List Bool) (k : ℕ)
    → All IsByte xs
    → Holds e done k
    → k < 8
    → (j : ℕ) × Encoded (put_all codes xs e) (done ++ message xs) j × (j < 8)
unfolding put_all
put_all-Holds [] e done k a h s =
    (k, (e, refl, subst (λ t. Holds e t k) (sym (append-nil done)) h), s)
put_all-Holds (x ∷ xs) e done k (p, a) h s =
    let (v, c, g) = code_of x p in
    let (j, (f, r, t), u) = put-Holds v e done k h s g.fits in
    let (j', (f', r', t'), u') = put_all-Holds xs f (done ++ code_bits v) j a t u in
    (
      j',
      (
        f',
        rw (c, r) r',
        subst (λ t. Holds f' t j')
            (append_assoc done (code_bits v) (message xs)
              ∙ ap (λ t. done ++ (bits_at t ++ message xs)) (sym c))
            t',
      ),
      u',
    )

-- Fewer than 2^26 bytes are encoded, with no panic, to bytes whose bits are the codes of these one
-- behind the other, and then fewer than eight ones.
pub hpack_encode-message :
    (xs : List ℕ)
    → All IsByte xs
    → length xs < 2 ^ 26
    → (out : List ℕ) × (k : ℕ) × (hpack_encode xs ≡ some out)
      × All IsByte out
      × (bits out ≡ message xs ++ ones k)
      × (k < 8)
unfolding hpack_encode new start
hpack_encode-message xs a small =
    let (j, (e, r, h), s) =
      put_all-Holds xs new [] 0 a (record { bytes = tt; bits_are = refl; at = refl })
        (omega arith) in
    (e.buffer, j, rw (r, hpack_encode) refl, h.bytes, h.bits_are, s)

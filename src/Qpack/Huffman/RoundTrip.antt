-- ===== src/Qpack/Huffman/RoundTrip.antt =====
-- Huffman coding gives back what was encoded.
use h.Prelude.{ℕ, zero, suc, ◌+◌, ◌*◌, ◌<◌, ◌≤◌, ◌≡◌, refl, ap, sym, ◌∙◌, arith, ◌^◌, Bool}
use h.Prelude.{
  List, [], ◌∷◌, ◌++◌, append_assoc, length, length-append, none, some, ok, All, IsByte,
}
use h.Qpack.Huffman.{BitWindow, start}
use h.Qpack.Huffman.Decoder.{HuffmanDecoder, decode_next, collect}
use h.Qpack.Huffman.BitString.{bits, ones, length-bits, length-ones}
use h.Qpack.Huffman.Tree.{hpack_string, hpack_decode}
use h.Qpack.Huffman.Codes.{hpack_encode}
use h.Qpack.Huffman.Walk.{behind_window, decode_next-reads}
use h.Qpack.Huffman.Agreement.{code_bits, code_of}
use h.Qpack.Huffman.Ending.{decode_next-ones}
use h.Qpack.Huffman.Encoding.{message, hpack_encode-message}

collect-next :
    (d : HuffmanDecoder) (fuel : ℕ) (pos : BitWindow) (input xs : List ℕ) (x : ℕ)
    → (decode_next d pos input).0 ≡ ok (some x)
    → collect d fuel (decode_next d pos input).1 input ≡ ok xs
    → collect d (suc fuel) pos input ≡ ok (x ∷ xs)
unfolding collect
collect-next d fuel pos input xs x e f = cc (e, f)

collect-end :
    (d : HuffmanDecoder) (fuel : ℕ) (pos : BitWindow) (input : List ℕ)
    → (decode_next d pos input).0 ≡ ok none
    → collect d (suc fuel) pos input ≡ ok []
unfolding collect
collect-end d fuel pos input e = cc (e)

collect-message :
    (xs : List ℕ) (fuel : ℕ) (pos : BitWindow) (input : List ℕ) (done : List Bool) (k : ℕ)
    → All IsByte xs
    → All IsByte input
    → length input < 2 ^ 29
    → bits input ≡ done ++ (message xs ++ ones k)
    → length done ≡ behind_window pos
    → k < 8
    → length xs < fuel
    → collect hpack_string fuel pos input ≡ ok xs
collect-message xs zero pos input done k b a small e h l f = absurd (omega arith)
collect-message [] (suc fuel) pos input done k b a small e h l f =
    collect-end hpack_string fuel pos input (decode_next-ones pos input done k a small e h l)
collect-message (x ∷ xs) (suc fuel) pos input done k (p, b) a small e h l f =
    let (v, c, g) = code_of x p in
    let first : bits input ≡ done ++ (code_bits v ++ (message xs ++ ones k)) =
      rw c at (e) ∙ ap (λ t. done ++ t) (append_assoc (code_bits v) (message xs) (ones k)) in
    let (r, n) =
      decode_next-reads hpack_string pos input done (code_bits v) (message xs ++ ones k) x a small
        first h g.code in
    collect-next hpack_string fuel pos input xs x r (
      collect-message xs fuel (decode_next hpack_string pos input).1 input (done ++ code_bits v) k b
        a small (first ∙ sym (append_assoc done (code_bits v) (message xs ++ ones k)))
        (omega (arith, n, length-append done (code_bits v))) l (omega arith))

message-bounds :
    (xs : List ℕ)
    → All IsByte xs
    → (length xs ≤ length (message xs)) × (length (message xs) ≤ 30 * length xs)
message-bounds [] a = (omega arith, omega arith)
message-bounds (x ∷ xs) (p, a) =
    let (v, c, g) = code_of x p in
    let (l, u) = message-bounds xs a in
    let (l', u') = g.bound in
    rw c (
      omega (arith, length-append (code_bits v) (message xs)),
      omega (arith, length-append (code_bits v) (message xs)),
    )

-- Fewer than 2^26 bytes are encoded, with no panic, to bytes that take at most 30 bits for each of
-- them and less than a byte more, and these are decoded to the bytes that were encoded.
pub hpack_decode-hpack_encode :
    (xs : List ℕ)
    → All IsByte xs
    → length xs < 2 ^ 26
    → (out : List ℕ) × (hpack_encode xs ≡ some out)
      × All IsByte out
      × (8 * length out ≤ 30 * length xs + 7)
      × (hpack_decode out ≡ ok xs)
unfolding hpack_decode start
hpack_decode-hpack_encode xs a s =
    let (out, k, e, b, f, l) = hpack_encode-message xs a s in
    let (low, high) = message-bounds xs a in
    let n : 8 * length out ≡ length (message xs) + k =
      omega
        (arith, ap length f, length-bits out, length-append (message xs) (ones k), length-ones k) in
    (
      out,
      e,
      b,
      omega arith,
      collect-message xs (8 * length out + 1) start out [] k a b (omega arith) f refl l
          (omega arith),
    )

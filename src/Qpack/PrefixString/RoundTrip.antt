-- ===== src/Qpack/PrefixString/RoundTrip.antt =====
-- A string is read back, and its flags stand in its first byte.
use h.Prelude.{ℕ, ◌+◌, ◌-◌, ◌*◌, ◌/◌, ◌^◌, ◌≤◌, ◌<◌, ◌≡◌, refl, ap, ◌∙◌, arith, bit_and, bit_or, u8}
use h.Prelude.{
  List, ◌∷◌, ◌++◌, append_assoc, length, length-append, take-append, drop-append, All, IsByte, some,
  Outcome, ok, ltb, false, le→ltb, continue, map_err, map_error,
}
use h.Prelude.Bits.{bit_and_low, bit_or_shifted}
use native.Mathlib.Nat.{mod-eq_of_lt, one-le-pow, mul-le-mul_left}
use h.Qpack.PrefixInt
use h.Qpack.PrefixInt.{IntError}
use h.Qpack.PrefixInt.RoundTrip.{decode-encode_int, encode_int-total, encode-first}
use h.Qpack.Huffman.Tree.{hpack_decode}
use h.Qpack.Huffman.Codes.{hpack_encode}
use h.Qpack.Huffman.RoundTrip.{hpack_decode-hpack_encode}
use h.Qpack.PrefixString.{encode, decode, take_payload, payload_value, of_int}

-- A string that the encoder writes: bytes that start with the flags, which are read back.
pub record Reads (size flags : ℕ) (value bs : List ℕ) : Type 0 where
  pub first : ℕ
  pub others : List ℕ
  pub bytes_are : bs ≡ first ∷ others
  pub flags_are : first / 2 ^ (size - 1) ≡ flags * 2 + 1
  pub first_byte : first < 256
  pub reads_back : (rest : List ℕ) → decode size (bs ++ rest) ≡ (ok value, rest)

flags_byte : (flags : ℕ) → flags * 2 < 256 → bit_or (u8 (flags * 2)) 1 ≡ flags * 2 + 1
flags_byte flags h = ap (λ t. bit_or t 1) (mod-eq_of_lt h) ∙ bit_or_shifted 1 flags 1 (omega arith)

payload_value-encoded :
    (flags : ℕ) (out value : List ℕ)
    → hpack_decode out ≡ ok value
    → payload_value (flags * 2 + 1) out ≡ ok value
unfolding payload_value
payload_value-encoded flags out value d =
    let m : bit_and (flags * 2 + 1) 1 ≡ 1 = bit_and_low 1 (flags * 2 + 1) ∙ omega arith in
    rw (m, d) refl

take_payload-append :
    (flags : ℕ) (out rest value : List ℕ)
    → hpack_decode out ≡ ok value
    → take_payload (flags * 2 + 1) (length out) (out ++ rest) ≡ (ok value, rest)
unfolding take_payload
take_payload-append flags out rest value d =
    let l : ltb (length (out ++ rest)) (length out) ≡ false =
      le→ltb _ _ (omega (arith, length-append out rest)) in
    rw (l, take-append out rest, drop-append out rest, payload_value-encoded flags out value d) refl

encode-parts :
    (size flags : ℕ) (value out ibs : List ℕ)
    → hpack_encode value ≡ some out
    → bit_or (u8 (flags * 2)) 1 ≡ flags * 2 + 1
    → PrefixInt.encode (size - 1) (flags * 2 + 1) (length out) ≡ some ibs
    → encode size flags value ≡ some (ibs ++ out)
unfolding encode
encode-parts size flags value out ibs e f i = rw (e, encode) (rw (f, i) refl)

-- A string of fewer than 2^26 bytes is encoded to bytes of which the first has the flags, where
-- they fit in it behind a prefix of two to eight bits, and is read back, whatever follows it.
pub decode-encode_string :
    (size flags : ℕ) (value : List ℕ)
    → 2 ≤ size
    → size ≤ 8
    → (flags * 2 + 1) * 2 ^ (size - 1) + 2 ^ (size - 1) ≤ 256
    → All IsByte value
    → length value < 2 ^ 26
    → (bs : List ℕ) × (encode size flags value ≡ some bs) × Reads size flags value bs
unfolding encode decode
decode-encode_string size flags value s t f a l =
    let (out, e, b, n, d) = hpack_decode-hpack_encode value a l in
    let w = flags * 2 + 1 in
    let one : 1 ≤ 2 ^ (size - 1) = one-le-pow (size - 1) 2 (omega arith) in
    let fits : w * 2 ^ (size - 1) < 256 = omega arith in
    let small : flags * 2 < 256 = omega (arith, mul-le-mul_left w one) in
    let (ibs, i) = encode_int-total (size - 1) w (length out) (omega arith) (omega arith) in
    let (first, others, p, q, r) = encode-first (size - 1) w (length out) ibs (omega arith) f i in
    (
      ibs ++ out,
      encode-parts size flags value out ibs e (flags_byte flags small) i,
      record {
        first = first;
        others = others ++ out;
        bytes_are = ap (λ t. t ++ out) p;
        flags_are = q;
        first_byte = r;
        reads_back = λ rest.
            ap
              (λ t.
                continue (map_err of_int (PrefixInt.decode (size - 1)) t)
                  (λ x. take_payload x.0 x.1))
              (append_assoc ibs out rest)
            ∙ ap
                (λ (t : Outcome IntError (ℕ × ℕ) × List ℕ).
                  continue (map_error of_int t.0, t.1) (λ x. take_payload x.0 x.1))
                (decode-encode_int (size - 1) w (length out) ibs (out ++ rest) (omega arith) fits
                  (omega arith) i)
            ∙ take_payload-append flags out rest value d;
      },
    )

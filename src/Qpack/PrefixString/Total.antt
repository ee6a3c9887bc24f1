-- ===== src/Qpack/PrefixString/Total.antt =====
-- Strings are read from any bytes with no panic.
use h.Prelude.{
  ℕ, ◌+◌, ◌-◌, ◌^◌, ◌≤◌, ◌<◌, ◌==◌, ◌≢◌, refl, arith, bit_and, List, length, take, drop,
  length-take, length-drop, Outcome, ok, err, panic, if_rule, ltb, map_err,
}
use h.Prelude.Safe.{Safe, Safe-bind, Safe-map_error}
use h.Qpack.PrefixInt
use h.Qpack.PrefixInt.Total.{decode-Safe as int-Safe}
use h.Qpack.Huffman.Tree.{hpack_decode}
use h.Qpack.Huffman.Total.{hpack_decode-ne-panic}
use h.Qpack.PrefixString.{of_int, huffman_decoding, payload_value, take_payload, decode}

pub pair-Safe :
    {E A : Type 0} (buf : List ℕ) (r : Outcome E A) (rest : List ℕ)
    → r ≢ panic
    → length rest ≤ length buf
    → Safe 0 buf (r, rest)
pair-Safe buf (ok a) rest h l = omega arith
pair-Safe buf (err e) rest h l = tt
pair-Safe buf panic rest h l = absurd (h refl)

take_payload-Safe :
    (flags len : ℕ) (buf : List ℕ)
    → length buf + 1 < 2 ^ 29
    → Safe 0 buf (take_payload flags len buf)
unfolding take_payload payload_value
take_payload-Safe flags len buf h =
    if_rule (Safe 0 buf) (ltb (length buf) len) _ _ (λ _. tt)
      (λ _.
        if_rule (λ r. Safe 0 buf (r, drop len buf)) (bit_and flags 1 == 0) (ok (take len buf)) _
          (λ _. omega (arith, length-drop len buf))
          (λ _.
            Safe-map_error 0 buf huffman_decoding (hpack_decode (take len buf), drop len buf)
              (pair-Safe buf (hpack_decode (take len buf)) (drop len buf)
                (hpack_decode-ne-panic (take len buf) (omega (arith, length-take len buf)))
                (omega (arith, length-drop len buf)))))

-- A string with a prefix of two to nine bits: at least a byte is read.
pub decode-Safe :
    (size : ℕ) (buf : List ℕ)
    → 2 ≤ size
    → size ≤ 9
    → length buf < 2 ^ 29
    → Safe 1 buf (decode size buf)
unfolding decode
decode-Safe size buf s t h =
    Safe-bind 1 buf (map_err of_int (PrefixInt.decode (size - 1)) buf) _
      (Safe-map_error 1 buf of_int (PrefixInt.decode (size - 1) buf)
        (int-Safe (size - 1) buf (omega arith) (omega arith)))
      (λ r rest l. take_payload-Safe r.0 r.1 rest (omega arith))

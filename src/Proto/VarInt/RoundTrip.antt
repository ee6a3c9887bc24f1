-- ===== src/Proto/VarInt/RoundTrip.antt =====
-- `VarInt::decode` reads back what `VarInt::encode` wrote.
use h.Prelude.{ℕ, ◌+◌, ◌*◌, ◌/◌, ◌%◌, ◌^◌, ◌<◌, ◌≡◌, arith}
use h.Prelude.{List, ◌∷◌, ◌++◌, some, length}
use h.Prelude.{ok}
use h.Proto.VarInt.{put_u8, put_u16, put_u32, put_u64}
use h.Prelude.Bits.{bit_or_shifted}
use h.Proto.VarInt.{encode, decode, encoded_size}
use h.Proto.VarInt.Bounds.{low_six}

decode_one : (v : ℕ) (rest : List ℕ) → v < 2 ^ 6 → decode (put_u8 v ++ rest) ≡ (ok v, rest)
unfolding decode
decode_one v rest h = ground (arith, low_six v)

decode_two :
    (v : ℕ) (rest : List ℕ)
    → v < 2 ^ 14
    → decode (put_u16 (0b01 * 2 ^ 14 + v) ++ rest) ≡ (ok v, rest)
unfolding decode
decode_two v rest h = ground (arith, low_six ((2 ^ 14 + v) / 2 ^ 8 % 2 ^ 8))

decode_four :
    (v : ℕ) (rest : List ℕ)
    → v < 2 ^ 30
    → decode (put_u32 (0b10 * 2 ^ 30 + v) ++ rest) ≡ (ok v, rest)
unfolding decode
decode_four v rest h = ground (arith, low_six ((2 ^ 31 + v) / 2 ^ 16 / 2 ^ 8 % 2 ^ 8))

decode_eight :
    (v : ℕ) (rest : List ℕ)
    → v < 2 ^ 62
    → decode (put_u64 (0b11 * 2 ^ 62 + v) ++ rest) ≡ (ok v, rest)
unfolding decode
decode_eight v rest h =
    ground (arith, low_six ((0b11 * 2 ^ 62 + v) / 2 ^ 32 / 2 ^ 16 / 2 ^ 8 % 2 ^ 8))

-- An encoded variable-length integer, with any bytes behind it, is decoded to itself, with those
-- bytes left.
pub decode-encode :
    (v : ℕ) (bs rest : List ℕ) → encode v ≡ some bs → decode (bs ++ rest) ≡ (ok v, rest)
unfolding encode
decode-encode v bs rest e = ground (
  arith,
  bit_or_shifted 14 1 v,
  bit_or_shifted 30 2 v,
  bit_or_shifted 62 3 v,
  decode_one v rest,
  decode_two v rest,
  decode_four v rest,
  decode_eight v rest,
)

-- The first byte of an encoding announces, by encoded_size, how long the encoding is.
pub encoded_size-encode :
    (v b : ℕ) (bs : List ℕ) → encode v ≡ some (b ∷ bs) → encoded_size b ≡ length (b ∷ bs)
unfolding encode encoded_size
encoded_size-encode v b bs e =
    ground (arith, bit_or_shifted 14 1 v, bit_or_shifted 30 2 v, bit_or_shifted 62 3 v)

-- ===== src/Proto/VarInt.antt =====
-- h3/src/proto/varint.rs and the one-byte codec of h3/src/proto/coding.rs. A `VarInt` is the number
-- that it holds.
pub mod Bounds
pub mod RoundTrip
use h.Prelude.{ℕ, zero, suc, ◌+◌, ◌-◌, ◌*◌, ◌/◌, ◌^◌, ◌<◌, bit_and, bit_or, ◌≡◌}
use h.Prelude.{List, [], ◌∷◌, ◌++◌, Option, none, some, length, take, drop}
use h.Prelude.{Outcome, ok, err, panic, Reader, ltb, leb, ◌==◌, if◌then◌else◌, u8, u16, u32}

-- The number is how far the reader got before the buffer ended; see each `err` for its meaning.
pub data UnexpectedEnd : Type 0 where
  unexpected_end : ℕ → UnexpectedEnd

pub data VarIntBoundsExceeded : Type 0 where
  bounds_exceeded : ℕ → VarIntBoundsExceeded

abbrev pub IsVarInt : ℕ → Type 0
IsVarInt v = v < 2 ^ 62

-- `VarInt::MAX` and `VarInt::MAX_SIZE`
abbrev pub max_value : ℕ
max_value = 2 ^ 62 - 1

abbrev pub max_size : ℕ
max_size = 8

unfoldable pub from_u64 : ℕ → Outcome VarIntBoundsExceeded ℕ
from_u64 x = if ltb x (2 ^ 62) then ok x else err (bounds_exceeded x)

unfoldable pub size : ℕ → Option ℕ
size x =
    if ltb x (2 ^ 6)
    then some 1
    else if ltb x (2 ^ 14)
    then some 2
    else if ltb x (2 ^ 30)
    then some 4
    else if ltb x (2 ^ 62)
    then some 8
    else none

unfoldable pub encoded_size : ℕ → ℕ
encoded_size first = 2 ^ (first / 2 ^ 6)

-- `put_u8`, `put_u16`, `put_u32`, `put_u64`: the bytes in network order.
abbrev pub put_u8 : ℕ → List ℕ
put_u8 x = u8 x ∷ []

abbrev pub put_u16 : ℕ → List ℕ
put_u16 x = u8 (x / 2 ^ 8) ∷ u8 x ∷ []

abbrev pub put_u32 : ℕ → List ℕ
put_u32 x = put_u16 (x / 2 ^ 16) ++ put_u16 x

abbrev pub put_u64 : ℕ → List ℕ
put_u64 x = put_u32 (x / 2 ^ 32) ++ put_u32 x

-- `from_be_bytes` of the bytes behind those that `acc` has.
abbrev pub from_be_bytes : ℕ → List ℕ → ℕ
from_be_bytes acc [] = acc
from_be_bytes acc (b ∷ bs) = from_be_bytes (acc * 2 ^ 8 + b) bs

unfoldable pub encode : ℕ → Option (List ℕ)
encode x =
    if ltb x (2 ^ 6)
    then some (put_u8 x)
    else if ltb x (2 ^ 14)
    then some (put_u16 (bit_or (0b01 * 2 ^ 14) (u16 x)))
    else if ltb x (2 ^ 30)
    then some (put_u32 (bit_or (0b10 * 2 ^ 30) (u32 x)))
    else if ltb x (2 ^ 62)
    then some (put_u64 (bit_or (0b11 * 2 ^ 62) x))
    else none

-- The branch of `decode` for a tag: `n` more bytes behind the first, or the error `tag`.
unfoldable pub decode_tail : ℕ → ℕ → ℕ → Reader UnexpectedEnd ℕ
decode_tail tag n first r =
    if ltb (length r) n
    then (err (unexpected_end tag), r)
    else (ok (from_be_bytes first (take n r)), drop n r)

unfoldable pub decode : Reader UnexpectedEnd ℕ
unfolding decode_tail
decode [] = (err (unexpected_end 0), [])
decode (first ∷ r) =
    let tag = first / 2 ^ 6 in
    let low = bit_and first 0b0011_1111 in
    if tag == 0b00
    then (ok low, r)
    else if tag == 0b01
    then decode_tail 1 1 low r
    else if tag == 0b10
    then decode_tail 2 3 low r
    else if tag == 0b11
    then decode_tail 3 7 low r
    else (panic, r)

-- `BufExt::get_var` is `decode`; `BufMutExt::write_var` unwraps the bounds check.
unfoldable pub write_var : ℕ → Option (List ℕ)
unfolding from_u64
write_var x = elim (from_u64 x) [ ok v ↦ encode v | err e ↦ none | panic ↦ none ]

-- `u8::decode` of coding.rs
unfoldable pub get_u8 : Reader UnexpectedEnd ℕ
get_u8 [] = (err (unexpected_end 1), [])
get_u8 (b ∷ r) = (ok b, r)

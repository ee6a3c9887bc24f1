-- ===== src/Qpack/PrefixInt.antt =====
-- h3/src/qpack/prefix_int.rs: the integers of RFC 7541 with a prefix of `size` bits.
pub mod RoundTrip
pub mod Total
use h.Prelude.{
  ℕ, zero, suc, ◌+◌, ◌-◌, ◌*◌, ◌/◌, ◌%◌, ◌^◌, bit_and, bit_or, List, [], ◌∷◌, ◌++◌, Option, none,
  some,
}
use h.Prelude.{
  Outcome, ok, err, panic, Reader, ◌>>=◌, pure, fail, crash, map_err, ltb, leb, ◌==◌, if◌then◌else◌,
  u8, ◌⊕◌,
}
use h.Proto.VarInt
use h.Proto.VarInt.{UnexpectedEnd}

pub data IntError : Type 0 where
  overflow unexpected_end : IntError

abbrev pub of_unexpected_end : UnexpectedEnd → IntError
of_unexpected_end _ = unexpected_end

abbrev pub max_power : ℕ
max_power = 9 * 7

-- A round of the loop for a byte, then the rounds behind it.
abbrev pub on_byte : ℕ → ℕ → ℕ → (ℕ → ℕ → Reader IntError ℕ) → Reader IntError ℕ
on_byte byte value power next =
    let value' = value + bit_and byte 127 * 2 ^ power in
    if bit_and byte 128 == 0
    then pure value'
    else if leb max_power (power + 7)
    then fail overflow
    else next value' (power + 7)

-- The loop of `decode`, for `fuel` rounds.
unfoldable pub decode_loop : ℕ → ℕ → ℕ → Reader IntError ℕ
decode_loop zero value power = crash
decode_loop (suc fuel) value power =
    map_err of_unexpected_end VarInt.get_u8 >>= λ byte. on_byte byte value power (decode_loop fuel)

-- After nine rounds `power` is `max_power`.
abbrev pub rounds : ℕ
rounds = 9

abbrev pub with_flags : ℕ → ℕ → Reader IntError (ℕ × ℕ)
with_flags flags value = pure (flags, value)

-- What follows the first byte.
unfoldable pub decode_first : ℕ → ℕ → Reader IntError (ℕ × ℕ)
decode_first size first =
    let flags = u8 (first / 2 ^ size) in
    let mask = 0xFF / 2 ^ (8 - size) in
    if ltb (bit_and first mask) mask
    then pure (flags, bit_and first mask)
    else (decode_loop rounds mask 0 >>= with_flags flags)

-- `decode`: the flags and the value. The shift of a `u8`'s mask by 8 places panics.
unfoldable pub decode : ℕ → Reader IntError (ℕ × ℕ)
decode size =
    if leb size 8
    then (map_err of_unexpected_end VarInt.get_u8 >>= λ first.
        if size == 0 then crash else decode_first size first)
    else crash

-- The loop of `encode`, for `fuel` rounds at most.
unfoldable pub encode_loop : ℕ → ℕ → Option (List ℕ)
encode_loop zero remaining = none
encode_loop (suc fuel) remaining =
    if leb 128 remaining
    then some ((u8 (remaining % 128) + 128) ∷ []) ⊕ encode_loop fuel (remaining / 128)
    else some (u8 remaining ∷ [])

-- A `u64` has no more than ten digits of seven bits.
abbrev pub digits : ℕ
digits = 10

unfoldable pub encode : ℕ → ℕ → ℕ → Option (List ℕ)
encode size flags value =
    if leb size 8
    then (let mask = 2 ^ size - 1 in
        let flags' = u8 (flags * 2 ^ size) in
        if ltb value mask
        then some (bit_or flags' (u8 value) ∷ [])
        else (some (bit_or mask flags' ∷ []) ⊕ encode_loop digits (value - mask)))
    else none

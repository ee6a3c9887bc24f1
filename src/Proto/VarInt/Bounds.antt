-- ===== src/Proto/VarInt/Bounds.antt =====
-- What `VarInt::decode` makes of any input, and how long encodings are.
use h.Prelude.{ℕ, ◌+◌, ◌*◌, ◌/◌, ◌%◌, ◌^◌, ◌≤◌, ◌<◌, bit_and, ◌≡◌, ◌≢◌, arith}
use h.Prelude.{List, [], ◌∷◌, length, take, drop, All, length-drop, length-take}
use mathlib.Core.Option
use native.Mathlib.Nat.{pow-suc}
use h.Prelude.{IsByte, Ensures, zero, suc, if_rule, ltb→le, min}
use h.Prelude.{Outcome, panic, ltb, ◌==◌}
use h.Prelude.Bits.{bit_and_low}
use h.Proto.VarInt.{
  IsVarInt, UnexpectedEnd, size, encode, decode, decode_tail, from_be_bytes, write_var,
}

pub low_six : (b : ℕ) → bit_and b 0b0011_1111 ≡ b % 64
low_six b = bit_and_low 6 b

-- VarInt::size gives the number of bytes that VarInt::encode puts, and panics on the same numbers.
pub size-encode : (x : ℕ) → size x ≡ Option.map length (encode x)
unfolding size encode
size-encode x = ground arith

pub write_var-encode : (x : ℕ) → write_var x ≡ encode x
unfolding write_var encode
write_var-encode x = ground arith

-- `decode` never reaches its `unreachable!`, on any bytes.
pub decode-ne-panic : (buf : List ℕ) → All IsByte buf → (decode buf).0 ≢ panic
unfolding decode
decode-ne-panic [] h = λ e. cc
decode-ne-panic (b ∷ r) h = ground arith

-- The bytes behind `acc` add less than one unit of the last place of `acc`.
pub from_be_bytes-lt :
    (acc : ℕ) (bs : List ℕ) → All IsByte bs → from_be_bytes acc bs < (acc + 1) * 256 ^ length bs
from_be_bytes-lt acc [] h = omega arith
from_be_bytes-lt acc (b ∷ bs) h =
    let ih = from_be_bytes-lt (acc * 256 + b) bs h.1 in rw (pow-suc 256 (length bs)) (grind arith)

pub take-All : (n : ℕ) (bs : List ℕ) → All IsByte bs → All IsByte (take n bs)
take-All zero bs h = tt
take-All (suc n) [] h = tt
take-All (suc n) (b ∷ bs) h = (h.0, take-All n bs h.1)

pub drop-All : (n : ℕ) (bs : List ℕ) → All IsByte bs → All IsByte (drop n bs)
drop-All zero bs h = h
drop-All (suc n) [] h = tt
drop-All (suc n) (b ∷ bs) h = drop-All n bs h.1

min-eq : (n m : ℕ) → n ≤ m → min n m ≡ n
min-eq n m h = omega arith

-- What every reader of bytes leaves: bytes, and at least `n` fewer than there were.
abbrev pub Leaves : ℕ → List ℕ → List ℕ → Type 0
Leaves n buf rest = All IsByte rest × (length rest + n ≤ length buf)

-- Each result of `decode` behind `n` bytes of the buffer.
abbrev pub Progress : ℕ → List ℕ → Outcome UnexpectedEnd ℕ × List ℕ → Type 0
Progress n buf = Ensures (λ v rest. IsVarInt v × Leaves n buf rest) (λ _ rest. Leaves 0 buf rest)

decode_tail-Progress :
    (tag n first b : ℕ) (r : List ℕ)
    → (first + 1) * 256 ^ n ≤ 2 ^ 62
    → All IsByte r
    → Progress 1 (b ∷ r) (decode_tail tag n first r)
unfolding decode_tail
decode_tail-Progress tag n first b r f h =
    if_rule (Progress 1 (b ∷ r)) (ltb (length r) n) _ _ (λ e. (h, omega arith))
      (λ e. (
        omega (arith, from_be_bytes-lt first (take n r) (take-All n r h), shorter (ltb→le _ _ e)),
        (drop-All n r h, omega (arith, length-drop n r)),
      ))
  where
    shorter : n ≤ length r → (first + 1) * 256 ^ length (take n r) ≤ 2 ^ 62
    shorter le = rw (length-take n r) (rw (min-eq n (length r) le) f)

-- VarInt::decode of any bytes does not panic; a number that it gives is below 2^62 and took at
-- least one byte.
pub decode-Progress : (buf : List ℕ) → All IsByte buf → Progress 1 buf (decode buf)
unfolding decode
decode-Progress [] h = (tt, omega arith)
decode-Progress (b ∷ r) h =
    if_rule P (b / 64 == 0) _ _ (λ e0. (ground (arith, low_six b), (h.1, omega arith)))
      (λ n0.
        if_rule P (b / 64 == 1) _ _
          (λ e. decode_tail-Progress 1 1 (bit_and b 63) b r (omega (arith, low_six b)) h.1)
          (λ n1.
            if_rule P (b / 64 == 2) _ _
              (λ e. decode_tail-Progress 2 3 (bit_and b 63) b r (omega (arith, low_six b)) h.1)
              (λ n2.
                if_rule P (b / 64 == 3) _ _
                  (λ e. decode_tail-Progress 3 7 (bit_and b 63) b r (omega (arith, low_six b)) h.1)
                  (λ n3. absurd (ground (arith, h.0))))))
  where
    P : Outcome UnexpectedEnd ℕ × List ℕ → Type 0
    P = Progress 1 (b ∷ r)

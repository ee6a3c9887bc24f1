-- ===== src/Qpack/PrefixInt/Total.antt =====
-- Prefixed integers are read from any bytes with no panic.
use h.Prelude.{
  ℕ, zero, suc, ◌+◌, ◌*◌, ◌/◌, ◌^◌, ◌≤◌, ◌<◌, arith, bit_and, List, [], ◌∷◌, ◌-◌, ltb, leb, leb→lt,
  ◌==◌, map_err, continue,
}
use h.Prelude.Safe.{Safe, Safe-if, Safe-weaken, Safe-bind}
use h.Proto.VarInt
use h.Qpack.PrefixInt.{
  of_unexpected_end, max_power, on_byte, decode_loop, rounds, decode_first, decode,
}

get_u8-Safe : (buf : List ℕ) → Safe 1 buf (map_err of_unexpected_end VarInt.get_u8 buf)
unfolding VarInt.get_u8
get_u8-Safe [] = tt
get_u8-Safe (b ∷ buf) = omega arith

-- The rounds that are left reach the largest power.
decode_loop-Safe :
    (fuel value power : ℕ) (buf : List ℕ)
    → power < max_power
    → max_power ≤ power + 7 * fuel
    → Safe 0 buf (decode_loop fuel value power buf)
unfolding decode_loop
decode_loop-Safe zero value power buf h k = absurd (omega arith)
decode_loop-Safe (suc fuel) value power buf h k =
    Safe-weaken 1 buf
      (continue (map_err of_unexpected_end VarInt.get_u8 buf)
        (λ byte. on_byte byte value power (decode_loop fuel)))
      (Safe-bind 1 buf (map_err of_unexpected_end VarInt.get_u8 buf)
        (λ byte. on_byte byte value power (decode_loop fuel)) (get_u8-Safe buf)
        (λ byte rest l.
          Safe-if 0 rest (bit_and byte 128 == 0) _ _ (λ _. omega arith)
            (λ _.
              Safe-if 0 rest (leb max_power (power + 7)) _ _ (λ _. tt)
                (λ t.
                  decode_loop-Safe fuel (value + bit_and byte 127 * 2 ^ power) (power + 7) rest
                    (leb→lt max_power (power + 7) t) (omega arith)))))

-- A prefix of one to eight bits: at least a byte is read.
pub decode-Safe : (size : ℕ) (buf : List ℕ) → 1 ≤ size → size ≤ 8 → Safe 1 buf (decode size buf)
unfolding decode decode_first
decode-Safe size buf h k =
    Safe-if 1 buf (leb size 8) _ _
      (λ _.
        Safe-bind 1 buf (map_err of_unexpected_end VarInt.get_u8 buf) _ (get_u8-Safe buf)
          (λ first rest l.
            Safe-if 0 rest (size == 0) _ _ (λ e. absurd (ground arith))
              (λ _.
                Safe-if 0 rest (ltb (bit_and first (0xFF / 2 ^ (8 - size))) (0xFF / 2 ^ (8 - size)))
                  _ _ (λ _. omega arith)
                  (λ _.
                    Safe-bind 0 rest (decode_loop rounds (0xFF / 2 ^ (8 - size)) 0 rest) _
                      (decode_loop-Safe rounds (0xFF / 2 ^ (8 - size)) 0 rest (omega arith)
                        (omega arith))
                      (λ v rest' _. omega arith)))))
      (λ e. absurd (omega (arith, leb→lt size 8 e)))

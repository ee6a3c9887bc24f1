-- ===== src/Proto/Stream/Fields.antt =====
-- The fields of a stream id, and identifiers within the range of a variable-length integer.
use h.Prelude.{ℕ, ◌+◌, ◌-◌, ◌*◌, ◌/◌, ◌%◌, ◌^◌, ◌<◌, min, bit_and}
use h.Prelude.{◌≡◌, ◌≢◌, arith, ◌==◌, ◌∙◌}
use h.Prelude.Bits.{bit_or_shifted, bit_and_low, bit_and_field}
use h.Proto.VarInt.{IsVarInt}
use h.Proto.Stream.{
  Side, client, server, Dir, bi, uni, side_bit, dir_bit, initiator, dir, index, new, is_request,
  is_push, add, grease, grease_bound, session_of_stream, stream_of_session,
}

low_bit : (id : ℕ) → bit_and id 1 ≡ id % 2
low_bit id = bit_and_low 1 id

second_bit : (id : ℕ) → bit_and id 2 ≡ id / 2 % 2 * 2
second_bit id = bit_and_field 1 1 id

-- The value of an id from its three fields.
new_value :
    (i : ℕ) (d : Dir) (s : Side) → i < 2 ^ 62 → new i d s ≡ 4 * i + 2 * dir_bit d + side_bit s
unfolding new
new_value i bi client h = ground (arith, bit_or_shifted 2 i 0, bit_or_shifted 1 (2 * i) 0)
new_value i bi server h = ground (arith, bit_or_shifted 2 i 0, bit_or_shifted 1 (2 * i) 1)
new_value i uni client h = ground (arith, bit_or_shifted 2 i 2, bit_or_shifted 1 (2 * i + 1) 0)
new_value i uni server h = ground (arith, bit_or_shifted 2 i 2, bit_or_shifted 1 (2 * i + 1) 1)

-- An id packed from an index below 2^62, a direction and a side gives back all three.
pub new_fields :
    (i : ℕ) (d : Dir) (s : Side)
    → i < 2 ^ 62
    → (index (new i d s) ≡ i) × (dir (new i d s) ≡ d) × (initiator (new i d s) ≡ s)
unfolding index dir initiator
new_fields i bi client h =
    ground (arith, new_value i bi client h, low_bit (4 * i), second_bit (4 * i))
new_fields i bi server h =
    ground (arith, new_value i bi server h, low_bit (4 * i + 1), second_bit (4 * i + 1))
new_fields i uni client h =
    ground (arith, new_value i uni client h, low_bit (4 * i + 2), second_bit (4 * i + 2))
new_fields i uni server h =
    ground (arith, new_value i uni server h, low_bit (4 * i + 3), second_bit (4 * i + 3))

-- Every 64-bit id is packed from its index, direction and initiator.
pub new_of_fields : (id : ℕ) → id < 2 ^ 64 → new (index id) (dir id) (initiator id) ≡ id
unfolding index dir initiator
new_of_fields id h = ground (
  arith,
  low_bit id,
  second_bit id,
  new_value (id / 4) bi client,
  new_value (id / 4) bi server,
  new_value (id / 4) uni client,
  new_value (id / 4) uni server,
)

-- The request ids are the multiples of four, and the push ids those with remainder three.
pub kind_of_id : (id : ℕ) → (is_request id ≡ (id % 4 == 0)) × (is_push id ≡ (id % 4 == 3))
unfolding is_request is_push
kind_of_id id = ground (arith, low_bit id, second_bit id)

packed-IsVarInt : (i : ℕ) (d : Dir) (s : Side) → i < 2 ^ 60 → IsVarInt (new i d s)
packed-IsVarInt i bi client h = omega (arith, new_value i bi client (omega arith))
packed-IsVarInt i bi server h = omega (arith, new_value i bi server (omega arith))
packed-IsVarInt i uni client h = omega (arith, new_value i uni client (omega arith))
packed-IsVarInt i uni server h = omega (arith, new_value i uni server (omega arith))

-- Adding to an id that is a variable-length integer gives one, of the same direction and initiator,
-- with the index moved up to at most 2^60 - 1.
pub add_fields :
    (id rhs : ℕ)
    → IsVarInt id
    → IsVarInt (add id rhs)
      × (index (add id rhs) ≡ min (index id + rhs) (2 ^ 60 - 1))
      × (dir (add id rhs) ≡ dir id)
      × (initiator (add id rhs) ≡ initiator id)
unfolding add
add_fields id rhs h =
    let i = min (min (index id + rhs) (2 ^ 64 - 1)) ((2 ^ 62 - 1) / 2 ^ 2) in
    let (e, f, g) = new_fields i (dir id) (initiator id) (omega arith) in
    (packed-IsVarInt i (dir id) (initiator id) (omega arith), e ∙ omega arith, f, g)

-- For every number that the generator may draw, a grease type is a variable-length integer with
-- remainder two by 0x1f.
pub grease-IsVarInt : (n : ℕ) → n < grease_bound → IsVarInt (grease n) × (grease n % 0x1f ≡ 2)
unfolding grease
grease-IsVarInt n h = omega arith

-- The session id made from a stream id other than 0 does not lead back to that stream.
pub session-ne-stream : (id : ℕ) → 0 < id → stream_of_session (session_of_stream id) ≢ id
unfolding stream_of_session session_of_stream
session-ne-stream id h = omega arith

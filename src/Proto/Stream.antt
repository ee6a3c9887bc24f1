-- ===== src/Proto/Stream.antt =====
-- h3/src/proto/stream.rs, h3/src/proto/push.rs and h3/src/webtransport/session_id.rs: identifiers of
-- streams, pushes and sessions, each the number that it holds.
pub mod Fields
use h.Prelude.{ℕ, ◌+◌, ◌-◌, ◌*◌, ◌/◌, ◌%◌, ◌^◌, min, bit_and, bit_or, Bool, true, false, ◌&&◌}
use h.Prelude.{List, Option, none, some, Outcome, ok, err, panic, Reader, ltb, ◌==◌, u64}
use h.Prelude.{if◌then◌else◌}
use h.Proto.VarInt
use h.Proto.VarInt.{max_value, UnexpectedEnd, VarIntBoundsExceeded}

-- `StreamType` constants.
abbrev pub control : ℕ
control = 0x00

abbrev pub push : ℕ
push = 0x01

abbrev pub encoder : ℕ
encoder = 0x02

abbrev pub decoder : ℕ
decoder = 0x03

abbrev pub webtransport_bidi : ℕ
webtransport_bidi = 0x41

abbrev pub webtransport_uni : ℕ
webtransport_uni = 0x54

-- `StreamType::grease` and `FrameType::grease`, for the random number `n` that `fastrand` drew.
unfoldable pub grease : ℕ → ℕ
grease n = n * 0x1f + 0x21

-- The bound that `fastrand` is given: it draws a number below this one.
abbrev pub grease_bound : ℕ
grease_bound = 0x210842108421083

pub data Side : Type 0 where
  client server : Side

pub data Dir : Type 0 where
  bi uni : Dir

-- `initiator as u64` and `dir as u64`
abbrev pub side_bit : Side → ℕ
side_bit client = 0
side_bit server = 1

abbrev pub dir_bit : Dir → ℕ
dir_bit bi = 0
dir_bit uni = 1

abbrev pub is_client : Side → Bool
is_client client = true
is_client server = false

abbrev pub is_bi : Dir → Bool
is_bi bi = true
is_bi uni = false

unfoldable pub initiator : ℕ → Side
initiator id = if bit_and id 0x1 == 0 then client else server

unfoldable pub dir : ℕ → Dir
dir id = if bit_and id 0x2 == 0 then bi else uni

unfoldable pub index : ℕ → ℕ
index id = id / 2 ^ 2

-- `(index) << 2 | (dir as u64) << 1 | initiator as u64`; the shift drops the bits past 64.
unfoldable pub new : ℕ → Dir → Side → ℕ
new i d s = bit_or (bit_or (u64 (i * 2 ^ 2)) (dir_bit d * 2 ^ 1)) (side_bit s)

unfoldable pub is_request : ℕ → Bool
unfolding dir initiator
is_request id = is_bi (dir id) && is_client (initiator id)

unfoldable pub is_push : ℕ → Bool
unfolding dir initiator
is_push id =
    (if is_bi (dir id) then false else true) && (if is_client (initiator id) then false else true)

abbrev pub first_request : ℕ
first_request = new 0 bi client

pub data InvalidStreamId : Type 0 where
  invalid_stream_id : ℕ → InvalidStreamId

-- `TryFrom<u64>` of `StreamId` and of `SessionId`.
unfoldable pub try_from : ℕ → Outcome InvalidStreamId ℕ
try_from v = if ltb max_value v then err (invalid_stream_id v) else ok v

-- `StreamId + usize`: `u64::saturating_add` and then the bound.
abbrev pub saturating_add : ℕ → ℕ → ℕ
saturating_add a b = min (a + b) (2 ^ 64 - 1)

unfoldable pub add : ℕ → ℕ → ℕ
unfolding index dir initiator new
add id rhs = new (min (saturating_add (index id) rhs) (max_value / 2 ^ 2)) (dir id) (initiator id)

-- `Encode for StreamId` and `Encode for SessionId`: the bounds check is unwrapped.
unfoldable pub encode : ℕ → Option (List ℕ)
encode id = VarInt.write_var id

-- `Decode for SessionId`
unfoldable pub decode_session_id : Reader UnexpectedEnd ℕ
decode_session_id = VarInt.decode

-- `From<StreamId> for SessionId` and `From<SessionId> for StreamId`
unfoldable pub session_of_stream : ℕ → ℕ
unfolding index
session_of_stream id = index id

unfoldable pub stream_of_session : ℕ → ℕ
stream_of_session session = session

pub data InvalidPushId : Type 0 where
  invalid_push_id : ℕ → InvalidPushId

abbrev to_push_id : Outcome VarIntBoundsExceeded ℕ → ℕ → Outcome InvalidPushId ℕ
to_push_id (ok id) v = ok id
to_push_id (err e) v = err (invalid_push_id v)
to_push_id panic v = panic

-- `TryFrom<u64> for PushId`
unfoldable pub try_push_id : ℕ → Outcome InvalidPushId ℕ
unfolding VarInt.from_u64
try_push_id v = to_push_id (VarInt.from_u64 v) v

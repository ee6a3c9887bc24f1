-- ===== src/Proto/Frame.antt =====
-- Frames of h3/src/proto/frame.rs: `Frame`, `FrameType`, `FrameError` and `PushPromise`.
-- A `Frame<PayloadLen>` is a `Frame ℕ`, a `Frame<B>` that is sent is a `Frame (List ℕ)`.
pub mod Whole
pub mod RoundTrip
pub mod Trailing
pub mod Progress
pub mod Incomplete
pub mod Consumes
use h.Prelude.{ℕ, ◌+◌, Bool, true, false, ◌||◌, List, [], ◌∷◌, ◌++◌, Option, none, some}
use h.Prelude.{Outcome, ok, err, panic, Reader, ◌>>=◌, ◌>>◌, pure, fail, map_err, ◌⊕◌}
use h.Prelude.{length, take, drop, ltb, ◌==◌, if◌then◌else◌}
use h.Proto.VarInt
use h.Proto.VarInt.{UnexpectedEnd, unexpected_end}
use h.Proto.Stream
use h.Proto.Stream.{InvalidStreamId, InvalidPushId}
use h.Proto.Settings
use h.Proto.Settings.{SettingsError}

-- `FrameType` constants.
abbrev pub data_type : ℕ
data_type = 0x0

abbrev pub headers_type : ℕ
headers_type = 0x1

abbrev pub h2_priority : ℕ
h2_priority = 0x2

abbrev pub cancel_push_type : ℕ
cancel_push_type = 0x3

abbrev pub settings_type : ℕ
settings_type = 0x4

abbrev pub push_promise_type : ℕ
push_promise_type = 0x5

abbrev pub h2_ping : ℕ
h2_ping = 0x6

abbrev pub goaway_type : ℕ
goaway_type = 0x7

abbrev pub h2_window_update : ℕ
h2_window_update = 0x8

abbrev pub h2_continuation : ℕ
h2_continuation = 0x9

abbrev pub max_push_id_type : ℕ
max_push_id_type = 0xD

abbrev pub webtransport_bi_stream : ℕ
webtransport_bi_stream = 0x41

pub data FrameError : Type 0 where
  malformed : FrameError
  unsupported_frame : ℕ → FrameError
  unknown_frame : ℕ → FrameError
  invalid_frame_value : FrameError
  incomplete : ℕ → FrameError
  settings_error : SettingsError → FrameError
  stream_id_error : InvalidStreamId → FrameError
  push_id_error : InvalidPushId → FrameError

pub record PushPromise : Type 0 where
  pub id : ℕ
  pub encoded : List ℕ

pub data Frame (B : Type 0) : Type 0 where
  payload : B → Frame B
  headers : List ℕ → Frame B
  cancel_push : ℕ → Frame B
  settings : Settings.Settings → Frame B
  push_promise : PushPromise → Frame B
  goaway : ℕ → Frame B
  max_push_id : ℕ → Frame B
  webtransport_stream : ℕ → Frame B
  grease : Frame B

-- `From<UnexpectedEnd> for FrameError`
abbrev pub of_unexpected_end : UnexpectedEnd → FrameError
of_unexpected_end (unexpected_end n) = incomplete n

-- `.map_err(|_| FrameError::Incomplete(n))`
abbrev pub always_incomplete : ℕ → UnexpectedEnd → FrameError
always_incomplete n _ = incomplete n

-- `copy_to_bytes(remaining())` takes all that the buffer holds.
abbrev pub copy_rest : {E : Type 0} → Reader E (List ℕ)
copy_rest buf = (ok buf, [])

unfoldable pub decode_push_promise : Reader UnexpectedEnd PushPromise
decode_push_promise = do
  id ← VarInt.decode
  encoded ← copy_rest
  pure (record { id = id; encoded = encoded })

-- A reader on `buf.take(n)`: it consumes the first `n` bytes at most.
abbrev pub limited : {E A : Type 0} → ℕ → Reader E A → Reader E A
limited n m buf = let r = m (take n buf) in (r.0, r.1 ++ drop n buf)

-- `payload.get_var()?.try_into()?`
unfoldable pub decode_push_id : Reader FrameError ℕ
unfolding Stream.try_push_id
decode_push_id = do
  v ← map_err of_unexpected_end VarInt.decode
  map_err push_id_error (λ rest. (Stream.try_push_id v, rest))

-- The right-hand sides of the `match ty`, on the limited payload.
unfoldable pub headers_payload : Reader FrameError (Frame ℕ)
headers_payload = do block ← copy_rest; pure (headers block)

unfoldable pub settings_payload : Reader FrameError (Frame ℕ)
settings_payload = do s ← map_err settings_error Settings.decode; pure (settings s)

unfoldable pub cancel_push_payload : Reader FrameError (Frame ℕ)
unfolding decode_push_id
cancel_push_payload = do id ← decode_push_id; pure (cancel_push id)

unfoldable pub push_promise_payload : Reader FrameError (Frame ℕ)
unfolding decode_push_promise
push_promise_payload = do p ← map_err of_unexpected_end decode_push_promise; pure (push_promise p)

unfoldable pub goaway_payload : Reader FrameError (Frame ℕ)
goaway_payload = do id ← map_err of_unexpected_end VarInt.decode; pure (goaway id)

unfoldable pub max_push_id_payload : Reader FrameError (Frame ℕ)
unfolding decode_push_id
max_push_id_payload = do id ← decode_push_id; pure (max_push_id id)

abbrev pub is_forbidden_type : ℕ → Bool
is_forbidden_type ty =
    ty == h2_priority || ty == h2_ping || ty == h2_window_update || ty == h2_continuation

-- The `match ty` on a payload of `len` bytes that the buffer holds.
unfoldable pub decode_payload : ℕ → ℕ → Reader FrameError (Frame ℕ)
decode_payload ty len =
    if ty == headers_type
    then limited len headers_payload
    else if ty == settings_type
    then limited len settings_payload
    else if ty == cancel_push_type
    then limited len cancel_push_payload
    else if ty == push_promise_type
    then limited len push_promise_payload
    else if ty == goaway_type
    then limited len goaway_payload
    else if ty == max_push_id_type
    then limited len max_push_id_payload
    else if is_forbidden_type ty
    then fail (unsupported_frame ty)
    else λ buf. (err (unknown_frame ty), drop len buf)

-- What follows the type and the length.
unfoldable pub decode_after_len : ℕ → ℕ → Reader FrameError (Frame ℕ)
unfolding decode_payload
decode_after_len ty len buf =
    if ty == data_type
    then (ok (payload len), buf)
    else if ltb (length buf) len
    then (err (incomplete (2 + len)), buf)
    else decode_payload ty len buf

-- What follows the type of a frame other than a WebTransport stream's.
unfoldable pub decode_body : ℕ → ℕ → Reader FrameError (Frame ℕ)
unfolding decode_after_len
decode_body remaining ty =
    map_err (always_incomplete (remaining + 1)) VarInt.decode >>= decode_after_len ty

unfoldable pub decode_webtransport : Reader FrameError (Frame ℕ)
unfolding Stream.decode_session_id
decode_webtransport = do
  id ← map_err of_unexpected_end Stream.decode_session_id
  pure (webtransport_stream id)

-- What follows the type.
unfoldable pub decode_after_type : ℕ → ℕ → Reader FrameError (Frame ℕ)
unfolding decode_body decode_webtransport
decode_after_type remaining ty =
    if ty == webtransport_bi_stream then decode_webtransport else decode_body remaining ty

-- `Frame::decode`
unfoldable pub decode : Reader FrameError (Frame ℕ)
unfolding decode_after_type
decode buf =
    (map_err (always_incomplete (length buf + 1)) VarInt.decode >>= decode_after_type (length buf))
      buf

-- `buf.write_var` of a length that an unwrapped bounds check may refuse.
abbrev pub write_len : Option ℕ → Option (List ℕ)
write_len (some n) = VarInt.write_var n
write_len none = none

abbrev pub add_length : Option ℕ → ℕ → Option ℕ
add_length (some a) b = some (a + b)
add_length none b = none

-- `simple_frame_encode`
unfoldable pub simple_frame_encode : ℕ → ℕ → Option (List ℕ)
simple_frame_encode ty id = VarInt.write_var ty ⊕ write_len (VarInt.size id) ⊕ VarInt.encode id

-- `PushPromise::encode`
unfoldable pub encode_push_promise : PushPromise → Option (List ℕ)
encode_push_promise p =
    VarInt.write_var push_promise_type
    ⊕ write_len (add_length (VarInt.size p.id) (length p.encoded))
    ⊕ VarInt.write_var p.id
    ⊕ some p.encoded

-- `Settings::encode`
unfoldable pub encode_settings : Settings.Settings → Option (List ℕ)
encode_settings s =
    VarInt.write_var settings_type
    ⊕ write_len (Settings.entries_len (Settings.used s))
    ⊕ Settings.encode_entries (Settings.used s)

-- `b"grease"`
abbrev pub grease_bytes : List ℕ
grease_bytes = b'g' ∷ b'r' ∷ b'e' ∷ b'a' ∷ b's' ∷ b'e' ∷ []

-- `Encode for Frame<B>`, with the random number that a grease frame draws for its type.
unfoldable pub encode : ℕ → Frame (List ℕ) → Option (List ℕ)
unfolding encode_settings encode_push_promise simple_frame_encode
encode n (payload b) = VarInt.write_var data_type ⊕ VarInt.write_var (length b)
encode n (headers f) = VarInt.write_var headers_type ⊕ VarInt.write_var (length f)
encode n (settings s) = encode_settings s
encode n (push_promise p) = encode_push_promise p
encode n (cancel_push id) = simple_frame_encode cancel_push_type id
encode n (goaway id) = simple_frame_encode goaway_type id
encode n (max_push_id id) = simple_frame_encode max_push_id_type id
encode n grease = VarInt.write_var (Stream.grease n) ⊕ VarInt.write_var 6 ⊕ some grease_bytes
encode n (webtransport_stream id) = VarInt.write_var webtransport_bi_stream ⊕ Stream.encode id

-- `Frame::payload`: what is sent behind the encoded header.
unfoldable pub payload_of : Frame (List ℕ) → Option (List ℕ)
payload_of (payload b) = some b
payload_of (headers b) = some b
payload_of (push_promise p) = some p.encoded
payload_of _ = none

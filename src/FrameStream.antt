-- ===== src/FrameStream.antt =====
-- h3/src/frame.rs: `FrameDecoder` and `FrameStream`, and the receiving side of `BufRecvStream` of
-- h3/src/stream.rs.
pub mod Decoder
pub mod Unique
pub mod Answers
pub mod Delivery
pub mod Next
pub mod Payload
pub mod Data
use h.Prelude.{
  ℕ, zero, suc, ◌+◌, ◌-◌, Bool, true, false, not, ◌&&◌, List, [], ◌∷◌, ◌++◌, Option, none, some,
}
use h.Prelude.{Outcome, ok, err, panic, length, ltb, ◌==◌, if◌then◌else◌, usize_max}
use h.Buf
use h.Buf.{BufList}
use h.Quic.{StreamErrorIncoming, Event, wait, bytes, fin, failed, Poll, ready, pending}
use h.Proto.Stream.{InvalidStreamId, InvalidPushId}
use h.Proto.Settings.{SettingsError}
use h.Proto.Frame
use h.Proto.Frame.{Frame, FrameError, payload, webtransport_stream}

pub data FrameProtocolError : Type 0 where
  malformed : FrameProtocolError
  forbidden_frame : ℕ → FrameProtocolError
  invalid_frame_value : FrameProtocolError
  settings_error : SettingsError → FrameProtocolError
  stream_id_error : InvalidStreamId → FrameProtocolError
  push_id_error : InvalidPushId → FrameProtocolError

pub data FrameStreamError : Type 0 where
  proto : FrameProtocolError → FrameStreamError
  quic : StreamErrorIncoming → FrameStreamError
  unexpected_end : FrameStreamError

-- `FrameDecoder` with the `BufList` that it is given. `expected` is the least number of bytes for
-- which decoding is tried again.
pub record DecoderState : Type 0 where
  pub expected : Option ℕ
  pub src : BufList

abbrev pub Decoded : Type 0
Decoded = Outcome FrameStreamError (Option (Frame ℕ)) × DecoderState

-- What one round of the loop does: go on, or return.
pub data Round : Type 0 where
  again : DecoderState → Round
  done : Decoded → Round

-- `src.advance(pos); self.expected = None;` and then `k`.
abbrev pub advanced : Option BufList → DecoderState → (DecoderState → Round) → Round
advanced none s k = done (panic, s)
advanced (some l) s k = k (record { expected = none; src = l })

-- The `match decoded`, for the position at which the cursor stands.
unfoldable pub on_decoded : Outcome FrameError (Frame ℕ) → ℕ → DecoderState → Round
on_decoded (ok f) pos s = advanced (Buf.advance pos s.src) s λ t. done (ok (some f), t)
on_decoded (err (FrameError.unknown_frame ty)) pos s = advanced (Buf.advance pos s.src) s again
on_decoded (err (FrameError.incomplete min)) pos s =
    done (ok none, record s { expected = some min })
on_decoded (err (FrameError.stream_id_error e)) pos s = done (err (proto (stream_id_error e)), s)
on_decoded (err (FrameError.push_id_error e)) pos s = done (err (proto (push_id_error e)), s)
on_decoded (err (FrameError.settings_error e)) pos s = done (err (proto (settings_error e)), s)
on_decoded (err (FrameError.unsupported_frame ty)) pos s =
    done (err (proto (forbidden_frame ty)), s)
on_decoded (err FrameError.invalid_frame_value) pos s = done (err (proto invalid_frame_value), s)
on_decoded (err FrameError.malformed) pos s = done (err (proto malformed), s)
on_decoded panic pos s = done (panic, s)

-- `if let Some(min) = self.expected { if src.remaining() < min`
abbrev pub too_short : Option ℕ → ℕ → Bool
too_short none n = false
too_short (some min) n = ltb n min

-- One round.
unfoldable pub decode_round : DecoderState → Round
unfolding on_decoded Buf.through_cursor
decode_round s =
    if not (Buf.has_remaining s.src)
    then done (ok none, s)
    else if too_short s.expected (Buf.remaining s.src)
    then done (ok none, s)
    else (let r = Buf.through_cursor Frame.decode s.src in on_decoded r.0 r.1 s)

-- `FrameDecoder::decode` for `fuel` rounds; a round that goes on has consumed a frame.
unfoldable pub decode_rounds : ℕ → DecoderState → Decoded
decode_rounds zero s = (panic, s)
decode_rounds (suc fuel) s = elim (decode_round s) [ again t ↦ decode_rounds fuel t | done r ↦ r ]

-- Each round that goes on takes two bytes at least, so this many rounds are enough.
unfoldable pub decode : DecoderState → Decoded
unfolding decode_rounds
decode s = decode_rounds (suc (Buf.remaining s.src)) s

-- `FrameStream` over a `BufRecvStream`, whose buffer is the decoder's `src`. What the transport will
-- answer to the polls to come is a list of events beside it.
pub record FrameStream : Type 0 where
  pub decoder : DecoderState
  pub eos : Bool
  pub remaining_data : ℕ

unfoldable pub new : FrameStream
new = record { decoder = record { expected = none; src = [] }; eos = false; remaining_data = 0 }

-- The stream with this buffer.
abbrev pub with_src : FrameStream → BufList → FrameStream
with_src s l = record s { decoder = record { expected = s.decoder.expected; src = l } }

-- `self.buf.push_bytes(&mut data)`, a panic where its assertion fails.
abbrev pub on_push :
    FrameStream
    → List Event
    → Option BufList
    → Poll (Outcome StreamErrorIncoming Bool) × FrameStream × List Event
on_push s es (some l) = (ready (ok false), with_src s l, es)
on_push s es none = (ready panic, s, es)

-- `BufRecvStream::poll_read`; where no answer is left the transport stays not ready.
unfoldable pub poll_read :
    FrameStream → List Event → Poll (Outcome StreamErrorIncoming Bool) × FrameStream × List Event
unfolding Buf.push_bytes
poll_read s [] = (pending, s, [])
poll_read s (wait ∷ es) = (pending, s, es)
poll_read s (bytes b ∷ es) = on_push s es (Buf.push_bytes s.decoder.src b)
poll_read s (fin ∷ es) = (ready (ok true), record s { eos = true }, es)
poll_read s (failed e ∷ es) = (ready (err e), s, es)

abbrev pub quic_error : Outcome StreamErrorIncoming Bool → Outcome FrameStreamError Bool
quic_error (ok b) = ok b
quic_error (err e) = err (quic e)
quic_error panic = panic

abbrev pub map_poll : {A B : Type 0} → (A → B) → Poll A → Poll B
map_poll f (ready a) = ready (f a)
map_poll f pending = pending

-- `FrameStream::try_recv`
unfoldable pub try_recv :
    FrameStream → List Event → Poll (Outcome FrameStreamError Bool) × FrameStream × List Event
unfolding poll_read
try_recv s es =
    if s.eos
    then (ready (ok true), s, es)
    else (let r = poll_read s es in (map_poll quic_error r.0, r.1, r.2))

abbrev pub Polled : Type 0
Polled = Poll (Outcome FrameStreamError (Option (Frame ℕ))) × FrameStream × List Event

-- The frame that `poll_next` returns, and the payload that `poll_data` has to read before the next.
unfoldable pub on_frame : Frame ℕ → FrameStream → List Event → Polled
on_frame (payload len) s es =
    (ready (ok (some (payload len))), record s { remaining_data = len }, es)
on_frame (webtransport_stream id) s es =
    (ready (ok (some (webtransport_stream id))), record s { remaining_data = usize_max }, es)
on_frame f s es = (ready (ok (some f)), s, es)

-- `Poll::Ready(true)`: the stream has ended.
unfoldable pub on_end : FrameStream → List Event → Polled
on_end s es =
    if Buf.has_remaining s.decoder.src
    then (ready (err unexpected_end), s, es)
    else (ready (ok none), s, es)

-- The `match self.try_recv(cx)?` of a round. `next` is the round after one more chunk.
unfoldable pub on_incomplete :
    Poll (Outcome FrameStreamError Bool) × FrameStream × List Event
    → (FrameStream → Polled)
    → Polled
unfolding on_end
on_incomplete (ready (ok false), t, es) next = next t
on_incomplete (ready (ok true), t, es) next = on_end t es
on_incomplete (ready (err e), t, es) next = (ready (err e), t, es)
on_incomplete (ready panic, t, es) next = (ready panic, t, es)
on_incomplete (pending, t, es) next = (pending, t, es)

-- One round of the loop, on what the decoder gave.
unfoldable pub on_decode : Decoded → FrameStream → List Event → (FrameStream → Polled) → Polled
unfolding on_frame on_incomplete try_recv
on_decode (ok (some f), d) s es next = on_frame f (record s { decoder = d }) es
on_decode (ok none, d) s es next = on_incomplete (try_recv (record s { decoder = d }) es) next
on_decode (err e, d) s es next = (ready (err e), record s { decoder = d }, es)
on_decode (panic, d) s es next = (ready panic, record s { decoder = d }, es)

-- The loop of `poll_next`: a round that goes on has taken one answer of the transport.
unfoldable pub poll_next_loop : List Event → FrameStream → Polled
unfolding on_decode
poll_next_loop [] s = on_decode (decode s.decoder) s [] (λ t. (pending, t, []))
poll_next_loop (e ∷ es) s =
    let next = poll_next_loop es in on_decode (decode s.decoder) s (e ∷ es) next

-- `FrameStream::poll_next`, with its assertion.
unfoldable pub poll_next : FrameStream → List Event → Polled
unfolding poll_next_loop
poll_next s es = if s.remaining_data == 0 then poll_next_loop es s else (ready panic, s, es)

abbrev pub PolledData : Type 0
PolledData = Poll (Outcome FrameStreamError (Option (List ℕ))) × FrameStream × List Event

-- The `match (data, end)` of `poll_data`, for the stream behind `take_chunk`.
unfoldable pub on_chunk : Option (List ℕ) → Bool → FrameStream → List Event → PolledData
on_chunk none true s es = (ready (ok none), s, es)
on_chunk none false s es = (pending, s, es)
on_chunk (some d) end s es =
    if end && (ltb (length d) s.remaining_data && not (Buf.has_remaining s.decoder.src))
    then (ready (err unexpected_end), s, es)
    else (ready (ok (some d)), record s { remaining_data = s.remaining_data - length d }, es)

unfoldable pub take_data : Bool → FrameStream → List Event → PolledData
unfolding on_chunk
take_data end s es =
    let (data', rest) = Buf.take_chunk s.remaining_data s.decoder.src in
    on_chunk data' end (record s { decoder = record { expected = s.decoder.expected; src = rest } })
      es

abbrev pub on_recv : Poll (Outcome FrameStreamError Bool) × FrameStream × List Event → PolledData
on_recv (ready (ok end), s, es) = take_data end s es
on_recv (ready (err e), s, es) = (ready (err e), s, es)
on_recv (ready panic, s, es) = (ready panic, s, es)
on_recv (pending, s, es) = take_data false s es

-- `FrameStream::poll_data`
unfoldable pub poll_data : FrameStream → List Event → PolledData
unfolding try_recv take_data
poll_data s es = if s.remaining_data == 0 then (ready (ok none), s, es) else on_recv (try_recv s es)

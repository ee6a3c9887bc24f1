-- ===== src/FrameStream/Data.antt =====
-- `FrameStream::poll_data`: the payload of a frame, piece by piece.
use h.Prelude.{◌<◌, ◌≡◌, ◌≢◌, arith, false, List, [], ◌∷◌, none, ok, panic, length}
use h.Buf
use h.Buf.{take_chunk}
use h.Quic.{Event, bytes, fin, ready}
use h.FrameStream.{FrameStream, poll_read, try_recv, take_data, on_chunk, poll_data, poll_next}

-- An answer that brings bytes brings one at least.
abbrev pub BringsSome : Event → Type 0
BringsSome (bytes b) = 0 < length b
BringsSome _ = Unit {0}

-- Where a stream whose end was not seen before ends inside a payload with the buffer empty,
-- poll_data answers that the payload is over, and a poll_next after it panics.
pub cut_payload-panic :
    (s : FrameStream) (es : List Event)
    → s.eos ≡ false
    → s.decoder.src ≡ []
    → s.remaining_data ≢ 0
    → ((poll_data s (fin ∷ es)).0 ≡ ready (ok none))
      × ((poll_next (poll_data s (fin ∷ es)).1 es).0 ≡ ready panic)
unfolding poll_data poll_next try_recv poll_read take_data take_chunk on_chunk
cut_payload-panic s es e p n = (ground arith, ground arith)

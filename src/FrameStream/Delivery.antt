-- ===== src/FrameStream/Delivery.antt =====
-- What `FrameStream::poll_next` has to give for the bytes that arrive.
use h.Prelude.{ℕ, ◌<◌, ◌≡◌, ◌≢◌, Bool, true, false, ◌⊎◌}
use h.Prelude.{
  List, [], ◌∷◌, ◌++◌, Option, none, some, Outcome, ok, err, panic, length, All, IsByte,
}
use h.Prelude.{usize_max}
use h.Buf.{contents}
use h.Quic.{Event, bytes, fin, failed, Poll, ready, pending}
use h.Proto.Frame.{Frame, payload, webtransport_stream}
use h.FrameStream.{FrameStreamError, proto, quic, unexpected_end, FrameStream, Polled}
use h.FrameStream.Decoder.{Yields, IsConsistent}
use h.FrameStream.Answers.{Yields-append}

-- How many bytes of data follow a frame.
abbrev pub data_after : Frame ℕ → ℕ
data_after (payload len) = len
data_after (webtransport_stream id) = usize_max
data_after _ = 0

-- What an answer of `poll_next` says of all the bytes that there were.
abbrev pub Shows :
    List ℕ → Poll (Outcome FrameStreamError (Option (Frame ℕ))) → FrameStream → Type 0
Shows all (ready (ok (some f))) t =
    Yields all (ok (some f)) (contents t.decoder.src) × (t.remaining_data ≡ data_after f)
Shows all (ready (ok none)) t =
    Yields all (ok none) (contents t.decoder.src) × (contents t.decoder.src ≡ []) × (t.eos ≡ true)
Shows all (ready (err (proto x))) t = Yields all (err (proto x)) (contents t.decoder.src)
Shows all (ready (err (quic e))) t = Yields all (ok none) (contents t.decoder.src)
Shows all (ready (err unexpected_end)) t =
    Yields all (ok none) (contents t.decoder.src) × (contents t.decoder.src ≢ []) × (t.eos ≡ true)
Shows all (ready panic) t = ⊥
Shows all pending t = Yields all (ok none) (contents t.decoder.src)

pub Shows-append :
    {buf left : List ℕ} (more : List ℕ) (p : Poll (Outcome FrameStreamError (Option (Frame ℕ))))
    (t : FrameStream)
    → Yields buf (ok none) left
    → Shows (left ++ more) p t
    → Shows (buf ++ more) p t
Shows-append more (ready (ok (some f))) t y (z, e) = (Yields-append more y z, e)
Shows-append more (ready (ok none)) t y (z, e, k) = (Yields-append more y z, e, k)
Shows-append more (ready (err (proto x))) t y z = Yields-append more y z
Shows-append more (ready (err (quic e))) t y z = Yields-append more y z
Shows-append more (ready (err unexpected_end)) t y (z, e, k) = (Yields-append more y z, e, k)
Shows-append more (ready panic) t y z = z
Shows-append more pending t y z = Yields-append more y z

-- Answers of the transport that bring bytes.
abbrev pub arrivals : List (List ℕ) → List Event
arrivals [] = []
arrivals (b ∷ bs) = bytes b ∷ arrivals bs

-- An answer that brings bytes brings one at least.
abbrev pub CarriesBytes : Event → Type 0
CarriesBytes (bytes b) = (0 < length b) × All IsByte b
CarriesBytes _ = Unit {0}

-- Before each of these chunks is taken, the bytes so far are no frame and no error yet, and the end
-- was not seen.
abbrev pub Waits : Bool → List ℕ → List (List ℕ) → Type 0
Waits eos buf [] = Unit {0}
Waits eos buf (b ∷ bs) =
    (eos ≡ false) × ((left : List ℕ) × Yields buf (ok none) left × Waits eos (left ++ b) bs)

-- The end of the stream was seen before or is seen now, with the answers to come before and after.
abbrev pub IsEnd : Bool → List Event → List Event → Type 0
IsEnd eos es es' = ((eos ≡ true) × (es ≡ es')) ⊎ ((eos ≡ false) × (es ≡ fin ∷ es'))

-- The transport is not ready.
abbrev pub IsWait : Bool → List Event → List Event → Type 0
IsWait eos es es' = (eos ≡ false) × ((es ≡ Event.wait ∷ es') ⊎ ((es ≡ []) × (es' ≡ [])))

-- What the transport answered behind the chunks, for an answer of `poll_next`.
abbrev pub Answers :
    Bool → Poll (Outcome FrameStreamError (Option (Frame ℕ))) → List Event → List Event → Type 0
Answers eos (ready (ok (some f))) es es' = es ≡ es'
Answers eos (ready (ok none)) es es' = IsEnd eos es es'
Answers eos (ready (err (proto x))) es es' = es ≡ es'
Answers eos (ready (err (quic e))) es es' = (eos ≡ false) × (es ≡ failed e ∷ es')
Answers eos (ready (err unexpected_end)) es es' = IsEnd eos es es'
Answers eos (ready panic) es es' = ⊥
Answers eos pending es es' = IsWait eos es es'

-- The chunks that were taken, each since the bytes before it were too few, and the answer behind
-- them; what `poll_next` says of all these bytes; and that the decoder stays consistent.
abbrev pub Delivers : FrameStream → List Event → Polled → Type 0
Delivers s es (p, t, es') =
    (chunks : List (List ℕ)) × (later : List Event) × (es ≡ arrivals chunks ++ later)
    × Waits s.eos (contents s.decoder.src) chunks
    × Shows (contents s.decoder.src ++ contents chunks) p t
    × Answers s.eos p later es'
    × IsConsistent t.decoder

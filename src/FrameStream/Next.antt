-- ===== src/FrameStream/Next.antt =====
-- `FrameStream::poll_next`: the frames that it gives are those of the bytes that arrived.
use h.Prelude.{ℕ, ◌≤◌, ◌<◌, ◌≡◌, ◌≢◌, refl, ap, sym, ◌∙◌, arith, Bool, true, false, inl, inr}
use h.Prelude.{
  List, [], ◌∷◌, ◌++◌, Option, none, some, Outcome, ok, err, panic, length, All, IsByte,
  append_assoc, append-nil,
}
use h.Prelude.{◌==◌, if_rule, ltb, ltb→lt, ltb→le}
use mathlib.Core.Path.{subst}
use h.Buf
use h.Buf.{contents}
use h.Buf.Contents.{remaining-contents, contents-push_back}
use h.Buf.Chunks.{push_bytes-some}
use h.Quic.{StreamErrorIncoming, Event, bytes, fin, failed, Poll, ready, pending}
use h.Proto.Frame.{Frame, payload, webtransport_stream}
use h.FrameStream.{
  FrameStreamError, proto, quic, unexpected_end, DecoderState, Decoded, decode, FrameStream, Polled,
  on_push, with_src, poll_read, try_recv, map_poll, quic_error, on_frame, on_end, on_incomplete,
  on_decode, poll_next_loop, poll_next,
}
use h.FrameStream.Decoder.{Yields, IsConsistent, decode-Yields, push-IsConsistent}
use h.FrameStream.Answers.{Yields-All, All-append, Yields-IsAnswer}
use h.FrameStream.Delivery.{Shows, Shows-append, CarriesBytes, Waits, IsEnd, Answers, Delivers}

unread :
    (buf : List ℕ) (p : Poll (Outcome FrameStreamError (Option (Frame ℕ)))) (t : FrameStream)
    → Shows buf p t
    → Shows (buf ++ []) p t
unread buf p t h = subst (λ b. Shows b p t) (sym (append-nil buf)) h

on_frame_Delivers :
    (f : Frame ℕ) (s : FrameStream) (es : List Event) (buf : List ℕ)
    → s.remaining_data ≡ 0
    → IsConsistent s.decoder
    → Yields buf (ok (some f)) (contents s.decoder.src)
    → Shows buf (on_frame f s es).0 (on_frame f s es).1
      × Answers s.eos (on_frame f s es).0 es (on_frame f s es).2
      × IsConsistent (on_frame f s es).1.decoder
unfolding on_frame
on_frame_Delivers (payload len) s es buf h c y = ((y, refl), refl, c)
on_frame_Delivers (webtransport_stream id) s es buf h c y = ((y, refl), refl, c)
on_frame_Delivers (Frame.headers x) s es buf h c y = ((y, h), refl, c)
on_frame_Delivers (Frame.cancel_push x) s es buf h c y = ((y, h), refl, c)
on_frame_Delivers (Frame.settings x) s es buf h c y = ((y, h), refl, c)
on_frame_Delivers (Frame.push_promise x) s es buf h c y = ((y, h), refl, c)
on_frame_Delivers (Frame.goaway x) s es buf h c y = ((y, h), refl, c)
on_frame_Delivers (Frame.max_push_id x) s es buf h c y = ((y, h), refl, c)
on_frame_Delivers Frame.grease s es buf h c y = ((y, h), refl, c)

-- The end of the stream, with all that was received decoded.
on_end_Delivers :
    (s : FrameStream) (eos : Bool) (es es' : List Event) (buf : List ℕ)
    → s.eos ≡ true
    → IsEnd eos es es'
    → IsConsistent s.decoder
    → Yields buf (ok none) (contents s.decoder.src)
    → Shows buf (on_end s es').0 (on_end s es').1
      × Answers eos (on_end s es').0 es (on_end s es').2
      × IsConsistent (on_end s es').1.decoder
unfolding on_end Buf.has_remaining
on_end_Delivers s eos es es' buf e d c y =
    if_rule (λ (r : Polled). Shows buf r.0 r.1 × Answers eos r.0 es r.2 × IsConsistent r.1.decoder)
      (ltb 0 (Buf.remaining s.decoder.src)) _ _ (λ p. ((y, not_empty p, e), d, c))
      (λ p. (
        (
          y,
          empty (contents s.decoder.src)
              (omega (arith, remaining-contents s.decoder.src, ltb→le _ _ p)),
          e,
        ),
        d,
        c,
      ))
  where
    not_empty : ltb 0 (Buf.remaining s.decoder.src) ≡ true → contents s.decoder.src ≢ []
    not_empty p q = omega (arith, remaining-contents s.decoder.src, ltb→lt _ _ p, ap length q)

    empty : (l : List ℕ) → length l ≤ 0 → l ≡ []
    empty [] h = refl
    empty (x ∷ l) h = absurd (omega arith)

-- `Delivers`, where no answer of the transport brought bytes.
quiet :
    (s : FrameStream) (es : List Event) (r : Polled)
    → Shows (contents s.decoder.src) r.0 r.1 × Answers s.eos r.0 es r.2 × IsConsistent r.1.decoder
    → Delivers s es r
unfolding contents
quiet s es (p, t, es') (h, a, c) = ([], es, refl, tt, unread (contents s.decoder.src) p t h, a, c)

-- The stream, with a buffer behind which a chunk has arrived.
abbrev pushed : FrameStream → DecoderState → List ℕ → FrameStream
pushed s d b = with_src (record s { decoder = d }) (Buf.push_back d.src b)

-- A chunk that arrives, and what the rounds behind it deliver.
chunk_Delivers :
    (s : FrameStream) (d : DecoderState) (b : List ℕ) (es : List Event) (r : Polled)
    → s.eos ≡ false
    → Yields (contents s.decoder.src) (ok none) (contents d.src)
    → Delivers (pushed s d b) es r
    → Delivers s (bytes b ∷ es) r
unfolding contents
chunk_Delivers s d b es (p, t, es') f y (chunks, later, e, w, h, a, c) = (
  b ∷ chunks,
  later,
  ap (λ x. bytes b ∷ x) e,
  (f, (contents d.src, y, subst (λ x. Waits s.eos x chunks) (contents-push_back d.src b) w)),
  Shows-append (b ++ contents chunks) p t y (
      subst (λ x. Shows x p t)
        (ap (λ x. x ++ contents chunks) (contents-push_back d.src b)
          ∙ append_assoc (contents d.src) b (contents chunks))
        h),
  a,
  c,
)

-- What the rounds behind a chunk have to deliver.
abbrev NextDelivers : FrameStream → DecoderState → List Event → (FrameStream → Polled) → Type 0
NextDelivers s d (bytes b ∷ es) next =
    (0 < length b) × Delivers (pushed s d b) es (next (pushed s d b))
NextDelivers s d _ next = Unit {0}

-- An answer of `poll_read` as `on_incomplete` gets it.
abbrev handed :
    Poll (Outcome StreamErrorIncoming Bool) × FrameStream × List Event
    → (FrameStream → Polled)
    → Polled
handed r next = on_incomplete (map_poll quic_error r.0, r.1, r.2) next

recv_Delivers :
    (s : FrameStream) (d : DecoderState) (es : List Event) (next : FrameStream → Polled)
    → Yields (contents s.decoder.src) (ok none) (contents d.src)
    → IsConsistent d
    → NextDelivers s d es next
    → Delivers s es (on_incomplete (try_recv (record s { decoder = d }) es) next)
unfolding try_recv poll_read on_incomplete
recv_Delivers s d es next y c k =
    if_rule (λ r. Delivers s es (on_incomplete r next)) s.eos _ _
      (λ e. ended (record s { decoder = d }) es es e c y (inl (e, refl))) (λ f. polled es f k)
  where
    ended :
        (u : FrameStream) (es es' : List Event)
        → u.eos ≡ true
        → IsConsistent u.decoder
        → Yields (contents s.decoder.src) (ok none) (contents u.decoder.src)
        → IsEnd s.eos es es'
        → Delivers s es (on_end u es')
    ended u es es' e c y h =
        quiet s es (on_end u es') (on_end_Delivers u s.eos es es' (contents s.decoder.src) e h c y)

    polled :
        (es : List Event)
        → s.eos ≡ false
        → NextDelivers s d es next
        → Delivers s es (handed (poll_read (record s { decoder = d }) es) next)
    polled [] f k = quiet s [] (pending, record s { decoder = d }, []) (y, (f, inr (refl, refl)), c)
    polled (Event.wait ∷ es) f k =
        quiet s (Event.wait ∷ es) (pending, record s { decoder = d }, es) (y, (f, inl refl), c)
    polled (bytes b ∷ es) f (n, k) =
        subst
          (λ o. Delivers s (bytes b ∷ es) (handed (on_push (record s { decoder = d }) es o) next))
          (sym (push_bytes-some d.src b n)) (chunk_Delivers s d b es (next (pushed s d b)) f y k)
    polled (fin ∷ es) f k =
        ended (record s { decoder = d; eos = true }) (fin ∷ es) es refl c y (inr (f, refl))
    polled (failed e ∷ es) f k =
        quiet s (failed e ∷ es) (ready (err (quic e)), record s { decoder = d }, es)
          (y, (f, refl), c)

round_Delivers :
    (s : FrameStream) (r : Decoded) (es : List Event) (next : FrameStream → Polled)
    → s.remaining_data ≡ 0
    → Yields (contents s.decoder.src) r.0 (contents r.1.src) × IsConsistent r.1
    → (r.0 ≡ ok none → NextDelivers s r.1 es next)
    → Delivers s es (on_decode r s es next)
unfolding on_decode
round_Delivers s (ok (some f), d) es next z (y, c) k =
    let u : FrameStream = record s { decoder = d } in
    quiet s es (on_frame f u es) (on_frame_Delivers f u es (contents s.decoder.src) z c y)
round_Delivers s (ok none, d) es next z (y, c) k = recv_Delivers s d es next y c (k refl)
round_Delivers s (err (proto x), d) es next z (y, c) k =
    quiet s es (ready (err (proto x)), record s { decoder = d }, es) (y, refl, c)
round_Delivers s (err (quic x), d) es next z (y, c) k = absurd (Yields-IsAnswer y)
round_Delivers s (err unexpected_end, d) es next z (y, c) k = absurd (Yields-IsAnswer y)
round_Delivers s (panic, d) es next z (y, c) k = absurd (Yields-IsAnswer y)

loop_Delivers :
    (es : List Event) (s : FrameStream)
    → s.remaining_data ≡ 0
    → IsConsistent s.decoder
    → All IsByte (contents s.decoder.src)
    → All CarriesBytes es
    → Delivers s es (poll_next_loop es s)
unfolding poll_next_loop
loop_Delivers [] s z c b h =
    round_Delivers s (decode s.decoder) [] _ z (decode-Yields s.decoder c b) (λ _. tt)
loop_Delivers (e ∷ es) s z c b h =
    let y = decode-Yields s.decoder c b in
    round_Delivers s (decode s.decoder) (e ∷ es) (poll_next_loop es) z y
      (λ _. after e h.0 y λ t z' c' b'. loop_Delivers es t z' c' b' h.1)
  where
    after :
        (e : Event)
        → CarriesBytes e
        → Yields (contents s.decoder.src) (decode s.decoder).0 (contents (decode s.decoder).1.src)
          × IsConsistent (decode s.decoder).1
        → ((t : FrameStream)
            → t.remaining_data ≡ 0
            → IsConsistent t.decoder
            → All IsByte (contents t.decoder.src)
            → Delivers t es (poll_next_loop es t))
        → NextDelivers s (decode s.decoder).1 (e ∷ es) (poll_next_loop es)
    after (bytes d) (n, q) (y, c') k =
        let u = (decode s.decoder).1 in
        (
          n,
          k (pushed s u d) z (push-IsConsistent u d c' n) (
              subst (All IsByte) (sym (contents-push_back u.src d))
                (All-append (contents u.src) d (Yields-All b y) q)),
        )
    after Event.wait q y k = tt
    after fin q y k = tt
    after (failed x) q y k = tt

-- On a stream with no data left to read, a consistent decoder, buffered bytes and answers of the
-- transport that bring a byte at least where they bring any, poll_next does not panic. It takes
-- chunks as long as the bytes received are no whole frame and no error, and then gives the first
-- known frame of all the bytes received or the error that they deserve with no further answer
-- taken, or takes one answer more and gives what it asks for: at the end of the stream the end with
-- nothing left over or UnexpectedEnd with something left over, the error of the transport, or a
-- wait where the transport is not ready. The decoder stays consistent.
pub poll_next-Delivers :
    (s : FrameStream) (es : List Event)
    → s.remaining_data ≡ 0
    → IsConsistent s.decoder
    → All IsByte (contents s.decoder.src)
    → All CarriesBytes es
    → Delivers s es (poll_next s es)
unfolding poll_next
poll_next-Delivers s es z c b h =
    if_rule (Delivers s es) (s.remaining_data == 0) _ _ (λ _. loop_Delivers es s z c b h)
      (λ e. absurd (ground arith))

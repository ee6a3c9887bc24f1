-- ===== src/FrameStream/Payload.antt =====
-- What one poll of `FrameStream::poll_data` takes from its buffer.
use h.Prelude.{
  ℕ, ◌+◌, ◌≤◌, ◌<◌, ◌≡◌, ◌≢◌, refl, ap, sym, ◌∙◌, arith, min, Bool, true, false, not, ◌&&◌, ◌⊎◌,
  inl, inr,
}
use h.Prelude.{
  List, [], ◌∷◌, ◌++◌, Option, none, some, Outcome, ok, err, panic, length, take, drop,
  length-append, append-nil, ltb, ◌==◌, if_rule, and_both, ltb→lt,
}
use mathlib.Core.Path.{subst}
use h.Buf
use h.Buf.{BufList, contents, take_chunk}
use h.Buf.Contents.{remaining-contents, take_chunk_splits}
use h.Buf.Chunks.{HasChunks}
use h.Quic.{Event, bytes, failed, Poll, ready, pending}
use h.FrameStream.{
  FrameStreamError, proto, quic, unexpected_end, FrameStream, PolledData, with_src, take_data,
  on_chunk,
}
use h.FrameStream.Delivery.{IsEnd, IsWait}

abbrev pub Answer : Type 0
Answer = Poll (Outcome FrameStreamError (Option (List ℕ)))

-- What one poll of the transport brought, with the answers to come before and after.
abbrev pub Took : Bool → List Event → List ℕ → List Event → Type 0
Took eos es b es' =
    ((b ≡ []) × (IsEnd eos es es' ⊎ IsWait eos es es')) ⊎ ((eos ≡ false) × (es ≡ bytes b ∷ es'))

-- What an answer of `poll_data` says.
abbrev pub Splits : FrameStream → List Event → PolledData → Type 0
Splits s es (ready (ok (some d)), t, es') =
    (b : List ℕ) × Took s.eos es b es'
    × (contents s.decoder.src ++ b ≡ d ++ contents t.decoder.src)
    × (0 < length d)
    × (length d + t.remaining_data ≡ s.remaining_data)
Splits s es (ready (ok none), t, es') =
    (t.remaining_data ≡ s.remaining_data)
    × (((s.remaining_data ≡ 0) × (es ≡ es')) ⊎ ((contents s.decoder.src ≡ []) × IsEnd s.eos es es'))
Splits s es (ready (err unexpected_end), t, es') =
    (t.remaining_data ≡ s.remaining_data)
    × IsEnd s.eos es es'
    × (0 < length (contents s.decoder.src))
    × (length (contents s.decoder.src) < s.remaining_data)
Splits s es (ready (err (quic e)), t, es') =
    (t.remaining_data ≡ s.remaining_data) × (s.eos ≡ false) × (es ≡ failed e ∷ es')
Splits s es (ready (err (proto x)), t, es') = ⊥
Splits s es (ready panic, t, es') = ⊥
Splits s es (pending, t, es') =
    (t.remaining_data ≡ s.remaining_data) × (contents s.decoder.src ≡ []) × IsWait s.eos es es'

-- What an answer says of the buffers `l` with `n` bytes left to read.
abbrev pub Case : Bool → BufList → ℕ → Answer → FrameStream → Type 0
Case end l n (ready (ok (some d))) t =
    (contents l ≡ d ++ contents t.decoder.src) × (0 < length d) × (length d + t.remaining_data ≡ n)
Case end l n (ready (ok none)) t = (end ≡ true) × (contents l ≡ []) × (t.remaining_data ≡ n)
Case end l n (ready (err unexpected_end)) t =
    (end ≡ true) × (0 < length (contents l)) × (length (contents l) < n) × (t.remaining_data ≡ n)
Case end l n (ready (err e)) t = ⊥
Case end l n (ready panic) t = ⊥
Case end l n pending t = (end ≡ false) × (contents l ≡ []) × (t.remaining_data ≡ n)

abbrev pub Takes : Bool → BufList → ℕ → List Event → PolledData → Type 0
Takes end l n es (p, t, es') = (es ≡ es') × HasChunks t.decoder.src × Case end l n p t

take_chunk-HasChunks :
    (n : ℕ) (b : List ℕ) (bs : BufList) → HasChunks (b ∷ bs) → HasChunks (take_chunk n (b ∷ bs)).1
unfolding take_chunk
take_chunk-HasChunks n b bs h =
    if_rule HasChunks (length (drop (min n (length b)) b) == 0) _ _ (λ _. h.1)
      (λ e. (ground arith, h.1))

nothing_left : (l : BufList) → not (Buf.has_remaining l) ≡ true → length (contents l) ≡ 0
unfolding Buf.has_remaining
nothing_left l e = ground (arith, remaining-contents l)

-- Data from the front buffer.
chunk_Takes :
    (end : Bool) (s : FrameStream) (l m : BufList) (d : List ℕ) (es : List Event)
    → HasChunks m
    → contents l ≡ d ++ contents m
    → 0 < length d
    → length d ≤ s.remaining_data
    → Takes end l s.remaining_data es (on_chunk (some d) end (with_src s m) es)
unfolding on_chunk
chunk_Takes end s l m d es c e z h =
    if_rule (Takes end l s.remaining_data es)
      (end && (ltb (length d) s.remaining_data && not (Buf.has_remaining m))) _ _
      (λ t.
        let (p, q) = and_both _ _ t in
        let (short, left) = and_both _ _ q in
        let n : length (contents l) ≡ length d =
          omega (arith, ap length e, length-append d (contents m), nothing_left m left) in
        (refl, c, (p, omega (arith, n), omega (arith, n, ltb→lt _ _ short), refl)))
      (λ _. (refl, c, (e, z, omega arith)))

pub take_data-Takes :
    (end : Bool) (s : FrameStream) (es : List Event)
    → HasChunks s.decoder.src
    → s.remaining_data ≢ 0
    → Takes end s.decoder.src s.remaining_data es (take_data end s es)
unfolding take_data on_chunk take_chunk contents
take_data-Takes end s es h z = go s.decoder.src h
  where
    empty : (end : Bool) → Takes end [] s.remaining_data es (on_chunk none end (with_src s []) es)
    empty true = (refl, tt, (refl, refl, refl))
    empty false = (refl, tt, (refl, refl, refl))

    go :
        (l : BufList)
        → HasChunks l
        → Takes end l s.remaining_data es (
            on_chunk
              (take_chunk s.remaining_data l).0
              end
              (with_src s (take_chunk s.remaining_data l).1)
              es)
    go [] h = empty end
    go (b ∷ bs) h =
        let n = s.remaining_data in
        let m = min n (length b) in
        let (e, k) = take_chunk_splits n b bs (take m b) (take_chunk n (b ∷ bs)).1 refl in
        chunk_Takes end s (b ∷ bs) (take_chunk n (b ∷ bs)).1 (take m b) es
          (take_chunk-HasChunks n b bs h) e (omega (arith, k, h.0)) (omega (arith, k))

-- The answer to a poll at the end of the stream.
pub ended_Splits :
    (s : FrameStream) (es later : List Event) (r : PolledData)
    → IsEnd s.eos es later
    → Takes true s.decoder.src s.remaining_data later r
    → Splits s es r × HasChunks r.1.decoder.src
ended_Splits s es later (ready (ok (some d)), t, es') h (e, c, (p, z, k)) = (
  ([], inl (refl, inl (subst (IsEnd s.eos es) e h)), append-nil (contents s.decoder.src) ∙ p, z, k),
  c,
)
ended_Splits s es later (ready (ok none), t, es') h (e, c, (p, z, k)) =
    ((k, inr (z, subst (IsEnd s.eos es) e h)), c)
ended_Splits s es later (ready (err unexpected_end), t, es') h (e, c, (p, z, n, k)) =
    ((k, subst (IsEnd s.eos es) e h, z, n), c)
ended_Splits s es later (ready (err (quic x)), t, es') h (e, c, k) = absurd k
ended_Splits s es later (ready (err (proto x)), t, es') h (e, c, k) = absurd k
ended_Splits s es later (ready panic, t, es') h (e, c, k) = absurd k
ended_Splits s es later (pending, t, es') h (e, c, k) = absurd (cc (k.0))

-- The answer to a poll while the transport is not ready.
pub waiting_Splits :
    (s : FrameStream) (es later : List Event) (r : PolledData)
    → IsWait s.eos es later
    → Takes false s.decoder.src s.remaining_data later r
    → Splits s es r × HasChunks r.1.decoder.src
waiting_Splits s es later (ready (ok (some d)), t, es') h (e, c, (p, z, k)) = (
  (
    [],
    inl (refl, inr (subst (IsWait s.eos es) e h)),
    append-nil (contents s.decoder.src) ∙ p,
    z,
    k,
  ),
  c,
)
waiting_Splits s es later (ready (ok none), t, es') h (e, c, k) = absurd (cc (k.0))
waiting_Splits s es later (ready (err unexpected_end), t, es') h (e, c, k) = absurd (cc (k.0))
waiting_Splits s es later (ready (err (quic x)), t, es') h (e, c, k) = absurd k
waiting_Splits s es later (ready (err (proto x)), t, es') h (e, c, k) = absurd k
waiting_Splits s es later (ready panic, t, es') h (e, c, k) = absurd k
waiting_Splits s es later (pending, t, es') h (e, c, (p, z, k)) =
    ((k, z, subst (IsWait s.eos es) e h), c)

-- The answer to a poll that brought bytes.
pub bytes_Splits :
    (s : FrameStream) (l : BufList) (b : List ℕ) (later : List Event) (r : PolledData)
    → s.eos ≡ false
    → 0 < length b
    → contents l ≡ contents s.decoder.src ++ b
    → Takes false l s.remaining_data later r
    → Splits s (bytes b ∷ later) r × HasChunks r.1.decoder.src
bytes_Splits s l b later (ready (ok (some d)), t, es') f n q (e, c, (p, z, k)) =
    ((b, inr (f, ap (λ x. bytes b ∷ x) e), sym q ∙ p, z, k), c)
bytes_Splits s l b later (ready (ok none), t, es') f n q (e, c, k) = absurd (cc (k.0))
bytes_Splits s l b later (ready (err unexpected_end), t, es') f n q (e, c, k) = absurd (cc (k.0))
bytes_Splits s l b later (ready (err (quic x)), t, es') f n q (e, c, k) = absurd k
bytes_Splits s l b later (ready (err (proto x)), t, es') f n q (e, c, k) = absurd k
bytes_Splits s l b later (ready panic, t, es') f n q (e, c, k) = absurd k
bytes_Splits s l b later (pending, t, es') f n q (e, c, (p, z, k)) =
    absurd (omega (arith, ap length (sym q ∙ z), length-append (contents s.decoder.src) b))

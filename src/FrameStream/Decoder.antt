-- ===== src/FrameStream/Decoder.antt =====
-- `FrameDecoder::decode` against a description of the frames in a sequence of bytes, which knows
-- nothing of chunks nor of `expected`.
use h.Prelude.{ℕ, zero, suc, ◌-◌, ◌<◌, ◌≡◌, refl, ap, sym, ◌∙◌, arith, true, not}
use h.Prelude.{
  List, [], ◌∷◌, ◌++◌, Option, none, some, Outcome, ok, err, panic, length, All, IsByte,
  append_assoc, append-nil,
}
use h.Prelude.{ltb, ltb→lt, if_rule}
use mathlib.Core.Path.{subst}
use h.Prelude.Suffix.{Ends, drop-Ends}
use h.Buf
use h.Buf.{BufList, contents}
use h.Buf.Contents.{remaining-contents, contents-push_back, advance_drops}
use h.Buf.Chunks.{HasChunks, advance-HasChunks, push_back-HasChunks}
use h.Buf.Cursors.{through_cursor-contents}
use h.Proto.VarInt.Bounds.{Leaves}
use h.Proto.Frame
use h.Proto.Frame.{Frame, FrameError, incomplete, unknown_frame}
use h.Proto.Frame.Progress.{Advances, decode-Advances}
use h.Proto.Frame.Incomplete.{IsLowerBound, incomplete-IsLowerBound}
use h.Proto.Frame.Consumes.{decode-Reads}
use h.FrameStream.{
  FrameProtocolError, FrameStreamError, proto, forbidden_frame, malformed, invalid_frame_value,
  settings_error, stream_id_error, push_id_error, DecoderState, Decoded, Round, again, done,
  advanced, on_decoded, decode_round, decode_rounds, decode, too_short,
}

-- The protocol error that reports an error of the codec.
pub data Refuses : FrameError → FrameProtocolError → Type 0 where
  malformed_frame : Refuses FrameError.malformed malformed
  forbidden_type : (ty : ℕ) → Refuses (FrameError.unsupported_frame ty) (forbidden_frame ty)
  bad_value : Refuses FrameError.invalid_frame_value invalid_frame_value
  bad_settings :
      (e : h.Proto.Settings.SettingsError)
      → Refuses (FrameError.settings_error e) (settings_error e)
  bad_stream_id :
      (e : h.Proto.Stream.InvalidStreamId)
      → Refuses (FrameError.stream_id_error e) (stream_id_error e)
  bad_push_id :
      (e : h.Proto.Stream.InvalidPushId) → Refuses (FrameError.push_id_error e) (push_id_error e)

-- What the first frame of the bytes is, once unknown frames are skipped, and the bytes behind it.
pub data Yields : List ℕ → Outcome FrameStreamError (Option (Frame ℕ)) → List ℕ → Type 0 where
  nothing : Yields [] (ok none) []
  frame :
      {buf rest : List ℕ} (f : Frame ℕ)
      → Frame.decode buf ≡ (ok f, rest)
      → Yields buf (ok (some f)) rest
  wait :
      {buf : List ℕ} (n : ℕ) → (Frame.decode buf).0 ≡ err (incomplete n) → Yields buf (ok none) buf
  skip :
      {buf rest last : List ℕ} {o : Outcome FrameStreamError (Option (Frame ℕ))} (ty : ℕ)
      → Frame.decode buf ≡ (err (unknown_frame ty), rest)
      → Yields rest o last
      → Yields buf o last
  refuse :
      {buf : List ℕ} (e : FrameError) (x : FrameProtocolError)
      → (Frame.decode buf).0 ≡ err e
      → Refuses e x
      → Yields buf (err (proto x)) buf

-- No buffer is empty, and while fewer bytes than `expected` are there, decoding would ask for more.
abbrev pub IsConsistent : DecoderState → Type 0
IsConsistent s =
    HasChunks s.src × ((min : ℕ) → s.expected ≡ some min → IsLowerBound (contents s.src) min)

abbrev RoundFits : DecoderState → Round → Type 0
RoundFits s (again t) =
    (ty : ℕ) × (Frame.decode (contents s.src) ≡ (err (unknown_frame ty), contents t.src))
    × (t.expected ≡ none)
    × HasChunks t.src
    × Leaves 1 (contents s.src) (contents t.src)
RoundFits s (done (o, t)) = Yields (contents s.src) o (contents t.src) × IsConsistent t

abbrev Result : Type 0
Result = Outcome FrameError (Frame ℕ) × List ℕ

advanced_fits :
    (s : DecoderState) (rest : List ℕ) (k : DecoderState → Round)
    → HasChunks s.src
    → Ends (contents s.src) rest
    → ((l : BufList)
        → HasChunks l
        → contents l ≡ rest
        → RoundFits s (k (record { expected = none; src = l })))
    → RoundFits s (advanced (Buf.advance (length (contents s.src) - length rest) s.src) s k)
advanced_fits s rest k c ends h =
    let (l, e, d) = advance_drops (length (contents s.src) - length rest) s.src (omega arith) in
    rw e (
      h l (advance-HasChunks (length (contents s.src) - length rest) s.src l c e)
        (d ∙ drop-Ends (contents s.src) rest ends))

none-IsConsistent : (l : BufList) → HasChunks l → IsConsistent (record { expected = none; src = l })
none-IsConsistent l h = (h, λ min e. absurd (cc))

fits :
    (s : DecoderState) (r : Result)
    → IsConsistent s
    → Frame.decode (contents s.src) ≡ r
    → Advances 1 (contents s.src) r
    → Ends (contents s.src) r.1
    → RoundFits s (on_decoded r.0 (length (contents s.src) - length r.1) s)
unfolding on_decoded
fits s (ok f, rest) c e a ends = advanced_fits s rest _ c.0 ends λ l k p. (
  subst (λ t. Yields (contents s.src) (ok (some f)) t) (sym p) (frame f e),
  none-IsConsistent l k,
)
fits s (err (unknown_frame ty), rest) c e a ends = advanced_fits s rest _ c.0 ends λ l k p. (
  ty,
  e ∙ ap (λ t. (err (unknown_frame ty), t)) (sym p),
  refl,
  k,
  subst (Leaves 1 (contents s.src)) (sym p) a,
)
fits s (err (incomplete n), rest) c e a ends = (
  wait n (ap (λ (t : Result). t.0) e),
  (c.0, λ min p. incomplete-IsLowerBound (contents s.src) min (ap (λ (t : Result). t.0) e ∙ cc)),
)
fits s (err FrameError.malformed, rest) c e a ends =
    (refuse FrameError.malformed malformed (ap (λ (t : Result). t.0) e) malformed_frame, c)
fits s (err (FrameError.unsupported_frame ty), rest) c e a ends =
    (refuse _ _ (ap (λ (t : Result). t.0) e) (forbidden_type ty), c)
fits s (err FrameError.invalid_frame_value, rest) c e a ends =
    (refuse _ _ (ap (λ (t : Result). t.0) e) bad_value, c)
fits s (err (FrameError.settings_error x), rest) c e a ends =
    (refuse _ _ (ap (λ (t : Result). t.0) e) (bad_settings x), c)
fits s (err (FrameError.stream_id_error x), rest) c e a ends =
    (refuse _ _ (ap (λ (t : Result). t.0) e) (bad_stream_id x), c)
fits s (err (FrameError.push_id_error x), rest) c e a ends =
    (refuse _ _ (ap (λ (t : Result). t.0) e) (bad_push_id x), c)
fits s (panic, rest) c e a ends = absurd a

-- While too few bytes are there, and when none are, the answer is to wait.
round_fits :
    (s : DecoderState) → IsConsistent s → All IsByte (contents s.src) → RoundFits s (decode_round s)
unfolding decode_round Buf.has_remaining
round_fits s c b =
    if_rule (RoundFits s) (not (ltb 0 (Buf.remaining s.src))) _ _
      (λ e. (nothing_left (contents s.src) (empty e), c))
      λ _.
        if_rule (RoundFits s) (too_short s.expected (Buf.remaining s.src)) _ _
          (λ e. (waits s.expected refl e, c))
          λ _.
            subst (λ r. RoundFits s (on_decoded r.0 r.1 s))
              (sym (through_cursor-contents Frame.decode s.src c.0))
              (fits s (Frame.decode (contents s.src)) c refl (decode-Advances (contents s.src) b)
                (decode-Reads (contents s.src)))
  where
    empty : not (ltb 0 (Buf.remaining s.src)) ≡ true → length (contents s.src) ≡ 0
    empty e = ground (arith, remaining-contents s.src)

    nothing_left : (l : List ℕ) → length l ≡ 0 → Yields l (ok none) l
    nothing_left [] h = nothing
    nothing_left (x ∷ l) h = absurd (omega arith)

    waits :
        (o : Option ℕ)
        → s.expected ≡ o
        → too_short o (Buf.remaining s.src) ≡ true
        → Yields (contents s.src) (ok none) (contents s.src)
    waits none p e = absurd (cc)
    waits (some min) p e =
        let short = ltb→lt _ _ e in
        let (n, q) =
          c.1 min p []
            (omega (arith, ap length (append-nil (contents s.src)), remaining-contents s.src)) in
        wait n (ap (λ t. (Frame.decode t).0) (sym (append-nil (contents s.src))) ∙ q)

abbrev Fits : DecoderState → Decoded → Type 0
Fits s (o, t) = Yields (contents s.src) o (contents t.src) × IsConsistent t

rounds_fit :
    (fuel : ℕ) (s : DecoderState)
    → IsConsistent s
    → All IsByte (contents s.src)
    → length (contents s.src) < fuel
    → Fits s (decode_rounds fuel s)
unfolding decode_rounds
rounds_fit zero s c b h = absurd (omega arith)
rounds_fit (suc fuel) s c b h = go (decode_round s) (round_fits s c b) λ t q.
    (let (y, k) =
        rounds_fit fuel t (q.3, λ min p. absurd (none_expected t min q.2 p)) q.4.0
          (omega (arith, q.4.1)) in
      (skip q.0 q.1 y, k))
  where
    none_expected : (t : DecoderState) (min : ℕ) → t.expected ≡ none → t.expected ≡ some min → ⊥
    none_expected t min n p = cc

    go :
        (r : Round)
        → RoundFits s r
        → ((t : DecoderState) → RoundFits s (again t) → Fits s (decode_rounds fuel t))
        → Fits s (elim r [ again t ↦ decode_rounds fuel t | done d ↦ d ])
    go (again t) q k = k t q
    go (done d) q k = q

-- On any bytes in chunks that are not empty, a consistent FrameDecoder ends without a panic, gives
-- the first known frame, a request for more bytes or the error that the bytes deserve, leaves the
-- bytes behind it, and stays consistent.
pub decode-Yields :
    (s : DecoderState)
    → IsConsistent s
    → All IsByte (contents s.src)
    → Yields (contents s.src) (decode s).0 (contents (decode s).1.src) × IsConsistent (decode s).1
unfolding decode
decode-Yields s c b =
    rounds_fit (suc (Buf.remaining s.src)) s c b (omega (arith, remaining-contents s.src))

-- A chunk that arrives keeps the decoder consistent.
pub push-IsConsistent :
    (s : DecoderState) (chunk : List ℕ)
    → IsConsistent s
    → 0 < length chunk
    → IsConsistent (record { expected = s.expected; src = Buf.push_back s.src chunk })
push-IsConsistent s chunk c n = (
  push_back-HasChunks s.src chunk c.0 n,
  λ min e more h.
      let p : contents (Buf.push_back s.src chunk) ++ more ≡ contents s.src ++ (chunk ++ more) =
        ap (λ t. t ++ more) (contents-push_back s.src chunk)
        ∙ append_assoc (contents s.src) chunk more in
      let (n, q) = c.1 min e (chunk ++ more) (subst (λ t. length t < min) p h) in
      (n, ap (λ t. (Frame.decode t).0) p ∙ q),
)

-- ===== src/FrameStream/Unique.antt =====
-- The description of a sequence of bytes by `Yields` leaves no choice, and so the answer of
-- `FrameDecoder::decode` depends on the bytes alone.
use h.Prelude.{ℕ, ◌≡◌, refl, ap, sym}
use h.Prelude.{List, [], Option, none, some, Outcome, ok, err, panic, All, IsByte}
use mathlib.Core.Path.{subst}
use h.Buf.{contents}
use h.Proto.Frame
use h.Proto.Frame.{Frame, FrameError, incomplete, unknown_frame}
use h.FrameStream.{
  FrameProtocolError, FrameStreamError, proto, forbidden_frame, malformed, invalid_frame_value,
  settings_error, stream_id_error, push_id_error, DecoderState, decode,
}
use h.FrameStream.Decoder.{
  Refuses, malformed_frame, forbidden_type, bad_value, bad_settings, bad_stream_id, bad_push_id,
  Yields, nothing, frame, wait, skip, refuse, IsConsistent, decode-Yields,
}

abbrev Result : Type 0
Result = Outcome FrameError (Frame ℕ) × List ℕ

refusal : (e : FrameError) → FrameProtocolError
refusal FrameError.malformed = malformed
refusal (FrameError.unsupported_frame ty) = forbidden_frame ty
refusal (FrameError.settings_error e) = settings_error e
refusal (FrameError.stream_id_error e) = stream_id_error e
refusal (FrameError.push_id_error e) = push_id_error e
refusal _ = invalid_frame_value

Refuses-unique : {e : FrameError} {x : FrameProtocolError} → Refuses e x → x ≡ refusal e
unfolding refusal
Refuses-unique malformed_frame = refl
Refuses-unique (forbidden_type ty) = refl
Refuses-unique bad_value = refl
Refuses-unique (bad_settings e) = refl
Refuses-unique (bad_stream_id e) = refl
Refuses-unique (bad_push_id e) = refl

-- What a description says, by the result of the codec.
abbrev View : List ℕ → Result → Outcome FrameStreamError (Option (Frame ℕ)) → List ℕ → Type 0
View buf (ok f, rest) o l = (o ≡ ok (some f)) × (l ≡ rest)
View buf (err (incomplete n), rest) o l = (o ≡ ok none) × (l ≡ buf)
View buf (err (unknown_frame ty), rest) o l = Yields rest o l
View buf (err e, rest) o l = (o ≡ err (proto (refusal e))) × (l ≡ buf)
View buf (panic, rest) o l = ⊥

refused :
    (buf rest : List ℕ) (e : FrameError) (x : FrameProtocolError)
    → Refuses e x
    → View buf (err e, rest) (err (proto x)) buf
refused buf rest _ _ malformed_frame =
    (ap (λ t. err (proto t)) (Refuses-unique malformed_frame), refl)
refused buf rest _ _ (forbidden_type ty) =
    (ap (λ t. err (proto t)) (Refuses-unique (forbidden_type ty)), refl)
refused buf rest _ _ bad_value = (ap (λ t. err (proto t)) (Refuses-unique bad_value), refl)
refused buf rest _ _ (bad_settings e) =
    (ap (λ t. err (proto t)) (Refuses-unique (bad_settings e)), refl)
refused buf rest _ _ (bad_stream_id e) =
    (ap (λ t. err (proto t)) (Refuses-unique (bad_stream_id e)), refl)
refused buf rest _ _ (bad_push_id e) =
    (ap (λ t. err (proto t)) (Refuses-unique (bad_push_id e)), refl)

with_rest : {o : Outcome FrameError (Frame ℕ)} (r : Result) → r.0 ≡ o → r ≡ (o, r.1)
with_rest r e = ap (λ t. (t, r.1)) e

decode_nothing : Frame.decode [] ≡ (err (incomplete 1), [])
unfolding Frame.decode h.Proto.VarInt.decode
decode_nothing = refl

view :
    {buf l : List ℕ} {o : Outcome FrameStreamError (Option (Frame ℕ))}
    → Yields buf o l
    → View buf (Frame.decode buf) o l
view nothing = subst (λ r. View [] r (ok none) []) (sym decode_nothing) (refl, refl)
view {buf} {l} (frame f e) = subst (λ r. View buf r (ok (some f)) l) (sym e) (refl, refl)
view {buf} (wait n e) =
    subst (λ r. View buf r (ok none) buf) (sym (with_rest (Frame.decode buf) e)) (refl, refl)
view {buf} {l} {o} (skip ty e y) = subst (λ r. View buf r o l) (sym e) y
view {buf} (refuse e x p q) =
    subst (λ r. View buf r (err (proto x)) buf) (sym (with_rest (Frame.decode buf) p))
      (refused buf (Frame.decode buf).1 e x q)

-- Two descriptions of the same bytes are the same.
Yields-unique :
    {buf l m : List ℕ} {o p : Outcome FrameStreamError (Option (Frame ℕ))}
    → Yields buf o l
    → Yields buf p m
    → (o ≡ p) × (l ≡ m)
Yields-unique {m = m} {p = p} nothing z =
    let (a, b) = subst (λ r. View [] r p m) decode_nothing (view z) in (sym a, sym b)
Yields-unique {buf} {l} {m} {o} {p} (frame f e) z =
    let (a, b) = subst (λ r. View buf r p m) e (view z) in (sym a, sym b)
Yields-unique {buf} {l} {m} {o} {p} (wait n e) z =
    let (a, b) = subst (λ r. View buf r p m) (with_rest (Frame.decode buf) e) (view z) in
    (sym a, sym b)
Yields-unique {buf} {l} {m} {o} {p} (skip ty e y) z =
    Yields-unique y (subst (λ r. View buf r p m) e (view z))
Yields-unique {buf} {l} {m} {o} {p} (refuse e x q k) z =
    refused_unique e x k (subst (λ r. View buf r p m) (with_rest (Frame.decode buf) q) (view z))
  where
    refused_unique :
        (e : FrameError) (x : FrameProtocolError)
        → Refuses e x
        → View buf (err e, (Frame.decode buf).1) p m
        → (err (proto x) ≡ p) × (buf ≡ m)
    refused_unique _ _ malformed_frame v = (cc (Refuses-unique malformed_frame, v.0), sym v.1)
    refused_unique _ _ (forbidden_type ty) v =
        (cc (Refuses-unique (forbidden_type ty), v.0), sym v.1)
    refused_unique _ _ bad_value v = (cc (Refuses-unique bad_value, v.0), sym v.1)
    refused_unique _ _ (bad_settings y) v = (cc (Refuses-unique (bad_settings y), v.0), sym v.1)
    refused_unique _ _ (bad_stream_id y) v = (cc (Refuses-unique (bad_stream_id y), v.0), sym v.1)
    refused_unique _ _ (bad_push_id y) v = (cc (Refuses-unique (bad_push_id y), v.0), sym v.1)

-- Two consistent decoders whose chunks hold the same bytes give the same result and leave the same
-- bytes, however the bytes are split and whatever was decoded before.
pub decode_of_contents :
    (s t : DecoderState)
    → IsConsistent s
    → IsConsistent t
    → All IsByte (contents s.src)
    → contents s.src ≡ contents t.src
    → ((decode s).0 ≡ (decode t).0) × (contents (decode s).1.src ≡ contents (decode t).1.src)
decode_of_contents s t c d b e = Yields-unique (decode-Yields s c b).0 (
    subst (λ x. Yields x (decode t).0 (contents (decode t).1.src)) (sym e)
      (decode-Yields t d (subst (All IsByte) e b)).0)

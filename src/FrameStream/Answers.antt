-- ===== src/FrameStream/Answers.antt =====
-- What a description of bytes by `Yields` says of the bytes left, and of bytes that arrive later.
use h.Prelude.{ℕ, ap, sym, ◌∙◌}
use h.Prelude.{List, [], ◌∷◌, ◌++◌, Option, none, Outcome, ok, err, panic, All, IsByte}
use mathlib.Core.Path.{subst}
use h.Proto.Frame.{Frame, FrameError}
use h.Proto.Frame.Whole.{decode-append, extend, IsDefinite}
use h.FrameStream.{FrameStreamError, proto}
use h.Proto.Frame.Progress.{Advances, decode-Advances}
use h.FrameStream.Decoder.{Yields, nothing, frame, skip, refuse}

-- Bytes that arrive behind those for which the answer was to wait.
pub Yields-append :
    {buf left rest : List ℕ} {o : Outcome FrameStreamError (Option (Frame ℕ))} (more : List ℕ)
    → Yields buf (ok none) left
    → Yields (left ++ more) o rest
    → Yields (buf ++ more) o rest
Yields-append more nothing z = z
Yields-append more (Yields.wait n e) z = z
Yields-append {buf} more (skip {rest = r} ty e y) z =
    skip ty
      (decode-append buf more
          (subst (λ (x : Outcome FrameError (Frame ℕ) × List ℕ). IsDefinite x.0) (sym e) tt)
        ∙ ap (extend more) e)
      (Yields-append more y z)

pub Yields-All :
    {buf rest : List ℕ} {o : Outcome FrameStreamError (Option (Frame ℕ))}
    → All IsByte buf
    → Yields buf o rest
    → All IsByte rest
Yields-All b nothing = b
Yields-All {buf} b (frame f e) = (subst (Advances 1 buf) e (decode-Advances buf b)).0
Yields-All b (Yields.wait n e) = b
Yields-All {buf} b (skip ty e y) = Yields-All (subst (Advances 1 buf) e (decode-Advances buf b)).0 y
Yields-All b (refuse e x p q) = b

pub All-append : (xs ys : List ℕ) → All IsByte xs → All IsByte ys → All IsByte (xs ++ ys)
All-append [] ys h k = k
All-append (x ∷ xs) ys h k = (h.0, All-append xs ys h.1 k)

-- A result that a decoder may give.
abbrev pub IsAnswer : Outcome FrameStreamError (Option (Frame ℕ)) → Type 0
IsAnswer (ok f) = Unit {0}
IsAnswer (err (proto x)) = Unit {0}
IsAnswer (err _) = ⊥
IsAnswer panic = ⊥

pub Yields-IsAnswer :
    {buf rest : List ℕ} {o : Outcome FrameStreamError (Option (Frame ℕ))}
    → Yields buf o rest
    → IsAnswer o
Yields-IsAnswer nothing = tt
Yields-IsAnswer (frame f e) = tt
Yields-IsAnswer (Yields.wait n e) = tt
Yields-IsAnswer (skip ty e y) = Yields-IsAnswer y
Yields-IsAnswer (refuse e x p q) = tt

-- ===== src/Prelude/Suffix.antt =====
-- Readers that only take bytes from the front of their buffer.
use h.Prelude.Effects.{Outcome, ok, err, panic, Reader, continue, ◌>>=◌}
use h.Prelude.Lists.{length, take, drop, length-append, drop-append, take-append-drop}
use h.Prelude.Tests.{if◌then◌else◌}
use Prim.Native.Nat.{ℕ, ◌-◌}
use mathlib.Core.Path.{◌≡◌, sym, ap, ◌∙◌}
use mathlib.Core.Bool.{Bool, true, false}
use mathlib.Core.List.{List, ◌++◌, append_assoc}
use native.Mathlib.Omega.{arith}

-- The second list ends the first.
abbrev pub Ends : List ℕ → List ℕ → Type 0
Ends buf rest = (front : List ℕ) × (buf ≡ front ++ rest)

abbrev pub Reads : {E A : Type 0} → Reader E A → Type 0
Reads m = (buf : List ℕ) → Ends buf (m buf).1

pub Ends-trans : (a b c : List ℕ) → Ends a b → Ends b c → Ends a c
Ends-trans a b c (x, p) (y, q) = (x ++ y, p ∙ ap (λ t. x ++ t) q ∙ sym (append_assoc x y c))

pub Ends-drop : (n : ℕ) (buf : List ℕ) → Ends buf (drop n buf)
Ends-drop n buf = (take n buf, sym (take-append-drop n buf))

pub Reads-bind :
    {E A B : Type 0} (m : Reader E A) (f : A → Reader E B)
    → Reads m
    → ((a : A) → Reads (f a))
    → Reads (m >>= f)
Reads-bind {E} {A} {B} m f h k buf = go (m buf) (h buf)
  where
    go : (r : Outcome E A × List ℕ) → Ends buf r.1 → Ends buf (continue r f).1
    go (ok a, rest) q = Ends-trans buf rest (f a rest).1 q (k a rest)
    go (err e, rest) q = q
    go (panic, rest) q = q

pub Reads-if :
    {E A : Type 0} (c : Bool) (m n : Reader E A) → Reads m → Reads n → Reads (if c then m else n)
Reads-if true m n h k = h
Reads-if false m n h k = k

-- Where the end starts.
pub drop-Ends : (buf rest : List ℕ) → Ends buf rest → drop (length buf - length rest) buf ≡ rest
drop-Ends buf rest (front, e) =
    ap (λ t. drop (length t - length rest) t) e
    ∙ ap (λ n. drop n (front ++ rest)) (omega (arith, length-append front rest))
    ∙ drop-append front rest

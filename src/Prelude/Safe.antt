-- ===== src/Prelude/Safe.antt =====
-- Readers that do not panic and leave no more than they were given.
use h.Prelude.Effects.{Outcome, ok, err, panic, Reader, continue, map_error, Ensures}
use h.Prelude.Lists.{length}
use h.Prelude.Tests.{if◌then◌else◌}
use Prim.Native.Nat.{ℕ, ◌+◌, ◌≤◌}
use mathlib.Core.Path.{◌≡◌, refl}
use mathlib.Core.Logic.{◌≢◌}
use mathlib.Core.Bool.{Bool, true, false}
use mathlib.Core.List.{List}
use native.Mathlib.Omega.{arith}

-- No panic, and with a value at least `n` bytes less.
abbrev pub Safe : {E A : Type 0} → ℕ → List ℕ → Outcome E A × List ℕ → Type 0
Safe n buf = Ensures (λ _ rest. length rest + n ≤ length buf) (λ _ _. Unit {0})

pub Safe-bind :
    {E A B : Type 0} (n : ℕ) (buf : List ℕ) (r : Outcome E A × List ℕ) (f : A → Reader E B)
    → Safe n buf r
    → ((a : A) (rest : List ℕ) → length rest + n ≤ length buf → Safe 0 rest (f a rest))
    → Safe n buf (continue r f)
Safe-bind n buf (ok a, rest) f h k = shorter (f a rest) (k a rest h)
  where
    shorter : {E B : Type 0} (r : Outcome E B × List ℕ) → Safe 0 rest r → Safe n buf r
    shorter (ok b, rest') l = omega arith
    shorter (err e, rest') l = tt
    shorter (panic, rest') l = l
Safe-bind n buf (err e, rest) f h k = tt
Safe-bind n buf (panic, rest) f h k = h

pub Safe-weaken :
    {E A : Type 0} (n : ℕ) (buf : List ℕ) (r : Outcome E A × List ℕ) → Safe n buf r → Safe 0 buf r
Safe-weaken n buf (ok a, rest) h = omega arith
Safe-weaken n buf (err e, rest) h = tt
Safe-weaken n buf (panic, rest) h = h

pub Safe-if :
    {E A : Type 0} (n : ℕ) (buf : List ℕ) (c : Bool) (x y : Reader E A)
    → (c ≡ true → Safe n buf (x buf))
    → (c ≡ false → Safe n buf (y buf))
    → Safe n buf ((if c then x else y) buf)
Safe-if n buf true x y h k = h refl
Safe-if n buf false x y h k = k refl

pub Safe-map_error :
    {E F A : Type 0} (n : ℕ) (buf : List ℕ) (g : E → F) (r : Outcome E A × List ℕ)
    → Safe n buf r
    → Safe n buf (map_error g r.0, r.1)
Safe-map_error n buf g (ok a, rest) h = h
Safe-map_error n buf g (err e, rest) h = tt
Safe-map_error n buf g (panic, rest) h = h

pub Safe-ne-panic :
    {E A : Type 0} (n : ℕ) (buf : List ℕ) (r : Outcome E A × List ℕ) → Safe n buf r → r.0 ≢ panic
Safe-ne-panic n buf (ok a, rest) h e = cc
Safe-ne-panic n buf (err f, rest) h e = cc
Safe-ne-panic n buf (panic, rest) h e = h

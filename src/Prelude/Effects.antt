-- ===== src/Prelude/Effects.antt =====
-- Results of code that may fail or panic, and readers of a byte buffer.
-- Code that can panic and has no error value returns an `Option`, where `none` is the panic.
use Prim.Native.Nat.{ℕ}
use mathlib.Core.Path.{◌≡◌, refl}
use mathlib.Core.Option.{Option, none, some}
use mathlib.Core.List.{List, ◌++◌}

pub data Outcome (E A : Type 0) : Type 0 where
  ok : A → Outcome E A
  err : E → Outcome E A
  panic : Outcome E A

-- A reader takes the bytes that the buffer holds and leaves those that it did not consume, after
-- an error too.
abbrev pub Reader : Type 0 → Type 0 → Type 0
Reader E A = List ℕ → Outcome E A × List ℕ

abbrev pub continue :
    {E A B : Type 0} → Outcome E A × List ℕ → (A → Reader E B) → Outcome E B × List ℕ
continue (ok a, rest) f = f a rest
continue (err e, rest) f = (err e, rest)
continue (panic, rest) f = (panic, rest)

infixl 5 ◌>>=◌ ◌>>◌
abbrev pub ◌>>=◌ : {E A B : Type 0} → Reader E A → (A → Reader E B) → Reader E B
◌>>=◌ m f buf = continue (m buf) f

abbrev pub ◌>>◌ : {E B : Type 0} → Reader E (Unit {0}) → Reader E B → Reader E B
m >> k = m >>= λ _. k

abbrev pub pure : {E A : Type 0} → A → Reader E A
pure a buf = (ok a, buf)

abbrev pub fail : {E A : Type 0} → E → Reader E A
fail e buf = (err e, buf)

abbrev pub crash : {E A : Type 0} → Reader E A
crash buf = (panic, buf)

abbrev pub map_error : {E F A : Type 0} → (E → F) → Outcome E A → Outcome F A
map_error f (ok a) = ok a
map_error f (err e) = err (f e)
map_error f panic = panic

-- `.map_err(f)?` and the `From` conversion of `?`.
abbrev pub map_err : {E F A : Type 0} → (E → F) → Reader E A → Reader F A
map_err f m buf = (map_error f (m buf).0, (m buf).1)

-- Bytes put by one writer and then by another, none if one of them panics.
infixr 6 ◌⊕◌
abbrev pub ◌⊕◌ : Option (List ℕ) → Option (List ℕ) → Option (List ℕ)
some a ⊕ some b = some (a ++ b)
some a ⊕ none = none
none ⊕ b = none

pub ⊕-eq-some :
    (x y : Option (List ℕ)) {bs : List ℕ}
    → (x ⊕ y) ≡ some bs
    → (a : List ℕ) × (b : List ℕ) × (x ≡ some a) × (y ≡ some b) × (bs ≡ a ++ b)
⊕-eq-some (some a) (some b) e = (a, b, refl, refl, cc)
⊕-eq-some (some a) none e = absurd (cc)
⊕-eq-some none y e = absurd (cc)

pub ⊕-some :
    (x : Option (List ℕ)) (b : List ℕ) {bs : List ℕ}
    → (x ⊕ some b) ≡ some bs
    → (a : List ℕ) × (x ≡ some a) × (bs ≡ a ++ b)
⊕-some (some a) b e = (a, refl, cc)
⊕-some none b e = absurd (cc)

-- A postcondition on what a reader gives, on its errors and on what it leaves, and that it does not
-- panic.
abbrev pub Ensures :
    {E A : Type 0} → (A → List ℕ → Type 0) → (E → List ℕ → Type 0) → Outcome E A × List ℕ → Type 0
Ensures Q R (ok a, rest) = Q a rest
Ensures Q R (err e, rest) = R e rest
Ensures Q R (panic, rest) = ⊥

pub Ensures-bind :
    {E A B : Type 0} (Q : A → List ℕ → Type 0) (Q' : B → List ℕ → Type 0) (R : E → List ℕ → Type 0)
    (r : Outcome E A × List ℕ) (f : A → Reader E B)
    → Ensures Q R r
    → ((a : A) (rest : List ℕ) → Q a rest → Ensures Q' R (f a rest))
    → Ensures Q' R (continue r f)
Ensures-bind Q Q' R (ok a, rest) f h k = k a rest h
Ensures-bind Q Q' R (err e, rest) f h k = h
Ensures-bind Q Q' R (panic, rest) f h k = h

pub Ensures-map_error :
    {E F A : Type 0} (Q Q' : A → List ℕ → Type 0) (R : E → List ℕ → Type 0)
    (R' : F → List ℕ → Type 0) (g : E → F) (r : Outcome E A × List ℕ)
    → Ensures Q R r
    → ((a : A) (rest : List ℕ) → Q a rest → Q' a rest)
    → ((e : E) (rest : List ℕ) → R e rest → R' (g e) rest)
    → Ensures Q' R' (map_error g r.0, r.1)
Ensures-map_error Q Q' R R' g (ok a, rest) h k l = k a rest h
Ensures-map_error Q Q' R R' g (err e, rest) h k l = l e rest h
Ensures-map_error Q Q' R R' g (panic, rest) h k l = h

-- A step of a reader that has a value.
pub bind-ok :
    {E A B : Type 0} (m : Reader E A) (f : A → Reader E B) (buf : List ℕ) {a : A} {rest : List ℕ}
    → m buf ≡ (ok a, rest)
    → (m >>= f) buf ≡ f a rest
bind-ok m f buf e = λ i. continue (e i) f

pub map_err-ok :
    {E F A : Type 0} (g : E → F) (m : Reader E A) (buf : List ℕ) {a : A} {rest : List ℕ}
    → m buf ≡ (ok a, rest)
    → map_err g m buf ≡ (ok a, rest)
map_err-ok g m buf e = λ i. (map_error g (e i).0, (e i).1)

pub ⊕-join :
    (x y : Option (List ℕ)) {a b : List ℕ} → x ≡ some a → y ≡ some b → (x ⊕ y) ≡ some (a ++ b)
⊕-join x y p q = λ i. p i ⊕ q i

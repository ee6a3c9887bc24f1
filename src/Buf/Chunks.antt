-- ===== src/Buf/Chunks.antt =====
-- Lists of buffers none of which is empty.
use h.Prelude.{ℕ, zero, suc, ◌-◌, ◌<◌, ◌≡◌, arith}
use h.Prelude.{List, [], ◌∷◌, some, length, drop, All, ltb, Bool-cases, inl, inr, ltb→lt}
use mathlib.Core.Path.{subst}
use h.Buf.{BufList, push_back, push_bytes, advance}

-- No buffer is empty, which `push` and `push_bytes` assert.
abbrev pub HasChunks : BufList → Type 0
HasChunks l = All (λ (b : List ℕ). 0 < length b) l

pub push_back-HasChunks :
    (l : BufList) (b : List ℕ) → HasChunks l → 0 < length b → HasChunks (push_back l b)
unfolding push_back
push_back-HasChunks [] b h k = (k, tt)
push_back-HasChunks (x ∷ l) b h k = (h.0, push_back-HasChunks l b h.1 k)

pub push_bytes-some :
    (l : BufList) (b : List ℕ) → 0 < length b → push_bytes l b ≡ some (push_back l b)
unfolding push_bytes
push_bytes-some l b h = ground arith

length-drop_lt : (n : ℕ) (b : List ℕ) → n < length b → 0 < length (drop n b)
length-drop_lt n [] h = absurd (omega arith)
length-drop_lt zero (x ∷ b) h = omega arith
length-drop_lt (suc n) (x ∷ b) h = length-drop_lt n b (omega arith)

-- What is left of buffers that are not empty is no empty buffer.
pub advance-HasChunks :
    (cnt : ℕ) (l l' : BufList) → HasChunks l → advance cnt l ≡ some l' → HasChunks l'
unfolding advance
advance-HasChunks cnt [] l' h e = elim (Bool-cases (ltb 0 cnt)) [
  | inl p ↦ absurd (ground arith)
  | inr p ↦ (let f : [] ≡ l' = ground arith in subst HasChunks f tt)
]
advance-HasChunks cnt (b ∷ bs) l' h e = elim (Bool-cases (ltb 0 cnt)) [
  | inl p ↦ elim (Bool-cases (ltb cnt (length b))) [
    | inl q ↦
        (let f : drop cnt b ∷ bs ≡ l' = ground arith in
          subst HasChunks f (length-drop_lt cnt b (ltb→lt _ _ q), h.1))
    | inr q ↦ advance-HasChunks (cnt - length b) bs l' h.1 (ground arith)
  ]
  | inr p ↦ (let f : b ∷ bs ≡ l' = ground arith in subst HasChunks f h)
]

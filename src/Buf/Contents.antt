-- ===== src/Buf/Contents.antt =====
-- A `BufList` behaves as the one sequence of its bytes.
use h.Prelude.{ℕ, zero, suc, ◌-◌, ◌≤◌, ◌≡◌, refl, ap, sym, ◌∙◌, arith, min, false}
use h.Prelude.{
  List, [], ◌∷◌, ◌++◌, some, length, take, drop, length-append, append_assoc, append-nil,
}
use h.Prelude.{length-take, ltb, Bool-cases, inl, inr, ltb→lt, ltb→le}
use h.Prelude.{take-append-drop, drop-append_le}
use h.Buf.{BufList, contents, push_back, remaining, advance, take_chunk}

pub remaining-contents : (l : BufList) → remaining l ≡ length (contents l)
unfolding remaining contents
remaining-contents [] = refl
remaining-contents (b ∷ bs) = omega (arith, remaining-contents bs, length-append b (contents bs))

pub contents-push_back : (l : BufList) (b : List ℕ) → contents (push_back l b) ≡ contents l ++ b
unfolding contents push_back
contents-push_back [] b = append-nil b
contents-push_back (x ∷ l) b =
    ap (λ t. x ++ t) (contents-push_back l b) ∙ sym (append_assoc x (contents l) b)

pub drop-append_ge :
    (n : ℕ) (xs ys : List ℕ) → length xs ≤ n → drop n (xs ++ ys) ≡ drop (n - length xs) ys
drop-append_ge n [] ys h = ap (λ t. drop t ys) (omega arith)
drop-append_ge zero (x ∷ xs) ys h = absurd (omega arith)
drop-append_ge (suc n) (x ∷ xs) ys h =
    drop-append_ge n xs ys (omega arith) ∙ ap (λ t. drop t ys) (omega arith)

-- Advancing a BufList by no more bytes than it holds removes that many from the front of its bytes,
-- across buffers, without a panic.
pub advance_drops :
    (cnt : ℕ) (l : BufList)
    → cnt ≤ length (contents l)
    → (l' : BufList) × (advance cnt l ≡ some l') × (contents l' ≡ drop cnt (contents l))
unfolding advance contents
advance_drops cnt [] h = ([], ground arith, ground arith)
advance_drops cnt (b ∷ bs) h = elim (Bool-cases (ltb 0 cnt)) [
  | inl p ↦ elim (Bool-cases (ltb cnt (length b))) [
    | inl q ↦ (
      drop cnt b ∷ bs,
      rw (p, q),
      sym (drop-append_le cnt b (contents bs) (omega (arith, ltb→lt _ _ q))),
    )
    | inr q ↦
        let (l', e, d) =
          advance_drops (cnt - length b) bs (omega (arith, length-append b (contents bs))) in
        (l', rw (p, q) e, d ∙ sym (drop-append_ge cnt b (contents bs) (ltb→le _ _ q)))
  ]
  | inr p ↦ (b ∷ bs, rw p, rw (none_left p))
]
  where
    none_left : ltb 0 cnt ≡ false → cnt ≡ 0
    none_left p = omega (arith, ltb→le _ _ p)

empty_of_length : (xs : List ℕ) → length xs ≡ 0 → xs ≡ []
empty_of_length [] h = refl
empty_of_length (x ∷ xs) h = absurd (omega arith)

-- What `take_chunk` gives is the front part of the bytes, as long as asked for or as the front buffer
-- is, and the bytes behind it stay.
pub take_chunk_splits :
    (max_len : ℕ) (b : List ℕ) (bs : BufList) (d : List ℕ) (l' : BufList)
    → take_chunk max_len (b ∷ bs) ≡ (some d, l')
    → (contents (b ∷ bs) ≡ d ++ contents l') × (length d ≡ min max_len (length b))
unfolding take_chunk contents
take_chunk_splits max_len b bs d l' e =
    let n = min max_len (length b) in
    ground (
      arith,
      take-append-drop n b,
      append_assoc (take n b) (drop n b) (contents bs),
      length-take n b,
      empty_of_length (drop n b),
      append-nil (take n b),
    )

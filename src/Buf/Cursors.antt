-- ===== src/Buf/Cursors.antt =====
-- A `Cursor` over buffers that are not empty shows the one sequence of their bytes.
use h.Prelude.{ℕ, zero, suc, ◌+◌, ◌-◌, ◌≤◌, ◌<◌, ◌≡◌, refl, ap, sym, ◌∙◌, arith, true, false}
use h.Prelude.{
  List, [], ◌∷◌, ◌++◌, Option, none, some, Reader, length, drop, drop-append, get_elem?, ◌==◌,
  length-append, append_assoc, append-nil, ltb, leb, Bool-cases, inl, inr, ltb→le,
}
use mathlib.Core.Path.{subst}
use mathlib.Core.Option
use h.Buf.{
  BufList, contents, remaining, Cursor, cursor, cursor_remaining, cursor_chunk, advance_from,
  cursor_advance, with_byte, get_byte, shown, read_shown, read_to, through_cursor,
}
use h.Buf.Contents.{remaining-contents}
use h.Buf.Chunks.{HasChunks}

-- A cursor that stands at the start of a buffer moves by as much as it is told.
advance_from-position :
    (cnt : ℕ) (bs : BufList) (c : Cursor)
    → c.pos_front ≡ 0
    → cnt ≤ length (contents bs)
    → (d : Cursor) × (advance_from cnt bs c ≡ some d) × (d.pos_total ≡ c.pos_total + cnt)
unfolding advance_from contents
advance_from-position cnt [] c z h = (c, ground arith, omega arith)
advance_from-position cnt (b ∷ bs) c z h = elim (Bool-cases (ltb 0 cnt)) [
  | inl p ↦ elim (Bool-cases (ltb cnt (length b - c.pos_front))) [
    | inl q ↦
        (record c { pos_total = c.pos_total + cnt; pos_front = c.pos_front + cnt }, rw (p, q), refl)
    | inr q ↦
        let n = length b - c.pos_front in
        let next : Cursor = record c {
          pos_total = c.pos_total + n;
          pos_front = 0;
          index = c.index + 1;
        } in
        let k = ltb→le cnt n q in
        let (d, e, f) =
          advance_from-position (cnt - n) bs next refl
            (omega (arith, length-append b (contents bs))) in
        (d, rw (p, q) e, omega (arith, f))
  ]
  | inr p ↦ (c, rw p, omega (arith, ltb→le _ _ p))
]

-- A cursor at the start of a list moves by as many bytes as the list has or fewer.
cursor_advance-position :
    (cnt : ℕ) (l : BufList)
    → cnt ≤ length (contents l)
    → (d : Cursor) × (cursor_advance cnt l cursor ≡ some d) × (d.pos_total ≡ cnt)
unfolding cursor_advance cursor cursor_remaining
cursor_advance-position cnt l h =
    let (d, e, f) = advance_from-position cnt l cursor refl h in
    let k : leb cnt (remaining l - 0) ≡ true = ground (arith, remaining-contents l) in
    (d, rw k e, omega (arith, f))

contents-append : (l m : BufList) → contents (l ++ m) ≡ contents l ++ contents m
unfolding contents
contents-append [] m = refl
contents-append (b ∷ l) m =
    ap (λ t. b ++ t) (contents-append l m) ∙ sym (append_assoc b (contents l) (contents m))

get_elem?-behind :
    {A : Type 0} (front back : List A) (x : A)
    → get_elem? (front ++ (x ∷ back)) (length front) ≡ some x
get_elem?-behind [] back x = refl
get_elem?-behind (y ∷ front) back x = get_elem?-behind front back x

-- The cursor behind so many bytes, so many of them in the buffer of this index.
abbrev cursor_at : ℕ → ℕ → ℕ → Cursor
cursor_at n k i = record { pos_total = n; pos_front = k; index = i }

-- A cursor behind `pre` in the buffer `pre ++ post` of a list.
module _ (front bs : BufList) (pre post : List ℕ) (n : ℕ) where
  abbrev here : Cursor
  here = cursor_at n (length pre) (length front)

  abbrev whole : BufList
  whole = front ++ ((pre ++ post) ∷ bs)

  chunk_at : cursor_chunk whole here ≡ some post
  unfolding cursor_chunk
  chunk_at =
      ap (λ (o : Option (List ℕ)). elim o [ none ↦ none | some d ↦ some (drop (length pre) d) ])
        (get_elem?-behind front bs (pre ++ post))
      ∙ ap some (drop-append pre post)

  length-whole :
      n ≡ length (contents front) + length pre
      → remaining whole ≡ n + (length post + length (contents bs))
  unfolding contents
  length-whole p = omega (
    arith,
    remaining-contents whole,
    ap length (contents-append front ((pre ++ post) ∷ bs)),
    length-append (contents front) ((pre ++ post) ++ contents bs),
    length-append (pre ++ post) (contents bs),
    length-append pre post,
  )

  -- A step within the buffer, where more than a byte is left of it.
  step_inside :
      1 < length post
      → n ≡ length (contents front) + length pre
      → cursor_advance 1 whole here ≡ some (cursor_at (n + 1) (length pre + 1) (length front))
  unfolding cursor_advance cursor_remaining advance_from
  step_inside h p =
      let room : leb 1 (remaining whole - n) ≡ true = ground (arith, length-whole p) in
      let inside : ltb 1 (length (pre ++ post) - length pre) ≡ true =
        ground (arith, length-append pre post) in
      rw room
        (ap (λ t. advance_from 1 t here) (drop-append front ((pre ++ post) ∷ bs)) ∙ rw inside refl)

  -- A step behind the last byte of the buffer, to the start of the next.
  step_over :
      length post ≡ 1
      → n ≡ length (contents front) + length pre
      → cursor_advance 1 whole here ≡ some (cursor_at (n + 1) 0 (length front + 1))
  unfolding cursor_advance cursor_remaining advance_from
  step_over h p =
      let room : leb 1 (remaining whole - n) ≡ true = ground (arith, length-whole p) in
      let one : length (pre ++ post) - length pre ≡ 1 = omega (arith, length-append pre post) in
      rw room (
        ap (λ t. advance_from 1 t here) (drop-append front ((pre ++ post) ∷ bs))
        ∙ rw one (stays bs))
    where
      stays :
          (bs : BufList)
          → advance_from 0 bs (cursor_at (n + 1) 0 (length front + 1))
            ≡ some (cursor_at (n + 1) 0 (length front + 1))
      stays [] = refl
      stays (b ∷ bs) = refl

-- A round that reads a byte.
shown_on :
    (l : BufList) (c : Cursor) (fuel : ℕ) {d : Cursor} {x : ℕ} {b bs : List ℕ}
    → (cursor_remaining l c == 0) ≡ false
    → cursor_chunk l c ≡ some (x ∷ b)
    → cursor_advance 1 l c ≡ some d
    → shown fuel l d ≡ some bs
    → shown (suc fuel) l c ≡ some (x ∷ bs)
unfolding shown get_byte
shown_on l c fuel {d} {x} {b} {bs} r e a f = rw r (
    ap (λ t. get_byte l c t (shown fuel l)) e
    ∙ ap (λ t. with_byte x t (shown fuel l)) a
    ∙ ap (Option.map (λ t. x ∷ t)) f)

-- Behind all bytes nothing is shown.
shown_end :
    (l : BufList) (c : Cursor) (fuel : ℕ)
    → remaining l ≡ c.pos_total
    → 0 < fuel
    → shown fuel l c ≡ some []
unfolding shown cursor_remaining
shown_end l c zero h k = absurd (omega arith)
shown_end l c (suc fuel) h k = let z : remaining l - c.pos_total ≡ 0 = omega arith in rw z refl

not_empty :
    (l : BufList) (c : Cursor)
    → (remaining l - c.pos_total == 0) ≡ false
    → (cursor_remaining l c == 0) ≡ false
unfolding cursor_remaining
not_empty l c h = h

-- What a cursor shows that stands in a buffer: what is left of it and the bytes of the others.
shown_from :
    (fuel : ℕ) (front bs : BufList) (pre post : List ℕ) (n : ℕ)
    → HasChunks bs
    → 0 < length post
    → length post + length (contents bs) < fuel
    → n ≡ length (contents front) + length pre
    → shown fuel (front ++ ((pre ++ post) ∷ bs)) (cursor_at n (length pre) (length front))
      ≡ some (post ++ contents bs)
unfolding contents
shown_from zero front bs pre post n h z k p = absurd (omega arith)
shown_from (suc fuel) front bs pre [] n h z k p = absurd (omega arith)
shown_from (suc fuel) front bs pre (x ∷ y ∷ post) n h z k p =
    let b : List ℕ = x ∷ y ∷ post in
    let c = cursor_at n (length pre) (length front) in
    let r : (remaining (whole front bs pre b n) - n == 0) ≡ false =
      ground (arith, length-whole front bs pre b n p) in
    let len : length (pre ++ (x ∷ [])) ≡ length pre + 1 = length-append pre (x ∷ []) in
    let e =
      shown_from fuel front bs (pre ++ (x ∷ [])) (y ∷ post) (n + 1) h (omega arith) (omega arith)
        (omega (arith, len)) in
    let f : shown fuel (whole front bs pre b n) (cursor_at (n + 1) (length pre + 1) (length front))
        ≡ some ((y ∷ post) ++ contents bs) =
      subst
        (λ t.
          shown fuel (front ++ (t ∷ bs)) (cursor_at (n + 1) (length pre + 1) (length front))
          ≡ some ((y ∷ post) ++ contents bs))
        (append_assoc pre (x ∷ []) (y ∷ post))
        (subst
          (λ t.
            shown fuel (front ++ (((pre ++ (x ∷ [])) ++ (y ∷ post)) ∷ bs))
              (cursor_at (n + 1) t (length front))
            ≡ some ((y ∷ post) ++ contents bs))
          len e) in
    shown_on (whole front bs pre b n) c fuel (not_empty (whole front bs pre b n) c r)
      (chunk_at front bs pre b n) (step_inside front bs pre b n (omega arith) p) f
shown_from (suc fuel) front bs pre (x ∷ []) n h z k p =
    let b : List ℕ = x ∷ [] in
    let l = whole front bs pre b n in
    let c = cursor_at n (length pre) (length front) in
    let r : (remaining l - n == 0) ≡ false = ground (arith, length-whole front bs pre b n p) in
    shown_on l c fuel (not_empty l c r) (chunk_at front bs pre b n)
      (step_over front bs pre b n refl p)
      (next bs h (omega arith) λ m bs b. shown_from fuel m bs [] b (n + 1))
  where
    next :
        (bs : BufList)
        → HasChunks bs
        → length (contents bs) < fuel
        → ((m bs : BufList) (b : List ℕ)
            → HasChunks bs
            → 0 < length b
            → length b + length (contents bs) < fuel
            → n + 1 ≡ length (contents m) + 0
            → shown fuel (m ++ (b ∷ bs)) (cursor_at (n + 1) 0 (length m)) ≡ some (b ++ contents bs))
        → shown fuel (front ++ ((pre ++ (x ∷ [])) ∷ bs)) (cursor_at (n + 1) 0 (length front + 1))
          ≡ some (contents bs)
    next [] h k again =
        shown_end (front ++ ((pre ++ (x ∷ [])) ∷ [])) (cursor_at (n + 1) 0 (length front + 1)) fuel
          (omega (arith, length-whole front [] pre (x ∷ []) n p)) k
    next (b ∷ bs) h k again =
        let m = front ++ ((pre ++ (x ∷ [])) ∷ []) in
        let e = again m bs b h.1 h.0 (omega (arith, length-append b (contents bs))) (
          omega (
            arith,
            p,
            ap length (contents-append front ((pre ++ (x ∷ [])) ∷ [])),
            length-append (contents front) ((pre ++ (x ∷ [])) ++ []),
            ap length (append-nil (pre ++ (x ∷ []))),
            length-append pre (x ∷ []),
          )) in
        subst (λ t. shown fuel t (cursor_at (n + 1) 0 (length front + 1)) ≡ some (b ++ contents bs))
          (append_assoc front ((pre ++ (x ∷ [])) ∷ []) (b ∷ bs))
          (subst (λ t. shown fuel (m ++ (b ∷ bs)) (cursor_at (n + 1) 0 t) ≡ some (b ++ contents bs))
            (length-append front ((pre ++ (x ∷ [])) ∷ [])) e)

-- A cursor at the start shows all bytes.
shown_all : (l : BufList) → HasChunks l → shown (suc (remaining l)) l cursor ≡ some (contents l)
unfolding cursor contents
shown_all [] h = shown_end [] cursor (suc (remaining [])) (remaining-contents []) (omega arith)
shown_all (b ∷ bs) h =
    shown_from (suc (remaining (b ∷ bs))) [] bs [] b 0 h.1 h.0
      (omega (arith, remaining-contents (b ∷ bs), length-append b (contents bs))) refl

-- What is read through a cursor at the start of buffers that are not empty is what is read of their
-- bytes, and the cursor stands behind what was taken.
pub through_cursor-contents :
    {E A : Type 0} (reader : Reader E A) (l : BufList)
    → HasChunks l
    → through_cursor reader l
      ≡ ((reader (contents l)).0, length (contents l) - length (reader (contents l)).1)
unfolding through_cursor cursor
through_cursor-contents reader l h =
    let n = length (contents l) - length (reader (contents l)).1 in
    let (d, a, p) = cursor_advance-position n l (omega arith) in
    ap (read_shown reader l) (shown_all l h)
    ∙ ap (read_to (reader (contents l)).0) a
    ∙ ap (λ t. ((reader (contents l)).0, t)) p

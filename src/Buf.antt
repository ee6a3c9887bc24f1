-- ===== src/Buf.antt =====
-- h3/src/buf.rs: `BufList`, a queue of byte buffers read as one, and the `Cursor` over it. A buffer is
-- the list of the bytes that it still holds.
pub mod Contents
pub mod Chunks
pub mod Cursors
use h.Prelude.{ℕ, zero, suc, ◌+◌, ◌-◌, ◌≤◌, min, Bool, List, [], ◌∷◌, ◌++◌, Option, none, some}
use mathlib.Core.Option
use h.Prelude.{Outcome, panic, Reader, length, take, drop, get_elem?, ltb, leb, ◌==◌, if◌then◌else◌}

-- `BufList::bufs`, the front first.
abbrev pub BufList : Type 0
BufList = List (List ℕ)

-- All bytes in order.
unfoldable pub contents : BufList → List ℕ
contents [] = []
contents (b ∷ bs) = b ++ contents bs

-- `self.bufs.push_back(buf)`
unfoldable pub push_back : BufList → List ℕ → BufList
push_back l b = l ++ (b ∷ [])

-- `push`, with its assertion, which `push_bytes` has too.
unfoldable pub push : BufList → List ℕ → Option BufList
unfolding push_back
push l b = if ltb 0 (length b) then some (push_back l b) else none

unfoldable pub push_bytes : BufList → List ℕ → Option BufList
unfolding push_back
push_bytes l b = if ltb 0 (length b) then some (push_back l b) else none

-- `Buf::remaining`, the sum over the buffers.
unfoldable pub remaining : BufList → ℕ
remaining [] = 0
remaining (b ∷ bs) = length b + remaining bs

unfoldable pub has_remaining : BufList → Bool
unfolding remaining
has_remaining l = ltb 0 (remaining l)

-- `Buf::chunk`
unfoldable pub chunk : BufList → List ℕ
chunk [] = []
chunk (b ∷ bs) = b

-- `Buf::advance`: indexing an empty queue panics.
unfoldable pub advance : ℕ → BufList → Option BufList
advance cnt [] = if ltb 0 cnt then none else some []
advance cnt (b ∷ bs) =
    let rest = advance (cnt - length b) bs in
    if ltb 0 cnt
    then (if ltb cnt (length b) then some (drop cnt b ∷ bs) else rest)
    else some (b ∷ bs)

unfoldable pub take_first_chunk : BufList → Option (List ℕ) × BufList
take_first_chunk [] = (none, [])
take_first_chunk (b ∷ bs) = (some b, bs)

-- The front is split at `min(max_len, remaining)`, and removed when nothing is left of it.
unfoldable pub take_chunk : ℕ → BufList → Option (List ℕ) × BufList
take_chunk max_len [] = (none, [])
take_chunk max_len (b ∷ bs) =
    let n = min max_len (length b) in
    (some (take n b), (if length (drop n b) == 0 then bs else drop n b ∷ bs))

-- `Cursor`, but for the list that it looks at.
pub record Cursor : Type 0 where
  pub pos_total : ℕ
  pub pos_front : ℕ
  pub index : ℕ

unfoldable pub cursor : Cursor
cursor = record { pos_total = 0; pos_front = 0; index = 0 }

abbrev pub position : Cursor → ℕ
position c = c.pos_total

unfoldable pub cursor_remaining : BufList → Cursor → ℕ
cursor_remaining l c = remaining l - c.pos_total

-- `Cursor::chunk`, a panic where the index is out of range.
unfoldable pub cursor_chunk : BufList → Cursor → Option (List ℕ)
cursor_chunk l c = elim (get_elem? l c.index) [ none ↦ none | some b ↦ some (drop c.pos_front b) ]

-- The loop of `Cursor::advance` over the buffers from the cursor's index on.
unfoldable pub advance_from : ℕ → List (List ℕ) → Cursor → Option Cursor
advance_from cnt [] c = if ltb 0 cnt then none else some c
advance_from cnt (b ∷ bs) c =
    let rem = length b - c.pos_front in
    let next =
      advance_from (cnt - rem) bs
        (record c { pos_total = c.pos_total + rem; pos_front = 0; index = c.index + 1 }) in
    if ltb 0 cnt
    then (if ltb cnt rem
        then some (record c { pos_total = c.pos_total + cnt; pos_front = c.pos_front + cnt })
        else next)
    else some c

unfoldable pub cursor_advance : ℕ → BufList → Cursor → Option Cursor
unfolding advance_from cursor_remaining
cursor_advance cnt l c =
    if leb cnt (cursor_remaining l c) then advance_from cnt (drop c.index l) c else none

-- A byte that was read, and those that are behind it.
abbrev pub with_byte : ℕ → Option Cursor → (Cursor → Option (List ℕ)) → Option (List ℕ)
with_byte x none next = none
with_byte x (some c) next = Option.map (λ bs. x ∷ bs) (next c)

-- `get_u8`: the first byte of `chunk`, a panic where there is none, and `advance` by one.
unfoldable pub get_byte :
    BufList → Cursor → Option (List ℕ) → (Cursor → Option (List ℕ)) → Option (List ℕ)
unfolding cursor_advance
get_byte l c none next = none
get_byte l c (some []) next = none
get_byte l c (some (x ∷ b)) next = with_byte x (cursor_advance 1 l c) next

-- The bytes that a cursor shows, by its `remaining`, `chunk` and `advance`, `fuel` at most.
unfoldable pub shown : ℕ → BufList → Cursor → Option (List ℕ)
unfolding get_byte cursor_remaining cursor_chunk
shown zero l c = none
shown (suc fuel) l c =
    let next = shown fuel l in
    if cursor_remaining l c == 0 then some [] else get_byte l c (cursor_chunk l c) next

-- What is read through a cursor, and the position at which it stands then.
abbrev pub read_to : {E A : Type 0} → Outcome E A → Option Cursor → Outcome E A × ℕ
read_to r none = (panic, 0)
read_to r (some c) = (r, position c)

abbrev pub read_shown : {E A : Type 0} → Reader E A → BufList → Option (List ℕ) → Outcome E A × ℕ
read_shown reader l none = (panic, 0)
read_shown reader l (some all) =
    let r = reader all in read_to r.0 (cursor_advance (length all - length r.1) l cursor)

unfoldable pub through_cursor : {E A : Type 0} → Reader E A → BufList → Outcome E A × ℕ
unfolding shown cursor_advance remaining
through_cursor reader l = read_shown reader l (shown (suc (remaining l)) l cursor)

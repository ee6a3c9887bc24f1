-- ===== src/Qpack/DynamicTable/Tracked.antt =====
-- A smaller capacity for a table whose oldest field is still referred to.
use h.Prelude.{
  ℕ, ◌+◌, ◌-◌, ◌≤◌, ◌<◌, ◌≡◌, refl, ap, ◌∙◌, arith, true, false, List, ◌∷◌, none, some, ok, panic,
  ltb, leb, ◌==◌,
}
use h.Qpack.Field.{HeaderField, mem_size}
use h.Qpack.Vas
use h.Qpack.DynamicTable.{
  DynamicTable, is_tracked, evictable_loop, enough, can_free, insert, insert_freed, name_field, put,
  shrink, set_max_size, settings_max_table_capacity_max,
}

-- The loop of `can_free` stops at the first field.
loop_stops :
    (t : DynamicTable) (lower : ℕ) (f : HeaderField) (fs : List HeaderField)
    → lower < t.curr_size
    → 0 < t.vas.delta
    → is_tracked t (t.vas.dropped + 1) ≡ true
    → evictable_loop t lower (f ∷ fs) 0 t.curr_size 0 ≡ some (0, t.curr_size)
unfolding evictable_loop Vas.index
loop_stops t lower f fs h d k =
    let a : leb t.curr_size lower ≡ false = ground arith in
    let b : leb t.vas.delta 0 ≡ false = ground arith in
    let c : 0 + t.vas.dropped + 1 ≡ t.vas.dropped + 1 = omega arith in rw (a, b, c, k) refl

nothing_freed :
    (size : ℕ) (t : DynamicTable) (f : HeaderField) (fs : List HeaderField)
    → t.fields ≡ f ∷ fs
    → 0 < t.vas.delta
    → is_tracked t (t.vas.dropped + 1) ≡ true
    → t.curr_size ≤ t.max_size
    → size < t.curr_size
    → can_free (t.max_size - size) t ≡ ok none
unfolding can_free enough
nothing_freed size t f fs e d k h l =
    let s : evictable_loop t (t.max_size - (t.max_size - size)) t.fields 0 t.curr_size 0
        ≡ some (0, t.curr_size) =
      ap (λ x. evictable_loop t (t.max_size - (t.max_size - size)) x 0 t.curr_size 0) e
      ∙ loop_stops t (t.max_size - (t.max_size - size)) f fs (omega arith) d k in
    let a : ltb t.max_size (t.max_size - size) ≡ false = ground arith in
    let b : ltb t.max_size t.curr_size ≡ false = ground arith in
    let c : leb (t.max_size - size) (t.max_size - t.curr_size) ≡ false = ground arith in
    rw (a, b, c, s) (rw (b, c) refl)

put_panics :
    (g : HeaderField) (t : DynamicTable)
    → 0 < t.max_size
    → mem_size g ≤ t.max_size
    → t.max_size < t.curr_size
    → (put g t).0 ≡ panic
unfolding put insert insert_freed can_free name_field
put_panics g t z h l =
    let a : (t.max_size == 0) ≡ false = ground arith in
    let b : ltb t.max_size (mem_size g) ≡ false = ground arith in
    let c : ltb t.max_size t.curr_size ≡ true = ground arith in rw (a, b, c) refl

-- Where the oldest field of a table is tracked, set_max_size to a capacity above 0 and below the
-- size of the table succeeds and evicts nothing, so that the table is larger than its capacity, and
-- put of a field that fits in this panics.
pub set_max_size-put :
    (size : ℕ) (t : DynamicTable) (f g : HeaderField) (fs : List HeaderField)
    → t.fields ≡ f ∷ fs
    → 0 < t.vas.delta
    → is_tracked t (t.vas.dropped + 1) ≡ true
    → t.curr_size ≤ t.max_size
    → size < t.curr_size
    → size ≤ settings_max_table_capacity_max
    → 0 < size
    → mem_size g ≤ size
    → (set_max_size size t ≡ (ok tt, record t { max_size = size }))
      × ((put g (set_max_size size t).1).0 ≡ panic)
unfolding set_max_size shrink
set_max_size-put size t f g fs e d k h l m z n =
    let a : ltb settings_max_table_capacity_max size ≡ false = ground arith in
    let b : leb t.max_size size ≡ false = ground arith in
    let r : set_max_size size t ≡ (ok tt, record t { max_size = size }) =
      rw (a, b, nothing_freed size t f fs e d k h l) refl in
    (r, ap (λ x. (put g x.1).0) r ∙ put_panics g (record t { max_size = size }) z n l)

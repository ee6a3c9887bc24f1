-- ===== src/Qpack/DynamicTable/Decoding.antt =====
-- The table of a decoder, which tracks no references: a field that fits is always taken in, and a new
-- capacity is kept to.
use h.Prelude.{
  ℕ, ◌+◌, ◌-◌, ◌≤◌, ◌<◌, ◌≡◌, refl, ap, sym, ◌∙◌, arith, false, List, [], ◌∷◌, ◌++◌, append-nil,
  length, drop,
}
use h.Prelude.{
  Option, none, some, Outcome, ok, err, panic, ltb, leb, ◌==◌, if_rule, ltb→lt, leb→le, leb→lt,
}
use mathlib.Core.Path.{subst}
use h.Qpack.Field.{HeaderField, mem_size}
use h.Qpack.DynamicTable.{
  DynamicTable, DynamicTableError, is_tracked, evictable_loop, enough, can_free, evict, insert,
  insert_freed, push_back, name_field, put, shrink, set_max_size, settings_max_table_capacity_max,
}
use h.Qpack.DynamicTable.Freeing.{sizes, IsValid, index_ok, Frees, can_free-Frees}
use h.Qpack.DynamicTable.Capacity.{Evicts, evict-Evicts, Keeps, push_back-Keeps}

-- The loop goes on until the size is small enough.
Low : ℕ → Option (ℕ × ℕ) → Type 0
Low lower none = Unit {0}
Low lower (some (n, mem)) = mem ≤ lower

untracked : (t : DynamicTable) (a : ℕ) → t.track_map ≡ [] → is_tracked t a ≡ false
unfolding is_tracked
untracked t a e = cc (e)

evictable_loop-Low :
    (t : DynamicTable) (lower : ℕ) (fields : List HeaderField) (idx mem evictable : ℕ)
    → t.track_map ≡ []
    → idx + length fields ≡ t.vas.delta
    → mem ≡ sizes fields
    → Low lower (evictable_loop t lower fields idx mem evictable)
unfolding evictable_loop Low
evictable_loop-Low t lower [] idx mem evictable m h e = omega arith
evictable_loop-Low t lower (f ∷ fs) idx mem evictable m h e =
    let (a, i) = index_ok t.vas idx (omega arith) in
    if_rule (Low lower) (leb mem lower) _ _ (λ l. leb→le mem lower l)
      (λ _.
        rw (i, untracked t a m)
          (if_rule (Low lower) (ltb mem (mem_size f)) _ _ (λ _. tt)
            (λ _.
              evictable_loop-Low t lower fs (idx + 1) (mem - mem_size f) (evictable + 1) m
                (omega arith) (omega arith))))

-- An answer of `can_free` with a number of fields, or a panic.
Room : Outcome DynamicTableError (Option ℕ) → Type 0
Room (ok (some n)) = Unit {0}
Room (ok none) = ⊥
Room (err e) = ⊥
Room panic = Unit {0}

enough-Room :
    (max_size required : ℕ) (o : Option (ℕ × ℕ))
    → required ≤ max_size
    → Low (max_size - required) o
    → Room (enough max_size required o)
unfolding enough Low Room
enough-Room max_size required none h l = tt
enough-Room max_size required (some (n, mem)) h l =
    if_rule Room (ltb max_size mem) _ _ (λ c. tt)
      (λ _.
        if_rule Room (leb required (max_size - mem)) _ _ (λ c. tt)
          (λ c. absurd (omega (arith, leb→lt required (max_size - mem) c))))

can_free-Room :
    (required : ℕ) (t : DynamicTable)
    → IsValid t
    → t.track_map ≡ []
    → required ≤ t.max_size
    → Room (can_free required t)
unfolding can_free Room
can_free-Room required t v m h =
    if_rule Room (ltb t.max_size required) _ _
      (λ l. absurd (omega (arith, ltb→lt t.max_size required l)))
      (λ l.
        if_rule Room (ltb t.max_size t.curr_size) _ _ (λ _. tt)
          (λ _.
            if_rule Room (leb required (t.max_size - t.curr_size)) _ _ (λ p. tt)
              (λ _.
                enough-Room t.max_size required
                  (evictable_loop t (t.max_size - required) t.fields 0 t.curr_size 0) h
                  (evictable_loop-Low t (t.max_size - required) t.fields 0 t.curr_size 0 m
                    (omega (arith, v.addressed)) v.size_is))))

-- The table of a decoder.
pub record IsDecoding (t : DynamicTable) : Type 0 where
  pub valid : IsValid t
  pub within : t.curr_size ≤ t.max_size
  pub no_refs : t.track_map ≡ []

-- There is always something to free for what fits in the table.
room :
    (required : ℕ) (t : DynamicTable)
    → IsDecoding t
    → required ≤ t.max_size
    → (n : ℕ) × (can_free required t ≡ ok (some n)) × Frees required t (ok (some n))
unfolding Room
room required t d h =
    go (can_free required t) refl (can_free-Room required t d.valid d.no_refs h)
      (can_free-Frees required t d.valid d.within)
  where
    go :
        (o : Outcome DynamicTableError (Option ℕ))
        → o ≡ can_free required t
        → Room o
        → Frees required t o
        → (n : ℕ) × (can_free required t ≡ ok (some n)) × Frees required t (ok (some n))
    go (ok (some n)) e r f = (n, sym e, f)
    go (ok none) e r f = absurd r
    go (err x) e r f = absurd r
    go panic e r f = absurd f

-- A table in which some of the oldest fields are gone and these are new.
pub record Becomes (t u : DynamicTable) (added : List HeaderField) : Type 0 where
  pub gone : ℕ
  pub fields_are : u.fields ≡ drop gone t.fields ++ added
  pub decoding : IsDecoding u

becomes :
    (t u : DynamicTable) (added : List HeaderField)
    → IsDecoding t
    → Keeps t u added
    → Becomes t u added
becomes t u added d k = record {
  gone = k.gone;
  fields_are = k.fields_are;
  decoding = record { valid = k.still_valid; within = k.within; no_refs = k.tracked ∙ d.no_refs };
}

overhead : (f : HeaderField) → 32 ≤ mem_size f
unfolding mem_size
overhead f = omega arith

insert-room :
    (f : HeaderField) (t : DynamicTable) (n : ℕ)
    → 0 < t.max_size
    → can_free (mem_size f) t ≡ ok (some n)
    → insert f t ≡ push_back f (evict n t)
unfolding insert insert_freed
insert-room f t n h e = let z : (t.max_size == 0) ≡ false = ground arith in cc (z, e)

name_field-Becomes :
    (f : HeaderField) (a : ℕ) (t : DynamicTable)
    (r : Outcome DynamicTableError (Option ℕ) × DynamicTable)
    → r.0 ≡ ok (some a)
    → Becomes t r.1 (f ∷ [])
    → ((name_field f r).0 ≡ ok tt) × Becomes t (name_field f r).1 (f ∷ [])
unfolding name_field
name_field-Becomes f a t (ok (some i), u) e b = (
  refl,
  record {
    gone = b.gone;
    fields_are = b.fields_are;
    decoding = record {
      valid = record {
        size_is = b.decoding.valid.size_is;
        balanced = b.decoding.valid.balanced;
        addressed = b.decoding.valid.addressed;
      };
      within = b.decoding.within;
      no_refs = b.decoding.no_refs;
    };
  },
)
name_field-Becomes f a t (ok none, u) e b = absurd (cc)
name_field-Becomes f a t (err x, u) e b = absurd (cc)
name_field-Becomes f a t (panic, u) e b = absurd (cc)

-- On a table whose size is that of its fields and within its capacity, whose fields have the
-- addresses of its space, and that tracks no references, put of a field that fits in the capacity
-- succeeds: some of the oldest fields are gone, the new one is the last, and the table is such a
-- table again.
pub put-Becomes :
    (f : HeaderField) (t : DynamicTable)
    → IsDecoding t
    → mem_size f ≤ t.max_size
    → ((put f t).0 ≡ ok tt) × Becomes t (put f t).1 (f ∷ [])
unfolding put
put-Becomes f t d h =
    let (n, e, (p, q)) = room (mem_size f) t d h in
    let i = insert-room f t n (omega (arith, overhead f)) e in
    let (a, k) = push_back-Keeps n t f (evict n t) (evict-Evicts n t t.fields d.valid refl p) q in
    subst (λ r. ((name_field f r).0 ≡ ok tt) × Becomes t (name_field f r).1 (f ∷ [])) (sym i)
      (name_field-Becomes f (t.vas.inserted + 1) t (push_back f (evict n t)) a
        (becomes t (push_back f (evict n t)).1 (f ∷ []) d k))

shrink-done :
    (size n : ℕ) (t : DynamicTable)
    → (evict n t).0 ≡ ok tt
    → shrink size (ok (some n)) t ≡ (ok tt, record (evict n t).1 { max_size = size })
unfolding shrink
shrink-done size n t e = cc (e)

-- An eviction that succeeds, then the new capacity.
abbrev Resized : ℕ → DynamicTable → Outcome DynamicTableError (Unit {0}) × DynamicTable → Type 0
Resized size t r = (r.0 ≡ ok tt) × Becomes t r.1 [] × (r.1.max_size ≡ size)

shrink-Resized :
    (size n : ℕ) (t : DynamicTable)
    → IsDecoding t
    → Evicts n t (evict n t)
    → sizes (drop n t.fields) ≤ size
    → Resized size t (shrink size (ok (some n)) t)
shrink-Resized size n t d e h = subst (Resized size t) (sym (shrink-done size n t e.done)) (
  refl,
  record {
    gone = n;
    fields_are = e.fields_are ∙ sym (append-nil (drop n t.fields));
    decoding = record {
      valid = record {
        size_is = e.valid.size_is;
        balanced = e.valid.balanced;
        addressed = e.valid.addressed;
      };
      within = omega (arith, e.valid.size_is, ap sizes e.fields_are);
      no_refs = e.same_tracked ∙ d.no_refs;
    };
  },
  refl,
)

-- On a table whose size is that of its fields and within its capacity, whose fields have the
-- addresses of its space, and that tracks no references, set_max_size to a capacity that the
-- settings allow succeeds: some of the oldest fields are gone, the others are kept, and the size is
-- within the new capacity.
pub set_max_size-Becomes :
    (size : ℕ) (t : DynamicTable)
    → IsDecoding t
    → size ≤ settings_max_table_capacity_max
    → ((set_max_size size t).0 ≡ ok tt)
      × Becomes t (set_max_size size t).1 []
      × ((set_max_size size t).1.max_size ≡ size)
unfolding set_max_size
set_max_size-Becomes size t d h =
    if_rule (Resized size t) (ltb settings_max_table_capacity_max size) _ _
      (λ l. absurd (omega (arith, ltb→lt settings_max_table_capacity_max size l)))
      (λ _.
        if_rule (Resized size t) (leb t.max_size size) _ _
          (λ l. (
            refl,
            record {
              gone = 0;
              fields_are = sym (append-nil t.fields);
              decoding = record {
                valid = record {
                  size_is = d.valid.size_is;
                  balanced = d.valid.balanced;
                  addressed = d.valid.addressed;
                };
                within = omega (arith, d.within, leb→le t.max_size size l);
                no_refs = d.no_refs;
              };
            },
            refl,
          ))
          (λ l.
            let (n, e, (p, q)) = room (t.max_size - size) t d (omega arith) in
            rw e (
              shrink-Resized size n t d (evict-Evicts n t t.fields d.valid refl p)
                (omega (arith, leb→lt t.max_size size l)))))

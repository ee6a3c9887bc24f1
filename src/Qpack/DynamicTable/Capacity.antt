-- ===== src/Qpack/DynamicTable/Capacity.antt =====
-- The dynamic table keeps within its capacity: what insertion, eviction and a new capacity do to a
-- table whose size is that of its fields.
use h.Prelude.{
  ℕ, zero, suc, ◌+◌, ◌-◌, ◌≤◌, ◌≡◌, refl, ap, sym, ◌∙◌, arith, false, List, [], ◌∷◌, ◌++◌,
  append-nil, length, length-append, drop,
}
use h.Prelude.{Option, none, some, Outcome, ok, err, panic, ltb, ◌==◌, if_rule}
use mathlib.Core.Path.{subst}
use h.Qpack.Field.{HeaderField, mem_size, same_bytes}
use h.Qpack.Static.Lookup.{same_field}
use h.Qpack.Vas
use h.Qpack.Vas.{VirtualAddressSpace}
use h.Qpack.DynamicTable.{
  DynamicTable, DynamicTableError, can_free, forget, evict_field, evict, push_back, insert_freed,
  insert,
}
use h.Qpack.DynamicTable.Freeing.{sizes, IsValid, sizes-append, Frees, can_free-Frees}

evict_field-IsValid :
    (f : HeaderField) (fs : List HeaderField) (t : DynamicTable)
    → IsValid t
    → t.fields ≡ f ∷ fs
    → (u : DynamicTable) × (evict_field f fs t ≡ some u)
      × (u.fields ≡ fs)
      × (u.max_size ≡ t.max_size)
      × (u.vas.inserted ≡ t.vas.inserted)
      × (u.track_map ≡ t.track_map)
      × IsValid u
unfolding evict_field Vas.drop
evict_field-IsValid f fs t v e =
    let n : suc (length fs) ≡ t.vas.delta = sym (ap length e) ∙ v.addressed in
    let s : t.curr_size ≡ mem_size f + sizes fs = v.size_is ∙ ap sizes e in
    let a : ltb t.curr_size (mem_size f) ≡ false = ground arith in
    let b : (t.vas.delta == 0) ≡ false = ground arith in
    let vas : VirtualAddressSpace = record {
      inserted = t.vas.inserted;
      dropped = t.vas.dropped + 1;
      delta = t.vas.delta - 1;
    } in
    (
      record t {
        fields = fs;
        curr_size = t.curr_size - mem_size f;
        vas = vas;
        name_map = forget same_bytes vas f.name t.name_map;
        field_map = forget same_field vas f t.field_map;
      },
      rw (a, b) refl,
      refl,
      refl,
      refl,
      refl,
      record {
        size_is = omega arith;
        balanced = omega (arith, v.balanced);
        addressed = omega arith;
      },
    )

evict-next :
    (n : ℕ) (f : HeaderField) (fs : List HeaderField) (t u : DynamicTable)
    → t.fields ≡ f ∷ fs
    → evict_field f fs t ≡ some u
    → evict (suc n) t ≡ evict n u
unfolding evict
evict-next n f fs t u e g = cc (e, g)

-- What an eviction of `n` fields leaves.
pub record Evicts (n : ℕ) (t : DynamicTable)
    (r : Outcome DynamicTableError (Unit {0}) × DynamicTable) : Type 0 where
  pub done : r.0 ≡ ok tt
  pub fields_are : r.1.fields ≡ drop n t.fields
  pub same_max : r.1.max_size ≡ t.max_size
  pub same_inserted : r.1.vas.inserted ≡ t.vas.inserted
  pub same_tracked : r.1.track_map ≡ t.track_map
  pub valid : IsValid r.1

pub evict-Evicts :
    (n : ℕ) (t : DynamicTable) (fs : List HeaderField)
    → IsValid t
    → t.fields ≡ fs
    → n ≤ length fs
    → Evicts n t (evict n t)
unfolding evict
evict-Evicts zero t fs v e h = record {
  done = refl;
  fields_are = refl;
  same_max = refl;
  same_inserted = refl;
  same_tracked = refl;
  valid = v;
}
evict-Evicts (suc n) t [] v e h = absurd (omega arith)
evict-Evicts (suc n) t (f ∷ fs) v e h =
    let (u, g, k, m, i, c, w) = evict_field-IsValid f fs t v e in
    let r = evict-Evicts n u fs w k (omega arith) in
    subst (Evicts (suc n) t) (sym (evict-next n f fs t u e g)) (record {
      done = r.done;
      fields_are = r.fields_are ∙ ap (drop n) k ∙ sym (ap (drop (suc n)) e);
      same_max = r.same_max ∙ m;
      same_inserted = r.same_inserted ∙ i;
      same_tracked = r.same_tracked ∙ c;
      valid = r.valid;
    })

-- Where an insertion or a new capacity may leave the fields: some of the oldest are gone, and there
-- may be one more.
pub record Keeps (t u : DynamicTable) (added : List HeaderField) : Type 0 where
  pub gone : ℕ
  pub fields_are : u.fields ≡ drop gone t.fields ++ added
  pub still_valid : IsValid u
  pub within : u.curr_size ≤ u.max_size
  pub tracked : u.track_map ≡ t.track_map

pub push_back-Keeps :
    (n : ℕ) (t : DynamicTable) (f : HeaderField)
    (r : Outcome DynamicTableError (Unit {0}) × DynamicTable)
    → Evicts n t r
    → sizes (drop n t.fields) + mem_size f ≤ t.max_size
    → ((push_back f r).0 ≡ ok (some (t.vas.inserted + 1))) × Keeps t (push_back f r).1 (f ∷ [])
unfolding push_back Vas.add
push_back-Keeps n t f (ok tt, u) e h = (
  ap (λ i. ok (some (i + 1))) e.same_inserted,
  record {
    gone = n;
    fields_are = ap (λ l. l ++ (f ∷ [])) e.fields_are;
    still_valid = record {
      size_is = omega (arith, sizes-append u.fields (f ∷ []), e.valid.size_is);
      balanced = omega (arith, e.valid.balanced);
      addressed = omega (arith, length-append u.fields (f ∷ []), e.valid.addressed);
    };
    within = omega (arith, e.valid.size_is, ap sizes e.fields_are, e.same_max);
    tracked = e.same_tracked;
  },
)
push_back-Keeps n t f (err x, u) e h = absurd (no_error e.done)
  where
    no_error : err x ≡ ok tt → ⊥
    no_error p = cc
push_back-Keeps n t f (panic, u) e h = absurd (no_panic e.done)
  where
    no_panic : ◌≡◌ {A = Outcome DynamicTableError (Unit {0})} panic (ok tt) → ⊥
    no_panic p = cc

keep_all : (t : DynamicTable) → IsValid t → t.curr_size ≤ t.max_size → Keeps t t []
keep_all t v h = record {
  gone = 0;
  fields_are = sym (append-nil t.fields);
  still_valid = v;
  within = h;
  tracked = refl;
}

-- What `insert` gives: the address of the field, which is the last, or nothing and the table as it was.
abbrev pub Inserts :
    DynamicTable → HeaderField → Outcome DynamicTableError (Option ℕ) × DynamicTable → Type 0
Inserts t f (ok (some a), u) = (a ≡ t.vas.inserted + 1) × Keeps t u (f ∷ [])
Inserts t f (ok none, u) = u ≡ t
Inserts t f (err e, u) = u ≡ t
Inserts t f (panic, u) = ⊥

inserted :
    (t : DynamicTable) (f : HeaderField) (a : ℕ)
    (r : Outcome DynamicTableError (Option ℕ) × DynamicTable)
    → r.0 ≡ ok (some a)
    → a ≡ t.vas.inserted + 1
    → Keeps t r.1 (f ∷ [])
    → Inserts t f r
inserted t f a (o, u) e h k = subst (λ o. Inserts t f (o, u)) (sym e) (h, k)

-- On a table whose size is that of its fields and within its capacity, and whose fields have the
-- addresses of its space, whatever references it tracks, insert does not panic: it gives the next
-- address, with some of the oldest fields gone, the new one the last and the size within the
-- capacity, or it leaves the table as it was.
pub insert-Inserts :
    (f : HeaderField) (t : DynamicTable)
    → IsValid t
    → t.curr_size ≤ t.max_size
    → Inserts t f (insert f t)
unfolding insert insert_freed
insert-Inserts f t v h =
    if_rule (Inserts t f) (t.max_size == 0) _ _ (λ _. refl)
      (λ _. freed (can_free (mem_size f) t) (can_free-Frees (mem_size f) t v h))
  where
    freed :
        (o : Outcome DynamicTableError (Option ℕ))
        → Frees (mem_size f) t o
        → Inserts t f (insert_freed f o t)
    freed (ok none) p = refl
    freed (ok (some n)) (p, q) =
        let (a, k) = push_back-Keeps n t f (evict n t) (evict-Evicts n t t.fields v refl p) q in
        inserted t f (t.vas.inserted + 1) (push_back f (evict n t)) a refl k
    freed (err e) p = refl
    freed panic p = p

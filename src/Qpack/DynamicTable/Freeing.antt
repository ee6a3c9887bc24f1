-- ===== src/Qpack/DynamicTable/Freeing.antt =====
-- What `can_free` finds in a table whose size is that of its fields.
use h.Prelude.{
  ℕ, zero, suc, ◌+◌, ◌-◌, ◌≤◌, ◌<◌, ◌≡◌, ap, ◌∙◌, arith, List, [], ◌∷◌, ◌++◌, length, drop,
}
use h.Prelude.{
  Option, none, some, Outcome, ok, err, panic, ltb, leb, if_rule, ltb→lt, ltb→le, leb→le,
}
use h.Qpack.Field.{HeaderField, mem_size}
use h.Qpack.Vas
use h.Qpack.Vas.{VirtualAddressSpace}
use h.Qpack.Vas.Positions.{IsBalanced}
use h.Qpack.DynamicTable.{
  DynamicTable, DynamicTableError, is_tracked, evictable_loop, enough, can_free,
}

-- The size of some fields.
abbrev pub sizes : List HeaderField → ℕ
sizes [] = 0
sizes (f ∷ fs) = mem_size f + sizes fs

-- A table whose size is that of its fields, which have the addresses of its space.
pub record IsValid (t : DynamicTable) : Type 0 where
  pub size_is : t.curr_size ≡ sizes t.fields
  pub balanced : IsBalanced t.vas
  pub addressed : length t.fields ≡ t.vas.delta

pub sizes-append : (xs ys : List HeaderField) → sizes (xs ++ ys) ≡ sizes xs + sizes ys
sizes-append [] ys = omega arith
sizes-append (x ∷ xs) ys = omega (arith, sizes-append xs ys)

pub sizes-drop : (k : ℕ) (fs : List HeaderField) → sizes (drop k fs) ≤ sizes fs
sizes-drop zero fs = omega arith
sizes-drop (suc k) [] = omega arith
sizes-drop (suc k) (f ∷ fs) = omega (arith, sizes-drop k fs)

-- What the loop of `can_free` finds: the size behind the fields that it counts.
pub Found : List HeaderField → ℕ → ℕ → Option (ℕ × ℕ) → Type 0
Found fields evictable lower none = ⊥
Found fields evictable lower (some (n, mem)) =
    (k : ℕ) × (n ≡ evictable + k) × (k ≤ length fields) × (mem ≡ sizes (drop k fields))

pub index_ok : (v : VirtualAddressSpace) (i : ℕ) → i < v.delta → (a : ℕ) × (Vas.index v i ≡ ok a)
unfolding Vas.index
index_ok v i h = (i + v.dropped + 1, ground arith)

pub Found-later :
    (f : HeaderField) (fs : List HeaderField) (evictable lower : ℕ) (o : Option (ℕ × ℕ))
    → Found fs (evictable + 1) lower o
    → Found (f ∷ fs) evictable lower o
unfolding Found
Found-later f fs evictable lower none h = h
Found-later f fs evictable lower (some (n, mem)) (k, p, q, r) = (suc k, omega arith, omega arith, r)

pub evictable_loop-Found :
    (t : DynamicTable) (lower : ℕ) (fields : List HeaderField) (idx mem evictable : ℕ)
    → idx + length fields ≡ t.vas.delta
    → mem ≡ sizes fields
    → Found fields evictable lower (evictable_loop t lower fields idx mem evictable)
unfolding evictable_loop Found
evictable_loop-Found t lower [] idx mem evictable h e = (0, omega arith, omega arith, e)
evictable_loop-Found t lower (f ∷ fs) idx mem evictable h e =
    let (a, i) = index_ok t.vas idx (omega arith) in
    let stop : Found (f ∷ fs) evictable lower (some (evictable, mem)) =
      (0, omega arith, omega arith, e) in
    if_rule (Found (f ∷ fs) evictable lower) (leb mem lower) _ _ (λ _. stop)
      (λ _. rw i (
        if_rule (Found (f ∷ fs) evictable lower) (is_tracked t a) _ _ (λ _. stop)
          (λ _.
            if_rule (Found (f ∷ fs) evictable lower) (ltb mem (mem_size f)) _ _
              (λ l. absurd (omega (arith, ltb→lt mem (mem_size f) l)))
              (λ _.
                Found-later f fs evictable lower
                  (evictable_loop t lower fs (idx + 1) (mem - mem_size f) (evictable + 1))
                  (evictable_loop-Found t lower fs (idx + 1) (mem - mem_size f) (evictable + 1)
                    (omega arith) (omega arith))))))

-- What `can_free` promises: no panic, and as many fields as leave the room that is asked for.
abbrev pub Frees : ℕ → DynamicTable → Outcome DynamicTableError (Option ℕ) → Type 0
Frees required t (ok (some n)) =
    (n ≤ length t.fields) × (sizes (drop n t.fields) + required ≤ t.max_size)
Frees required t (ok none) = Unit {0}
Frees required t (err e) = Unit {0}
Frees required t panic = ⊥

pub enough-Frees :
    (required lower : ℕ) (t : DynamicTable) (o : Option (ℕ × ℕ))
    → Found t.fields 0 lower o
    → sizes t.fields ≤ t.max_size
    → Frees required t (enough t.max_size required o)
unfolding Found enough
enough-Frees required lower t none h l = h
enough-Frees required lower t (some (n, mem)) (k, p, q, r) l =
    let less = sizes-drop k t.fields in
    let same : sizes (drop n t.fields) ≡ sizes (drop k t.fields) =
      ap (λ i. sizes (drop i t.fields)) (p ∙ omega arith) in
    if_rule (Frees required t) (ltb t.max_size mem) _ _
      (λ c. absurd (omega (arith, ltb→lt t.max_size mem c)))
      (λ d.
        if_rule (Frees required t) (leb required (t.max_size - mem)) _ _
          (λ c. (
            omega arith,
            omega (arith, same, r, leb→le required (t.max_size - mem) c, ltb→le t.max_size mem d),
          ))
          (λ _. tt))

pub can_free-Frees :
    (required : ℕ) (t : DynamicTable)
    → IsValid t
    → t.curr_size ≤ t.max_size
    → Frees required t (can_free required t)
unfolding can_free
can_free-Frees required t v h =
    if_rule (Frees required t) (ltb t.max_size required) _ _ (λ _. tt)
      (λ l.
        if_rule (Frees required t) (ltb t.max_size t.curr_size) _ _
          (λ p. absurd (omega (arith, ltb→lt t.max_size t.curr_size p)))
          (λ _.
            if_rule (Frees required t) (leb required (t.max_size - t.curr_size)) _ _
              (λ p. (
                omega arith,
                omega (arith, v.size_is, leb→le required (t.max_size - t.curr_size) p, h),
              ))
              (λ _.
                enough-Frees required (t.max_size - required) t
                  (evictable_loop t (t.max_size - required) t.fields 0 t.curr_size 0)
                  (evictable_loop-Found t (t.max_size - required) t.fields 0 t.curr_size 0
                    (omega (arith, v.addressed)) v.size_is)
                  (omega (arith, v.size_is)))))

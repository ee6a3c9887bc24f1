-- ===== src/Qpack/Static/Inverse.antt =====
-- The lookups of the static table and its entries agree.
use h.Prelude.{
  ℕ, zero, suc, ◌+◌, ◌≡◌, refl, ap, sym, ◌∙◌, arith, Bool, true, false, ◌&&◌, List, [], ◌∷◌, Option,
  none, some, Outcome, ok, err, panic,
}
use h.Prelude.{◌==◌, if◌then◌else◌, get_elem?, Bool-cases, inl, inr}
use mathlib.Core.Path.{subst}
use h.Qpack.Field.{HeaderField, same_bytes}
use h.Qpack.Static.{get, predefined_headers, StaticError, unknown}
use h.Qpack.Static.Lookup.{
  same_field, match_field, field_arms, find, match_name, name_arms, find_name,
}

same_bytes-eq : (a b : List ℕ) → same_bytes a b ≡ true → a ≡ b
same_bytes-eq [] [] h = refl
same_bytes-eq [] (b ∷ bs) h = absurd (cc)
same_bytes-eq (a ∷ xs) [] h = absurd (cc)
same_bytes-eq (a ∷ xs) (b ∷ bs) h = ground (arith, same_bytes-eq xs bs)

same_field-eq : (f g : HeaderField) → same_field f g ≡ true → f ≡ g
same_field-eq f g h =
    record_eq f g (same_bytes-eq f.name g.name (ground arith))
      (same_bytes-eq f.value g.value (ground arith))
  where
    record_eq : (f g : HeaderField) → f.name ≡ g.name → f.value ≡ g.value → f ≡ g
    record_eq f g p q = λ i. record { name = p i; value = q i }

-- An arm whose number is that of its field in the table.
agrees : HeaderField × ℕ → Bool
agrees (f, i) = elim (get i) [ ok g ↦ same_field g f | err e ↦ false | panic ↦ false ]

every : {A : Type 0} → (A → Bool) → List A → Bool
every P [] = true
every P (a ∷ l) = P a && every P l

both : (a b : Bool) → (a && b) ≡ true → (a ≡ true) × (b ≡ true)
both true b h = (refl, h)
both false b h = absurd (cc)

first_arm :
    (c : Bool) (j i : ℕ) (o : Option ℕ) → c ≡ true → (if c then some j else o) ≡ some i → j ≡ i
first_arm c j i o p e = ground (arith)

other_arm :
    (c : Bool) (j i : ℕ) (o : Option ℕ)
    → c ≡ false
    → (if c then some j else o) ≡ some i
    → o ≡ some i
other_arm c j i o p e = ground (arith)

-- The first arm that fits, where every arm has what `P` tests.
match_field-found :
    (P : HeaderField × ℕ → Bool) (f : HeaderField) (i : ℕ) (arms : List (HeaderField × ℕ))
    → every P arms ≡ true
    → match_field f arms ≡ some i
    → P (f, i) ≡ true
unfolding match_field every
match_field-found P f i [] h e = absurd (cc)
match_field-found P f i ((g, j) ∷ arms) h e = elim (Bool-cases (same_field f g)) [
  | inl p ↦
      let q = same_field-eq f g p in
      let k = first_arm (same_field f g) j i (match_field f arms) p e in
      subst (λ t. P t ≡ true) (λ z. (sym q z, k z)) (both (P (g, j)) (every P arms) h).0
  | inr p ↦
      match_field-found P f i arms (both (P (g, j)) (every P arms) h).1
        (other_arm (same_field f g) j i (match_field f arms) p e)
]

arms_agree : every agrees field_arms ≡ true
unfolding get every agrees
arms_agree = refl

-- A field that find finds stands in the static table at the index found.
pub get-find : (f : HeaderField) (i : ℕ) → find f ≡ some i → get i ≡ ok f
unfolding find agrees
get-find f i e = there (get i) (match_field-found agrees f i field_arms arms_agree e)
  where
    there :
        (r : Outcome StaticError HeaderField)
        → (elim r [ ok g ↦ same_field g f | err e ↦ false | panic ↦ false ]) ≡ true
        → r ≡ ok f
    there (ok g) h = ap ok (same_field-eq g f h)
    there (err e) h = absurd (cc)
    there panic h = absurd (cc)

-- Whether the field at each index is found at that index again.
found : List HeaderField → ℕ → Bool
found [] i = true
found (f ∷ fs) i = elim (find f) [ some j ↦ j == i && found fs (i + 1) | none ↦ false ]

table_found : found predefined_headers 0 ≡ true
unfolding found find match_field
table_found = refl

found_first :
    (o : Option ℕ) (k : ℕ) (b : Bool)
    → (elim o [ some j ↦ j == k && b | none ↦ false ]) ≡ true
    → (o ≡ some k) × (b ≡ true)
found_first (some j) k b h = (ground arith, ground arith)
found_first none k b h = absurd (cc)

found_at :
    (fs : List HeaderField) (k i : ℕ) (f : HeaderField)
    → found fs k ≡ true
    → get_elem? fs i ≡ some f
    → find f ≡ some (k + i)
unfolding found
found_at [] k i f h e = absurd (cc)
found_at (g ∷ fs) k zero f h e =
    let p : g ≡ f = the_same g f e in
    ap find (sym p) ∙ (found_first (find g) k (found fs (k + 1)) h).0 ∙ ap some (omega arith)
  where
    the_same : (g f : HeaderField) → some g ≡ some f → g ≡ f
    the_same g f e = cc
found_at (g ∷ fs) k (suc i) f h e =
    found_at fs (k + 1) i f (found_first (find g) k (found fs (k + 1)) h).1 e
    ∙ ap some (omega arith)

-- Every field of the static table is found by find at its index, so that no field stands in it
-- twice.
pub find-get : (i : ℕ) (f : HeaderField) → get i ≡ ok f → find f ≡ some i
unfolding get
find-get i f e =
    found_at predefined_headers 0 i f table_found (there (get_elem? predefined_headers i) e)
    ∙ ap some (omega arith)
  where
    there :
        (o : Option HeaderField)
        → (elim o [ some f ↦ ok f | none ↦ err (unknown i) ]) ≡ ok f
        → o ≡ some f
    there (some g) h = cc
    there none h = absurd (cc)

name_agrees : List ℕ × ℕ → Bool
name_agrees (n, i) = elim (get i) [ ok g ↦ same_bytes g.name n | err e ↦ false | panic ↦ false ]

names_agree : every name_agrees name_arms ≡ true
unfolding get every name_agrees
names_agree = refl

match_name-found :
    (P : List ℕ × ℕ → Bool) (n : List ℕ) (i : ℕ) (arms : List (List ℕ × ℕ))
    → every P arms ≡ true
    → match_name n arms ≡ some i
    → P (n, i) ≡ true
unfolding match_name every
match_name-found P n i [] h e = absurd (cc)
match_name-found P n i ((m, j) ∷ arms) h e = elim (Bool-cases (same_bytes n m)) [
  | inl p ↦
      let q = same_bytes-eq n m p in
      let k = first_arm (same_bytes n m) j i (match_name n arms) p e in
      subst (λ t. P t ≡ true) (λ z. (sym q z, k z)) (both (P (m, j)) (every P arms) h).0
  | inr p ↦
      match_name-found P n i arms (both (P (m, j)) (every P arms) h).1
        (other_arm (same_bytes n m) j i (match_name n arms) p e)
]

-- At the index that find_name finds stands a field of that name.
pub get-find_name :
    (n : List ℕ) (i : ℕ) → find_name n ≡ some i → (f : HeaderField) × (get i ≡ ok f) × (f.name ≡ n)
unfolding find_name name_agrees
get-find_name n i e = there (get i) (match_name-found name_agrees n i name_arms names_agree e)
  where
    there :
        (r : Outcome StaticError HeaderField)
        → (elim r [ ok g ↦ same_bytes g.name n | err e ↦ false | panic ↦ false ]) ≡ true
        → (f : HeaderField) × (r ≡ ok f) × (f.name ≡ n)
    there (ok g) h = (g, refl, same_bytes-eq g.name n h)
    there (err e) h = absurd (cc)
    there panic h = absurd (cc)

-- ===== src/Proto/Settings/Table.antt =====
-- The array of settings as a bounded map from identifiers to values.
use mathlib.Core.Path.{subst}
use h.Prelude.{ℕ, zero, suc, ◌+◌, ◌≤◌, ◌<◌, ◌≡◌, ◌≢◌, refl, ◌∙◌, arith, false, ◌||◌}
use h.Prelude.{List, [], ◌∷◌, ◌++◌, some, ok, inl, inr}
use h.Prelude.{length, take, drop, set, length-set, take-set, ◌⊎◌, All}
use native.Mathlib.Numerals.{add-one}
use native.Mathlib.Decide.{ℕ_discrete}
use h.Proto.Settings.{
  Settings, empty, has_id, used, insert, get, find_entry, settings_len, no_setting,
}

-- No identifier occurs twice.
abbrev pub Distinct : List (ℕ × ℕ) → Type 0
Distinct [] = Unit {0}
Distinct ((i, v) ∷ es) = (has_id i es ≡ false) × Distinct es

-- An entry that is not in use.
abbrev pub HasNoId : ℕ × ℕ → Type 0
HasNoId e = e.0 ≡ no_setting

pub record IsValid (s : Settings) : Type 0 where
  pub full : length s.entries ≡ settings_len
  pub within : s.len ≤ settings_len
  pub distinct : Distinct (used s)
  pub padded : All HasNoId (drop s.len s.entries)

pub empty-IsValid : IsValid empty
unfolding empty
empty-IsValid = ground arith

pub has_id-append :
    (id : ℕ) (es fs : List (ℕ × ℕ)) → has_id id (es ++ fs) ≡ (has_id id es || has_id id fs)
unfolding has_id
has_id-append id [] fs = refl
has_id-append id ((i, v) ∷ es) fs = ground (arith, has_id-append id es fs)

pub Distinct-append :
    (es : List (ℕ × ℕ)) (id v : ℕ)
    → Distinct es
    → has_id id es ≡ false
    → Distinct (es ++ ((id, v) ∷ []))
unfolding has_id
Distinct-append [] id v d h = (refl, tt)
Distinct-append ((i, w) ∷ es) id v d h = (
  ground (arith, has_id-append i es ((id, v) ∷ []), d.0),
  Distinct-append es id v d.1 (ground arith),
)

-- What a successful `insert` adds to the pairs in use.
pub insert-used :
    (s : Settings) (id v : ℕ) {s' : Settings}
    → insert s id v ≡ ok s'
    → (used s' ≡ used s ++ ((id, v) ∷ []))
      × (has_id id (used s) ≡ false)
      × (s'.len ≡ s.len + 1)
      × (length s'.entries ≡ length s.entries)
      × (s.len < length s.entries)
unfolding insert
insert-used s id v e =
    ground
      (arith, take-set s.entries s.len (id, v), length-set s.entries s.len (id, v), add-one s.len)

drop-set-All :
    (xs : List (ℕ × ℕ)) (i : ℕ) (e : ℕ × ℕ)
    → All HasNoId (drop i xs)
    → All HasNoId (drop (suc i) (set xs i e))
drop-set-All [] i e h = tt
drop-set-All (x ∷ xs) zero e h = h.1
drop-set-All (x ∷ xs) (suc i) e h = drop-set-All xs i e h

insert-padded :
    (s : Settings) (id v : ℕ) {s' : Settings}
    → All HasNoId (drop s.len s.entries)
    → insert s id v ≡ ok s'
    → All HasNoId (drop s'.len s'.entries)
unfolding insert
insert-padded s id v {s'} h e =
    let written : Settings = record s { entries = set s.entries s.len (id, v); len = suc s.len } in
    let p : written ≡ s' = ground (arith, add-one s.len) in
    subst (λ t. All HasNoId (drop t.len t.entries)) p (drop-set-All s.entries s.len (id, v) h)

-- A successful insert keeps the table valid: eight slots, the used ones with distinct identifiers,
-- the others empty.
pub insert-IsValid :
    (s : Settings) (id v : ℕ) {s' : Settings} → IsValid s → insert s id v ≡ ok s' → IsValid s'
insert-IsValid s id v h e =
    let (grown, fresh, len, kept, room) = insert-used s id v e in
    record {
      full = kept ∙ h.full;
      within = omega (arith, h.full);
      distinct = rw grown (Distinct-append (used s) id v h.distinct fresh);
      padded = insert-padded s id v h.padded e;
    }

find_entry-set :
    (xs : List (ℕ × ℕ)) (i id v : ℕ)
    → i < length xs
    → has_id id (take i xs) ≡ false
    → find_entry id (set xs i (id, v)) ≡ some v
unfolding find_entry has_id
find_entry-set [] i id v h f = absurd (omega arith)
find_entry-set (x ∷ xs) zero id v h f = ground arith
find_entry-set (x ∷ xs) (suc i) id v h f = ground (arith, find_entry-set xs i id v)

find_entry-set_ne :
    (xs : List (ℕ × ℕ)) (i id v j : ℕ)
    → All HasNoId (drop i xs)
    → j ≢ id
    → j ≢ no_setting
    → find_entry j (set xs i (id, v)) ≡ find_entry j xs
unfolding find_entry
find_entry-set_ne [] i id v j h p q = refl
find_entry-set_ne (x ∷ xs) zero id v j h p q = ground (arith, h.0)
find_entry-set_ne (x ∷ xs) (suc i) id v j h p q =
    ground (arith, find_entry-set_ne xs i id v j h p q)

-- After a successful insert into a valid table, get finds the value inserted, and any other
-- identifier but 0 as before.
pub get-insert :
    (s : Settings) (id v j : ℕ) {s' : Settings}
    → IsValid s
    → insert s id v ≡ ok s'
    → (get s' id ≡ some v) × ((j ≡ id) ⊎ (j ≡ no_setting) ⊎ (get s' j ≡ get s j))
unfolding get insert
get-insert s id v j h e = elim (ℕ_discrete j id) [
  | yes p ↦ (ground (arith, find_entry-set s.entries s.len id v), inl p)
  | no p ↦ elim (ℕ_discrete j no_setting) [
    | yes q ↦ (ground (arith, find_entry-set s.entries s.len id v), inr (inl q))
    | no q ↦ (
      ground (arith, find_entry-set s.entries s.len id v),
      inr (inr (ground (arith, find_entry-set_ne s.entries s.len id v j h.padded p q))),
    )
  ]
]

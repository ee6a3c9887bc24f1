-- ===== src/Proto/Settings/Parse.antt =====
-- What `Settings::decode` accepts, and that it reads back what `Settings::encode` wrote.
use h.Prelude.{ℕ, zero, suc, ◌+◌, ◌≤◌, ◌<◌, ◌≡◌, ◌≢◌, refl, ap, sym, ◌∙◌, arith, true, false}
use h.Prelude.{List, [], ◌∷◌, ◌++◌, some, Outcome, ok, err, panic, inl, inr}
use h.Prelude.{
  length, All, IsByte, Ensures, Ensures-bind, Ensures-map_error, if_rule, ltb, map_err,
  append_assoc, append-nil, length-append,
}
use h.Proto.VarInt
use mathlib.Core.Path.{subst}
use h.Prelude.{◌⊎◌, set, ⊕-eq-some, length-take}
use h.Proto.VarInt.{IsVarInt, UnexpectedEnd}
use h.Proto.VarInt.Bounds.{decode-Progress, Leaves, write_var-encode}
use h.Proto.VarInt.RoundTrip.{decode-encode}
use h.Proto.Settings.{
  Settings, SettingsError, empty, has_id, used, insert, settings_len, is_supported, is_forbidden,
  accept, decode_entry, decode_loop, decode, encode_entries, to_malformed,
}
use h.Proto.Settings.Table.{
  IsValid, empty-IsValid, insert-used, insert-IsValid, Distinct, has_id-append,
}

-- A setting that the decoder may keep.
pub record IsKept (e : ℕ × ℕ) : Type 0 where
  pub supported : is_supported e.0 ≡ true
  pub allowed : is_forbidden e.0 ≡ false
  pub id_fits : IsVarInt e.0
  pub value_fits : IsVarInt e.1

pub record IsAccepted (s : Settings) : Type 0 where
  pub valid : IsValid s
  pub kept : All IsKept (used s)

All-snoc : (es : List (ℕ × ℕ)) (e : ℕ × ℕ) → All IsKept es → IsKept e → All IsKept (es ++ (e ∷ []))
All-snoc [] e h k = (k, tt)
All-snoc (x ∷ es) e h k = (h.0, All-snoc es e h.1 k)

accept_inversion :
    (s : Settings) (id v : ℕ) {s' : Settings}
    → accept s id v ≡ ok s'
    → (s ≡ s') ⊎ ((is_forbidden id ≡ false) × (is_supported id ≡ true) × (insert s id v ≡ ok s'))
unfolding accept
accept_inversion s id v e = ground arith

-- A pair that the loop accepts leaves the table as it was or extends it.
accept-IsAccepted :
    (s : Settings) (id v : ℕ) {s' : Settings}
    → IsAccepted s
    → IsVarInt id
    → IsVarInt v
    → accept s id v ≡ ok s'
    → IsAccepted s'
accept-IsAccepted s id v {s'} h fi fv e = elim (accept_inversion s id v e) [
  | inl same ↦ subst IsAccepted same h
  | inr (a, u, i) ↦ record {
    valid = insert-IsValid s id v h.valid i;
    kept = rw ((insert-used s id v i).0) (
        All-snoc (used s) (id, v) h.kept
          (record { supported = u; allowed = a; id_fits = fi; value_fits = fv }));
  }
]

accept-ne-panic : (s : Settings) (id v : ℕ) → accept s id v ≢ panic
unfolding accept insert
accept-ne-panic s id v = ground arith

abbrev Round : List ℕ → Outcome SettingsError Settings × List ℕ → Type 0
Round buf = Ensures (λ s rest. IsAccepted s × Leaves 2 buf rest) (λ _ _. Unit {0})

accept_round :
    (s : Settings) (id v : ℕ) (buf rest : List ℕ)
    → IsAccepted s
    → IsVarInt id
    → IsVarInt v
    → Leaves 2 buf rest
    → Round buf (accept s id v, rest)
accept_round s id v buf rest h fi fv l = go (accept s id v) refl
  where
    go : (o : Outcome SettingsError Settings) → accept s id v ≡ o → Round buf (o, rest)
    go (ok t) e = (accept-IsAccepted s id v h fi fv e, l)
    go (err x) e = tt
    go panic e = accept-ne-panic s id v e

decode_entry_round :
    (s : Settings) (buf : List ℕ) → IsAccepted s → All IsByte buf → Round buf (decode_entry s buf)
unfolding decode_entry
decode_entry_round s buf h b =
    if_rule (Round buf) (ltb (length buf) 2) _ _ (λ _. tt)
      λ _.
        Ensures-bind Q1 Q3 (λ _ _. Unit {0}) (map_err to_malformed VarInt.decode buf) _
          (lifted buf b)
          λ id rest (fi, l).
            Ensures-bind (Q2 rest) Q3 (λ _ _. Unit {0}) (map_err to_malformed VarInt.decode rest) _
              (lifted rest l.0)
              λ v rest2 (fv, l2). accept_round s id v buf rest2 h fi fv (l2.0, omega arith)
  where
    Q1 : ℕ → List ℕ → Type 0
    Q1 v rest = IsVarInt v × Leaves 1 buf rest

    Q2 : List ℕ → ℕ → List ℕ → Type 0
    Q2 from v rest = IsVarInt v × Leaves 1 from rest

    Q3 : Settings → List ℕ → Type 0
    Q3 t rest = IsAccepted t × Leaves 2 buf rest

    lifted :
        (r : List ℕ)
        → All IsByte r
        → Ensures (Q2 r) (λ _ _. Unit {0}) (map_err to_malformed VarInt.decode r)
    lifted r k =
        Ensures-map_error (Q2 r) (Q2 r) (λ _ rest. Leaves 0 r rest) (λ _ _. Unit {0}) to_malformed
          (VarInt.decode r) (decode-Progress r k) (λ _ _ q. q) (λ _ _ _. tt)

decode_loop-IsAccepted :
    (fuel : ℕ) (s : Settings) (buf : List ℕ)
    → IsAccepted s
    → All IsByte buf
    → length buf ≤ fuel
    → Ensures (λ t rest. IsAccepted t × (rest ≡ [])) (λ _ _. Unit {0}) (decode_loop fuel s buf)
unfolding decode_loop
decode_loop-IsAccepted fuel s [] h b f = (h, refl)
decode_loop-IsAccepted zero s (x ∷ r) h b f = absurd (omega arith)
decode_loop-IsAccepted (suc fuel) s (x ∷ r) h b f =
    Ensures-bind (λ t rest. IsAccepted t × Leaves 2 (x ∷ r) rest)
      (λ t rest. IsAccepted t × (rest ≡ [])) (λ _ _. Unit {0}) (decode_entry s (x ∷ r))
      (decode_loop fuel) (decode_entry_round s (x ∷ r) h b)
      λ t rest (k, l). decode_loop-IsAccepted fuel t rest k l.0 (omega arith)

-- Settings::decode of any bytes does not panic; the settings that it gives form a valid table of
-- supported, allowed identifiers with values that a variable-length integer holds, and no byte is
-- left.
pub decode-IsAccepted :
    (buf : List ℕ)
    → All IsByte buf
    → Ensures (λ s rest. IsAccepted s × (rest ≡ [])) (λ _ _. Unit {0}) (decode buf)
unfolding decode empty
decode-IsAccepted buf b =
    decode_loop-IsAccepted (length buf) empty buf (record { valid = empty-IsValid; kept = tt }) b
      (omega arith)

encode-length : (v : ℕ) (bs : List ℕ) → VarInt.encode v ≡ some bs → 1 ≤ length bs
unfolding VarInt.encode
encode-length v bs e = ground arith

decode_entry_reads :
    (s : Settings) (id v : ℕ) (a b c : List ℕ)
    → VarInt.encode id ≡ some a
    → VarInt.encode v ≡ some b
    → decode_entry s (a ++ (b ++ c)) ≡ (accept s id v, c)
unfolding decode_entry
decode_entry_reads s id v a b c ea eb = ground (
  arith,
  decode-encode id a (b ++ c) ea,
  decode-encode v b c eb,
  encode-length id a ea,
  encode-length v b eb,
  length-append a (b ++ c),
  length-append b c,
)

decode_loop_step :
    (fuel : ℕ) (s : Settings) (buf : List ℕ) {t : Settings} {rest : List ℕ}
    → 0 < length buf
    → decode_entry s buf ≡ (ok t, rest)
    → decode_loop (suc fuel) s buf ≡ decode_loop fuel t rest
unfolding decode_loop
decode_loop_step fuel s [] h e = absurd (omega arith)
decode_loop_step fuel s (x ∷ r) h e = rw e

-- A table that can take all of `es`, in this order.
record CanTake (s : Settings) (es : List (ℕ × ℕ)) : Type 0 where
  valid : IsValid s
  kept : All IsKept es
  fresh : Distinct (used s ++ es)
  room : s.len + length es ≤ settings_len

Distinct-middle :
    (es fs : List (ℕ × ℕ)) (id v : ℕ) → Distinct (es ++ ((id, v) ∷ fs)) → has_id id es ≡ false
unfolding has_id
Distinct-middle [] fs id v d = refl
Distinct-middle ((i, w) ∷ es) fs id v d =
    ground (arith, has_id-append i es ((id, v) ∷ fs), Distinct-middle es fs id v d.1)

accept_next :
    (s : Settings) (id v : ℕ) (es : List (ℕ × ℕ))
    → CanTake s ((id, v) ∷ es)
    → (t : Settings) × (accept s id v ≡ ok t) × (insert s id v ≡ ok t) × CanTake t es
accept_next s id v es c =
    let t : Settings = record s { entries = set s.entries s.len (id, v); len = s.len + 1 } in
    let new = Distinct-middle (used s) es id v c.fresh in
    let i : insert s id v ≡ ok t = unfold insert in ground (arith, c.valid.full, c.room) in
    let a : accept s id v ≡ ok t =
      unfold accept in ground (arith, c.kept.0.supported, c.kept.0.allowed, i) in
    let (grown, _, len, _, _) = insert-used s id v i in
    (
      t,
      a,
      i,
      record {
        valid = insert-IsValid s id v c.valid i;
        kept = c.kept.1;
        fresh =
            subst Distinct
              (sym (append_assoc (used s) ((id, v) ∷ []) es) ∙ ap (λ u. u ++ es) (sym grown))
              c.fresh;
        room = omega (arith, c.room);
      },
    )

-- Every list of pairs that fits a `VarInt` is written, the first pair in front.
encode_entries_inversion :
    (id v : ℕ) (es : List (ℕ × ℕ)) {bs : List ℕ}
    → encode_entries ((id, v) ∷ es) ≡ some bs
    → (a : List ℕ) × (b : List ℕ) × (c : List ℕ) × (VarInt.encode id ≡ some a)
      × (VarInt.encode v ≡ some b)
      × (encode_entries es ≡ some c)
      × (bs ≡ a ++ (b ++ c))
unfolding encode_entries
encode_entries_inversion id v es {bs} e =
    let (a, r, ea, er, p) = ⊕-eq-some (VarInt.write_var id) _ e in
    let (b, c, eb, ec, q) = ⊕-eq-some (VarInt.write_var v) _ er in
    (
      a,
      b,
      c,
      sym (write_var-encode id) ∙ ea,
      sym (write_var-encode v) ∙ eb,
      ec,
      p ∙ ap (λ t. a ++ t) q,
    )

decode_loop-encode :
    (es : List (ℕ × ℕ)) (fuel : ℕ) (s : Settings) (bs : List ℕ)
    → CanTake s es
    → encode_entries es ≡ some bs
    → length bs ≤ fuel
    → (t : Settings) × (decode_loop fuel s bs ≡ (ok t, [])) × (used t ≡ used s ++ es)
decode_loop-encode [] fuel s bs c e f =
    (s, unfold encode_entries decode_loop in ground arith, sym (append-nil _))
decode_loop-encode ((id, v) ∷ es) zero s bs c e f =
    let (x, y, z, ex, ey, ez, p) = encode_entries_inversion id v es e in
    absurd (omega (arith, ap length p, length-append x (y ++ z), encode-length id x ex))
decode_loop-encode ((id, v) ∷ es) (suc fuel) s bs c e f =
    let (x, y, z, ex, ey, ez, p) = encode_entries_inversion id v es e in
    let (t, a, i, c') = accept_next s id v es c in
    let read = decode_entry_reads s id v x y z ex ey in
    let (u, d, g) = decode_loop-encode es fuel t z c' ez (
      omega
        (arith, ap length p, length-append x (y ++ z), length-append y z, encode-length id x ex)) in
    (
      u,
      ap (decode_loop (suc fuel) s) p
          ∙ decode_loop_step fuel s (x ++ (y ++ z))
              (omega (arith, length-append x (y ++ z), encode-length id x ex)) (read ∙ rw a)
          ∙ d,
      g ∙ ap (λ w. w ++ es) ((insert-used s id v i).0) ∙ append_assoc (used s) ((id, v) ∷ []) es,
    )

-- The payload written for an accepted table is read back as a table with the same entries in use.
pub decode-encode_entries :
    (s : Settings) (bs : List ℕ)
    → IsAccepted s
    → encode_entries (used s) ≡ some bs
    → (t : Settings) × (decode bs ≡ (ok t, [])) × (used t ≡ used s)
unfolding decode empty
decode-encode_entries s bs h e =
    decode_loop-encode (used s) (length bs) empty bs
      (record {
        valid = empty-IsValid;
        kept = h.kept;
        fresh = h.valid.distinct;
        room = omega (arith, h.valid, length-take s.len s.entries);
      })
      e (omega arith)

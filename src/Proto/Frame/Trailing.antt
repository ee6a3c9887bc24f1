-- ===== src/Proto/Frame/Trailing.antt =====
-- GOAWAY, CANCEL_PUSH and MAX_PUSH_ID frames whose payload is shorter or longer than its one number,
-- and the SETTINGS frame.
use h.Prelude.{ℕ, ◌≡◌, refl, ap, ◌∙◌, arith, List, ◌++◌, Option, none, some, ok, err}
use h.Prelude.{length, ⊕-eq-some, length-append, ◌⊕◌, [], ◌∷◌, ◌⊎◌, inl, inr}
use mathlib.Core.Option
use h.Proto.VarInt
use h.Proto.VarInt.{unexpected_end, UnexpectedEnd}
use h.Proto.VarInt.Bounds.{write_var-encode, size-encode}
use h.Proto.Settings.{Settings, used, add_sizes, entries_len, encode_entries}
use h.Proto.Settings
use h.Proto.Settings.Parse.{IsAccepted, decode-encode_entries}
use h.Proto.Frame.{
  incomplete, settings, goaway, decode, decode_payload, goaway_type, goaway_payload,
  cancel_push_type, max_push_id_type, cancel_push_payload, max_push_id_payload, decode_push_id,
  encode_settings, settings_type, settings_payload, write_len,
}
use h.Proto.Frame.RoundTrip.{payload-decode, limited-whole, regroup}

-- The three types of frames that hold one number.
abbrev pub IsSimple : ℕ → Type 0
IsSimple ty = (ty ≡ cancel_push_type) ⊎ (ty ≡ goaway_type) ⊎ (ty ≡ max_push_id_type)

simple-payload_err :
    (ty len n : ℕ) (p q rest : List ℕ)
    → IsSimple ty
    → len ≡ length p
    → VarInt.decode p ≡ (err (unexpected_end n), q)
    → decode_payload ty len (p ++ rest) ≡ (err (incomplete n), q ++ rest)
unfolding decode_payload goaway_payload cancel_push_payload max_push_id_payload decode_push_id
simple-payload_err ty len n p q rest (inl k) l e =
    rw (k, l) (limited-whole cancel_push_payload p rest ∙ rw e)
simple-payload_err ty len n p q rest (inr (inl k)) l e =
    rw (k, l) (limited-whole goaway_payload p rest ∙ rw e)
simple-payload_err ty len n p q rest (inr (inr k)) l e =
    rw (k, l) (limited-whole max_push_id_payload p rest ∙ rw e)

-- A complete CANCEL_PUSH, GOAWAY or MAX_PUSH_ID frame whose payload ends inside its number, or is
-- empty, is reported as Incomplete, whatever follows it.
pub short_payload-incomplete :
    (ty n : ℕ) (a b p q rest : List ℕ)
    → IsSimple ty
    → VarInt.write_var ty ≡ some a
    → VarInt.write_var (length p) ≡ some b
    → VarInt.decode p ≡ (err (unexpected_end n), q)
    → decode (a ++ (b ++ (p ++ rest))) ≡ (err (incomplete n), q ++ rest)
short_payload-incomplete ty n a b p q rest s ea eb e =
    payload-decode ty p rest ea eb (λ x. ground arith) (λ x. ground arith)
    ∙ simple-payload_err ty (length p) n p q rest s refl e

-- A GOAWAY frame whose payload goes on behind its number is accepted, and the bytes behind the
-- number are left in front of the next frame.
pub long_payload-left :
    (v : ℕ) (a b p q rest : List ℕ)
    → VarInt.write_var goaway_type ≡ some a
    → VarInt.write_var (length p) ≡ some b
    → VarInt.decode p ≡ (ok v, q)
    → decode (a ++ (b ++ (p ++ rest))) ≡ (ok (goaway v), q ++ rest)
unfolding decode_payload goaway_payload
long_payload-left v a b p q rest ea eb e =
    payload-decode goaway_type p rest ea eb (λ x. ground arith) (λ x. ground arith)
    ∙ limited-whole goaway_payload p rest
    ∙ rw e

add_sizes-⊕ :
    (x y z : Option (List ℕ))
    → add_sizes (Option.map length x) (Option.map length y) (Option.map length z)
      ≡ Option.map length (x ⊕ y ⊕ z)
add_sizes-⊕ (some a) (some b) (some c) =
    ap some (omega (arith, length-append a (b ++ c), length-append b c))
add_sizes-⊕ (some a) (some b) none = refl
add_sizes-⊕ (some a) none z = refl
add_sizes-⊕ none y z = refl

-- The length that the header announces is that of the pairs.
entries_len-encode : (es : List (ℕ × ℕ)) → entries_len es ≡ Option.map length (encode_entries es)
unfolding entries_len encode_entries
entries_len-encode [] = refl
entries_len-encode ((id, v) ∷ es) =
    rw
      (
        size-encode id,
        size-encode v,
        entries_len-encode es,
        write_var-encode id,
        write_var-encode v,
      )
      (add_sizes-⊕ (VarInt.encode id) (VarInt.encode v) (encode_entries es))

-- An encoded SETTINGS frame of an accepted table, with any bytes behind it, is decoded to a table
-- with the same entries in use, with those bytes left.
pub settings-decode :
    (s : Settings.Settings) (bs rest : List ℕ)
    → IsAccepted s
    → encode_settings s ≡ some bs
    → (t : Settings.Settings) × (decode (bs ++ rest) ≡ (ok (settings t), rest)) × (used t ≡ used s)
unfolding encode_settings decode_payload settings_payload
settings-decode s bs rest h e =
    let (a, r, ea, er, p) = ⊕-eq-some (VarInt.write_var settings_type) _ e in
    let (b, c, eb, ec, q) = ⊕-eq-some (write_len (entries_len (used s))) _ er in
    let (t, d, g) = decode-encode_entries s c h ec in
    (
      t,
      ap decode (ap (λ x. x ++ rest) (p ∙ ap (λ x. a ++ x) q) ∙ regroup a b c rest)
          ∙ payload-decode settings_type c rest ea
              (rw (entries_len-encode (used s) ∙ ap (Option.map length) ec) at eb)
              (λ x. omega arith) (λ x. omega arith)
          ∙ limited-whole settings_payload c rest
          ∙ rw d,
      g,
    )

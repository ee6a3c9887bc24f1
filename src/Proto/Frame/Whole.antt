-- ===== src/Proto/Frame/Whole.antt =====
-- Bytes that arrive behind a frame do not change how the frame is decoded.
use h.Prelude.{ℕ, ◌≤◌, ◌≡◌, refl, arith, false}
use h.Prelude.{List, [], ◌∷◌, ◌++◌, Outcome, ok, err, panic, Reader, fail}
use h.Prelude.{
  length, take, drop, length-append, take-append_le, drop-append_le, append_assoc, ltb, ◌==◌,
  if_rule, ltb→le,
}
use h.Prelude.{Bool-cases, inl, inr, le→ltb}
use h.Proto.VarInt
use h.Proto.VarInt.{UnexpectedEnd, unexpected_end}
use h.Proto.Frame.{
  Frame, FrameError, unsupported_frame, unknown_frame, incomplete, decode, decode_body,
  decode_payload, decode_webtransport, limited, webtransport_bi_stream, data_type, headers_type,
  settings_type, cancel_push_type, push_promise_type, goaway_type, max_push_id_type,
  is_forbidden_type, headers_payload, settings_payload, cancel_push_payload, push_promise_payload,
  goaway_payload, max_push_id_payload, decode_after_len, decode_after_type,
}

-- A result with `more` bytes behind those that were left.
abbrev pub extend : {E A : Type 0} → List ℕ → Outcome E A × List ℕ → Outcome E A × List ℕ
extend more r = (r.0, r.1 ++ more)

-- A result other than the request for more bytes.
abbrev pub IsDefinite : {A : Type 0} → Outcome FrameError A → Type 0
IsDefinite (ok a) = Unit {0}
IsDefinite (err (incomplete n)) = ⊥
IsDefinite (err _) = Unit {0}
IsDefinite panic = ⊥

pub varint-append :
    (buf more : List ℕ) (v : ℕ) (rest : List ℕ)
    → VarInt.decode buf ≡ (ok v, rest)
    → VarInt.decode (buf ++ more) ≡ (ok v, rest ++ more)
unfolding VarInt.decode
varint-append [] more v rest e = absurd (cc)
varint-append (b ∷ r) more v rest e = ground (
  arith,
  length-append r more,
  take-append_le 1 r more,
  take-append_le 3 r more,
  take-append_le 7 r more,
  drop-append_le 1 r more,
  drop-append_le 3 r more,
  drop-append_le 7 r more,
)

limited-append :
    {E A : Type 0} (n : ℕ) (m : Reader E A) (buf more : List ℕ)
    → n ≤ length buf
    → limited n m (buf ++ more) ≡ extend more (limited n m buf)
limited-append n m buf more h =
    rw (take-append_le n buf more h, drop-append_le n buf more h)
      (rw (append_assoc (m (take n buf)).1 (drop n buf) more))

pub decode_payload-append :
    (ty len : ℕ) (buf more : List ℕ)
    → len ≤ length buf
    → decode_payload ty len (buf ++ more) ≡ extend more (decode_payload ty len buf)
unfolding decode_payload
decode_payload-append ty len buf more h =
    if_rule P (ty == headers_type) _ _ (λ _. limited-append len headers_payload buf more h)
      λ _.
        if_rule P (ty == settings_type) _ _ (λ _. limited-append len settings_payload buf more h)
          λ _.
            if_rule P (ty == cancel_push_type) _ _
              (λ _. limited-append len cancel_push_payload buf more h)
              λ _.
                if_rule P (ty == push_promise_type) _ _
                  (λ _. limited-append len push_promise_payload buf more h)
                  λ _.
                    if_rule P (ty == goaway_type) _ _
                      (λ _. limited-append len goaway_payload buf more h)
                      λ _.
                        if_rule P (ty == max_push_id_type) _ _
                          (λ _. limited-append len max_push_id_payload buf more h)
                          λ _.
                            if_rule P (is_forbidden_type ty) (fail (unsupported_frame ty))
                              (λ b. (err (unknown_frame ty), drop len b)) (λ _. refl)
                              (λ _. rw (drop-append_le len buf more h))
  where
    P : Reader FrameError (Frame ℕ) → Type 0
    P m = m (buf ++ more) ≡ extend more (m buf)

after_len-append :
    (ty len : ℕ) (buf more : List ℕ)
    → IsDefinite (decode_after_len ty len buf).0
    → decode_after_len ty len (buf ++ more) ≡ extend more (decode_after_len ty len buf)
unfolding decode_after_len
after_len-append ty len buf more d = elim (Bool-cases (ty == data_type)) [
  | inl a ↦ rw a
  | inr a ↦ elim (Bool-cases (ltb (length buf) len)) [
    | inl c ↦ absurd (rw (a, c) at d)
    | inr c ↦ let h = ltb→le _ _ c in rw (a, c, longer h) (decode_payload-append ty len buf more h)
  ]
]
  where
    longer : len ≤ length buf → ltb (length (buf ++ more)) len ≡ false
    longer h = le→ltb _ _ (omega (arith, length-append buf more))

body-append :
    (n m ty : ℕ) (buf more : List ℕ)
    → IsDefinite (decode_body n ty buf).0
    → decode_body m ty (buf ++ more) ≡ extend more (decode_body n ty buf)
unfolding decode_body
body-append n m ty buf more d = go (VarInt.decode buf) refl
  where
    go :
        (r : Outcome UnexpectedEnd ℕ × List ℕ)
        → VarInt.decode buf ≡ r
        → decode_body m ty (buf ++ more) ≡ extend more (decode_body n ty buf)
    go (ok len, rest) e =
        rw (e, varint-append buf more len rest e) (after_len-append ty len rest more (rw e at d))
    go (err x, rest) e = absurd (rw e at d)
    go (panic, rest) e = absurd (rw e at d)

webtransport-append :
    (buf more : List ℕ)
    → IsDefinite (decode_webtransport buf).0
    → decode_webtransport (buf ++ more) ≡ extend more (decode_webtransport buf)
unfolding decode_webtransport
webtransport-append buf more d = go (VarInt.decode buf) refl
  where
    go :
        (r : Outcome UnexpectedEnd ℕ × List ℕ)
        → VarInt.decode buf ≡ r
        → decode_webtransport (buf ++ more) ≡ extend more (decode_webtransport buf)
    go (ok id, rest) e = rw (e, varint-append buf more id rest e)
    go (err (unexpected_end n), rest) e = absurd (rw e at d)
    go (panic, rest) e = absurd (rw e at d)

after_type-append :
    (n m ty : ℕ) (buf more : List ℕ)
    → IsDefinite (decode_after_type n ty buf).0
    → decode_after_type m ty (buf ++ more) ≡ extend more (decode_after_type n ty buf)
unfolding decode_after_type
after_type-append n m ty buf more d = elim (Bool-cases (ty == webtransport_bi_stream)) [
  | inl a ↦ rw a (webtransport-append buf more (rw a at d))
  | inr a ↦ rw a (body-append n m ty buf more (rw a at d))
]

-- A result of Frame::decode other than a request for more bytes is the same when more bytes arrive
-- behind, which are left.
pub decode-append :
    (buf more : List ℕ)
    → IsDefinite (decode buf).0
    → decode (buf ++ more) ≡ extend more (decode buf)
unfolding decode
decode-append buf more d = go (VarInt.decode buf) refl
  where
    go :
        (r : Outcome UnexpectedEnd ℕ × List ℕ)
        → VarInt.decode buf ≡ r
        → decode (buf ++ more) ≡ extend more (decode buf)
    go (ok ty, rest) e =
        rw (e, varint-append buf more ty rest e)
          (after_type-append (length buf) (length (buf ++ more)) ty rest more (rw e at d))
    go (err x, rest) e = absurd (rw e at d)
    go (panic, rest) e = absurd (rw e at d)

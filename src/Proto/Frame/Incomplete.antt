-- ===== src/Proto/Frame/Incomplete.antt =====
-- The number in `FrameError::Incomplete` is a bound below which more bytes do not help.
use h.Prelude.{ℕ, ◌+◌, ◌≤◌, ◌<◌, ◌≡◌, refl, ap, ◌∙◌, arith, true, false}
use h.Prelude.{List, [], ◌∷◌, ◌++◌, Outcome, ok, err, panic, length, length-append, append-nil}
use h.Prelude.{ltb, ◌==◌, Bool-cases, inl, inr, lt→ltb, ltb→le, length-drop, le→ltb, ◌⊎◌}
use h.Proto.VarInt
use h.Proto.VarInt.{UnexpectedEnd, unexpected_end}
use h.Proto.VarInt.Bounds.{low_six}
use h.Proto.Frame.{
  Frame, FrameError, incomplete, decode, decode_after_type, decode_body, decode_after_len,
  decode_webtransport, data_type, webtransport_bi_stream,
}
use h.Proto.Frame.Whole.{varint-append, decode_payload-append}

-- With fewer than `min` bytes in all, `decode` asks for more.
abbrev pub IsLowerBound : List ℕ → ℕ → Type 0
IsLowerBound buf min =
    (more : List ℕ)
    → length (buf ++ more) < min
    → (n : ℕ) × ((decode (buf ++ more)).0 ≡ err (incomplete n))

-- A number that was read took a byte, and two where it does not fit six bits.
varint_size :
    (buf : List ℕ) (v : ℕ) (rest : List ℕ)
    → VarInt.decode buf ≡ (ok v, rest)
    → (length rest + 1 ≤ length buf) × (64 ≤ v → length rest + 2 ≤ length buf)
unfolding VarInt.decode
varint_size [] v rest e = absurd (cc)
varint_size (b ∷ r) v rest e =
    ground (arith, low_six b, length-drop 1 r, length-drop 3 r, length-drop 7 r)

-- The number in the error is at most two more than the bytes that there were.
varint_end :
    (buf : List ℕ) (n : ℕ) (rest : List ℕ)
    → VarInt.decode buf ≡ (err (unexpected_end n), rest)
    → n ≤ length buf + 2
unfolding VarInt.decode
varint_end [] n rest e = ground arith
varint_end (b ∷ r) n rest e = ground arith

nothing_more : (buf more : List ℕ) → length (buf ++ more) < length buf + 1 → buf ++ more ≡ buf
nothing_more buf [] h = append-nil buf
nothing_more buf (x ∷ more) h = absurd (omega (arith, length-append buf (x ∷ more)))

after_len_bound :
    (ty len : ℕ) (r more : List ℕ) (m : ℕ)
    → (decode_after_len ty len r).0 ≡ err (incomplete m)
    → length (r ++ more) + 2 < m
    → (n : ℕ) × ((decode_after_len ty len (r ++ more)).0 ≡ err (incomplete n))
unfolding decode_after_len
after_len_bound ty len r more m e h = elim (Bool-cases (ty == data_type)) [
  | inl a ↦ absurd (cc (rw a at e))
  | inr a ↦ elim (Bool-cases (ltb (length r) len)) [
    | inl c ↦ (2 + len, rw (a, still_short (rw (a, c) at e)))
    | inr c ↦ (
      m,
      rw (a, still_long c, decode_payload-append ty len r more (ltb→le _ _ c)) (rw (a, c) at e),
    )
  ]
]
  where
    still_short :
        ◌≡◌ {A = Outcome FrameError (Frame ℕ)} (err (incomplete (2 + len))) (err (incomplete m))
        → ltb (length (r ++ more)) len ≡ true
    still_short k = lt→ltb _ _ (ground arith)

    still_long : ltb (length r) len ≡ false → ltb (length (r ++ more)) len ≡ false
    still_long c = le→ltb _ _ (omega (arith, ltb→le _ _ c, length-append r more))

body_bound :
    (n k ty : ℕ) (r more : List ℕ) (m : ℕ)
    → (decode_body n ty r).0 ≡ err (incomplete m)
    → length (r ++ more) + 1 < m
    → (m ≡ n + 1) ⊎ ((j : ℕ) × ((decode_body k ty (r ++ more)).0 ≡ err (incomplete j)))
unfolding decode_body
body_bound n k ty r more m e h = go (VarInt.decode r) refl
  where
    go :
        (o : Outcome UnexpectedEnd ℕ × List ℕ)
        → VarInt.decode r ≡ o
        → (m ≡ n + 1) ⊎ ((j : ℕ) × ((decode_body k ty (r ++ more)).0 ≡ err (incomplete j)))
    go (ok len, rest) p =
        let (j, q) = after_len_bound ty len rest more m (rw p at e) (
          omega (arith, length-append r more, length-append rest more, varint_size r len rest p)) in
        inr (j, rw (varint-append r more len rest p) q)
    go (err x, rest) p = inl (ground (arith, rw p at e))
    go (panic, rest) p = absurd (cc (rw p at e))

webtransport_bound :
    (r : List ℕ) (m : ℕ) → (decode_webtransport r).0 ≡ err (incomplete m) → m ≤ length r + 2
unfolding decode_webtransport
webtransport_bound r m e = go (VarInt.decode r) refl
  where
    go : (o : Outcome UnexpectedEnd ℕ × List ℕ) → VarInt.decode r ≡ o → m ≤ length r + 2
    go (ok id, rest) p = absurd (cc (rw p at e))
    go (err (unexpected_end n), rest) p = ground (arith, rw p at e, varint_end r n rest p)
    go (panic, rest) p = absurd (cc (rw p at e))

after_type_bound :
    (n k ty : ℕ) (r more : List ℕ) (m : ℕ)
    → (decode_after_type n ty r).0 ≡ err (incomplete m)
    → length (r ++ more) + 1 < m
    → (64 ≤ ty → length (r ++ more) + 2 < m)
    → (m ≡ n + 1) ⊎ ((j : ℕ) × ((decode_after_type k ty (r ++ more)).0 ≡ err (incomplete j)))
unfolding decode_after_type
after_type_bound n k ty r more m e h w = elim (Bool-cases (ty == webtransport_bi_stream)) [
  | inl a ↦
      absurd
        (omega (arith, webtransport_bound r m (rw a at e), length-append r more, w (ground arith)))
  | inr a ↦ rw a (body_bound n k ty r more m (rw a at e) h)
]

-- Where Frame::decode asks for min bytes, it asks for more again on every extension of the buffer
-- that is shorter than min.
pub incomplete-IsLowerBound :
    (buf : List ℕ) (min : ℕ) → (decode buf).0 ≡ err (incomplete min) → IsLowerBound buf min
unfolding decode
incomplete-IsLowerBound buf min e more h = go (VarInt.decode buf) refl
  where
    same : min ≡ length buf + 1 → (n : ℕ) × ((decode (buf ++ more)).0 ≡ err (incomplete n))
    same m = (min, ap (λ t. (decode t).0) (nothing_more buf more (omega arith)) ∙ e)

    go :
        (r : Outcome UnexpectedEnd ℕ × List ℕ)
        → VarInt.decode buf ≡ r
        → (n : ℕ) × ((decode (buf ++ more)).0 ≡ err (incomplete n))
    go (ok ty, rest) p =
        let (one, two) = varint_size buf ty rest p in
        elim (after_type_bound (length buf) (length (buf ++ more)) ty rest more min (rw p at e)
          (omega (arith, length-append buf more, length-append rest more))
          (λ big. omega (arith, two big, length-append buf more, length-append rest more))) [
            | inl m ↦ same m
            | inr (j, q) ↦ (j, rw (varint-append buf more ty rest p) q)
          ]
    go (err x, rest) p = same (ground (arith, rw p at e))
    go (panic, rest) p = absurd (cc (rw p at e))

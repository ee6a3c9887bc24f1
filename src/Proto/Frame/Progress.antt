-- ===== src/Proto/Frame/Progress.antt =====
-- `Frame::decode` on any bytes: it does not panic, and it consumes what it accepts.
use h.Prelude.{
  lt→ltb, ◌^◌, ℕ, ◌+◌, ◌≤◌, ◌≡◌, arith, List, [], ◌∷◌, ◌++◌, Outcome, ok, err, panic, Reader,
  map_err,
}
use h.Prelude.{
  length, take, drop, All, IsByte, Ensures, Ensures-bind, Ensures-map_error, if_rule, length-append,
  length-take, length-drop, fail, ltb, ltb→le, ◌==◌,
}
use h.Proto.VarInt
use h.Proto.VarInt.{UnexpectedEnd, unexpected_end, IsVarInt}
use h.Proto.VarInt.Bounds.{decode-Progress, Leaves, take-All, drop-All}
use h.Proto.Settings
use h.Proto.Settings.{Settings}
use h.Proto.Settings.Parse.{decode-IsAccepted, IsAccepted}
use h.Proto.Frame.{
  Frame, FrameError, unknown_frame, unsupported_frame, settings_error, push_id_error, incomplete,
  decode, decode_after_type, decode_body, decode_after_len, decode_payload, decode_webtransport,
  decode_push_id, decode_push_promise, headers_payload, settings_payload, cancel_push_payload,
  push_promise_payload, goaway_payload, max_push_id_payload, limited, is_forbidden_type,
  of_unexpected_end, always_incomplete, headers_type, settings_type, cancel_push_type,
  push_promise_type, goaway_type, max_push_id_type, data_type, webtransport_bi_stream, PushPromise,
}

-- An error after which the decoder does not advance.
abbrev IsStop : FrameError → Type 0
IsStop (unknown_frame ty) = ⊥
IsStop _ = Unit {0}

-- What is left after an error: after an unknown frame `n` bytes less at least.
abbrev pub Left : ℕ → List ℕ → FrameError → List ℕ → Type 0
Left n buf (unknown_frame ty) rest = Leaves n buf rest
Left n buf _ rest = Unit {0}

abbrev pub Advances : {A : Type 0} → ℕ → List ℕ → Outcome FrameError A × List ℕ → Type 0
Advances n buf = Ensures (λ _ rest. Leaves n buf rest) (Left n buf)

stop-Left : (n : ℕ) (buf : List ℕ) (e : FrameError) (rest : List ℕ) → IsStop e → Left n buf e rest
stop-Left n buf (unknown_frame ty) rest s = absurd s
stop-Left n buf _ rest s = tt

-- What a reader of a payload does on that payload alone.
abbrev Payload : {A : Type 0} → List ℕ → Outcome FrameError A × List ℕ → Type 0
Payload p = Ensures (λ _ rest. Leaves 0 p rest) (λ e _. IsStop e)

IsStop-of_end : (e : UnexpectedEnd) → IsStop (of_unexpected_end e)
IsStop-of_end (unexpected_end n) = tt

varint_payload :
    (p : List ℕ)
    → All IsByte p
    → Ensures
        (λ v rest. IsVarInt v × Leaves 0 p rest)
        (λ e _. IsStop e)
        (map_err of_unexpected_end VarInt.decode p)
varint_payload p b =
    Ensures-map_error (λ v rest. IsVarInt v × Leaves 1 p rest)
      (λ v rest. IsVarInt v × Leaves 0 p rest) (λ _ rest. Leaves 0 p rest) (λ e _. IsStop e)
      of_unexpected_end (VarInt.decode p) (decode-Progress p b)
      (λ v rest (f, l). (f, (l.0, omega arith))) (λ e rest _. IsStop-of_end e)

push_id-Payload : (p : List ℕ) → All IsByte p → Payload p (decode_push_id p)
unfolding decode_push_id VarInt.from_u64
push_id-Payload p b =
    Ensures-bind (λ v rest. IsVarInt v × Leaves 0 p rest) (λ _ rest. Leaves 0 p rest)
      (λ e _. IsStop e) (map_err of_unexpected_end VarInt.decode p) _ (varint_payload p b)
      (λ v rest (f, l). rw (lt→ltb v (2 ^ 62) f) l)

goaway_reads : (p : List ℕ) → All IsByte p → Payload p (goaway_payload p)
unfolding goaway_payload
goaway_reads p b =
    Ensures-bind (λ v rest. IsVarInt v × Leaves 0 p rest) (λ _ rest. Leaves 0 p rest)
      (λ e _. IsStop e) (map_err of_unexpected_end VarInt.decode p) _ (varint_payload p b)
      (λ v rest q. q.1)

cancel_push_reads : (p : List ℕ) → All IsByte p → Payload p (cancel_push_payload p)
unfolding cancel_push_payload
cancel_push_reads p b =
    Ensures-bind (λ _ rest. Leaves 0 p rest) (λ _ rest. Leaves 0 p rest) (λ e _. IsStop e)
      (decode_push_id p) _ (push_id-Payload p b) (λ v rest q. q)

max_push_id_reads : (p : List ℕ) → All IsByte p → Payload p (max_push_id_payload p)
unfolding max_push_id_payload
max_push_id_reads p b =
    Ensures-bind (λ _ rest. Leaves 0 p rest) (λ _ rest. Leaves 0 p rest) (λ e _. IsStop e)
      (decode_push_id p) _ (push_id-Payload p b) (λ v rest q. q)

push_promise_reads : (p : List ℕ) → All IsByte p → Payload p (push_promise_payload p)
unfolding push_promise_payload
push_promise_reads p b =
    Ensures-bind (λ _ rest. Leaves 0 p rest) (λ _ rest. Leaves 0 p rest) (λ e _. IsStop e)
      (map_err of_unexpected_end decode_push_promise p) _ promise (λ v rest q. q)
  where
    promise : Payload p (map_err of_unexpected_end decode_push_promise p)
    promise =
        Ensures-map_error (λ _ rest. Leaves 0 p rest) (λ _ rest. Leaves 0 p rest)
          (λ _ rest. Leaves 0 p rest) (λ e _. IsStop e) of_unexpected_end (decode_push_promise p)
          (unfold decode_push_promise in
            Ensures-bind {B = PushPromise} (λ v rest. IsVarInt v × Leaves 1 p rest)
              (λ _ rest. Leaves 0 p rest) (λ _ rest. Leaves 0 p rest) (VarInt.decode p) _
              (decode-Progress p b) (λ v rest q. (tt, omega arith)))
          (λ _ _ q. q) (λ e _ _. IsStop-of_end e)

settings_reads : (p : List ℕ) → All IsByte p → Payload p (settings_payload p)
unfolding settings_payload
settings_reads p b =
    Ensures-bind (λ _ rest. Leaves 0 p rest) (λ _ rest. Leaves 0 p rest) (λ e _. IsStop e)
      (map_err settings_error Settings.decode p) _
      (Ensures-map_error (λ s rest. IsAccepted s × (rest ≡ [])) (λ _ rest. Leaves 0 p rest)
        (λ _ _. Unit {0}) (λ e _. IsStop e) settings_error (Settings.decode p)
        (decode-IsAccepted p b) (λ s rest (k, z). rw z (tt, omega arith)) (λ e rest _. tt))
      (λ v rest q. q)

headers_reads : (p : List ℕ) → All IsByte p → Payload p (headers_payload p)
unfolding headers_payload
headers_reads p b = (tt, omega arith)

All-append : (xs ys : List ℕ) → All IsByte xs → All IsByte ys → All IsByte (xs ++ ys)
All-append [] ys h k = k
All-append (x ∷ xs) ys h k = (h.0, All-append xs ys h.1 k)

limited_progress :
    {A : Type 0} (n : ℕ) (m : Reader FrameError A) (r : List ℕ)
    → All IsByte r
    → n ≤ length r
    → ((p : List ℕ) → All IsByte p → Payload p (m p))
    → Advances 0 r (limited n m r)
limited_progress {A} n m r b h k = go (m (take n r)) (k (take n r) (take-All n r b))
  where
    go :
        (o : Outcome FrameError A × List ℕ)
        → Payload (take n r) o
        → Advances 0 r (o.0, o.1 ++ drop n r)
    go (ok a, rest) q = (
      All-append rest (drop n r) q.0 (drop-All n r b),
      omega (arith, q.1, length-append rest (drop n r), length-take n r, length-drop n r),
    )
    go (err e, rest) q = stop-Left 0 r e (rest ++ drop n r) q
    go (panic, rest) q = q

payload_progress :
    (ty len : ℕ) (r : List ℕ)
    → All IsByte r
    → len ≤ length r
    → Advances 0 r (decode_payload ty len r)
unfolding decode_payload
payload_progress ty len r b h =
    if_rule P (ty == headers_type) _ _
      (λ _. limited_progress len headers_payload r b h headers_reads)
      λ _.
        if_rule P (ty == settings_type) _ _
          (λ _. limited_progress len settings_payload r b h settings_reads)
          λ _.
            if_rule P (ty == cancel_push_type) _ _
              (λ _. limited_progress len cancel_push_payload r b h cancel_push_reads)
              λ _.
                if_rule P (ty == push_promise_type) _ _
                  (λ _. limited_progress len push_promise_payload r b h push_promise_reads)
                  λ _.
                    if_rule P (ty == goaway_type) _ _
                      (λ _. limited_progress len goaway_payload r b h goaway_reads)
                      λ _.
                        if_rule P (ty == max_push_id_type) _ _
                          (λ _. limited_progress len max_push_id_payload r b h max_push_id_reads)
                          λ _.
                            if_rule P (is_forbidden_type ty) (fail (unsupported_frame ty))
                              (λ x. (err (unknown_frame ty), drop len x)) (λ _. tt)
                              (λ _. (drop-All len r b, omega (arith, length-drop len r)))
  where
    P : Reader FrameError (Frame ℕ) → Type 0
    P m = Advances 0 r (m r)

-- A result on a part of the buffer is one on the whole.
farther :
    {A : Type 0} (n : ℕ) (buf r : List ℕ) (o : Outcome FrameError A × List ℕ)
    → length r + n ≤ length buf
    → Advances 0 r o
    → Advances n buf o
farther n buf r (ok a, rest) h q = (q.0, omega (arith, q.1))
farther n buf r (err (unknown_frame ty), rest) h q = (q.0, omega (arith, q.1))
farther n buf r (err FrameError.malformed, rest) h q = tt
farther n buf r (err (unsupported_frame ty), rest) h q = tt
farther n buf r (err FrameError.invalid_frame_value, rest) h q = tt
farther n buf r (err (incomplete m), rest) h q = tt
farther n buf r (err (settings_error e), rest) h q = tt
farther n buf r (err (FrameError.stream_id_error e), rest) h q = tt
farther n buf r (err (push_id_error e), rest) h q = tt
farther n buf r (panic, rest) h q = q

varint_advances :
    (m : ℕ) (p : List ℕ)
    → All IsByte p
    → Ensures
        (λ v rest. IsVarInt v × Leaves 1 p rest)
        (Left 0 p)
        (map_err (always_incomplete m) VarInt.decode p)
varint_advances m p b =
    Ensures-map_error (λ v rest. IsVarInt v × Leaves 1 p rest)
      (λ v rest. IsVarInt v × Leaves 1 p rest) (λ _ rest. Leaves 0 p rest) (Left 0 p)
      (always_incomplete m) (VarInt.decode p) (decode-Progress p b) (λ _ _ q. q) (λ _ _ _. tt)

after_len_progress :
    (ty len : ℕ) (r : List ℕ) → All IsByte r → Advances 0 r (decode_after_len ty len r)
unfolding decode_after_len
after_len_progress ty len r b =
    if_rule (Advances 0 r) (ty == data_type) _ _ (λ _. (b, omega arith))
      λ _.
        if_rule (Advances 0 r) (ltb (length r) len) _ _ (λ _. tt)
          λ h. payload_progress ty len r b (ltb→le _ _ h)

body_progress : (n ty : ℕ) (r : List ℕ) → All IsByte r → Advances 0 r (decode_body n ty r)
unfolding decode_body
body_progress n ty r b =
    Ensures-bind (λ v rest. IsVarInt v × Leaves 1 r rest) (λ _ rest. Leaves 0 r rest) (Left 0 r)
      (map_err (always_incomplete (n + 1)) VarInt.decode r) _ (varint_advances (n + 1) r b)
      (λ len rest (f, l).
        farther 0 r rest _ (omega (arith, l.1)) (after_len_progress ty len rest l.0))

webtransport_progress : (r : List ℕ) → All IsByte r → Advances 0 r (decode_webtransport r)
unfolding decode_webtransport
webtransport_progress r b =
    Ensures-bind (λ v rest. IsVarInt v × Leaves 0 r rest) (λ _ rest. Leaves 0 r rest) (Left 0 r)
      (map_err of_unexpected_end VarInt.decode r) _
      (Ensures-map_error (λ v rest. IsVarInt v × Leaves 1 r rest)
        (λ v rest. IsVarInt v × Leaves 0 r rest) (λ _ rest. Leaves 0 r rest) (Left 0 r)
        of_unexpected_end (VarInt.decode r) (decode-Progress r b)
        (λ v rest (f, l). (f, (l.0, omega arith)))
        (λ e rest _. stop-Left 0 r (of_unexpected_end e) rest (IsStop-of_end e)))
      (λ id rest q. q.1)

-- Frame::decode of any bytes does not panic, leaves bytes, and takes at least one byte where it
-- gives a frame or an unknown frame.
pub decode-Advances : (buf : List ℕ) → All IsByte buf → Advances 1 buf (decode buf)
unfolding decode decode_after_type
decode-Advances buf b =
    Ensures-bind (λ v rest. IsVarInt v × Leaves 1 buf rest) (λ _ rest. Leaves 1 buf rest)
      (Left 1 buf) (map_err (always_incomplete (length buf + 1)) VarInt.decode buf)
      (decode_after_type (length buf)) type_read
      λ ty rest (f, l). farther 1 buf rest (decode_after_type (length buf) ty rest) l.1 (
        if_rule (λ (m : Reader FrameError (Frame ℕ)). Advances 0 rest (m rest))
          (ty == webtransport_bi_stream) _ _ (λ _. webtransport_progress rest l.0)
          (λ _. body_progress (length buf) ty rest l.0))
  where
    type_read :
        Ensures
          (λ v rest. IsVarInt v × Leaves 1 buf rest)
          (Left 1 buf)
          (map_err (always_incomplete (length buf + 1)) VarInt.decode buf)
    type_read =
        Ensures-map_error (λ v rest. IsVarInt v × Leaves 1 buf rest)
          (λ v rest. IsVarInt v × Leaves 1 buf rest) (λ _ rest. Leaves 0 buf rest) (Left 1 buf)
          (always_incomplete (length buf + 1)) (VarInt.decode buf) (decode-Progress buf b)
          (λ _ _ q. q) (λ _ _ _. tt)

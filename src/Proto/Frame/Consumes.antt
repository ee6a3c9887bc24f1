-- ===== src/Proto/Frame/Consumes.antt =====
-- `Frame::decode` leaves an end of its buffer.
use h.Prelude.{
  ◌+◌, ◌/◌, bit_and, ℕ, zero, suc, refl, ap, sym, ◌∙◌, List, [], ◌∷◌, ◌++◌, Outcome, err, Reader,
  map_err, fail,
}
use h.Prelude.{length, take, drop, append_assoc, take-append-drop, ltb, ◌==◌, append-nil, if_rule}
use h.Prelude.Suffix.{Ends, Reads, Ends-trans, Ends-drop, Reads-bind, Reads-if}
use h.Proto.VarInt
use h.Proto.VarInt.{UnexpectedEnd, decode_tail}
use h.Proto.Settings
use h.Proto.Settings.{SettingsError, Settings, to_malformed, accept}
use h.Proto.Frame.{
  Frame, FrameError, unknown_frame, unsupported_frame, settings_error, decode, decode_after_type,
  decode_body, decode_after_len, decode_payload, decode_webtransport, decode_push_id,
  decode_push_promise, headers_payload, settings_payload, cancel_push_payload, push_promise_payload,
  goaway_payload, max_push_id_payload, limited, is_forbidden_type, of_unexpected_end,
  always_incomplete, headers_type, settings_type, cancel_push_type, push_promise_type, goaway_type,
  max_push_id_type, data_type, webtransport_bi_stream,
}

tail-Reads : (tag n first : ℕ) → Reads (decode_tail tag n first)
unfolding decode_tail
tail-Reads tag n first buf =
    if_rule (λ (x : Outcome UnexpectedEnd ℕ × List ℕ). Ends buf x.1) (ltb (length buf) n) _ _
      (λ _. ([], refl)) (λ _. Ends-drop n buf)

varint-Reads : Reads VarInt.decode
unfolding VarInt.decode
varint-Reads [] = ([], refl)
varint-Reads (b ∷ r) =
    Ends-trans (b ∷ r) r _ (b ∷ [], refl)
      (if_rule (λ (x : Outcome UnexpectedEnd ℕ × List ℕ). Ends r x.1) (b / 64 == 0) _ _
        (λ _. ([], refl))
        λ _.
          if_rule (λ (x : Outcome UnexpectedEnd ℕ × List ℕ). Ends r x.1) (b / 64 == 1) _ _
            (λ _. tail-Reads 1 1 (bit_and b 63) r)
            λ _.
              if_rule (λ (x : Outcome UnexpectedEnd ℕ × List ℕ). Ends r x.1) (b / 64 == 2) _ _
                (λ _. tail-Reads 2 3 (bit_and b 63) r)
                λ _.
                  if_rule (λ (x : Outcome UnexpectedEnd ℕ × List ℕ). Ends r x.1) (b / 64 == 3) _ _
                    (λ _. tail-Reads 3 7 (bit_and b 63) r) λ _. ([], refl))

entry-Reads : (s : Settings) → Reads (Settings.decode_entry s)
unfolding Settings.decode_entry
entry-Reads s buf =
    if_rule (λ (x : Outcome SettingsError Settings × List ℕ). Ends buf x.1) (ltb (length buf) 2) _ _
      (λ _. ([], refl))
      λ _.
        Reads-bind (map_err to_malformed VarInt.decode) _ varint-Reads
          (λ id.
            Reads-bind (map_err to_malformed VarInt.decode) (λ v rest. (accept s id v, rest))
              varint-Reads (λ v rest. ([], refl)))
          buf

loop-Reads : (fuel : ℕ) (s : Settings) → Reads (Settings.decode_loop fuel s)
unfolding Settings.decode_loop
loop-Reads fuel s [] = ([], refl)
loop-Reads zero s (b ∷ r) = ([], refl)
loop-Reads (suc fuel) s (b ∷ r) =
    Reads-bind (Settings.decode_entry s) (Settings.decode_loop fuel) (entry-Reads s)
      (loop-Reads fuel) (b ∷ r)

limited-Reads : {A : Type 0} (n : ℕ) (m : Reader FrameError A) → Reads m → Reads (limited n m)
limited-Reads n m h buf =
    let (front, e) = h (take n buf) in
    (
      front,
      sym (take-append-drop n buf)
          ∙ ap (λ t. t ++ drop n buf) e
          ∙ append_assoc front (m (take n buf)).1 (drop n buf),
    )

push_id-Reads : Reads decode_push_id
unfolding decode_push_id
push_id-Reads =
    Reads-bind (map_err of_unexpected_end VarInt.decode) _ varint-Reads (λ v rest. ([], refl))

promise-Reads : Reads decode_push_promise
unfolding decode_push_promise
promise-Reads = Reads-bind VarInt.decode _ varint-Reads (λ v rest. (rest, sym (append-nil rest)))

payload-Reads : (ty len : ℕ) → Reads (decode_payload ty len)
unfolding decode_payload headers_payload settings_payload goaway_payload cancel_push_payload
    max_push_id_payload push_promise_payload Settings.decode
payload-Reads ty len buf =
    if_rule P (ty == headers_type) _ _
      (λ _. limited-Reads len headers_payload (λ r. (r, sym (append-nil r))) buf)
      λ _.
        if_rule P (ty == settings_type) _ _
          (λ _.
            limited-Reads len settings_payload
              (Reads-bind (map_err settings_error Settings.decode) _
                (λ r. loop-Reads (length r) Settings.empty r) (λ s r. ([], refl)))
              buf)
          λ _.
            if_rule P (ty == cancel_push_type) _ _
              (λ _.
                limited-Reads len cancel_push_payload
                  (Reads-bind decode_push_id _ push_id-Reads (λ v r. ([], refl))) buf)
              λ _.
                if_rule P (ty == push_promise_type) _ _
                  (λ _.
                    limited-Reads len push_promise_payload
                      (Reads-bind (map_err of_unexpected_end decode_push_promise) _ promise-Reads
                        (λ v r. ([], refl)))
                      buf)
                  λ _.
                    if_rule P (ty == goaway_type) _ _
                      (λ _.
                        limited-Reads len goaway_payload
                          (Reads-bind (map_err of_unexpected_end VarInt.decode) _ varint-Reads
                            (λ v r. ([], refl)))
                          buf)
                      λ _.
                        if_rule P (ty == max_push_id_type) _ _
                          (λ _.
                            limited-Reads len max_push_id_payload
                              (Reads-bind decode_push_id _ push_id-Reads (λ v r. ([], refl))) buf)
                          λ _.
                            if_rule P (is_forbidden_type ty) (fail (unsupported_frame ty))
                              (λ x. (err (unknown_frame ty), drop len x)) (λ _. ([], refl))
                              (λ _. Ends-drop len buf)
  where
    P : Reader FrameError (Frame ℕ) → Type 0
    P m = Ends buf (m buf).1

after_len-Reads : (ty len : ℕ) → Reads (decode_after_len ty len)
unfolding decode_after_len
after_len-Reads ty len buf =
    if_rule (λ (x : Outcome FrameError (Frame ℕ) × List ℕ). Ends buf x.1) (ty == data_type) _ _
      (λ _. ([], refl))
      λ _.
        if_rule (λ (x : Outcome FrameError (Frame ℕ) × List ℕ). Ends buf x.1) (ltb (length buf) len)
          _ _ (λ _. ([], refl)) λ _. payload-Reads ty len buf

after_type-Reads : (n ty : ℕ) → Reads (decode_after_type n ty)
unfolding decode_after_type decode_webtransport decode_body
after_type-Reads n ty =
    Reads-if (ty == webtransport_bi_stream) decode_webtransport (decode_body n ty)
      (Reads-bind (map_err of_unexpected_end VarInt.decode) _ varint-Reads (λ v rest. ([], refl)))
      (Reads-bind (map_err (always_incomplete (n + 1)) VarInt.decode) (decode_after_len ty)
        varint-Reads (after_len-Reads ty))

-- `decode` only takes bytes from the front: what it leaves ends the buffer that it was given.
pub decode-Reads : Reads decode
unfolding decode
decode-Reads buf =
    Reads-bind (map_err (always_incomplete (length buf + 1)) VarInt.decode)
      (decode_after_type (length buf)) varint-Reads (after_type-Reads (length buf)) buf

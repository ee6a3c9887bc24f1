-- ===== src/Proto/Frame/RoundTrip.antt =====
-- `Frame::decode` reads back what `Frame::encode` wrote.
use h.Prelude.{ℕ, ◌≡◌, ◌≢◌, refl, ap, sym, ◌∙◌, arith, Bool, true, false}
use h.Prelude.{List, [], ◌++◌, some, Outcome, ok, err, ◌⊕◌, ⊕-eq-some, ⊕-some}
use h.Prelude.{length, drop, length-append, take-append, drop-append, append_assoc, append-nil}
use h.Proto.VarInt
use mathlib.Core.Option
use h.Proto.Frame.{write_len, add_length}
use h.Proto.VarInt.{IsVarInt}
use h.Proto.VarInt.Bounds.{write_var-encode, size-encode}
use h.Proto.VarInt.RoundTrip.{decode-encode}
use h.Proto.Stream
use h.Proto.Stream.{grease_bound}
use h.Proto.Frame.{
  Frame, FrameError, unknown_frame, payload, headers, settings, cancel_push, push_promise, goaway,
  max_push_id, webtransport_stream, grease, decode, encode, decode_after_len, decode_payload,
  webtransport_bi_stream, data_type, limited, PushPromise, grease_bytes, simple_frame_encode,
  decode_after_type, decode_body, goaway_type, cancel_push_type, max_push_id_type, headers_payload,
  cancel_push_payload, max_push_id_payload, goaway_payload, push_promise_payload, headers_type,
  encode_push_promise, push_promise_type, decode_push_id,
}

written :
    (v : ℕ) {a : List ℕ} (rest : List ℕ)
    → VarInt.write_var v ≡ some a
    → VarInt.decode (a ++ rest) ≡ (ok v, rest)
written v {a} rest e = decode-encode v a rest (sym (write_var-encode v) ∙ e)

-- What `decode` does behind a type and a length that were written.
header-decode :
    (ty len : ℕ) {a b : List ℕ} (p : List ℕ)
    → VarInt.write_var ty ≡ some a
    → VarInt.write_var len ≡ some b
    → ty ≢ webtransport_bi_stream
    → decode (a ++ (b ++ p)) ≡ decode_after_len ty len p
unfolding decode decode_after_type decode_body
header-decode ty len {a} {b} p ea eb n = ground (arith, written ty (b ++ p) ea, written len p eb)

-- A reader limited to `p` reads from `p` alone, and what it leaves of it comes before the rest.
pub limited-whole :
    {E A : Type 0} (m : List ℕ → Outcome E A × List ℕ) (p rest : List ℕ)
    → limited (length p) m (p ++ rest) ≡ ((m p).0, (m p).1 ++ rest)
limited-whole m p rest = rw (take-append p rest, drop-append p rest)

pub payload-decode :
    (ty : ℕ) {a b : List ℕ} (p rest : List ℕ)
    → VarInt.write_var ty ≡ some a
    → VarInt.write_var (length p) ≡ some b
    → ty ≢ webtransport_bi_stream
    → ty ≢ data_type
    → decode (a ++ (b ++ (p ++ rest))) ≡ decode_payload ty (length p) (p ++ rest)
unfolding decode_after_len
payload-decode ty p rest ea eb n m =
    header-decode ty (length p) (p ++ rest) ea eb n ∙ ground (arith, length-append p rest)

-- The bytes that follow a header on the wire and are not yet in it.
abbrev pub block_of : Frame (List ℕ) → List ℕ
block_of (headers b) = b
block_of _ = []

-- What a peer sees of a frame: the length of a data frame, nothing of grease.
abbrev pub received : ℕ → Frame (List ℕ) → Outcome FrameError (Frame ℕ)
received n (payload b) = ok (payload (length b))
received n (headers b) = ok (headers b)
received n (cancel_push id) = ok (cancel_push id)
received n (settings s) = ok (settings s)
received n (push_promise p) = ok (push_promise p)
received n (goaway id) = ok (goaway id)
received n (max_push_id id) = ok (max_push_id id)
received n (webtransport_stream id) = ok (webtransport_stream id)
received n grease = err (unknown_frame (Stream.grease n))

abbrev pub is_settings : Frame (List ℕ) → Bool
is_settings (settings s) = true
is_settings _ = false

size-written : (v : ℕ) {c : List ℕ} → VarInt.encode v ≡ some c → VarInt.size v ≡ some (length c)
size-written v e = size-encode v ∙ ap (Option.map length) e

pub regroup : (a b c rest : List ℕ) → (a ++ (b ++ c)) ++ rest ≡ a ++ (b ++ (c ++ rest))
regroup a b c rest = append_assoc a (b ++ c) rest ∙ ap (λ t. a ++ t) (append_assoc b c rest)

simple-decode :
    (ty id : ℕ) {bs : List ℕ} (rest : List ℕ)
    → simple_frame_encode ty id ≡ some bs
    → ty ≢ webtransport_bi_stream
    → ty ≢ data_type
    → (p : List ℕ) × (VarInt.encode id ≡ some p)
      × (decode (bs ++ rest) ≡ decode_payload ty (length p) (p ++ rest))
unfolding simple_frame_encode
simple-decode ty id {bs} rest e n m =
    let (a, r, ea, er, p) = ⊕-eq-some (VarInt.write_var ty) _ e in
    let (b, c, eb, ec, q) = ⊕-eq-some (write_len (VarInt.size id)) _ er in
    (
      c,
      ec,
      ap decode (ap (λ t. t ++ rest) (p ∙ ap (λ t. a ++ t) q) ∙ regroup a b c rest)
          ∙ payload-decode ty c rest ea (rw (size-written id ec) at eb) n m,
    )

goaway_payload-written :
    (id : ℕ) (p : List ℕ) → VarInt.encode id ≡ some p → goaway_payload p ≡ (ok (goaway id), [])
unfolding goaway_payload
goaway_payload-written id p e = ground (arith, append-nil p, decode-encode id p [] e)

encoded-IsVarInt : (v : ℕ) {p : List ℕ} → VarInt.encode v ≡ some p → IsVarInt v
unfolding VarInt.encode
encoded-IsVarInt v e = ground arith

decode_push_id-written :
    (id : ℕ) (p : List ℕ) → VarInt.encode id ≡ some p → decode_push_id p ≡ (ok id, [])
unfolding decode_push_id VarInt.from_u64
decode_push_id-written id p e =
    ground (arith, append-nil p, decode-encode id p [] e, encoded-IsVarInt id e)

decode-simple :
    (ty id : ℕ) {bs : List ℕ} (rest : List ℕ) (m : List ℕ → Outcome FrameError (Frame ℕ) × List ℕ)
    (f : Frame ℕ)
    → simple_frame_encode ty id ≡ some bs
    → ty ≢ webtransport_bi_stream
    → ty ≢ data_type
    → ((len : ℕ) → decode_payload ty len ≡ limited len m)
    → ((p : List ℕ) → VarInt.encode id ≡ some p → m p ≡ (ok f, []))
    → decode (bs ++ rest) ≡ (ok f, rest)
decode-simple ty id rest m f e n k pm hm =
    let (p, ep, d) = simple-decode ty id rest e n k in
    d
    ∙ ap (λ (r : List ℕ → Outcome FrameError (Frame ℕ) × List ℕ). r (p ++ rest)) (pm (length p))
    ∙ limited-whole m p rest
    ∙ rw (hm p ep)

promise-decode :
    (p : PushPromise) {bs : List ℕ} (rest : List ℕ)
    → encode_push_promise p ≡ some bs
    → decode (bs ++ rest) ≡ (ok (push_promise p), rest)
unfolding encode_push_promise decode_payload
promise-decode p {bs} rest e =
    let (a, r, ea, er, u) = ⊕-eq-some (VarInt.write_var push_promise_type) _ e in
    let (b, s, eb, es, v) =
      ⊕-eq-some (write_len (add_length (VarInt.size p.id) (length p.encoded))) _ er in
    let (c, ec, w) = ⊕-some (VarInt.write_var p.id) p.encoded es in
    let body : List ℕ = c ++ p.encoded in
    let id_written : VarInt.encode p.id ≡ some c = sym (write_var-encode p.id) ∙ ec in
    let len : VarInt.write_var (length body) ≡ some b =
      ap VarInt.write_var (length-append c p.encoded) ∙ (rw (size-written p.id id_written) at eb) in
    ap decode
      (ap (λ x. x ++ rest) (u ∙ ap (λ x. a ++ x) (v ∙ ap (λ x. b ++ x) w)) ∙ regroup a b body rest)
    ∙ payload-decode push_promise_type body rest ea len (λ x. omega arith) (λ x. omega arith)
    ∙ limited-whole push_promise_payload body rest
    ∙ rw (promise_read c id_written)
  where
    promise_read :
        (c : List ℕ)
        → VarInt.encode p.id ≡ some c
        → push_promise_payload (c ++ p.encoded) ≡ (ok (push_promise p), [])
    promise_read c q = unfold push_promise_payload in rw (decode-encode p.id c p.encoded q)

webtransport-decode :
    (id : ℕ) {bs : List ℕ} (rest : List ℕ)
    → (VarInt.write_var webtransport_bi_stream ⊕ Stream.encode id) ≡ some bs
    → decode (bs ++ rest) ≡ (ok (webtransport_stream id), rest)
unfolding Stream.encode decode decode_after_type
webtransport-decode id {bs} rest e =
    let (a, c, ea, ec, p) = ⊕-eq-some (VarInt.write_var webtransport_bi_stream) _ e in
    ap decode (ap (λ t. t ++ rest) p ∙ append_assoc a c rest)
    ∙ rw (written webtransport_bi_stream (c ++ rest) ea, written id rest ec)

-- A grease type is none of those that `decode` knows.
grease_unknown :
    (n len : ℕ) (buf : List ℕ)
    → decode_payload (Stream.grease n) len buf
      ≡ (err (unknown_frame (Stream.grease n)), drop len buf)
unfolding decode_payload Stream.grease
grease_unknown n len buf = ground arith

grease-decode :
    (n : ℕ) {bs : List ℕ} (rest : List ℕ)
    → (VarInt.write_var (Stream.grease n) ⊕ VarInt.write_var 6 ⊕ some grease_bytes) ≡ some bs
    → decode (bs ++ rest) ≡ (err (unknown_frame (Stream.grease n)), rest)
unfolding Stream.grease
grease-decode n {bs} rest e =
    let (a, r, ea, er, p) = ⊕-eq-some (VarInt.write_var (Stream.grease n)) _ e in
    let (b, eb, q) = ⊕-some (VarInt.write_var 6) grease_bytes er in
    ap decode (ap (λ t. t ++ rest) (p ∙ ap (λ t. a ++ t) q) ∙ regroup a b grease_bytes rest)
    ∙ payload-decode (Stream.grease n) grease_bytes rest ea eb (λ x. omega arith) (λ x. omega arith)
    ∙ grease_unknown n 6 (grease_bytes ++ rest)

-- A frame other than SETTINGS that is encoded, with the block that follows a HEADERS header and
-- with any bytes behind it, is decoded to what a peer sees of it, with those bytes left.
pub decode-encode_frame :
    (n : ℕ) (f : Frame (List ℕ)) (bs rest : List ℕ)
    → is_settings f ≡ false
    → encode n f ≡ some bs
    → decode (bs ++ (block_of f ++ rest)) ≡ (received n f, rest)
unfolding encode decode_payload decode_after_len headers_payload cancel_push_payload
    max_push_id_payload
decode-encode_frame n (payload b) bs rest h e =
    let (a, c, ea, ec, p) = ⊕-eq-some (VarInt.write_var data_type) _ e in
    ap decode (ap (λ t. t ++ rest) p ∙ append_assoc a c rest)
    ∙ header-decode data_type (length b) rest ea ec (λ x. omega arith)
decode-encode_frame n (headers b) bs rest h e =
    let (a, c, ea, ec, p) = ⊕-eq-some (VarInt.write_var headers_type) _ e in
    ap decode (ap (λ t. t ++ (b ++ rest)) p ∙ append_assoc a c (b ++ rest))
    ∙ payload-decode headers_type b rest ea ec (λ x. omega arith) (λ x. omega arith)
    ∙ limited-whole headers_payload b rest
decode-encode_frame n (cancel_push id) bs rest h e =
    decode-simple cancel_push_type id rest cancel_push_payload (cancel_push id) e (λ x. omega arith)
      (λ x. omega arith) (λ len. refl) (λ p q. rw (decode_push_id-written id p q))
decode-encode_frame n (settings s) bs rest h e = absurd (cc)
decode-encode_frame n (push_promise p) bs rest h e = promise-decode p rest e
decode-encode_frame n (goaway id) bs rest h e =
    decode-simple goaway_type id rest goaway_payload (goaway id) e (λ x. omega arith)
      (λ x. omega arith) (λ len. refl) (λ p q. goaway_payload-written id p q)
decode-encode_frame n (max_push_id id) bs rest h e =
    decode-simple max_push_id_type id rest max_push_id_payload (max_push_id id) e (λ x. omega arith)
      (λ x. omega arith) (λ len. refl) (λ p q. rw (decode_push_id-written id p q))
decode-encode_frame n (webtransport_stream id) bs rest h e = webtransport-decode id rest e
decode-encode_frame n grease bs rest h e = grease-decode n rest e

-- ===== src/Examples.antt =====
-- Concrete inputs on which the theorems apply.
mod Strings
mod Table
use h.Prelude.{
  ℕ, ◌+◌, ◌-◌, ◌%◌, ◌^◌, ◌≤◌, ◌<◌, ◌≡◌, ◌≢◌, refl, arith, min, true, false, ◌⊎◌, inl, inr,
}
use h.Prelude.{
  List, [], ◌∷◌, ◌++◌, none, some, ok, err, panic, length, drop, All, IsByte, Ensures, ◌==◌,
}
use h.Buf
use h.Buf.{BufList, contents}
use h.Buf.Contents.{advance_drops}
use h.Proto.VarInt
use h.Proto.VarInt.{IsVarInt, UnexpectedEnd, unexpected_end, encoded_size}
use h.Proto.VarInt.Bounds.{decode-Progress, Progress, size-encode}
use h.Proto.VarInt.RoundTrip.{decode-encode, encoded_size-encode}
use h.Proto.Stream
use h.Proto.Stream.{
  Side, Dir, bi, uni, client, server, index, dir, initiator, is_request, is_push, session_of_stream,
  stream_of_session,
}
use h.Proto.Stream.Fields.{
  new_fields, new_of_fields, kind_of_id, add_fields, grease-IsVarInt, session-ne-stream,
}
use h.Proto.Settings
use h.Proto.Settings.{
  Settings, used, get as get_setting, insert, no_setting, max_header_list_size,
  qpack_max_blocked_streams,
}
use h.Proto.Settings.Table.{IsValid, empty-IsValid, insert-IsValid, get-insert}
use h.Proto.Settings.Parse.{IsAccepted, decode-IsAccepted}
use h.Proto.Frame
use h.Proto.Frame.{Frame, FrameError, incomplete, goaway, settings, goaway_type}
use h.Proto.Frame.Whole.{decode-append, extend}
use h.Proto.Frame.RoundTrip.{decode-encode_frame}
use h.Proto.Frame.Incomplete.{IsLowerBound, incomplete-IsLowerBound}
use h.Proto.Frame.Progress.{Advances, decode-Advances}
use h.Proto.Frame.Trailing.{short_payload-incomplete, long_payload-left, settings-decode}
use h.FrameStream
use h.FrameStream.{DecoderState, FrameStream, poll_next, poll_data}
use h.FrameStream.Decoder.{Yields, IsConsistent, decode-Yields}
use h.FrameStream.Unique.{decode_of_contents}
use h.Buf.Chunks.{HasChunks}
use h.FrameStream.Delivery.{Delivers}
use h.FrameStream.Next.{poll_next-Delivers}
use h.FrameStream.Data.{cut_payload-panic}
use h.Quic.{Event, wait, bytes, fin, ready}
use h.Qpack.Vas
use h.Qpack.Vas.{VirtualAddressSpace, add, relative, relative_base, post_base, evicted}
use h.Qpack.Vas.Positions.{IsBalanced, add-drop-IsBalanced, relative-index, index-relative}
use h.Qpack.PrefixInt
use h.Qpack.PrefixInt.RoundTrip.{decode-encode_int, encode_int-total}
use h.Qpack.Field.{HeaderField, ascii}
use h.Qpack.Static.{entry, get}
use h.Qpack.Static.Lookup.{find, match_field, find_name, match_name}
use h.Qpack.Static.Inverse.{get-find, find-get, get-find_name}
use h.Qpack.FieldLine.{
  static, decode_indexed, encode_indexed, decode_post_base, encode_post_base, header_block_field,
  indexed, indexed_with_post_base,
}
use h.Qpack.FieldLine.RoundTrip.{decode-encode_indexed, decode-encode_post_base}
use h.Qpack.Instruction
use h.Qpack.Instruction.{parse, untrack}
use h.Qpack.Instruction.RoundTrip.{parse-bytes_of}
use h.Qpack.Prefix
use h.Qpack.Prefix.{HeaderPrefix, base_of}
use h.Qpack.Parse.{invalid_base}
use h.Prelude.Isize.{negsuc}
use h.Qpack.Prefix.RoundTrip.{get-new, decode-encode_prefix}

-- A GOAWAY frame with the number 5 and a further byte.
abbrev goaway_bytes : List ℕ
goaway_bytes = 0x07 ∷ 0x01 ∷ 0x05 ∷ 0x21 ∷ []

abbrev in_two : DecoderState
in_two = record { expected = none; src = (0x07 ∷ []) ∷ (0x01 ∷ 0x05 ∷ 0x21 ∷ []) ∷ [] }

abbrev in_one : DecoderState
in_one = record { expected = none; src = goaway_bytes ∷ [] }

goaway-IsByte : All IsByte goaway_bytes
goaway-IsByte = (omega arith, (omega arith, (omega arith, (omega arith, tt))))

fresh-IsConsistent :
    (l : BufList) → HasChunks l → IsConsistent (record { expected = none; src = l })
fresh-IsConsistent l h = (h, λ min e. absurd (cc))

in_two-HasChunks : HasChunks in_two.src
in_two-HasChunks = (omega arith, (omega arith, tt))

in_one-HasChunks : HasChunks in_one.src
in_one-HasChunks = (omega arith, tt)

decode-Yields_example :
    Yields goaway_bytes (FrameStream.decode in_two).0 (contents (FrameStream.decode in_two).1.src)
    × IsConsistent (FrameStream.decode in_two).1
unfolding contents
decode-Yields_example =
    decode-Yields in_two (fresh-IsConsistent in_two.src in_two-HasChunks) goaway-IsByte

decode_of_contents_example :
    ((FrameStream.decode in_two).0 ≡ (FrameStream.decode in_one).0)
    × (contents (FrameStream.decode in_two).1.src ≡ contents (FrameStream.decode in_one).1.src)
unfolding contents
decode_of_contents_example =
    decode_of_contents in_two in_one (fresh-IsConsistent in_two.src in_two-HasChunks)
      (fresh-IsConsistent in_one.src in_one-HasChunks) goaway-IsByte refl

-- The decoder really finds the frame.
decode_two_test :
    FrameStream.decode in_two
    ≡ (ok (some (goaway 5)), record { expected = none; src = (0x21 ∷ []) ∷ [] })
unfolding FrameStream.decode FrameStream.decode_rounds FrameStream.decode_round
    FrameStream.on_decoded Frame.decode VarInt.decode Buf.remaining Buf.has_remaining Buf.contents
    Buf.advance Frame.decode_after_type Frame.decode_body Frame.decode_after_len
    Frame.decode_payload Frame.goaway_payload Buf.cursor
decode_two_test = refl

decode-append_example :
    Frame.decode (goaway_bytes ++ (0x00 ∷ [])) ≡ extend (0x00 ∷ []) (Frame.decode goaway_bytes)
unfolding Frame.decode VarInt.decode Frame.goaway_payload
decode-append_example = decode-append goaway_bytes (0x00 ∷ []) tt

decode-encode_frame_example :
    Frame.decode (0x07 ∷ 0x01 ∷ 0x05 ∷ 0x21 ∷ []) ≡ (ok (goaway 5), 0x21 ∷ [])
unfolding Frame.encode VarInt.encode VarInt.write_var VarInt.size VarInt.from_u64
decode-encode_frame_example =
    decode-encode_frame 0 (goaway 5) (0x07 ∷ 0x01 ∷ 0x05 ∷ []) (0x21 ∷ []) refl refl

incomplete-IsLowerBound_example : IsLowerBound (0x07 ∷ 0x03 ∷ 0x80 ∷ []) 5
unfolding Frame.decode VarInt.decode
incomplete-IsLowerBound_example = incomplete-IsLowerBound (0x07 ∷ 0x03 ∷ 0x80 ∷ []) 5 refl

decode-Advances_example : Advances 1 goaway_bytes (Frame.decode goaway_bytes)
decode-Advances_example = decode-Advances goaway_bytes goaway-IsByte

short_payload-incomplete_example :
    Frame.decode (0x07 ∷ 0x01 ∷ 0x40 ∷ 0x00 ∷ []) ≡ (err (incomplete 1), 0x00 ∷ [])
unfolding VarInt.encode VarInt.write_var VarInt.from_u64 VarInt.decode
short_payload-incomplete_example =
    short_payload-incomplete 0x07 1 (0x07 ∷ []) (0x01 ∷ []) (0x40 ∷ []) [] (0x00 ∷ [])
      (inr (inl refl)) refl refl refl

long_payload-left_example :
    Frame.decode (0x07 ∷ 0x02 ∷ 0x05 ∷ 0x21 ∷ 0x00 ∷ []) ≡ (ok (goaway 5), 0x21 ∷ 0x00 ∷ [])
unfolding VarInt.encode VarInt.write_var VarInt.from_u64 VarInt.decode
long_payload-left_example =
    long_payload-left 5 (0x07 ∷ []) (0x02 ∷ []) (0x05 ∷ 0x21 ∷ []) (0x21 ∷ []) (0x00 ∷ []) refl refl
      refl

-- One setting: a header list of at most 256 bytes.
abbrev one_setting : Settings
one_setting = record {
  entries = (6, 256) ∷ (0, 0) ∷ (0, 0) ∷ (0, 0) ∷ (0, 0) ∷ (0, 0) ∷ (0, 0) ∷ (0, 0) ∷ [];
  len = 1;
}

insert-IsValid_example : IsValid one_setting
unfolding insert Settings.empty
insert-IsValid_example = insert-IsValid Settings.empty max_header_list_size 256 empty-IsValid refl

get-insert_example :
    (get_setting one_setting 6 ≡ some 256)
    × ((qpack_max_blocked_streams ≡ max_header_list_size)
        ⊎ (qpack_max_blocked_streams ≡ no_setting)
        ⊎ (get_setting one_setting qpack_max_blocked_streams
            ≡ get_setting Settings.empty qpack_max_blocked_streams))
unfolding insert Settings.empty
get-insert_example =
    get-insert Settings.empty max_header_list_size 256 qpack_max_blocked_streams empty-IsValid refl

one_setting-IsAccepted : IsAccepted one_setting
unfolding insert Settings.empty Settings.is_supported Settings.is_forbidden
one_setting-IsAccepted = record {
  valid = insert-IsValid Settings.empty max_header_list_size 256 empty-IsValid refl;
  kept = (
    record { supported = refl; allowed = refl; id_fits = omega arith; value_fits = omega arith },
    tt,
  );
}

decode-IsAccepted_example :
    Ensures
      (λ s rest. IsAccepted s × (rest ≡ []))
      (λ _ _. Unit {0})
      (Settings.decode (0x06 ∷ 0x41 ∷ 0x00 ∷ []))
decode-IsAccepted_example =
    decode-IsAccepted (0x06 ∷ 0x41 ∷ 0x00 ∷ []) (omega arith, (omega arith, (omega arith, tt)))

settings-decode_example :
    (t : Settings) × (Frame.decode (0x04 ∷ 0x03 ∷ 0x06 ∷ 0x41 ∷ 0x00 ∷ 0x21 ∷ [])
      ≡ (ok (settings t), 0x21 ∷ []))
    × (used t ≡ (6, 256) ∷ [])
unfolding Frame.encode_settings Settings.entries_len Settings.encode_entries VarInt.encode
    VarInt.write_var VarInt.from_u64 VarInt.size
settings-decode_example =
    settings-decode one_setting (0x04 ∷ 0x03 ∷ 0x06 ∷ 0x41 ∷ 0x00 ∷ []) (0x21 ∷ [])
      one_setting-IsAccepted refl

decode-encode_example : VarInt.decode (0x41 ∷ 0x2C ∷ 0x07 ∷ []) ≡ (ok 300, 0x07 ∷ [])
unfolding VarInt.encode
decode-encode_example = decode-encode 300 (0x41 ∷ 0x2C ∷ []) (0x07 ∷ []) refl

decode-Progress_example : Progress 1 (0x41 ∷ 0x2C ∷ []) (VarInt.decode (0x41 ∷ 0x2C ∷ []))
decode-Progress_example = decode-Progress (0x41 ∷ 0x2C ∷ []) (omega arith, (omega arith, tt))

add_fields_example :
    IsVarInt (Stream.add 5 2)
    × (index (Stream.add 5 2) ≡ min (index 5 + 2) (2 ^ 60 - 1))
    × (dir (Stream.add 5 2) ≡ dir 5)
    × (initiator (Stream.add 5 2) ≡ initiator 5)
add_fields_example = add_fields 5 2 (omega arith)

abbrev two_buffers : BufList
two_buffers = (1 ∷ 2 ∷ []) ∷ (3 ∷ 4 ∷ []) ∷ []

advance_drops_example :
    (l : BufList) × (Buf.advance 3 two_buffers ≡ some l)
    × (contents l ≡ drop 3 (contents two_buffers))
unfolding contents
advance_drops_example = advance_drops 3 two_buffers (omega arith)

-- A stream that has one byte of a frame, and a transport that brings the rest and ends.
abbrev started : FrameStream
started = record {
  decoder = record { expected = none; src = (0x07 ∷ []) ∷ [] };
  eos = false;
  remaining_data = 0;
}

abbrev answers : List Event
answers = bytes (0x01 ∷ 0x05 ∷ []) ∷ fin ∷ []

poll_next-Delivers_example : Delivers started answers (poll_next started answers)
unfolding contents
poll_next-Delivers_example =
    poll_next-Delivers started answers refl
      (fresh-IsConsistent started.decoder.src (omega arith, tt)) (omega arith, tt)
      ((omega arith, (omega arith, (omega arith, tt))), (tt, tt))

-- A stream that waits for five bytes of data and has two.
abbrev reading : FrameStream
reading = record {
  decoder = record { expected = none; src = (1 ∷ 2 ∷ []) ∷ [] };
  eos = false;
  remaining_data = 5;
}

-- A transport that brings no bytes breaks the assertion of `push_bytes`.
empty_chunk_panics : (poll_data reading (bytes [] ∷ [])).0 ≡ ready panic
unfolding poll_data
empty_chunk_panics = refl

-- A cursor that meets a buffer with nothing in it panics.
empty_buffer_panics :
    (FrameStream.decode (record { expected = none; src = [] ∷ goaway_bytes ∷ [] })).0 ≡ panic
unfolding FrameStream.decode FrameStream.decode_round Buf.has_remaining Buf.cursor
empty_buffer_panics = refl

abbrev waiting : FrameStream
waiting = record { decoder = record { expected = none; src = [] }; eos = false; remaining_data = 5 }

cut_payload-panic_example :
    ((poll_data waiting (fin ∷ [])).0 ≡ ready (ok none))
    × ((poll_next (poll_data waiting (fin ∷ [])).1 []).0 ≡ ready panic)
cut_payload-panic_example = cut_payload-panic waiting [] refl refl (λ e. omega arith)

abbrev addresses : VirtualAddressSpace
addresses = record { inserted = 21; dropped = 15; delta = 6 }

add-drop-IsBalanced_example :
    IsBalanced (add addresses).1
    × (Vas.index (add addresses).1 6 ≡ ok (add addresses).0)
    × (((addresses.delta ≡ 0) × (Vas.drop addresses ≡ none))
        ⊎ ((w : VirtualAddressSpace) × (Vas.drop addresses ≡ some w)
            × IsBalanced w
            × (evicted w (15 + 1) ≡ true)
            × (evicted w (15 + 2) ≡ false)))
add-drop-IsBalanced_example = add-drop-IsBalanced addresses refl

-- The integers of RFC 7541, appendix C.1.
decode-encode_int_example :
    PrefixInt.decode 5 (0x1F ∷ 0x9A ∷ 0x0A ∷ 0x07 ∷ []) ≡ (ok (0, 1337), 0x07 ∷ [])
unfolding PrefixInt.encode PrefixInt.encode_loop
decode-encode_int_example =
    decode-encode_int 5 0 1337 (0x1F ∷ 0x9A ∷ 0x0A ∷ []) (0x07 ∷ []) (omega arith) (omega arith)
      (omega arith) refl

get-new_example :
    (p : HeaderPrefix) × (Prefix.new 9 7 10 128 ≡ some p) × (Prefix.get p 11 128 ≡ ok (9, 7))
get-new_example =
    get-new 9 7 10 11 128 (omega arith) (omega arith) (omega arith) (omega arith) (omega arith)
      (omega arith)

abbrev some_prefix : HeaderPrefix
some_prefix = record { encoded_insert_count = 2; sign_negative = true; delta_base = 1 }

decode-encode_prefix_example : Prefix.decode (0x02 ∷ 0x81 ∷ 0x07 ∷ []) ≡ (ok some_prefix, 0x07 ∷ [])
unfolding Prefix.encode PrefixInt.encode
decode-encode_prefix_example =
    decode-encode_prefix some_prefix (0x02 ∷ 0x81 ∷ []) (0x07 ∷ []) (omega arith) (omega arith) refl

get-find_example : get 17 ≡ ok (entry ":method" "GET")
unfolding find match_field
get-find_example = get-find (entry ":method" "GET") 17 refl

parse-bytes_of_example : parse (0x84 ∷ 0x07 ∷ []) ≡ (ok (some (untrack 4)), 0x07 ∷ [])
unfolding Instruction.encode_ack PrefixInt.encode
parse-bytes_of_example = parse-bytes_of (untrack 4) (0x84 ∷ []) (0x07 ∷ []) (omega arith) refl

session-ne-stream_example : stream_of_session (session_of_stream 4) ≢ 4
session-ne-stream_example = session-ne-stream 4 (omega arith)

abbrev far_base : HeaderPrefix
far_base = record { encoded_insert_count = 1; sign_negative = true; delta_base = 2 ^ 63 }

abbrev near_base : HeaderPrefix
near_base = record { encoded_insert_count = 1; sign_negative = true; delta_base = 20 }

-- A base too far below zero is cast to a number above it, or overflows the subtraction.
base_wraps : base_of far_base 0x10 ≡ panic
unfolding base_of
base_wraps = refl

bad_base_test : base_of near_base 0x10 ≡ err (invalid_base (negsuc 4))
unfolding base_of
bad_base_test = refl

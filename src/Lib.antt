-- ===== src/Lib.antt =====
-- Verification of h3, an HTTP/3 library in Rust: the frame layer, the buffers and streams under it,
-- and the parts of the field compression QPACK on which its tables rest.
--
-- How the parts interact. A QUIC stream delivers chunks of bytes. `BufRecvStream` (h3/src/stream.rs)
-- keeps them in a `BufList` (h3/src/buf.rs). `FrameDecoder` (h3/src/frame.rs) looks at them through a
-- cursor, calls `Frame::decode` (h3/src/proto/frame.rs) and advances the list past what was decoded;
-- `FrameStream` drives both and hands out frames and the data of their payloads. `Frame::decode` and
-- `Frame::encode` use the variable-length integers of h3/src/proto/varint.rs, the identifiers of
-- h3/src/proto/stream.rs and h3/src/proto/push.rs, and the settings of h3/src/proto/frame.rs. QPACK
-- (h3/src/qpack) writes header fields as field lines, which name an entry of the static table, an
-- address in a table that grows and is emptied, or hold strings in a Huffman code; the client and the
-- server use `encode_stateless` and `decode_stateless`, which leave that second table alone.
--
-- Which file models which part:
--   Prelude        shared names, results of fallible code, readers of bytes, lists, bits
--   Proto.VarInt   h3/src/proto/varint.rs and the byte codec of h3/src/proto/coding.rs
--   Proto.Stream   h3/src/proto/stream.rs, h3/src/proto/push.rs, h3/src/webtransport/session_id.rs
--   Proto.Settings the settings of h3/src/proto/frame.rs
--   Proto.Frame    the frames of h3/src/proto/frame.rs
--   Buf            h3/src/buf.rs
--   Quic           the errors of h3/src/quic.rs and the answers of a receive stream
--   FrameStream    h3/src/frame.rs and `BufRecvStream::poll_read` of h3/src/stream.rs
--   Qpack.Vas      h3/src/qpack/vas.rs
--   Qpack.PrefixInt h3/src/qpack/prefix_int.rs
--   Qpack.Prefix   `HeaderPrefix` of h3/src/qpack/block.rs
--   Qpack.FieldLine the field lines without strings of h3/src/qpack/block.rs
--   Qpack.Literals the field lines with strings of h3/src/qpack/block.rs
--   Qpack.Huffman  h3/src/qpack/prefix_string/bitwin.rs; its children Decoder and Tree are decode.rs
--                  beside it, Encoder and Codes encode.rs, the others proofs
--   Qpack.PrefixString h3/src/qpack/prefix_string/mod.rs
--   Qpack.DynamicTable the table of h3/src/qpack/dynamic.rs and its decoder
--   Qpack.Stateless `encode_stateless` of h3/src/qpack/encoder.rs and `decode_stateless` of
--                  h3/src/qpack/decoder.rs
--   Qpack.Parse    h3/src/qpack/parse_error.rs
--   Qpack.Instruction the instructions without strings of h3/src/qpack/stream.rs, and `Action::parse` of
--                  h3/src/qpack/encoder.rs
--   Qpack.Insert   the two insertions with strings of h3/src/qpack/stream.rs
--   Qpack.Decoder  `Decoder::parse_instruction` of h3/src/qpack/decoder.rs, on the first chunk of the
--                  buffer, which is all that it reads
--   Qpack.Field    h3/src/qpack/field.rs
--   Qpack.Static   h3/src/qpack/static_.rs, whose `match`es are read as lists of arms
--   Examples       tests, and the theorems at concrete inputs
-- Their child modules hold the proofs.
--
-- How code corresponds to definitions. Names are the source's, in snake case. A newtype over a number
-- is that number. A buffer is the list of the bytes that it still holds, so a generic `Buf` is read as
-- any sequence of bytes; a reader returns its result and the bytes that it leaves, and a writer the
-- bytes that it puts. A method that changes `self` returns the new value. `Result` is `Outcome`, whose
-- third constructor is a panic; code without an error type that may panic returns an `Option`, where
-- `none` is the panic. The assertions of `BufList` are part of the model, the debug assertions
-- of the Huffman encoder are not, and overflow checks are
-- written out where the code can reach them: `usize` and `u64` are 64 bits wide and a sum of lengths of buffers that exist
-- fits. The transport is a list of events that the environment chooses, one for each poll; where the
-- list ends the transport is not ready. Where `poll_next` calls the transport more than once, it takes
-- several events. `FrameDecoder` reads through a `Cursor` by its `remaining`, `chunk` and `advance`;
-- since `chunk` has to give bytes where some remain, as the contract of `Buf` says, an empty buffer
-- with bytes behind it is read as a panic, even where the frame ends before it.
--
-- Bounds and fuel. `Settings::decode` runs for at most as many rounds as there are bytes, since a
-- round takes two; `FrameDecoder::decode` for one more than there are bytes, since a round that goes
-- on takes one at least; that this is enough is part of the theorems on them. The loops of
-- `prefix_int` have nine rounds, after which the code itself stops, and ten, the digits of a `u64`. The
-- decoder of Huffman codes has one step for each bit and one more, since a code has a bit at least,
-- and `decode_stateless` one for each byte and one more; that this is enough is part of the theorems on
-- them.
-- A window of bits has its position as a number. The test of `read_bits` has its sums in a `u32`, and
-- panics where they do not fit; for fewer than 2^29 - 1 bytes they do.
--
-- What is not modelled, and why: waking of tasks and everything that is asynchronous glue (client,
-- server, h3-quinn, h3-webtransport, h3-datagram), the formatting of values, the
-- conversion to types of the http crate, the connection, the tracking of references in the dynamic
-- table and its encoder, the loops of the decoder that uses it, and the sending side. The random numbers
-- of grease values are parameters.
pub mod Prelude
pub mod Proto
pub mod Buf
pub mod Quic
pub mod FrameStream
pub mod Qpack
mod Examples

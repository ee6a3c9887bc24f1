-- ===== src/Quic.antt =====
-- The errors of h3/src/quic.rs, and what a QUIC receive stream gives to one poll. The transport is not
-- part of h3: what it delivers is a list of events that the environment chooses.
use h.Prelude.{ℕ, List}

-- The payloads of `InternalError` and `Undefined` only serve a log and are left out.
pub data ConnectionErrorIncoming : Type 0 where
  application_close connection_closed : ℕ → ConnectionErrorIncoming
  timeout internal_error undefined : ConnectionErrorIncoming

pub data StreamErrorIncoming : Type 0 where
  connection_error : ConnectionErrorIncoming → StreamErrorIncoming
  stream_terminated : ℕ → StreamErrorIncoming
  unknown : StreamErrorIncoming

-- What `RecvStream::poll_data` answers: not ready, some bytes, the end, or an error.
pub data Event : Type 0 where
  wait : Event
  bytes : List ℕ → Event
  fin : Event
  failed : StreamErrorIncoming → Event

pub data Poll {ℓ} (A : Type ℓ) : Type ℓ where
  ready : A → Poll A
  pending : Poll A

-- ===== src/Proto.antt =====
-- The wire formats of h3/src/proto.
pub mod VarInt
pub mod Stream
pub mod Settings
pub mod Frame

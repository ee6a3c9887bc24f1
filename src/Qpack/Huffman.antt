-- ===== src/Qpack/Huffman.antt =====
-- h3/src/qpack/prefix_string/bitwin.rs: a window of bits in a sequence of bytes; its child modules are
-- the Huffman code of h3/src/qpack/prefix_string.
pub mod BitString
pub mod Decoder
pub mod Tree
pub mod Encoder
pub mod Codes
pub mod Reading
pub mod Walk
pub mod Ending
pub mod Agreement
pub mod Masks
pub mod Bytes
pub mod Writing
pub mod Encoding
pub mod RoundTrip
pub mod Total
use h.Prelude.{ℕ, ◌+◌, ◌-◌, ◌/◌, ◌%◌}

pub record BitWindow : Type 0 where
  pub byte : ℕ
  pub bit : ℕ
  pub count : ℕ

-- `BitWindow::new`
unfoldable pub start : BitWindow
start = record { byte = 0; bit = 0; count = 0 }

unfoldable pub forwards : ℕ → BitWindow → BitWindow
forwards step w = record {
  byte = w.byte + (w.bit + w.count) / 8;
  bit = (w.bit + w.count) % 8;
  count = step;
}

unfoldable pub opposite_bit_window : BitWindow → BitWindow
opposite_bit_window w = record { byte = w.byte; bit = w.bit; count = 8 - w.bit % 8 }

-- ===== src/Qpack.antt =====
-- h3/src/qpack: the field compression of HTTP/3.
pub mod Vas
pub mod PrefixInt
pub mod Parse
pub mod Instruction
pub mod Prefix
pub mod FieldLine
pub mod Field
pub mod Static
pub mod Huffman
pub mod PrefixString
pub mod Literals
pub mod Stateless
pub mod Insert
pub mod Decoder
pub mod DynamicTable

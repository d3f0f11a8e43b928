-- ===== src/H2.antt =====
-- The HTTP/2 half of the library: include/protocols/h2.hpp, include/protocols/h2/ and
-- src/protocols/h2/.
pub mod VarInt
pub mod Frame
pub mod Huffman
pub mod Headers
pub mod Hpack
pub mod Connection

-- ===== src/Text.antt =====
-- Go strings as lists of bytes, the functions of packages strings, encoding/hex and
-- encoding/base64 that the program calls, and Go maps with string keys.
pub mod Bytes
pub mod Strings
pub mod Trim
pub mod Hex
pub mod Dict
pub mod Base64
pub mod Graphic
pub mod Order
pub mod Paths

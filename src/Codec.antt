-- ===== src/Codec.antt =====
-- The encodings of Go's standard library through which the nodes pass keys and shares: crypto/cipher
-- (CFB mode), encoding/base64, encoding/hex and the text and byte forms of math/big.
pub mod Xor
pub mod BigInt
pub mod Hex
pub mod Base64
pub mod Cfb

-- ===== src/Crypto.antt =====
-- Encryption of journal text, gubbi/crypto/cipher.py.
pub mod Utf8
pub mod Codec
pub mod Cipher
pub mod Roundtrip
mod Tests

-- ===== src/Crypto/Cipher.antt =====
-- ContentCipher and the helpers around it, gubbi/crypto/cipher.py. AES-GCM is the cryptography package's:
-- its two operations are a parameter. The bytes that `secrets` draws are an argument.
use gubbi.Prelude.{
  ℕ, Bool, true, ◌&&◌, not, Option, none, some, List, [], ◌∷◌, leb, if◌then◌else◌, ◌==◌, nat_eq,
  length, max,
}
use gubbi.Crypto.Utf8.{Bytes, Text, encode, decode}

-- AESGCM(key).encrypt and .decrypt without associated data; `none` is InvalidTag.
pub record Aead : Type 0 where
  pub seal : (key nonce plaintext : Bytes) → Bytes
  pub unseal : (key nonce ciphertext : Bytes) → Option Bytes

abbrev pub Keys : Type 0
Keys = List (ℕ × Bytes)

abbrev pub key_len : ℕ
key_len = 32

abbrev pub nonce_len : ℕ
nonce_len = 12

-- `keys.get(version)`.
unfoldable pub key_of : ℕ → Keys → Option Bytes
key_of v [] = none
key_of v ((w, k) ∷ ks) = let rest = key_of v ks in if w == v then some k else rest

abbrev pub valid_key : ℕ → Bytes → Bool
valid_key v k = leb 1 v && leb v 255 && length k == key_len

unfoldable pub all_valid : Keys → Bool
all_valid [] = true
all_valid ((v, k) ∷ ks) = valid_key v k && all_valid ks

unfoldable pub max_version : Keys → ℕ
max_version [] = 0
max_version ((v, k) ∷ ks) = max v (max_version ks)

pub record ContentCipher : Type 0 where
  pub keys : Keys
  pub active_version : ℕ

-- The constructor; `none` is a ValueError.
unfoldable pub content_cipher : Keys → Option ContentCipher
unfolding all_valid max_version
content_cipher [] = none
content_cipher ((v, k) ∷ ks) =
    if all_valid ((v, k) ∷ ks)
    then some (record { keys = (v, k) ∷ ks; active_version = max_version ((v, k) ∷ ks) })
    else none

-- What encryption gives: the ciphertext and the nonce, or a ValueError.
pub data Encrypted : Type 0 where
  sealed : (ciphertext nonce : Bytes) → Encrypted
  value_error : Encrypted

pub data Decrypted : Type 0 where
  opened : Text → Decrypted
  value_error invalid_tag : Decrypted

-- UnicodeDecodeError is a ValueError.
abbrev pub decoded : Option Text → Decrypted
decoded none = Decrypted.value_error
decoded (some text) = opened text

abbrev pub decode_plaintext : Option Bytes → Decrypted
unfolding decode
decode_plaintext none = invalid_tag
decode_plaintext (some plaintext) = decoded (decode plaintext)

-- `nonce[0]` picks the key.
abbrev pub first_byte : Bytes → ℕ
first_byte [] = 0
first_byte (b ∷ bs) = b

-- Every failure is one DecryptionError, `none`.
abbrev pub flatten : Decrypted → Option Text
flatten (opened text) = some text
flatten Decrypted.value_error = none
flatten invalid_tag = none

abbrev pub present : Option Text → Option (Option Text)
present none = none
present (some text) = some (some text)

module _ (aead : Aead) where
  abbrev pub seal_text : Bytes → Bytes → Option Bytes → Encrypted
  seal_text key nonce none = Encrypted.value_error
  seal_text key nonce (some plaintext) = sealed (aead.seal key nonce plaintext) nonce

  abbrev pub seal_with : ℕ → Bytes → Text → Option Bytes → Encrypted
  seal_with version drawn plaintext none = Encrypted.value_error
  seal_with version drawn plaintext (some key) = seal_text key (version ∷ drawn) (encode plaintext)

  -- `drawn` is token_bytes(11).
  unfoldable pub encrypt_with_version : ContentCipher → Bytes → Text → ℕ → Encrypted
  unfolding key_of encode
  encrypt_with_version cipher drawn plaintext version =
      seal_with version drawn plaintext (key_of version cipher.keys)

  unfoldable pub encrypt : ContentCipher → Bytes → Text → Encrypted
  unfolding encrypt_with_version
  encrypt cipher drawn plaintext = encrypt_with_version cipher drawn plaintext cipher.active_version

  abbrev pub unseal_with : Option Bytes → Bytes → Bytes → Decrypted
  unseal_with none ciphertext nonce = Decrypted.value_error
  unseal_with (some key) ciphertext nonce = decode_plaintext (aead.unseal key nonce ciphertext)

  unfoldable pub decrypt : ContentCipher → Bytes → Bytes → Decrypted
  unfolding key_of decode
  decrypt cipher ciphertext nonce =
      if not (length nonce == nonce_len)
      then Decrypted.value_error
      else unseal_with (key_of (first_byte nonce) cipher.keys) ciphertext nonce

  unfoldable pub decrypt_or_raise : ContentCipher → Bytes → Bytes → Option Text
  unfolding decrypt
  decrypt_or_raise cipher ciphertext nonce = flatten (decrypt cipher ciphertext nonce)

  -- A pair of columns, each of which may be NULL: a text, no text, or a DecryptionError.
  unfoldable pub decrypt_content_field :
      ContentCipher → Option Bytes → Option Bytes → Option (Option Text)
  unfolding decrypt_or_raise
  decrypt_content_field cipher (some ciphertext) (some nonce) =
      present (decrypt_or_raise cipher ciphertext nonce)
  decrypt_content_field cipher none none = some none
  decrypt_content_field cipher (some ciphertext) none = none
  decrypt_content_field cipher none (some nonce) = none

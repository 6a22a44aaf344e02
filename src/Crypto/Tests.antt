-- ===== src/Crypto/Tests.antt =====
-- Runs of the cipher model with a cipher that hides nothing.
use gubbi.Prelude.{ℕ, ◌≡◌, refl, Option, none, some, [], ◌∷◌, length, nat_eq}
use gubbi.Crypto.Utf8.{Bytes, Text, encode, decode}
use gubbi.Crypto.Cipher.{
  Aead, ContentCipher, content_cipher, key_of, sealed, encrypt_with_version, encrypt,
  decrypt_content_field, first_byte, nonce_len,
}
use gubbi.Crypto.Roundtrip.{decrypt-encrypt, decrypt-encrypt_with_version}

-- The sealed text is the nonce and the plaintext.
abbrev plain : Aead
plain = record { seal = λ k n p. p; unseal = λ k n c. some c }

abbrev zeros : ℕ → Bytes
zeros = λ n. 0 ∷ n ∷ 0 ∷ 0 ∷ 0 ∷ 0 ∷ 0 ∷ 0 ∷ 0 ∷ 0 ∷ 0 ∷ []

abbrev key_1 : Bytes
key_1 =
    1 ∷ 2 ∷ 3 ∷ 4 ∷ 5 ∷ 6 ∷ 7 ∷ 8 ∷ 9 ∷ 10 ∷ 11 ∷ 12 ∷ 13 ∷ 14 ∷ 15 ∷ 16 ∷ 17 ∷ 18 ∷ 19 ∷ 20 ∷ 21
    ∷ 22 ∷ 23 ∷ 24 ∷ 25 ∷ 26 ∷ 27 ∷ 28 ∷ 29 ∷ 30 ∷ 31 ∷ 32 ∷ []

abbrev first_cipher : ContentCipher
first_cipher = record { keys = (1, key_1) ∷ []; active_version = 1 }

abbrev later_cipher : ContentCipher
later_cipher = record { keys = (2, key_1) ∷ (1, key_1) ∷ []; active_version = 2 }

-- A letter, an accented letter, the euro sign and an emoji.
abbrev sample : Text
sample = 97 ∷ 233 ∷ 8364 ∷ 128512 ∷ []

abbrev sample_bytes : Bytes
sample_bytes = 97 ∷ 195 ∷ 169 ∷ 226 ∷ 130 ∷ 172 ∷ 240 ∷ 159 ∷ 152 ∷ 128 ∷ []

encode_test : encode sample ≡ some sample_bytes
unfolding encode
encode_test = refl

decode_test_sample : decode sample_bytes ≡ some sample
unfolding decode
decode_test_sample = refl

-- An overlong encoding of "/" is refused.
decode_test : decode (192 ∷ 175 ∷ []) ≡ none
unfolding decode
decode_test = refl

decrypt-encrypt_with_version_example :
    (1 ∷ zeros 9 ≡ 1 ∷ zeros 9)
    × (length (1 ∷ zeros 9) ≡ nonce_len)
    × (decrypt_content_field plain later_cipher (some sample_bytes) (some (1 ∷ zeros 9))
        ≡ some (some sample))
unfolding encrypt_with_version key_of nat_eq
decrypt-encrypt_with_version_example =
    decrypt-encrypt_with_version plain (λ k n p. refl) first_cipher later_cipher (zeros 9)
      sample_bytes (1 ∷ zeros 9) sample 1 refl refl refl

decrypt-encrypt_example :
    (ciphertext : Bytes) × (nonce : Bytes) × (encrypt plain first_cipher (zeros 9) sample
      ≡ sealed ciphertext nonce)
    × (first_byte nonce ≡ first_cipher.active_version)
    × (decrypt_content_field plain first_cipher (some ciphertext) (some nonce) ≡ some (some sample))
unfolding content_cipher nat_eq
decrypt-encrypt_example =
    decrypt-encrypt plain (λ k n p. refl) ((1, key_1) ∷ []) first_cipher (zeros 9) sample refl refl
      (refl, (refl, (refl, (refl, tt))))

abbrev no_column : Option Bytes
no_column = none

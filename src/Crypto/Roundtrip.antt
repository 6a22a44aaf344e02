-- ===== src/Crypto/Roundtrip.antt =====
-- What a cipher has encrypted can be read again, also under later keys.
use gubbi.Prelude.{
  ℕ, ◌≡◌, refl, ◌∙◌, subst, true, Option, none, some, [], ◌∷◌, leb, Bool-cases, Option-cases, inl,
  inr, arith, nat_eq, length, All,
}
use gubbi.Crypto.Utf8.{Bytes, Text, encode, is_scalar}
use gubbi.Crypto.Codec.{decode-encode, encode_total}
use gubbi.Crypto.Cipher.{
  Aead, Keys, ContentCipher, content_cipher, key_of, max_version, nonce_len, sealed,
  encrypt_with_version, encrypt, decrypt, decrypt_or_raise, decrypt_content_field, first_byte,
  decode_plaintext,
}

-- The documented behaviour of AES-GCM: what was sealed opens under the same key and nonce.
abbrev pub Opens : Aead → Type 0
Opens aead =
    (key nonce plaintext : Bytes)
    → aead.unseal key nonce (aead.seal key nonce plaintext) ≡ some plaintext

module _ (aead : Aead) (opens : Opens aead) where
  decrypt_sealed :
      (cipher : ContentCipher) (key drawn plaintext : Bytes) (version : ℕ) (t : Text)
      → length drawn ≡ 11
      → key_of version cipher.keys ≡ some key
      → encode t ≡ some plaintext
      → decrypt_content_field aead cipher
          (some (aead.seal key (version ∷ drawn) plaintext))
          (some (version ∷ drawn))
        ≡ some (some t)
  unfolding decrypt_content_field decrypt_or_raise decrypt nat_eq
  decrypt_sealed cipher key drawn plaintext version t len known text =
      rw
        (
          len,
          known,
          opens key (version ∷ drawn) plaintext,
          decode_plaintext,
          decode-encode t plaintext text,
        )
        refl

  -- Where AES-GCM opens what it sealed: a text that was encrypted under some version, with eleven
  -- drawn bytes, has a nonce of twelve bytes that starts with the version, and any cipher that
  -- holds the same key for that version reads the text back. Adding keys loses nothing.
  pub decrypt-encrypt_with_version :
      (old new : ContentCipher) (drawn ciphertext nonce : Bytes) (t : Text) (version : ℕ)
      → length drawn ≡ 11
      → encrypt_with_version aead old drawn t version ≡ sealed ciphertext nonce
      → key_of version new.keys ≡ key_of version old.keys
      → (nonce ≡ version ∷ drawn)
        × (length nonce ≡ nonce_len)
        × (decrypt_content_field aead new (some ciphertext) (some nonce) ≡ some (some t))
  unfolding encrypt_with_version
  decrypt-encrypt_with_version old new drawn ciphertext nonce t version len done same =
      elim (Option-cases (key_of version old.keys)) [
        | inl unknown ↦ ground arith
        | inr (key, known) ↦ elim (Option-cases (encode t)) [
          | inl surrogate ↦ ground arith
          | inr (plaintext, text) ↦
              let read = decrypt_sealed new key drawn plaintext version t len (same ∙ known) text in
              (ground arith, ground arith, ground (arith, read))
        ]
      ]

-- The highest version has a key, and is within bounds where all are.
key_of-max_version :
    (v : ℕ) (k : Bytes) (ks : Keys)
    → (key : Bytes) × (key_of (max_version ((v, k) ∷ ks)) ((v, k) ∷ ks) ≡ some key)
unfolding key_of max_version
key_of-max_version v k [] = (k, ground arith)
key_of-max_version v k ((w, l) ∷ ks) =
    let (key, found) = key_of-max_version w l ks in
    elim (Bool-cases (leb (max_version ((w, l) ∷ ks)) v)) [
      | inl top ↦ (k, ground arith)
      | inr below ↦ (key, ground (arith, found))
    ]

accepted :
    (v : ℕ) (k : Bytes) (ks : Keys) (cipher : ContentCipher)
    → content_cipher ((v, k) ∷ ks) ≡ some cipher
    → record { keys = (v, k) ∷ ks; active_version = max_version ((v, k) ∷ ks) } ≡ cipher
unfolding content_cipher
accepted v k ks cipher made = ground arith

module _ (aead : Aead) (opens : Opens aead) where
  -- Where AES-GCM opens what it sealed: a cipher that the constructor accepts encrypts every text
  -- without surrogates, with eleven drawn bytes and under its active version, and reads it back.
  pub decrypt-encrypt :
      (keys : Keys) (cipher : ContentCipher) (drawn : Bytes) (t : Text)
      → content_cipher keys ≡ some cipher
      → length drawn ≡ 11
      → All (λ c. is_scalar c ≡ true) t
      → (ciphertext : Bytes) × (nonce : Bytes) × (encrypt aead cipher drawn t
          ≡ sealed ciphertext nonce)
        × (first_byte nonce ≡ cipher.active_version)
        × (decrypt_content_field aead cipher (some ciphertext) (some nonce) ≡ some (some t))
  unfolding encrypt content_cipher
  decrypt-encrypt [] cipher drawn t made len scalars = ground arith
  decrypt-encrypt ((v, k) ∷ ks) cipher drawn t made len scalars =
      let (plaintext, text) = encode_total t scalars in
      let (key, known) = key_of-max_version v k ks in
      let cipher' : ContentCipher = record {
        keys = (v, k) ∷ ks;
        active_version = max_version ((v, k) ∷ ks);
      } in
      let same : cipher' ≡ cipher = accepted v k ks cipher made in
      subst
        (λ c.
          (ciphertext : Bytes) × (nonce : Bytes) × (encrypt aead c drawn t
            ≡ sealed ciphertext nonce)
          × (first_byte nonce ≡ c.active_version)
          × (decrypt_content_field aead c (some ciphertext) (some nonce) ≡ some (some t)))
        same
        (
          aead.seal key (cipher'.active_version ∷ drawn) plaintext,
          cipher'.active_version ∷ drawn,
          rw (known, encrypt_with_version, text) refl,
          refl,
          decrypt_sealed aead opens cipher' key drawn plaintext cipher'.active_version t len known
              text,
        )

module _ (aead : Aead) where
  -- A column pair reads as no value only if both columns are NULL: a lost column or a failed decryption
  -- never passes for an empty field.
  pub decrypt_content_field_null :
      (cipher : ContentCipher) (ciphertext nonce : Option Bytes)
      → decrypt_content_field aead cipher ciphertext nonce ≡ some none
      → (ciphertext ≡ none) × (nonce ≡ none)
  unfolding decrypt_content_field
  decrypt_content_field_null cipher none none h = (refl, refl)
  decrypt_content_field_null cipher (some c) none h = ground arith
  decrypt_content_field_null cipher none (some n) h = ground arith
  decrypt_content_field_null cipher (some c) (some n) h =
      elim (Option-cases (decrypt_or_raise aead cipher c n)) [
        | inl bad ↦ ground arith
        | inr (t, good) ↦ ground arith
      ]

-- ===== src/Crypto/Codec.antt =====
-- Decoding gives back what encoding made: Python's UTF-8 codec on texts without surrogates.
use gubbi.Prelude.{
  ℕ, suc, ◌+◌, ◌*◌, ◌/◌, ◌%◌, ◌≤◌, ◌<◌, ◌≡◌, refl, ◌∙◌, ap, subst, true, ◌&&◌, Option, none, some,
  [], ◌∷◌, ◌++◌, ltb, leb, Bool-cases, Option-cases, inl, inr, arith, All,
}
use gubbi.Crypto.Utf8.{
  Bytes, Text, encode_char, encode, Progress, between, inside, is_scalar, next_byte, prepend,
  decode_from, decode, join,
}

decode_from-step :
    (p q : Progress) (b : ℕ) (bs : Bytes) (out : Text)
    → next_byte p b ≡ some (q, out)
    → decode_from p (b ∷ bs) ≡ prepend out (decode_from q bs)
unfolding decode_from
decode_from-step p q b bs out h = rw (h, decode_from) refl

prepend_nil : (o : Option Text) → prepend [] o ≡ o
prepend_nil none = refl
prepend_nil (some t) = refl

module _ (c : ℕ) (bs : Bytes) where
  abbrev Decodes : Bytes → Type 0
  Decodes front = decode_from between (front ++ bs) ≡ prepend (c ∷ []) (decode_from between bs)

  -- A continuation byte inside a character, and one that ends it.
  continue_byte :
      (left value least b : ℕ)
      → b < 64
      → next_byte (inside (suc left) value least) (128 + b)
        ≡ some (inside left (value * 64 + b) least, [])
  unfolding next_byte
  continue_byte left value least b h = ground arith

  last_byte :
      (value least b : ℕ)
      → b < 64
      → value * 64 + b ≡ c
      → least ≤ c
      → is_scalar c ≡ true
      → next_byte (inside 0 value least) (128 + b) ≡ some (between, c ∷ [])
  unfolding next_byte
  last_byte value least b h same low scalar = ground arith

  two_bytes : 128 ≤ c → c < 2048 → Decodes ((192 + c / 64) ∷ (128 + c % 64) ∷ [])
  unfolding next_byte
  two_bytes low high =
      decode_from-step between (inside 0 (c / 64) 128) (192 + c / 64) ((128 + c % 64) ∷ bs) []
        (ground arith)
      ∙ prepend_nil _
      ∙ decode_from-step (inside 0 (c / 64) 128) between (128 + c % 64) bs (c ∷ [])
          (last_byte (c / 64) 128 (c % 64) (omega arith) (omega arith) low (ground arith))

  three_bytes :
      2048 ≤ c
      → c < 65536
      → is_scalar c ≡ true
      → Decodes ((224 + c / 4096) ∷ (128 + c / 64 % 64) ∷ (128 + c % 64) ∷ [])
  unfolding next_byte
  three_bytes low high scalar =
      decode_from-step between (inside 1 (c / 4096) 2048) (224 + c / 4096)
        ((128 + c / 64 % 64) ∷ (128 + c % 64) ∷ bs) [] (ground arith)
      ∙ prepend_nil _
      ∙ decode_from-step (inside 1 (c / 4096) 2048) (inside 0 (c / 4096 * 64 + c / 64 % 64) 2048)
          (128 + c / 64 % 64) ((128 + c % 64) ∷ bs) []
          (continue_byte 0 (c / 4096) 2048 (c / 64 % 64) (omega arith))
      ∙ prepend_nil _
      ∙ decode_from-step (inside 0 (c / 4096 * 64 + c / 64 % 64) 2048) between (128 + c % 64) bs
          (c ∷ [])
          (last_byte (c / 4096 * 64 + c / 64 % 64) 2048 (c % 64) (omega arith) (omega arith) low
            scalar)

  four_bytes :
      65536 ≤ c
      → c < 1114112
      → Decodes
          ((240 + c / 262144) ∷ (128 + c / 4096 % 64) ∷ (128 + c / 64 % 64) ∷ (128 + c % 64) ∷ [])
  unfolding next_byte
  four_bytes low high =
      let v2 = c / 262144 * 64 + c / 4096 % 64 in
      let v3 = v2 * 64 + c / 64 % 64 in
      decode_from-step between (inside 2 (c / 262144) 65536) (240 + c / 262144)
        ((128 + c / 4096 % 64) ∷ (128 + c / 64 % 64) ∷ (128 + c % 64) ∷ bs) [] (ground arith)
      ∙ prepend_nil _
      ∙ decode_from-step (inside 2 (c / 262144) 65536) (inside 1 v2 65536) (128 + c / 4096 % 64)
          ((128 + c / 64 % 64) ∷ (128 + c % 64) ∷ bs) []
          (continue_byte 1 (c / 262144) 65536 (c / 4096 % 64) (omega arith))
      ∙ prepend_nil _
      ∙ decode_from-step (inside 1 v2 65536) (inside 0 v3 65536) (128 + c / 64 % 64)
          ((128 + c % 64) ∷ bs) [] (continue_byte 0 v2 65536 (c / 64 % 64) (omega arith))
      ∙ prepend_nil _
      ∙ decode_from-step (inside 0 v3 65536) between (128 + c % 64) bs (c ∷ [])
          (last_byte v3 65536 (c % 64) (omega arith) (omega arith) low (ground arith))

  one_byte : c < 128 → Decodes (c ∷ [])
  unfolding next_byte
  one_byte low = decode_from-step between between c bs (c ∷ []) (ground arith)

  abbrev moved : (x front : Bytes) → x ≡ front → Decodes x → Decodes front
  moved x front same d = subst Decodes same d

  decode_from-encode_char : (front : Bytes) → encode_char c ≡ some front → Decodes front
  unfolding encode_char
  decode_from-encode_char front h = elim (Bool-cases (ltb c 128)) [
    | inl one ↦ moved (c ∷ []) front (ground arith) (one_byte (ground arith))
    | inr e ↦ elim (Bool-cases (ltb c 2048)) [
      | inl two ↦
          moved ((192 + c / 64) ∷ (128 + c % 64) ∷ []) front (ground arith)
            (two_bytes (ground arith) (ground arith))
      | inr f ↦ elim (Bool-cases (leb 55296 c && ltb c 57344)) [
        | inl surrogate ↦ ground arith
        | inr fine ↦ elim (Bool-cases (ltb c 65536)) [
          | inl three ↦
              moved ((224 + c / 4096) ∷ (128 + c / 64 % 64) ∷ (128 + c % 64) ∷ []) front
                (ground arith) (three_bytes (ground arith) (ground arith) (ground arith))
          | inr g ↦ elim (Bool-cases (ltb c 1114112)) [
            | inl four ↦
                moved
                  ((240 + c / 262144)
                    ∷ (128 + c / 4096 % 64)
                    ∷ (128 + c / 64 % 64)
                    ∷ (128 + c % 64)
                    ∷ [])
                  front (ground arith) (four_bytes (ground arith) (ground arith))
            | inr big ↦ ground arith
          ]
        ]
      ]
    ]
  ]

-- Decoding gives back every text that can be encoded.
pub decode-encode : (t : Text) (bs : Bytes) → encode t ≡ some bs → decode bs ≡ some t
unfolding encode decode decode_from
decode-encode [] [] h = refl
decode-encode [] (b ∷ bs) h = ground arith
decode-encode (c ∷ t) bs h = elim (Option-cases (encode_char c)) [
  | inl bad ↦ ground arith
  | inr (front, one) ↦ elim (Option-cases (encode t)) [
    | inl bad ↦ ground arith
    | inr (rest, others) ↦
        subst (λ b. decode_from between b ≡ some (c ∷ t)) (joined front rest bs one others h)
          (decode_from-encode_char c rest front one
            ∙ ap (prepend (c ∷ [])) (decode-encode t rest others))
  ]
]
  where
    joined :
        (front rest bs : Bytes)
        → encode_char c ≡ some front
        → encode t ≡ some rest
        → join (encode_char c) (encode t) ≡ some bs
        → front ++ rest ≡ bs
    joined front rest bs one others h = ground arith

-- A text has an encoding unless it holds a surrogate, or a number that is no character.
pub encode_total :
    (t : Text) → All (λ c. is_scalar c ≡ true) t → (bs : Bytes) × (encode t ≡ some bs)
unfolding encode encode_char
encode_total [] h = ([], refl)
encode_total (c ∷ t) (scalar, h) =
    let (rest, others) = encode_total t h in
    elim (Option-cases (encode_char c)) [
      | inl bad ↦ ground arith
      | inr (front, one) ↦ (front ++ rest, ground arith)
    ]

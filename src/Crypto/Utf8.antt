-- ===== src/Crypto/Utf8.antt =====
-- Python's strict UTF-8 codec on texts, which are lists of code points.
use gubbi.Prelude.{
  ℕ, zero, suc, ◌+◌, ◌-◌, ◌*◌, ◌/◌, ◌%◌, Bool, ◌&&◌, not, Option, none, some, List, [], ◌∷◌, ◌++◌,
  ltb, leb, if◌then◌else◌,
}

abbrev pub Bytes : Type 0
Bytes = List ℕ

abbrev pub Text : Type 0
Text = List ℕ

-- The bytes of a character; `none` is the UnicodeEncodeError for a surrogate.
unfoldable pub encode_char : ℕ → Option Bytes
encode_char c =
    if ltb c 128
    then some (c ∷ [])
    else if ltb c 2048
    then some ((192 + c / 64) ∷ (128 + c % 64) ∷ [])
    else if leb 55296 c && ltb c 57344
    then none
    else if ltb c 65536
    then some ((224 + c / 4096) ∷ (128 + c / 64 % 64) ∷ (128 + c % 64) ∷ [])
    else if ltb c 1114112
    then some
        ((240 + c / 262144) ∷ (128 + c / 4096 % 64) ∷ (128 + c / 64 % 64) ∷ (128 + c % 64) ∷ [])
    else none

abbrev pub join : Option Bytes → Option Bytes → Option Bytes
join none rest = none
join (some bs) none = none
join (some bs) (some rest) = some (bs ++ rest)

-- str.encode("utf-8").
unfoldable pub encode : Text → Option Bytes
unfolding encode_char
encode [] = some []
encode (c ∷ cs) = join (encode_char c) (encode cs)

-- Between characters, or inside one: how many bytes are left after the next, what the bytes so far
-- say, and the least character that may be written with so many.
pub data Progress : Type 0 where
  between : Progress
  inside : (left value least : ℕ) → Progress

abbrev pub is_scalar : ℕ → Bool
is_scalar c = not (leb 55296 c && ltb c 57344) && ltb c 1114112

abbrev pub finish_char : ℕ → ℕ → ℕ → Option (Progress × Text)
finish_char zero value least =
    if leb least value && is_scalar value then some (between, value ∷ []) else none
finish_char (suc left) value least = some (inside left value least, [])

unfoldable pub next_byte : Progress → ℕ → Option (Progress × Text)
next_byte between b =
    if ltb b 128
    then some (between, b ∷ [])
    else if ltb b 192
    then none
    else if ltb b 224
    then some (inside 0 (b - 192) 128, [])
    else if ltb b 240
    then some (inside 1 (b - 224) 2048, [])
    else if ltb b 248
    then some (inside 2 (b - 240) 65536, [])
    else none
next_byte (inside left value least) b =
    if leb 128 b && ltb b 192 then finish_char left (value * 64 + (b - 128)) least else none

abbrev pub at_end : Progress → Option Text
at_end between = some []
at_end (inside left value least) = none

abbrev pub prepend : Text → Option Text → Option Text
prepend out none = none
prepend out (some rest) = some (out ++ rest)

unfoldable pub decode_from : Progress → Bytes → Option Text
unfolding next_byte
decode_from p [] = at_end p
decode_from p (b ∷ bs) = elim (next_byte p b) [
  | none ↦ none
  | some (q, out) ↦ prepend out (decode_from q bs)
]

-- bytes.decode("utf-8"); `none` is the UnicodeDecodeError.
unfoldable pub decode : Bytes → Option Text
unfolding decode_from
decode = decode_from between

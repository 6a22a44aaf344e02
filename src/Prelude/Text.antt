-- ===== src/Prelude/Text.antt =====
-- Texts: their code points, `" ".join`, str(), str.split() and the comparison of secrets.
use Prim.Native.Nat.{ℕ, zero, suc, ◌/◌, ◌%◌, ◌<◌}
use Prim.Native.Char.{code}
use Prim.Native.String.{String, ◌++◌}
use mathlib.Core.Bool.{Bool, true, ◌&&◌, ◌||◌}
use mathlib.Core.Option.{Option, none, some}
use mathlib.Core.List.{List, [], ◌∷◌}
use mathlib.Core.Path.{◌≡◌, refl}
use mathlib.Core.Logic.{inl, inr}
use native.Mathlib.Omega.{arith}
use gubbi.Prelude.Tests.{ltb, leb, Bool-cases, if◌then◌else◌}
use gubbi.Prelude.Equality.{◌==◌, string_eq, nat_eq, contains}

abbrev pub codes : String → List ℕ
codes String.[] = []
codes (String.◌∷◌ c s) = code c ∷ codes s

abbrev all_ascii : List ℕ → Bool
all_ascii [] = true
all_ascii (c ∷ cs) = ltb c 128 && all_ascii cs

pub is_ascii : String → Bool
is_ascii s = all_ascii (codes s)

-- secrets.compare_digest on texts: `none` is the TypeError that it raises unless both are ASCII.
unfoldable pub compare_digest : String → String → Option Bool
unfolding is_ascii
compare_digest a b = if is_ascii a && is_ascii b then some (a == b) else none

-- `" ".join(words)`.
pub join_words : List String → String
join_words [] = ""
join_words (w ∷ []) = w
join_words (w ∷ ws) = w ++ (" " ++ join_words ws)

abbrev pick : List String → ℕ → String
pick [] n = ""
pick (d ∷ ds) zero = d
pick (d ∷ ds) (suc n) = pick ds n

abbrev digit : ℕ → String
digit = pick ("0" ∷ "1" ∷ "2" ∷ "3" ∷ "4" ∷ "5" ∷ "6" ∷ "7" ∷ "8" ∷ "9" ∷ [])

-- The decimal digits of a number, on fuel: a number has no more digits than its successor.
abbrev decimal_within : ℕ → ℕ → String
decimal_within zero n = ""
decimal_within (suc fuel) n =
    let higher = decimal_within fuel (n / 10) in
    if ltb n 10 then digit n else higher ++ digit (n % 10)

-- `str(n)`.
abbrev pub decimal : ℕ → String
decimal n = decimal_within (suc n) n

-- More fuel than digits gives the same digits.
decimal_within-enough : (f g n : ℕ) → n < f → n < g → decimal_within f n ≡ decimal_within g n
decimal_within-enough zero g n h k = ground arith
decimal_within-enough (suc f) zero n h k = ground arith
decimal_within-enough (suc f) (suc g) n h k = elim (Bool-cases (ltb n 10)) [
  | inl one ↦ rw one refl
  | inr more ↦ rw (more, decimal_within-enough f g (n / 10) (ground arith) (ground arith)) refl
]

-- str.isspace() of a character.
abbrev pub is_space : ℕ → Bool
is_space c =
    leb 9 c && leb c 13
    || leb 28 c && leb c 32
    || leb 8192 c && leb c 8202
    || contains (133 ∷ 160 ∷ 5760 ∷ 8232 ∷ 8233 ∷ 8239 ∷ 8287 ∷ 12288 ∷ []) c

abbrev add_word : String → List String → List String
add_word w ws = if w == "" then ws else w ∷ ws

-- The word at the start of a text, which may be empty, and the words behind it.
abbrev first_word : String → String × List String
first_word String.[] = ("", [])
first_word (String.◌∷◌ c s) =
    let (w, ws) = first_word s in
    if is_space (code c) then ("", add_word w ws) else (String.◌∷◌ c w, ws)

-- `text.split()`.
pub split_words : String → List String
split_words s = let (w, ws) = first_word s in add_word w ws

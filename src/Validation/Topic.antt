-- ===== src/Validation/Topic.antt =====
-- validate_topic and harden_llm_topic_path of gubbi/validation.py. A text is a list of code points;
-- `lower` is str.lower().
use gubbi.Prelude.{
  ℕ, Bool, true, false, ◌&&◌, ◌||◌, not, Option, none, some, List, [], ◌∷◌, ◌==◌, nat_eq, ltb, leb,
  if◌then◌else◌, length, filter,
}

abbrev pub Text : Type 0
Text = List ℕ

-- `[a-z0-9]`, "-", "/" and the newline.
unfoldable pub is_slug_char : ℕ → Bool
is_slug_char c = leb 97 c && leb c 122 || leb 48 c && leb c 57

abbrev pub hyphen : ℕ
hyphen = 45

abbrev pub slash : ℕ
slash = 47

abbrev pub newline : ℕ
newline = 10

-- Where TOPIC_PATTERN stands in the text: at the start of a word, in a word, or behind the newline
-- that `$` lets pass at the end. `second` tells that the slash has been read.
pub data Position : Type 0 where
  need_word in_word : (second : Bool) → Position
  past_newline : Position

abbrev pub at_end : Position → Bool
at_end (need_word second) = false
at_end (in_word second) = true
at_end past_newline = true

abbrev pub next_char : Position → ℕ → Option Position
next_char (need_word second) c = if is_slug_char c then some (in_word second) else none
next_char (in_word second) c =
    if is_slug_char c
    then some (in_word second)
    else if c == hyphen
    then some (need_word second)
    else if c == slash && not second
    then some (need_word true)
    else if c == newline
    then some past_newline
    else none
next_char past_newline c = none

-- `TOPIC_PATTERN.match(text)`, from a position.
unfoldable pub matches : Position → Text → Bool
matches p [] = at_end p
matches p (c ∷ cs) = elim (next_char p c) [ none ↦ false | some q ↦ matches q cs ]

-- `none` is the ValueError.
unfoldable pub validate_topic : (Text → Text) → Text → Option Text
unfolding matches
validate_topic lower value =
    if matches (need_word false) (lower value) then some (lower value) else none

abbrev pub max_len : ℕ
max_len = 256

-- `[\x00-\x20\x7f]`.
abbrev pub is_stripped : ℕ → Bool
is_stripped c = leb c 32 || c == 127

unfoldable pub validate_cleaned : (Text → Text) → Text → Option Text
unfolding validate_topic
validate_cleaned lower [] = none
validate_cleaned lower (c ∷ cs) = validate_topic lower (c ∷ cs)

unfoldable pub harden_llm_topic_path : (Text → Text) → Option Text → Option Text
harden_llm_topic_path lower none = none
harden_llm_topic_path lower (some []) = none
harden_llm_topic_path lower (some (c ∷ cs)) =
    if ltb max_len (length (c ∷ cs))
    then none
    else validate_cleaned lower (filter (λ d. not (is_stripped d)) (c ∷ cs))

-- ===== src/Validation/Title.antt =====
-- Titles, slugs, labels and free text: the rest of gubbi/validation.py.
use gubbi.Prelude.{
  ℕ, suc, Bool, true, false, ◌&&◌, ◌||◌, not, Option, none, some, [], ◌∷◌, ◌==◌, nat_eq, ltb, leb,
  if◌then◌else◌, take, filter, is_space, codes,
}
use gubbi.Validation.Topic.{Text, newline, hyphen, is_slug_char}

abbrev pub space : ℕ
space = 32

-- `[a-zA-Z0-9]`, and with " ", "_", "-".
abbrev pub is_alnum : ℕ → Bool
is_alnum c = is_slug_char c || leb 65 c && leb c 90

abbrev pub is_title_char : ℕ → Bool
is_title_char c = is_alnum c || (c == space || (c == 95 || c == hyphen))

-- str.strip(), of characters that the test names.
unfoldable pub drop_while : (ℕ → Bool) → Text → Text
drop_while test [] = []
drop_while test (c ∷ cs) = let rest = drop_while test cs in if test c then rest else c ∷ cs

abbrev keep_unless_blank : (ℕ → Bool) → ℕ → Text → Text
keep_unless_blank test c [] = if test c then [] else c ∷ []
keep_unless_blank test c (d ∷ ds) = c ∷ d ∷ ds

unfoldable pub rstrip : (ℕ → Bool) → Text → Text
rstrip test [] = []
rstrip test (c ∷ cs) = keep_unless_blank test c (rstrip test cs)

abbrev pub strip_of : (ℕ → Bool) → Text → Text
strip_of test t = rstrip test (drop_while test t)

-- `re.sub(r" {2,}", " ", value)`: `after` tells that a space stands before.
unfoldable pub collapse_spaces : (after : Bool) → Text → Text
collapse_spaces after [] = []
collapse_spaces after (c ∷ cs) =
    let rest = collapse_spaces (c == space) cs in if c == space && after then rest else c ∷ rest

-- TITLE_PATTERN.match behind the first character: how many characters have been read, and whether the
-- last of them is alphanumeric. `$` lets one newline pass at the end.
abbrev pub is_last_newline : ℕ → Text → Bool
is_last_newline c [] = c == newline
is_last_newline c (d ∷ ds) = false

unfoldable pub matches_title_from : ℕ → Bool → Text → Bool
matches_title_from n alnum [] = alnum
matches_title_from n alnum (c ∷ cs) =
    let rest = matches_title_from (suc n) (is_alnum c) cs in
    if is_title_char c then ltb n 100 && rest else alnum && is_last_newline c cs

unfoldable pub matches_title : Text → Bool
unfolding matches_title_from
matches_title [] = false
matches_title (c ∷ cs) = is_alnum c && matches_title_from 1 true cs

-- The sanitised title, before it is matched.
unfoldable pub sanitize_title : Text → Text
unfolding drop_while rstrip collapse_spaces
sanitize_title value =
    take 100
      (collapse_spaces false (strip_of is_space (filter is_title_char (strip_of is_space value))))

-- `none` is the ValueError. The pattern does not match the empty text either.
unfoldable pub validate_title : Text → Option Text
unfolding sanitize_title matches_title
validate_title value =
    let title = sanitize_title value in if matches_title title then some title else none

-- SLUG_PATTERN.sub("-", slug): a run of other characters becomes one hyphen; `after` tells that the
-- run has begun.
unfoldable pub hyphenate : (after : Bool) → Text → Text
hyphenate after [] = []
hyphenate after (c ∷ cs) =
    let rest = hyphenate (not (is_slug_char c)) cs in
    if is_slug_char c then c ∷ rest else if after then rest else hyphen ∷ rest

unfoldable pub slugify : (Text → Text) → Text → Text
unfolding drop_while rstrip hyphenate
slugify lower t = strip_of (λ c. c == hyphen) (hyphenate false (strip_of is_space (lower t)))

-- `[\x00-\x08\x0b\x0c\x0e-\x1f\x7f]`.
abbrev pub is_control : ℕ → Bool
is_control c = leb c 8 || (leb 11 c && leb c 12 || (leb 14 c && leb c 31 || c == 127))

abbrev pub is_label_char : ℕ → Bool
is_label_char c = is_alnum c || (c == space || (c == 46 || (c == 95 || c == hyphen)))

unfoldable pub sanitize_label : Text → ℕ → Text
unfolding drop_while rstrip
sanitize_label value limit =
    take limit (filter is_label_char (strip_of is_space (filter (λ c. not (is_control c)) value)))

unfoldable pub sanitize_freetext : Text → ℕ → Text
sanitize_freetext value limit = take limit (filter (λ c. not (is_control c)) value)

-- What a text begins with, and what stands behind.
unfoldable pub after_prefix : Text → Text → Option Text
after_prefix [] t = some t
after_prefix (c ∷ cs) [] = none
after_prefix (c ∷ cs) (d ∷ ds) = let rest = after_prefix cs ds in if c == d then rest else none

abbrev pub holds_rest : (Text → Bool) → Option Text → Bool
holds_rest test none = false
holds_rest test (some t) = test t

-- `re.search`: the test holds at some position.
abbrev pub found : (Text → Bool) → Text → Bool
found test [] = test []
found test (c ∷ cs) = test (c ∷ cs) || found test cs

abbrev pub blanks_then : Text → Text → Bool
blanks_then word [] = false
blanks_then word (c ∷ cs) =
    let rest = blanks_then word cs in
    is_space c && (holds_rest (λ t. true) (after_prefix word cs) || rest)

-- The three patterns, at one position.
unfoldable pub opens_named : Text → Bool
unfolding after_prefix
opens_named t = holds_rest (blanks_then (codes "name=")) (after_prefix (codes "<parameter") t)

unfoldable pub closes : Text → Bool
unfolding after_prefix
closes t = holds_rest (λ r. true) (after_prefix (codes "</parameter>") t)

-- `\w`, which `\b` looks for; the letters and digits beyond ASCII are `is_letter`'s.
module _ (is_letter : ℕ → Bool) where
  abbrev pub is_word_char : ℕ → Bool
  is_word_char c = is_alnum c || (c == 95 || leb 128 c && is_letter c)

  -- `\b` behind a word: no word character follows.
  abbrev pub at_boundary : Text → Bool
  at_boundary [] = true
  at_boundary (c ∷ cs) = not (is_word_char c)

  unfoldable pub opens_any : Text → Bool
  unfolding after_prefix
  opens_any t = holds_rest at_boundary (after_prefix (codes "<parameter") t)

  -- True where the text is refused with a ValueError.
  unfoldable pub reject_tool_call_syntax : Text → Bool
  unfolding opens_named closes opens_any
  reject_tool_call_syntax t = found opens_named t || (found closes t || found opens_any t)

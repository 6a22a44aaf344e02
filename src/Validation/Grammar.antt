-- ===== src/Validation/Grammar.antt =====
-- TOPIC_PATTERN against the topics that it is meant to describe.
use gubbi.Prelude.{
  ℕ, ◌≡◌, refl, Bool, true, false, ◌&&◌, not, List, [], ◌∷◌, ◌==◌, nat_eq, if◌then◌else◌,
  Bool-cases, inl, inr, arith,
}
use gubbi.Validation.Topic.{
  Text, is_slug_char, hyphen, slash, newline, need_word, in_word, past_newline, matches,
}

-- `text.split(sep)`.
abbrev push : ℕ → List Text → List Text
push c [] = (c ∷ []) ∷ []
push c (p ∷ ps) = (c ∷ p) ∷ ps

unfoldable pub split_on : ℕ → Text → List Text
split_on sep [] = [] ∷ []
split_on sep (c ∷ cs) = let rest = split_on sep cs in if c == sep then [] ∷ rest else push c rest

unfoldable pub all_slug : Text → Bool
all_slug [] = true
all_slug (c ∷ cs) = is_slug_char c && all_slug cs

abbrev pub is_word : Text → Bool
is_word [] = false
is_word (c ∷ cs) = all_slug (c ∷ cs)

unfoldable pub all_words : List Text → Bool
unfolding all_slug
all_words [] = true
all_words (p ∷ ps) = is_word p && all_words ps

-- A level: words joined by hyphens; `open_word` tells that its first word has begun before.
abbrev pub is_level_of : Bool → List Text → Bool
is_level_of open_word [] = false
is_level_of open_word (p ∷ ps) = (if open_word then all_slug p else is_word p) && all_words ps

abbrev pub is_level : Bool → Text → Bool
is_level open_word s = is_level_of open_word (split_on hyphen s)

-- What may follow a level: nothing, or one more level if it was the first.
abbrev pub ends_well : Bool → List Text → Bool
ends_well second [] = true
ends_well second (s ∷ []) = not second && is_level false s
ends_well second (s ∷ t ∷ ss) = false

abbrev pub are_levels : Bool → Bool → List Text → Bool
are_levels open_word second [] = false
are_levels open_word second (s ∷ ss) = is_level open_word s && ends_well second ss

-- One or two levels, separated by a slash.
unfoldable pub is_topic : Text → Bool
unfolding all_slug all_words split_on
is_topic t = are_levels false false (split_on slash t)

-- The text without a newline at its end.
unfoldable pub without_newline : Text → Text
without_newline [] = []
without_newline (c ∷ []) = if c == newline then [] else c ∷ []
without_newline (c ∷ d ∷ ds) = c ∷ without_newline (d ∷ ds)

split_on-cons : (sep : ℕ) (t : Text) → (s : Text) × (ss : List Text) × (split_on sep t ≡ s ∷ ss)
unfolding split_on
split_on-cons sep [] = ([], [], refl)
split_on-cons sep (c ∷ cs) =
    let (s, ss, e) = split_on-cons sep cs in
    elim (Bool-cases (c == sep)) [
      | inl cut ↦ ([], s ∷ ss, ground (arith, e))
      | inr same ↦ (c ∷ s, ss, ground (arith, e))
    ]

-- Reading a character of a word.
levels-slug :
    (open_word second : Bool) (c : ℕ) (t : Text)
    → is_slug_char c ≡ true
    → are_levels open_word second (split_on slash (c ∷ t))
      ≡ are_levels true second (split_on slash t)
unfolding split_on all_slug all_words nat_eq is_slug_char
levels-slug open_word second c t h =
    let (s, ss, e) = split_on-cons slash t in
    let (p, ps, f) = split_on-cons hyphen s in ground (arith, h, e, f)

-- A hyphen starts the next word of the level; a slash starts the second level.
levels-hyphen :
    (second : Bool) (t : Text)
    → are_levels true second (split_on slash (hyphen ∷ t))
      ≡ are_levels false second (split_on slash t)
unfolding split_on all_slug all_words nat_eq is_slug_char
levels-hyphen second t =
    let (s, ss, e) = split_on-cons slash t in
    let (p, ps, f) = split_on-cons hyphen s in ground (arith, e, f)

levels-slash :
    (second : Bool) (t : Text)
    → are_levels true second (split_on slash (slash ∷ t))
      ≡ (not second && are_levels false true (split_on slash t))
unfolding split_on all_slug all_words nat_eq is_slug_char
levels-slash second t = let (s, ss, e) = split_on-cons slash t in ground (arith, e)

-- No other character stands in a topic, and no separator starts a level.
levels-start :
    (second : Bool) (c : ℕ) (t : Text)
    → is_slug_char c ≡ false
    → are_levels false second (split_on slash (c ∷ t)) ≡ false
unfolding split_on all_slug all_words
levels-start second c t h =
    let (s, ss, e) = split_on-cons slash t in
    let (p, ps, f) = split_on-cons hyphen s in
    elim (Bool-cases (c == slash)) [
      | inl cut ↦ ground (arith, e)
      | inr same ↦ elim (Bool-cases (c == hyphen)) [
        | inl joined ↦ ground (arith, e, f)
        | inr other ↦ ground (arith, e, f)
      ]
    ]

levels-other :
    (second : Bool) (c : ℕ) (t : Text)
    → is_slug_char c ≡ false
    → (c == slash) ≡ false
    → (c == hyphen) ≡ false
    → are_levels true second (split_on slash (c ∷ t)) ≡ false
unfolding split_on all_slug all_words
levels-other second c t h no_slash no_hyphen =
    let (s, ss, e) = split_on-cons slash t in
    let (p, ps, f) = split_on-cons hyphen s in ground (arith, e, f)

-- What the matcher and the levels say of a text and of the text without its newline.
abbrev Agree : Text → Text → Type 0
Agree text topic =
    (second : Bool)
    → (matches (need_word second) text ≡ are_levels false second (split_on slash topic))
      × (matches (in_word second) text ≡ are_levels true second (split_on slash topic))

module _ (c : ℕ) (text topic : Text) (agree : Agree text topic) where
  agree_start :
      (second : Bool)
      → matches (need_word second) (c ∷ text) ≡ are_levels false second (split_on slash (c ∷ topic))
  unfolding matches
  agree_start second = elim (Bool-cases (is_slug_char c)) [
    | inl slug ↦ ground (arith, slug, levels-slug false second c topic slug, (agree second).1)
    | inr other ↦ ground (arith, other, levels-start second c topic other)
  ]

  agree_inside :
      (second : Bool)
      → (c == newline && matches past_newline text) ≡ false
      → matches (in_word second) (c ∷ text) ≡ are_levels true second (split_on slash (c ∷ topic))
  unfolding matches nat_eq
  agree_inside second last = elim (Bool-cases (is_slug_char c)) [
    | inl slug ↦ ground (arith, slug, levels-slug true second c topic slug, (agree second).1)
    | inr other ↦ elim (Bool-cases (c == hyphen)) [
      | inl joined ↦ ground (arith, joined, other, levels-hyphen second topic, (agree second).0)
      | inr no_hyphen ↦ elim (Bool-cases (c == slash)) [
        | inl cut ↦ ground (arith, cut, other, levels-slash second topic, (agree true).0)
        | inr no_slash ↦ ground (arith, last, levels-other second c topic other no_slash no_hyphen)
      ]
    ]
  ]

  Agree-step : (c == newline && matches past_newline text) ≡ false → Agree (c ∷ text) (c ∷ topic)
  Agree-step last second = (agree_start second, agree_inside second last)

Agree-empty : Agree [] []
unfolding matches split_on all_slug all_words
Agree-empty second = (refl, refl)

-- A newline at the end ends a word, and starts none.
Agree-newline : (c : ℕ) → c == newline ≡ true → Agree (c ∷ []) []
unfolding matches split_on all_slug all_words nat_eq is_slug_char
Agree-newline c last second = (ground arith, ground arith)

matches-past_newline :
    (c d : ℕ) (ds : Text) → (c == newline && matches past_newline (d ∷ ds)) ≡ false
unfolding matches
matches-past_newline c d ds = ground arith

matches-levels : (t : Text) → Agree t (without_newline t)
unfolding without_newline
matches-levels [] = Agree-empty
matches-levels (c ∷ []) = elim (Bool-cases (c == newline)) [
  | inl last ↦ rw last (Agree-newline c last)
  | inr other ↦ rw other (Agree-step c [] [] Agree-empty (ground arith))
]
matches-levels (c ∷ d ∷ ds) =
    Agree-step c (d ∷ ds) (without_newline (d ∷ ds)) (matches-levels (d ∷ ds))
      (matches-past_newline c d ds)

-- A text passes TOPIC_PATTERN exactly if it is a topic, or a topic and a newline: one or two levels
-- with a slash between them, each of one or more words of lowercase letters and digits, with single
-- hyphens between them.
pub matches-is_topic : (t : Text) → matches (need_word false) t ≡ is_topic (without_newline t)
unfolding is_topic
matches-is_topic t = (matches-levels t false).0

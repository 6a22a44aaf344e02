-- ===== src/Journal/Like.antt =====
-- LIKE, and the prefix patterns that the repositories make for it: _escape_like of
-- gubbi/storage/repositories/base.py.
use gubbi.Prelude.{
  ℕ, Bool, true, false, ◌&&◌, ◌||◌, List, [], ◌∷◌, ◌++◌, ◌==◌, nat_eq, if◌then◌else◌, ◌≡◌, refl, ap,
  arith,
}
use gubbi.Crypto.Utf8.{Text}

abbrev pub escape_mark : ℕ
escape_mark = 33

abbrev pub percent : ℕ
percent = 37

abbrev pub underscore : ℕ
underscore = 95

-- `s.replace("!", "!!").replace("%", "!%").replace("_", "!_")`, in one pass: the marks that the first
-- replacement writes are none of the characters that the later ones replace.
unfoldable pub escape_like : Text → Text
escape_like [] = []
escape_like (c ∷ cs) =
    if c == escape_mark || (c == percent || c == underscore)
    then escape_mark ∷ c ∷ escape_like cs
    else c ∷ escape_like cs

-- The items of a pattern.
pub data Wildcard : Type 0 where
  any_text any_char : Wildcard
  exactly : ℕ → Wildcard

abbrev pub wildcard : ℕ → Wildcard
wildcard c = if c == percent then any_text else if c == underscore then any_char else exactly c

-- `escaped` tells that an escape mark has been read. One at the end of a pattern is an error of
-- PostgreSQL's; no pattern of the code ends so.
unfoldable pub parse_pattern : (escaped : Bool) → Text → List Wildcard
parse_pattern escaped [] = []
parse_pattern true (c ∷ cs) = exactly c ∷ parse_pattern false cs
parse_pattern false (c ∷ cs) =
    let After-mark = parse_pattern true cs in
    let rest = parse_pattern false cs in if c == escape_mark then After-mark else wildcard c ∷ rest

abbrev pub is_end : Text → Bool
is_end [] = true
is_end (d ∷ ds) = false

-- Some rest of the text matches.
abbrev pub some_rest : (Text → Bool) → Text → Bool
some_rest test [] = test []
some_rest test (d ∷ ds) = test (d ∷ ds) || some_rest test ds

abbrev pub first_char : (ℕ → Bool) → (Text → Bool) → Text → Bool
first_char is test [] = false
first_char is test (d ∷ ds) = is d && test ds

unfoldable pub matches_items : List Wildcard → Text → Bool
matches_items [] t = is_end t
matches_items (any_text ∷ ws) t = some_rest (matches_items ws) t
matches_items (any_char ∷ ws) t = first_char (λ d. true) (matches_items ws) t
matches_items (exactly c ∷ ws) t = first_char (λ d. d == c) (matches_items ws) t

-- `text LIKE pattern ESCAPE '!'`.
unfoldable pub like : Text → Text → Bool
unfolding parse_pattern matches_items
like pattern t = matches_items (parse_pattern false pattern) t

-- The pattern that the repositories make of a prefix.
abbrev pub prefix_pattern : Text → Text
prefix_pattern prefix = escape_like prefix ++ (percent ∷ [])

unfoldable pub is_prefix : Text → Text → Bool
is_prefix [] t = true
is_prefix (c ∷ cs) [] = false
is_prefix (c ∷ cs) (d ∷ ds) = d == c && is_prefix cs ds

some_rest-is_end : (t : Text) → some_rest is_end t ≡ true
some_rest-is_end [] = refl
some_rest-is_end (d ∷ ds) = some_rest-is_end ds

parse_pattern-escape_like :
    (c : ℕ) (cs : Text)
    → parse_pattern false (prefix_pattern (c ∷ cs))
      ≡ exactly c ∷ parse_pattern false (prefix_pattern cs)
unfolding parse_pattern escape_like nat_eq
parse_pattern-escape_like c cs = ground arith

-- Whatever characters a prefix holds, the wildcards and the escape mark included, the pattern that
-- is made of it matches exactly the texts that start with the prefix.
pub like-prefix_pattern : (prefix t : Text) → like (prefix_pattern prefix) t ≡ is_prefix prefix t
unfolding like matches_items is_prefix
like-prefix_pattern [] t = unfold escape_like parse_pattern nat_eq in some_rest-is_end t
like-prefix_pattern (c ∷ cs) [] = rw (parse_pattern-escape_like c cs) refl
like-prefix_pattern (c ∷ cs) (d ∷ ds) =
    rw (parse_pattern-escape_like c cs) (ap (λ b. d == c && b) (like-prefix_pattern cs ds))

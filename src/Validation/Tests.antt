-- ===== src/Validation/Tests.antt =====
-- Runs of the topic validation. Texts are lower case already.
use gubbi.Prelude.{◌≡◌, ◌≤◌, refl, true, false, not, some, nat_eq, length, filter, contains, codes}
use gubbi.Validation.Topic.{
  Text, newline, need_word, matches, validate_topic, is_stripped, max_len, harden_llm_topic_path,
  is_slug_char, validate_cleaned,
}
use gubbi.Validation.Grammar.{is_topic, without_newline, matches-is_topic}
use gubbi.Validation.Harden.{harden_llm_topic_path_lem}

abbrev same : Text → Text
same t = t

matches-is_topic_example :
    matches (need_word false) (codes "work/my-app")
    ≡ is_topic (without_newline (codes "work/my-app"))
matches-is_topic_example = matches-is_topic (codes "work/my-app")

matches_test : matches (need_word false) (codes "a/b/c") ≡ false
unfolding matches nat_eq is_slug_char
matches_test = refl

is_topic_test : is_topic (codes "work/my-app") ≡ true
unfolding is_topic nat_eq is_slug_char
is_topic_test = refl

harden_llm_topic_path_lem_example :
    (is_topic (codes "work") ≡ true)
    × (contains (codes "work") newline ≡ false)
    × ((t : Text) × (some (codes " wo rk") ≡ some t)
        × (length t ≤ max_len)
        × (codes "work" ≡ same (filter (λ d. not (is_stripped d)) t)))
unfolding harden_llm_topic_path validate_topic validate_cleaned nat_eq is_slug_char
harden_llm_topic_path_lem_example =
    harden_llm_topic_path_lem same (λ t h. h) (some (codes " wo rk")) (codes "work") refl

-- ===== src/Validation/Harden.antt =====
-- What validate_topic and harden_llm_topic_path let through.
use gubbi.Prelude.{
  ◌≡◌, ◌≤◌, refl, ap, true, false, not, Option, none, some, [], ◌∷◌, ◌++◌, nat_eq, length, filter,
  contains, Bool-cases, inl, inr, arith,
}
use gubbi.Validation.Topic.{
  Text, newline, need_word, matches, validate_topic, validate_cleaned, is_stripped, max_len,
  harden_llm_topic_path,
}
use gubbi.Validation.Grammar.{is_topic, without_newline, matches-is_topic}

without_newline-append : (t : Text) → without_newline (t ++ (newline ∷ [])) ≡ t
unfolding without_newline nat_eq
without_newline-append [] = refl
without_newline-append (c ∷ []) = refl
without_newline-append (c ∷ d ∷ t) = ap (λ s. c ∷ s) (without_newline-append (d ∷ t))

without_newline_same : (t : Text) → contains t newline ≡ false → without_newline t ≡ t
unfolding without_newline
without_newline_same [] h = refl
without_newline_same (c ∷ []) h = ground arith
without_newline_same (c ∷ d ∷ t) h = ap (λ s. c ∷ s) (without_newline_same (d ∷ t) (ground arith))

-- A topic with a newline behind it passes validate_topic, which returns it with the newline, where
-- lowering leaves the text alone.
pub validate_topic-newline :
    (lower : Text → Text) (t : Text)
    → is_topic t ≡ true
    → lower (t ++ (newline ∷ [])) ≡ t ++ (newline ∷ [])
    → validate_topic lower (t ++ (newline ∷ [])) ≡ some (t ++ (newline ∷ []))
unfolding validate_topic
validate_topic-newline lower t topic same =
    rw (same, matches-is_topic (t ++ (newline ∷ [])), without_newline-append t, topic) refl

no_newline-filter : (t : Text) → contains (filter (λ d. not (is_stripped d)) t) newline ≡ false
unfolding nat_eq
no_newline-filter [] = refl
no_newline-filter (c ∷ t) = ground (arith, no_newline-filter t)

module _ (lower : Text → Text)
    (keeps : (t : Text) → contains t newline ≡ false → contains (lower t) newline ≡ false) where
  validate_topic_sound :
      (t r : Text)
      → contains t newline ≡ false
      → validate_topic lower t ≡ some r
      → (is_topic r ≡ true) × (contains r newline ≡ false) × (r ≡ lower t)
  unfolding validate_topic
  validate_topic_sound t r clean h =
      let same = without_newline_same (lower t) (keeps t clean) in
      elim (Bool-cases (matches (need_word false) (lower t))) [
        | inl good ↦ (
          ground (arith, matches-is_topic (lower t), same),
          ground (arith, keeps t clean),
          ground arith,
        )
        | inr bad ↦ ground arith
      ]

  validate_cleaned_sound :
      (t r : Text)
      → contains t newline ≡ false
      → validate_cleaned lower t ≡ some r
      → (is_topic r ≡ true) × (contains r newline ≡ false) × (r ≡ lower t)
  unfolding validate_cleaned
  validate_cleaned_sound [] r clean h = ground arith
  validate_cleaned_sound (c ∷ t) r clean h = validate_topic_sound (c ∷ t) r clean h

  checked :
      (t r : Text)
      → harden_llm_topic_path lower (some t) ≡ some r
      → (length t ≤ max_len)
        × (validate_cleaned lower (filter (λ d. not (is_stripped d)) t) ≡ some r)
  unfolding harden_llm_topic_path
  checked [] r h = ground arith
  checked (c ∷ t) r h = (ground arith, ground arith)

  -- What harden_llm_topic_path returns is a topic, without a newline, and comes from a text of at most
  -- 256 characters by stripping and lowering; provided that lowering puts no newline into a text
  -- that has none.
  pub harden_llm_topic_path_lem :
      (raw : Option Text) (r : Text)
      → harden_llm_topic_path lower raw ≡ some r
      → (is_topic r ≡ true)
        × (contains r newline ≡ false)
        × ((t : Text) × (raw ≡ some t)
            × (length t ≤ max_len)
            × (r ≡ lower (filter (λ d. not (is_stripped d)) t)))
  unfolding harden_llm_topic_path
  harden_llm_topic_path_lem none r h = ground arith
  harden_llm_topic_path_lem (some t) r h =
      let (short, found) = checked t r h in
      let (topic, clean, same) =
        validate_cleaned_sound (filter (λ d. not (is_stripped d)) t) r (no_newline-filter t)
          found in
      (topic, clean, (t, refl, short, same))

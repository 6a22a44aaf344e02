-- ===== src/Auth/Origin.antt =====
-- Which origins pass the origin check.
use gubbi.Prelude.{
  ℕ, ◌≡◌, ◌≢◌, refl, true, false, ◌||◌, some, List, [], ◌∷◌, ◌++◌, map, any, contains, arith, ◌==◌,
  nat_eq, list_eq, codes, ◌⊎◌, inl, inr, Bool-cases,
}
use gubbi.Auth.Strategies.{Text, lower_char, starts_with}
use gubbi.Auth.Middleware.{loopback_origins, is_loopback, origin_allowed}

starts_with_sound : (s p : Text) → starts_with s p ≡ true → (rest : Text) × (s ≡ p ++ rest)
unfolding starts_with
starts_with_sound s [] h = (s, refl)
starts_with_sound [] (p ∷ ps) h = cc
starts_with_sound (c ∷ s) (p ∷ ps) h =
    let (rest, same) = starts_with_sound s ps (ground arith) in (rest, ground arith)

-- The origin is a base, or a base and a colon and anything.
abbrev pub IsLoopbackOf : Text → List Text → Type 0
IsLoopbackOf origin [] = ⊥
IsLoopbackOf origin (base ∷ bases) =
    ((origin ≡ base) ⊎ ((port : Text) × (origin ≡ (base ++ codes ":") ++ port)))
    ⊎ IsLoopbackOf origin bases

loopback_sound :
    (origin : Text) (bases : List Text)
    → any (λ base. origin == base || starts_with origin (base ++ codes ":")) bases ≡ true
    → IsLoopbackOf origin bases
loopback_sound origin [] h = cc
loopback_sound origin (base ∷ bases) h = elim (Bool-cases (origin == base)) [
  | inl e ↦ inl (inl (ground arith))
  | inr e ↦ elim (Bool-cases (starts_with origin (base ++ codes ":"))) [
    | inl p ↦ inl (inr (starts_with_sound origin (base ++ codes ":") p))
    | inr p ↦ inr (loopback_sound origin bases (ground arith))
  ]
]

-- An HTTP request with an Origin header passes only if the origin, in lower case, is a loopback
-- origin, alone or followed by a colon and any text, or is in the allowlist.
pub origin_allowed_sound :
    (allowed : List Text) (origin : Text)
    → origin_allowed allowed true (some origin) ≡ true
    → IsLoopbackOf (map lower_char origin) loopback_origins
      ⊎ (contains (map (map lower_char) allowed) (map lower_char origin) ≡ true)
unfolding origin_allowed
origin_allowed_sound allowed origin h = elim (Bool-cases (is_loopback (map lower_char origin))) [
  | inl e ↦ inl (loopback_sound (map lower_char origin) loopback_origins e)
  | inr e ↦ inr (ground arith)
]

-- With an empty allowlist, "http://localhost" followed by any character but a colon does not pass:
-- http://localhost.evil.com is refused.
pub origin_allowed_suffix :
    (c : ℕ) (rest : Text)
    → c ≢ 58
    → origin_allowed [] true (some (codes "http://localhost" ++ (c ∷ rest))) ≡ false
unfolding origin_allowed starts_with list_eq nat_eq
origin_allowed_suffix c rest h = ground arith

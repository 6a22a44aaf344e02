-- ===== src/Auth/Scope.antt =====
-- Scope checks, gubbi/auth/scope.py. A set of scopes is a list; a dict is an association list.
use gubbi.Prelude.{
  String, ◌≡◌, refl, Bool, true, false, ◌&&◌, ◌||◌, Option, none, some, List, [], ◌∷◌, ◌++◌, arith,
  ◌==◌, string_eq, contains, any, if◌then◌else◌,
}

abbrev pub Grants : Type 0
Grants = List (String × List String)

-- SCOPE_GRANTS.
abbrev pub scope_grants : Grants
scope_grants =
    ("journal", "journal:read" ∷ "journal:write" ∷ [])
    ∷ ("journal:read", "journal:read" ∷ [])
    ∷ ("journal:write", "journal:write" ∷ [])
    ∷ []

-- _GRANTS_UNION.
unfoldable pub grants_union : Grants → List String
grants_union [] = []
grants_union ((scope, perms) ∷ g) = perms ++ grants_union g

-- An entry of _GRANT_INVERSE: the scopes whose grants hold the permission.
unfoldable pub granting_scopes : Grants → String → List String
granting_scopes [] perm = []
granting_scopes ((scope, perms) ∷ g) perm =
    let rest = granting_scopes g perm in if contains perms perm then scope ∷ rest else rest

-- `_GRANT_INVERSE.get(perm, frozenset())`: the index has an entry for each permission of the union.
unfoldable pub grant_inverse : Grants → String → List String
unfolding grants_union granting_scopes
grant_inverse g perm = if contains (grants_union g) perm then granting_scopes g perm else []

-- `bool(a & b)`.
unfoldable pub intersects : List String → List String → Bool
intersects a b = any (contains b) a

-- check_scope over a mapping. The code calls it with `scope_grants`.
unfoldable pub check_scope : Grants → List String → String → Bool
unfolding grant_inverse intersects
check_scope g token_scopes required_scope =
    if contains token_scopes required_scope
    then true
    else intersects (grants_union g) (required_scope ∷ [])
      && intersects (grant_inverse g required_scope) token_scopes

-- `SCOPE_GRANTS.get(scope)`.
unfoldable pub lookup_grant : Grants → String → Option (List String)
lookup_grant [] scope = none
lookup_grant ((s, perms) ∷ g) scope =
    let rest = lookup_grant g scope in if s == scope then some perms else rest

-- `a.issubset(b)`.
unfoldable pub subset : List String → List String → Bool
subset [] b = true
subset (x ∷ a) b = contains b x && subset a b

-- `expanded is not None and expanded.issubset(token_scopes)`.
abbrev pub grant_covered : Option (List String) → List String → Bool
grant_covered none token_scopes = false
grant_covered (some perms) token_scopes = subset perms token_scopes

-- _has_scope of the middleware and of the REST dependency.
unfoldable pub has_scope : Grants → List String → String → Bool
unfolding check_scope lookup_grant subset
has_scope g token_scopes required_scope =
    if check_scope g token_scopes required_scope
    then true
    else grant_covered (lookup_grant g required_scope) token_scopes

-- The wrapper of require_scope, about a tool call `m`: `none` is the insufficient-scope result.
unfoldable pub require_scope : {A : Type 0} → Grants → List String → String → A → Option A
require_scope g token_scopes scope m = if check_scope g token_scopes scope then some m else none

-- The reference: some token scope is the required one, or has a mapping entry that grants it.
abbrev pub grants_perm : Grants → String → String → Bool
grants_perm g perm scope = any (λ entry. entry.0 == scope && contains entry.1 perm) g

pub permitted : Grants → List String → String → Bool
permitted g token_scopes perm = contains token_scopes perm || any (grants_perm g perm) token_scopes

module _ (perm : String) where
  contains-append :
      (xs ys : List String) → contains (xs ++ ys) perm ≡ (contains xs perm || contains ys perm)
  contains-append [] ys = refl
  contains-append (x ∷ xs) ys = ground (arith, contains-append xs ys)

  intersects-singleton : (xs : List String) → intersects xs (perm ∷ []) ≡ contains xs perm
  unfolding intersects
  intersects-singleton [] = refl
  intersects-singleton (x ∷ xs) = ground (arith, intersects-singleton xs)

  -- A permission outside the union is granted by no scope.
  granting_scopes-outside :
      (g : Grants) → contains (grants_union g) perm ≡ false → granting_scopes g perm ≡ []
  unfolding grants_union granting_scopes
  granting_scopes-outside [] h = refl
  granting_scopes-outside ((s, perms) ∷ g) h =
      ground (arith, contains-append perms (grants_union g), granting_scopes-outside g)

  any-or :
      (f g : String → Bool) (xs : List String) → any (λ x. f x || g x) xs ≡ (any f xs || any g xs)
  any-or f g [] = refl
  any-or f g (x ∷ xs) = ground (arith, any-or f g xs)

  any-eq_and :
      (s : String) (b : Bool) (xs : List String) → any (λ x. s == x && b) xs ≡ (contains xs s && b)
  any-eq_and s b [] = ground arith
  any-eq_and s b (x ∷ xs) = ground (arith, any-eq_and s b xs)

  any-false : (xs : List String) → any (λ x. false) xs ≡ false
  any-false [] = refl
  any-false (x ∷ xs) = any-false xs

  granting-intersects :
      (g : Grants) (xs : List String)
      → intersects (granting_scopes g perm) xs ≡ any (grants_perm g perm) xs
  unfolding intersects granting_scopes
  granting-intersects [] xs = rw (any-false xs)
  granting-intersects ((s, perms) ∷ g) xs = ground (
    arith,
    granting-intersects g xs,
    any-eq_and s (contains perms perm) xs,
    any-or (λ x. s == x && contains perms perm) (grants_perm g perm) xs,
  )

  -- With any mapping, the indexed check decides what the plain definition says: the permission is
  -- among the token's scopes, or one of them grants it.
  pub check_scope-eq-permitted :
      (g : Grants) (token_scopes : List String)
      → check_scope g token_scopes perm ≡ permitted g token_scopes perm
  unfolding check_scope permitted
  check_scope-eq-permitted g token_scopes = ground (
    arith,
    intersects-singleton (grants_union g),
    granting_scopes-outside g,
    granting-intersects g token_scopes,
  )

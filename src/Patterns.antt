-- ===== src/Patterns.antt =====
-- The regular expressions of the services, over the code points of a text: entitySlugPattern and
-- fieldNamePattern of backend/internal/service/dynamic_model_service.go, and those of the other
-- files that the definitions name.
use Prim.Native.Char.{code}
use nexa_flow.Prelude.{
  ℕ, ◌≡◌, refl, Bool, true, false, ◌&&◌, ◌||◌, List, [], ◌∷◌, String, leb, length, ◌==◌, nat_eq,
  ℕ_discrete, if◌then◌else◌,
}

abbrev pub codes : String → List ℕ
codes (String.◌∷◌ first rest) = code first ∷ codes rest
codes String.[] = []

abbrev pub is_lower : ℕ → Bool
is_lower c = leb b'a' c && leb c b'z'

abbrev pub is_digit : ℕ → Bool
is_digit c = leb b'0' c && leb c b'9'

abbrev pub is_alnum : ℕ → Bool
is_alnum c = is_lower c || is_digit c

abbrev pub every : (ℕ → Bool) → List ℕ → Bool
every p [] = true
every p (c ∷ cs) = p c && every p cs

-- [a-z][a-z0-9<mark>]{least,most}
abbrev pub word : ℕ → ℕ → ℕ → List ℕ → Bool
word mark least most [] = false
word mark least most (c ∷ cs) =
    is_lower c
    && leb least (length cs)
    && leb (length cs) most
    && every (λ d. is_alnum d || d == mark) cs

abbrev pub ends_alnum : List ℕ → Bool
ends_alnum [] = false
ends_alnum (c ∷ []) = is_alnum c
ends_alnum (c ∷ d ∷ cs) = ends_alnum (d ∷ cs)

-- entitySlugPattern, ^[a-z][a-z0-9-]{1,78}[a-z0-9]$
unfoldable pub entity_slug_pattern : String → Bool
entity_slug_pattern s = word b'-' 2 79 (codes s) && ends_alnum (codes s)

-- fieldNamePattern, ^[a-z][a-z0-9_]{1,63}$
unfoldable pub field_name_pattern : String → Bool
field_name_pattern s = word b'_' 1 63 (codes s)

-- safeProp, ^[a-z][a-z0-9_]{0,31}$
unfoldable pub safe_prop : String → Bool
safe_prop s = word b'_' 0 31 (codes s)

-- [a-z0-9]+(_[a-z0-9]+)*, by whether the part before ends in a letter or a digit
unfoldable pub alnum_groups : Bool → List ℕ → Bool
alnum_groups ended [] = ended
alnum_groups ended (c ∷ cs) =
    if is_alnum c then alnum_groups true cs else ended && c == b'_' && alnum_groups false cs

-- migrationName of backend/internal/migration/runner.go, ^[a-z0-9]+(?:_[a-z0-9]+)*$
unfoldable pub migration_name : String → Bool
unfolding alnum_groups
migration_name s = alnum_groups false (codes s)

-- migrationChecksum beside it, ^[0-9a-f]{64}$
unfoldable pub migration_checksum : String → Bool
migration_checksum s =
    length (codes s) == 64 && every (λ c. is_digit c || (leb b'a' c && leb c b'f')) (codes s)

-- tenantSlugPattern of backend/internal/service/auth_service.go, ^[a-z0-9][a-z0-9-]{1,78}[a-z0-9]$
abbrev pub starts_alnum : List ℕ → Bool
starts_alnum [] = false
starts_alnum (c ∷ cs) = is_alnum c

unfoldable pub tenant_slug_pattern : String → Bool
tenant_slug_pattern s =
    leb 3 (length (codes s))
    && leb (length (codes s)) 80
    && starts_alnum (codes s)
    && ends_alnum (codes s)
    && every (λ c. is_alnum c || c == b'-') (codes s)

slug_accepted : entity_slug_pattern "purchase-order-2" ≡ true
unfolding entity_slug_pattern ℕ_discrete
slug_accepted = refl

slug_refused : entity_slug_pattern "purchase-" ≡ false
unfolding entity_slug_pattern ℕ_discrete
slug_refused = refl

-- ===== src/Accounts/Bearer.antt =====
-- What the Authorization header of an admitted request is (backend/internal/middleware/auth.go).
use nexa_flow.Prelude.{
  ◌≡◌, ◌≢◌, refl, sym, ap, inl, inr, not, ◌||◌, Option, none, some, String, ok, ◌==◌, string_eq,
  nat_eq, arith, passed, ok_injective, Bool-cases,
}
use Prim.Native.Char.{Char, code}
use nexa_flow.Strings.{trim_space}
use nexa_flow.Accounts.Service.{Security}
use nexa_flow.Accounts.Gate.{after_char, bearer, split_space}

-- A text, a character and a text, one after the other.
abbrev pub joined : String → Char → String → String
joined String.[] c t = String.◌∷◌ c t
joined (String.◌∷◌ d s) c t = String.◌∷◌ d (joined s c t)

-- The parts of a text around its first space.
abbrev pub Around : String → Option (String × String) → Type 0
Around s none = Unit
Around s (some (before, after)) = (c : Char) × (code c ≡ 32) × (s ≡ joined before c after)

after_char-Around :
    (c : Char) (s : String) (parts : Option (String × String))
    → Around s parts
    → Around (String.◌∷◌ c s) (after_char c parts)
after_char-Around c s none h = tt
after_char-Around c s (some (before, after)) (d, blank, e) = (d, blank, ap (λ t. String.◌∷◌ c t) e)

pub split_space-Around : (s : String) → Around s (split_space s)
unfolding split_space
split_space-Around String.[] = tt
split_space-Around (String.◌∷◌ c s) = elim (Bool-cases (code c == 32)) [
  | inl blank ↦ rw blank (c, ground (arith, blank), refl)
  | inr other ↦ rw other (after_char-Around c s (split_space s) (split_space-Around s))
]

-- A header of the scheme "Bearer", in letters of either case, and a token.
pub record IsBearer (sec : Security) (header token : String) : Type 0 where
  pub scheme : String
  pub sent : String
  pub separator : Char
  pub space : code separator ≡ 32
  pub split : header ≡ joined scheme separator sent
  pub named : sec.to_lower scheme ≡ "bearer"
  pub trimmed : token ≡ trim_space sent
  pub not_blank : token ≢ ""

pub bearer-IsBearer :
    (sec : Security) (header : String) (parts : Option (String × String)) (token : String)
    → Around header parts
    → bearer sec parts ≡ ok token
    → IsBearer sec header token
bearer-IsBearer sec header none token a h = cc
bearer-IsBearer sec header (some (scheme, sent)) token (c, blank, e) h =
    let p =
      passed (not (Security.to_lower sec scheme == "bearer") || trim_space sent == "") _ _ h in
    let same : trim_space sent ≡ token = ok_injective p.1 in
    record {
      scheme = scheme;
      sent = sent;
      separator = c;
      space = blank;
      split = e;
      named = ground (arith, p.0);
      trimmed = sym same;
      not_blank = λ q. absurd (ground (arith, p.0, same, q));
    }

-- ===== src/Strings.antt =====
-- The parts of Go's package strings that the services use, over texts that are valid UTF-8.
-- `len` counts bytes, as Go's does.
use Prim.Native.Char.{Char, code}
use nexa_flow.Prelude.{
  ℕ, ◌≡◌, refl, Bool, true, false, ◌&&◌, ◌||◌, String, leb, ◌==◌, if◌then◌else◌, nat_eq, ℕ_discrete,
}
use mathlib.Core.Option.{Option, none, some}
use text.Mathlib.Text.{find?}

-- unicode.IsSpace
unfoldable pub is_space : ℕ → Bool
is_space c =
    (leb 9 c && leb c 13)
    || c == 32
    || c == 0x85
    || c == 0xa0
    || c == 0x1680
    || (leb 0x2000 c && leb c 0x200a)
    || c == 0x2028
    || c == 0x2029
    || c == 0x202f
    || c == 0x205f
    || c == 0x3000

unfoldable pub trim_left : String → String
trim_left String.[] = String.[]
trim_left (String.◌∷◌ c s) = if is_space (code c) then trim_left s else String.◌∷◌ c s

-- Puts a character before a text, unless it is a space before nothing.
unfoldable pub cons_trimmed : Char → String → String
cons_trimmed c String.[] = if is_space (code c) then String.[] else String.◌∷◌ c String.[]
cons_trimmed c (String.◌∷◌ d s) = String.◌∷◌ c (String.◌∷◌ d s)

unfoldable pub trim_right : String → String
trim_right String.[] = String.[]
trim_right (String.◌∷◌ c s) = cons_trimmed c (trim_right s)

-- strings.TrimSpace
unfoldable pub trim_space : String → String
unfolding trim_left trim_right cons_trimmed is_space
trim_space s = trim_right (trim_left s)

abbrev is_some {ℓ} : {A : Type ℓ} → Option A → Bool
is_some none = false
is_some (some _) = true

-- strings.Contains
unfoldable pub contains_text : String → String → Bool
contains_text s t = is_some (find? s t)

trim_space_sides : trim_space " \t ab c \n" ≡ "ab c"
unfolding trim_space ℕ_discrete
trim_space_sides = refl

trim_space_blank : trim_space "  " ≡ ""
unfolding trim_space ℕ_discrete
trim_space_blank = refl

-- ===== src/Knowledge/Splitting.antt =====
-- normalizeText and splitKnowledge of backend/internal/service/knowledge_service.go. A text is the list
-- of its code points, which the code splits by; the slice runes[start:] stands for `start`. Chunks
-- overlap by no more than their size.
use nexa_flow.Prelude.{
  ℕ, zero, suc, ◌-◌, Bool, true, false, ◌||◌, List, [], ◌∷◌, Option, none, some, take, drop, length,
  leb, ◌==◌, nat_eq, if◌then◌else◌,
}
use nexa_flow.Strings.{is_space}

abbrev pub is_blank : List ℕ → Bool
is_blank [] = true
is_blank (c ∷ cs) = false

abbrev pub skip_spaces : List ℕ → List ℕ
skip_spaces [] = []
skip_spaces (c ∷ cs) = if is_space c then skip_spaces cs else c ∷ cs

-- Puts a code point before a text, unless it is a space before nothing.
abbrev pub cons_unless_blank : ℕ → List ℕ → List ℕ
cons_unless_blank c rest = if is_space c then (if is_blank rest then [] else c ∷ rest) else c ∷ rest

abbrev pub cut_spaces : List ℕ → List ℕ
cut_spaces [] = []
cut_spaces (c ∷ cs) = cons_unless_blank c (cut_spaces cs)

-- strings.TrimSpace
unfoldable pub trim_runes : List ℕ → List ℕ
unfolding is_space
trim_runes text = cut_spaces (skip_spaces text)

-- \s, which is [\t\n\f\r ]
abbrev pub is_regexp_space : ℕ → Bool
is_regexp_space c = c == 9 || c == 10 || c == 12 || c == 13 || c == 32

-- whitespace.ReplaceAllString(text, " "), by whether the code point before was replaced
unfoldable pub squeeze : Bool → List ℕ → List ℕ
squeeze replaced [] = []
squeeze replaced (c ∷ cs) =
    if is_regexp_space c
    then (if replaced then squeeze true cs else 32 ∷ squeeze true cs)
    else c ∷ squeeze false cs

-- normalizeText
unfoldable pub normalize_text : List ℕ → List ℕ
unfolding squeeze trim_runes
normalize_text text = trim_runes (squeeze false text)

abbrev pub with_chunk : List ℕ → List (List ℕ) → List (List ℕ)
with_chunk chunk chunks = if is_blank chunk then chunks else chunk ∷ chunks

abbrev pub option_with : List ℕ → Option (List (List ℕ)) → Option (List (List ℕ))
option_with chunk none = none
option_with chunk (some chunks) = some (with_chunk chunk chunks)

-- The loop, on fuel, from what is left of the text.
unfoldable pub split_from : ℕ → ℕ → ℕ → List ℕ → Option (List (List ℕ))
unfolding trim_runes
split_from zero size overlap runes = none
split_from (suc fuel) size overlap runes =
    let rest = split_from fuel size overlap (drop (size - overlap) runes) in
    if is_blank runes
    then some []
    else if leb (length runes) size
    then some (with_chunk (trim_runes (take size runes)) [])
    else option_with (trim_runes (take size runes)) rest

-- splitKnowledge
unfoldable pub split_knowledge : ℕ → ℕ → List ℕ → Option (List (List ℕ))
unfolding split_from
split_knowledge size overlap text = split_from (suc (length text)) size overlap text
